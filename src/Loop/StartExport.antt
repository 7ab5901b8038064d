-- ===== src/Loop/StartExport.antt =====
-- StartExport of NodesetExporterLoop.cpp, with Begin, End, ExportNamespaces and ExportAliases of
-- NodesetExporterLoop.h.
pub mod Written
pub mod Content
pub mod Gives
pub mod Ranges
pub mod Success
pub mod Order
pub mod Codes
pub mod Ignored
use open62541_nodeset_export.Prelude.{
  Bool, List, [], if◌then◌else◌, is_empty, leb, length, suc, ◌++◌, ◌-◌, ◌==◌, ◌||◌, ◌∷◌,
}
use open62541_nodeset_export.Effect.{Effect, lift, or_sub_status, pure, ◌>>=◌}
use open62541_nodeset_export.Interfaces.{IEncoder, IOpen62541, NodeClassesRequestResponse}
use open62541_nodeset_export.Loop.Aliases.{Aliases, get_aliases}
use open62541_nodeset_export.Loop.Batches.{in_nodes_loop}
use open62541_nodeset_export.Loop.Distinct.{check_start_nodes_on_ns0, distinct}
use open62541_nodeset_export.Loop.ExportNodes.{export_nodes}
use open62541_nodeset_export.Loop.Exporter.{Exporter, NodeLists, no_exported_nodes}
use open62541_nodeset_export.Loop.KepServer.{kep_server_ref_fix}
use open62541_nodeset_export.Loop.NodesData.{collect_models}
use open62541_nodeset_export.Loop.Requests.{
  NodeRange, get_namespaces, get_node_attributes, get_node_classes, get_node_references,
}
use open62541_nodeset_export.Model.{NodeIntermediateModel}
use open62541_nodeset_export.Status.{
  Status, begin_fail, end_fail, export_aliases_fail, export_namespaces_fail, export_nodes_fail,
  fails, get_aliases_fail, get_namespaces_fail, get_node_classes_fail, get_nodes_data_fail,
  of_status, ok, runtime_error, throws,
}
use open62541_nodeset_export.Ua.{ExpandedNodeId, NodeClass, Ua, contains_class, insert_expanded}

module _ {W E : Type 0} where
  -- A call of the server or of the encoder from the exporter.
  abbrev pub on_server : {A : Type 0} → Effect W A → Effect (Exporter W E) A
  on_server m x = let (o, w) = m x.server in (o, record x { server = w })

  abbrev pub on_encoder : {A : Type 0} → Effect E A → Effect (Exporter W E) A
  on_encoder m x = let (o, e) = m x.encoder in (o, record x { encoder = e })

  -- A step on the set of ignored nodes.
  abbrev pub on_ignored : {A : Type 0} → Effect (List ExpandedNodeId) A → Effect (Exporter W E) A
  on_ignored m x =
      let (o, ids) = m x.ignored_node_ids_by_classes in
      (o, record x { ignored_node_ids_by_classes = ids })

  abbrev pub get : Effect (Exporter W E) (Exporter W E)
  get x = (ok x, x)

  abbrev pub modify : (Exporter W E → Exporter W E) → Effect (Exporter W E) (Unit {0})
  modify f x = (ok tt, f x)

  module _ (ua : Ua) (lib : IOpen62541 W) (enc : IEncoder E) where
    unfoldable pub get_nodes_data :
        List ExpandedNodeId
        → NodeRange
        → List NodeClassesRequestResponse
        → Effect (Exporter W E) (List NodeIntermediateModel)
    get_nodes_data node_ids range classes = do
      x ← get
      attrs ← on_server (get_node_attributes lib x.ignored_nodeclasses node_ids range classes)
      answers ← on_server (get_node_references ua lib x.options node_ids range)
      references ← lift (kep_server_ref_fix ua answers)
      lift (
          collect_models ua x
            (record {
              node_ids = node_ids;
              classes = classes;
              attrs = attrs;
              references = references;
            })
            range.first (range.second - range.first) range.first)

    -- The nodes whose class is ignored.
    unfoldable pub ignore_nodes :
        List NodeClass → List NodeClassesRequestResponse → List ExpandedNodeId → List ExpandedNodeId
    ignore_nodes ignored [] ids = ids
    ignore_nodes ignored (c ∷ cs) ids =
        ignore_nodes ignored cs (
          if contains_class ignored c.node_class then insert_expanded ua c.exp_node_id ids else ids)

    -- The same loop of the branch with one request, which also checks the result codes. The set keeps what
    -- went in before a bad code.
    unfoldable pub ignore_nodes_checked :
        List NodeClass → List NodeClassesRequestResponse → Effect (List ExpandedNodeId) (Unit {0})
    ignore_nodes_checked ignored [] ids = (ok tt, ids)
    ignore_nodes_checked ignored (c ∷ cs) ids =
        let rest = ignore_nodes_checked ignored cs (
          if contains_class ignored c.node_class
          then insert_expanded ua c.exp_node_id ids
          else ids) in
        if ua.is_bad c.result_code then (fails (of_status Status.fail), ids) else rest

    -- Aliases and export of the models of one range.
    unfoldable pub export_models :
        List NodeIntermediateModel → Aliases → Effect (Exporter W E) Aliases
    export_models [] aliases = pure aliases
    export_models (m ∷ ms) aliases = do
      more ← or_sub_status (lift (get_aliases ua (m ∷ ms) aliases)) get_aliases_fail
      _ ← or_sub_status (export_nodes enc (m ∷ ms)) export_nodes_fail
      pure more

    unfoldable pub check_class_size :
        List ExpandedNodeId → List NodeClassesRequestResponse → Effect (Exporter W E) (Unit {0})
    check_class_size node_ids classes =
        lift (if length node_ids == length classes then ok tt else throws runtime_error)

    -- The branch with a single request.
    unfoldable pub export_at_once : List ExpandedNodeId → Aliases → Effect (Exporter W E) Aliases
    unfolding check_class_size
    export_at_once node_ids aliases = do
      let range : NodeRange = record { first = 0; second = length node_ids }
      x ← get
      classes ←
          or_sub_status (on_server (get_node_classes ua lib x.options node_ids range))
            get_node_classes_fail
      _ ← check_class_size node_ids classes
      _ ← on_ignored (ignore_nodes_checked x.ignored_nodeclasses classes)
      models ← or_sub_status (get_nodes_data node_ids range classes) get_nodes_data_fail
      export_models models aliases

    -- The two functions of the branch with batches.
    unfoldable pub get_part_of_node_classes :
        List ExpandedNodeId
        → NodeRange
        → List NodeClassesRequestResponse
        → Effect (Exporter W E) (List NodeClassesRequestResponse)
    get_part_of_node_classes node_ids range classes = do
      x ← get
      part ← on_server (get_node_classes ua lib x.options node_ids range)
      _ ← modify (λ y. record y {
        ignored_node_ids_by_classes =
            ignore_nodes y.ignored_nodeclasses part y.ignored_node_ids_by_classes;
      })
      pure (classes ++ part)

    unfoldable pub get_node_data_and_export :
        List ExpandedNodeId
        → List NodeClassesRequestResponse
        → NodeRange
        → Aliases
        → Effect (Exporter W E) Aliases
    get_node_data_and_export node_ids classes range aliases = do
      models ← or_sub_status (get_nodes_data node_ids range classes) get_nodes_data_fail
      export_models models aliases

    unfoldable pub export_in_batches : List ExpandedNodeId → Aliases → Effect (Exporter W E) Aliases
    unfolding check_class_size
    export_in_batches node_ids aliases = do
      x ← get
      let size = length node_ids
      let number = x.number_of_max_nodes_to_request_data
      classes ←
          or_sub_status
            (in_nodes_loop (suc size) size number (get_part_of_node_classes node_ids) 0 [])
            get_node_classes_fail
      _ ← check_class_size node_ids classes
      in_nodes_loop (suc size) size number (get_node_data_and_export node_ids classes) 0 aliases

    abbrev pub choose_branch : List ExpandedNodeId → Aliases → Bool → Effect (Exporter W E) Aliases
    choose_branch node_ids aliases single =
        if single then export_at_once node_ids aliases else export_in_batches node_ids aliases

    -- The loop over the lists of start nodes.
    unfoldable pub export_list : List ExpandedNodeId → Aliases → Effect (Exporter W E) Aliases
    export_list node_ids aliases = do
      (kept, seen) ← lift (distinct ua node_ids)
      _ ← modify (λ y. record y { node_ids_set_copy = seen })
      x ← get
      choose_branch kept aliases (
          leb (length kept) x.number_of_max_nodes_to_request_data
          || (x.number_of_max_nodes_to_request_data == 0))

    unfoldable pub export_lists : NodeLists → Aliases → Effect (Exporter W E) Aliases
    export_lists [] aliases = pure aliases
    export_lists ((name, node_ids) ∷ lists) aliases = do
      more ← export_list node_ids aliases
      export_lists lists more

    -- Begin clears the statistics first.
    unfoldable pub begin_export : Effect (Exporter W E) (Unit {0})
    begin_export = do
      _ ← modify (λ y. record y { exported_nodes = no_exported_nodes })
      on_encoder enc.begin

    unfoldable pub export_aliases : Aliases → Effect (Exporter W E) (Unit {0})
    export_aliases aliases =
        if is_empty aliases
        then pure tt
        else or_sub_status (on_encoder (enc.add_aliases aliases)) export_aliases_fail

    unfoldable pub start_export : Effect (Exporter W E) (Unit {0})
    start_export = do
      x ← get
      _ ← lift (check_start_nodes_on_ns0 ua x.options x.node_ids)
      _ ← or_sub_status begin_export begin_fail
      namespaces ← or_sub_status (on_server (get_namespaces lib)) get_namespaces_fail
      _ ← or_sub_status (on_encoder (enc.add_namespaces namespaces)) export_namespaces_fail
      aliases ← export_lists x.node_ids []
      _ ← export_aliases aliases
      or_sub_status (on_encoder enc.end) end_fail
