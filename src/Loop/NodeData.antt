-- ===== src/Loop/NodeData.antt =====
-- The loop body of GetNodesData in NodesetExporterLoop.cpp: from what the server answered for one node
-- to the model that is exported, or to nothing when a filter drops the node. The body reads and writes
-- only the entries of its own index, so it takes those entries.
pub mod Body
pub mod Safe
pub mod Parents
pub mod Flat
pub mod Start
use open62541_nodeset_export.Prelude.{
  Bool, List, Option, [], false, if◌then◌else◌, none, not, some, ℕ, ◌&&◌, ◌*◌, ◌++◌, ◌==◌, ◌||◌,
  ◌∷◌,
}
use open62541_nodeset_export.Loop.Filters.{
  delete_all_hierarchical_references, delete_failed_references, delete_not_has_subtype_reference,
}
use open62541_nodeset_export.Loop.Options.{Options}
use open62541_nodeset_export.Loop.Parent.{get_base_object_type, get_parent_node_id}
use open62541_nodeset_export.Loop.StartNode.{
  StartLinks, add_custom_reference_to_node_id, add_start_node_if_not_found,
  create_attributes_for_start_node,
}
use open62541_nodeset_export.Model.{Attributes, NodeIntermediateModel}
use open62541_nodeset_export.Status.{Outcome, ok, runtime_error, throws, ◌>>=◌}
use open62541_nodeset_export.Ua.{
  ExpandedNodeId, NodeClass, ReferenceDescription, Ua, contains_class, contains_expanded,
}
use open62541_nodeset_export.Ua.Ids.{has_subtype, id_organizes, ns0_standard_node_ids}

-- What the body reads of the exporter, and node_ids.second.at(0).
pub record Context : Type 0 where
  pub options : Options
  pub open options use *
  pub ignored_nodeclasses : List NodeClass
  pub ignored_node_ids_by_classes : List ExpandedNodeId
  pub node_ids_set_copy : List ExpandedNodeId
  pub start_node_id : ExpandedNodeId

-- The entries of one index in the four vectors.
pub record Entry : Type 0 where
  pub index : ℕ
  pub exp_node_id : ExpandedNodeId
  pub node_class : NodeClass
  pub attrs : Attributes
  pub references : List ReferenceDescription

abbrev pub subtype_reference : ExpandedNodeId → ReferenceDescription
subtype_reference base = record {
  reference_type_id = has_subtype;
  is_forward = false;
  node_id = record { node_id = base.node_id; namespace_uri = []; server_index = 0 };
}

abbrev pub use_base_type : StartLinks → Bool
use_base_type links =
    links.has_start_node_subtype_detected && (links.start_node_reverse_reference_counter == 0)

-- A start node of a type class with no reverse reference left gets a base type as its parent.
unfoldable pub choose_parent :
    Ua → NodeClass → StartLinks → Outcome (Option ExpandedNodeId × List ReferenceDescription)
choose_parent ua node_class links =
    if use_base_type links
    then (get_base_object_type node_class >>= λ base.
        ok (some base, links.references ++ (subtype_reference base ∷ [])))
    else ok (get_parent_node_id ua node_class links.references, links.references)

module _ (ua : Ua) (ctx : Context) where
  -- The first three filters: the node is dropped.
  unfoldable pub is_ignored_node : Entry → Bool
  is_ignored_node e =
      (if ctx.ns0_custom_nodes_ready_to_work
        then contains_expanded ua ns0_standard_node_ids e.exp_node_id
        else e.exp_node_id.node_id.namespace_index == 0)
      || contains_class ctx.ignored_nodeclasses e.node_class

  -- The reference filters, by the mode.
  unfoldable pub filter_references : Entry → List ReferenceDescription
  filter_references e =
      if ctx.is_enable
      then delete_all_hierarchical_references ua e.references
      else delete_not_has_subtype_reference ua e.node_class (
          delete_failed_references ua ctx.ignored_node_ids_by_classes ctx.node_ids_set_copy
            e.references)

  -- The artificial start node of the flat mode gets its attributes and its type.
  unfoldable pub create_start_node :
      Entry → List ReferenceDescription → Outcome (Attributes × List ReferenceDescription)
  create_start_node e refs =
      if ctx.is_enable && (ctx.create_missing_start_node && (e.index == 0))
      then create_attributes_for_start_node e.exp_node_id e.attrs
      else ok (e.attrs, refs)

  -- In the flat mode every later node hangs under the start node.
  unfoldable pub link_to_start_node : Entry → List ReferenceDescription → List ReferenceDescription
  link_to_start_node e refs =
      if ctx.is_enable && not (e.index == 0)
      then add_custom_reference_to_node_id ctx.start_node_id id_organizes false refs
      else refs

  unfoldable pub link_start_node : Entry → List ReferenceDescription → StartLinks
  link_start_node e refs =
      if e.index == 0
      then add_start_node_if_not_found ua ctx.options e.node_class refs
      else record {
        references = refs;
        has_start_node_subtype_detected = false;
        start_node_reverse_reference_counter = 0;
      }

  -- The model is filled in; a node with no parent is dropped.
  unfoldable pub fill_model :
      Entry
      → Attributes
      → Option ExpandedNodeId
      → List ReferenceDescription
      → Outcome (Option NodeIntermediateModel)
  fill_model e attrs none refs = ok none
  fill_model e attrs (some parent) [] = throws runtime_error
  fill_model e attrs (some parent) (ref ∷ refs) = ok (
      some (record {
        exp_node_id = e.exp_node_id;
        parent_node_id = parent;
        node_class = e.node_class;
        references = ref ∷ refs;
        attributes = attrs;
      }))

  unfoldable pub export_entry : Entry → Outcome (Option NodeIntermediateModel)
  export_entry e = do
    (attrs, refs) ← create_start_node e (filter_references e)
    let links = link_start_node e (link_to_start_node e refs)
    (parent, refs') ← choose_parent ua e.node_class links
    fill_model e attrs parent refs'

  unfoldable pub node_model : Entry → Outcome (Option NodeIntermediateModel)
  unfolding export_entry
  node_model e = if is_ignored_node e then ok none else export_entry e
