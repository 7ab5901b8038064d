-- ===== src/Loop/Requests.antt =====
-- GetNodeClasses, GetNodeAttributes, GetNodeReferences and GetNamespaces of NodesetExporterLoop.cpp: what
-- is asked of the server, and the checks of its answers.
pub mod Answers
use open62541_nodeset_export.Prelude.{
  List, Text, [], drop, if◌then◌else◌, is_empty, length, map, not, suc, take, ℕ, ◌&&◌, ◌-◌, ◌==◌,
  ◌∷◌,
}
use open62541_nodeset_export.Effect.{Effect, lift, pure, ◌>>=◌}
use open62541_nodeset_export.Interfaces.{
  IOpen62541, NodeAttributesRequestResponse, NodeClassesRequestResponse,
  NodeReferencesRequestResponse,
}
use open62541_nodeset_export.Loop.Options.{Options}
use open62541_nodeset_export.Loop.Wanted.{attribute_requests, namespaces_of}
use open62541_nodeset_export.Status.{
  Outcome, Status, fails, of_status, ok, out_of_range, runtime_error, throws,
}
use open62541_nodeset_export.Ua.{ExpandedNodeId, NodeClass, Ua, contains_expanded, ns0_expanded}
use open62541_nodeset_export.Ua.Ids.{ns0_standard_node_ids}

-- A batch of node ids, from `first` up to but not including `second`.
pub record NodeRange : Type 0 where
  pub first : ℕ
  pub second : ℕ

abbrev pub slice {ℓ} : {A : Type ℓ} → NodeRange → List A → List A
slice range xs = take (range.second - range.first) (drop range.first xs)

-- The size check that ends both methods.
abbrev pub check_size {ℓ} : {A : Type ℓ} → NodeRange → List A → Outcome (List A)
check_size range xs =
    if range.second - range.first == length xs then ok xs else throws runtime_error

module _ {W : Type 0} (ua : Ua) (lib : IOpen62541 W) (opts : Options) where
  unfoldable pub class_request : ExpandedNodeId → NodeClassesRequestResponse
  class_request id = record {
    exp_node_id = id;
    node_class = NodeClass.unspecified;
    result_code = 0;
  }

  -- The class of the start node that is to be created: no such node need exist.
  unfoldable pub assume_start_node :
      NodeRange → List NodeClassesRequestResponse → List NodeClassesRequestResponse
  assume_start_node range [] = []
  assume_start_node range (r ∷ rs) =
      if opts.is_enable
        && (opts.create_missing_start_node
            && ((range.first == 0)
                && not (contains_expanded ua ns0_standard_node_ids r.exp_node_id)))
      then record r { node_class = NodeClass.object; result_code = 0 } ∷ rs
      else r ∷ rs

  unfoldable pub get_node_classes :
      List ExpandedNodeId → NodeRange → Effect W (List NodeClassesRequestResponse)
  unfolding class_request
  get_node_classes node_ids range = do
    classes ← lib.read_node_classes (map class_request (slice range node_ids))
    pure (assume_start_node range classes)

  unfoldable pub reference_request : ExpandedNodeId → NodeReferencesRequestResponse
  reference_request id = record { exp_node_id = id; references = [] }

  -- A node with no reference at all is an error, but for the start node that is to be created.
  unfoldable pub check_references :
      ℕ → ℕ → List NodeReferencesRequestResponse → Outcome (List NodeReferencesRequestResponse)
  check_references first index [] = ok []
  check_references first index (node ∷ nodes) =
      let rest = check_references first (suc index) nodes in
      if is_empty node.references
        && not
            (opts.create_missing_start_node && (opts.is_enable && ((first == 0) && (index == 0))))
      then fails (of_status Status.fail)
      else elim rest [ ok nodes' ↦ ok (node ∷ nodes') | fails s ↦ fails s | throws x ↦ throws x ]

  unfoldable pub get_node_references :
      List ExpandedNodeId → NodeRange → Effect W (List NodeReferencesRequestResponse)
  unfolding reference_request
  get_node_references node_ids range = do
    answers ← lib.read_node_references (map reference_request (slice range node_ids))
    checked ← lift (check_references range.first 0 answers)
    lift (check_size range checked)

module _ {W : Type 0} (lib : IOpen62541 W) where
  -- The server is asked only if the first request of the range wants an attribute.
  unfoldable pub read_attributes :
      List NodeAttributesRequestResponse → Effect W (List NodeAttributesRequestResponse)
  read_attributes [] = lift (throws out_of_range)
  read_attributes (r ∷ rs) =
      if is_empty r.attrs then pure (r ∷ rs) else lib.read_nodes_attributes (r ∷ rs)

  unfoldable pub get_node_attributes :
      List NodeClass
      → List ExpandedNodeId
      → NodeRange
      → List NodeClassesRequestResponse
      → Effect W (List NodeAttributesRequestResponse)
  unfolding read_attributes
  get_node_attributes ignored node_ids range classes = do
    requests ←
        lift (attribute_requests ignored node_ids classes (range.second - range.first) range.first)
    answers ← read_attributes requests
    lift (check_size range answers)

  unfoldable pub get_namespaces : Effect W (List Text)
  get_namespaces = do v ← lib.read_node_data_value (ns0_expanded 2255); lift (namespaces_of v)
