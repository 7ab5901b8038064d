-- ===== src/Loop/Parent.antt =====
-- GetParentNodeId and GetBaseObjectType of NodesetExporterLoop.cpp.
pub mod First
pub mod Base
use open62541_nodeset_export.Prelude.{
  Bool, List, Option, [], if◌then◌else◌, none, not, some, ◌&&◌, ◌||◌, ◌∷◌,
}
use open62541_nodeset_export.Status.{Outcome, ok, out_of_range, throws}
use open62541_nodeset_export.Ua.{
  ExpandedNodeId, NodeClass, ReferenceDescription, Ua, contains_class, ns0_expanded,
}
use open62541_nodeset_export.Ua.Ids.{has_subtype, types_nodeclasses}

module _ (ua : Ua) where
  -- The two tests of the loop's body on one reference.
  abbrev pub is_parent_reference : NodeClass → ReferenceDescription → Bool
  is_parent_reference node_class ref =
      not ref.is_forward
      && (contains_class types_nodeclasses node_class
            && ua.node_id_equal ref.reference_type_id has_subtype
          || not (contains_class types_nodeclasses node_class))

  unfoldable pub get_parent_node_id : NodeClass → List ReferenceDescription → Option ExpandedNodeId
  get_parent_node_id node_class [] = none
  get_parent_node_id node_class (ref ∷ refs) =
      let rest = get_parent_node_id node_class refs in
      if is_parent_reference node_class ref then some ref.node_id else rest

unfoldable pub get_base_object_type : NodeClass → Outcome ExpandedNodeId
get_base_object_type NodeClass.object_type = ok (ns0_expanded 58)
get_base_object_type NodeClass.variable_type = ok (ns0_expanded 62)
get_base_object_type NodeClass.reference_type = ok (ns0_expanded 33)
get_base_object_type NodeClass.data_type = ok (ns0_expanded 24)
get_base_object_type _ = throws out_of_range
