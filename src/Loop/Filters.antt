-- ===== src/Loop/Filters.antt =====
-- DeleteFailedReferences, DeleteAllHierarhicalReferences and DeleteNotHasSubtypeReference of
-- NodesetExporterLoop.cpp, on the reference list of the one node that they are called for.
pub mod Exact
use open62541_nodeset_export.Prelude.{Bool, List, [], if◌then◌else◌, not, ◌&&◌, ◌==◌, ◌∷◌}
use open62541_nodeset_export.Ua.{
  ExpandedNodeId, NodeClass, ReferenceDescription, Ua, contains_class, contains_expanded,
  contains_node_id,
}
use open62541_nodeset_export.Ua.Ids.{
  has_subtype, hierarchical_references, objects_folder, types_nodeclasses,
}

module _ (ua : Ua) where
  -- `ignored` is m_ignored_node_ids_by_classes and `ids` is m_node_ids_set_copy.
  unfoldable pub delete_failed_references :
      List ExpandedNodeId
      → List ExpandedNodeId
      → List ReferenceDescription
      → List ReferenceDescription
  delete_failed_references ignored ids [] = []
  delete_failed_references ignored ids (ref ∷ refs) =
      let rest = delete_failed_references ignored ids refs in
      if not (ref.node_id.node_id.namespace_index == 0)
      then (if contains_expanded ua ignored ref.node_id
          then rest
          else if not (contains_expanded ua ids ref.node_id)
          then rest
          else ref ∷ rest)
      else ref ∷ rest

  unfoldable pub delete_all_hierarchical_references :
      List ReferenceDescription → List ReferenceDescription
  delete_all_hierarchical_references [] = []
  delete_all_hierarchical_references (ref ∷ refs) =
      let rest = delete_all_hierarchical_references refs in
      if contains_node_id ua hierarchical_references ref.reference_type_id then rest else ref ∷ rest

  -- The condition of the inner `if`: a reverse reference of a wrong type, not to i=85.
  abbrev pub is_wrong_reverse : ReferenceDescription → Bool
  is_wrong_reverse ref =
      not ref.is_forward
      && not (ua.node_id_equal ref.reference_type_id has_subtype)
      && not (ua.node_id_equal ref.node_id.node_id objects_folder)

  unfoldable pub delete_not_has_subtype_reference :
      NodeClass → List ReferenceDescription → List ReferenceDescription
  delete_not_has_subtype_reference node_class [] = []
  delete_not_has_subtype_reference node_class (ref ∷ refs) =
      let rest = delete_not_has_subtype_reference node_class refs in
      if contains_class types_nodeclasses node_class
      then (if is_wrong_reverse ref then rest else ref ∷ rest)
      else ref ∷ rest
