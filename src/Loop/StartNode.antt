-- ===== src/Loop/StartNode.antt =====
-- AddCustomRefferenceToNodeID, AddStartNodeIfNotFound and CreateAttributesForStartNode of
-- NodesetExporterLoop.cpp, on the reference list and the attributes of the node concerned.
pub mod Links
use open62541_nodeset_export.Prelude.{
  Bool, List, Text, [], codes, false, if◌then◌else◌, none, not, some, true, ℕ, ◌&&◌, ◌+◌, ◌∷◌,
}
use open62541_nodeset_export.Loop.Options.{Options}
use open62541_nodeset_export.Model.{Attributes, assign_attribute, find_attribute}
use open62541_nodeset_export.Status.{Outcome, ok, out_of_range, throws, ◌>>=◌}
use open62541_nodeset_export.Strings.{c_string, ua_guid_identifier_to_std_string}
use open62541_nodeset_export.Ua.{
  AttrValue, ExpandedNodeId, NodeClass, ReferenceDescription, Ua, contains_class, localized_text,
  ns0_expanded, ns0_node_id, qualified_name, scalar,
}
use open62541_nodeset_export.Ua.Ids.{
  base_data_variable_type_node_id, base_object_type_node_id, has_type_definition, id_folder_type,
  id_has_component, id_organizes, objects_folder, types_nodeclasses,
}

-- The new reference goes to the front.
unfoldable pub add_custom_reference_to_node_id :
    ExpandedNodeId → ℕ → Bool → List ReferenceDescription → List ReferenceDescription
add_custom_reference_to_node_id target type_id is_forward refs =
    record { reference_type_id = ns0_node_id type_id; is_forward = is_forward; node_id = target }
    ∷ refs

-- The references of the start node, and the two variables that the source passes by reference.
pub record StartLinks : Type 0 where
  pub references : List ReferenceDescription
  pub has_start_node_subtype_detected : Bool
  pub start_node_reverse_reference_counter : ℕ

module _ (ua : Ua) where
  -- The loop: whether i=85 was met, and the reverse references before it.
  unfoldable pub count_until_i85 : List ReferenceDescription → ℕ → Bool × ℕ
  count_until_i85 [] counter = (false, counter)
  count_until_i85 (ref ∷ refs) counter =
      let rest = count_until_i85 refs (counter + (if ref.is_forward then 0 else 1)) in
      if ua.node_id_equal ref.node_id.node_id objects_folder then (true, counter) else rest

  unfoldable pub add_abstract_parents :
      Options → List ReferenceDescription → List ReferenceDescription
  unfolding add_custom_reference_to_node_id
  add_abstract_parents opts refs =
      if opts.is_enable && (opts.create_missing_start_node && opts.allow_abstract_variable)
      then add_custom_reference_to_node_id base_data_variable_type_node_id id_has_component false
          (add_custom_reference_to_node_id base_object_type_node_id id_has_component false refs)
      else refs

  unfoldable pub add_start_node_if_not_found :
      Options → NodeClass → List ReferenceDescription → StartLinks
  unfolding count_until_i85 add_abstract_parents
  add_start_node_if_not_found opts node_class refs =
      let (is_found_i85, counter) = count_until_i85 refs 0 in
      if not is_found_i85
      then record {
        references =
            add_custom_reference_to_node_id opts.parent_start_node_replacer id_organizes false
              (add_abstract_parents opts refs);
        has_start_node_subtype_detected = contains_class types_nodeclasses node_class;
        start_node_reverse_reference_counter = counter;
      }
      else record {
        references = refs;
        has_start_node_subtype_detected = false;
        start_node_reverse_reference_counter = counter;
      }

-- attrs.at(key).emplace(value), which throws where the key is missing.
abbrev pub emplace_at : ℕ → AttrValue → Attributes → Outcome Attributes
emplace_at k v m = elim (find_attribute m k) [
  | none ↦ throws out_of_range
  | some _ ↦ ok (assign_attribute k (some v) m)
]

abbrev pub plain_text : Text → AttrValue
plain_text t = scalar (localized_text (record { locale = []; text = t }))

abbrev pub folder_type_reference : ReferenceDescription
folder_type_reference = record {
  reference_type_id = has_type_definition;
  is_forward = true;
  node_id = ns0_expanded id_folder_type;
}

-- The attributes of the node that is made up, and its only reference.
unfoldable pub create_attributes_for_start_node :
    ExpandedNodeId → Attributes → Outcome (Attributes × List ReferenceDescription)
create_attributes_for_start_node id attrs = do
  let name = c_string (ua_guid_identifier_to_std_string id.node_id)
  attrs1 ←
      emplace_at 3
        (scalar
          (qualified_name (record { namespace_index = id.node_id.namespace_index; name = name })))
        attrs
  attrs2 ← emplace_at 4 (plain_text name) attrs1
  attrs3 ← emplace_at 5 (plain_text (codes "This is autogenerated start node.")) attrs2
  ok (attrs3, folder_type_reference ∷ [])
