-- ===== src/Tests/Encoder.antt =====
-- The encoder for XML on one node, and the texts of its attributes.
use open62541_nodeset_export.Prelude.{
  List, Text, [], arith, codes, false, if◌then◌else◌, inl, refl, some, true, ◌∷◌, ◌≡◌,
}
use open62541_nodeset_export.AttributeText.{
  append_dimensions, to_chars, ua_array_dimension_to_xml_string, ua_attr_node_id_to_xml_string,
  ua_expanded_to_xml_string, ua_localized_text_to_xml_string, ua_node_id_to_xml_string,
  ua_primitives_to_xml_string, ua_qualified_name_to_xml_string,
}
use open62541_nodeset_export.AttributeText.Dimensions.{read_numbers, read_numbers-dimensions}
use open62541_nodeset_export.AttributeText.Numbers.{primitives-scalar_text, scalar_text}
use open62541_nodeset_export.Loop.ExportNodes.{add_node}
use open62541_nodeset_export.Model.{
  NodeIntermediateModel, alias_of_attribute, alias_of_value, data_type_text, get_data_type_alias,
  get_node_reference_type_aliases, reference_type_text,
}
use open62541_nodeset_export.Prelude.Int.{negsuc}
use open62541_nodeset_export.Samples.{sample_ua}
use open62541_nodeset_export.Samples.Document.{
  Tree, empty_document, no_kids, sample_xml, sample_xml_laws, tag_node,
}
use open62541_nodeset_export.Samples.Server.{id_of, link, name_of_number}
use open62541_nodeset_export.Status.{Outcome, Status, fails, of_status, ok}
use open62541_nodeset_export.Strings.{
  c_string, digits_from, guid_to_hex, hex_bytes, hex_field, to_string,
  ua_guid_identifier_to_std_string,
}
use open62541_nodeset_export.Texts.{compare_text}
use open62541_nodeset_export.Ua.{
  NodeClass, byte, contains_expanded, contains_node_id, expanded_less, expanded_to_string,
  insert_expanded, int32, node_id_less, node_id_to_string, ns0_expanded, ns0_node_id, or_error,
  same_expanded, same_node_id, scalar, uint32_array,
}
use open62541_nodeset_export.XmlEncoder.{
  XmlEncoder, add_alias_elements, add_node_element, add_uris, basic_check, document,
  encoder_to_buffer, insert_aliases, new_nodeset, reset, set_namespaces_of_schema, xml_add_aliases,
  xml_add_namespaces, xml_add_node_data_type, xml_add_node_object, xml_add_node_object_type,
  xml_add_node_reference_type, xml_add_node_variable, xml_add_node_variable_type, xml_begin,
  xml_encoder, xml_end,
}
use open62541_nodeset_export.XmlEncoder.Accepts.{xml_add_node-verdict}
use open62541_nodeset_export.XmlEncoder.Layout.{IsLaidOut}
use open62541_nodeset_export.XmlEncoder.Layout.Calls.{run_calls-IsLaidOut}
use open62541_nodeset_export.XmlEncoder.Nodes.{IsAdded, xml_add_node-IsAdded}
use open62541_nodeset_export.XmlEncoder.Protocol.{
  EncoderCall, aliases_call, begin_call, namespaces_call, object_call, run_call, run_call-refused,
  run_calls, variable_call,
}
use open62541_nodeset_export.XmlNode.{
  add_localized, add_optional, add_parent, add_references, add_required, fill_localized,
  fill_reference, fill_references, get_and_check_ua_attribute, is_default, text_unless_default,
}
use open62541_nodeset_export.XmlNode.Classes.{IsNodeElement}
use open62541_nodeset_export.XmlNode.Elements.{
  add_access_attributes, add_inverse_name, add_node_ua_instance, add_node_ua_type,
  add_value_attributes, fill_object, fill_reference_type, fill_variable, fill_variable_type,
}
use open62541_nodeset_export.XmlNode.Flags.{is_writable}

abbrev new_encoder : XmlEncoder Tree (List (Text × Text))
new_encoder = encoder_to_buffer empty_document [] []

abbrev begun_encoder : XmlEncoder Tree (List (Text × Text))
begun_encoder = (xml_begin sample_ua sample_xml new_encoder).1

-- A variable with an access level of 3, and with value rank -1, which is the default.
abbrev pump : NodeIntermediateModel
pump = record {
  exp_node_id = id_of 2;
  parent_node_id = id_of 1;
  node_class = NodeClass.variable;
  references = link 47 false (id_of 1) ∷ link 40 true (ns0_expanded 63) ∷ [];
  attributes =
      (3, some (scalar (name_of_number 2)))
      ∷ (15, some (scalar (int32 (negsuc 0))))
      ∷ (16, some (uint32_array (3 ∷ 4 ∷ [])))
      ∷ (17, some (scalar (byte 3)))
      ∷ [];
}

abbrev pumped : Outcome (Unit {0}) × XmlEncoder Tree (List (Text × Text))
pumped = xml_add_node_variable sample_ua sample_xml pump begun_encoder

pump_run : pumped.0 ≡ ok tt
unfolding compare_text node_id_less expanded_less same_node_id same_expanded contains_node_id
    contains_expanded insert_expanded or_error node_id_to_string expanded_to_string c_string
    digits_from to_string hex_field hex_bytes guid_to_hex ua_guid_identifier_to_std_string
    data_type_text alias_of_value alias_of_attribute get_data_type_alias reference_type_text
    get_node_reference_type_aliases append_dimensions ua_array_dimension_to_xml_string
    ua_localized_text_to_xml_string to_chars ua_node_id_to_xml_string ua_expanded_to_xml_string
    ua_attr_node_id_to_xml_string ua_qualified_name_to_xml_string ua_primitives_to_xml_string
    get_and_check_ua_attribute is_default text_unless_default add_optional add_required add_parent
    fill_localized add_localized fill_reference fill_references add_references add_node_ua_instance
    add_node_ua_type fill_object add_value_attributes add_access_attributes fill_variable
    fill_variable_type add_inverse_name fill_reference_type document set_namespaces_of_schema
    new_nodeset xml_begin basic_check reset xml_end add_uris xml_add_namespaces add_alias_elements
    insert_aliases xml_add_aliases add_node_element xml_add_node_object xml_add_node_object_type
    xml_add_node_variable xml_add_node_variable_type xml_add_node_reference_type
    xml_add_node_data_type
pump_run = refl

pump_call :
    add_node (xml_encoder sample_ua sample_xml) pump
    ≡ some (xml_add_node_variable sample_ua sample_xml pump)
unfolding add_node
pump_call = refl

xml_add_node-IsAdded_example :
    IsAdded sample_ua sample_xml
      (IsNodeElement sample_ua sample_xml NodeClass.variable pump)
      begun_encoder
      pumped.1
xml_add_node-IsAdded_example =
    xml_add_node-IsAdded sample_ua sample_xml sample_xml_laws pump
      (xml_add_node_variable sample_ua sample_xml pump) begun_encoder pumped.1 pump_call
      (λ i. (pump_run i, pumped.1))

primitives-scalar_text_example :
    c_string (ua_primitives_to_xml_string sample_xml (scalar (int32 (negsuc 2147483647))))
    ≡ scalar_text (int32 (negsuc 2147483647))
primitives-scalar_text_example =
    primitives-scalar_text sample_xml sample_xml_laws (int32 (negsuc 2147483647)) (omega arith)

read_numbers-dimensions_example :
    read_numbers 0 (c_string (ua_array_dimension_to_xml_string (uint32_array (3 ∷ 40 ∷ []))))
    ≡ 3 ∷ 40 ∷ []
read_numbers-dimensions_example = read_numbers-dimensions 3 (40 ∷ [])

run_call-refused_example :
    run_call (xml_encoder sample_ua sample_xml) (variable_call pump) new_encoder
    ≡ (fails (of_status Status.fail), new_encoder)
run_call-refused_example =
    run_call-refused sample_ua sample_xml new_encoder (variable_call pump) (inl refl)

-- Two Begins, the aliases before and after the namespaces, and a node without a browse name.
abbrev odd_calls : List EncoderCall
odd_calls =
    begin_call
    ∷ aliases_call ((codes "Int32", ns0_node_id 6) ∷ [])
    ∷ namespaces_call (codes "urn:a" ∷ [])
    ∷ namespaces_call (codes "urn:b" ∷ [])
    ∷ variable_call (record pump { attributes = [] })
    ∷ begin_call
    ∷ aliases_call []
    ∷ object_call pump
    ∷ []

run_calls-IsLaidOut_example :
    IsLaidOut sample_ua sample_xml
      (run_calls (xml_encoder sample_ua sample_xml) odd_calls new_encoder)
run_calls-IsLaidOut_example =
    run_calls-IsLaidOut sample_ua sample_xml sample_xml_laws odd_calls new_encoder refl

abbrev begun_nodeset : Tree
begun_nodeset = new_nodeset sample_ua sample_xml (tag_node (codes "UANodeSet") [] no_kids)

begun : basic_check sample_ua sample_xml begun_encoder ≡ some begun_nodeset
unfolding compare_text node_id_less expanded_less same_node_id same_expanded contains_node_id
    contains_expanded insert_expanded or_error node_id_to_string expanded_to_string c_string
    digits_from to_string hex_field hex_bytes guid_to_hex ua_guid_identifier_to_std_string
    data_type_text alias_of_value alias_of_attribute get_data_type_alias reference_type_text
    get_node_reference_type_aliases append_dimensions ua_array_dimension_to_xml_string
    ua_localized_text_to_xml_string to_chars ua_node_id_to_xml_string ua_expanded_to_xml_string
    ua_attr_node_id_to_xml_string ua_qualified_name_to_xml_string ua_primitives_to_xml_string
    get_and_check_ua_attribute is_default text_unless_default add_optional add_required add_parent
    fill_localized add_localized fill_reference fill_references add_references add_node_ua_instance
    add_node_ua_type fill_object add_value_attributes add_access_attributes fill_variable
    fill_variable_type add_inverse_name fill_reference_type document set_namespaces_of_schema
    new_nodeset xml_begin basic_check reset xml_end add_uris xml_add_namespaces add_alias_elements
    insert_aliases xml_add_aliases add_node_element xml_add_node_object xml_add_node_object_type
    xml_add_node_variable xml_add_node_variable_type xml_add_node_reference_type
    xml_add_node_data_type
begun = refl

xml_add_node-verdict_example :
    pumped.0 ≡ (if is_writable sample_ua pump then ok tt else fails (of_status Status.fail))
xml_add_node-verdict_example =
    xml_add_node-verdict sample_ua sample_xml (λ tag x. (tag_node tag [] no_kids, refl)) pump
      (xml_add_node_variable sample_ua sample_xml pump) begun_encoder begun_nodeset pump_call begun
