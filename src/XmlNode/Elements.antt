-- ===== src/XmlNode/Elements.antt =====
-- The elements of the six classes of nodes, filled in part by part.
use open62541_nodeset_export.Prelude.{Bool, codes, false, if◌then◌else◌, none, some, true}
use open62541_nodeset_export.AttributeText.{ua_localized_text_to_xml_string}
use open62541_nodeset_export.Model.{NodeIntermediateModel, attribute_datatype}
use open62541_nodeset_export.Ua.{Ua}
use open62541_nodeset_export.Xml.{Xml}
use open62541_nodeset_export.XmlNode.{
  add_localized, add_optional, add_parent, add_references, add_required, alias_text,
  attribute_accesslevel, attribute_arraydimensions, attribute_description, attribute_displayname,
  attribute_eventnotifier, attribute_historizing, attribute_inversename, attribute_isabstract,
  attribute_minimumsamplinginterval, attribute_symmetric, attribute_useraccesslevel,
  attribute_userwritemask, attribute_valuerank, attribute_writemask, dimensions_text,
  fill_localized, get_and_check_ua_attribute, if_done, primitive_text,
}

module _ {X F : Type 0} (ua : Ua) (xml : Xml X F) where
  -- AddNodeUAInstance; the flag says whether the parent is written.
  unfoldable pub add_node_ua_instance : Bool → NodeIntermediateModel → X → Bool × X
  add_node_ua_instance with_parent m x = if_done (add_required ua xml m x) λ x1.
      let x2 =
        add_optional ua xml (codes "WriteMask") attribute_writemask (primitive_text ua xml) m x1 in
      let x3 =
        add_optional ua xml (codes "UserWriteMask") attribute_userwritemask (primitive_text ua xml)
          m x2 in
      let x4 = if with_parent then add_parent ua xml m x3 else x3 in
      if_done (add_localized ua xml (codes "DisplayName") attribute_displayname m x4) λ x5.
        if_done (add_localized ua xml (codes "Description") attribute_description m x5)
          (add_references ua xml m)

  unfoldable pub add_node_ua_type : NodeIntermediateModel → X → Bool × X
  add_node_ua_type m x = if_done (add_node_ua_instance false m x) λ x1. (
    true,
    add_optional ua xml (codes "IsAbstract") attribute_isabstract (primitive_text ua xml) m x1,
  )

  -- The elements of the six classes.
  unfoldable pub fill_object : NodeIntermediateModel → X → Bool × X
  fill_object m x = if_done (add_node_ua_instance true m x) λ x1. (
    true,
    add_optional ua xml (codes "EventNotifier") attribute_eventnotifier (primitive_text ua xml) m
        x1,
  )

  unfoldable pub add_value_attributes : NodeIntermediateModel → X → X
  add_value_attributes m x =
      let x1 =
        add_optional ua xml (codes "DataType") attribute_datatype (alias_text ua xml m) m x in
      let x2 =
        add_optional ua xml (codes "ValueRank") attribute_valuerank (primitive_text ua xml) m x1 in
      add_optional ua xml (codes "ArrayDimensions") attribute_arraydimensions
        (dimensions_text ua xml) m x2

  unfoldable pub add_access_attributes : NodeIntermediateModel → X → X
  add_access_attributes m x =
      let x1 =
        add_optional ua xml (codes "AccessLevel") attribute_accesslevel (primitive_text ua xml) m
          x in
      let x2 =
        add_optional ua xml (codes "UserAccessLevel") attribute_useraccesslevel
          (primitive_text ua xml) m x1 in
      let x3 =
        add_optional ua xml (codes "MinimumSamplingInterval") attribute_minimumsamplinginterval
          (primitive_text ua xml) m x2 in
      add_optional ua xml (codes "Historizing") attribute_historizing (primitive_text ua xml) m x3

  unfoldable pub fill_variable : NodeIntermediateModel → X → Bool × X
  unfolding add_value_attributes add_access_attributes
  fill_variable m x =
      if_done (add_node_ua_instance true m x)
        λ x1. (true, add_access_attributes m (add_value_attributes m x1))

  unfoldable pub fill_variable_type : NodeIntermediateModel → X → Bool × X
  unfolding add_value_attributes
  fill_variable_type m x = if_done (add_node_ua_type m x) λ x1. (true, add_value_attributes m x1)

  -- InverseName is written also where its text is empty.
  unfoldable pub add_inverse_name : NodeIntermediateModel → X → Bool × X
  unfolding fill_localized get_and_check_ua_attribute
  add_inverse_name m x = elim (get_and_check_ua_attribute m attribute_inversename) [
    | none ↦ (true, x)
    | some v ↦ elim (xml.insert_new_child_element (codes "InverseName") x) [
      | none ↦ (false, x)
      | some c ↦ (true, xml.place (fill_localized ua xml (ua_localized_text_to_xml_string v) c) x)
    ]
  ]

  unfoldable pub fill_reference_type : NodeIntermediateModel → X → Bool × X
  unfolding add_inverse_name
  fill_reference_type m x = if_done (add_node_ua_type m x) λ x1.
      add_inverse_name m
        (add_optional ua xml (codes "Symmetric") attribute_symmetric (primitive_text ua xml) m x1)
