-- ===== src/XmlNode.antt =====
-- include/nodesetexporter/encoders/XMLEncoder.h: how the element of one node is filled in. A function that
-- may give up answers whether it went through, and leaves what it has written so far.

pub mod Elements
pub mod Attributes
pub mod Updates
pub mod Parts
pub mod Instance
pub mod Classes
pub mod Names
pub mod Flags
use open62541_nodeset_export.Prelude.{
  Bool, List, Option, Text, [], codes, false, if◌then◌else◌, is_empty, none, not, some, true, ℕ,
  ◌==◌, ◌^◌, ◌||◌, ◌∷◌,
}
use open62541_nodeset_export.AttributeText.{
  LocalizedTextXml, ua_array_dimension_to_xml_string, ua_expanded_to_xml_string,
  ua_localized_text_to_xml_string, ua_primitives_to_xml_string, ua_qualified_name_to_xml_string,
}
use open62541_nodeset_export.Model.{
  NodeIntermediateModel, attribute_datatype, find_attribute, get_data_type_alias,
  get_node_reference_type_aliases,
}
use open62541_nodeset_export.Prelude.Int.{negsuc, pos}
use open62541_nodeset_export.Status.{Outcome, bad_variant_access, ok, throws}
use open62541_nodeset_export.Strings.{c_string}
use open62541_nodeset_export.Ua.{
  AttrValue, ReferenceDescription, Ua, boolean, byte, double, int32, node_id_value, ns0_node_id,
  scalar, uint32, uint32_array,
}
use open62541_nodeset_export.Xml.{Xml}

-- The values of UA_AttributeId that are written.
abbrev pub attribute_browsename : ℕ
attribute_browsename = 3

abbrev pub attribute_displayname : ℕ
attribute_displayname = 4

abbrev pub attribute_description : ℕ
attribute_description = 5

abbrev pub attribute_writemask : ℕ
attribute_writemask = 6

abbrev pub attribute_userwritemask : ℕ
attribute_userwritemask = 7

abbrev pub attribute_isabstract : ℕ
attribute_isabstract = 8

abbrev pub attribute_symmetric : ℕ
attribute_symmetric = 9

abbrev pub attribute_inversename : ℕ
attribute_inversename = 10

abbrev pub attribute_eventnotifier : ℕ
attribute_eventnotifier = 12

abbrev pub attribute_valuerank : ℕ
attribute_valuerank = 15

abbrev pub attribute_arraydimensions : ℕ
attribute_arraydimensions = 16

abbrev pub attribute_accesslevel : ℕ
attribute_accesslevel = 17

abbrev pub attribute_useraccesslevel : ℕ
attribute_useraccesslevel = 18

abbrev pub attribute_minimumsamplinginterval : ℕ
attribute_minimumsamplinginterval = 19

abbrev pub attribute_historizing : ℕ
attribute_historizing = 20

-- std::get, compared with the default.
abbrev pub is_uint32 : ℕ → AttrValue → Outcome Bool
is_uint32 d (scalar (uint32 n)) = ok (n == d)
is_uint32 d _ = throws bad_variant_access

abbrev pub is_byte : ℕ → AttrValue → Outcome Bool
is_byte d (scalar (byte n)) = ok (n == d)
is_byte d _ = throws bad_variant_access

-- UA_VALUERANK_SCALAR is -1.
abbrev pub is_scalar_rank : AttrValue → Outcome Bool
is_scalar_rank (scalar (int32 (pos n))) = ok false
is_scalar_rank (scalar (int32 (negsuc n))) = ok (n == 0)
is_scalar_rank _ = throws bad_variant_access

-- A double is its bit pattern, and there are two zeros.
abbrev pub is_zero_double : AttrValue → Outcome Bool
is_zero_double (scalar (double n)) = ok ((n == 0) || (n == 2 ^ 63))
is_zero_double _ = throws bad_variant_access

abbrev pub is_false : AttrValue → Outcome Bool
is_false (scalar (boolean b)) = ok (not b)
is_false _ = throws bad_variant_access

abbrev pub is_empty_array : AttrValue → Outcome Bool
is_empty_array (uint32_array ns) = ok (is_empty ns)
is_empty_array _ = throws bad_variant_access

-- BaseDataType is 24.
abbrev pub is_base_data_type : Ua → AttrValue → Outcome Bool
is_base_data_type ua (scalar (node_id_value n)) = ok (ua.node_id_equal n (ns0_node_id 24))
is_base_data_type ua _ = throws bad_variant_access

-- A value that is none in the map, or that is not there.
unfoldable pub get_and_check_ua_attribute : NodeIntermediateModel → ℕ → Option AttrValue
get_and_check_ua_attribute m k = elim (find_attribute m.attributes k) [ none ↦ none | some v ↦ v ]

-- The next part is done only after one that went through.
abbrev pub if_done : {X : Type 0} → Bool × X → (X → Bool × X) → Bool × X
if_done (true, x) f = f x
if_done (false, x) f = (false, x)

module _ {X F : Type 0} (ua : Ua) (xml : Xml X F) where
  unfoldable pub is_default : AttrValue → ℕ → Outcome Bool
  is_default v k =
      if k == attribute_writemask
      then is_uint32 0 v
      else if k == attribute_userwritemask
      then is_uint32 0 v
      else if k == attribute_eventnotifier
      then is_byte 0 v
      else if k == attribute_datatype
      then is_base_data_type ua v
      else if k == attribute_valuerank
      then is_scalar_rank v
      else if k == attribute_accesslevel
      then is_byte 1 v
      else if k == attribute_useraccesslevel
      then is_byte 1 v
      else if k == attribute_minimumsamplinginterval
      then is_zero_double v
      else if k == attribute_historizing
      then is_false v
      else if k == attribute_arraydimensions
      then is_empty_array v
      else if k == attribute_symmetric
      then is_false v
      else if k == attribute_isabstract
      then is_false v
      else ok false

  -- The text of an optional attribute, none where it has the default or the wrong type.
  unfoldable pub text_unless_default : ℕ → (AttrValue → Outcome Text) → AttrValue → Option Text
  unfolding is_default
  text_unless_default k as_text v = elim (is_default v k) [
    | ok b ↦ if b then none else elim (as_text v) [ ok t ↦ some (c_string t) | _ ↦ none ]
    | _ ↦ none
  ]

  abbrev pub set_optional : Text → Option Text → X → X
  set_optional tag none x = x
  set_optional tag (some t) x = xml.set_attribute tag t x

  -- The block that is repeated for each optional attribute.
  unfoldable pub add_optional :
      Text → ℕ → (AttrValue → Outcome Text) → NodeIntermediateModel → X → X
  unfolding text_unless_default get_and_check_ua_attribute
  add_optional tag k as_text m x = elim (get_and_check_ua_attribute m k) [
    | none ↦ x
    | some v ↦ set_optional tag (text_unless_default k as_text v) x
  ]

  abbrev pub primitive_text : AttrValue → Outcome Text
  primitive_text v = ok (ua_primitives_to_xml_string xml v)

  abbrev pub dimensions_text : AttrValue → Outcome Text
  dimensions_text v = ok (ua_array_dimension_to_xml_string v)

  abbrev pub alias_text : NodeIntermediateModel → AttrValue → Outcome Text
  alias_text m v = get_data_type_alias ua m

  unfoldable pub add_required : NodeIntermediateModel → X → Bool × X
  unfolding get_and_check_ua_attribute
  add_required m x =
      let node_id = ua_expanded_to_xml_string ua m.exp_node_id in
      let x1 = xml.set_attribute (codes "NodeId") (c_string node_id) x in
      if is_empty node_id
      then (false, x)
      else elim (get_and_check_ua_attribute m attribute_browsename) [
        | none ↦ (false, x1)
        | some v ↦ (
          true,
          xml.set_attribute (codes "BrowseName") (c_string (ua_qualified_name_to_xml_string ua v))
              x1,
        )
      ]

  unfoldable pub add_parent : NodeIntermediateModel → X → X
  add_parent m x =
      let parent = ua_expanded_to_xml_string ua m.parent_node_id in
      if is_empty parent then x else xml.set_attribute (codes "ParentNodeId") (c_string parent) x

  unfoldable pub fill_localized : LocalizedTextXml → X → X
  fill_localized t c =
      xml.set_text (c_string t.text)
        (if is_empty t.locale then c else xml.set_attribute (codes "Locale") (c_string t.locale) c)

  -- DisplayName and Description, which are left out where their text is empty.
  unfoldable pub add_localized : Text → ℕ → NodeIntermediateModel → X → Bool × X
  unfolding fill_localized get_and_check_ua_attribute
  add_localized tag k m x = elim (get_and_check_ua_attribute m k) [
    | none ↦ (true, x)
    | some v ↦
        let t = ua_localized_text_to_xml_string v in
        if is_empty t.text then (true, x) else elim (xml.insert_new_child_element tag x) [
          | none ↦ (false, x)
          | some c ↦ (true, xml.place (fill_localized t c) x)
        ]
  ]

  unfoldable pub fill_reference : ReferenceDescription → Text → X → Bool × X
  fill_reference ref type_text x =
      let x1 = xml.set_attribute (codes "ReferenceType") (c_string type_text) x in
      let x2 =
        if ref.is_forward then x1 else xml.set_attribute (codes "IsForward") (codes "false") x1 in
      if is_empty type_text
      then (false, x)
      else if ua.node_id_is_null ref.node_id.node_id
      then (false, x2)
      else (true, xml.set_text (c_string (ua.expanded_print ref.node_id)) x2)

  unfoldable pub fill_references : List (ReferenceDescription × Text) → X → Bool × X
  unfolding fill_reference
  fill_references [] x = (true, x)
  fill_references ((ref, type_text) ∷ refs) x =
      elim (xml.insert_new_child_element (codes "Reference") x) [
        | none ↦ (false, x)
        | some c ↦
            let (done, c') = fill_reference ref type_text c in
            if_done (done, xml.place c' x) (fill_references refs)
      ]

  -- Where no References element can be made, the node goes without.
  unfoldable pub add_references : NodeIntermediateModel → X → Bool × X
  unfolding fill_references
  add_references m x = elim (xml.insert_new_child_element (codes "References") x) [
    | none ↦ (true, x)
    | some c ↦
        let (done, c') = fill_references (get_node_reference_type_aliases ua m) c in
        (done, xml.place c' x)
  ]
