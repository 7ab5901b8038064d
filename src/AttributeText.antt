-- ===== src/AttributeText.antt =====
-- include/nodesetexporter/encoders/GetAttributeToXMLText.h: the values of attributes as the text of an
-- XML document.

pub mod Numbers
pub mod Dimensions
use open62541_nodeset_export.Prelude.{
  List, Text, [], if◌then◌else◌, length, suc, take, zero, ℕ, ◌++◌, ◌-◌, ◌==◌, ◌∷◌,
}
use open62541_nodeset_export.Strings.{to_string}
use open62541_nodeset_export.Ua.{
  AttrValue, ExpandedNodeId, NodeId, Ua, boolean, byte, class_value, double, expanded_to_string,
  int32, localized_text, node_id_to_string, node_id_value, qualified_name, scalar, uint32,
  uint32_array,
}
use open62541_nodeset_export.Xml.{Xml}

pub record LocalizedTextXml : Type 0 where
  pub locale : Text
  pub text : Text

-- The loop over the dimensions, each with a comma after it.
unfoldable pub append_dimensions : Text → List ℕ → Text
append_dimensions result [] = result
append_dimensions result (n ∷ ns) = append_dimensions (result ++ (to_string n ++ (b',' ∷ []))) ns

-- std::string::erase of the last character.
abbrev pub erase_last : Text → Text
erase_last [] = []
erase_last (c ∷ []) = []
erase_last (c ∷ d ∷ cs) = c ∷ erase_last (d ∷ cs)

unfoldable pub ua_array_dimension_to_xml_string : AttrValue → Text
unfolding append_dimensions
ua_array_dimension_to_xml_string (uint32_array []) = []
ua_array_dimension_to_xml_string (uint32_array (n ∷ ns)) =
    erase_last (append_dimensions [] (n ∷ ns))
ua_array_dimension_to_xml_string _ = []

unfoldable pub ua_localized_text_to_xml_string : AttrValue → LocalizedTextXml
ua_localized_text_to_xml_string (scalar (localized_text t)) = record {
  locale = t.locale;
  text = t.text;
}
ua_localized_text_to_xml_string _ = record { locale = []; text = [] }

abbrev pub zeros : ℕ → Text
zeros zero = []
zeros (suc n) = 0 ∷ zeros n

-- ToStr into a string that has been resized to `size` zero bytes: at most one byte less is printed.
unfoldable pub to_chars : ℕ → Text → Text
to_chars size printed =
    let fitting = take (size - 1) printed in fitting ++ zeros (size - length fitting)

module _ (ua : Ua) where
  unfoldable pub ua_node_id_to_xml_string : NodeId → Text
  ua_node_id_to_xml_string n = if ua.node_id_is_null n then [] else node_id_to_string ua n

  unfoldable pub ua_expanded_to_xml_string : ExpandedNodeId → Text
  ua_expanded_to_xml_string n = if ua.node_id_is_null n.node_id then [] else expanded_to_string ua n

  unfoldable pub ua_attr_node_id_to_xml_string : AttrValue → Text
  ua_attr_node_id_to_xml_string (scalar (node_id_value n)) =
      if ua.node_id_is_null n then [] else node_id_to_string ua n
  ua_attr_node_id_to_xml_string _ = []

  unfoldable pub ua_qualified_name_to_xml_string : AttrValue → Text
  ua_qualified_name_to_xml_string (scalar (qualified_name q)) =
      if ua.qualified_name_is_null q
      then []
      else (if q.namespace_index == 0 then [] else to_string q.namespace_index ++ (b':' ∷ []))
        ++ q.name
  ua_qualified_name_to_xml_string _ = []

-- Each type has a buffer of its own.
unfoldable pub ua_primitives_to_xml_string : {X F : Type 0} → Xml X F → AttrValue → Text
unfolding to_chars
ua_primitives_to_xml_string xml (scalar (boolean b)) = to_chars 6 (xml.to_str (boolean b))
ua_primitives_to_xml_string xml (scalar (byte n)) = to_chars 4 (xml.to_str (byte n))
ua_primitives_to_xml_string xml (scalar (uint32 n)) = to_chars 11 (xml.to_str (uint32 n))
ua_primitives_to_xml_string xml (scalar (int32 n)) = to_chars 12 (xml.to_str (int32 n))
ua_primitives_to_xml_string xml (scalar (double n)) = to_chars 2000 (xml.to_str (double n))
ua_primitives_to_xml_string xml (scalar (class_value c)) = to_chars 12 (xml.to_str (class_value c))
ua_primitives_to_xml_string xml _ = []
