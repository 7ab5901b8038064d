-- ===== src/XmlNode/Attributes.antt =====
-- Which attributes an element gets: a map from names to texts, by what was put into it last.
use open62541_nodeset_export.Prelude.{
  Option, Text, [], arith, false, if◌then◌else◌, none, refl, some, suc, true, zero, ℕ, ◌==◌, ◌^◌,
  ◌||◌, ◌∷◌, ◌≡◌,
}
use open62541_nodeset_export.AttributeText.{
  ua_array_dimension_to_xml_string, ua_primitives_to_xml_string,
}
use open62541_nodeset_export.Model.{NodeIntermediateModel, attribute_datatype, get_data_type_alias}
use open62541_nodeset_export.Prelude.Int.{negsuc, pos}
use open62541_nodeset_export.Status.{Outcome, ok}
use open62541_nodeset_export.Strings.{c_string}
use open62541_nodeset_export.Ua.{
  AttrValue, Scalar, Ua, boolean, byte, double, int32, node_id_value, ns0_node_id, scalar, uint32,
  uint32_array,
}
use open62541_nodeset_export.Xml.{Xml, text_eq}
use open62541_nodeset_export.XmlNode.{
  alias_text, attribute_arraydimensions, attribute_minimumsamplinginterval, attribute_valuerank,
  dimensions_text, is_byte, is_default, is_false, is_uint32, primitive_text, text_unless_default,
}

-- A map with one more entry, if there is one.
abbrev pub override : Text → Option Text → (Text → Option Text) → Text → Option Text
override k none f j = f j
override k (some v) f j = if text_eq k j then some v else f j

abbrev pub no_attributes : Text → Option Text
no_attributes j = none

module _ {X F : Type 0} (ua : Ua) (xml : Xml X F) where
  abbrev pub printed_scalar : Scalar → Option Text
  printed_scalar s = some (c_string (ua_primitives_to_xml_string xml (scalar s)))

  -- What is shown of a value: nothing of another type, and nothing of the default.
  abbrev pub shown_uint32 : AttrValue → Option Text
  shown_uint32 (scalar (uint32 zero)) = none
  shown_uint32 (scalar (uint32 (suc n))) = printed_scalar (uint32 (suc n))
  shown_uint32 _ = none

  abbrev pub shown_byte : ℕ → AttrValue → Option Text
  shown_byte d (scalar (byte n)) = if n == d then none else printed_scalar (byte n)
  shown_byte d _ = none

  abbrev pub shown_rank : AttrValue → Option Text
  shown_rank (scalar (int32 (negsuc zero))) = none
  shown_rank (scalar (int32 (negsuc (suc n)))) = printed_scalar (int32 (negsuc (suc n)))
  shown_rank (scalar (int32 (pos n))) = printed_scalar (int32 (pos n))
  shown_rank _ = none

  abbrev pub shown_interval : AttrValue → Option Text
  shown_interval (scalar (double n)) =
      if (n == 0) || (n == 2 ^ 63) then none else printed_scalar (double n)
  shown_interval _ = none

  abbrev pub shown_flag : AttrValue → Option Text
  shown_flag (scalar (boolean true)) = printed_scalar (boolean true)
  shown_flag _ = none

  abbrev pub shown_dimensions : AttrValue → Option Text
  shown_dimensions (uint32_array (n ∷ ns)) =
      some (c_string (ua_array_dimension_to_xml_string (uint32_array (n ∷ ns))))
  shown_dimensions _ = none

  abbrev pub c_string_of : Outcome Text → Option Text
  c_string_of (ok t) = some (c_string t)
  c_string_of _ = none

  abbrev pub shown_data_type : NodeIntermediateModel → AttrValue → Option Text
  shown_data_type m (scalar (node_id_value n)) =
      if ua.node_id_equal n (ns0_node_id 24) then none else c_string_of (get_data_type_alias ua m)
  shown_data_type m _ = none

  -- What is shown of an attribute of a node.
  abbrev pub shown_of : (AttrValue → Option Text) → Option AttrValue → Option Text
  shown_of shown none = none
  shown_of shown (some v) = shown v

  module _ (k : ℕ) where
    pub uint32-shown :
        ((u : AttrValue) → is_default ua xml u k ≡ is_uint32 0 u)
        → (v : AttrValue) → text_unless_default ua xml k (primitive_text ua xml) v ≡ shown_uint32 v
    unfolding text_unless_default
    uint32-shown h (scalar (uint32 zero)) = rw (h (scalar (uint32 zero)), text_unless_default) refl
    uint32-shown h (scalar (uint32 (suc n))) =
        rw (h (scalar (uint32 (suc n))), text_unless_default) (ground arith)
    uint32-shown h v = rw (h v, text_unless_default) refl

    pub byte-shown :
        (d : ℕ)
        → ((u : AttrValue) → is_default ua xml u k ≡ is_byte d u)
        → (v : AttrValue) → text_unless_default ua xml k (primitive_text ua xml) v ≡ shown_byte d v
    unfolding text_unless_default
    byte-shown d h (scalar (byte n)) = rw (h (scalar (byte n)), text_unless_default) refl
    byte-shown d h v = rw (h v, text_unless_default) refl

    pub flag-shown :
        ((u : AttrValue) → is_default ua xml u k ≡ is_false u)
        → (v : AttrValue) → text_unless_default ua xml k (primitive_text ua xml) v ≡ shown_flag v
    unfolding text_unless_default
    flag-shown h (scalar (boolean true)) = rw (h (scalar (boolean true)), text_unless_default) refl
    flag-shown h (scalar (boolean false)) =
        rw (h (scalar (boolean false)), text_unless_default) refl
    flag-shown h v = rw (h v, text_unless_default) refl

  pub rank-shown :
      (v : AttrValue)
      → text_unless_default ua xml attribute_valuerank (primitive_text ua xml) v ≡ shown_rank v
  unfolding text_unless_default is_default
  rank-shown (scalar (int32 (pos n))) = refl
  rank-shown (scalar (int32 (negsuc zero))) = refl
  rank-shown (scalar (int32 (negsuc (suc n)))) = ground arith
  rank-shown v = refl

  pub interval-shown :
      (v : AttrValue)
      → text_unless_default ua xml attribute_minimumsamplinginterval (primitive_text ua xml) v
        ≡ shown_interval v
  unfolding text_unless_default is_default
  interval-shown (scalar (double n)) = refl
  interval-shown v = refl

  pub dimensions-shown :
      (v : AttrValue)
      → text_unless_default ua xml attribute_arraydimensions (dimensions_text ua xml) v
        ≡ shown_dimensions v
  unfolding text_unless_default is_default
  dimensions-shown (uint32_array []) = refl
  dimensions-shown (uint32_array (n ∷ ns)) = refl
  dimensions-shown v = refl

  pub data_type-shown :
      (m : NodeIntermediateModel) (v : AttrValue)
      → text_unless_default ua xml attribute_datatype (alias_text ua xml m) v ≡ shown_data_type m v
  unfolding text_unless_default is_default
  data_type-shown m (scalar (node_id_value n)) = refl
  data_type-shown m v = refl
