-- ===== src/TypeAliases.antt =====
-- src/nodesetexporter/open62541/TypeAliases.cpp: UAVariantToStdVariant. A type is told by its kind.
use open62541_nodeset_export.Prelude.{
  List, Option, [], if◌then◌else◌, none, not, some, ℕ, ◌&&◌, ◌==◌, ◌∷◌,
}
use open62541_nodeset_export.Ua.{
  AttrValue, Scalar, Variant, opaque, scalar, text_value, uint32, uint32_array,
}

-- The types that VariantsOfAttr has a member for.
unfoldable pub scalar_attribute : Scalar → Option AttrValue
scalar_attribute (text_value t) = none
scalar_attribute (opaque n) = none
scalar_attribute s = some (scalar s)

abbrev pub uint32_kind : ℕ
uint32_kind = 6

abbrev pub uint32s_of : List Scalar → List ℕ
uint32s_of [] = []
uint32s_of (uint32 n ∷ vs) = n ∷ uint32s_of vs
uint32s_of (v ∷ vs) = uint32s_of vs

unfoldable pub ua_variant_to_std_variant : Variant → Option AttrValue
unfolding scalar_attribute
ua_variant_to_std_variant v = elim v.type_kind [
  | none ↦ none
  | some kind ↦ elim v.elements [
    | none ↦ none
    | some [] ↦ if not v.is_scalar && (kind == uint32_kind) then some (uint32_array []) else none
    | some (x ∷ xs) ↦
        if v.is_scalar
        then scalar_attribute x
        else if kind == uint32_kind
        then some (uint32_array (uint32s_of (x ∷ xs)))
        else none
  ]
]
