-- ===== src/Ua.antt =====
-- The values of the open62541 library that the exporter reads and writes, with the fields that it
-- uses, and include/nodesetexporter/open62541/UATypesContainer.h over them. The library's functions
-- are the fields of `Ua`; what its documentation says of them and a proof needs is in `UaLaws`.
pub mod Ids
pub mod Sets
use open62541_nodeset_export.Prelude.{
  Bool, List, Option, Ordering, Text, [], codes, false, if◌then◌else◌, none, not, some, true, ℕ,
  ◌&&◌, ◌==◌, ◌||◌, ◌↔◌, ◌∷◌, ◌≡◌,
}
use open62541_nodeset_export.Prelude.Int.{ℤ}

pub record Guid : Type 0 where
  pub data1 : ℕ
  pub data2 : ℕ
  pub data3 : ℕ
  pub data4 : List ℕ

-- The tagged union of UA_NodeId.
pub data Identifier : Type 0 where
  numeric : ℕ → Identifier
  string : Text → Identifier
  guid : Guid → Identifier
  byte_string : Text → Identifier

pub record NodeId : Type 0 where
  pub namespace_index : ℕ
  pub identifier : Identifier

pub record ExpandedNodeId : Type 0 where
  pub node_id : NodeId
  pub namespace_uri : Text
  pub server_index : ℕ

pub record ReferenceDescription : Type 0 where
  pub reference_type_id : NodeId
  pub is_forward : Bool
  pub node_id : ExpandedNodeId

pub record QualifiedName : Type 0 where
  pub namespace_index : ℕ
  pub name : Text

pub record LocalizedText : Type 0 where
  pub locale : Text
  pub text : Text

-- UA_NODEID_NUMERIC and UA_EXPANDEDNODEID_NUMERIC in namespace 0.
abbrev pub ns0_node_id : ℕ → NodeId
ns0_node_id n = record { namespace_index = 0; identifier = numeric n }

abbrev pub ns0_expanded : ℕ → ExpandedNodeId
ns0_expanded n = record { node_id = ns0_node_id n; namespace_uri = []; server_index = 0 }

-- UA_NodeClass; `other` is a number outside the enumeration, which a server may send.
pub data NodeClass : Type 0 where
  unspecified object variable method object_type variable_type reference_type data_type view
        force32bit :
      NodeClass
  other : ℕ → NodeClass

abbrev pub class_eq : NodeClass → NodeClass → Bool
class_eq unspecified unspecified = true
class_eq object object = true
class_eq variable variable = true
class_eq method method = true
class_eq object_type object_type = true
class_eq variable_type variable_type = true
class_eq reference_type reference_type = true
class_eq data_type data_type = true
class_eq view view = true
class_eq force32bit force32bit = true
class_eq (other a) (other b) = a == b
class_eq _ _ = false

abbrev pub contains_class : List NodeClass → NodeClass → Bool
contains_class [] c = false
contains_class (d ∷ ds) c = class_eq d c || contains_class ds c

-- One entry of the array (or the scalar) that a UA_Variant holds. A double is its bit pattern.
pub data Scalar : Type 0 where
  boolean : Bool → Scalar
  byte : ℕ → Scalar
  uint32 : ℕ → Scalar
  int32 : ℤ → Scalar
  double : ℕ → Scalar
  class_value : NodeClass → Scalar
  text_value : Text → Scalar
  node_id_value : NodeId → Scalar
  qualified_name : QualifiedName → Scalar
  localized_text : LocalizedText → Scalar
  structure_definition : Text → Scalar
  enum_definition : Text → Scalar
  opaque : ℕ → Scalar

-- UA_Variant: `type_kind` is none for a null type pointer, `elements` is none for null data.
pub record Variant : Type 0 where
  pub type_kind : Option ℕ
  pub is_scalar : Bool
  pub array_dimensions_size : ℕ
  pub elements : Option (List Scalar)

-- VariantsOfAttr of TypeAliases.h.
pub data AttrValue : Type 0 where
  scalar : Scalar → AttrValue
  variant : Variant → AttrValue
  uint32_array : List ℕ → AttrValue

-- The functions of open62541 that the exporter calls on values.
pub record Ua : Type 0 where
  pub node_id_equal : NodeId → NodeId → Bool
  pub node_id_order : NodeId → NodeId → Ordering
  pub expanded_order : ExpandedNodeId → ExpandedNodeId → Ordering
  -- The numeric member of the identifier union, whatever the tag says.
  pub numeric_member : Identifier → ℕ
  -- UA_print, none where its status is not good.
  pub print_node_id : NodeId → Option Text
  pub print_expanded : ExpandedNodeId → Option Text
  -- UA_NodeId_print, empty where it fails.
  pub node_id_print : NodeId → Text
  -- UA_ExpandedNodeId_print, empty where it fails.
  pub expanded_print : ExpandedNodeId → Text
  pub node_id_is_null : NodeId → Bool
  pub qualified_name_is_null : QualifiedName → Bool
  -- UA_EXPANDEDNODEID, which reads a text.
  pub parse_expanded : Text → ExpandedNodeId
  pub is_bad : ℕ → Bool
  pub is_uncertain : ℕ → Bool
  -- DataTypeAliases and ReferenceTypeAliases, which the build generates.
  pub data_type_aliases : ℕ → Option Text
  pub reference_type_aliases : ℕ → Option Text

pub record UaLaws (ua : Ua) : Type 0 where
  pub node_id_equal_iff : (a b : NodeId) → (ua.node_id_equal a b ≡ true) ↔ (a ≡ b)
  pub node_id_order_iff : (a b : NodeId) → (ua.node_id_order a b ≡ Ordering.eq) ↔ (a ≡ b)
  pub expanded_order_iff : (a b : ExpandedNodeId) → (ua.expanded_order a b ≡ Ordering.eq) ↔ (a ≡ b)
  pub node_id_order_flip :
      (a b : NodeId) → (ua.node_id_order a b ≡ Ordering.gt) ↔ (ua.node_id_order b a ≡ Ordering.lt)
  pub expanded_order_flip :
      (a b : ExpandedNodeId)
      → (ua.expanded_order a b ≡ Ordering.gt) ↔ (ua.expanded_order b a ≡ Ordering.lt)
  pub numeric_member_numeric : (n : ℕ) → ua.numeric_member (numeric n) ≡ n

abbrev pub is_less : Ordering → Bool
is_less Ordering.lt = true
is_less _ = false

module _ (ua : Ua) where
  -- std::less of the container, and the equivalence that std::set and std::map make of it.
  unfoldable pub node_id_less : NodeId → NodeId → Bool
  node_id_less a b = is_less (ua.node_id_order a b)

  unfoldable pub expanded_less : ExpandedNodeId → ExpandedNodeId → Bool
  expanded_less a b = is_less (ua.expanded_order a b)

  unfoldable pub same_node_id : NodeId → NodeId → Bool
  unfolding node_id_less
  same_node_id a b = not (node_id_less a b) && not (node_id_less b a)

  unfoldable pub same_expanded : ExpandedNodeId → ExpandedNodeId → Bool
  unfolding expanded_less
  same_expanded a b = not (expanded_less a b) && not (expanded_less b a)

  -- std::set::contains, over the members of the set.
  unfoldable pub contains_node_id : List NodeId → NodeId → Bool
  contains_node_id [] x = false
  contains_node_id (y ∷ ys) x = same_node_id y x || contains_node_id ys x

  unfoldable pub contains_expanded : List ExpandedNodeId → ExpandedNodeId → Bool
  contains_expanded [] x = false
  contains_expanded (y ∷ ys) x = same_expanded y x || contains_expanded ys x

  -- std::set::insert.
  unfoldable pub insert_expanded : ExpandedNodeId → List ExpandedNodeId → List ExpandedNodeId
  insert_expanded x ys = if contains_expanded ys x then ys else x ∷ ys

  unfoldable pub or_error : Option Text → Text
  or_error none = codes "ToString() error"
  or_error (some t) = t

  -- UATypesContainer::ToString, built without OPEN62541_UAPRINT_WITH_QUOTES.
  unfoldable pub node_id_to_string : NodeId → Text
  unfolding or_error
  node_id_to_string n = or_error (ua.print_node_id n)

  unfoldable pub expanded_to_string : ExpandedNodeId → Text
  unfolding or_error
  expanded_to_string n = or_error (ua.print_expanded n)
