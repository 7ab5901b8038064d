-- ===== src/Model.antt =====
-- include/nodesetexporter/open62541/NodeIntermediateModel.h: what is known of one node when it is
-- exported. A std::map of attributes is a list in the order of its keys.
use open62541_nodeset_export.Prelude.{
  Bool, List, Option, Text, [], if◌then◌else◌, is_empty, ltb, map, none, not, some, ℕ, ◌==◌, ◌||◌,
  ◌∷◌,
}
use open62541_nodeset_export.Status.{Outcome, bad_variant_access, ok, throws}
use open62541_nodeset_export.Ua.{
  AttrValue, ExpandedNodeId, NodeClass, NodeId, ReferenceDescription, Ua, class_eq,
  node_id_to_string, node_id_value, scalar,
}

abbrev pub Attributes : Type 0
Attributes = List (ℕ × Option AttrValue)

-- std::map::find by attribute id.
abbrev pub find_attribute : Attributes → ℕ → Option (Option AttrValue)
find_attribute [] k = none
find_attribute ((j, v) ∷ m) k = if j == k then some v else find_attribute m k

-- std::map::emplace, which keeps the value of a key that is there.
abbrev pub insert_attribute : ℕ → Option AttrValue → Attributes → Attributes
insert_attribute k v [] = (k, v) ∷ []
insert_attribute k v ((j, w) ∷ m) =
    if k == j
    then (j, w) ∷ m
    else if ltb k j
    then (k, v) ∷ (j, w) ∷ m
    else (j, w) ∷ insert_attribute k v m

-- Assignment through std::map::at, for a key that is there.
abbrev pub assign_attribute : ℕ → Option AttrValue → Attributes → Attributes
assign_attribute k v [] = []
assign_attribute k v ((j, w) ∷ m) = if j == k then (j, v) ∷ m else (j, w) ∷ assign_attribute k v m

-- std::map::merge.
abbrev pub merge_attributes : Attributes → Attributes → Attributes
merge_attributes m [] = m
merge_attributes m ((k, v) ∷ more) = merge_attributes (insert_attribute k v m) more

pub record NodeIntermediateModel : Type 0 where
  pub exp_node_id : ExpandedNodeId
  pub parent_node_id : ExpandedNodeId
  pub node_class : NodeClass
  pub references : List ReferenceDescription
  pub attributes : Attributes

abbrev pub attribute_datatype : ℕ
attribute_datatype = 14

abbrev pub is_variable_class : NodeClass → Bool
is_variable_class c = class_eq c NodeClass.variable || class_eq c NodeClass.variable_type

-- std::get of a node id.
abbrev pub get_node_id : AttrValue → Outcome NodeId
get_node_id (scalar (node_id_value n)) = ok n
get_node_id _ = throws bad_variant_access

module _ (ua : Ua) where
  -- The alias of a data type, or its node id in text form.
  unfoldable pub data_type_text : NodeId → Text
  data_type_text n = elim (ua.data_type_aliases (ua.numeric_member n.identifier)) [
    | none ↦ node_id_to_string ua n
    | some alias ↦ if n.namespace_index == 0 then alias else node_id_to_string ua n
  ]

  unfoldable pub alias_of_value : Option AttrValue → Outcome Text
  unfolding data_type_text
  alias_of_value none = ok []
  alias_of_value (some v) = elim (get_node_id v) [
    | ok n ↦ ok (data_type_text n)
    | Outcome.fails s ↦ Outcome.fails s
    | throws x ↦ throws x
  ]

  unfoldable pub alias_of_attribute : Option (Option AttrValue) → Outcome Text
  unfolding alias_of_value
  alias_of_attribute none = ok []
  alias_of_attribute (some v) = alias_of_value v

  unfoldable pub get_data_type_alias : NodeIntermediateModel → Outcome Text
  unfolding alias_of_attribute
  get_data_type_alias m =
      if not (is_variable_class m.node_class) || is_empty m.attributes
      then ok []
      else alias_of_attribute (find_attribute m.attributes attribute_datatype)

  unfoldable pub reference_type_text : NodeId → Text
  reference_type_text n = elim (ua.reference_type_aliases (ua.numeric_member n.identifier)) [
    | none ↦ ua.node_id_print n
    | some alias ↦ if n.namespace_index == 0 then alias else ua.node_id_print n
  ]

  unfoldable pub get_node_reference_type_aliases :
      NodeIntermediateModel → List (ReferenceDescription × Text)
  unfolding reference_type_text
  get_node_reference_type_aliases m =
      map (λ r. (r, reference_type_text r.reference_type_id)) m.references
