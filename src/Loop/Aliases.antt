-- ===== src/Loop/Aliases.antt =====
-- GetAliases of NodesetExporterLoop.cpp: the standard data types and reference types by name.
pub mod Names
use open62541_nodeset_export.Prelude.{
  List, Option, Ordering, Text, [], if◌then◌else◌, none, some, ◌==◌, ◌∷◌,
}
use open62541_nodeset_export.Model.{
  NodeIntermediateModel, attribute_datatype, find_attribute, get_data_type_alias,
  get_node_reference_type_aliases, is_variable_class,
}
use open62541_nodeset_export.Status.{Outcome, Status, fails, of_status, ok, throws, ◌>>=◌}
use open62541_nodeset_export.Texts.{compare_text}
use open62541_nodeset_export.Ua.{AttrValue, NodeId, ReferenceDescription, Ua, node_id_value, scalar}

-- std::map<std::string, UA_NodeId>, in the order of its keys.
abbrev pub Aliases : Type 0
Aliases = List (Text × NodeId)

unfoldable pub find_alias : Text → Aliases → Option NodeId
find_alias k [] = none
find_alias k ((j, n) ∷ m) =
    let rest = find_alias k m in
    elim (compare_text k j) [ Ordering.eq ↦ some n | Ordering.lt ↦ rest | Ordering.gt ↦ rest ]

-- `if (!aliases.contains(k)) aliases.insert({k, n})`.
unfoldable pub add_alias : Text → NodeId → Aliases → Aliases
add_alias k n [] = (k, n) ∷ []
add_alias k n ((j, old) ∷ m) =
    let rest = add_alias k n m in
    elim (compare_text k j) [
      | Ordering.eq ↦ (j, old) ∷ m
      | Ordering.lt ↦ (k, n) ∷ (j, old) ∷ m
      | Ordering.gt ↦ (j, old) ∷ rest
    ]

-- How the part about the data type ends: `break_off` is the `continue` that leaves out the rest of the
-- loop body.
pub data Step : Type 0 where
  go_on break_off : Aliases → Step

module _ (ua : Ua) where
  -- The value of the attribute is there and is no null.
  unfoldable pub add_data_type : NodeIntermediateModel → AttrValue → Aliases → Outcome Aliases
  add_data_type m (scalar (node_id_value n)) aliases =
      if n.namespace_index == 0
      then (get_data_type_alias ua m >>= λ alias. ok (add_alias alias n aliases))
      else ok aliases
  add_data_type m _ aliases = fails (of_status Status.fail)

  unfoldable pub data_type_step : NodeIntermediateModel → Aliases → Outcome Step
  unfolding add_data_type
  data_type_step m aliases =
      if is_variable_class m.node_class
      then elim (find_attribute m.attributes attribute_datatype) [
        | none ↦ ok (go_on aliases)
        | some none ↦ ok (break_off aliases)
        | some (some v) ↦ (add_data_type m v aliases >>= λ more. ok (go_on more))
      ]
      else ok (go_on aliases)

  unfoldable pub add_reference_types : List (ReferenceDescription × Text) → Aliases → Aliases
  add_reference_types [] aliases = aliases
  add_reference_types ((ref, name) ∷ refs) aliases = add_reference_types refs (
      if ref.reference_type_id.namespace_index == 0
      then add_alias name ref.reference_type_id aliases
      else aliases)

  unfoldable pub node_aliases : NodeIntermediateModel → Aliases → Outcome Aliases
  unfolding data_type_step
  node_aliases m aliases = elim (data_type_step m aliases) [
    | fails s ↦ fails s
    | throws x ↦ throws x
    | ok (break_off more) ↦ ok more
    | ok (go_on more) ↦ ok (add_reference_types (get_node_reference_type_aliases ua m) more)
  ]

  unfoldable pub get_aliases : List NodeIntermediateModel → Aliases → Outcome Aliases
  get_aliases [] aliases = ok aliases
  get_aliases (m ∷ ms) aliases = node_aliases m aliases >>= get_aliases ms
