-- ===== src/Loop/Wanted.antt =====
-- What GetNodeAttributes of NodesetExporterLoop.cpp asks for each node, with the attribute tables of
-- NodesetExporterLoop.h, and how GetNamespaces reads the answer. Attribute ids are UA_AttributeId.
pub mod Classes
use open62541_nodeset_export.Prelude.{
  List, Option, Text, [], drop, if◌then◌else◌, map, none, some, suc, zero, ℕ, ◌==◌, ◌∷◌,
}
use open62541_nodeset_export.Interfaces.{NodeAttributesRequestResponse, NodeClassesRequestResponse}
use open62541_nodeset_export.Model.{Attributes, merge_attributes}
use open62541_nodeset_export.Status.{
  Outcome, Status, at_index, fails, of_status, ok, out_of_range, throws, undefined, ◌>>=◌,
}
use open62541_nodeset_export.Ua.{
  ExpandedNodeId, NodeClass, Scalar, Variant, contains_class, text_value,
}

-- The Get…NodeAttributes methods of NodesetExporterLoop.h, by attribute id.
abbrev pub ask_for : List ℕ → Attributes
ask_for = map (λ k. (k, none))

unfoldable pub get_common_node_attributes : Attributes
get_common_node_attributes = ask_for (3 ∷ 4 ∷ 5 ∷ 6 ∷ 7 ∷ [])

unfoldable pub specific_node_attributes : NodeClass → Option Attributes
specific_node_attributes NodeClass.object = some (ask_for (12 ∷ []))
specific_node_attributes NodeClass.variable =
    some (ask_for (13 ∷ 14 ∷ 15 ∷ 16 ∷ 17 ∷ 18 ∷ 19 ∷ 20 ∷ []))
specific_node_attributes NodeClass.object_type = some (ask_for (8 ∷ []))
specific_node_attributes NodeClass.variable_type = some (ask_for (8 ∷ 13 ∷ 14 ∷ 15 ∷ 16 ∷ []))
specific_node_attributes NodeClass.reference_type = some (ask_for (8 ∷ 9 ∷ 10 ∷ []))
specific_node_attributes NodeClass.data_type = some (ask_for (8 ∷ 23 ∷ []))
specific_node_attributes _ = none

-- The switch. Its default clears the list; the name of the class is looked up for the log by `at`.
unfoldable pub attributes_of_class : List NodeClass → NodeClass → Outcome Attributes
unfolding get_common_node_attributes specific_node_attributes
attributes_of_class ignored c = elim (specific_node_attributes c) [
  | some more ↦ ok (merge_attributes get_common_node_attributes more)
  | none ↦ if contains_class ignored c then ok [] else throws out_of_range
]

-- One request for each index, `count` of them from `index` on.
unfoldable pub attribute_requests :
    List NodeClass
    → List ExpandedNodeId
    → List NodeClassesRequestResponse
    → ℕ
    → ℕ
    → Outcome (List NodeAttributesRequestResponse)
attribute_requests ignored node_ids classes zero index = ok []
attribute_requests ignored node_ids classes (suc count) index = do
  c ← at_index classes index
  attrs ← attributes_of_class ignored c.node_class
  id ← at_index node_ids index
  rest ← attribute_requests ignored node_ids classes count (suc index)
  ok (record { exp_node_id = id; attrs = attrs } ∷ rest)

abbrev pub text_of : Scalar → Outcome Text
text_of (text_value t) = ok t
text_of _ = throws undefined

unfoldable pub texts_of : List Scalar → Outcome (List Text)
texts_of [] = ok []
texts_of (v ∷ vs) = do t ← text_of v; ts ← texts_of vs; ok (t ∷ ts)

-- The array of a variant: arrayLength is 0 for a scalar.
abbrev pub array_of : Variant → List Scalar
array_of v = elim v.elements [ none ↦ [] | some xs ↦ if v.is_scalar then [] else xs ]

-- Entry 0, the namespace of the standard, is left out.
unfoldable pub namespaces_of : Variant → Outcome (List Text)
unfolding texts_of
namespaces_of v =
    if v.array_dimensions_size == 0
    then elim v.type_kind [
      | none ↦ throws undefined
      | some kind ↦
          if kind == 11 then texts_of (drop 1 (array_of v)) else fails (of_status Status.fail)
    ]
    else fails (of_status Status.fail)
