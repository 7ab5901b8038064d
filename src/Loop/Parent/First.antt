-- ===== src/Loop/Parent/First.antt =====
-- Which reference gives the parent of a node.
use open62541_nodeset_export.Prelude.{
  All, Bool-cases, List, [], arith, false, inl, inr, none, refl, some, true, ◌++◌, ◌∷◌, ◌≡◌, ◌⊎◌,
}
use open62541_nodeset_export.Loop.Parent.{get_parent_node_id, is_parent_reference}
use open62541_nodeset_export.Prelude.Member.{In}
use open62541_nodeset_export.Ua.{NodeClass, ReferenceDescription, Ua, UaLaws, contains_class}
use open62541_nodeset_export.Ua.Ids.{has_subtype, types_nodeclasses}
use open62541_nodeset_export.Ua.Sets.{In→contains_class, contains_class→In}

pub not_type_class :
    (c : NodeClass) → (In c types_nodeclasses → ⊥) → contains_class types_nodeclasses c ≡ false
not_type_class c h = elim (Bool-cases (contains_class types_nodeclasses c)) [
  | inl e ↦ absurd (h (contains_class→In types_nodeclasses c e))
  | inr e ↦ e
]

-- The reference that a parent may be taken from: a reverse one, and for a type class a HasSubtype one.
abbrev pub IsParentReference : NodeClass → ReferenceDescription → Type 0
IsParentReference node_class ref =
    (ref.is_forward ≡ false)
    × (In node_class types_nodeclasses → ref.reference_type_id ≡ has_subtype)

module _ {ua : Ua} (laws : UaLaws ua) (node_class : NodeClass) (ref : ReferenceDescription) where
  pub is_parent_reference→ :
      is_parent_reference ua node_class ref ≡ true → IsParentReference node_class ref
  is_parent_reference→ h = elim (Bool-cases (contains_class types_nodeclasses node_class)) [
    | inl e ↦
        let r = rw e at h in
        (
          ground arith,
          λ _. (laws.node_id_equal_iff ref.reference_type_id has_subtype).0 (ground arith),
        )
    | inr e ↦
        let r = rw e at h in
        (ground arith, λ t. cc (In→contains_class types_nodeclasses node_class t))
  ]

  pub is_parent_reference← :
      IsParentReference node_class ref → is_parent_reference ua node_class ref ≡ true
  is_parent_reference← h = elim (Bool-cases (contains_class types_nodeclasses node_class)) [
    | inl e ↦ rw (
      h.0,
      e,
      (laws.node_id_equal_iff ref.reference_type_id has_subtype).1
          (h.1 (contains_class→In types_nodeclasses node_class e)),
    )
    | inr e ↦ rw (h.0, e)
  ]

-- `get_parent_node_id` splits the list at the first reference that a parent may be taken from: with a
-- result, the references before it may not give a parent, it may, and the result is its target; with
-- none, no reference of the list may.
pub get_parent_node_id-first :
    {ua : Ua} (laws : UaLaws ua) (node_class : NodeClass) (refs : List ReferenceDescription)
    → ((before : List ReferenceDescription) × (ref : ReferenceDescription) × (after : List
          ReferenceDescription)
        × (refs ≡ before ++ (ref ∷ after))
        × All (λ r. IsParentReference node_class r → ⊥) before
        × IsParentReference node_class ref
        × (get_parent_node_id ua node_class refs ≡ some ref.node_id))
      ⊎ (All (λ r. IsParentReference node_class r → ⊥) refs
          × (get_parent_node_id ua node_class refs ≡ none))
unfolding get_parent_node_id
get_parent_node_id-first laws node_class [] = inr (tt, refl)
get_parent_node_id-first {ua} laws node_class (ref ∷ refs) =
    elim (Bool-cases (is_parent_reference ua node_class ref)) [
      | inl e ↦ inl ([], ref, refs, refl, tt, is_parent_reference→ laws node_class ref e, rw e)
      | inr e ↦ elim (get_parent_node_id-first laws node_class refs) [
        | inl (before, r, after, split, none_before, is_parent, same) ↦ inl (
          ref ∷ before,
          r,
          after,
          rw split,
          ((λ p. cc (is_parent_reference← laws node_class ref p)), none_before),
          is_parent,
          rw e same,
        )
        | inr (none_here, same) ↦
            inr (((λ p. cc (is_parent_reference← laws node_class ref p)), none_here), rw e same)
      ]
    ]

-- A first reference that may give the parent does.
pub get_parent_node_id-head :
    (ua : Ua) (node_class : NodeClass) (ref : ReferenceDescription)
    (refs : List ReferenceDescription)
    → (In node_class types_nodeclasses → ⊥)
    → ref.is_forward ≡ false
    → get_parent_node_id ua node_class (ref ∷ refs) ≡ some ref.node_id
unfolding get_parent_node_id
get_parent_node_id-head ua node_class ref refs no_type back =
    rw (back, not_type_class node_class no_type)
