-- ===== src/Loop/Filters/Exact.antt =====
-- What the three reference filters of NodesetExporterLoop.cpp keep.
use open62541_nodeset_export.Prelude.{
  Bool, Bool-cases, List, [], ap, arith, false, if◌then◌else◌, inl, inr, not, refl, sym, true, ◌&&◌,
  ◌==◌, ◌||◌, ◌↔◌, ◌∙◌, ◌∷◌, ◌≡◌, ◌⊎◌,
}
use open62541_nodeset_export.Loop.Filters.{
  delete_all_hierarchical_references, delete_failed_references, delete_not_has_subtype_reference,
  is_wrong_reverse,
}
use open62541_nodeset_export.Prelude.Member.{In}
use open62541_nodeset_export.Ua.{
  ExpandedNodeId, NodeClass, ReferenceDescription, Ua, UaLaws, contains_class, contains_expanded,
  contains_node_id,
}
use open62541_nodeset_export.Ua.Ids.{
  has_subtype, hierarchical_references, objects_folder, types_nodeclasses,
}
use open62541_nodeset_export.Ua.Sets.{
  In→contains_class, In→contains_expanded, In→contains_node_id, contains_class→In,
  contains_expanded→In, contains_node_id→In, not_contains_expanded,
}

-- A filter by a Boolean test, which the loops are shown to be.
abbrev keep_if {ℓ} : {A : Type ℓ} → (A → Bool) → List A → List A
keep_if p [] = []
keep_if p (x ∷ xs) = if p x then x ∷ keep_if p xs else keep_if p xs

In-keep_if→ :
    {A : Type 0} (p : A → Bool) (x : A) (xs : List A) → In x (keep_if p xs) → In x xs × (p x ≡ true)
In-keep_if→ p x [] h = absurd h
In-keep_if→ p x (y ∷ ys) h = elim (Bool-cases (p y)) [
  | inl e ↦ elim (rw e at h) [
    | inl same ↦ (inl same, ap p same ∙ e)
    | inr m ↦ let k = In-keep_if→ p x ys m in (inr k.0, k.1)
  ]
  | inr e ↦ let k = In-keep_if→ p x ys (rw e at h) in (inr k.0, k.1)
]

In-keep_if← :
    {A : Type 0} (p : A → Bool) (x : A) (xs : List A) → In x xs → p x ≡ true → In x (keep_if p xs)
In-keep_if← p x [] h e = absurd h
In-keep_if← p x (y ∷ ys) (inl same) e = rw (ap p (sym same) ∙ e) (inl same)
In-keep_if← p x (y ∷ ys) (inr m) e = elim (Bool-cases (p y)) [
  | inl k ↦ rw k (inr (In-keep_if← p x ys m e))
  | inr k ↦ rw k (In-keep_if← p x ys m e)
]

abbrev survives : Ua → List ExpandedNodeId → List ExpandedNodeId → ReferenceDescription → Bool
survives ua ignored ids ref =
    (ref.node_id.node_id.namespace_index == 0)
    || not (contains_expanded ua ignored ref.node_id) && contains_expanded ua ids ref.node_id

module _ (ua : Ua) where
  delete_failed_references-keep_if :
      (ignored ids : List ExpandedNodeId) (refs : List ReferenceDescription)
      → delete_failed_references ua ignored ids refs ≡ keep_if (survives ua ignored ids) refs
  unfolding delete_failed_references
  delete_failed_references-keep_if ignored ids [] = refl
  delete_failed_references-keep_if ignored ids (ref ∷ refs) =
      ground (arith, delete_failed_references-keep_if ignored ids refs)

  delete_all_hierarchical_references-keep_if :
      (refs : List ReferenceDescription)
      → delete_all_hierarchical_references ua refs
        ≡ keep_if
            (λ ref. not (contains_node_id ua hierarchical_references ref.reference_type_id))
            refs
  unfolding delete_all_hierarchical_references
  delete_all_hierarchical_references-keep_if [] = refl
  delete_all_hierarchical_references-keep_if (ref ∷ refs) =
      ground (arith, delete_all_hierarchical_references-keep_if refs)

  delete_not_has_subtype_reference-keep_if :
      (node_class : NodeClass) (refs : List ReferenceDescription)
      → delete_not_has_subtype_reference ua node_class refs
        ≡ keep_if
            (λ ref.
              not (contains_class types_nodeclasses node_class) || not (is_wrong_reverse ua ref))
            refs
  unfolding delete_not_has_subtype_reference
  delete_not_has_subtype_reference-keep_if node_class [] = refl
  delete_not_has_subtype_reference-keep_if node_class (ref ∷ refs) =
      ground (arith, delete_not_has_subtype_reference-keep_if node_class refs)

module _ {ua : Ua} (laws : UaLaws ua) (ignored ids : List ExpandedNodeId)
    (ref : ReferenceDescription) where
  abbrev MaySurvive : Type 0
  MaySurvive =
      (ref.node_id.node_id.namespace_index ≡ 0)
      ⊎ ((In ref.node_id ignored → ⊥) × In ref.node_id ids)

  survives_cases :
      survives ua ignored ids ref ≡ true
      → (ref.node_id.node_id.namespace_index ≡ 0)
        ⊎ ((contains_expanded ua ignored ref.node_id ≡ false)
            × (contains_expanded ua ids ref.node_id ≡ true))
  survives_cases h = ground arith

  survives→ : survives ua ignored ids ref ≡ true → MaySurvive
  survives→ h = elim (survives_cases h) [
    | inl e ↦ inl e
    | inr (out, here) ↦
        inr (not_contains_expanded laws ignored _ out, contains_expanded→In laws ids _ here)
  ]

  survives← : MaySurvive → survives ua ignored ids ref ≡ true
  survives← (inl e) = ground arith
  survives← (inr (out, here)) = elim (Bool-cases (contains_expanded ua ignored ref.node_id)) [
    | inl e ↦ absurd (out (contains_expanded→In laws ignored _ e))
    | inr e ↦ ground (arith, In→contains_expanded laws ids ref.node_id here)
  ]

-- A reference survives `delete_failed_references` exactly when it stood in the list and either points
-- into namespace 0 or points to a node of the export that is not among the ignored ones.
pub delete_failed_references-exact :
    {ua : Ua} (laws : UaLaws ua) (ignored ids : List ExpandedNodeId)
    (refs : List ReferenceDescription) (ref : ReferenceDescription)
    → In ref (delete_failed_references ua ignored ids refs) ↔ (
        In ref refs
        × ((ref.node_id.node_id.namespace_index ≡ 0)
            ⊎ ((In ref.node_id ignored → ⊥) × In ref.node_id ids)))
delete_failed_references-exact {ua} laws ignored ids refs ref =
    rw (delete_failed_references-keep_if ua ignored ids refs) (
      (λ h.
          let (m, e) = In-keep_if→ (survives ua ignored ids) ref refs h in
          (m, survives→ laws ignored ids ref e)),
      (λ h.
          In-keep_if← (survives ua ignored ids) ref refs h.0 (survives← laws ignored ids ref h.1)),
    )

-- After `delete_all_hierarchical_references` exactly the references whose type is not in the table of
-- hierarchical types are left.
pub delete_all_hierarchical_references-exact :
    {ua : Ua} (laws : UaLaws ua) (refs : List ReferenceDescription) (ref : ReferenceDescription)
    → In ref (delete_all_hierarchical_references ua refs)
      ↔ (In ref refs × (In ref.reference_type_id hierarchical_references → ⊥))
delete_all_hierarchical_references-exact {ua} laws refs ref =
    rw (delete_all_hierarchical_references-keep_if ua refs) (
      (λ h.
          let (m, e) = In-keep_if→ _ ref refs h in
          (m, λ bad. cc (In→contains_node_id laws hierarchical_references _ bad))),
      (λ h.
          In-keep_if← _ ref refs h.0
            (elim (Bool-cases (contains_node_id ua hierarchical_references ref.reference_type_id)) [
              | inl e ↦ absurd (h.1 (contains_node_id→In laws hierarchical_references _ e))
              | inr e ↦ rw e
            ])),
    )

reverse_cases :
    {ua : Ua} (laws : UaLaws ua) (ref : ReferenceDescription)
    → not (is_wrong_reverse ua ref) ≡ true
    → (ref.is_forward ≡ true)
      ⊎ (ref.reference_type_id ≡ has_subtype)
      ⊎ (ref.node_id.node_id ≡ objects_folder)
reverse_cases {ua} laws ref h = ground (
  arith,
  laws.node_id_equal_iff ref.reference_type_id has_subtype,
  laws.node_id_equal_iff ref.node_id.node_id objects_folder,
)

reverse_allowed :
    {ua : Ua} (laws : UaLaws ua) (ref : ReferenceDescription)
    → (ref.is_forward ≡ true)
      ⊎ (ref.reference_type_id ≡ has_subtype)
      ⊎ (ref.node_id.node_id ≡ objects_folder)
    → not (is_wrong_reverse ua ref) ≡ true
reverse_allowed {ua} laws ref (inl e) = ground arith
reverse_allowed {ua} laws ref (inr (inl e)) =
    ground (arith, (laws.node_id_equal_iff ref.reference_type_id has_subtype).1 e)
reverse_allowed {ua} laws ref (inr (inr e)) =
    ground (arith, (laws.node_id_equal_iff ref.node_id.node_id objects_folder).1 e)

keep_if_all : {A : Type 0} (p : A → Bool) (xs : List A) → ((x : A) → p x ≡ true) → keep_if p xs ≡ xs
keep_if_all p [] h = refl
keep_if_all p (x ∷ xs) h = rw (h x, keep_if_all p xs h)

-- For a node of a type class, after `delete_not_has_subtype_reference` a reference is left exactly when
-- it stood in the list and is a forward one, a HasSubtype one, or one to the objects folder; for a node
-- of another class the list is unchanged.
pub delete_not_has_subtype_reference-exact :
    {ua : Ua} (laws : UaLaws ua) (node_class : NodeClass) (refs : List ReferenceDescription)
    (ref : ReferenceDescription)
    → (In node_class types_nodeclasses
        → In ref (delete_not_has_subtype_reference ua node_class refs) ↔ (
            In ref refs
            × ((ref.is_forward ≡ true)
                ⊎ (ref.reference_type_id ≡ has_subtype)
                ⊎ (ref.node_id.node_id ≡ objects_folder))))
      × ((In node_class types_nodeclasses → ⊥)
          → delete_not_has_subtype_reference ua node_class refs ≡ refs)
delete_not_has_subtype_reference-exact {ua} laws node_class refs ref =
    rw (delete_not_has_subtype_reference-keep_if ua node_class refs) (
      (λ t.
          let is_type = In→contains_class types_nodeclasses node_class t in
          rw is_type (
            (λ h. let (m, e) = In-keep_if→ _ ref refs h in (m, reverse_cases laws ref e)),
            (λ h. In-keep_if← _ ref refs h.0 (reverse_allowed laws ref h.1)),
          )),
      (λ t. elim (Bool-cases (contains_class types_nodeclasses node_class)) [
        | inl e ↦ absurd (t (contains_class→In types_nodeclasses node_class e))
        | inr e ↦ rw e (keep_if_all _ refs (λ _. refl))
      ]),
    )
