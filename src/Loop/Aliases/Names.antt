-- ===== src/Loop/Aliases/Names.antt =====
-- Which names GetAliases puts into the table.
use open62541_nodeset_export.Prelude.{
  ==_iff, All, Bool-cases, List, Option-cases, Order-cases, Text, [], ap, inl, inr, none, refl,
  some, subst, sym, true, ◌==◌, ◌∙◌, ◌∷◌, ◌≡◌, ◌≢◌, ◌⊎◌,
}
use open62541_nodeset_export.Loop.Aliases.{
  Aliases, add_alias, add_data_type, add_reference_types, break_off, data_type_step, go_on,
  node_aliases,
}
use open62541_nodeset_export.Model.{
  NodeIntermediateModel, attribute_datatype, find_attribute, get_data_type_alias,
  get_node_reference_type_aliases, is_variable_class,
}
use open62541_nodeset_export.Prelude.Member.{In}
use open62541_nodeset_export.Status.{>>=-eq-ok, Outcome-cases, ok, ok-injective}
use open62541_nodeset_export.Texts.{compare_text, compare_text→eq}
use open62541_nodeset_export.Ua.{
  AttrValue, NodeId, ReferenceDescription, Ua, node_id_value, scalar, uint32_array, variant,
}

-- The name has an entry.
abbrev pub HasAlias : Text → Aliases → Type 0
HasAlias k m = (n : NodeId) × In (k, n) m

-- All aliases are of namespace 0.
abbrev pub AllStandard : Aliases → Type 0
AllStandard = All (λ a. a.1.namespace_index ≡ 0)

add_alias-In :
    (k : Text) (n : NodeId) (m : Aliases) (p : Text × NodeId) → In p m → In p (add_alias k n m)
unfolding add_alias
add_alias-In k n ((j, old) ∷ m) p h = elim (Order-cases (compare_text k j)) [
  | inl e ↦ rw (e, add_alias) h
  | inr (inl e) ↦ rw (e, add_alias) (inr h)
  | inr (inr e) ↦
      rw (e, add_alias) (elim h [ inl q ↦ inl q | inr r ↦ inr (add_alias-In k n m p r) ])
]
add_alias-In k n [] p h = absurd h

add_alias-HasAlias : (k : Text) (n : NodeId) (m : Aliases) → HasAlias k (add_alias k n m)
unfolding add_alias
add_alias-HasAlias k n [] = (n, inl refl)
add_alias-HasAlias k n ((j, old) ∷ m) = elim (Order-cases (compare_text k j)) [
  | inl e ↦ (old, rw (e, add_alias) (inl (ap (λ t. (t, old)) (compare_text→eq k j e))))
  | inr (inl e) ↦ (n, rw (e, add_alias) (inl refl))
  | inr (inr e) ↦ let (o, h) = add_alias-HasAlias k n m in (o, rw (e, add_alias) (inr h))
]

add_alias-AllStandard :
    (k : Text) (n : NodeId) (m : Aliases)
    → n.namespace_index ≡ 0
    → AllStandard m
    → AllStandard (add_alias k n m)
unfolding add_alias
add_alias-AllStandard k n [] z h = (z, tt)
add_alias-AllStandard k n ((j, old) ∷ m) z h = elim (Order-cases (compare_text k j)) [
  | inl e ↦ rw (e, add_alias) h
  | inr (inl e) ↦ rw (e, add_alias) (z, h)
  | inr (inr e) ↦ rw (e, add_alias) (h.0, add_alias-AllStandard k n m z h.1)
]

-- The table has grown: no entry is lost, and a table of standard names stays one.
abbrev pub Grows : Aliases → Aliases → Type 0
Grows m m' = ((p : Text × NodeId) → In p m → In p m') × (AllStandard m → AllStandard m')

Grows-trans : (a b c : Aliases) → Grows a b → Grows b c → Grows a c
Grows-trans a b c h k = ((λ p i. k.0 p (h.0 p i)), λ s. k.1 (h.1 s))

add_alias-Grows :
    (k : Text) (n : NodeId) (m : Aliases) → n.namespace_index ≡ 0 → Grows m (add_alias k n m)
add_alias-Grows k n m z = (add_alias-In k n m, add_alias-AllStandard k n m z)

module _ (ua : Ua) where
  -- Every reference type of namespace 0 has its name in the table.
  abbrev pub NamesAll : List (ReferenceDescription × Text) → Aliases → Type 0
  NamesAll refs m = All (λ r. (r.0.reference_type_id.namespace_index ≢ 0) ⊎ HasAlias r.1 m) refs

  add_reference_types-names :
      (refs : List (ReferenceDescription × Text)) (m : Aliases)
      → Grows m (add_reference_types ua refs m) × NamesAll refs (add_reference_types ua refs m)
  unfolding add_reference_types
  add_reference_types-names [] m = (((λ p i. i), λ s. s), tt)
  add_reference_types-names ((ref, name) ∷ refs) m =
      elim (Bool-cases (ref.reference_type_id.namespace_index == 0)) [
        | inl e ↦
            let more = add_alias name ref.reference_type_id m in
            let rest = add_reference_types-names refs more in
            let grown = add_alias-Grows name ref.reference_type_id m ((==_iff _ 0).0 e) in
            let (n, here) = add_alias-HasAlias name ref.reference_type_id m in
            let same : add_reference_types ua ((ref, name) ∷ refs) m
                ≡ add_reference_types ua refs more =
              rw e in
            subst (λ t. Grows m t × NamesAll ((ref, name) ∷ refs) t) (sym same)
              (
                Grows-trans m more (add_reference_types ua refs more) grown rest.0,
                (inr (n, rest.0.0 (name, n) here), rest.1),
              )
        | inr e ↦
            let rest = add_reference_types-names refs m in
            let same : add_reference_types ua ((ref, name) ∷ refs) m
                ≡ add_reference_types ua refs m =
              rw e in
            subst (λ t. Grows m t × NamesAll ((ref, name) ∷ refs) t) (sym same)
              (
                rest.0,
                (inl (λ z. cc ((==_iff ref.reference_type_id.namespace_index 0).1 z)), rest.1),
              )
      ]

  add_data_type-Grows :
      (m : NodeIntermediateModel) (v : AttrValue) (a b : Aliases)
      → add_data_type ua m v a ≡ ok b
      → Grows a b
  unfolding add_data_type
  add_data_type-Grows m (scalar (node_id_value n)) a b h =
      elim (Bool-cases (n.namespace_index == 0)) [
        | inl e ↦
            let (alias, named, added) = >>=-eq-ok (get_data_type_alias ua m) _ (rw e at h) in
            subst (Grows a) (ok-injective added) (add_alias-Grows alias n a ((==_iff _ 0).0 e))
        | inr e ↦ subst (Grows a) (ok-injective (rw e at h)) ((λ p i. i), λ s. s)
      ]
  add_data_type-Grows m (scalar s) a b h = cc
  add_data_type-Grows m (variant s) a b h = cc
  add_data_type-Grows m (uint32_array s) a b h = cc

  data_type_step-Grows :
      (m : NodeIntermediateModel) (a b : Aliases) → data_type_step ua m a ≡ ok (go_on b) → Grows a b
  unfolding data_type_step
  data_type_step-Grows m a b h = elim (Bool-cases (is_variable_class m.node_class)) [
    | inr e ↦
        let q : a ≡ b = let f = rw (e, data_type_step) at h in cc in
        subst (Grows a) q ((λ p i. i), λ s. s)
    | inl e ↦ elim (Option-cases (find_attribute m.attributes attribute_datatype)) [
      | inl f ↦
          let q : a ≡ b = let g = rw (e, f, data_type_step) at h in cc in
          subst (Grows a) q ((λ p i. i), λ s. s)
      | inr (o, f) ↦ elim (Option-cases o) [
        | inl g ↦ let k = rw (e, f, g, data_type_step) at h in cc
        | inr (v, g) ↦
            let (more, added, same) =
              >>=-eq-ok (add_data_type ua m v a) _ (rw (e, f, g, data_type_step) at h) in
            let q : more ≡ b = cc in subst (Grows a) q (add_data_type-Grows m v a more added)
      ]
    ]
  ]

  -- Variables and variable types whose DataType attribute the server gave no value for.
  abbrev pub IsSkipped : NodeIntermediateModel → Type 0
  IsSkipped m =
      (is_variable_class m.node_class ≡ true)
      × (find_attribute m.attributes attribute_datatype ≡ some none)

  data_type_step-skips :
      (m : NodeIntermediateModel) (a b : Aliases)
      → data_type_step ua m a ≡ ok (break_off b)
      → (a ≡ b) × IsSkipped m
  unfolding data_type_step
  data_type_step-skips m a b h = elim (Bool-cases (is_variable_class m.node_class)) [
    | inr e ↦ let f = rw (e, data_type_step) at h in cc
    | inl e ↦ elim (Option-cases (find_attribute m.attributes attribute_datatype)) [
      | inl f ↦ let g = rw (e, f, data_type_step) at h in cc
      | inr (o, f) ↦ elim (Option-cases o) [
        | inl g ↦
            let q : a ≡ b = let k = rw (e, f, g, data_type_step) at h in cc in
            (q, (e, f ∙ ap (λ t. some t) g))
        | inr (v, g) ↦
            let (more, added, same) =
              >>=-eq-ok (add_data_type ua m v a) _ (rw (e, f, g, data_type_step) at h) in
            cc
      ]
    ]
  ]

  -- When GetAliases has handled one node the table has lost no entry, and a table with entries of namespace
  -- 0 only is still one. Either the node is a variable or a variable type with an empty DataType attribute,
  -- and then the table is unchanged, whatever references the node has; or each reference type of
  -- namespace 0 among its references has its name in the table.
  pub node_aliases-names :
      (m : NodeIntermediateModel) (a b : Aliases)
      → node_aliases ua m a ≡ ok b
      → Grows a b × ((IsSkipped m × (a ≡ b)) ⊎ NamesAll (get_node_reference_type_aliases ua m) b)
  unfolding node_aliases
  node_aliases-names m a b h = elim (Outcome-cases (data_type_step ua m a)) [
    | inl (break_off c, e) ↦
        let (same, skipped) = data_type_step-skips m a c e in
        let q : a ≡ b = same ∙ ok-injective (rw (e, node_aliases) at h) in
        (subst (Grows a) q ((λ p i. i), λ s. s), inl (skipped, q))
    | inl (go_on c, e) ↦
        let refs = get_node_reference_type_aliases ua m in
        let q : add_reference_types ua refs c ≡ b = ok-injective (rw (e, node_aliases) at h) in
        let (grown, names) = add_reference_types-names refs c in
        subst (λ t. Grows a t × ((IsSkipped m × (a ≡ t)) ⊎ NamesAll refs t)) q
          (
            Grows-trans a c (add_reference_types ua refs c) (data_type_step-Grows m a c e) grown,
            inr names,
          )
    | inr (inl (r, e)) ↦ let f = rw (e, node_aliases) at h in cc
    | inr (inr (r, e)) ↦ let f = rw (e, node_aliases) at h in cc
  ]
