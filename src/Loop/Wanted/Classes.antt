-- ===== src/Loop/Wanted/Classes.antt =====
-- What is asked for a node, by its class.
use open62541_nodeset_export.Prelude.{
  All, Bool-cases, List, Option-cases, [], ap, inl, inr, length, ltb, none, refl, some, subst, suc,
  zero, ℕ, ◌==◌, ◌∷◌, ◌≡◌,
}
use open62541_nodeset_export.Interfaces.{NodeAttributesRequestResponse, NodeClassesRequestResponse}
use open62541_nodeset_export.Loop.Wanted.{
  ask_for, attribute_requests, attributes_of_class, get_common_node_attributes,
  specific_node_attributes,
}
use open62541_nodeset_export.Model.{Attributes, insert_attribute, merge_attributes}
use open62541_nodeset_export.Status.{>>=-eq-ok, at_index, ok, ok-injective}
use open62541_nodeset_export.Ua.{ExpandedNodeId, NodeClass, contains_class}

-- No attribute has a value.
abbrev pub AllUnset : Attributes → Type 0
AllUnset = All (λ a. a.1 ≡ none)

insert_attribute-unset :
    (k : ℕ) (m : Attributes) → AllUnset m → AllUnset (insert_attribute k none m)
insert_attribute-unset k [] h = (refl, tt)
insert_attribute-unset k ((j, v) ∷ m) h = elim (Bool-cases (k == j)) [
  | inl e ↦ rw e h
  | inr e ↦ elim (Bool-cases (ltb k j)) [
    | inl f ↦ rw (e, f) (refl, h)
    | inr f ↦ rw (e, f) (h.0, insert_attribute-unset k m h.1)
  ]
]

merge_attributes-unset :
    (m more : Attributes) → AllUnset m → AllUnset more → AllUnset (merge_attributes m more)
merge_attributes-unset m [] h k = h
merge_attributes-unset m ((j, v) ∷ more) h (k0, k) =
    rw k0 (merge_attributes-unset (insert_attribute j none m) more (insert_attribute-unset j m h) k)

ask_for-unset : (ks : List ℕ) → AllUnset (ask_for ks)
ask_for-unset [] = tt
ask_for-unset (k ∷ ks) = (refl, ask_for-unset ks)

asked-unset : (ks : List ℕ) (more : Attributes) → some (ask_for ks) ≡ some more → AllUnset more
asked-unset ks more h = let q : ask_for ks ≡ more = cc in subst AllUnset q (ask_for-unset ks)

specific_node_attributes-unset :
    (c : NodeClass) (more : Attributes) → specific_node_attributes c ≡ some more → AllUnset more
unfolding specific_node_attributes
specific_node_attributes-unset NodeClass.object more h = asked-unset (12 ∷ []) more h
specific_node_attributes-unset NodeClass.variable more h =
    asked-unset (13 ∷ 14 ∷ 15 ∷ 16 ∷ 17 ∷ 18 ∷ 19 ∷ 20 ∷ []) more h
specific_node_attributes-unset NodeClass.object_type more h = asked-unset (8 ∷ []) more h
specific_node_attributes-unset NodeClass.variable_type more h =
    asked-unset (8 ∷ 13 ∷ 14 ∷ 15 ∷ 16 ∷ []) more h
specific_node_attributes-unset NodeClass.reference_type more h =
    asked-unset (8 ∷ 9 ∷ 10 ∷ []) more h
specific_node_attributes-unset NodeClass.data_type more h = asked-unset (8 ∷ 23 ∷ []) more h
specific_node_attributes-unset _ more h = cc

-- The attributes that a request names are unset.
pub attributes_of_class-unset :
    (ignored : List NodeClass) (c : NodeClass) (attrs : Attributes)
    → attributes_of_class ignored c ≡ ok attrs
    → AllUnset attrs
unfolding attributes_of_class get_common_node_attributes
attributes_of_class-unset ignored c attrs h = elim (Option-cases (specific_node_attributes c)) [
  | inl e ↦ elim (Bool-cases (contains_class ignored c)) [
    | inl f ↦ subst AllUnset (ok-injective (rw (e, f, attributes_of_class) at h)) tt
    | inr f ↦ let g = rw (e, f, attributes_of_class) at h in cc
  ]
  | inr (more, e) ↦ subst AllUnset (ok-injective (rw (e, attributes_of_class) at h)) (
      merge_attributes-unset get_common_node_attributes more
        (ask_for-unset (3 ∷ 4 ∷ 5 ∷ 6 ∷ 7 ∷ [])) (specific_node_attributes-unset c more e))
]

-- The requests that GetNodeAttributes makes: one for each node of the range, with nothing read yet.
pub attribute_requests-unset :
    (ignored : List NodeClass) (node_ids : List ExpandedNodeId)
    (classes : List NodeClassesRequestResponse) (count index : ℕ)
    (requests : List NodeAttributesRequestResponse)
    → attribute_requests ignored node_ids classes count index ≡ ok requests
    → (length requests ≡ count) × All (λ r. AllUnset r.attrs) requests
unfolding attribute_requests
attribute_requests-unset ignored node_ids classes zero index requests h =
    subst (λ rs. (length rs ≡ 0) × All (λ r. AllUnset r.attrs) rs) (ok-injective h) (refl, tt)
attribute_requests-unset ignored node_ids classes (suc count) index requests h =
    let (c, _, h1) = >>=-eq-ok (at_index classes index) _ h in
    let (attrs, wanted, h2) = >>=-eq-ok (attributes_of_class ignored c.node_class) _ h1 in
    let (id, _, h3) = >>=-eq-ok (at_index node_ids index) _ h2 in
    let (rest, asked, done) =
      >>=-eq-ok (attribute_requests ignored node_ids classes count (suc index)) _ h3 in
    let (size, unset) =
      attribute_requests-unset ignored node_ids classes count (suc index) rest asked in
    subst (λ rs. (length rs ≡ suc count) × All (λ r. AllUnset r.attrs) rs) (ok-injective done)
      (ap suc size, (attributes_of_class-unset ignored c.node_class attrs wanted, unset))
