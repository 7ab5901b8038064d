-- ===== src/Ua/Sets.antt =====
-- A std::set over the container's order holds exactly its members, by the laws of the order.
use open62541_nodeset_export.Prelude.{
  Bool, Bool-cases, List, Ordering, [], arith, false, inl, inr, not, refl, sym, true, ◌&&◌, ◌↔◌,
  ◌∷◌, ◌≡◌,
}
use open62541_nodeset_export.Prelude.Member.{In}
use open62541_nodeset_export.Ua.{
  ExpandedNodeId, NodeClass, NodeId, Ua, UaLaws, class_eq, contains_class, contains_expanded,
  contains_node_id, insert_expanded, is_less, same_expanded, same_node_id,
}

not_less : Ordering → Ordering → Bool
not_less o p = not (is_less o) && not (is_less p)

not_less-eq :
    (o p : Ordering)
    → ((o ≡ Ordering.gt) ↔ (p ≡ Ordering.lt))
    → (not_less o p ≡ true) ↔ (o ≡ Ordering.eq)
unfolding not_less
not_less-eq Ordering.lt p f = (λ e. cc, λ e. cc)
not_less-eq Ordering.eq Ordering.lt f = absurd (cc (f.1 refl))
not_less-eq Ordering.eq Ordering.eq f = (λ _. refl, λ _. refl)
not_less-eq Ordering.eq Ordering.gt f = (λ _. refl, λ _. refl)
not_less-eq Ordering.gt p f = let e = f.0 refl in (λ h. cc, λ h. cc)

module _ {ua : Ua} (laws : UaLaws ua) where
  pub same_node_id_iff : (a b : NodeId) → (same_node_id ua a b ≡ true) ↔ (a ≡ b)
  unfolding same_node_id not_less
  same_node_id_iff a b =
      let h =
        not_less-eq (ua.node_id_order a b) (ua.node_id_order b a) (laws.node_id_order_flip a b) in
      let k = laws.node_id_order_iff a b in (λ e. k.0 (h.0 e), λ e. h.1 (k.1 e))

  pub same_expanded_iff : (a b : ExpandedNodeId) → (same_expanded ua a b ≡ true) ↔ (a ≡ b)
  unfolding same_expanded not_less
  same_expanded_iff a b =
      let h =
        not_less-eq (ua.expanded_order a b) (ua.expanded_order b a)
          (laws.expanded_order_flip a b) in
      let k = laws.expanded_order_iff a b in (λ e. k.0 (h.0 e), λ e. h.1 (k.1 e))

  pub contains_node_id→In :
      (ys : List NodeId) (x : NodeId) → contains_node_id ua ys x ≡ true → In x ys
  unfolding contains_node_id
  contains_node_id→In [] x h = cc
  contains_node_id→In (y ∷ ys) x h = elim (Bool-cases (same_node_id ua y x)) [
    | inl e ↦ inl (sym ((same_node_id_iff y x).0 e))
    | inr e ↦ inr (contains_node_id→In ys x (rw e at h))
  ]

  pub In→contains_node_id :
      (ys : List NodeId) (x : NodeId) → In x ys → contains_node_id ua ys x ≡ true
  unfolding contains_node_id
  In→contains_node_id [] x h = absurd h
  In→contains_node_id (y ∷ ys) x (inl e) = rw ((same_node_id_iff y x).1 (sym e))
  In→contains_node_id (y ∷ ys) x (inr m) = ground (arith, In→contains_node_id ys x m)

  pub contains_expanded→In :
      (ys : List ExpandedNodeId) (x : ExpandedNodeId) → contains_expanded ua ys x ≡ true → In x ys
  unfolding contains_expanded
  contains_expanded→In [] x h = cc
  contains_expanded→In (y ∷ ys) x h = elim (Bool-cases (same_expanded ua y x)) [
    | inl e ↦ inl (sym ((same_expanded_iff y x).0 e))
    | inr e ↦ inr (contains_expanded→In ys x (rw e at h))
  ]

  pub In→contains_expanded :
      (ys : List ExpandedNodeId) (x : ExpandedNodeId) → In x ys → contains_expanded ua ys x ≡ true
  unfolding contains_expanded
  In→contains_expanded [] x h = absurd h
  In→contains_expanded (y ∷ ys) x (inl e) = rw ((same_expanded_iff y x).1 (sym e))
  In→contains_expanded (y ∷ ys) x (inr m) = ground (arith, In→contains_expanded ys x m)

  pub not_contains_expanded :
      (ys : List ExpandedNodeId) (x : ExpandedNodeId)
      → contains_expanded ua ys x ≡ false
      → In x ys
      → ⊥
  not_contains_expanded ys x h m = cc (In→contains_expanded ys x m)

class_eq→ : (c d : NodeClass) → class_eq c d ≡ true → c ≡ d
class_eq→ c d h = ground arith

class_eq_refl : (c : NodeClass) → class_eq c c ≡ true
class_eq_refl c = ground arith

pub contains_class→In : (cs : List NodeClass) (c : NodeClass) → contains_class cs c ≡ true → In c cs
contains_class→In [] c h = cc
contains_class→In (d ∷ ds) c h = elim (Bool-cases (class_eq d c)) [
  | inl e ↦ inl (sym (class_eq→ d c e))
  | inr e ↦ inr (contains_class→In ds c (rw e at h))
]

pub In→contains_class : (cs : List NodeClass) (c : NodeClass) → In c cs → contains_class cs c ≡ true
In→contains_class [] c h = absurd h
In→contains_class (d ∷ ds) c (inl e) = rw (e, class_eq_refl d)
In→contains_class (d ∷ ds) c (inr m) = ground (arith, In→contains_class ds c m)

pub insert_unseen :
    (ua : Ua) (ys : List ExpandedNodeId) (x : ExpandedNodeId)
    → contains_expanded ua ys x ≡ false
    → insert_expanded ua x ys ≡ x ∷ ys
unfolding insert_expanded
insert_unseen ua ys x h = rw h
