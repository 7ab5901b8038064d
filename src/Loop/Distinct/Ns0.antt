-- ===== src/Loop/Distinct/Ns0.antt =====
-- Which start nodes pass the check before the export.
use open62541_nodeset_export.Prelude.{
  All, Bool-cases, [], arith, false, inl, inr, refl, subst, sym, true, ◌&&◌, ◌↔◌, ◌∷◌, ◌≡◌, ◌≢◌,
  ◌⊎◌,
}
use open62541_nodeset_export.Loop.Distinct.{check_start_nodes_on_ns0, is_start_allowed}
use open62541_nodeset_export.Loop.Exporter.{NodeLists}
use open62541_nodeset_export.Loop.Options.{Options}
use open62541_nodeset_export.Prelude.Member.{In}
use open62541_nodeset_export.Status.{
  Outcome, Status, StatusResults, at_index, failed_check_ns0_start_nodes, fails, of_sub_status, ok,
}
use open62541_nodeset_export.Ua.{ExpandedNodeId, Ua, UaLaws, contains_expanded}
use open62541_nodeset_export.Ua.Ids.{ns0_standard_node_ids, objects_folder}
use open62541_nodeset_export.Ua.Sets.{contains_expanded→In, not_contains_expanded}

-- In the flat mode the objects folder may be a start node. Otherwise, with ns0_custom_nodes_ready_to_work
-- a start node is none of the standard ones, and without it is not of namespace 0.
abbrev pub IsAllowedStart : Options → ExpandedNodeId → Type 0
IsAllowedStart opts id =
    ((opts.is_enable ≡ true) × (id.node_id ≡ objects_folder))
    ⊎ ((opts.ns0_custom_nodes_ready_to_work ≡ true) × (In id ns0_standard_node_ids → ⊥))
    ⊎ ((opts.ns0_custom_nodes_ready_to_work ≡ false) × (id.node_id.namespace_index ≢ 0))

-- Each list has a first id, and it is allowed.
abbrev pub AllStartsAllowed : Options → NodeLists → Type 0
AllStartsAllowed opts =
    All (λ l. (id : ExpandedNodeId) × (at_index l.1 0 ≡ ok id) × IsAllowedStart opts id)

-- Some list has a first id that is not allowed, and each list before it has a first id.
abbrev pub SomeStartRefused : Options → NodeLists → Type 0
SomeStartRefused opts [] = ⊥
SomeStartRefused opts (l ∷ lists) =
    (id : ExpandedNodeId) × (at_index l.1 0 ≡ ok id)
    × ((IsAllowedStart opts id → ⊥) ⊎ SomeStartRefused opts lists)

same_ok : {a b : ExpandedNodeId} → ◌≡◌ {A = Outcome ExpandedNodeId} (ok a) (ok b) → a ≡ b
same_ok h = cc

module _ {ua : Ua} (laws : UaLaws ua) (opts : Options) where
  allowed→ : (id : ExpandedNodeId) → is_start_allowed ua opts id ≡ true → IsAllowedStart opts id
  unfolding is_start_allowed
  allowed→ id h = elim (Bool-cases (opts.is_enable && ua.node_id_equal id.node_id objects_folder)) [
    | inl e ↦
        inl (ground arith, (laws.node_id_equal_iff id.node_id objects_folder).0 (ground arith))
    | inr e ↦ elim (Bool-cases opts.ns0_custom_nodes_ready_to_work) [
      | inl f ↦ inr (inl (f, not_contains_expanded laws ns0_standard_node_ids id (ground arith)))
      | inr f ↦ inr (inr (f, ground arith))
    ]
  ]

  allowed← : (id : ExpandedNodeId) → IsAllowedStart opts id → is_start_allowed ua opts id ≡ true
  unfolding is_start_allowed
  allowed← id (inl (e, f)) = rw (e, (laws.node_id_equal_iff id.node_id objects_folder).1 f)
  allowed← id (inr (inl (e, f))) =
      elim (Bool-cases (contains_expanded ua ns0_standard_node_ids id)) [
        | inl c ↦ absurd (f (contains_expanded→In laws ns0_standard_node_ids id c))
        | inr c ↦ ground arith
      ]
  allowed← id (inr (inr (e, f))) = ground arith

  -- The check passes exactly when every list has an allowed first id; and where the first list that
  -- does not pass has a first id, it returns Fail with the code FailedCheckNs0StartNodes.
  pub check_start_nodes_on_ns0-exact :
      (lists : NodeLists)
      → ((check_start_nodes_on_ns0 ua opts lists ≡ ok tt) ↔ AllStartsAllowed opts lists)
        × ((check_start_nodes_on_ns0 ua opts lists
              ≡ fails (of_sub_status Status.fail failed_check_ns0_start_nodes))
            ↔ SomeStartRefused opts lists)
  unfolding check_start_nodes_on_ns0
  check_start_nodes_on_ns0-exact [] = ((λ _. tt, λ _. refl), (λ h. cc, λ h. absurd h))
  check_start_nodes_on_ns0-exact ((name, []) ∷ lists) =
      ((λ h. cc, λ p. let e = p.0.1 in cc), (λ h. cc, λ p. let e = p.1 in cc))
  check_start_nodes_on_ns0-exact ((name, id ∷ ids) ∷ lists) =
      let rest = check_start_nodes_on_ns0-exact lists in
      elim (Bool-cases (is_start_allowed ua opts id)) [
        | inl e ↦ rw e (
          (λ h. ((id, refl, allowed→ id e), rest.0.0 h), λ p. rest.0.1 p.1),
          (
            (λ h. (id, refl, inr (rest.1.0 h))),
            (λ p. elim (p.2) [
              | inl refused ↦
                  absurd (refused (subst (IsAllowedStart opts) (same_ok p.1) (allowed→ id e)))
              | inr r ↦ rest.1.1 r
            ]),
          ),
        )
        | inr e ↦ rw e (
          (
            (λ h. cc),
            (λ p. cc (e, allowed← id (subst (IsAllowedStart opts) (sym (same_ok p.0.1)) p.0.2))),
          ),
          ((λ _. (id, refl, inl (λ a. cc (e, allowed← id a)))), λ _. refl),
        )
      ]

pub check_start_nodes_on_ns0-code :
    (ua : Ua) (opts : Options) (lists : NodeLists) (r : StatusResults)
    → check_start_nodes_on_ns0 ua opts lists ≡ fails r
    → r ≡ of_sub_status Status.fail failed_check_ns0_start_nodes
unfolding check_start_nodes_on_ns0
check_start_nodes_on_ns0-code ua opts [] r h = cc
check_start_nodes_on_ns0-code ua opts ((name, []) ∷ lists) r h = cc
check_start_nodes_on_ns0-code ua opts ((name, id ∷ ids) ∷ lists) r h =
    elim (Bool-cases (is_start_allowed ua opts id)) [
      | inl e ↦
          check_start_nodes_on_ns0-code ua opts lists r (rw (e, check_start_nodes_on_ns0) at h)
      | inr e ↦ let f = rw (e, check_start_nodes_on_ns0) at h in cc
    ]
