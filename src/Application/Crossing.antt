-- ===== src/Application/Crossing.antt =====
-- When CheckStartNodeCrossing passes.
use open62541_nodeset_export.Prelude.{
  All, Bool-cases, List, Ordering, Text, [], ap, arith, false, inl, inr, refl, subst, sym, true,
  ◌↔◌, ◌∷◌, ◌≡◌, ◌≢◌, ◌⊎◌,
}
use open62541_nodeset_export.Application.{
  check_lists, check_nodes, check_start_node_crossing, check_starts, expanded_equal, same_key,
}
use open62541_nodeset_export.Loop.Exporter.{NodeLists}
use open62541_nodeset_export.Prelude.Member.{In}
use open62541_nodeset_export.Status.{Status, fails, of_status, ok}
use open62541_nodeset_export.Texts.{compare_text_refl, compare_text→eq}
use open62541_nodeset_export.Ua.{ExpandedNodeId, Ua, UaLaws}

-- No node of the second list is the start node of the first one.
abbrev pub IsApart : List ExpandedNodeId → List ExpandedNodeId → Type 0
IsApart [] ids = Unit
IsApart (start ∷ nodes) ids = All (λ id. id ≢ start) ids

abbrev pub IsApartFrom : Text × List ExpandedNodeId → Text × List ExpandedNodeId → Type 0
IsApartFrom l other_list = (l.0 ≡ other_list.0) ⊎ IsApart l.1 other_list.1

-- No list holds the start node of a list with another name.
abbrev pub AreSeparate : NodeLists → NodeLists → Type 0
AreSeparate starts lists = All (λ l. All (IsApartFrom l) lists) starts

-- The start node of the first list stands in the second one.
abbrev pub IsCrossed : List ExpandedNodeId → List ExpandedNodeId → Type 0
IsCrossed [] ids = ⊥
IsCrossed (start ∷ nodes) ids = In start ids

abbrev pub AreCrossed : Text × List ExpandedNodeId → NodeLists → Type 0
AreCrossed l lists = (k : Text × List ExpandedNodeId) × In k lists × (l.0 ≢ k.0) × IsCrossed l.1 k.1

abbrev pub HasStart : Text × List ExpandedNodeId → Type 0
HasStart l = (start : ExpandedNodeId) × (nodes : List ExpandedNodeId) × (l.1 ≡ start ∷ nodes)

module _ {ua : Ua} (laws : UaLaws ua) where
  expanded_equal_iff : (a b : ExpandedNodeId) → (expanded_equal ua a b ≡ true) ↔ (a ≡ b)
  expanded_equal_iff a b = ground (arith, laws.expanded_order_iff a b)

  same_key_iff : (k j : Text) → (same_key k j ≡ true) ↔ (k ≡ j)
  same_key_iff k j = (
    (λ h. compare_text→eq k j (ground arith)),
    λ h.
        subst (λ x. same_key x j ≡ true) (sym h)
          (ap (λ o. elim o [ Ordering.eq ↦ true | Ordering.lt ↦ false | Ordering.gt ↦ false ])
            (compare_text_refl j)),
  )

  check_nodes-cases :
      (start : ExpandedNodeId) (nodes ids : List ExpandedNodeId)
      → ((check_nodes ua (start ∷ nodes) ids ≡ ok tt) × All (λ id. id ≢ start) ids)
        ⊎ ((check_nodes ua (start ∷ nodes) ids ≡ fails (of_status Status.fail)) × In start ids)
  unfolding check_nodes
  check_nodes-cases start nodes [] = inl (refl, tt)
  check_nodes-cases start nodes (id ∷ ids) = elim (Bool-cases (expanded_equal ua id start)) [
    | inl e ↦ inr (rw (e, check_nodes) refl, inl (sym ((expanded_equal_iff id start).0 e)))
    | inr e ↦ elim (check_nodes-cases start nodes ids) [
      | inl (passed, apart) ↦ inl (
        rw (e, check_nodes) passed,
        ((λ same. let bad = (expanded_equal_iff id start).1 same in cc), apart),
      )
      | inr (stopped, here) ↦ inr (rw (e, check_nodes) stopped, inr here)
    ]
  ]

  check_lists-cases :
      (l : Text × List ExpandedNodeId) (lists : NodeLists)
      → HasStart l
      → ((check_lists ua l lists ≡ ok tt) × All (IsApartFrom l) lists)
        ⊎ ((check_lists ua l lists ≡ fails (of_status Status.fail)) × AreCrossed l lists)
  unfolding check_lists
  check_lists-cases l [] has = inl (refl, tt)
  check_lists-cases l (k ∷ lists) has = elim (Bool-cases (same_key l.0 k.0)) [
    | inl e ↦ elim (check_lists-cases l lists has) [
      | inl (passed, apart) ↦
          inl (rw (e, check_lists) passed, (inl ((same_key_iff l.0 k.0).0 e), apart))
      | inr (stopped, (j, here, differs, crossed)) ↦
          inr (rw (e, check_lists) stopped, (j, inr here, differs, crossed))
    ]
    | inr e ↦
        let (start, nodes, full) = has in
        elim (check_nodes-cases start nodes k.1) [
          | inr (stopped, here) ↦ inr (
            rw (e, full, stopped, check_lists) refl,
            (k, inl refl, (λ same. let bad = (same_key_iff l.0 k.0).1 same in cc), rw full here),
          )
          | inl (passed, apart) ↦ elim (check_lists-cases l lists has) [
            | inl (all_passed, separate) ↦
                inl (rw (e, full, passed, check_lists) all_passed, (inr (rw full apart), separate))
            | inr (stopped, (j, here, differs, crossed)) ↦
                inr (rw (e, full, passed, check_lists) stopped, (j, inr here, differs, crossed))
          ]
        ]
  ]

  check_starts-cases :
      (starts lists : NodeLists)
      → All HasStart starts
      → ((check_starts ua starts lists ≡ ok tt) × AreSeparate starts lists)
        ⊎ ((check_starts ua starts lists ≡ fails (of_status Status.fail))
            × ((l : Text × List ExpandedNodeId) × In l starts × AreCrossed l lists))
  check_starts-cases [] lists has = inl (refl, tt)
  check_starts-cases (l ∷ starts) lists (has, more) = elim (check_lists-cases l lists has) [
    | inr (stopped, crossed) ↦ inr (rw stopped refl, (l, inl refl, crossed))
    | inl (passed, apart) ↦ elim (check_starts-cases starts lists more) [
      | inl (all_passed, separate) ↦ inl (rw passed all_passed, (apart, separate))
      | inr (stopped, (k, here, crossed)) ↦ inr (rw passed stopped, (k, inr here, crossed))
    ]
  ]

  -- Where every list has a start node, CheckStartNodeCrossing passes exactly if no list holds the start node of
  -- a list with another name; otherwise it returns Fail, and there are two such lists.
  pub check_start_node_crossing-cases :
      (lists : NodeLists)
      → All HasStart lists
      → ((check_start_node_crossing ua lists ≡ ok tt) × AreSeparate lists lists)
        ⊎ ((check_start_node_crossing ua lists ≡ fails (of_status Status.fail))
            × ((l : Text × List ExpandedNodeId) × In l lists × AreCrossed l lists))
  unfolding check_start_node_crossing
  check_start_node_crossing-cases lists has = check_starts-cases lists lists has
