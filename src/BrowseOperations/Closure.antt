-- ===== src/BrowseOperations/Closure.antt =====
-- GrabChildNodeIdsFromStartNodeId goes through every node that it finds.
use open62541_nodeset_export.Prelude.{
  List, [], ap, append-nil, append_assoc, arith, drop, length, refl, subst, suc, sym, zero, ℕ, ◌++◌,
  ◌<◌, ◌∙◌, ◌∷◌, ◌≡◌, ◌≢◌, ◌≤◌,
}
use open62541_nodeset_export.BrowseOperations.{
  BrowseDescription, Grabbed, grab_child_node_ids_from_start_node_id, grab_round, grab_rounds,
  returned, unfinished,
}
use open62541_nodeset_export.BrowseOperations.Rounds.{
  Asked, Asked-append, IsRound, IsStopped, answer, found, grab_round-IsRound,
}
use open62541_nodeset_export.Client.{BrowseResponse}
use open62541_nodeset_export.Status.{Status}
use open62541_nodeset_export.Ua.{ExpandedNodeId, Ua}

drop-length-append : {A : Type 0} (xs ys : List A) → drop (length xs) (xs ++ ys) ≡ ys
drop-length-append [] ys = refl
drop-length-append (x ∷ xs) ys = drop-length-append xs ys

some_left : (out : List ExpandedNodeId) (start : ExpandedNodeId) → out ++ start ∷ [] ≢ []
some_left [] start e = cc
some_left (x ∷ out) start e = cc

module _ {W : Type 0} (ua : Ua) (service_browse : BrowseDescription → W → BrowseResponse × W)
    (rank : ExpandedNodeId → ℕ) where
  abbrev pub Below : ℕ → List ExpandedNodeId → Type 0
  Below n [] = Unit
  Below n (id ∷ ids) = (rank id < n) × Below n ids

  -- The server only refers down: what it answers about a node has a smaller rank.
  abbrev pub IsTiered : Type 0
  IsTiered =
      (id : ExpandedNodeId) (w : W)
      → Below (rank id) (found ua service_browse (answer ua service_browse id w).0)

  -- How a call ends that was given the nodes `initial`. With Good, every entry of `out` has been asked
  -- about, and `out` holds the nodes that the answers refer to after the initial ones. With Fail, one of
  -- the nodes of `out` was answered with a bad status.
  abbrev pub IsGrabbed : List ExpandedNodeId → W → Grabbed W → Type 0
  IsGrabbed initial w (returned Status.good out w') =
      (kids : List ExpandedNodeId) × (out ≡ initial ++ kids) × Asked ua service_browse out kids w w'
  IsGrabbed initial w (returned Status.fail out w') =
      (kids more : List ExpandedNodeId) × (out ≡ initial ++ kids)
      × IsStopped ua service_browse out (kids ++ more) w w'
  IsGrabbed initial w unfinished = ⊥

  Below-le : (a b : ℕ) (ids : List ExpandedNodeId) → a ≤ b → Below a ids → Below b ids
  Below-le a b [] h below = tt
  Below-le a b (id ∷ ids) h (one, rest) = (omega (arith, one, h), Below-le a b ids h rest)

  Below-append :
      (n : ℕ) (xs ys : List ExpandedNodeId) → Below n xs → Below n ys → Below n (xs ++ ys)
  Below-append n [] ys hx hy = hy
  Below-append n (x ∷ xs) ys (one, rest) hy = (one, Below-append n xs ys rest hy)

  Asked-Below :
      IsTiered
      → (n : ℕ) (ids kids : List ExpandedNodeId) (w w' : W) → Below (suc n) ids
      → Asked ua service_browse ids kids w w'
      → Below n kids
  Asked-Below tiered n [] kids w w' below (e, same) = subst (Below n) (sym e) tt
  Asked-Below tiered n (id ∷ ids) kids w w' (one, rest) (later, fine, e, asked) =
      subst (Below n) (sym e) (
        Below-append n (found ua service_browse (answer ua service_browse id w).0) later
          (Below-le (rank id) n (found ua service_browse (answer ua service_browse id w).0)
            (omega (arith, one)) (tiered id w))
          (Asked-Below tiered n ids later (answer ua service_browse id w).1 w' rest asked))

  IsStopped-after :
      (seen ids kids more : List ExpandedNodeId) (w w1 w' : W)
      → Asked ua service_browse seen kids w w1
      → IsStopped ua service_browse ids more w1 w'
      → IsStopped ua service_browse (seen ++ ids) (kids ++ more) w w'
  IsStopped-after seen ids kids more w w1 w' asked (before, id, after, w2, e, asked2, bad, same) = (
    seen ++ before,
    id,
    after,
    w2,
    ap (λ k. seen ++ k) e ∙ sym (append_assoc seen before (id ∷ after)),
    Asked-append ua service_browse seen before kids more w w1 w2 asked asked2,
    bad,
    same,
  )

  -- What the rounds do from where `seen` has been asked about and `front` has not.
  abbrev RoundsFrom : ℕ → Type 0
  RoundsFrom fuel =
      (initial seen front kids : List ExpandedNodeId) (w w1 : W)
      → Below fuel front
      → front ≢ []
      → seen ++ front ≡ initial ++ kids
      → Asked ua service_browse seen kids w w1
      → IsGrabbed initial w (grab_rounds ua service_browse fuel (length seen) (seen ++ front) w1)

  -- What a round makes of its result.
  abbrev next : ℕ → List ExpandedNodeId → (Status × List ExpandedNodeId) × W → Grabbed W
  next fuel out ((status, nodes), w') = elim status [
    | Status.fail ↦ returned Status.fail out w'
    | Status.good ↦ elim nodes [
      | [] ↦ returned Status.good out w'
      | n ∷ ns ↦ grab_rounds ua service_browse fuel (length out) (out ++ n ∷ ns) w'
    ]
  ]

  one_round :
      (fuel : ℕ) (seen front : List ExpandedNodeId) (w : W) (r : (Status × List ExpandedNodeId) × W)
      → grab_round ua service_browse front [] w ≡ r
      → grab_rounds ua service_browse (suc fuel) (length seen) (seen ++ front) w
        ≡ next fuel (seen ++ front) r
  unfolding grab_rounds
  one_round fuel seen front w r e =
      ap (λ f. next fuel (seen ++ front) (grab_round ua service_browse f [] w))
        (drop-length-append seen front)
      ∙ ap (next fuel (seen ++ front)) e

  after_round :
      IsTiered
      → (fuel : ℕ) → RoundsFrom fuel
      → (initial seen front kids : List ExpandedNodeId) (w w1 : W) → Below (suc fuel) front
      → seen ++ front ≡ initial ++ kids
      → Asked ua service_browse seen kids w w1
      → (r : (Status × List ExpandedNodeId) × W) → grab_round ua service_browse front [] w1 ≡ r
      → IsRound ua service_browse front [] w1 r
      → IsGrabbed initial w
          (grab_rounds ua service_browse (suc fuel) (length seen) (seen ++ front) w1)
  after_round tiered fuel ih initial seen front kids w w1 below out asked ((Status.fail, nodes), w')
        e (more, stopped) =
      subst (IsGrabbed initial w) (sym (one_round fuel seen front w1 _ e))
        (kids, more, out, IsStopped-after seen front kids more w w1 w' asked stopped)
  after_round tiered fuel ih initial seen front kids w w1 below out asked ((Status.good, []), w') e
        (more, same, asked2) =
      subst (IsGrabbed initial w) (sym (one_round fuel seen front w1 _ e)) (
        kids,
        out,
        subst (λ k. Asked ua service_browse (seen ++ front) k w w')
            (ap (λ k. kids ++ k) (sym same) ∙ append-nil kids)
            (Asked-append ua service_browse seen front kids more w w1 w' asked asked2),
      )
  after_round tiered fuel ih initial seen front kids w w1 below out asked
        ((Status.good, n ∷ ns), w') e (more, same, asked2) =
      subst (IsGrabbed initial w) (sym (one_round fuel seen front w1 _ e)) (
        ih initial (seen ++ front) (n ∷ ns) (kids ++ n ∷ ns) w w'
          (subst (Below fuel) (sym same) (Asked-Below tiered fuel front more w1 w' below asked2))
          (λ q. cc) (ap (λ k. k ++ n ∷ ns) out ∙ append_assoc initial kids (n ∷ ns))
          (Asked-append ua service_browse seen front kids (n ∷ ns) w w1 w' asked
            (subst (λ k. Asked ua service_browse front k w1 w') (sym same) asked2)))

  grab_rounds-IsGrabbed : IsTiered → (fuel : ℕ) → RoundsFrom fuel
  grab_rounds-IsGrabbed tiered zero initial seen [] kids w w1 below left out asked =
      absurd (left refl)
  grab_rounds-IsGrabbed tiered zero initial seen (f ∷ fs) kids w w1 (one, rest) left out asked =
      elim one [ ]
  grab_rounds-IsGrabbed tiered (suc fuel) initial seen front kids w w1 below left out asked =
      after_round tiered fuel (grab_rounds-IsGrabbed tiered fuel) initial seen front kids w w1 below
        out asked _ refl (grab_round-IsRound ua service_browse front [] w1)

  -- On a server whose nodes have ranks that fall along the references it answers with,
  -- GrabChildNodeIdsFromStartNodeId ends, with as many rounds as exceed the ranks of the nodes that it
  -- begins with: those in `out` and the start node. When it returns Good, every entry of `out` has been
  -- asked about exactly once and in order, no answer was bad, and `out` is those first nodes and then
  -- the nodes that the answers refer to, in order. When it returns Fail, `out` still begins so, and one
  -- of its nodes was answered with a bad status.
  pub grab_child_node_ids_from_start_node_id-IsGrabbed :
      IsTiered
      → (fuel : ℕ) (start : ExpandedNodeId) (out : List ExpandedNodeId) (w : W)
      → Below fuel (out ++ start ∷ [])
      → IsGrabbed
          (out ++ start ∷ [])
          w
          (grab_child_node_ids_from_start_node_id ua service_browse fuel start out w)
  unfolding grab_child_node_ids_from_start_node_id
  grab_child_node_ids_from_start_node_id-IsGrabbed tiered fuel start out w below =
      grab_rounds-IsGrabbed tiered fuel (out ++ start ∷ []) [] (out ++ start ∷ []) [] w w below
        (some_left out start) (sym (append-nil (out ++ start ∷ []))) (refl, refl)
