-- ===== src/BrowseOperations/Rounds.antt =====
-- The rounds of GrabChildNodeIdsFromStartNodeId: what one of them asks and finds.
use open62541_nodeset_export.Prelude.{
  Bool-cases, List, [], ap, append-nil, append_assoc, false, if◌then◌else◌, inl, inr, map, refl,
  some, subst, sym, true, ◌++◌, ◌==◌, ◌∙◌, ◌∷◌, ◌≡◌,
}
use open62541_nodeset_export.BrowseOperations.{
  BrowseDescription, browse_description, browse_opt, call_for_references, call_for_results,
  expanded, for_each_child_node_call, grab_round, node_iterator_callback, results_of,
}
use open62541_nodeset_export.Client.{BrowseResponse, BrowseResult}
use open62541_nodeset_export.Status.{Status}
use open62541_nodeset_export.Ua.{ExpandedNodeId, ReferenceDescription, Ua}

module _ {W : Type 0} (ua : Ua) (service_browse : BrowseDescription → W → BrowseResponse × W) where
  -- What the server answers about a node, and the nodes that the answer refers to.
  abbrev pub answer : ExpandedNodeId → W → BrowseResponse × W
  answer id w = service_browse (browse_description id.node_id (some browse_opt)) w

  abbrev pub found_in : List BrowseResult → List ExpandedNodeId
  found_in [] = []
  found_in (r ∷ rs) = map (λ ref. expanded ref.node_id.node_id) r.references ++ found_in rs

  abbrev pub found : BrowseResponse → List ExpandedNodeId
  found response = if response.service_result == 0 then found_in (results_of response) else []

  -- Every node of the first list is asked about once, in order, with no bad answer; the answers refer to
  -- the nodes of the second list, in order.
  abbrev pub Asked : List ExpandedNodeId → List ExpandedNodeId → W → W → Type 0
  Asked [] kids w w' = (kids ≡ []) × (w ≡ w')
  Asked (id ∷ ids) kids w w' =
      (later : List ExpandedNodeId) × (ua.is_bad (answer id w).0.service_result ≡ false)
      × (kids ≡ found (answer id w).0 ++ later)
      × Asked ids later (answer id w).1 w'

  -- Some node of the list is answered with a bad status, and those before it are not.
  abbrev pub IsStopped : List ExpandedNodeId → List ExpandedNodeId → W → W → Type 0
  IsStopped ids kids w w' =
      (before : List ExpandedNodeId) × (id : ExpandedNodeId) × (after : List ExpandedNodeId)
      × (w1 : W) × (ids ≡ before ++ id ∷ after)
      × Asked before kids w w1
      × (ua.is_bad (answer id w1).0.service_result ≡ true)
      × ((answer id w1).1 ≡ w')

  pub Asked-append :
      (first : List ExpandedNodeId) (bs kids more : List ExpandedNodeId) (w w1 w2 : W)
      → Asked first kids w w1
      → Asked bs more w1 w2
      → Asked (first ++ bs) (kids ++ more) w w2
  Asked-append [] bs kids more w w1 w2 (none_found, same) h =
      subst (λ k. Asked bs (k ++ more) w w2) (sym none_found)
        (subst (λ v. Asked bs more v w2) (sym same) h)
  Asked-append (id ∷ first) bs kids more w w1 w2 (later, fine, all, rest) h = (
    later ++ more,
    fine,
    ap (λ k. k ++ more) all ∙ append_assoc (found (answer id w).0) later more,
    Asked-append first bs later more (answer id w).1 w1 w2 rest h,
  )

  call_for_references-found :
      (refs : List ReferenceDescription) (nodes : List ExpandedNodeId)
      → call_for_references refs nodes ≡ nodes ++ map (λ ref. expanded ref.node_id.node_id) refs
  unfolding call_for_references node_iterator_callback
  call_for_references-found [] nodes = sym (append-nil nodes)
  call_for_references-found (ref ∷ refs) nodes =
      call_for_references-found refs (nodes ++ expanded ref.node_id.node_id ∷ [])
      ∙ append_assoc nodes (expanded ref.node_id.node_id ∷ [])
          (map (λ r. expanded r.node_id.node_id) refs)

  call_for_results-found :
      (rs : List BrowseResult) (nodes : List ExpandedNodeId)
      → call_for_results rs nodes ≡ nodes ++ found_in rs
  unfolding call_for_results
  call_for_results-found [] nodes = sym (append-nil nodes)
  call_for_results-found (r ∷ rs) nodes =
      call_for_results-found rs (call_for_references r.references nodes)
      ∙ ap (λ k. k ++ found_in rs) (call_for_references-found r.references nodes)
      ∙ append_assoc nodes (map (λ ref. expanded ref.node_id.node_id) r.references) (found_in rs)

  for_each_child_node_call-found :
      (id : ExpandedNodeId) (nodes : List ExpandedNodeId) (w : W)
      → for_each_child_node_call ua service_browse id.node_id (some browse_opt) nodes w
        ≡ (((answer id w).0.service_result, nodes ++ found (answer id w).0), (answer id w).1)
  unfolding for_each_child_node_call
  for_each_child_node_call-found id nodes w =
      elim (Bool-cases ((answer id w).0.service_result == 0)) [
        | inl e ↦ rw (e, call_for_results-found (results_of (answer id w).0) nodes) refl
        | inr e ↦ rw (e, append-nil nodes) refl
      ]

  abbrev pub IsRound :
      List ExpandedNodeId → List ExpandedNodeId → W → (Status × List ExpandedNodeId) × W → Type 0
  IsRound ids nodes w ((Status.good, nodes'), w') =
      (kids : List ExpandedNodeId) × (nodes' ≡ nodes ++ kids) × Asked ids kids w w'
  IsRound ids nodes w ((Status.fail, nodes'), w') =
      (kids : List ExpandedNodeId) × IsStopped ids kids w w'

  one_more :
      (id : ExpandedNodeId) (ids nodes : List ExpandedNodeId) (w : W)
      (r : (Status × List ExpandedNodeId) × W)
      → ua.is_bad (answer id w).0.service_result ≡ false
      → IsRound ids (nodes ++ found (answer id w).0) (answer id w).1 r
      → IsRound (id ∷ ids) nodes w r
  one_more id ids nodes w ((Status.good, nodes'), w') fine (kids, same, asked) = (
    found (answer id w).0 ++ kids,
    same ∙ append_assoc nodes (found (answer id w).0) kids,
    (kids, fine, refl, asked),
  )
  one_more id ids nodes w ((Status.fail, nodes'), w') fine
        (kids, (before, at, after, w1, e, asked, bad, same)) =
      (
        found (answer id w).0 ++ kids,
        (id ∷ before, at, after, w1, ap (λ k. id ∷ k) e, (kids, fine, refl, asked), bad, same),
      )

  pub grab_round-IsRound :
      (ids nodes : List ExpandedNodeId) (w : W)
      → IsRound ids nodes w (grab_round ua service_browse ids nodes w)
  unfolding grab_round
  grab_round-IsRound [] nodes w = ([], sym (append-nil nodes), (refl, refl))
  grab_round-IsRound (id ∷ ids) nodes w =
      elim (Bool-cases (ua.is_bad (answer id w).0.service_result)) [
        | inl e ↦
            rw (for_each_child_node_call-found id nodes w, e)
              ([], ([], id, ids, w, refl, (refl, refl), e, refl))
        | inr e ↦
            rw (for_each_child_node_call-found id nodes w, e)
              (one_more id ids nodes w _ e
                (grab_round-IsRound ids (nodes ++ found (answer id w).0) (answer id w).1))
      ]
