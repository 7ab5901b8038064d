-- ===== src/Application/Browsed.antt =====
-- How the lists of the export come about.
use open62541_nodeset_export.Prelude.{
  All, Bool, Bool-cases, List, Ordering, Text, [], append-nil, append_assoc, drop, false,
  if◌then◌else◌, inl, inr, length, refl, subst, suc, sym, true, zero, ℕ, ◌++◌, ◌∙◌, ◌∷◌, ◌≡◌, ◌⊎◌,
}
use open62541_nodeset_export.Application.{
  Collected, browse_error, browse_lists, collected_lists, emplace_list, endless, interrupted,
}
use open62541_nodeset_export.Application.Crossing.{HasStart}
use open62541_nodeset_export.BrowseOperations.{
  BrowseDescription, Grabbed, grab_child_node_ids_from_start_node_id, grab_round, grab_rounds,
  returned, unfinished,
}
use open62541_nodeset_export.Client.{BrowseResponse}
use open62541_nodeset_export.Interfaces.{IEncoder, IOpen62541}
use open62541_nodeset_export.Loop.Exporter.{NodeLists}
use open62541_nodeset_export.Status.{Status}
use open62541_nodeset_export.Texts.{compare_text}
use open62541_nodeset_export.Ua.{ExpandedNodeId, Ua}

module _ {W E : Type 0} (ua : Ua) (service_browse : BrowseDescription → W → BrowseResponse × W)
    (session_over : W → Bool) (lib : IOpen62541 W) (enc : IEncoder E) where
  abbrev pub grab : ℕ → Text → W → Grabbed W
  grab fuel s w =
      grab_child_node_ids_from_start_node_id ua service_browse fuel (ua.parse_expanded s) [] w

  -- Each start node has been browsed from with success and with an opened session, and the lists are kept under
  -- the texts of their start nodes.
  abbrev pub IsBrowsed : ℕ → List Text → NodeLists → W → NodeLists → W → Type 0
  IsBrowsed fuel [] lists w lists' w' = (lists ≡ lists') × (w ≡ w')
  IsBrowsed fuel (s ∷ ss) lists w lists' w' =
      (out : List ExpandedNodeId) × (w1 : W) × (grab fuel s w ≡ returned Status.good out w1)
      × (session_over w1 ≡ false)
      × IsBrowsed fuel ss (emplace_list s out lists) w1 lists' w'

  -- After one of the start nodes the session was closed or closing.
  abbrev pub IsInterrupted : ℕ → List Text → W → Type 0
  IsInterrupted fuel [] w = ⊥
  IsInterrupted fuel (s ∷ ss) w =
      (out : List ExpandedNodeId) × (w1 : W) × (grab fuel s w ≡ returned Status.good out w1)
      × ((session_over w1 ≡ true) ⊎ IsInterrupted fuel ss w1)

  abbrev pub Says : ℕ → List Text → NodeLists → W → Collected W → Type 0
  Says fuel ss lists w (collected_lists lists' w') = IsBrowsed fuel ss lists w lists' w'
  Says fuel ss lists w interrupted = IsInterrupted fuel ss w
  Says fuel ss lists w browse_error = Unit
  Says fuel ss lists w endless = Unit

  Says-first :
      (fuel : ℕ) (s : Text) (ss : List Text) (lists : NodeLists) (w w1 : W)
      (out : List ExpandedNodeId) (c : Collected W)
      → grab fuel s w ≡ returned Status.good out w1
      → session_over w1 ≡ false
      → Says fuel ss (emplace_list s out lists) w1 c
      → Says fuel (s ∷ ss) lists w c
  Says-first fuel s ss lists w w1 out (collected_lists lists' w') e opened h =
      (out, w1, e, opened, h)
  Says-first fuel s ss lists w w1 out interrupted e opened h = (out, w1, e, inr h)
  Says-first fuel s ss lists w w1 out browse_error e opened h = tt
  Says-first fuel s ss lists w w1 out endless e opened h = tt

  after_grab :
      (fuel : ℕ) (s : Text) (ss : List Text) (lists : NodeLists) (w : W)
      → ((out : List ExpandedNodeId) (w1 : W)
          → Says fuel ss (emplace_list s out lists) w1 (
              browse_lists ua service_browse session_over lib enc fuel ss
                (emplace_list s out lists)
                w1))
      → (g : Grabbed W) → grab fuel s w ≡ g
      → Says fuel (s ∷ ss) lists w (elim g [
        | unfinished ↦ endless
        | returned status out w' ↦
            let rest =
              browse_lists ua service_browse session_over lib enc fuel ss
                (emplace_list s out lists)
                w' in
            elim status [
              | Status.fail ↦ browse_error
              | Status.good ↦ if session_over w' then interrupted else rest
            ]
      ])
  after_grab fuel s ss lists w later unfinished e = tt
  after_grab fuel s ss lists w later (returned Status.fail out w1) e = tt
  after_grab fuel s ss lists w later (returned Status.good out w1) e =
      elim (Bool-cases (session_over w1)) [
        | inl over ↦ rw over (out, w1, e, inl over)
        | inr opened ↦
            let h = Says-first fuel s ss lists w w1 out _ e opened (later out w1) in rw opened h
      ]

  pub browse_lists-Says :
      (fuel : ℕ) (ss : List Text) (lists : NodeLists) (w : W)
      → Says fuel ss lists w (browse_lists ua service_browse session_over lib enc fuel ss lists w)
  unfolding browse_lists
  browse_lists-Says fuel [] lists w = (refl, refl)
  browse_lists-Says fuel (s ∷ ss) lists w =
      after_grab fuel s ss lists w
        (λ out w1. browse_lists-Says fuel ss (emplace_list s out lists) w1) (grab fuel s w) refl

  abbrev StartsWith : List ExpandedNodeId → Grabbed W → Type 0
  StartsWith out (returned status out' w) = (kids : List ExpandedNodeId) × (out' ≡ out ++ kids)
  StartsWith out unfinished = Unit

  StartsWith-append :
      (out more : List ExpandedNodeId) (g : Grabbed W)
      → StartsWith (out ++ more) g
      → StartsWith out g
  StartsWith-append out more (returned status out' w) (kids, e) =
      (more ++ kids, e ∙ append_assoc out more kids)
  StartsWith-append out more unfinished h = tt

  after_round :
      (fuel : ℕ) (out : List ExpandedNodeId) (status : Status) (nodes : List ExpandedNodeId) (w : W)
      → ((out2 : List ExpandedNodeId)
          → StartsWith out2 (grab_rounds ua service_browse fuel (length out) out2 w))
      → StartsWith out (elim status [
        | Status.fail ↦ returned Status.fail out w
        | Status.good ↦ elim nodes [
          | [] ↦ returned Status.good out w
          | n ∷ ns ↦ grab_rounds ua service_browse fuel (length out) (out ++ n ∷ ns) w
        ]
      ])
  after_round fuel out Status.fail nodes w h = ([], sym (append-nil out))
  after_round fuel out Status.good [] w h = ([], sym (append-nil out))
  after_round fuel out Status.good (n ∷ ns) w h =
      StartsWith-append out (n ∷ ns) _ (h (out ++ n ∷ ns))

  grab_rounds-StartsWith :
      (fuel counter : ℕ) (out : List ExpandedNodeId) (w : W)
      → StartsWith out (grab_rounds ua service_browse fuel counter out w)
  unfolding grab_rounds
  grab_rounds-StartsWith zero counter out w = tt
  grab_rounds-StartsWith (suc fuel) counter out w =
      let r = grab_round ua service_browse (drop counter out) [] w in
      after_round fuel out r.0.0 r.0.1 r.1 λ out2. grab_rounds-StartsWith fuel (length out) out2 r.1

  grab-HasStart :
      (fuel : ℕ) (s : Text) (w w1 : W) (out : List ExpandedNodeId)
      → grab fuel s w ≡ returned Status.good out w1
      → HasStart (s, out)
  unfolding grab_child_node_ids_from_start_node_id
  grab-HasStart fuel s w w1 out h =
      let (kids, e) : StartsWith (ua.parse_expanded s ∷ []) (returned Status.good out w1) =
        subst (StartsWith (ua.parse_expanded s ∷ [])) h
          (grab_rounds-StartsWith fuel 0 (ua.parse_expanded s ∷ []) w) in
      (ua.parse_expanded s, kids, e)

  emplace_list-HasStart :
      (s : Text) (out : List ExpandedNodeId) (lists : NodeLists)
      → HasStart (s, out)
      → All HasStart lists
      → All HasStart (emplace_list s out lists)
  unfolding emplace_list
  emplace_list-HasStart s out [] h all = (h, tt)
  emplace_list-HasStart s out ((j, old) ∷ lists) h (one, more) =
      ordered (compare_text s j) (emplace_list s out lists)
        (emplace_list-HasStart s out lists h more)
    where
      ordered :
          (o : Ordering) (rest : NodeLists)
          → All HasStart rest
          → All HasStart (elim o [
            | Ordering.eq ↦ (j, old) ∷ lists
            | Ordering.lt ↦ (s, out) ∷ (j, old) ∷ lists
            | Ordering.gt ↦ (j, old) ∷ rest
          ])
      ordered Ordering.eq rest r = (one, more)
      ordered Ordering.lt rest r = (h, (one, more))
      ordered Ordering.gt rest r = (one, r)

  pub IsBrowsed-HasStart :
      (fuel : ℕ) (ss : List Text) (lists : NodeLists) (w : W) (lists' : NodeLists) (w' : W)
      → IsBrowsed fuel ss lists w lists' w'
      → All HasStart lists
      → All HasStart lists'
  IsBrowsed-HasStart fuel [] lists w lists' w' (same, q) all = subst (All HasStart) same all
  IsBrowsed-HasStart fuel (s ∷ ss) lists w lists' w' (out, w1, e, still, h) all =
      IsBrowsed-HasStart fuel ss (emplace_list s out lists) w1 lists' w' h
        (emplace_list-HasStart s out lists (grab-HasStart fuel s w w1 out e) all)
