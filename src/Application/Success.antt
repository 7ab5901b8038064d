-- ===== src/Application/Success.antt =====
-- What it means that the program ends with the exit code 0.
use open62541_nodeset_export.Prelude.{
  All, Bool, Bool-cases, List, Option, Text, [], ap, arith, false, if◌then◌else◌, inl, inr,
  is_empty, none, not, refl, some, true, ℕ, ◌==◌, ◌∙◌, ◌≡◌, ◌≢◌, ◌⊎◌,
}
use open62541_nodeset_export.Application.{
  Collected, ExitCode, Promise, Surroundings, application_options, browse_error, browse_lists,
  collected_lists, connect_and_export, endless, exit_of, export_collected, failure, info_print,
  interrupted, no_value, options_cli_pars, promise_of, run, run_with_params, set_value,
  start_export_in_another_thread, success,
}
use open62541_nodeset_export.Application.Browsed.{
  IsBrowsed, IsBrowsed-HasStart, IsInterrupted, Says, browse_lists-Says,
}
use open62541_nodeset_export.Application.Crossing.{
  AreSeparate, HasStart, check_start_node_crossing-cases,
}
use open62541_nodeset_export.BrowseOperations.{BrowseDescription}
use open62541_nodeset_export.Client.{BrowseResponse}
use open62541_nodeset_export.ExportNodeset.{export_nodeset}
use open62541_nodeset_export.Interfaces.{IEncoder, IOpen62541}
use open62541_nodeset_export.Loop.Exporter.{NodeLists}
use open62541_nodeset_export.Loop.Options.{Options}
use open62541_nodeset_export.Status.{Outcome-cases, Status, StatusResults, ok}
use open62541_nodeset_export.Ua.{ExpandedNodeId, NodeClass, Ua, UaLaws, ns0_expanded}
use open62541_nodeset_export.XmlEncoder.Nodes.{some-injective}

module _ {W E : Type 0} {ua : Ua} (laws : UaLaws ua)
    (service_browse : BrowseDescription → W → BrowseResponse × W) (session_over : W → Bool)
    (lib : IOpen62541 W) (enc : IEncoder E) where
  -- The lists were browsed, no list holds the start node of another one, and ExportNodeset has returned Good
  -- for them.
  abbrev pub IsExportedFrom :
      ℕ → List Text → ExpandedNodeId → ℕ → List NodeClass → W → E → E → Type 0
  IsExportedFrom fuel start_ids parent number ignored w e e' =
      (lists : NodeLists) × (w1 : W) × IsBrowsed ua service_browse session_over lib enc fuel
        start_ids [] w lists w1
      × AreSeparate lists lists
      × ((st : StatusResults) × ((export_nodeset ua lib enc (application_options parent) lists
              number ignored w1 e).status
            ≡ some st)
          × (st.status ≡ Status.good)
          × ((export_nodeset ua lib enc (application_options parent) lists number ignored w1
                e).encoder
              ≡ e'))

  abbrev pub parent_of : Surroundings W → ExpandedNodeId
  parent_of s =
      if is_empty s.parent_start_node_replacer
      then ns0_expanded 85
      else ua.parse_expanded s.parent_start_node_replacer

  abbrev pub IsSuccess : ℕ → Surroundings W → List NodeClass → E → E → Type 0
  IsSuccess fuel s ignored e e' =
      ((options_cli_pars s.command_line ≡ ok info_print) × (e ≡ e'))
      ⊎ ((s.is_posted ≡ false) × (e ≡ e'))
      ⊎ (IsInterrupted ua service_browse session_over lib enc fuel s.start_node_ids s.connected
          × (e ≡ e'))
      ⊎ IsExportedFrom fuel s.start_node_ids (parent_of s) s.number_of_max_nodes_to_request_data
          ignored s.connected e e'

  failed_value : (x e' : E) (n : ℕ) → failure ≢ n → set_value failure x ≡ set_value n e' → ⊥
  failed_value x e' n ne h = let bad : failure ≡ n = cc in ne bad

  status-success :
      (status : Status) (x e' : E) (n : ℕ)
      → failure ≢ n
      → elim status as (λ q. Promise E) [
        | Status.good ↦ set_value success x
        | Status.fail ↦ set_value failure x
      ]
        ≡ set_value n e'
      → (status ≡ Status.good) × (x ≡ e')
  status-success Status.good x e' n ne h = (refl, cc)
  status-success Status.fail x e' n ne h = absurd (failed_value x e' n ne h)

  result-success :
      (o : Option StatusResults) (x e' : E) (n : ℕ)
      → failure ≢ n
      → elim o as (λ q. Promise E) [
        | none ↦ no_value
        | some s ↦ elim s.status [
          | Status.good ↦ set_value success x
          | Status.fail ↦ set_value failure x
        ]
      ]
        ≡ set_value n e'
      → (st : StatusResults) × (o ≡ some st) × (st.status ≡ Status.good) × (x ≡ e')
  result-success none x e' n ne h = cc
  result-success (some st) x e' n ne h =
      let (good_status, same) = status-success st.status x e' n ne h in
      (st, refl, good_status, same)

  export_collected-success :
      (opts : Options) (number : ℕ) (ignored : List NodeClass) (lists : NodeLists) (w : W)
      (e e' : E) (n : ℕ)
      → failure ≢ n
      → All HasStart lists
      → export_collected ua service_browse session_over lib enc opts number ignored lists w e
        ≡ set_value n e'
      → AreSeparate lists lists
        × ((st : StatusResults) × ((export_nodeset ua lib enc opts lists number ignored w e).status
              ≡ some st)
            × (st.status ≡ Status.good)
            × ((export_nodeset ua lib enc opts lists number ignored w e).encoder ≡ e'))
  unfolding export_collected promise_of
  export_collected-success opts number ignored lists w e e' n ne started h =
      elim (check_start_node_crossing-cases laws lists started) [
        | inl (passed, separate) ↦
            (separate, result-success _ _ e' n ne (rw (passed, export_collected) at h))
        | inr (stopped, crossed) ↦
            absurd (failed_value e e' n ne (rw (stopped, export_collected) at h))
      ]

  collected_lists-success :
      (fuel : ℕ) (start_ids : List Text) (parent : ExpandedNodeId) (number : ℕ)
      (ignored : List NodeClass) (w : W) (e e' : E) (c : Collected W) (n : ℕ)
      → failure ≢ n
      → Says ua service_browse session_over lib enc fuel start_ids [] w c
      → elim c as (λ q. Promise E) [
        | endless ↦ no_value
        | interrupted ↦ set_value success e
        | browse_error ↦ set_value failure e
        | collected_lists lists w' ↦
            export_collected ua service_browse session_over lib enc
              (application_options parent)
              number
              ignored
              lists
              w'
              e
      ]
        ≡ set_value n e'
      → (IsInterrupted ua service_browse session_over lib enc fuel start_ids w × (e ≡ e'))
        ⊎ IsExportedFrom fuel start_ids parent number ignored w e e'
  collected_lists-success fuel start_ids parent number ignored w e e' endless n ne says h = cc
  collected_lists-success fuel start_ids parent number ignored w e e' browse_error n ne says h =
      absurd (failed_value e e' n ne h)
  collected_lists-success fuel start_ids parent number ignored w e e' interrupted n ne says h =
      inl (says, cc)
  collected_lists-success fuel start_ids parent number ignored w e e' (collected_lists lists w1) n
        ne says h =
      let (separate, done) =
        export_collected-success (application_options parent) number ignored lists w1 e e' n ne
          (IsBrowsed-HasStart ua service_browse session_over lib enc fuel start_ids [] w lists w1
            says tt)
          h in
      inr (lists, w1, says, separate, done)

  if-success :
      (b : Bool) (e e' : E) (x : ExitCode × Option E)
      → (if b then (some failure, some e) else x) ≡ (some success, some e')
      → x ≡ (some success, some e')
  if-success true e e' x h = cc
  if-success false e e' x h = h

  exit_of-success :
      (p : Promise E) (e' : E)
      → exit_of ua service_browse session_over lib enc p ≡ (some success, some e')
      → (n : ℕ) × (failure ≢ n) × (p ≡ set_value n e')
  exit_of-success no_value e' h = cc
  exit_of-success (set_value n e) e' h = elim (Bool-cases (n == failure)) [
    | inl b ↦ let bad = rw b at h in cc
    | inr b ↦
        let same : e ≡ e' = some-injective e e' (ap (λ r. r.1) h) in
        (n, (λ q. ground arith), ap (set_value n) same)
  ]

  -- What a run that goes on after the command line may have done.
  abbrev IsDone : ℕ → Surroundings W → ExpandedNodeId → List NodeClass → E → E → Type 0
  IsDone fuel s parent ignored e e' =
      ((s.is_posted ≡ false) × (e ≡ e'))
      ⊎ (IsInterrupted ua service_browse session_over lib enc fuel s.start_node_ids s.connected
          × (e ≡ e'))
      ⊎ IsExportedFrom fuel s.start_node_ids parent s.number_of_max_nodes_to_request_data ignored
          s.connected e e'

  connect_and_export-success :
      (fuel : ℕ) (s : Surroundings W) (parent : ExpandedNodeId) (ignored : List NodeClass)
      (e e' : E)
      → connect_and_export ua service_browse session_over lib enc fuel s parent ignored e
        ≡ (some success, some e')
      → IsDone fuel s parent ignored e e'
  unfolding connect_and_export start_export_in_another_thread
  connect_and_export-success fuel s parent ignored e e' h =
      let h1 = if-success (not s.has_client) e e' _ h in
      let h2 = if-success (not s.is_connected) e e' _ h1 in
      elim (Bool-cases s.is_posted) [
        | inr b ↦
            let h3 : (some success, some e) ≡ (some success, some e') = rw b at h2 in
            inl (b, some-injective e e' (ap (λ r. r.1) h3))
        | inl b ↦
            let h3 = rw b at h2 in
            let (n, ne, value) = exit_of-success _ e' h3 in
            inr (
              collected_lists-success fuel s.start_node_ids parent
                s.number_of_max_nodes_to_request_data ignored s.connected e e'
                (browse_lists ua service_browse session_over lib enc fuel s.start_node_ids []
                  s.connected)
                n ne
                (browse_lists-Says ua service_browse session_over lib enc fuel s.start_node_ids []
                  s.connected)
                value)
      ]

  run_with_params-success :
      (fuel : ℕ) (s : Surroundings W) (ignored : List NodeClass) (e e' : E)
      → run_with_params ua service_browse session_over lib enc fuel s ignored e
        ≡ (some success, some e')
      → IsDone fuel s (parent_of s) ignored e e'
  unfolding run_with_params
  run_with_params-success fuel s ignored e e' h =
      elim (Bool-cases (is_empty s.parent_start_node_replacer)) [
        | inl b ↦ rw b (
            connect_and_export-success fuel s (ns0_expanded 85) ignored e e'
              (rw (b, run_with_params) at h))
        | inr b ↦ rw b (
            connect_and_export-success fuel s (ua.parse_expanded s.parent_start_node_replacer)
              ignored e e'
              (if-success
                (ua.node_id_is_null (ua.parse_expanded s.parent_start_node_replacer).node_id) e e' _
                (rw (b, run_with_params) at h)))
      ]

  information : (n : ℕ) → (n == info_print) ≡ true → n ≡ info_print
  information n b = ground arith

  -- The exit code 0 means one of four things. Only the help, the version or a remark on the arguments was
  -- printed; or a stop signal came before the export began; or after browsing from a start node the session
  -- was closed or closing; in these cases the encoder has not been used. Otherwise each start node has been
  -- browsed from with success, no list holds the start node of a list with another name, and ExportNodeset
  -- has returned Good for these lists.
  pub run-IsSuccess :
      (fuel : ℕ) (s : Surroundings W) (ignored : List NodeClass) (e e' : E)
      → run ua service_browse session_over lib enc fuel s ignored e ≡ (some success, some e')
      → IsSuccess fuel s ignored e e'
  unfolding run
  run-IsSuccess fuel s ignored e e' h = elim (Outcome-cases (options_cli_pars s.command_line)) [
    | inl (n, got) ↦ elim (Bool-cases (n == info_print)) [
      | inl b ↦
          let h1 : (some success, some e) ≡ (some success, some e') = rw (got, b, run) at h in
          inl (got ∙ ap ok (information n b), some-injective e e' (ap (λ r. r.1) h1))
      | inr b ↦ inr (run_with_params-success fuel s ignored e e' (rw (got, b, run) at h))
    ]
    | inr (inl (r, got)) ↦ let bad = rw (got, run) at h in cc
    | inr (inr (x, got)) ↦ let bad = rw (got, run) at h in cc
  ]
