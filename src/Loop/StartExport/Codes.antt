-- ===== src/Loop/StartExport/Codes.antt =====
-- The statuses that StartExport returns, and what it does before its first call.
use open62541_nodeset_export.Prelude.{
  Bool, Bool-cases, List, [], ap, arith, false, inl, inr, leb, length, ltb, refl, suc, sym, true,
  zero, ℕ, ◌==◌, ◌||◌, ◌∙◌, ◌∷◌, ◌≡◌, ◌⊎◌,
}
use open62541_nodeset_export.Effect.{Effect, and_then, lift, or_sub_status, replace_status}
use open62541_nodeset_export.Interfaces.{IEncoder, IOpen62541, NodeClassesRequestResponse}
use open62541_nodeset_export.Loop.Aliases.{Aliases, get_aliases}
use open62541_nodeset_export.Loop.Batches.{in_nodes_loop, next_range}
use open62541_nodeset_export.Loop.Distinct.{check_start_nodes_on_ns0, distinct}
use open62541_nodeset_export.Loop.Distinct.Ns0.{
  SomeStartRefused, check_start_nodes_on_ns0-code, check_start_nodes_on_ns0-exact,
}
use open62541_nodeset_export.Loop.Distinct.Unique.{distinct-no_failure}
use open62541_nodeset_export.Loop.ExportNodes.{export_nodes}
use open62541_nodeset_export.Loop.Exporter.{Exporter, NodeLists}
use open62541_nodeset_export.Loop.Options.{Options}
use open62541_nodeset_export.Loop.Requests.{NodeRange, get_namespaces, get_node_classes}
use open62541_nodeset_export.Loop.StartExport.{
  begin_export, check_class_size, export_aliases, export_at_once, export_in_batches, export_list,
  export_lists, export_models, get_node_data_and_export, get_nodes_data, get_part_of_node_classes,
  ignore_nodes_checked, on_encoder, on_ignored, on_server, start_export,
}
use open62541_nodeset_export.Loop.StartExport.Ignored.{ignore_nodes_checked-outcomes}
use open62541_nodeset_export.Model.{NodeIntermediateModel}
use open62541_nodeset_export.Status.{
  Outcome, Status, StatusResults, SubStatus, begin_fail, empty_node_id_list, end_fail,
  export_aliases_fail, export_namespaces_fail, export_nodes_fail, failed_check_ns0_start_nodes,
  fails, get_aliases_fail, get_namespaces_fail, get_node_classes_fail, get_nodes_data_fail, no_sub,
  of_status, of_sub_status, ok, throws,
}
use open62541_nodeset_export.Ua.{ExpandedNodeId, NodeClass, Ua, UaLaws}
use open62541_nodeset_export.XmlEncoder.{failed}

-- The codes that StartExport gives to its own failures.
abbrev pub is_export_code : SubStatus → Bool
is_export_code no_sub = false
is_export_code empty_node_id_list = false
is_export_code _ = true

-- A failure with one of these codes, or with none, and with reserve code 0.
abbrev pub IsOwnResult : StatusResults → Type 0
IsOwnResult r =
    (r ≡ of_status Status.fail)
    ⊎ ((sub : SubStatus) × (is_export_code sub ≡ true) × (r ≡ of_sub_status Status.fail sub))

abbrev pub IsOwnFailure : {S A : Type 0} → Outcome A × S → Type 0
IsOwnFailure (ok a, s) = Unit
IsOwnFailure (fails r, s) = IsOwnResult r
IsOwnFailure (throws t, s) = Unit

abbrev pub FailsOwn : {S A : Type 0} → Effect S A → Type 0
FailsOwn {S} m = (s : S) → IsOwnFailure (m s)

module _ {S A : Type 0} where
  and_then-IsOwnFailure :
      {B : Type 0} (m : Outcome A × S) (f : A → S → Outcome B × S)
      → IsOwnFailure m
      → ((a : A) → FailsOwn (f a))
      → IsOwnFailure (and_then m f)
  and_then-IsOwnFailure (ok a, s) f h k = k a s
  and_then-IsOwnFailure (fails r, s) f h k = h
  and_then-IsOwnFailure (throws t, s) f h k = tt

  replace_status-IsOwnFailure :
      (sub : SubStatus) (m : Outcome A × S)
      → is_export_code sub ≡ true
      → IsOwnFailure (replace_status sub m)
  replace_status-IsOwnFailure sub (ok a, s) h = tt
  replace_status-IsOwnFailure sub (fails r, s) h = inr (sub, h, refl)
  replace_status-IsOwnFailure sub (throws t, s) h = tt

  lift-IsOwnFailure :
      (o : Outcome A) (s : S)
      → ((r : StatusResults) → o ≡ fails r → IsOwnResult r)
      → IsOwnFailure (o, s)
  lift-IsOwnFailure (ok a) s h = tt
  lift-IsOwnFailure (fails r) s h = h r refl
  lift-IsOwnFailure (throws t) s h = tt

  in_nodes_loop-FailsOwn :
      (func : NodeRange → A → Effect S A)
      → ((range : NodeRange) (acc : A) → FailsOwn (func range acc))
      → (fuel size number index : ℕ) (acc : A)
      → FailsOwn (in_nodes_loop fuel size number func index acc)
  unfolding in_nodes_loop
  in_nodes_loop-FailsOwn func h zero size number index acc s = tt
  in_nodes_loop-FailsOwn func h (suc fuel) size number index acc s =
      elim (Bool-cases (ltb index size)) [
        | inl e ↦
            let range = next_range size number index in
            rw (e, in_nodes_loop)
              (and_then-IsOwnFailure (func range acc s) _ (h range acc s)
                (λ acc'. in_nodes_loop-FailsOwn func h fuel size number range.second acc'))
        | inr e ↦ rw (e, in_nodes_loop) tt
      ]

abbrev pub whole_range : List ExpandedNodeId → NodeRange
whole_range node_ids = record { first = 0; second = length node_ids }

module _ {W E : Type 0} (ua : Ua) (lib : IOpen62541 W) (enc : IEncoder E) where
  abbrev Calls : Type 0 → Type 0
  Calls A = Effect (Exporter W E) A

  export_models-FailsOwn :
      (ms : List NodeIntermediateModel) (aliases : Aliases)
      → FailsOwn (export_models ua lib enc ms aliases)
  unfolding export_models
  export_models-FailsOwn [] aliases x = tt
  export_models-FailsOwn (m ∷ ms) aliases x =
      and_then-IsOwnFailure
        (or_sub_status (lift (get_aliases ua (m ∷ ms) aliases)) get_aliases_fail x) _
        (replace_status-IsOwnFailure get_aliases_fail _ refl)
        (λ more y.
          and_then-IsOwnFailure (or_sub_status (export_nodes enc (m ∷ ms)) export_nodes_fail y) _
            (replace_status-IsOwnFailure export_nodes_fail _ refl) (λ _ z. tt))

  ignore_nodes_checked-own :
      (ignored : List NodeClass) (cs : List NodeClassesRequestResponse) (ids : List ExpandedNodeId)
      (r : StatusResults)
      → (ignore_nodes_checked ua lib enc ignored cs ids).0 ≡ fails r
      → IsOwnResult r
  ignore_nodes_checked-own ignored cs ids r h =
      elim (ignore_nodes_checked-outcomes ua lib enc ignored cs ids) [
        | inl (bad, failed) ↦
            let e = sym failed ∙ h in inl (let q : r ≡ of_status Status.fail = cc in q)
        | inr (fine, done) ↦ let e = ap (λ p. p.0) (sym done) ∙ h in cc
      ]

  check_class_size-FailsOwn :
      (node_ids : List ExpandedNodeId) (classes : List NodeClassesRequestResponse)
      → FailsOwn (check_class_size ua lib enc node_ids classes)
  unfolding check_class_size
  check_class_size-FailsOwn node_ids classes x = ground arith

  get_node_data_and_export-FailsOwn :
      (node_ids : List ExpandedNodeId) (classes : List NodeClassesRequestResponse)
      (range : NodeRange) (aliases : Aliases)
      → FailsOwn (get_node_data_and_export ua lib enc node_ids classes range aliases)
  unfolding get_node_data_and_export
  get_node_data_and_export-FailsOwn node_ids classes range aliases x =
      and_then-IsOwnFailure
        (or_sub_status (get_nodes_data ua lib enc node_ids range classes) get_nodes_data_fail x) _
        (replace_status-IsOwnFailure get_nodes_data_fail _ refl)
        (λ models. export_models-FailsOwn models aliases)

  export_at_once-FailsOwn :
      (node_ids : List ExpandedNodeId) (aliases : Aliases)
      → FailsOwn (export_at_once ua lib enc node_ids aliases)
  unfolding export_at_once
  export_at_once-FailsOwn node_ids aliases x =
      and_then-IsOwnFailure
        (or_sub_status
          (on_server (get_node_classes ua lib x.options node_ids (whole_range node_ids)))
          get_node_classes_fail x)
        _ (replace_status-IsOwnFailure get_node_classes_fail _ refl)
        (λ classes y.
          and_then-IsOwnFailure (check_class_size ua lib enc node_ids classes y) _
            (check_class_size-FailsOwn node_ids classes y)
            (λ _ z.
              and_then-IsOwnFailure
                (on_ignored (ignore_nodes_checked ua lib enc x.ignored_nodeclasses classes) z) _
                (lift-IsOwnFailure _ _ (
                  ignore_nodes_checked-own x.ignored_nodeclasses classes
                    z.ignored_node_ids_by_classes))
                (λ _ u.
                  and_then-IsOwnFailure
                    (or_sub_status
                      (get_nodes_data ua lib enc node_ids (whole_range node_ids) classes)
                      get_nodes_data_fail u)
                    _ (replace_status-IsOwnFailure get_nodes_data_fail _ refl)
                    (λ models. export_models-FailsOwn models aliases))))

  export_in_batches-FailsOwn :
      (node_ids : List ExpandedNodeId) (aliases : Aliases)
      → FailsOwn (export_in_batches ua lib enc node_ids aliases)
  unfolding export_in_batches
  export_in_batches-FailsOwn node_ids aliases x =
      let size = length node_ids in
      let number = x.number_of_max_nodes_to_request_data in
      and_then-IsOwnFailure
        (or_sub_status
          (in_nodes_loop (suc size) size number (get_part_of_node_classes ua lib enc node_ids) 0 [])
          get_node_classes_fail x)
        _ (replace_status-IsOwnFailure get_node_classes_fail _ refl)
        (λ classes y.
          and_then-IsOwnFailure (check_class_size ua lib enc node_ids classes y) _
            (check_class_size-FailsOwn node_ids classes y)
            (λ _.
              in_nodes_loop-FailsOwn (get_node_data_and_export ua lib enc node_ids classes)
                (λ range acc. get_node_data_and_export-FailsOwn node_ids classes range acc)
                (suc size) size number 0 aliases))

  export_list-FailsOwn :
      (node_ids : List ExpandedNodeId) (aliases : Aliases)
      → FailsOwn (export_list ua lib enc node_ids aliases)
  unfolding export_list
  export_list-FailsOwn node_ids aliases x =
      and_then-IsOwnFailure (lift (distinct ua node_ids) x) _
        (lift-IsOwnFailure (distinct ua node_ids) x
          (λ r h. absurd (distinct-no_failure ua node_ids r h)))
        (λ (kept, seen) y.
          let z = record y { node_ids_set_copy = seen } in
          elim (Bool-cases (
            leb (length kept) y.number_of_max_nodes_to_request_data
            || (y.number_of_max_nodes_to_request_data == 0))) [
              | inl e ↦ rw e (export_at_once-FailsOwn kept aliases z)
              | inr e ↦ rw e (export_in_batches-FailsOwn kept aliases z)
            ])

  export_lists-FailsOwn :
      (lists : NodeLists) (aliases : Aliases) → FailsOwn (export_lists ua lib enc lists aliases)
  unfolding export_lists
  export_lists-FailsOwn [] aliases x = tt
  export_lists-FailsOwn ((name, node_ids) ∷ lists) aliases x =
      and_then-IsOwnFailure (export_list ua lib enc node_ids aliases x) _
        (export_list-FailsOwn node_ids aliases x) (λ more. export_lists-FailsOwn lists more)

  export_aliases-FailsOwn : (aliases : Aliases) → FailsOwn (export_aliases ua lib enc aliases)
  unfolding export_aliases
  export_aliases-FailsOwn [] x = tt
  export_aliases-FailsOwn (a ∷ aliases) x = replace_status-IsOwnFailure export_aliases_fail _ refl

  check_start_nodes-IsOwnFailure :
      (opts : Options) (lists : NodeLists) (x : Exporter W E)
      → IsOwnFailure (check_start_nodes_on_ns0 ua opts lists, x)
  check_start_nodes-IsOwnFailure opts lists x =
      lift-IsOwnFailure (check_start_nodes_on_ns0 ua opts lists) x (λ r h.
        inr (failed_check_ns0_start_nodes, refl, check_start_nodes_on_ns0-code ua opts lists r h))

  -- Whatever codes the server and the encoder fail with, StartExport fails with a result of its own: the
  -- status Fail, one of the codes of the steps of an export or none, and the reserve code 0.
  pub start_export-FailsOwn : FailsOwn (start_export ua lib enc)
  unfolding start_export
  start_export-FailsOwn x =
      and_then-IsOwnFailure (lift (check_start_nodes_on_ns0 ua x.options x.node_ids) x) _
        (check_start_nodes-IsOwnFailure x.options x.node_ids x)
        (λ _ y.
          and_then-IsOwnFailure (or_sub_status (begin_export ua lib enc) begin_fail y) _
            (replace_status-IsOwnFailure begin_fail _ refl)
            (λ _ z.
              and_then-IsOwnFailure
                (or_sub_status (on_server (get_namespaces lib)) get_namespaces_fail z) _
                (replace_status-IsOwnFailure get_namespaces_fail _ refl)
                (λ namespaces u.
                  and_then-IsOwnFailure
                    (or_sub_status (on_encoder (enc.add_namespaces namespaces))
                      export_namespaces_fail u)
                    _ (replace_status-IsOwnFailure export_namespaces_fail _ refl)
                    (λ _ v.
                      and_then-IsOwnFailure (export_lists ua lib enc x.node_ids [] v) _
                        (export_lists-FailsOwn x.node_ids [] v)
                        (λ aliases w.
                          and_then-IsOwnFailure (export_aliases ua lib enc aliases w) _
                            (export_aliases-FailsOwn aliases w)
                            (λ _ s. replace_status-IsOwnFailure end_fail _ refl))))))

  -- Where a list begins with a node that may not be a start node, and the lists before it are not empty,
  -- StartExport returns Fail with the code FailedCheckNs0StartNodes, and neither the server is asked for
  -- anything nor anything written.
  pub start_export-refused :
      UaLaws ua
      → (x : Exporter W E) → SomeStartRefused x.options x.node_ids
      → start_export ua lib enc x
        ≡ (fails (of_sub_status Status.fail failed_check_ns0_start_nodes), x)
  unfolding start_export
  start_export-refused laws x bad =
      rw ((check_start_nodes_on_ns0-exact laws x.options x.node_ids).1.1 bad)
