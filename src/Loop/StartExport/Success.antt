-- ===== src/Loop/StartExport/Success.antt =====
-- A successful StartExport has given the encoder the models of its lists.
use open62541_nodeset_export.Prelude.{
  Bool-cases, List, [], ap, append-nil, arith, inl, inr, leb, length, refl, subst, suc, sym, ℕ,
  ◌++◌, ◌==◌, ◌||◌, ◌∷◌, ◌≡◌,
}
use open62541_nodeset_export.Effect.{lift, or_sub_status}
use open62541_nodeset_export.Interfaces.{IEncoder, IOpen62541, NodeClassesRequestResponse}
use open62541_nodeset_export.Loop.Aliases.{Aliases, get_aliases}
use open62541_nodeset_export.Loop.Batches.{in_nodes_loop}
use open62541_nodeset_export.Loop.Distinct.{distinct}
use open62541_nodeset_export.Loop.Exporter.{Exporter, NodeLists}
use open62541_nodeset_export.Loop.Options.{Options}
use open62541_nodeset_export.Loop.Requests.{NodeRange, get_node_classes}
use open62541_nodeset_export.Loop.StartExport.{
  check_class_size, export_at_once, export_in_batches, export_list, export_lists,
  get_node_data_and_export, get_nodes_data, get_part_of_node_classes, ignore_nodes_checked,
  on_ignored, on_server,
}
use open62541_nodeset_export.Loop.StartExport.Content.{
  GivesClasses, GivesModels, InRanges, OfList, OfLists, all_done, one_range,
}
use open62541_nodeset_export.Loop.StartExport.Gives.{
  Gives, Quiet, and_then-Gives, and_then-Gives_both, loosen, outcome-Quiet, outcome_then,
  replace_status-Quiet, restart, weaken-Gives, weaken-Quiet,
}
use open62541_nodeset_export.Loop.StartExport.Ranges.{
  AnyValue, Fits, Named, export_models-Gives, get_aliases-append, get_node_data_and_export-Gives,
  get_nodes_data-Quiet, in_nodes_loop-Gives, in_nodes_loop-Quiet,
}
use open62541_nodeset_export.Model.{NodeIntermediateModel}
use open62541_nodeset_export.Status.{Outcome, get_node_classes_fail, get_nodes_data_fail, ok}
use open62541_nodeset_export.Ua.{ExpandedNodeId, NodeClass, Ua}

one_whole :
    {A : Type 0} (P : ℕ → ℕ → List A → Type 0) (size : ℕ) (part : List A)
    → P 0 size part
    → InRanges P size 0 part
one_whole P size part p =
    subst (InRanges P size 0) (append-nil part)
      (one_range size part [] (omega arith) (omega arith) p (all_done (omega arith)))

module _ (ua : Ua) {W E : Type 0} (lib : IOpen62541 W) (enc : IEncoder E) (opts : Options)
    (ignored : List NodeClass) where
  module _ (kept seen : List ExpandedNodeId) where
    abbrev Inside : Exporter W E → Type 0
    Inside = Fits opts ignored seen

    abbrev ClassesOf : ℕ → ℕ → List NodeClassesRequestResponse → Type 0
    ClassesOf = GivesClasses ua lib E opts ignored kept

    abbrev ModelsOf : List NodeClassesRequestResponse → ℕ → ℕ → List NodeIntermediateModel → Type 0
    ModelsOf = GivesModels ua lib E opts ignored kept seen

    abbrev OfKept : List NodeIntermediateModel → Type 0
    OfKept ms =
        (classes : List NodeClassesRequestResponse) × InRanges ClassesOf (length kept) 0 classes
        × InRanges (ModelsOf classes) (length kept) 0 ms

    abbrev OfNamed : Aliases → List NodeIntermediateModel → Aliases → Type 0
    OfNamed aliases ms more = OfKept ms × Named ua aliases ms more

    get_part_of_node_classes-Quiet :
        (first next : ℕ) (classes : List NodeClassesRequestResponse) (x : Exporter W E)
        → Inside x
        → Quiet enc Inside
            (λ acc.
              (part : List NodeClassesRequestResponse) × (acc ≡ classes ++ part)
              × ClassesOf first next part)
            x
            (get_part_of_node_classes ua lib enc kept
              (record { first = first; second = next })
              classes
              x)
    unfolding get_part_of_node_classes
    get_part_of_node_classes-Quiet first next classes x i =
        let range : NodeRange = record { first = first; second = next } in
        let asked = get_node_classes ua lib x.options kept range x.server in
        outcome_then enc Inside x _ asked.0 (record x { server = asked.1 }) _ refl
          (λ part e. (
            i,
            refl,
            (
              part,
              refl,
              (
                x.server,
                asked.1,
                subst (λ o. get_node_classes ua lib o kept range x.server ≡ (ok part, asked.1)) i.0
                    (ap (λ o. (o, asked.1)) e),
              ),
            ),
          ))

    export_at_once-Gives :
        (aliases : Aliases) (x : Exporter W E)
        → Inside x
        → Gives enc Inside (OfNamed aliases) x (export_at_once ua lib enc kept aliases x)
    unfolding export_at_once check_class_size
    export_at_once-Gives aliases x i =
        let size = length kept in
        let range : NodeRange = record { first = 0; second = size } in
        let asked = get_node_classes ua lib x.options kept range x.server in
        and_then-Gives enc Inside x (ClassesOf 0 size) (OfNamed aliases)
          (or_sub_status (on_server (get_node_classes ua lib x.options kept range))
            get_node_classes_fail x)
          _
          (replace_status-Quiet enc Inside x (ClassesOf 0 size) get_node_classes_fail _ (
            outcome-Quiet enc Inside x (ClassesOf 0 size) asked.0 (record x { server = asked.1 }) i
              refl
              (λ classes e. (
                x.server,
                asked.1,
                subst (λ o. get_node_classes ua lib o kept range x.server ≡ (ok classes, asked.1))
                    i.0 (ap (λ o. (o, asked.1)) e),
              ))))
          (λ classes y j given.
            and_then-Gives enc Inside y AnyValue (OfNamed aliases)
              (check_class_size ua lib enc kept classes y) _
              (outcome-Quiet enc Inside y AnyValue _ y j refl (λ a e. tt))
              (λ _ z k _.
                let noted =
                  ignore_nodes_checked ua lib enc x.ignored_nodeclasses classes
                    z.ignored_node_ids_by_classes in
                and_then-Gives enc Inside z AnyValue (OfNamed aliases)
                  (on_ignored (ignore_nodes_checked ua lib enc x.ignored_nodeclasses classes) z) _
                  (outcome-Quiet enc Inside z AnyValue noted.0
                    (record z { ignored_node_ids_by_classes = noted.1 }) k refl (λ a e. tt))
                  (λ _ v l _.
                    and_then-Gives enc Inside v (ModelsOf classes 0 size) (OfNamed aliases)
                      (or_sub_status (get_nodes_data ua lib enc kept range classes)
                        get_nodes_data_fail v)
                      _
                      (replace_status-Quiet enc Inside v (ModelsOf classes 0 size)
                        get_nodes_data_fail _
                        (get_nodes_data-Quiet ua lib enc opts ignored kept seen classes 0 size v l))
                      (λ models w m made.
                        weaken-Gives enc Inside w
                          (λ ns more. (ns ≡ models) × Named ua aliases ns more) (OfNamed aliases) _
                          (λ ns more (same, named). (
                            (
                              classes,
                              one_whole ClassesOf size classes given,
                              one_whole (ModelsOf classes) size ns
                                  (subst (ModelsOf classes 0 size) (sym same) made),
                            ),
                            named,
                          ))
                          (export_models-Gives ua lib enc opts ignored kept seen models aliases w
                            m)))))

    export_in_batches-Gives :
        (aliases : Aliases) (x : Exporter W E)
        → Inside x
        → Gives enc Inside (OfNamed aliases) x (export_in_batches ua lib enc kept aliases x)
    unfolding export_in_batches check_class_size
    export_in_batches-Gives aliases x i =
        let size = length kept in
        let number = x.number_of_max_nodes_to_request_data in
        let AllClasses = InRanges ClassesOf size 0 in
        and_then-Gives enc Inside x AllClasses (OfNamed aliases)
          (or_sub_status
            (in_nodes_loop (suc size) size number (get_part_of_node_classes ua lib enc kept) 0 [])
            get_node_classes_fail x)
          _
          (replace_status-Quiet enc Inside x AllClasses get_node_classes_fail _ (
            weaken-Quiet enc Inside x _ AllClasses _
              (λ acc (rest, same, given). subst AllClasses (sym same) given)
              (in_nodes_loop-Quiet enc Inside ClassesOf (get_part_of_node_classes ua lib enc kept)
                get_part_of_node_classes-Quiet (suc size) size number 0 [] x i)))
          (λ classes y j given.
            and_then-Gives enc Inside y AnyValue (OfNamed aliases)
              (check_class_size ua lib enc kept classes y) _
              (outcome-Quiet enc Inside y AnyValue _ y j refl (λ a e. tt))
              (λ _ z k _.
                weaken-Gives enc Inside z
                  (λ ns more. InRanges (ModelsOf classes) size 0 ns × Named ua aliases ns more)
                  (OfNamed aliases) _ (λ ms more (made, named). ((classes, given, made), named))
                  (in_nodes_loop-Gives ua enc Inside (ModelsOf classes)
                    (get_node_data_and_export ua lib enc kept classes)
                    (get_node_data_and_export-Gives ua lib enc opts ignored kept seen classes)
                    (suc size) size number 0 aliases z k)))

  -- The exporter between two lists.
  abbrev pub HasSettings : Exporter W E → Type 0
  HasSettings x = (x.options ≡ opts) × (x.ignored_nodeclasses ≡ ignored)

  OfKept-OfList :
      (kept seen node_ids : List ExpandedNodeId) (aliases : Aliases) (y : Exporter W E)
      → distinct ua node_ids ≡ ok (kept, seen)
      → (m : Outcome Aliases × Exporter W E)
      → Gives enc
          (Inside kept seen)
          (OfNamed kept seen aliases)
          (record y { node_ids_set_copy = seen })
          m
      → Gives enc HasSettings
          (λ ms more. OfList ua lib E opts ignored node_ids ms × Named ua aliases ms more)
          y
          m
  OfKept-OfList kept seen node_ids aliases y apart m h =
      let z = record y { node_ids_set_copy = seen } in
      let Own : List NodeIntermediateModel → Aliases → Type 0 =
        λ ms more. OfList ua lib E opts ignored node_ids ms × Named ua aliases ms more in
      restart enc HasSettings y Own z m refl (
        loosen enc (Inside kept seen) HasSettings Own z m (λ u f. (f.0, f.1))
          (weaken-Gives enc (Inside kept seen) z (OfNamed kept seen aliases) Own m
            (λ ms more ((classes, given, made), named).
              ((kept, seen, classes, apart, given, made), named))
            h))

  export_list-Gives :
      (node_ids : List ExpandedNodeId) (aliases : Aliases) (x : Exporter W E)
      → HasSettings x
      → Gives enc HasSettings
          (λ ms more. OfList ua lib E opts ignored node_ids ms × Named ua aliases ms more)
          x
          (export_list ua lib enc node_ids aliases x)
  unfolding export_list
  export_list-Gives node_ids aliases x i =
      let Own : List NodeIntermediateModel → Aliases → Type 0 =
        λ ms more. OfList ua lib E opts ignored node_ids ms × Named ua aliases ms more in
      and_then-Gives enc HasSettings x (λ p. distinct ua node_ids ≡ ok p) Own
        (lift (distinct ua node_ids) x) _
        (outcome-Quiet enc HasSettings x (λ p. distinct ua node_ids ≡ ok p) (distinct ua node_ids) x
          i refl (λ p e. e))
        (λ (kept, seen) y j apart.
          let z = record y { node_ids_set_copy = seen } in
          let number = y.number_of_max_nodes_to_request_data in
          let own = OfKept-OfList kept seen node_ids aliases y apart in
          elim (Bool-cases (leb (length kept) number || (number == 0))) [
            | inl e ↦ rw e (own _ (export_at_once-Gives kept seen aliases z (j.0, j.1, refl)))
            | inr e ↦ rw e (own _ (export_in_batches-Gives kept seen aliases z (j.0, j.1, refl)))
          ])

  pub export_lists-Gives :
      (lists : NodeLists) (aliases : Aliases) (x : Exporter W E)
      → HasSettings x
      → Gives enc HasSettings
          (λ ms more. OfLists ua lib E opts ignored lists ms × Named ua aliases ms more)
          x
          (export_lists ua lib enc lists aliases x)
  unfolding export_lists get_aliases
  export_lists-Gives [] aliases x i = (i, ([], refl, (refl, refl)))
  export_lists-Gives ((name, node_ids) ∷ lists) aliases x i =
      and_then-Gives_both enc HasSettings x
        (λ ms more. OfList ua lib E opts ignored node_ids ms × Named ua aliases ms more)
        (λ ms more.
          OfLists ua lib E opts ignored ((name, node_ids) ∷ lists) ms × Named ua aliases ms more)
        (export_list ua lib enc node_ids aliases x) _ (export_list-Gives node_ids aliases x i)
        (λ more y own j (mine, named).
          weaken-Gives enc HasSettings y
            (λ ms last. OfLists ua lib E opts ignored lists ms × Named ua more ms last) _ _
            (λ rest last (later, named'). (
              (own, rest, refl, mine, later),
              get_aliases-append ua own rest aliases more last named named',
            ))
            (export_lists-Gives lists more y j))
