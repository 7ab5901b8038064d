-- ===== src/Loop/StartExport/Ranges.antt =====
-- The loops of StartExport give the encoder the models of the lists.
use open62541_nodeset_export.Prelude.{
  Bool-cases, List, [], ap, append-nil, append_assoc, arith, inl, inr, ltb, refl, subst, suc, sym,
  zero, ℕ, ◌++◌, ◌-◌, ◌∙◌, ◌∷◌, ◌≡◌,
}
use open62541_nodeset_export.Effect.{Effect, lift, or_sub_status}
use open62541_nodeset_export.Interfaces.{IEncoder, IOpen62541, NodeClassesRequestResponse}
use open62541_nodeset_export.Loop.Aliases.{Aliases, get_aliases, node_aliases}
use open62541_nodeset_export.Loop.Batches.{in_nodes_loop, next_range}
use open62541_nodeset_export.Loop.ExportNodes.{export_nodes}
use open62541_nodeset_export.Loop.ExportNodes.Counts.{export_nodes-Accepted, export_nodes-settings}
use open62541_nodeset_export.Loop.Exporter.{Exporter}
use open62541_nodeset_export.Loop.KepServer.{kep_server_ref_fix}
use open62541_nodeset_export.Loop.NodesData.{Vectors, collect_models}
use open62541_nodeset_export.Loop.Options.{Options}
use open62541_nodeset_export.Loop.Requests.{NodeRange, get_node_attributes, get_node_references}
use open62541_nodeset_export.Loop.StartExport.{
  export_models, get_node_data_and_export, get_nodes_data,
}
use open62541_nodeset_export.Loop.StartExport.Content.{GivesModels, InRanges, all_done, one_range}
use open62541_nodeset_export.Loop.StartExport.Gives.{
  Gives, Quiet, and_then-Gives, and_then-Gives_both, and_then-Quiet, call-Gives, outcome-Quiet,
  outcome_then, replace_status-Gives, replace_status-Quiet, weaken-Gives, weaken-Quiet,
}
use open62541_nodeset_export.Model.{NodeIntermediateModel}
use open62541_nodeset_export.Status.{
  >>=-eq-ok, export_nodes_fail, get_aliases_fail, get_nodes_data_fail, ok, ok-injective,
}
use open62541_nodeset_export.Ua.{ExpandedNodeId, NodeClass, Ua}

-- The models add their names to the first table.
abbrev pub Named : Ua → Aliases → List NodeIntermediateModel → Aliases → Type 0
Named ua aliases ms more = get_aliases ua ms aliases ≡ ok more

pub get_aliases-append :
    (ua : Ua) (ms ns : List NodeIntermediateModel) (a b c : Aliases)
    → Named ua a ms b
    → Named ua b ns c
    → Named ua a (ms ++ ns) c
unfolding get_aliases
get_aliases-append ua [] ns a b c h k =
    subst (λ t. get_aliases ua ns t ≡ ok c) (sym (ok-injective h)) k
get_aliases-append ua (m ∷ ms) ns a b c h k =
    let (a1, first, rest) = >>=-eq-ok (node_aliases ua m a) _ h in
    rw first (get_aliases-append ua ms ns a1 b c rest k)

module _ (ua : Ua) {W E : Type 0} (enc : IEncoder E) (I : Exporter W E → Type 0) where
  pub in_nodes_loop-Gives :
      (P : ℕ → ℕ → List NodeIntermediateModel → Type 0)
      (func : NodeRange → Aliases → Effect (Exporter W E) Aliases)
      → ((first next : ℕ) (acc : Aliases) (x : Exporter W E)
          → I x
          → Gives enc I
              (λ ms more. P first next ms × Named ua acc ms more)
              x
              (func (record { first = first; second = next }) acc x))
      → (fuel size number index : ℕ) (acc : Aliases) (x : Exporter W E) → I x
      → Gives enc I
          (λ ms more. InRanges P size index ms × Named ua acc ms more)
          x
          (in_nodes_loop fuel size number func index acc x)
  unfolding in_nodes_loop get_aliases
  in_nodes_loop-Gives P func h zero size number index acc x i = tt
  in_nodes_loop-Gives P func h (suc fuel) size number index acc x i =
      elim (Bool-cases (ltb index size)) [
        | inl e ↦
            let range = next_range size number index in
            rw (e, in_nodes_loop)
              (and_then-Gives_both enc I x _
                (λ ms more. InRanges P size index ms × Named ua acc ms more) (func range acc x) _
                (h index range.second acc x i)
                (λ acc' y ms j (p, named).
                  weaken-Gives enc I y
                    (λ ns more. InRanges P size range.second ns × Named ua acc' ns more) _ _
                    (λ ns more (later, named'). (
                      one_range range.second ms ns (ground arith) (ground arith) p later,
                      get_aliases-append ua ms ns acc acc' more named named',
                    ))
                    (in_nodes_loop-Gives P func h fuel size number range.second acc' y j)))
        | inr e ↦ rw (e, in_nodes_loop) (i, ([], refl, (all_done (ground arith), refl)))
      ]

module _ {W E : Type 0} (enc : IEncoder E) (I : Exporter W E → Type 0) where
  -- A function that only adds to its list.
  pub in_nodes_loop-Quiet :
      {B : Type 0} (P : ℕ → ℕ → List B → Type 0)
      (func : NodeRange → List B → Effect (Exporter W E) (List B))
      → ((first next : ℕ) (acc : List B) (x : Exporter W E)
          → I x
          → Quiet enc I
              (λ acc'. (part : List B) × (acc' ≡ acc ++ part) × P first next part)
              x
              (func (record { first = first; second = next }) acc x))
      → (fuel size number index : ℕ) (acc : List B) (x : Exporter W E) → I x
      → Quiet enc I
          (λ acc'. (rest : List B) × (acc' ≡ acc ++ rest) × InRanges P size index rest)
          x
          (in_nodes_loop fuel size number func index acc x)
  unfolding in_nodes_loop
  in_nodes_loop-Quiet P func h zero size number index acc x i = tt
  in_nodes_loop-Quiet P func h (suc fuel) size number index acc x i =
      elim (Bool-cases (ltb index size)) [
        | inl e ↦
            let range = next_range size number index in
            rw (e, in_nodes_loop)
              (and_then-Quiet enc I x _ _ (func range acc x) _ (h index range.second acc x i)
                (λ acc' y j (part, same, p).
                  weaken-Quiet enc I y _ _ _
                    (λ acc'' (rest, same', more). (
                      part ++ rest,
                      same' ∙ (ap (λ t. t ++ rest) same ∙ append_assoc acc part rest),
                      one_range range.second part rest (ground arith) (ground arith) p more,
                    ))
                    (in_nodes_loop-Quiet P func h fuel size number range.second acc' y j)))
        | inr e ↦
            rw (e, in_nodes_loop) (i, refl, ([], sym (append-nil acc), all_done (ground arith)))
      ]

-- The exporter within the loop over one list.
abbrev pub Fits :
    {W E : Type 0} → Options → List NodeClass → List ExpandedNodeId → Exporter W E → Type 0
Fits opts ignored seen x =
    (x.options ≡ opts) × (x.ignored_nodeclasses ≡ ignored) × (x.node_ids_set_copy ≡ seen)

abbrev pub AnyValue : {A : Type 0} → A → Type 0
AnyValue a = Unit

module _ (ua : Ua) {W E : Type 0} (lib : IOpen62541 W) (enc : IEncoder E) (opts : Options)
    (ignored : List NodeClass) where
  module _ (kept seen : List ExpandedNodeId) where
    abbrev Inside : Exporter W E → Type 0
    Inside = Fits opts ignored seen

    abbrev ModelsOf : List NodeClassesRequestResponse → ℕ → ℕ → List NodeIntermediateModel → Type 0
    ModelsOf = GivesModels ua lib E opts ignored kept seen

    pub get_nodes_data-Quiet :
        (classes : List NodeClassesRequestResponse) (first next : ℕ) (x : Exporter W E)
        → Inside x
        → Quiet enc Inside
            (ModelsOf classes first next)
            x
            (get_nodes_data ua lib enc kept (record { first = first; second = next }) classes x)
    unfolding get_nodes_data
    get_nodes_data-Quiet classes first next x i =
        let range : NodeRange = record { first = first; second = next } in
        let asked = get_node_attributes lib x.ignored_nodeclasses kept range classes x.server in
        let browsed = get_node_references ua lib x.options kept range asked.1 in
        let Made = ModelsOf classes first next in
        let y = record x { server = asked.1 } in
        let z = record x { server = browsed.1 } in
        outcome_then enc Inside x Made asked.0 y _ refl (λ attrs attrs_read.
          outcome_then enc Inside y Made browsed.0 z _ refl (λ answers answers_read.
            outcome_then enc Inside z Made (kep_server_ref_fix ua answers) z _ refl
              (λ references mended.
                let v : Vectors = record {
                  node_ids = kept;
                  classes = classes;
                  attrs = attrs;
                  references = references;
                } in
                outcome-Quiet enc Inside z Made (collect_models ua x v first (next - first) first) z
                  i refl
                  (λ models collected. record {
                    at = x;
                    attrs = attrs;
                    answers = answers;
                    references = references;
                    between = asked.1;
                    after = browsed.1;
                    same_options = i.0;
                    same_ignored = i.1;
                    same_seen = i.2;
                    attrs_read = ap (λ o. (o, asked.1)) attrs_read;
                    references_read = ap (λ o. (o, browsed.1)) answers_read;
                    mended = mended;
                    collected = collected;
                  }))))

    export_nodes-Gives :
        (ms : List NodeIntermediateModel) (x : Exporter W E)
        → Inside x
        → Gives enc Inside (λ ns _. ns ≡ ms) x (export_nodes enc ms x)
    export_nodes-Gives ms x i =
        call-Gives enc Inside x (λ ns _. ns ≡ ms) (export_nodes enc ms x)
          (λ u y done.
            let settings = export_nodes-settings enc ms x y done in
            (
              (settings.0 ∙ i.0, settings.1 ∙ i.1, settings.2 ∙ i.2),
              (ms, (export_nodes-Accepted enc ms x y done).0, refl),
            ))

    pub export_models-Gives :
        (ms : List NodeIntermediateModel) (aliases : Aliases) (x : Exporter W E)
        → Inside x
        → Gives enc Inside
            (λ ns more. (ns ≡ ms) × Named ua aliases ns more)
            x
            (export_models ua lib enc ms aliases x)
    unfolding export_models get_aliases
    export_models-Gives [] aliases x i = (i, ([], refl, (refl, refl)))
    export_models-Gives (m ∷ ms) aliases x i =
        let Own : List NodeIntermediateModel → Aliases → Type 0 =
          λ ns more. (ns ≡ m ∷ ms) × Named ua aliases ns more in
        let names = get_aliases ua (m ∷ ms) aliases in
        and_then-Gives enc Inside x (λ more. names ≡ ok more) Own
          (or_sub_status (lift names) get_aliases_fail x) _
          (replace_status-Quiet enc Inside x (λ more. names ≡ ok more) get_aliases_fail _
            (outcome-Quiet enc Inside x (λ more. names ≡ ok more) names x i refl (λ a e. e)))
          (λ more y j named.
            and_then-Gives_both enc Inside y (λ ns _. ns ≡ m ∷ ms) Own
              (or_sub_status (export_nodes enc (m ∷ ms)) export_nodes_fail y) _
              (replace_status-Gives enc Inside y (λ ns _. ns ≡ m ∷ ms) export_nodes_fail _
                (export_nodes-Gives (m ∷ ms) y j))
              (λ _ z ns k same.
                let whole = append-nil ns ∙ same in
                (k, ([], refl, (whole, subst (λ t. Named ua aliases t more) (sym whole) named)))))

    pub get_node_data_and_export-Gives :
        (classes : List NodeClassesRequestResponse) (first next : ℕ) (aliases : Aliases)
        (x : Exporter W E)
        → Inside x
        → Gives enc Inside
            (λ ns more. ModelsOf classes first next ns × Named ua aliases ns more)
            x
            (get_node_data_and_export ua lib enc kept classes
              (record { first = first; second = next })
              aliases
              x)
    unfolding get_node_data_and_export
    get_node_data_and_export-Gives classes first next aliases x i =
        and_then-Gives enc Inside x (ModelsOf classes first next)
          (λ ns more. ModelsOf classes first next ns × Named ua aliases ns more)
          (or_sub_status
            (get_nodes_data ua lib enc kept (record { first = first; second = next }) classes)
            get_nodes_data_fail x)
          _
          (replace_status-Quiet enc Inside x (ModelsOf classes first next) get_nodes_data_fail _
            (get_nodes_data-Quiet classes first next x i))
          (λ models y j made.
            weaken-Gives enc Inside y (λ ns more. (ns ≡ models) × Named ua aliases ns more) _ _
              (λ ns more (same, named).
                (subst (ModelsOf classes first next) (sym same) made, named))
              (export_models-Gives models aliases y j))
