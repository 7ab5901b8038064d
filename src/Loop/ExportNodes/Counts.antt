-- ===== src/Loop/ExportNodes/Counts.antt =====
-- What a successful ExportNodes has done.
use open62541_nodeset_export.Prelude.{
  Bool, List, Option, Option-cases, [], ap, arith, false, if◌then◌else◌, inl, inr, none, refl, some,
  subst, sym, true, ℕ, ◌+◌, ◌∙◌, ◌∷◌, ◌≡◌,
}
use open62541_nodeset_export.Effect.{Effect, and_then-eq-ok}
use open62541_nodeset_export.Interfaces.{IEncoder}
use open62541_nodeset_export.Loop.ExportNodes.{
  add_node, after_call, count_node, export_node, export_nodes,
}
use open62541_nodeset_export.Loop.Exporter.{ExportedNodes, Exporter, get_summ}
use open62541_nodeset_export.Model.{NodeIntermediateModel}
use open62541_nodeset_export.Status.{Outcome, fails, ok, throws}
use open62541_nodeset_export.Ua.{NodeClass}

-- One call of the encoder succeeds, or there is none to make; then the rest.
abbrev pub CallThen : {E : Type 0} → Option (Effect E (Unit {0})) → (E → Type 0) → E → Type 0
CallThen none rest e = rest e
CallThen {E} (some call) rest e = (e1 : E) × (call e ≡ (ok tt, e1)) × rest e1

-- Every model of an exported class was taken by the encoder, in order; the others were passed over.
abbrev pub Accepted : {E : Type 0} → IEncoder E → List NodeIntermediateModel → E → E → Type 0
Accepted enc [] e e' = e ≡ e'
Accepted enc (m ∷ ms) e e' = CallThen (add_node enc m) (λ e1. Accepted enc ms e1 e') e

-- The models of the six classes that ExportNodes handles.
abbrev pub is_exported : NodeClass → Bool
is_exported NodeClass.object = true
is_exported NodeClass.variable = true
is_exported NodeClass.object_type = true
is_exported NodeClass.variable_type = true
is_exported NodeClass.reference_type = true
is_exported NodeClass.data_type = true
is_exported _ = false

abbrev pub exported_count : List NodeIntermediateModel → ℕ
exported_count [] = 0
exported_count (m ∷ ms) = (if is_exported m.node_class then 1 else 0) + exported_count ms

get_summ-exported :
    (c : NodeClass) (n : ExportedNodes)
    → is_exported c ≡ true
    → get_summ (count_node c n) ≡ get_summ n + 1
unfolding get_summ count_node
get_summ-exported c n h = ground arith

pub not_exported :
    {E : Type 0} (enc : IEncoder E) (m : NodeIntermediateModel)
    → add_node enc m ≡ none
    → is_exported m.node_class ≡ false
unfolding add_node
not_exported enc m h = ground arith

pub is_exported_node :
    {E : Type 0} (enc : IEncoder E) (m : NodeIntermediateModel) (call : Effect E (Unit {0}))
    → add_node enc m ≡ some call
    → is_exported m.node_class ≡ true
unfolding add_node
is_exported_node enc m call h = ground arith

module _ {W E : Type 0} where
  after_call-ok :
      (c : NodeClass) (x x' : Exporter W E) (r : Outcome (Unit {0}) × E)
      → after_call c x r ≡ (ok tt, x')
      → (r ≡ (ok tt, x'.encoder)) × (x'.exported_nodes ≡ count_node c x.exported_nodes)
  unfolding after_call
  after_call-ok c x x' (ok u, e) h =
      (ap (λ p. (ok tt, p.1.encoder)) h, ap (λ p. p.1.exported_nodes) (sym h))
  after_call-ok c x x' (fails s, e) h = cc
  after_call-ok c x x' (throws t, e) h = cc

  module _ (enc : IEncoder E) where
    export_node-passed :
        (m : NodeIntermediateModel) (x x1 : Exporter W E)
        → add_node enc m ≡ none
        → export_node enc m x ≡ (ok tt, x1)
        → x ≡ x1
    unfolding export_node
    export_node-passed m x x1 passed h = ap (λ p. p.1) (rw (passed, export_node) at h)

    export_node-called :
        (m : NodeIntermediateModel) (x x1 : Exporter W E) (call : Effect E (Unit {0}))
        → add_node enc m ≡ some call
        → export_node enc m x ≡ (ok tt, x1)
        → (call x.encoder ≡ (ok tt, x1.encoder))
          × (x1.exported_nodes ≡ count_node m.node_class x.exported_nodes)
    unfolding export_node
    export_node-called m x x1 call e h =
        after_call-ok m.node_class x x1 (call x.encoder) (rw (e, export_node) at h)

    -- After a successful ExportNodes the encoder has accepted every model of a class that is exported,
    -- one after the other, and the sum of the statistics has grown by the number of these models.
    pub export_nodes-Accepted :
        (ms : List NodeIntermediateModel) (x x' : Exporter W E)
        → export_nodes enc ms x ≡ (ok tt, x')
        → Accepted enc ms x.encoder x'.encoder
          × (get_summ x'.exported_nodes ≡ get_summ x.exported_nodes + exported_count ms)
    unfolding export_nodes
    export_nodes-Accepted [] x x' h =
        (ap (λ p. p.1.encoder) h, ap (λ p. get_summ p.1.exported_nodes) (sym h) ∙ omega arith)
    export_nodes-Accepted (m ∷ ms) x x' h =
        let (u, x1, first, rest) =
          and_then-eq-ok (export_node enc m x) (λ _. export_nodes enc ms) tt x' h in
        let (accepted, summ) = export_nodes-Accepted ms x1 x' rest in
        elim (Option-cases (add_node enc m)) [
          | inl passed ↦
              let same = export_node-passed m x x1 passed first in
              rw (passed, not_exported enc m passed)
                (
                  subst (λ y. Accepted enc ms y.encoder x'.encoder) (sym same) accepted,
                  omega (arith, summ, ap (λ y. get_summ y.exported_nodes) same),
                )
          | inr (call, e) ↦
              let (taken, counted) = export_node-called m x x1 call e first in
              rw (e, is_exported_node enc m call e)
                (
                  (x1.encoder, taken, accepted),
                  omega (
                    arith,
                    summ,
                    ap get_summ counted,
                    get_summ-exported m.node_class x.exported_nodes (is_exported_node enc m call e),
                  ),
                )
        ]

-- The settings of the exporter stay.
abbrev pub SameSettings : {W E : Type 0} → Exporter W E → Exporter W E → Type 0
SameSettings x x' =
    (x'.options ≡ x.options)
    × (x'.ignored_nodeclasses ≡ x.ignored_nodeclasses)
    × (x'.node_ids_set_copy ≡ x.node_ids_set_copy)

module _ {W E : Type 0} where
  after_call-settings :
      (c : NodeClass) (x : Exporter W E) (r : Outcome (Unit {0}) × E)
      → SameSettings x (after_call c x r).1
  unfolding after_call
  after_call-settings c x (ok u, e) = (refl, refl, refl)
  after_call-settings c x (fails s, e) = (refl, refl, refl)
  after_call-settings c x (throws t, e) = (refl, refl, refl)

  module _ (enc : IEncoder E) where
    export_node-settings :
        (m : NodeIntermediateModel) (x : Exporter W E) → SameSettings x (export_node enc m x).1
    unfolding export_node
    export_node-settings m x = elim (Option-cases (add_node enc m)) [
      | inl e ↦ rw (e, export_node) (refl, refl, refl)
      | inr (call, e) ↦ rw (e, export_node) (after_call-settings m.node_class x (call x.encoder))
    ]

    pub export_nodes-settings :
        (ms : List NodeIntermediateModel) (x x' : Exporter W E)
        → export_nodes enc ms x ≡ (ok tt, x')
        → SameSettings x x'
    unfolding export_nodes
    export_nodes-settings [] x x' h = (
      ap (λ p. p.1.options) (sym h),
      ap (λ p. p.1.ignored_nodeclasses) (sym h),
      ap (λ p. p.1.node_ids_set_copy) (sym h),
    )
    export_nodes-settings (m ∷ ms) x x' h =
        let (u, y, called, rest) = and_then-eq-ok (export_node enc m x) _ tt x' h in
        let a : SameSettings x y =
          subst (λ p. SameSettings x p.1) called (export_node-settings m x) in
        let b = export_nodes-settings ms y x' rest in (b.0 ∙ a.0, b.1 ∙ a.1, b.2 ∙ a.2)
