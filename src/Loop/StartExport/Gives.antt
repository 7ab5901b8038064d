-- ===== src/Loop/StartExport/Gives.antt =====
-- Calls of the exporter by what their success gives to the encoder.
use open62541_nodeset_export.Prelude.{List, refl, subst, ◌++◌, ◌∙◌, ◌≡◌}
use open62541_nodeset_export.Effect.{and_then, replace_status}
use open62541_nodeset_export.Interfaces.{IEncoder}
use open62541_nodeset_export.Loop.ExportNodes.Counts.{Accepted}
use open62541_nodeset_export.Loop.Exporter.{Exporter}
use open62541_nodeset_export.Loop.StartExport.Written.{Accepted-append}
use open62541_nodeset_export.Model.{NodeIntermediateModel}
use open62541_nodeset_export.Status.{Outcome, SubStatus, fails, ok, throws}

module _ {W E : Type 0} (enc : IEncoder E) (I : Exporter W E → Type 0) where
  -- Success keeps `I`, gives nothing to the encoder, and its value has the property.
  abbrev pub Quiet : {A : Type 0} → (A → Type 0) → Exporter W E → Outcome A × Exporter W E → Type 0
  Quiet Q x (ok a, y) = I y × (y.encoder ≡ x.encoder) × Q a
  Quiet Q x (fails r, y) = Unit
  Quiet Q x (throws t, y) = Unit

  -- Success keeps `I`, and the encoder has taken models with the property.
  abbrev pub Gives :
      {A : Type 0}
      → (List NodeIntermediateModel → A → Type 0)
      → Exporter W E
      → Outcome A × Exporter W E
      → Type 0
  Gives R x (ok a, y) =
      I y × ((ms : List NodeIntermediateModel) × Accepted enc ms x.encoder y.encoder × R ms a)
  Gives R x (fails r, y) = Unit
  Gives R x (throws t, y) = Unit

  module _ {A B : Type 0} (x : Exporter W E) where
    pub and_then-Gives :
        (Q : A → Type 0) (R : List NodeIntermediateModel → B → Type 0)
        (m : Outcome A × Exporter W E) (f : A → Exporter W E → Outcome B × Exporter W E)
        → Quiet Q x m
        → ((a : A) (y : Exporter W E) → I y → Q a → Gives R y (f a y))
        → Gives R x (and_then m f)
    and_then-Gives Q R (ok a, y) f (i, same, q) k = move (f a y) same (k a y i q)
      where
        move : (r : Outcome B × Exporter W E) → y.encoder ≡ x.encoder → Gives R y r → Gives R x r
        move (ok b, z) e (j, (ms, taken, h)) =
            (j, (ms, subst (λ s. Accepted enc ms s z.encoder) e taken, h))
        move (fails r, z) e h = tt
        move (throws t, z) e h = tt
    and_then-Gives Q R (fails r, y) f h k = tt
    and_then-Gives Q R (throws t, y) f h k = tt

    pub and_then-Quiet :
        (Q : A → Type 0) (R : B → Type 0) (m : Outcome A × Exporter W E)
        (f : A → Exporter W E → Outcome B × Exporter W E)
        → Quiet Q x m
        → ((a : A) (y : Exporter W E) → I y → Q a → Quiet R y (f a y))
        → Quiet R x (and_then m f)
    and_then-Quiet Q R (ok a, y) f (i, same, q) k = move (f a y) same (k a y i q)
      where
        move : (r : Outcome B × Exporter W E) → y.encoder ≡ x.encoder → Quiet R y r → Quiet R x r
        move (ok b, z) e (j, s, h) = (j, s ∙ e, h)
        move (fails r, z) e h = tt
        move (throws t, z) e h = tt
    and_then-Quiet Q R (fails r, y) f h k = tt
    and_then-Quiet Q R (throws t, y) f h k = tt

    -- A call whose outcome and state are known.
    pub outcome_then :
        (R : B → Type 0) (o : Outcome A) (y : Exporter W E)
        (f : A → Exporter W E → Outcome B × Exporter W E)
        → y.encoder ≡ x.encoder
        → ((a : A) → o ≡ ok a → Quiet R y (f a y))
        → Quiet R x (and_then (o, y) f)
    outcome_then R (ok a) y f same k = move (f a y) (k a refl)
      where
        move : (r : Outcome B × Exporter W E) → Quiet R y r → Quiet R x r
        move (ok b, z) (j, s, h) = (j, s ∙ same, h)
        move (fails r, z) h = tt
        move (throws t, z) h = tt
    outcome_then R (fails r) y f same k = tt
    outcome_then R (throws t) y f same k = tt

    pub and_then-Gives_both :
        (Q : List NodeIntermediateModel → A → Type 0) (R : List NodeIntermediateModel → B → Type 0)
        (m : Outcome A × Exporter W E) (f : A → Exporter W E → Outcome B × Exporter W E)
        → Gives Q x m
        → ((a : A) (y : Exporter W E) (ms : List NodeIntermediateModel)
            → I y
            → Q ms a
            → Gives (λ ns. R (ms ++ ns)) y (f a y))
        → Gives R x (and_then m f)
    and_then-Gives_both Q R (ok a, y) f (i, (ms, taken, q)) k = move (f a y) (k a y ms i q)
      where
        move : (r : Outcome B × Exporter W E) → Gives (λ ns. R (ms ++ ns)) y r → Gives R x r
        move (ok b, z) (j, (ns, more, h)) =
            (j, (ms ++ ns, Accepted-append enc ms ns x.encoder y.encoder z.encoder taken more, h))
        move (fails r, z) h = tt
        move (throws t, z) h = tt
    and_then-Gives_both Q R (fails r, y) f h k = tt
    and_then-Gives_both Q R (throws t, y) f h k = tt

  module _ {A : Type 0} (x : Exporter W E) where
    pub replace_status-Quiet :
        (Q : A → Type 0) (sub : SubStatus) (m : Outcome A × Exporter W E)
        → Quiet Q x m
        → Quiet Q x (replace_status sub m)
    replace_status-Quiet Q sub (ok a, y) h = h
    replace_status-Quiet Q sub (fails r, y) h = tt
    replace_status-Quiet Q sub (throws t, y) h = tt

    pub replace_status-Gives :
        (R : List NodeIntermediateModel → A → Type 0) (sub : SubStatus)
        (m : Outcome A × Exporter W E)
        → Gives R x m
        → Gives R x (replace_status sub m)
    replace_status-Gives R sub (ok a, y) h = h
    replace_status-Gives R sub (fails r, y) h = tt
    replace_status-Gives R sub (throws t, y) h = tt

    -- An outcome beside a state that is known.
    pub outcome-Quiet :
        (Q : A → Type 0) (o : Outcome A) (y : Exporter W E)
        → I y
        → y.encoder ≡ x.encoder
        → ((a : A) → o ≡ ok a → Q a)
        → Quiet Q x (o, y)
    outcome-Quiet Q (ok a) y i same h = (i, same, h a refl)
    outcome-Quiet Q (fails r) y i same h = tt
    outcome-Quiet Q (throws t) y i same h = tt

    -- Any call, by what its success means.
    pub call-Gives :
        (R : List NodeIntermediateModel → A → Type 0) (m : Outcome A × Exporter W E)
        → ((a : A) (y : Exporter W E)
            → m ≡ (ok a, y)
            → I y
              × ((ms : List NodeIntermediateModel) × Accepted enc ms x.encoder y.encoder × R ms a))
        → Gives R x m
    call-Gives R (ok a, y) h = h a y refl
    call-Gives R (fails r, y) h = tt
    call-Gives R (throws t, y) h = tt

    pub weaken-Gives :
        (Q R : List NodeIntermediateModel → A → Type 0) (m : Outcome A × Exporter W E)
        → ((ms : List NodeIntermediateModel) (a : A) → Q ms a → R ms a)
        → Gives Q x m
        → Gives R x m
    weaken-Gives Q R (ok a, y) f (i, (ms, taken, q)) = (i, (ms, taken, f ms a q))
    weaken-Gives Q R (fails r, y) f h = tt
    weaken-Gives Q R (throws t, y) f h = tt

    pub weaken-Quiet :
        (Q R : A → Type 0) (m : Outcome A × Exporter W E)
        → ((a : A) → Q a → R a)
        → Quiet Q x m
        → Quiet R x m
    weaken-Quiet Q R (ok a, y) f (i, same, q) = (i, same, f a q)
    weaken-Quiet Q R (fails r, y) f h = tt
    weaken-Quiet Q R (throws t, y) f h = tt

    -- From another state with the same encoder.
    pub restart :
        (R : List NodeIntermediateModel → A → Type 0) (y : Exporter W E)
        (m : Outcome A × Exporter W E)
        → y.encoder ≡ x.encoder
        → Gives R y m
        → Gives R x m
    restart R y (ok a, z) e (i, (ms, taken, h)) =
        (i, (ms, subst (λ s. Accepted enc ms s z.encoder) e taken, h))
    restart R y (fails r, z) e h = tt
    restart R y (throws t, z) e h = tt

-- The same with a weaker invariant.
pub loosen :
    {W E A : Type 0} (enc : IEncoder E) (I J : Exporter W E → Type 0)
    (R : List NodeIntermediateModel → A → Type 0) (x : Exporter W E) (m : Outcome A × Exporter W E)
    → ((y : Exporter W E) → I y → J y)
    → Gives enc I R x m
    → Gives enc J R x m
loosen enc I J R x (ok a, y) f (i, h) = (f y i, h)
loosen enc I J R x (fails r, y) f h = tt
loosen enc I J R x (throws t, y) f h = tt
