-- ===== src/Effect.antt =====
-- Calls that change a state and may fail or throw. The state comes back after a failure too, since what
-- was written stays written.
use open62541_nodeset_export.Prelude.{refl, ◌≡◌}
use open62541_nodeset_export.Status.{Outcome, Status, SubStatus, fails, of_sub_status, ok, throws}

abbrev pub Effect : Type 0 → Type 0 → Type 0
Effect S A = S → Outcome A × S

-- Goes on with what a call left.
abbrev pub and_then : {S A B : Type 0} → Outcome A × S → (A → S → Outcome B × S) → Outcome B × S
and_then (ok a, s) f = f a s
and_then (fails r, s) f = (fails r, s)
and_then (throws x, s) f = (throws x, s)

infixl 5 ◌>>=◌
abbrev pub ◌>>=◌ : {S A B : Type 0} → Effect S A → (A → Effect S B) → Effect S B
◌>>=◌ m f s = and_then (m s) f

module _ {S A : Type 0} where
  abbrev pub pure : A → Effect S A
  pure a s = (ok a, s)

  abbrev pub lift : Outcome A → Effect S A
  lift o s = (o, s)

  -- `if (call() == Fail) return StatusResults{Fail, sub};`
  abbrev pub replace_status : SubStatus → Outcome A × S → Outcome A × S
  replace_status sub (ok a, s) = (ok a, s)
  replace_status sub (fails r, s) = (fails (of_sub_status Status.fail sub), s)
  replace_status sub (throws x, s) = (throws x, s)

  abbrev pub or_sub_status : Effect S A → SubStatus → Effect S A
  or_sub_status m sub s = replace_status sub (m s)

-- A successful call, taken apart.
pub and_then-eq-ok :
    {S A B : Type 0} (m : Outcome A × S) (f : A → S → Outcome B × S) (b : B) (t : S)
    → and_then m f ≡ (ok b, t)
    → (a : A) × (s : S) × (m ≡ (ok a, s)) × (f a s ≡ (ok b, t))
and_then-eq-ok (ok a, s) f b t h = (a, s, refl, h)
and_then-eq-ok (fails r, s) f b t h = cc
and_then-eq-ok (throws x, s) f b t h = cc
