-- ===== src/Prelude/Member.antt =====
-- Membership that can be matched, and lists without repetition.
use mathlib.Core.Path.{◌≡◌}
use mathlib.Core.Logic.{◌⊎◌, inl, inr}
use mathlib.Core.List.{List, [], ◌∷◌, ◌++◌}
use open62541_nodeset_export.Prelude.Lists.{All}

module _ {A : Type 0} where
  -- `x` stands somewhere in the list.
  abbrev pub In : A → List A → Type 0
  In x [] = ⊥
  In x (y ∷ ys) = (x ≡ y) ⊎ In x ys

  pub In-append_left : (x : A) (xs ys : List A) → In x xs → In x (xs ++ ys)
  In-append_left x [] ys h = absurd h
  In-append_left x (y ∷ xs) ys (inl e) = inl e
  In-append_left x (y ∷ xs) ys (inr h) = inr (In-append_left x xs ys h)

  pub In-append_right : (x : A) (xs ys : List A) → In x ys → In x (xs ++ ys)
  In-append_right x [] ys h = h
  In-append_right x (y ∷ xs) ys h = inr (In-append_right x xs ys h)

  pub In-append : (x : A) (xs ys : List A) → In x (xs ++ ys) → In x xs ⊎ In x ys
  In-append x [] ys h = inr h
  In-append x (y ∷ xs) ys (inl e) = inl (inl e)
  In-append x (y ∷ xs) ys (inr h) = elim (In-append x xs ys h) [
    | inl m ↦ inl (inr m)
    | inr m ↦ inr m
  ]

  -- No element stands twice.
  abbrev pub IsDistinct : List A → Type 0
  IsDistinct [] = Unit
  IsDistinct (x ∷ xs) = (In x xs → ⊥) × IsDistinct xs

module _ {κ} {A : Type 0} (P : A → Type κ) where
  pub All-In : (x : A) (xs : List A) → All P xs → In x xs → P x
  All-In x [] h m = absurd m
  All-In x (y ∷ xs) h (inl e) = rw e (h.0)
  All-In x (y ∷ xs) h (inr m) = All-In x xs h.1 m
