-- ===== src/Containers/Heap.antt =====
-- How many objects live at an address.
use open62541_nodeset_export.Prelude.{
  Bool, Bool-cases, List, Option, [], arith, false, if◌then◌else◌, inl, inr, refl, some, true, ℕ,
  ◌+◌, ◌==◌, ◌∷◌, ◌≡◌, ◌≤◌,
}
use open62541_nodeset_export.Containers.{find_cell, remove_cell}

abbrev pub hit : ℕ → ℕ → ℕ
hit p q = if p == q then 1 else 0

pub hit_refl : (p : ℕ) → hit p p ≡ 1
hit_refl p = ground arith

pub hit-le : (p q : ℕ) → hit p q ≤ 1
hit-le p q = ground arith

module _ {A : Type 0} where
  abbrev pub live : ℕ → List (ℕ × A) → ℕ
  live q [] = 0
  live q ((p, v) ∷ cells) = hit p q + live q cells

  pub live-remove_cell :
      (p q : ℕ) (cells : List (ℕ × A))
      → 1 ≤ live p cells
      → live q (remove_cell p cells) + hit p q ≡ live q cells
  live-remove_cell p q [] h = omega (arith, h)
  live-remove_cell p q ((r, v) ∷ cells) h = elim (Bool-cases (r == p)) [
    | inl b ↦ let e : r ≡ p = ground arith in rw (b, e) (omega arith)
    | inr b ↦
        let k = rw b at h in
        let ih = live-remove_cell p q cells (omega (arith, k)) in rw b (omega (arith, ih))
  ]

  found_later :
      (b : Bool) (v : A) (o : Option A)
      → b ≡ false
      → (u : A) × (o ≡ some u)
      → (u : A) × ((if b then some v else o) ≡ some u)
  found_later true v o e h = cc
  found_later false v o e h = h

  pub find_cell-live :
      (p : ℕ) (cells : List (ℕ × A)) → 1 ≤ live p cells → (v : A) × (find_cell p cells ≡ some v)
  find_cell-live p [] h = absurd (omega (arith, h))
  find_cell-live p ((r, v) ∷ cells) h = elim (Bool-cases (r == p)) [
    | inl b ↦ (v, rw b refl)
    | inr b ↦
        let k = rw b at h in
        found_later (r == p) v (find_cell p cells) b (find_cell-live p cells (omega (arith, k)))
  ]
