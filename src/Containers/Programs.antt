-- ===== src/Containers/Programs.antt =====
-- Programs of operations on containers.
use open62541_nodeset_export.Prelude.{All, List, [], ap, arith, none, refl, sym, ℕ, ◌∙◌, ◌∷◌, ◌≡◌}
use open62541_nodeset_export.Containers.{Operation, Slots, World, run_operation}
use open62541_nodeset_export.Containers.Heap.{hit_refl, live}
use open62541_nodeset_export.Containers.Operations.{run_operation-Owned}
use open62541_nodeset_export.Containers.Ownership.{IsAllowed, Owned}
use open62541_nodeset_export.Containers.Slots.{held, holds}
use open62541_nodeset_export.Status.{Outcome, ok, ◌>>=◌}

held-none : (q : ℕ) (slots : Slots) → All (λ d. d ≡ none) slots → held q slots ≡ 0
held-none q [] h = refl
held-none q (d ∷ slots) (one, more) =
    let ih = held-none q slots more in
    let z : holds q d ≡ 0 = ap (holds q) one in omega (arith, ih, z)

module _ {A : Type 0} where
  abbrev pub run_program : List (Operation A) → World A → Outcome (World A)
  run_program [] w = ok w
  run_program (op ∷ ops) w = run_operation op w >>= λ w'. run_program ops w'

  -- Each operation is allowed in the world that it comes to.
  abbrev pub AreAllowed : List (Operation A) → World A → Type 0
  AreAllowed [] w = Unit
  AreAllowed (op ∷ ops) w =
      IsAllowed op w.slots × ((w' : World A) → run_operation op w ≡ ok w' → AreAllowed ops w')

  -- No container is left.
  abbrev pub IsDeserted : World A → Type 0
  IsDeserted w = All (λ d. d ≡ none) w.slots

  no_cells : (cells : List (ℕ × A)) → ((q : ℕ) → live q cells ≡ 0) → cells ≡ []
  no_cells [] h = refl
  no_cells ((p, v) ∷ cells) h = let k = h p in let o = hit_refl p in absurd (omega (arith, k, o))

  run_program-Owned :
      (ops : List (Operation A)) (w : World A)
      → Owned w
      → AreAllowed ops w
      → (w' : World A) × (run_program ops w ≡ ok w') × Owned w'
  run_program-Owned [] w owned h = (w, refl, owned)
  run_program-Owned (op ∷ ops) w owned (one, more) =
      let (w1, step, owned1) = run_operation-Owned op w owned one in
      let (w2, rest, owned2) = run_program-Owned ops w1 owned1 (more w1 step) in
      (w2, ap (λ o. o >>= λ w'. run_program ops w') step ∙ rest, owned2)

  -- A program that uses only containers with objects of their own, and copies none that has been moved from,
  -- has no undefined behaviour: no object is freed twice and none is used after it was freed. At its end each
  -- object is still held by exactly one container, and when all containers are destroyed no object is left.
  pub run_program-IsSafe :
      (ops : List (Operation A)) (w : World A)
      → Owned w
      → AreAllowed ops w
      → (w' : World A) × (run_program ops w ≡ ok w')
        × Owned w'
        × (IsDeserted w' → w'.memory.cells ≡ [])
  run_program-IsSafe ops w owned h =
      let (w', done, owned') = run_program-Owned ops w owned h in
      (
        w',
        done,
        owned',
        (λ empty. no_cells w'.memory.cells λ q. sym (owned'.0 q) ∙ held-none q w'.slots empty),
      )
