-- ===== src/Tests/Lifetimes.antt =====
-- Containers of numbers that are made, copied, moved and destroyed.
use open62541_nodeset_export.Prelude.{List, [], arith, none, refl, subst, sym, ℕ, ◌∙◌, ◌∷◌, ◌≡◌}
use open62541_nodeset_export.Containers.{
  Operation, World, construct_copy_of, copy_assign, copy_construct, copy_make, copy_write, destroy,
  destruct, make, move_assign, move_construct, move_make, move_write, run_operation,
}
use open62541_nodeset_export.Containers.Ownership.{IsAllowed, Owned}
use open62541_nodeset_export.Containers.Programs.{
  AreAllowed, IsDeserted, run_program, run_program-IsSafe,
}
use open62541_nodeset_export.Status.{ok, ok-injective}

abbrev three_variables : World ℕ
three_variables = record {
  memory = record { cells = []; next = 0 };
  slots = none ∷ none ∷ none ∷ [];
}

-- The second container is overwritten by a move, and the emptied one is written again.
abbrev container_program : List (Operation ℕ)
container_program =
    make 0 5 17
    ∷ copy_make 1 0
    ∷ move_write 1 0
    ∷ copy_write 0 1
    ∷ move_make 2 0
    ∷ copy_write 1 1
    ∷ destroy 0
    ∷ destroy 1
    ∷ destroy 2
    ∷ []

three_variables-Owned : Owned three_variables
three_variables-Owned = (λ q. refl, λ q. omega arith, λ q le. refl, (tt, (tt, (tt, tt))))

-- The worlds that a program comes to, one after the other.
abbrev Steps : List (Operation ℕ) → World ℕ → Type 0
Steps [] w = Unit
Steps (op ∷ ops) w =
    (w1 : World ℕ) × (run_operation op w ≡ ok w1) × (IsAllowed op w.slots × Steps ops w1)

Steps-AreAllowed : (ops : List (Operation ℕ)) (w : World ℕ) → Steps ops w → AreAllowed ops w
Steps-AreAllowed [] w h = tt
Steps-AreAllowed (op ∷ ops) w (w1, step, (one, more)) = (
  one,
  (λ w' e. subst (AreAllowed ops) (ok-injective (sym step ∙ e)) (Steps-AreAllowed ops w1 more)),
)

container_program-Steps : Steps container_program three_variables
unfolding run_operation construct_copy_of destruct copy_construct copy_assign move_assign
    move_construct
container_program-Steps = (
  _,
  refl,
  (
    (tt, refl),
    (
      _,
      refl,
      (
        (tt, refl, (0, refl)),
        (
          _,
          refl,
          (
            (tt, tt),
            (
              _,
              refl,
              (
                (tt, (_, refl)),
                (
                  _,
                  refl,
                  (
                    (tt, refl, tt),
                    (
                      _,
                      refl,
                      ((tt, (_, refl)), (_, refl, (tt, (_, refl, (tt, (_, refl, (tt, tt))))))),
                    ),
                  ),
                ),
              ),
            ),
          ),
        ),
      ),
    ),
  ),
)

run_program-IsSafe_example :
    (w : World ℕ) × (run_program container_program three_variables ≡ ok w)
    × Owned w
    × (IsDeserted w → w.memory.cells ≡ [])
run_program-IsSafe_example =
    run_program-IsSafe container_program three_variables three_variables-Owned
      (Steps-AreAllowed container_program three_variables container_program-Steps)
