-- ===== src/Loop/Batches/Tiling.antt =====
-- The ranges of func_in_nodes_loop tile the list.
use open62541_nodeset_export.Prelude.{
  Bool-cases, List, [], arith, drop, drop-length, false, inl, inr, length, ltb, refl, slice-drop,
  suc, sym, true, zero, ℕ, ◌++◌, ◌+◌, ◌-◌, ◌<◌, ◌∷◌, ◌≡◌, ◌≤◌,
}
use open62541_nodeset_export.Effect.{Effect, and_then}
use open62541_nodeset_export.Loop.Batches.{in_nodes_loop, next_range}
use open62541_nodeset_export.Loop.Requests.{NodeRange, slice}
use open62541_nodeset_export.Status.{Outcome, fails, ok, throws}

-- The ranges follow one another from `index` to `size`; none is empty, none larger than `number`.
abbrev pub Tiles : ℕ → ℕ → ℕ → List NodeRange → Type 0
Tiles size number index [] = index ≡ size
Tiles size number index (range ∷ ranges) =
    (range.first ≡ index)
    × (range.first < range.second)
    × (range.second ≤ range.first + number)
    × (range.second ≤ size)
    × Tiles size number range.second ranges

-- The function is called on each range in turn, until a call fails or throws.
abbrev pub for_each :
    {S A : Type 0} → List NodeRange → (NodeRange → A → Effect S A) → A → Effect S A
for_each [] func acc s = (ok acc, s)
for_each (range ∷ ranges) func acc s = and_then (func range acc s) (for_each ranges func)

abbrev pub flat_slices : {B : Type 0} → List NodeRange → List B → List B
flat_slices [] xs = []
flat_slices (range ∷ ranges) xs = slice range xs ++ flat_slices ranges xs

-- Exactly the ranges that the loop makes.
ranges_from : ℕ → ℕ → ℕ → ℕ → List NodeRange
ranges_from zero size number index = []
ranges_from (suc fuel) size number index =
    let range = next_range size number index in
    elim (ltb index size) [ false ↦ [] | true ↦ range ∷ ranges_from fuel size number range.second ]

ranges_from-Tiles :
    (fuel size number index : ℕ)
    → 0 < number
    → index ≤ size
    → size - index < fuel
    → Tiles size number index (ranges_from fuel size number index)
unfolding ranges_from
ranges_from-Tiles zero size number index some_room le h = elim h [ ]
ranges_from-Tiles (suc fuel) size number index some_room le h =
    ground
      (arith, ranges_from-Tiles fuel size number (next_range size number index).second some_room)

module _ {S A : Type 0} (func : NodeRange → A → Effect S A) where
  and_then-cong :
      {B C : Type 0} (m : Outcome B × S) (f g : B → S → Outcome C × S)
      → ((b : B) (s : S) → f b s ≡ g b s)
      → and_then m f ≡ and_then m g
  and_then-cong (ok b, s) f g h = h b s
  and_then-cong (fails r, s) f g h = refl
  and_then-cong (throws x, s) f g h = refl

  loop-for_each :
      (fuel size number index : ℕ) (acc : A) (s : S)
      → 0 < number
      → index ≤ size
      → size - index < fuel
      → in_nodes_loop fuel size number func index acc s
        ≡ for_each (ranges_from fuel size number index) func acc s
  unfolding in_nodes_loop ranges_from
  loop-for_each zero size number index acc s some_room le h = elim h [ ]
  loop-for_each (suc fuel) size number index acc s some_room le h =
      elim (Bool-cases (ltb index size)) [
        | inl more ↦
            let range = next_range size number index in
            rw (more, in_nodes_loop, ranges_from)
              (and_then-cong (func range acc s) _ _ λ acc' s'.
                loop-for_each fuel size number range.second acc' s' some_room (ground arith)
                  (ground arith))
        | inr done ↦ rw (done, in_nodes_loop, ranges_from)
      ]

-- What the tiling means for the data: put end to end, the slices of the ranges are the list.
pub slices-Tiles :
    {B : Type 0} (xs : List B) (number index : ℕ) (ranges : List NodeRange)
    → Tiles (length xs) number index ranges
    → flat_slices ranges xs ≡ drop index xs
slices-Tiles xs number index [] h = sym (rw h (drop-length xs))
slices-Tiles xs number index (range ∷ ranges) (begins, some_node, few, inside, rest) =
    rw (slices-Tiles xs number range.second ranges rest)
      (rw (← begins) (slice-drop range.first range.second xs (omega arith)))

-- With a positive number of nodes per request the loop of StartExport over a list ends: it is the call of
-- the function on ranges that tile the list, each of at least one and at most `number` nodes, up to the
-- first call that fails or throws; put end to end, the slices of the ranges are the list.
pub in_nodes_loop-Tiles :
    {S A B : Type 0} (func : NodeRange → A → Effect S A) (xs : List B) (number : ℕ)
    → 0 < number
    → (ranges : List NodeRange) × Tiles (length xs) number 0 ranges
      × (flat_slices ranges xs ≡ xs)
      × ((acc : A) (s : S)
          → in_nodes_loop (suc (length xs)) (length xs) number func 0 acc s
            ≡ for_each ranges func acc s)
in_nodes_loop-Tiles func xs number some_room =
    let size = length xs in
    let ranges = ranges_from (suc size) size number 0 in
    let tiles = ranges_from-Tiles (suc size) size number 0 some_room (omega arith) (omega arith) in
    (
      ranges,
      tiles,
      slices-Tiles xs number 0 ranges tiles,
      λ acc s.
          loop-for_each func (suc size) size number 0 acc s some_room (omega arith) (omega arith),
    )
