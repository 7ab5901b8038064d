-- ===== src/Loop/Batches.antt =====
-- func_in_nodes_loop in StartExport of NodesetExporterLoop.cpp: a list of nodes in ranges of at most
-- `number` nodes. The fuel is the rounds left; `Tiling` proves that one round for each node is enough.
pub mod Tiling
use open62541_nodeset_export.Prelude.{false, if◌then◌else◌, leb, ltb, suc, true, zero, ℕ, ◌+◌, ◌-◌}
use open62541_nodeset_export.Effect.{Effect, and_then}
use open62541_nodeset_export.Loop.Requests.{NodeRange}
use open62541_nodeset_export.Status.{ok, throws, undefined}

abbrev pub next_range : ℕ → ℕ → ℕ → NodeRange
next_range size number index =
    let per_request = if leb number (size - index) then number else size - index in
    record { first = index; second = index + per_request }

-- `acc` is what the function captures by reference.
unfoldable pub in_nodes_loop :
    {S A : Type 0} → ℕ → ℕ → ℕ → (NodeRange → A → Effect S A) → ℕ → A → Effect S A
in_nodes_loop zero size number func index acc s = (throws undefined, s)
in_nodes_loop (suc fuel) size number func index acc s = elim (ltb index size) [
  | false ↦ (ok acc, s)
  | true ↦
      let range = next_range size number index in
      and_then (func range acc s) (λ acc'. in_nodes_loop fuel size number func range.second acc')
]
