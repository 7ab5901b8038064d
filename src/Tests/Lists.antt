-- ===== src/Tests/Lists.antt =====
-- The theorems about lists of nodes and about whole exports, applied.
use open62541_nodeset_export.Prelude.{
  List, Text, [], arith, codes, inl, inr, refl, suc, ℕ, ◌++◌, ◌↔◌, ◌∷◌, ◌≡◌,
}
use open62541_nodeset_export.Effect.{Effect}
use open62541_nodeset_export.Loop.Batches.{in_nodes_loop}
use open62541_nodeset_export.Loop.Batches.Tiling.{Tiles, flat_slices, for_each, in_nodes_loop-Tiles}
use open62541_nodeset_export.Loop.Distinct.{check_start_nodes_on_ns0, distinct}
use open62541_nodeset_export.Loop.Distinct.Ns0.{
  AllStartsAllowed, IsAllowedStart, SomeStartRefused, check_start_nodes_on_ns0-exact,
}
use open62541_nodeset_export.Loop.Distinct.Unique.{IsSubsequence, distinct_unique}
use open62541_nodeset_export.Loop.Exporter.{Exporter, NodeLists}
use open62541_nodeset_export.Loop.Requests.{NodeRange}
use open62541_nodeset_export.Loop.StartExport.{start_export}
use open62541_nodeset_export.Loop.StartExport.Codes.{
  FailsOwn, start_export-FailsOwn, start_export-refused,
}
use open62541_nodeset_export.Prelude.Member.{In, IsDistinct}
use open62541_nodeset_export.Samples.{sample_laws, sample_ua}
use open62541_nodeset_export.Samples.Server.{
  id_of, plain_options, sample_encoder, sample_exporter, sample_server,
}
use open62541_nodeset_export.Status.{Status, failed_check_ns0_start_nodes, fails, of_sub_status, ok}
use open62541_nodeset_export.Ua.{ExpandedNodeId, ns0_expanded}

distinct_unique_example :
    (rest seen : List ExpandedNodeId) × (distinct sample_ua (id_of 1 ∷ id_of 2 ∷ id_of 1 ∷ [])
      ≡ ok (id_of 1 ∷ rest, seen))
    × IsDistinct (id_of 1 ∷ rest)
    × IsSubsequence (id_of 1 ∷ rest) (id_of 1 ∷ id_of 2 ∷ id_of 1 ∷ [])
    × ((x : ExpandedNodeId) → In x (id_of 1 ∷ id_of 2 ∷ id_of 1 ∷ []) ↔ In x (id_of 1 ∷ rest))
    × ((x : ExpandedNodeId) → In x seen ↔ In x (id_of 1 ∷ rest))
distinct_unique_example = distinct_unique sample_laws (id_of 1) (id_of 2 ∷ id_of 1 ∷ [])

abbrev refused_lists : NodeLists
refused_lists =
    (codes "first", id_of 1 ∷ []) ∷ (codes "second", ns0_expanded 2253 ∷ id_of 2 ∷ []) ∷ []

check_start_nodes_on_ns0-exact_example :
    ((check_start_nodes_on_ns0 sample_ua plain_options refused_lists ≡ ok tt)
      ↔ AllStartsAllowed plain_options refused_lists)
    × ((check_start_nodes_on_ns0 sample_ua plain_options refused_lists
          ≡ fails (of_sub_status Status.fail failed_check_ns0_start_nodes))
        ↔ SomeStartRefused plain_options refused_lists)
check_start_nodes_on_ns0-exact_example =
    check_start_nodes_on_ns0-exact sample_laws plain_options refused_lists

not_allowed : IsAllowedStart plain_options (ns0_expanded 2253) → ⊥
not_allowed (inl h) = cc
not_allowed (inr (inl h)) = cc
not_allowed (inr (inr h)) = h.1 refl

abbrev refused_exporter : Exporter ℕ (List Text)
refused_exporter = record (sample_exporter plain_options 0) { node_ids = refused_lists }

start_export-refused_example :
    start_export sample_ua sample_server sample_encoder refused_exporter
    ≡ (fails (of_sub_status Status.fail failed_check_ns0_start_nodes), refused_exporter)
start_export-refused_example =
    start_export-refused sample_ua sample_server sample_encoder sample_laws refused_exporter
      (id_of 1, refl, inr (ns0_expanded 2253, refl, inl not_allowed))

start_export-FailsOwn_example : FailsOwn (start_export sample_ua sample_server sample_encoder)
start_export-FailsOwn_example = start_export-FailsOwn sample_ua sample_server sample_encoder

-- A function that gathers the first index of each range.
abbrev gather : NodeRange → List ℕ → Effect ℕ (List ℕ)
gather range acc n = (ok (acc ++ (range.first ∷ [])), suc n)

abbrev five : List ℕ
five = 1 ∷ 2 ∷ 3 ∷ 4 ∷ 5 ∷ []

in_nodes_loop-Tiles_example :
    (ranges : List NodeRange) × Tiles 5 2 0 ranges
    × (flat_slices ranges five ≡ five)
    × ((acc : List ℕ) (n : ℕ) → in_nodes_loop 6 5 2 gather 0 acc n ≡ for_each ranges gather acc n)
in_nodes_loop-Tiles_example = in_nodes_loop-Tiles gather five 2 (omega arith)
