-- ===== src/Tests/Browse.antt =====
-- A server with a chain of nodes, browsed from its top.
use open62541_nodeset_export.Prelude.{
  List, [], arith, map, refl, some, suc, true, zero, ℕ, ◌++◌, ◌∷◌, ◌≡◌,
}
use open62541_nodeset_export.BrowseOperations.{
  BrowseDescription, browse_description, call_for_references, call_for_results, expanded,
  for_each_child_node_call, grab_child_node_ids_from_start_node_id, grab_round, grab_rounds,
  node_iterator_callback, returned,
}
use open62541_nodeset_export.BrowseOperations.Closure.{
  Below, IsGrabbed, IsTiered, grab_child_node_ids_from_start_node_id-IsGrabbed,
}
use open62541_nodeset_export.Client.{BrowseResponse}
use open62541_nodeset_export.Samples.{sample_ua}
use open62541_nodeset_export.Samples.Server.{id_of, link}
use open62541_nodeset_export.Status.{Status}
use open62541_nodeset_export.Ua.{
  ExpandedNodeId, Identifier, ReferenceDescription, byte_string, guid, numeric, string,
}

abbrev down : Identifier → List ReferenceDescription
down (numeric (suc n)) = link 47 true (id_of n) ∷ []
down _ = []

-- The state counts the calls.
abbrev chain : BrowseDescription → ℕ → BrowseResponse × ℕ
chain d calls = (
  record {
    service_result = 0;
    results = some (
        record {
          status_code = 0;
          references = down d.browsed_id.identifier;
          continuation_point = [];
        }
        ∷ []);
  },
  suc calls,
)

abbrev rank_of : Identifier → ℕ
rank_of (numeric n) = n
rank_of _ = 0

abbrev rank : ExpandedNodeId → ℕ
rank id = rank_of id.node_id.identifier

down-Below :
    (i : Identifier)
    → Below sample_ua chain rank
        (rank_of i)
        (map (λ ref. expanded ref.node_id.node_id) (down i) ++ [])
down-Below (numeric zero) = tt
down-Below (numeric (suc n)) = (omega arith, tt)
down-Below (string s) = tt
down-Below (guid g) = tt
down-Below (byte_string s) = tt

chain-IsTiered : IsTiered sample_ua chain rank
unfolding browse_description
chain-IsTiered id calls = down-Below id.node_id.identifier

grab_run :
    grab_child_node_ids_from_start_node_id sample_ua chain 3 (id_of 2) [] 0
    ≡ returned Status.good (id_of 2 ∷ id_of 1 ∷ id_of 0 ∷ []) 3
unfolding grab_child_node_ids_from_start_node_id grab_rounds grab_round for_each_child_node_call
    call_for_results call_for_references node_iterator_callback browse_description
grab_run = refl

grab_child_node_ids_from_start_node_id-IsGrabbed_example :
    IsGrabbed sample_ua chain rank
      (id_of 2 ∷ [])
      0
      (grab_child_node_ids_from_start_node_id sample_ua chain 3 (id_of 2) [] 0)
grab_child_node_ids_from_start_node_id-IsGrabbed_example =
    grab_child_node_ids_from_start_node_id-IsGrabbed sample_ua chain rank chain-IsTiered 3 (id_of 2)
      [] 0 (omega arith, tt)
