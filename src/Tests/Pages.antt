-- ===== src/Tests/Pages.antt =====
-- Two nodes, the first with two pages of references and the second with one.
use open62541_nodeset_export.Prelude.{List, [], arith, refl, suc, true, zero, ◌∷◌, ◌≡◌}
use open62541_nodeset_export.Client.{BrowseResult, add_results, browse_next}
use open62541_nodeset_export.Client.References.{IsAdded, IsSinking, add_results-IsAdded}
use open62541_nodeset_export.Interfaces.{NodeReferencesRequestResponse}
use open62541_nodeset_export.Samples.{sample_ua}
use open62541_nodeset_export.Samples.Server.{id_of, link}
use open62541_nodeset_export.Status.{ok}
use open62541_nodeset_export.Tests.Client.{sample-IsFinite, sample_client, sample_page}

abbrev two_nodes : List NodeReferencesRequestResponse
two_nodes =
    record { exp_node_id = id_of 1; references = [] }
    ∷ record { exp_node_id = id_of 2; references = [] }
    ∷ []

abbrev two_results : List BrowseResult
two_results = sample_page 1 ∷ sample_page 0 ∷ []

pages_run : add_results sample_ua sample_client 3 two_nodes two_results 1 ≡ (
  ok (
      record {
        exp_node_id = id_of 1;
        references = link 47 true (id_of 1) ∷ link 47 true (id_of 0) ∷ [];
      }
      ∷ record { exp_node_id = id_of 2; references = link 47 true (id_of 0) ∷ [] }
      ∷ []),
  0,
)
unfolding add_results browse_next
pages_run = refl

sample-IsSinking : IsSinking sample_ua sample_client (λ n. n)
sample-IsSinking cp zero = omega arith
sample-IsSinking cp (suc n) = omega arith

add_results-IsAdded_example :
    IsAdded sample_ua sample_client two_nodes two_results 1
      (add_results sample_ua sample_client 3 two_nodes two_results 1)
add_results-IsAdded_example =
    add_results-IsAdded sample_ua sample_client (λ n. n) sample-IsFinite sample-IsSinking 3
      two_nodes two_results 1 (omega arith)
