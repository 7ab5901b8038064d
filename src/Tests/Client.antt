-- ===== src/Tests/Client.antt =====
-- The theorems about the client and about ExportNodeset, applied.
use open62541_nodeset_export.Prelude.{
  List, Option, Text, [], ap, arith, codes, false, if◌then◌else◌, map, none, refl, some, suc, sym,
  true, zero, ℕ, ◌==◌, ◌∷◌, ◌≡◌,
}
use open62541_nodeset_export.Client.{
  BrowseResponse, BrowseResult, DataValue, ReadValueId, UaClient, add_results, as_class,
  attribute_of, browse_next, class_of, class_of_number, client_read_node_classes,
  client_read_node_data_value, client_read_node_references, client_read_nodes_attributes,
  client_wrapper, fill_attributes, fill_nodes, read_value_ids, set_class, set_classes,
}
use open62541_nodeset_export.Client.Browse.{IsFinite, IsRead, browse_next-IsRead}
use open62541_nodeset_export.Client.RoundTrip.{AllAnswered, client_read_nodes_attributes-values}
use open62541_nodeset_export.ExportNodeset.{ExportResult, export_nodeset}
use open62541_nodeset_export.Interfaces.{NodeAttributesRequestResponse}
use open62541_nodeset_export.Loop.Exporter.{NodeLists}
use open62541_nodeset_export.Samples.{sample_ua}
use open62541_nodeset_export.Samples.Server.{
  id_of, link, plain_options, sample_encoder, sample_server,
}
use open62541_nodeset_export.Status.{Status, ok}
use open62541_nodeset_export.TypeAliases.{scalar_attribute, ua_variant_to_std_variant}
use open62541_nodeset_export.Ua.{AttrValue, scalar, uint32}
use open62541_nodeset_export.Ua.Ids.{ignored_nodeclasses}

-- A connection whose state counts the pages that are left. Every value is the number 7.
abbrev pub sample_page : ℕ → BrowseResult
sample_page n = record {
  status_code = 0;
  references = link 47 true (id_of n) ∷ [];
  continuation_point = if n == 0 then [] else 1 ∷ [];
}

abbrev sample_value : DataValue
sample_value = record {
  status = 0;
  value = some (record {
    type_kind = some 6;
    is_scalar = true;
    array_dimensions_size = 0;
    elements = some (uint32 7 ∷ []);
  });
}

abbrev pub next_page : Text → ℕ → BrowseResponse × ℕ
next_page cp zero = (record { service_result = 0; results = some (sample_page 0 ∷ []) }, 0)
next_page cp (suc n) = (record { service_result = 0; results = some (sample_page n ∷ []) }, n)

abbrev pub sample_client : UaClient ℕ
sample_client = record {
  service_read =
      λ ids n. (record { service_result = 0; results = map (λ id. sample_value) ids }, n);
  service_browse = λ ids most n.
      (record { service_result = 0; results = some (map (λ id. sample_page n) ids) }, n);
  service_browse_next = next_page;
  read_value_attribute = λ id n. (
    (
      2147483648,
      record { type_kind = none; is_scalar = false; array_dimensions_size = 0; elements = none },
    ),
    n,
  );
}

pub sample-IsFinite : IsFinite sample_ua sample_client (λ n. n)
sample-IsFinite cp zero page h more =
    let q : some (sample_page 0 ∷ []) ≡ some (page ∷ []) = h in
    let e : sample_page 0 ≡ page = cc in absurd (more (ap (λ p. p.continuation_point) (sym e)))
sample-IsFinite cp (suc n) page h more = omega arith

browse_next-IsRead_example :
    IsRead sample_ua sample_client
      (1 ∷ [])
      []
      2
      (browse_next sample_ua sample_client 3 (1 ∷ []) [] 2)
browse_next-IsRead_example =
    browse_next-IsRead sample_ua sample_client (λ n. n) sample-IsFinite 3 (1 ∷ []) [] 2
      (omega arith)

abbrev asked_nodes : Option AttrValue → List NodeAttributesRequestResponse
asked_nodes v =
    record { exp_node_id = id_of 1; attrs = (3, v) ∷ (12, v) ∷ [] }
    ∷ record { exp_node_id = id_of 2; attrs = (6, v) ∷ [] }
    ∷ []

abbrev seven : AttrValue
seven = scalar (uint32 7)

read_run :
    client_read_nodes_attributes sample_ua sample_client (asked_nodes none) 0
    ≡ (ok (asked_nodes (some seven)), 0)
unfolding scalar_attribute ua_variant_to_std_variant class_of_number as_class read_value_ids
    class_of set_class set_classes client_read_node_classes attribute_of fill_attributes fill_nodes
    client_read_nodes_attributes browse_next add_results client_read_node_references
    client_read_node_data_value client_wrapper
read_run = refl

client_read_nodes_attributes-values_example :
    (ids : List ReadValueId) × AllAnswered sample_ua sample_client
      (asked_nodes none)
      (asked_nodes (some seven))
      ids
      (sample_client.service_read ids 0).0.results
client_read_nodes_attributes-values_example =
    client_read_nodes_attributes-values sample_ua sample_client (asked_nodes none)
      (asked_nodes (some seven)) 0 0 read_run

abbrev exported_lists : NodeLists
exported_lists = (codes "start", id_of 1 ∷ id_of 2 ∷ id_of 3 ∷ []) ∷ []

abbrev export_run_result : ExportResult (List Text)
export_run_result =
    export_nodeset sample_ua sample_server sample_encoder plain_options exported_lists 2
      ignored_nodeclasses 0 []
