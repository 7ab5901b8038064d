-- ===== src/Tests/Requests.antt =====
-- The theorems about requests, classes and exporters, applied.
use open62541_nodeset_export.Prelude.{
  All, List, Text, [], codes, false, inl, length, map, none, refl, true, ℕ, ◌↔◌, ◌∷◌, ◌≡◌, ◌⊎◌,
}
use open62541_nodeset_export.Interfaces.{
  NodeAttributesRequestResponse, NodeClassesRequestResponse, NodeReferencesRequestResponse,
}
use open62541_nodeset_export.Loop.Exporter.{Exporter, construct, get_summ, ignore_types}
use open62541_nodeset_export.Loop.Exporter.Constructor.{IsRefused, construct-cases}
use open62541_nodeset_export.Loop.Filters.{
  delete_all_hierarchical_references, delete_failed_references, delete_not_has_subtype_reference,
}
use open62541_nodeset_export.Loop.NodeData.{
  Entry, choose_parent, create_start_node, export_entry, fill_model, filter_references,
  is_ignored_node, link_start_node, link_to_start_node, node_model,
}
use open62541_nodeset_export.Loop.NodesData.{Vectors, collect_models, context_of, entry_at}
use open62541_nodeset_export.Loop.NodesData.Shared.{construct-shared_table}
use open62541_nodeset_export.Loop.NodesData.Sound.{AreExported, collect_models-IsExported}
use open62541_nodeset_export.Loop.Options.{Options}
use open62541_nodeset_export.Loop.Parent.{get_base_object_type, get_parent_node_id}
use open62541_nodeset_export.Loop.Requests.{
  NodeRange, assume_start_node, check_references, class_request, get_namespaces,
  get_node_attributes, get_node_classes, get_node_references, read_attributes, reference_request,
  slice,
}
use open62541_nodeset_export.Loop.Requests.Answers.{
  AllReferenced, get_node_attributes-first_ignored, get_node_references-checked,
}
use open62541_nodeset_export.Loop.StartExport.{ignore_nodes, ignore_nodes_checked}
use open62541_nodeset_export.Loop.StartExport.Ignored.{
  AnyBad, HasIgnored, ignore_nodes_checked-cases,
}
use open62541_nodeset_export.Loop.StartNode.{
  add_abstract_parents, add_custom_reference_to_node_id, add_start_node_if_not_found,
  count_until_i85, create_attributes_for_start_node,
}
use open62541_nodeset_export.Loop.Wanted.{
  ask_for, attribute_requests, attributes_of_class, get_common_node_attributes, namespaces_of,
  specific_node_attributes, texts_of,
}
use open62541_nodeset_export.Loop.Wanted.Classes.{AllUnset}
use open62541_nodeset_export.Model.{NodeIntermediateModel}
use open62541_nodeset_export.Prelude.Member.{In}
use open62541_nodeset_export.Samples.{sample_laws, sample_ua}
use open62541_nodeset_export.Samples.Server.{
  flat_options, id_of, link, plain_options, sample_encoder, sample_exporter, sample_server,
}
use open62541_nodeset_export.Status.{Outcome, Status, fails, of_status, ok, runtime_error, throws}
use open62541_nodeset_export.Texts.{compare_text}
use open62541_nodeset_export.Ua.{
  ExpandedNodeId, NodeClass, contains_expanded, contains_node_id, expanded_less, expanded_to_string,
  insert_expanded, node_id_less, node_id_to_string, ns0_expanded, or_error, same_expanded,
  same_node_id,
}
use open62541_nodeset_export.Ua.Ids.{ignored_nodeclasses, types_nodeclasses}

abbrev all_of_it : NodeRange
all_of_it = record { first = 0; second = 2 }

abbrev both_answers : List NodeReferencesRequestResponse
both_answers =
    record {
      exp_node_id = id_of 2;
      references = link 47 false (id_of 1) ∷ link 40 true (ns0_expanded 62) ∷ [];
    }
    ∷ record { exp_node_id = id_of 3; references = link 47 false (id_of 1) ∷ [] }
    ∷ []

references_run :
    get_node_references sample_ua sample_server plain_options (id_of 2 ∷ id_of 3 ∷ []) all_of_it 0
    ≡ (ok both_answers, 1)
unfolding class_request assume_start_node get_node_classes reference_request check_references
    get_node_references read_attributes get_node_attributes get_namespaces
references_run = refl

get_node_references-checked_example :
    (sample_server.read_node_references
        (map
          (reference_request sample_ua sample_server plain_options)
          (slice all_of_it (id_of 2 ∷ id_of 3 ∷ [])))
        0
      ≡ (ok both_answers, 1))
    × (length both_answers ≡ 2)
    × AllReferenced plain_options 0 0 both_answers
get_node_references-checked_example =
    get_node_references-checked sample_ua sample_server plain_options (id_of 2 ∷ id_of 3 ∷ [])
      all_of_it 0 1 both_answers references_run

-- A method before a variable.
abbrev method_first : List NodeClassesRequestResponse
method_first =
    record { exp_node_id = id_of 3; node_class = NodeClass.method; result_code = 0 }
    ∷ record { exp_node_id = id_of 2; node_class = NodeClass.variable; result_code = 2150891520 }
    ∷ []

abbrev method_request : NodeAttributesRequestResponse
method_request = record { exp_node_id = id_of 3; attrs = [] }

abbrev variable_request : NodeAttributesRequestResponse
variable_request = record {
  exp_node_id = id_of 2;
  attrs = ask_for (3 ∷ 4 ∷ 5 ∷ 6 ∷ 7 ∷ 13 ∷ 14 ∷ 15 ∷ 16 ∷ 17 ∷ 18 ∷ 19 ∷ 20 ∷ []);
}

requests_run :
    attribute_requests ignored_nodeclasses (id_of 3 ∷ id_of 2 ∷ []) method_first 2 0
    ≡ ok (method_request ∷ variable_request ∷ [])
unfolding get_common_node_attributes specific_node_attributes attributes_of_class attribute_requests
    texts_of namespaces_of
requests_run = refl

get_node_attributes-first_ignored_example :
    (get_node_attributes sample_server ignored_nodeclasses
        (id_of 3 ∷ id_of 2 ∷ [])
        all_of_it
        method_first
        7
      ≡ (ok (method_request ∷ variable_request ∷ []), 7))
    × All (λ q. AllUnset q.attrs) (method_request ∷ variable_request ∷ [])
get_node_attributes-first_ignored_example =
    get_node_attributes-first_ignored sample_server ignored_nodeclasses (id_of 3 ∷ id_of 2 ∷ [])
      all_of_it method_first method_request (variable_request ∷ []) 7 requests_run refl

ignore_nodes_checked-cases_example :
    ((id : ExpandedNodeId)
      → In id
          (ignore_nodes sample_ua sample_server sample_encoder ignored_nodeclasses method_first [])
        ↔ (In id [] ⊎ HasIgnored ignored_nodeclasses method_first id))
    × ((AnyBad sample_ua method_first
          × ((ignore_nodes_checked sample_ua sample_server sample_encoder ignored_nodeclasses
                method_first []).0
              ≡ fails (of_status Status.fail)))
        ⊎ ((AnyBad sample_ua method_first → ⊥)
            × (ignore_nodes_checked sample_ua sample_server sample_encoder ignored_nodeclasses
                  method_first []
                ≡ (
                  ok tt,
                  ignore_nodes sample_ua sample_server sample_encoder ignored_nodeclasses
                      method_first [],
                ))))
ignore_nodes_checked-cases_example =
    ignore_nodes_checked-cases sample_laws sample_server sample_encoder ignored_nodeclasses
      method_first []

abbrev made : Options → List NodeClass → Outcome (Exporter ℕ (List Text))
made opts table = construct opts ((codes "start", id_of 1 ∷ []) ∷ []) 10 table 0 []

abbrev flat_table : List NodeClass
flat_table = ignore_types flat_options ignored_nodeclasses

abbrev made_exporter : Options → List NodeClass → Exporter ℕ (List Text)
made_exporter opts table = record (sample_exporter opts 10) {
  node_ids = (codes "start", id_of 1 ∷ []) ∷ [];
  ignored_nodeclasses = table;
}

flat_made : made flat_options ignored_nodeclasses ≡ ok (made_exporter flat_options flat_table)
unfolding construct ignore_types
flat_made = refl

plain_made : made plain_options flat_table ≡ ok (made_exporter plain_options flat_table)
unfolding construct ignore_types
plain_made = refl

construct-cases_example :
    (IsRefused flat_options × (made flat_options ignored_nodeclasses ≡ throws runtime_error))
    ⊎ ((IsRefused flat_options → ⊥)
        × ((x : Exporter ℕ (List Text)) × (made flat_options ignored_nodeclasses ≡ ok x)
            × (x.options ≡ flat_options)
            × (x.node_ids ≡ (codes "start", id_of 1 ∷ []) ∷ [])
            × (x.number_of_max_nodes_to_request_data ≡ 10)
            × (get_summ x.exported_nodes ≡ 0)
            × ((c : NodeClass)
                → In c x.ignored_nodeclasses
                  ↔ (In c ignored_nodeclasses ⊎ ((true ≡ true) × In c types_nodeclasses)))))
construct-cases_example =
    construct-cases flat_options ((codes "start", id_of 1 ∷ []) ∷ []) 10 ignored_nodeclasses 0 []

abbrev type_node : Entry
type_node = record {
  index = 1;
  exp_node_id = id_of 5;
  node_class = NodeClass.object_type;
  attrs = [];
  references = link 45 false (ns0_expanded 58) ∷ [];
}

construct-shared_table_example :
    node_model sample_ua (context_of (made_exporter plain_options flat_table) (id_of 1)) type_node
    ≡ ok none
construct-shared_table_example =
    construct-shared_table sample_ua flat_options plain_options ((codes "start", id_of 1 ∷ []) ∷ [])
      ((codes "start", id_of 1 ∷ []) ∷ []) 10 10 ignored_nodeclasses 0 0 [] []
      (made_exporter flat_options flat_table) (made_exporter plain_options flat_table) refl
      flat_made plain_made (id_of 1) type_node (inl refl)

abbrev two_vectors : Vectors
two_vectors = record {
  node_ids = id_of 2 ∷ id_of 3 ∷ [];
  classes =
      record { exp_node_id = id_of 2; node_class = NodeClass.variable; result_code = 0 }
      ∷ record { exp_node_id = id_of 3; node_class = NodeClass.method; result_code = 0 }
      ∷ [];
  attrs = variable_request ∷ method_request ∷ [];
  references = both_answers;
}

abbrev one_model : List NodeIntermediateModel
one_model =
    record {
      exp_node_id = id_of 2;
      parent_node_id = ns0_expanded 85;
      node_class = NodeClass.variable;
      references = link 35 false (ns0_expanded 85) ∷ link 40 true (ns0_expanded 62) ∷ [];
      attributes = variable_request.attrs;
    }
    ∷ []

collected_run :
    collect_models sample_ua (sample_exporter plain_options 0) two_vectors 0 2 0 ≡ ok one_model
unfolding compare_text node_id_less expanded_less same_node_id same_expanded contains_node_id
    contains_expanded insert_expanded or_error node_id_to_string expanded_to_string
    delete_failed_references delete_all_hierarchical_references delete_not_has_subtype_reference
    choose_parent is_ignored_node filter_references create_start_node link_to_start_node
    link_start_node fill_model export_entry node_model entry_at collect_models get_parent_node_id
    get_base_object_type add_custom_reference_to_node_id count_until_i85 add_abstract_parents
    add_start_node_if_not_found create_attributes_for_start_node
collected_run = refl

collect_models-IsExported_example :
    AreExported (sample_exporter plain_options 0) two_vectors 0 2 0 one_model
collect_models-IsExported_example =
    collect_models-IsExported sample_laws (sample_exporter plain_options 0) two_vectors 0 2 0
      one_model collected_run
