-- ===== src/Tests/Program.antt =====
-- The program run on the sample server, from one start node.
use open62541_nodeset_export.Prelude.{
  List, Option, Text, [], codes, false, if◌then◌else◌, none, refl, some, suc, true, ℕ, ◌==◌, ◌∷◌,
  ◌≡◌, ◌⊎◌,
}
use open62541_nodeset_export.Application.{
  ExitCode, Surroundings, browse_lists, check_lists, check_nodes, check_start_node_crossing,
  connect_and_export, emplace_list, export_collected, options_cli_pars, promise_of, run,
  run_with_params, start_export_in_another_thread, stored, success,
}
use open62541_nodeset_export.Application.Crossing.{
  AreCrossed, AreSeparate, check_start_node_crossing-cases,
}
use open62541_nodeset_export.Application.Success.{IsSuccess, run-IsSuccess}
use open62541_nodeset_export.BrowseOperations.{
  BrowseDescription, browse_description, call_for_references, call_for_results,
  for_each_child_node_call, grab_child_node_ids_from_start_node_id, grab_round, grab_rounds,
  node_iterator_callback,
}
use open62541_nodeset_export.Client.{BrowseResponse}
use open62541_nodeset_export.ExportNodeset.{caught, export_nodeset, run_core, status_of}
use open62541_nodeset_export.Loop.Aliases.{
  add_alias, add_data_type, add_reference_types, data_type_step, find_alias, get_aliases,
  node_aliases,
}
use open62541_nodeset_export.Loop.Batches.{in_nodes_loop}
use open62541_nodeset_export.Loop.Distinct.{
  check_start_nodes_on_ns0, distinct, distinct_from, is_start_allowed,
}
use open62541_nodeset_export.Loop.ExportNodes.{
  add_node, after_call, count_node, export_node, export_nodes,
}
use open62541_nodeset_export.Loop.Exporter.{NodeLists, construct, get_summ, ignore_types}
use open62541_nodeset_export.Loop.Filters.{
  delete_all_hierarchical_references, delete_failed_references, delete_not_has_subtype_reference,
}
use open62541_nodeset_export.Loop.KepServer.{
  before_last_dot, fix_node, kep_server_ref_fix, new_reverse_reference, parent_text,
  replace_abstract_type, scan_references,
}
use open62541_nodeset_export.Loop.NodeData.{
  choose_parent, create_start_node, export_entry, fill_model, filter_references, is_ignored_node,
  link_start_node, link_to_start_node, node_model,
}
use open62541_nodeset_export.Loop.NodesData.{collect_models, entry_at}
use open62541_nodeset_export.Loop.Parent.{get_base_object_type, get_parent_node_id}
use open62541_nodeset_export.Loop.Requests.{
  assume_start_node, check_references, class_request, get_namespaces, get_node_attributes,
  get_node_classes, get_node_references, read_attributes, reference_request,
}
use open62541_nodeset_export.Loop.StartExport.{
  begin_export, check_class_size, export_aliases, export_at_once, export_in_batches, export_list,
  export_lists, export_models, get_node_data_and_export, get_nodes_data, get_part_of_node_classes,
  ignore_nodes, ignore_nodes_checked, start_export,
}
use open62541_nodeset_export.Loop.StartNode.{
  add_abstract_parents, add_custom_reference_to_node_id, add_start_node_if_not_found,
  count_until_i85, create_attributes_for_start_node,
}
use open62541_nodeset_export.Loop.Wanted.{
  attribute_requests, attributes_of_class, get_common_node_attributes, namespaces_of,
  specific_node_attributes, texts_of,
}
use open62541_nodeset_export.Model.{
  alias_of_attribute, alias_of_value, data_type_text, get_data_type_alias,
  get_node_reference_type_aliases, reference_type_text,
}
use open62541_nodeset_export.Prelude.Member.{In}
use open62541_nodeset_export.Samples.{sample_laws, sample_ua}
use open62541_nodeset_export.Samples.Server.{id_of, link, sample_encoder, sample_server}
use open62541_nodeset_export.Status.{Status, fails, of_status, ok}
use open62541_nodeset_export.Texts.{compare_text}
use open62541_nodeset_export.Ua.{
  ExpandedNodeId, ReferenceDescription, contains_expanded, contains_node_id, expanded_less,
  expanded_to_string, insert_expanded, node_id_less, node_id_to_string, or_error, same_expanded,
  same_node_id,
}
use open62541_nodeset_export.Ua.Ids.{ignored_nodeclasses}

abbrev top_links : ℕ → List ReferenceDescription
top_links n = if n == 1 then link 47 true (id_of 2) ∷ link 47 true (id_of 3) ∷ [] else []

-- The state counts the calls.
abbrev browse_sample : BrowseDescription → ℕ → BrowseResponse × ℕ
browse_sample d calls = (
  record {
    service_result = 0;
    results = some (
        record {
          status_code = 0;
          references = top_links (sample_ua.numeric_member d.browsed_id.identifier);
          continuation_point = [];
        }
        ∷ []);
  },
  suc calls,
)

abbrev lab : Surroundings ℕ
lab = record {
  command_line = stored false false;
  start_node_ids = codes "ns=2;i=1" ∷ [];
  parent_start_node_replacer = [];
  number_of_max_nodes_to_request_data = 2;
  has_client = true;
  is_connected = true;
  connected = 0;
  is_posted = true;
}

abbrev lab_run : ExitCode × Option (List Text)
lab_run =
    run sample_ua browse_sample (λ calls. false) sample_server sample_encoder 3 lab
      ignored_nodeclasses []

abbrev lab_log : List Text
lab_log = elim lab_run.1 [ none ↦ [] | some lines ↦ lines ]

lab_exit : lab_run ≡ (some success, some lab_log)
unfolding caught status_of run_core export_nodeset compare_text node_id_less expanded_less
    same_node_id same_expanded contains_node_id contains_expanded insert_expanded or_error
    node_id_to_string expanded_to_string data_type_text alias_of_value alias_of_attribute
    get_data_type_alias reference_type_text get_node_reference_type_aliases
    get_common_node_attributes specific_node_attributes attributes_of_class attribute_requests
    texts_of namespaces_of get_summ ignore_types construct delete_failed_references
    delete_all_hierarchical_references delete_not_has_subtype_reference get_nodes_data ignore_nodes
    ignore_nodes_checked export_models check_class_size export_at_once get_part_of_node_classes
    get_node_data_and_export export_in_batches export_list export_lists begin_export export_aliases
    start_export choose_parent is_ignored_node filter_references create_start_node
    link_to_start_node link_start_node fill_model export_entry node_model find_alias add_alias
    add_data_type data_type_step add_reference_types node_aliases get_aliases class_request
    assume_start_node get_node_classes reference_request check_references get_node_references
    read_attributes get_node_attributes get_namespaces in_nodes_loop entry_at collect_models
    before_last_dot parent_text replace_abstract_type scan_references new_reverse_reference fix_node
    kep_server_ref_fix get_parent_node_id get_base_object_type add_custom_reference_to_node_id
    count_until_i85 add_abstract_parents add_start_node_if_not_found
    create_attributes_for_start_node distinct_from distinct is_start_allowed
    check_start_nodes_on_ns0 add_node count_node after_call export_node export_nodes
    options_cli_pars emplace_list check_nodes check_lists check_start_node_crossing browse_lists
    promise_of export_collected start_export_in_another_thread connect_and_export run_with_params
    run browse_description node_iterator_callback call_for_references call_for_results
    for_each_child_node_call grab_round grab_rounds grab_child_node_ids_from_start_node_id
lab_exit = refl

run-IsSuccess_example :
    IsSuccess sample_laws browse_sample
      (λ calls. false)
      sample_server
      sample_encoder
      3
      lab
      ignored_nodeclasses
      []
      lab_log
run-IsSuccess_example =
    run-IsSuccess sample_laws browse_sample (λ calls. false) sample_server sample_encoder 3 lab
      ignored_nodeclasses [] lab_log lab_exit

-- The second start node is found under the first one.
abbrev nested_lists : NodeLists
nested_lists =
    (codes "ns=2;i=1", id_of 1 ∷ id_of 2 ∷ id_of 3 ∷ []) ∷ (codes "ns=2;i=2", id_of 2 ∷ []) ∷ []

check_start_node_crossing-cases_example :
    ((check_start_node_crossing sample_ua nested_lists ≡ ok tt)
      × AreSeparate nested_lists nested_lists)
    ⊎ ((check_start_node_crossing sample_ua nested_lists ≡ fails (of_status Status.fail))
        × ((l : Text × List ExpandedNodeId) × In l nested_lists × AreCrossed l nested_lists))
check_start_node_crossing-cases_example =
    check_start_node_crossing-cases sample_laws nested_lists
      ((id_of 1, id_of 2 ∷ id_of 3 ∷ [], refl), ((id_of 2, [], refl), tt))
