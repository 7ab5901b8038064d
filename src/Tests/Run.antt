-- ===== src/Tests/Run.antt =====
-- StartExport, run.
use open62541_nodeset_export.Prelude.{List, Text, [], codes, refl, ℕ, ◌++◌, ◌∷◌, ◌≡◌}
use open62541_nodeset_export.Loop.Aliases.{
  add_alias, add_data_type, add_reference_types, data_type_step, find_alias, get_aliases,
  node_aliases,
}
use open62541_nodeset_export.Loop.Batches.{in_nodes_loop}
use open62541_nodeset_export.Loop.Distinct.{
  check_start_nodes_on_ns0, distinct, distinct_from, is_start_allowed,
}
use open62541_nodeset_export.Loop.ExportNodes.{
  add_node, after_call, count_node, export_node, export_nodes,
}
use open62541_nodeset_export.Loop.Exporter.{Exporter}
use open62541_nodeset_export.Loop.Filters.{
  delete_all_hierarchical_references, delete_failed_references, delete_not_has_subtype_reference,
}
use open62541_nodeset_export.Loop.KepServer.{
  before_last_dot, fix_node, kep_server_ref_fix, new_reverse_reference, parent_text,
  replace_abstract_type, scan_references,
}
use open62541_nodeset_export.Loop.NodeData.{
  choose_parent, create_start_node, export_entry, fill_model, filter_references, is_ignored_node,
  link_start_node, link_to_start_node, node_model,
}
use open62541_nodeset_export.Loop.NodesData.{collect_models, entry_at}
use open62541_nodeset_export.Loop.Options.{Options}
use open62541_nodeset_export.Loop.Parent.{get_base_object_type, get_parent_node_id}
use open62541_nodeset_export.Loop.Requests.{
  assume_start_node, check_references, class_request, get_namespaces, get_node_attributes,
  get_node_classes, get_node_references, read_attributes, reference_request,
}
use open62541_nodeset_export.Loop.StartExport.{
  begin_export, check_class_size, export_aliases, export_at_once, export_in_batches, export_list,
  export_lists, export_models, get_node_data_and_export, get_nodes_data, get_part_of_node_classes,
  ignore_nodes, ignore_nodes_checked, start_export,
}
use open62541_nodeset_export.Loop.StartNode.{
  add_abstract_parents, add_custom_reference_to_node_id, add_start_node_if_not_found,
  count_until_i85, create_attributes_for_start_node,
}
use open62541_nodeset_export.Loop.Wanted.{
  attribute_requests, attributes_of_class, get_common_node_attributes, namespaces_of,
  specific_node_attributes, texts_of,
}
use open62541_nodeset_export.Model.{
  alias_of_attribute, alias_of_value, data_type_text, get_data_type_alias,
  get_node_reference_type_aliases, reference_type_text,
}
use open62541_nodeset_export.Samples.{sample_ua}
use open62541_nodeset_export.Samples.Server.{
  flat_options, plain_options, sample_encoder, sample_exporter, sample_server,
}
use open62541_nodeset_export.Status.{Outcome, ok}
use open62541_nodeset_export.Texts.{compare_text}
use open62541_nodeset_export.Ua.{
  contains_expanded, contains_node_id, expanded_less, expanded_to_string, insert_expanded,
  node_id_less, node_id_to_string, or_error, same_expanded, same_node_id,
}

-- What is left of a run: its outcome and the log of the encoder.
abbrev run : Options → ℕ → Outcome (Unit {0}) × List Text
run opts number =
    let (o, x) =
      start_export sample_ua sample_server sample_encoder (sample_exporter opts number) in
    (o, x.encoder)

abbrev whole_file : ℕ → List Text
whole_file aliases =
    codes "begin"
    ∷ (codes "namespaces" ++ (2 ∷ []))
    ∷ (codes "object" ++ (1 ∷ []))
    ∷ (codes "variable" ++ (2 ∷ []))
    ∷ (codes "aliases" ++ (aliases ∷ []))
    ∷ codes "end"
    ∷ []

-- The nodes in one request, in requests of two nodes, and in the flat mode, where one name less is used.
start_export_runs :
    (run plain_options 0 ≡ (ok tt, whole_file 4))
    × (run plain_options 2 ≡ (ok tt, whole_file 4))
    × (run flat_options 0 ≡ (ok tt, whole_file 3))
unfolding compare_text node_id_less expanded_less same_node_id same_expanded contains_node_id
    contains_expanded insert_expanded or_error node_id_to_string expanded_to_string data_type_text
    alias_of_value alias_of_attribute get_data_type_alias reference_type_text
    get_node_reference_type_aliases get_common_node_attributes specific_node_attributes
    attributes_of_class attribute_requests texts_of namespaces_of delete_failed_references
    delete_all_hierarchical_references delete_not_has_subtype_reference get_nodes_data ignore_nodes
    ignore_nodes_checked export_models check_class_size export_at_once get_part_of_node_classes
    get_node_data_and_export export_in_batches export_list export_lists begin_export export_aliases
    start_export choose_parent is_ignored_node filter_references create_start_node
    link_to_start_node link_start_node fill_model export_entry node_model find_alias add_alias
    add_data_type data_type_step add_reference_types node_aliases get_aliases class_request
    assume_start_node get_node_classes reference_request check_references get_node_references
    read_attributes get_node_attributes get_namespaces in_nodes_loop entry_at collect_models
    before_last_dot parent_text replace_abstract_type scan_references new_reverse_reference fix_node
    kep_server_ref_fix get_parent_node_id get_base_object_type add_custom_reference_to_node_id
    count_until_i85 add_abstract_parents add_start_node_if_not_found
    create_attributes_for_start_node distinct_from distinct is_start_allowed
    check_start_nodes_on_ns0 add_node count_node after_call export_node export_nodes
start_export_runs = (refl, refl, refl)

abbrev pub finished : Exporter ℕ (List Text)
finished = (start_export sample_ua sample_server sample_encoder (sample_exporter plain_options 2)).1

pub sample_export-finished :
    start_export sample_ua sample_server sample_encoder (sample_exporter plain_options 2)
    ≡ (ok tt, finished)
unfolding compare_text node_id_less expanded_less same_node_id same_expanded contains_node_id
    contains_expanded insert_expanded or_error node_id_to_string expanded_to_string data_type_text
    alias_of_value alias_of_attribute get_data_type_alias reference_type_text
    get_node_reference_type_aliases get_common_node_attributes specific_node_attributes
    attributes_of_class attribute_requests texts_of namespaces_of delete_failed_references
    delete_all_hierarchical_references delete_not_has_subtype_reference get_nodes_data ignore_nodes
    ignore_nodes_checked export_models check_class_size export_at_once get_part_of_node_classes
    get_node_data_and_export export_in_batches export_list export_lists begin_export export_aliases
    start_export choose_parent is_ignored_node filter_references create_start_node
    link_to_start_node link_start_node fill_model export_entry node_model find_alias add_alias
    add_data_type data_type_step add_reference_types node_aliases get_aliases class_request
    assume_start_node get_node_classes reference_request check_references get_node_references
    read_attributes get_node_attributes get_namespaces in_nodes_loop entry_at collect_models
    before_last_dot parent_text replace_abstract_type scan_references new_reverse_reference fix_node
    kep_server_ref_fix get_parent_node_id get_base_object_type add_custom_reference_to_node_id
    count_until_i85 add_abstract_parents add_start_node_if_not_found
    create_attributes_for_start_node distinct_from distinct is_start_allowed
    check_start_nodes_on_ns0 add_node count_node after_call export_node export_nodes
sample_export-finished = refl
