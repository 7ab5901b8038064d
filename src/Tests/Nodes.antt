-- ===== src/Tests/Nodes.antt =====
-- The theorems about one node, applied to the nodes of the sample.
use open62541_nodeset_export.Prelude.{
  All, List, Option, [], false, inl, inr, none, refl, some, true, ℕ, ◌++◌, ◌↔◌, ◌∷◌, ◌≡◌, ◌⊎◌,
}
use open62541_nodeset_export.Loop.Filters.{
  delete_all_hierarchical_references, delete_failed_references, delete_not_has_subtype_reference,
}
use open62541_nodeset_export.Loop.Filters.Exact.{
  delete_all_hierarchical_references-exact, delete_failed_references-exact,
  delete_not_has_subtype_reference-exact,
}
use open62541_nodeset_export.Loop.NodeData.{
  Context, Entry, choose_parent, create_start_node, export_entry, fill_model, filter_references,
  is_ignored_node, link_start_node, link_to_start_node, node_model,
}
use open62541_nodeset_export.Loop.NodeData.Flat.{node_model-flat}
use open62541_nodeset_export.Loop.NodeData.Parents.{IsExportable, node_model-IsExportable}
use open62541_nodeset_export.Loop.NodeData.Safe.{node_model-total}
use open62541_nodeset_export.Loop.NodeData.Start.{node_model-start}
use open62541_nodeset_export.Loop.Options.{Options}
use open62541_nodeset_export.Loop.Parent.{get_base_object_type, get_parent_node_id}
use open62541_nodeset_export.Loop.Parent.First.{IsParentReference, get_parent_node_id-first}
use open62541_nodeset_export.Loop.StartNode.{add_abstract_parents}
use open62541_nodeset_export.Model.{Attributes, NodeIntermediateModel}
use open62541_nodeset_export.Prelude.Member.{In}
use open62541_nodeset_export.Samples.{sample_laws, sample_ua}
use open62541_nodeset_export.Samples.Server.{flat_options, id_of, link, plain_options}
use open62541_nodeset_export.Status.{ok}
use open62541_nodeset_export.Texts.{compare_text}
use open62541_nodeset_export.Ua.{
  NodeClass, ReferenceDescription, contains_expanded, contains_node_id, expanded_less,
  expanded_to_string, insert_expanded, node_id_less, node_id_to_string, ns0_expanded, ns0_node_id,
  or_error, same_expanded, same_node_id,
}
use open62541_nodeset_export.Ua.Ids.{
  has_subtype, hierarchical_references, ignored_nodeclasses, objects_folder, types_nodeclasses,
}

abbrev context : Options → Context
context opts = record {
  options = opts;
  ignored_nodeclasses = ignored_nodeclasses;
  ignored_node_ids_by_classes = id_of 3 ∷ [];
  node_ids_set_copy = id_of 1 ∷ id_of 2 ∷ id_of 3 ∷ [];
  start_node_id = id_of 1;
}

abbrev data_type_asked : Attributes
data_type_asked = (14, none) ∷ []

-- The variable, as the second node of the list.
abbrev variable_entry : Entry
variable_entry = record {
  index = 1;
  exp_node_id = id_of 2;
  node_class = NodeClass.variable;
  attrs = data_type_asked;
  references =
      link 47 false (id_of 1) ∷ link 40 true (ns0_expanded 63) ∷ link 47 true (id_of 3) ∷ [];
}

abbrev variable_model : NodeIntermediateModel
variable_model = record {
  exp_node_id = id_of 2;
  parent_node_id = id_of 1;
  node_class = NodeClass.variable;
  references = link 47 false (id_of 1) ∷ link 40 true (ns0_expanded 63) ∷ [];
  attributes = data_type_asked;
}

variable_run :
    node_model sample_ua (context plain_options) variable_entry ≡ ok (some variable_model)
unfolding compare_text node_id_less expanded_less same_node_id same_expanded contains_node_id
    contains_expanded insert_expanded or_error node_id_to_string expanded_to_string
    delete_failed_references delete_all_hierarchical_references delete_not_has_subtype_reference
    choose_parent is_ignored_node filter_references create_start_node link_to_start_node
    link_start_node fill_model export_entry node_model get_parent_node_id get_base_object_type
variable_run = refl

node_model-IsExportable_example : IsExportable (context plain_options) variable_entry variable_model
node_model-IsExportable_example =
    node_model-IsExportable sample_laws (context plain_options) variable_entry variable_model
      variable_run

-- A start node with the names that the flat mode writes.
abbrev start_entry : Entry
start_entry = record {
  index = 0;
  exp_node_id = id_of 1;
  node_class = NodeClass.object;
  attrs = (3, none) ∷ (4, none) ∷ (5, none) ∷ [];
  references = link 47 true (id_of 2) ∷ link 35 false (id_of 7) ∷ [];
}

abbrev creating_options : Options
creating_options = record flat_options { create_missing_start_node = true }

node_model-total_example :
    (r : Option NodeIntermediateModel) × (node_model sample_ua
        (context creating_options)
        start_entry
      ≡ ok r)
node_model-total_example =
    node_model-total sample_laws (context creating_options) start_entry
      (λ create first. ((none, refl), (none, refl), (none, refl)))

kept_entry :
    (opts : Options)
    → opts.ns0_custom_nodes_ready_to_work ≡ false
    → (index : ℕ)
    → is_ignored_node sample_ua (context opts) (record variable_entry { index = index }) ≡ false
unfolding choose_parent is_ignored_node filter_references create_start_node link_to_start_node
    link_start_node fill_model export_entry node_model
kept_entry opts h index = rw h

variable_plain : In NodeClass.variable types_nodeclasses → ⊥
variable_plain (inl h) = cc
variable_plain (inr (inl h)) = cc
variable_plain (inr (inr (inl h))) = cc
variable_plain (inr (inr (inr (inl h)))) = cc
variable_plain (inr (inr (inr (inr h)))) = elim h [ ]

node_model-flat_example :
    node_model sample_ua (context flat_options) variable_entry
    ≡ ok (
        some (record {
          exp_node_id = id_of 2;
          parent_node_id = id_of 1;
          node_class = NodeClass.variable;
          references =
              link 35 false (id_of 1)
              ∷ delete_all_hierarchical_references sample_ua variable_entry.references;
          attributes = data_type_asked;
        }))
node_model-flat_example =
    node_model-flat sample_ua (context flat_options) variable_entry refl (λ h. cc)
      (kept_entry flat_options refl 1) variable_plain

start_kept :
    (opts : Options)
    → opts.ns0_custom_nodes_ready_to_work ≡ false
    → is_ignored_node sample_ua (context opts) start_entry ≡ false
unfolding choose_parent is_ignored_node filter_references create_start_node link_to_start_node
    link_start_node fill_model export_entry node_model
start_kept opts h = rw h

object_plain : In NodeClass.object types_nodeclasses → ⊥
object_plain (inl h) = cc
object_plain (inr (inl h)) = cc
object_plain (inr (inr (inl h))) = cc
object_plain (inr (inr (inr (inl h)))) = cc
object_plain (inr (inr (inr (inr h)))) = elim h [ ]

-- Of its references only the reverse one is left: the target of the other is ignored.
abbrev start_references : List ReferenceDescription
start_references = link 47 true (id_of 2) ∷ []

start_created :
    create_start_node sample_ua
      (context plain_options)
      start_entry
      (filter_references sample_ua (context plain_options) start_entry)
    ≡ ok (start_entry.attrs, start_references)
unfolding compare_text node_id_less expanded_less same_node_id same_expanded contains_node_id
    contains_expanded insert_expanded or_error node_id_to_string expanded_to_string
    delete_failed_references delete_all_hierarchical_references delete_not_has_subtype_reference
    choose_parent is_ignored_node filter_references create_start_node link_to_start_node
    link_start_node fill_model export_entry node_model
start_created = refl

node_model-start_example :
    node_model sample_ua (context plain_options) start_entry
    ≡ ok (
        some (record {
          exp_node_id = id_of 1;
          parent_node_id = ns0_expanded 85;
          node_class = NodeClass.object;
          references =
              link 35 false (ns0_expanded 85)
              ∷ add_abstract_parents sample_ua plain_options start_references;
          attributes = start_entry.attrs;
        }))
node_model-start_example =
    node_model-start sample_laws (context plain_options) start_entry start_entry.attrs
      start_references refl (start_kept plain_options refl) object_plain start_created
      ((λ h. cc), tt)

-- A type under which no reverse reference is left.
abbrev type_entry : Entry
type_entry = record start_entry {
  node_class = NodeClass.object_type;
  references = link 47 true (id_of 2) ∷ [];
}

delete_failed_references-exact_example :
    In (link 47 true (id_of 3)) (
      delete_failed_references sample_ua
        (id_of 3 ∷ [])
        (id_of 1 ∷ id_of 3 ∷ [])
        variable_entry.references)
    ↔ (In (link 47 true (id_of 3)) variable_entry.references
        × (((id_of 3).node_id.namespace_index ≡ 0)
            ⊎ ((In (id_of 3) (id_of 3 ∷ []) → ⊥) × In (id_of 3) (id_of 1 ∷ id_of 3 ∷ []))))
delete_failed_references-exact_example =
    delete_failed_references-exact sample_laws (id_of 3 ∷ []) (id_of 1 ∷ id_of 3 ∷ [])
      variable_entry.references (link 47 true (id_of 3))

delete_all_hierarchical_references-exact_example :
    In
      (link 40 true (ns0_expanded 63))
      (delete_all_hierarchical_references sample_ua variable_entry.references)
    ↔ (In (link 40 true (ns0_expanded 63)) variable_entry.references
        × (In (ns0_node_id 40) hierarchical_references → ⊥))
delete_all_hierarchical_references-exact_example =
    delete_all_hierarchical_references-exact sample_laws variable_entry.references
      (link 40 true (ns0_expanded 63))

abbrev type_references : List ReferenceDescription
type_references = link 45 false (ns0_expanded 58) ∷ link 35 false (id_of 7) ∷ []

delete_not_has_subtype_reference-exact_example :
    (In NodeClass.object_type types_nodeclasses
      → In
          (link 35 false (id_of 7))
          (delete_not_has_subtype_reference sample_ua NodeClass.object_type type_references)
        ↔ (In (link 35 false (id_of 7)) type_references
            × ((false ≡ true)
                ⊎ (ns0_node_id 35 ≡ has_subtype)
                ⊎ ((id_of 7).node_id ≡ objects_folder))))
    × ((In NodeClass.object_type types_nodeclasses → ⊥)
        → delete_not_has_subtype_reference sample_ua NodeClass.object_type type_references
          ≡ type_references)
delete_not_has_subtype_reference-exact_example =
    delete_not_has_subtype_reference-exact sample_laws NodeClass.object_type type_references
      (link 35 false (id_of 7))

get_parent_node_id-first_example :
    ((before : List ReferenceDescription) × (ref : ReferenceDescription) × (after : List
        ReferenceDescription)
      × (variable_entry.references ≡ before ++ (ref ∷ after))
      × All (λ r. IsParentReference NodeClass.variable r → ⊥) before
      × IsParentReference NodeClass.variable ref
      × (get_parent_node_id sample_ua NodeClass.variable variable_entry.references
          ≡ some ref.node_id))
    ⊎ (All (λ r. IsParentReference NodeClass.variable r → ⊥) variable_entry.references
        × (get_parent_node_id sample_ua NodeClass.variable variable_entry.references ≡ none))
get_parent_node_id-first_example =
    get_parent_node_id-first sample_laws NodeClass.variable variable_entry.references
