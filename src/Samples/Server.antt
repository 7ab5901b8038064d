-- ===== src/Samples/Server.antt =====
-- A server with one object, a variable and a method under it, an encoder that keeps a log, and exporters
-- for them.
use open62541_nodeset_export.Prelude.{
  Bool, List, Text, [], codes, false, if◌then◌else◌, length, map, some, suc, true, ℕ, ◌++◌, ◌+◌,
  ◌==◌, ◌∷◌,
}
use open62541_nodeset_export.Effect.{Effect}
use open62541_nodeset_export.Interfaces.{
  IEncoder, IOpen62541, NodeAttributesRequestResponse, NodeClassesRequestResponse,
  NodeReferencesRequestResponse,
}
use open62541_nodeset_export.Loop.Exporter.{Exporter, no_exported_nodes}
use open62541_nodeset_export.Loop.Options.{Options}
use open62541_nodeset_export.Model.{NodeIntermediateModel, assign_attribute}
use open62541_nodeset_export.Samples.{sample_ua}
use open62541_nodeset_export.Status.{ok}
use open62541_nodeset_export.Ua.{
  ExpandedNodeId, NodeClass, ReferenceDescription, Scalar, Variant, node_id_value, ns0_expanded,
  ns0_node_id, numeric, qualified_name, scalar, text_value,
}
use open62541_nodeset_export.Ua.Ids.{ignored_nodeclasses}

abbrev pub id_of : ℕ → ExpandedNodeId
id_of n = record {
  node_id = record { namespace_index = 2; identifier = numeric n };
  namespace_uri = [];
  server_index = 0;
}

abbrev pub link : ℕ → Bool → ExpandedNodeId → ReferenceDescription
link type_id is_forward target = record {
  reference_type_id = ns0_node_id type_id;
  is_forward = is_forward;
  node_id = target;
}

-- Organizes is 35, HasComponent 47 and HasTypeDefinition 40.
abbrev references_of_number : ℕ → List ReferenceDescription
references_of_number n =
    if n == 1
    then link 35 false (ns0_expanded 85)
      ∷ link 47 true (id_of 2)
      ∷ link 47 true (id_of 3)
      ∷ link 40 true (ns0_expanded 58)
      ∷ []
    else if n == 2
    then link 47 false (id_of 1) ∷ link 40 true (ns0_expanded 62) ∷ []
    else link 47 false (id_of 1) ∷ []

abbrev number_of : ExpandedNodeId → ℕ
number_of id = sample_ua.numeric_member id.node_id.identifier

abbrev class_of_number : ℕ → NodeClass
class_of_number n =
    if n == 1 then NodeClass.object else if n == 2 then NodeClass.variable else NodeClass.method

abbrev answer_class : NodeClassesRequestResponse → NodeClassesRequestResponse
answer_class r = record r { node_class = class_of_number (number_of r.exp_node_id) }

abbrev answer_references : NodeReferencesRequestResponse → NodeReferencesRequestResponse
answer_references r = record r { references = references_of_number (number_of r.exp_node_id) }

abbrev pub name_of_number : ℕ → Scalar
name_of_number n = qualified_name (record { namespace_index = 2; name = b'n' ∷ (b'0' + n) ∷ [] })

-- The data type of every variable is Int32, and a node is named after its number.
abbrev answer_attributes : NodeAttributesRequestResponse → NodeAttributesRequestResponse
answer_attributes r = record r {
  attrs =
      assign_attribute 3 (some (scalar (name_of_number (number_of r.exp_node_id))))
        (assign_attribute 14 (some (scalar (node_id_value (ns0_node_id 6)))) r.attrs);
}

abbrev namespace_array : Variant
namespace_array = record {
  type_kind = some 11;
  is_scalar = false;
  array_dimensions_size = 0;
  elements =
      some (text_value (codes "ua") ∷ text_value (codes "di") ∷ text_value (codes "my") ∷ []);
}

-- The state of the server counts the requests.
abbrev pub sample_server : IOpen62541 ℕ
sample_server = record {
  read_node_classes = λ rs n. (ok (map answer_class rs), suc n);
  read_node_references = λ rs n. (ok (map answer_references rs), suc n);
  read_nodes_attributes = λ rs n. (ok (map answer_attributes rs), suc n);
  read_node_data_value = λ id n. (ok namespace_array, suc n);
}

abbrev log : Text → Effect (List Text) (Unit {0})
log t lines = (ok tt, lines ++ (t ∷ []))

abbrev log_node : Text → NodeIntermediateModel → Effect (List Text) (Unit {0})
log_node t m = log (t ++ (number_of m.exp_node_id ∷ []))

abbrev pub sample_encoder : IEncoder (List Text)
sample_encoder = record {
  begin = log (codes "begin");
  end = log (codes "end");
  add_namespaces = λ ns. log (codes "namespaces" ++ (length ns ∷ []));
  add_aliases = λ aliases. log (codes "aliases" ++ (length aliases ∷ []));
  add_node_object = log_node (codes "object");
  add_node_object_type = log_node (codes "object type");
  add_node_variable = log_node (codes "variable");
  add_node_variable_type = log_node (codes "variable type");
  add_node_reference_type = log_node (codes "reference type");
  add_node_data_type = log_node (codes "data type");
}

abbrev pub plain_options : Options
plain_options = record {
  ns0_custom_nodes_ready_to_work = false;
  is_enable = false;
  create_missing_start_node = false;
  allow_abstract_variable = false;
  parent_start_node_replacer = ns0_expanded 85;
}

abbrev pub flat_options : Options
flat_options = record plain_options { is_enable = true }

abbrev pub sample_exporter : Options → ℕ → Exporter ℕ (List Text)
sample_exporter opts number = record {
  options = opts;
  node_ids = (codes "start", id_of 1 ∷ id_of 2 ∷ id_of 3 ∷ id_of 2 ∷ []) ∷ [];
  number_of_max_nodes_to_request_data = number;
  ignored_nodeclasses = ignored_nodeclasses;
  ignored_node_ids_by_classes = [];
  node_ids_set_copy = [];
  exported_nodes = no_exported_nodes;
  server = 0;
  encoder = [];
}
