-- ===== src/Loop/Exporter.antt =====
-- The members of NodesetExporterLoop, and its constructor.
pub mod Constructor
use open62541_nodeset_export.Prelude.{List, Text, [], if◌then◌else◌, not, ℕ, ◌&&◌, ◌+◌, ◌∷◌}
use open62541_nodeset_export.Loop.Options.{Options}
use open62541_nodeset_export.Status.{Outcome, ok, runtime_error, throws}
use open62541_nodeset_export.Ua.{ExpandedNodeId, NodeClass, contains_class}

-- ExportedNodes: how many nodes of each class went to the encoder.
pub record ExportedNodes : Type 0 where
  pub object_nodes : ℕ
  pub variable_nodes : ℕ
  pub objecttype_nodes : ℕ
  pub variabletype_nodes : ℕ
  pub referencetype_nodes : ℕ
  pub datatype_nodes : ℕ
  pub method_nodes : ℕ
  pub view_nodes : ℕ
  pub unspecified_nodes : ℕ

abbrev pub no_exported_nodes : ExportedNodes
no_exported_nodes = record {
  object_nodes = 0;
  variable_nodes = 0;
  objecttype_nodes = 0;
  variabletype_nodes = 0;
  referencetype_nodes = 0;
  datatype_nodes = 0;
  method_nodes = 0;
  view_nodes = 0;
  unspecified_nodes = 0;
}

-- GetSumm.
unfoldable pub get_summ : ExportedNodes → ℕ
get_summ n =
    n.object_nodes + n.variable_nodes + n.objecttype_nodes + n.variabletype_nodes
    + n.referencetype_nodes + n.datatype_nodes + n.method_nodes + n.view_nodes

-- A list of nodes under the name of its start node, as in std::map<std::string, std::vector<…>>.
abbrev pub NodeLists : Type 0
NodeLists = List (Text × List ExpandedNodeId)

-- `ignored_nodeclasses` is a static member: it outlives the exporter. The server and the encoder that the
-- source keeps references to come last.
pub record Exporter (W E : Type 0) : Type 0 where
  pub options : Options
  pub node_ids : NodeLists
  pub number_of_max_nodes_to_request_data : ℕ
  pub ignored_nodeclasses : List NodeClass
  pub ignored_node_ids_by_classes : List ExpandedNodeId
  pub node_ids_set_copy : List ExpandedNodeId
  pub exported_nodes : ExportedNodes
  pub server : W
  pub encoder : E

-- std::map::insert into the table of ignored classes.
abbrev pub ignore_class : NodeClass → List NodeClass → List NodeClass
ignore_class c cs = if contains_class cs c then cs else c ∷ cs

-- The four insertions of the flat mode.
unfoldable pub ignore_types : Options → List NodeClass → List NodeClass
ignore_types opts cs =
    if opts.is_enable
    then ignore_class NodeClass.data_type (
        ignore_class NodeClass.reference_type
          (ignore_class NodeClass.variable_type (ignore_class NodeClass.object_type cs)))
    else cs

-- The constructor, over the static table as earlier exporters have left it; then
-- SetNumberOfMaxNodesToRequestData.
unfoldable pub construct :
    {W E : Type 0} → Options → NodeLists → ℕ → List NodeClass → W → E → Outcome (Exporter W E)
unfolding ignore_types
construct opts node_ids number static_ignored server encoder =
    if opts.create_missing_start_node && not opts.is_enable
    then throws runtime_error
    else if opts.allow_abstract_variable && not opts.create_missing_start_node
    then throws runtime_error
    else ok (record {
      options = opts;
      node_ids = node_ids;
      number_of_max_nodes_to_request_data = number;
      ignored_nodeclasses = ignore_types opts static_ignored;
      ignored_node_ids_by_classes = [];
      node_ids_set_copy = [];
      exported_nodes = no_exported_nodes;
      server = server;
      encoder = encoder;
    })
