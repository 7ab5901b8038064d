-- ===== src/Loop/Options.antt =====
-- NodesetExporterLoop::Options, less the performance timer.
use open62541_nodeset_export.Prelude.{Bool}
use open62541_nodeset_export.Ua.{ExpandedNodeId}

pub record Options : Type 0 where
  pub ns0_custom_nodes_ready_to_work : Bool
  -- The members of flat_list_of_nodes.
  pub is_enable : Bool
  pub create_missing_start_node : Bool
  pub allow_abstract_variable : Bool
  pub parent_start_node_replacer : ExpandedNodeId
