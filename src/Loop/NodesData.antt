-- ===== src/Loop/NodesData.antt =====
-- GetNodesData of NodesetExporterLoop.cpp: the three requests for a range, and the loop over it.
pub mod Sound
pub mod Shared
use open62541_nodeset_export.Prelude.{List, Option, [], none, some, suc, zero, ℕ, ◌-◌, ◌∷◌}
use open62541_nodeset_export.Interfaces.{
  NodeAttributesRequestResponse, NodeClassesRequestResponse, NodeReferencesRequestResponse,
}
use open62541_nodeset_export.Loop.Exporter.{Exporter}
use open62541_nodeset_export.Loop.NodeData.{Context, Entry, node_model}
use open62541_nodeset_export.Model.{NodeIntermediateModel}
use open62541_nodeset_export.Status.{Outcome, at_index, ok, ◌>>=◌}
use open62541_nodeset_export.Ua.{ExpandedNodeId, Ua}

-- A model is added unless the node was dropped.
abbrev pub add_model :
    Option NodeIntermediateModel → List NodeIntermediateModel → List NodeIntermediateModel
add_model none ms = ms
add_model (some m) ms = m ∷ ms

-- What the exporter's members give to the loop body.
abbrev pub context_of : {W E : Type 0} → Exporter W E → ExpandedNodeId → Context
context_of x start = record {
  options = x.options;
  ignored_nodeclasses = x.ignored_nodeclasses;
  ignored_node_ids_by_classes = x.ignored_node_ids_by_classes;
  node_ids_set_copy = x.node_ids_set_copy;
  start_node_id = start;
}

-- The four vectors that the loop reads.
pub record Vectors : Type 0 where
  pub node_ids : List ExpandedNodeId
  pub classes : List NodeClassesRequestResponse
  pub attrs : List NodeAttributesRequestResponse
  pub references : List NodeReferencesRequestResponse

-- The entries of `index`; the answers are indexed from the first node of the range.
unfoldable pub entry_at : Vectors → ℕ → ℕ → Outcome Entry
entry_at v first index = do
  id ← at_index v.node_ids index
  c ← at_index v.classes index
  a ← at_index v.attrs (index - first)
  r ← at_index v.references (index - first)
  ok (record {
    index = index;
    exp_node_id = id;
    node_class = c.node_class;
    attrs = a.attrs;
    references = r.references;
  })

-- The loop, `count` rounds from `index` on.
unfoldable pub collect_models :
    {W E : Type 0} → Ua → Exporter W E → Vectors → ℕ → ℕ → ℕ → Outcome (List NodeIntermediateModel)
unfolding entry_at
collect_models ua x v first zero index = ok []
collect_models ua x v first (suc count) index = do
  start ← at_index v.node_ids 0
  e ← entry_at v first index
  m ← node_model ua (context_of x start) e
  rest ← collect_models ua x v first count (suc index)
  ok (add_model m rest)
