-- ===== src/Loop/Distinct.antt =====
-- Distinct and CheckStartNodesOnNS0 of NodesetExporterLoop.cpp: the lists of node ids before anything is
-- asked of the server.
pub mod Unique
pub mod Ns0
use open62541_nodeset_export.Prelude.{
  Bool, List, [], if◌then◌else◌, not, ◌&&◌, ◌++◌, ◌==◌, ◌||◌, ◌∷◌,
}
use open62541_nodeset_export.Loop.Exporter.{NodeLists}
use open62541_nodeset_export.Loop.Options.{Options}
use open62541_nodeset_export.Status.{
  Outcome, Status, at_index, failed_check_ns0_start_nodes, fails, of_sub_status, ok, throws,
  undefined,
}
use open62541_nodeset_export.Ua.{ExpandedNodeId, Ua, contains_expanded, insert_expanded}
use open62541_nodeset_export.Ua.Ids.{ns0_standard_node_ids, objects_folder}

module _ (ua : Ua) where
  -- The loop from index 1. `kept` is the new vector and `seen` the set of references into it.
  unfoldable pub distinct_from :
      List ExpandedNodeId
      → List ExpandedNodeId
      → List ExpandedNodeId
      → List ExpandedNodeId × List ExpandedNodeId
  distinct_from kept seen [] = (kept, seen)
  distinct_from kept seen (id ∷ ids) =
      let rest = distinct_from (kept ++ (id ∷ [])) (insert_expanded ua id seen) ids in
      let dropped = distinct_from kept seen ids in
      if not (contains_expanded ua seen id) then rest else dropped

  -- The vector without its duplicates, and the set. The first entry of an empty vector is undefined.
  unfoldable pub distinct :
      List ExpandedNodeId → Outcome (List ExpandedNodeId × List ExpandedNodeId)
  unfolding distinct_from
  distinct [] = throws undefined
  distinct (id ∷ ids) = ok (distinct_from (id ∷ []) (id ∷ []) ids)

  -- The body of the check for the first id of one list.
  unfoldable pub is_start_allowed : Options → ExpandedNodeId → Bool
  is_start_allowed opts id =
      (opts.is_enable && ua.node_id_equal id.node_id objects_folder)
      || (if opts.ns0_custom_nodes_ready_to_work
          then not (contains_expanded ua ns0_standard_node_ids id)
          else not (id.node_id.namespace_index == 0))

  unfoldable pub check_start_nodes_on_ns0 : Options → NodeLists → Outcome (Unit {0})
  check_start_nodes_on_ns0 opts [] = ok tt
  check_start_nodes_on_ns0 opts ((name, ids) ∷ lists) =
      let rest = check_start_nodes_on_ns0 opts lists in
      elim (at_index ids 0) [
        | fails s ↦ fails s
        | throws x ↦ throws x
        | ok id ↦
            if is_start_allowed opts id
            then rest
            else fails (of_sub_status Status.fail failed_check_ns0_start_nodes)
      ]
