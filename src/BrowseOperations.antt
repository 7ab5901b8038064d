-- ===== src/BrowseOperations.antt =====
-- src/nodesetexporter/open62541/BrowseOperations.cpp: the ids of the nodes that are found by browsing
-- from a start node. The browse service is a parameter over the state of the connection.
pub mod Closure
pub mod Rounds
use open62541_nodeset_export.Prelude.{
  Bool, List, Option, [], drop, false, if◌then◌else◌, length, none, some, suc, true, zero, ℕ, ◌++◌,
  ◌==◌, ◌∷◌,
}
use open62541_nodeset_export.Client.{BrowseResponse, BrowseResult}
use open62541_nodeset_export.Status.{Status}
use open62541_nodeset_export.Ua.{ExpandedNodeId, NodeId, ReferenceDescription, Ua, ns0_node_id}

pub data BrowseDirection : Type 0 where
  forward inverse both : BrowseDirection

pub record BrowseOptions : Type 0 where
  pub direction : BrowseDirection
  pub include_subtypes : Bool
  pub ref_type : Option NodeId

-- The request for one node, with every field of the result and no limit on the references.
-- `type_id` is none for the null id.
pub record BrowseDescription : Type 0 where
  pub browsed_id : NodeId
  pub browse_direction : BrowseDirection
  pub with_subtypes : Bool
  pub type_id : Option NodeId

unfoldable pub browse_description : NodeId → Option BrowseOptions → BrowseDescription
browse_description id none = record {
  browsed_id = id;
  browse_direction = BrowseDirection.both;
  with_subtypes = false;
  type_id = none;
}
browse_description id (some options) = record {
  browsed_id = id;
  browse_direction = options.direction;
  with_subtypes = options.include_subtypes;
  type_id = options.ref_type;
}

-- UA_EXPANDEDNODEID_NODEID.
abbrev pub expanded : NodeId → ExpandedNodeId
expanded id = record { node_id = id; namespace_uri = []; server_index = 0 }

-- NodeIteratorCallback, whose result is always Good; `nodes` is the static vector.
unfoldable pub node_iterator_callback :
    ReferenceDescription → List ExpandedNodeId → List ExpandedNodeId
node_iterator_callback ref nodes = nodes ++ expanded ref.node_id.node_id ∷ []

unfoldable pub call_for_references :
    List ReferenceDescription → List ExpandedNodeId → List ExpandedNodeId
call_for_references [] nodes = nodes
call_for_references (ref ∷ refs) nodes = call_for_references refs (node_iterator_callback ref nodes)

unfoldable pub call_for_results : List BrowseResult → List ExpandedNodeId → List ExpandedNodeId
call_for_results [] nodes = nodes
call_for_results (r ∷ rs) nodes = call_for_results rs (call_for_references r.references nodes)

abbrev pub results_of : BrowseResponse → List BrowseResult
results_of response = elim response.results [ none ↦ [] | some rs ↦ rs ]

abbrev pub browse_opt : BrowseOptions
browse_opt = record {
  direction = BrowseDirection.forward;
  include_subtypes = true;
  ref_type = some (ns0_node_id 33);
}

-- How GrabChildNodeIdsFromStartNodeId ends: with its status and `out`, or not within the fuel.
pub data Grabbed (W : Type 0) : Type 0 where
  returned : Status → List ExpandedNodeId → W → Grabbed W
  unfinished : Grabbed W

module _ {W : Type 0} (ua : Ua) (service_browse : BrowseDescription → W → BrowseResponse × W) where
  -- UA_Client_forEachChildNodeCall_Ex with NodeIteratorCallback. A status that is not Good, be it only
  -- uncertain, calls nothing.
  unfoldable pub for_each_child_node_call :
      NodeId → Option BrowseOptions → List ExpandedNodeId → W → (ℕ × List ExpandedNodeId) × W
  for_each_child_node_call parent options nodes w =
      let (response, w') = service_browse (browse_description parent options) w in
      if response.service_result == 0
      then ((response.service_result, call_for_results (results_of response) nodes), w')
      else ((response.service_result, nodes), w')

  -- The loop over the part of `out` that the last round has added.
  unfoldable pub grab_round :
      List ExpandedNodeId → List ExpandedNodeId → W → (Status × List ExpandedNodeId) × W
  grab_round [] nodes w = ((Status.good, nodes), w)
  grab_round (id ∷ ids) nodes w =
      let ((status, nodes'), w') = for_each_child_node_call id.node_id (some browse_opt) nodes w in
      if ua.is_bad status then ((Status.fail, nodes'), w') else grab_round ids nodes' w'

  -- The do loop. A round that ends well leaves `counter` at the size that `out` had.
  unfoldable pub grab_rounds : ℕ → ℕ → List ExpandedNodeId → W → Grabbed W
  grab_rounds zero counter out w = unfinished
  grab_rounds (suc fuel) counter out w =
      let ((status, nodes), w') = grab_round (drop counter out) [] w in
      elim status [
        | Status.fail ↦ returned Status.fail out w'
        | Status.good ↦ elim nodes [
          | [] ↦ returned Status.good out w'
          | n ∷ ns ↦ grab_rounds fuel (length out) (out ++ n ∷ ns) w'
        ]
      ]

  unfoldable pub grab_child_node_ids_from_start_node_id :
      ℕ → ExpandedNodeId → List ExpandedNodeId → W → Grabbed W
  grab_child_node_ids_from_start_node_id fuel start out w = grab_rounds fuel 0 (out ++ start ∷ []) w
