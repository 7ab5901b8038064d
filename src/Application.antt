-- ===== src/Application.antt =====
-- apps/src/apps/nodesetexporter/Application.cpp: the program around the library. It browses from each start
-- node, checks that no list holds the start node of another one, and exports the lists.

pub mod Crossing
pub mod Browsed
pub mod Success
use open62541_nodeset_export.Prelude.{
  Bool, List, Option, Ordering, Text, [], false, if◌then◌else◌, is_empty, none, not, some, true, ℕ,
  ◌==◌, ◌∷◌,
}
use open62541_nodeset_export.BrowseOperations.{
  BrowseDescription, grab_child_node_ids_from_start_node_id, returned, unfinished,
}
use open62541_nodeset_export.Client.{BrowseResponse}
use open62541_nodeset_export.ExportNodeset.{ExportResult, export_nodeset}
use open62541_nodeset_export.Interfaces.{IEncoder, IOpen62541}
use open62541_nodeset_export.Loop.Exporter.{NodeLists}
use open62541_nodeset_export.Loop.Options.{Options}
use open62541_nodeset_export.Status.{
  Outcome, Status, at_index, fails, of_status, ok, runtime_error, throws, ◌>>=◌,
}
use open62541_nodeset_export.Texts.{compare_text}
use open62541_nodeset_export.Ua.{ExpandedNodeId, NodeClass, Ua, ns0_expanded}

-- `const char*` arguments as boost::program_options reads them.
pub data CommandLine : Type 0 where
  unknown_option required_option other_error : CommandLine
  stored : Bool → Bool → CommandLine

abbrev pub info_print : ℕ
info_print = 0

abbrev pub input_param : ℕ
input_param = 1

abbrev pub success : ℕ
success = 0

abbrev pub failure : ℕ
failure = 1

-- `stored` says whether the version and the help are asked for. What is printed is left out.
unfoldable pub options_cli_pars : CommandLine → Outcome ℕ
options_cli_pars unknown_option = ok info_print
options_cli_pars required_option = ok info_print
options_cli_pars other_error = throws runtime_error
options_cli_pars (stored version help) =
    if version then ok info_print else if help then ok info_print else ok input_param

-- std::map::emplace, which keeps the list of a key that is there.
unfoldable pub emplace_list : Text → List ExpandedNodeId → NodeLists → NodeLists
emplace_list k ids [] = (k, ids) ∷ []
emplace_list k ids ((j, old) ∷ lists) =
    let rest = emplace_list k ids lists in
    elim (compare_text k j) [
      | Ordering.eq ↦ (j, old) ∷ lists
      | Ordering.lt ↦ (k, ids) ∷ (j, old) ∷ lists
      | Ordering.gt ↦ (j, old) ∷ rest
    ]

abbrev pub same_key : Text → Text → Bool
same_key k j = elim (compare_text k j) [
  | Ordering.eq ↦ true
  | Ordering.lt ↦ false
  | Ordering.gt ↦ false
]

-- How the first part of the export thread ends, less the text of an exception. `endless` stands for a
-- browse that has not ended within the fuel.
pub data Collected (W : Type 0) : Type 0 where
  collected_lists : NodeLists → W → Collected W
  interrupted browse_error : Collected W
  endless : Collected W

-- The value of the promise; `no_value` stands for a browse without an end and for what C++ leaves
-- undefined.
pub data Promise (E : Type 0) : Type 0 where
  set_value : ℕ → E → Promise E
  no_value : Promise E

module _ (ua : Ua) where
  -- UA_ExpandedNodeId_equal.
  abbrev pub expanded_equal : ExpandedNodeId → ExpandedNodeId → Bool
  expanded_equal a b = elim (ua.expanded_order a b) [
    | Ordering.eq ↦ true
    | Ordering.lt ↦ false
    | Ordering.gt ↦ false
  ]

  -- The innermost loop: no node of the list is the first one of `starts`.
  unfoldable pub check_nodes : List ExpandedNodeId → List ExpandedNodeId → Outcome (Unit {0})
  check_nodes starts [] = ok tt
  check_nodes starts (id ∷ ids) =
      let rest = check_nodes starts ids in
      at_index starts 0 >>= λ start.
      if expanded_equal id start then fails (of_status Status.fail) else rest

  unfoldable pub check_lists : Text × List ExpandedNodeId → NodeLists → Outcome (Unit {0})
  unfolding check_nodes
  check_lists start [] = ok tt
  check_lists start (nodes ∷ lists) =
      let rest = check_lists start lists in
      if same_key start.0 nodes.0 then rest else check_nodes start.1 nodes.1 >>= λ u. rest

  abbrev pub check_starts : NodeLists → NodeLists → Outcome (Unit {0})
  check_starts [] all_lists = ok tt
  check_starts (start ∷ starts) all_lists =
      let rest = check_starts starts all_lists in check_lists start all_lists >>= λ u. rest

  unfoldable pub check_start_node_crossing : NodeLists → Outcome (Unit {0})
  check_start_node_crossing node_ids = check_starts node_ids node_ids

module _ {W E : Type 0} (ua : Ua) (service_browse : BrowseDescription → W → BrowseResponse × W)
    (session_over : W → Bool) (lib : IOpen62541 W) (enc : IEncoder E) where
  -- `session_over` reads from the client that its session is closed or closing, which the handler of a stop
  -- signal brings about.
  unfoldable pub browse_lists : ℕ → List Text → NodeLists → W → Collected W
  unfolding emplace_list
  browse_lists fuel [] lists w = collected_lists lists w
  browse_lists fuel (s ∷ ss) lists w =
      elim (grab_child_node_ids_from_start_node_id ua service_browse fuel (ua.parse_expanded s) []
        w) [
          | unfinished ↦ endless
          | returned status out w' ↦
              let rest = browse_lists fuel ss (emplace_list s out lists) w' in
              elim status [
                | Status.fail ↦ browse_error
                | Status.good ↦ if session_over w' then interrupted else rest
              ]
        ]

  unfoldable pub promise_of : ExportResult E → Promise E
  promise_of r = elim r.status [
    | none ↦ no_value
    | some s ↦ elim s.status [
      | Status.good ↦ set_value success r.encoder
      | Status.fail ↦ set_value failure r.encoder
    ]
  ]

  unfoldable pub export_collected : Options → ℕ → List NodeClass → NodeLists → W → E → Promise E
  unfolding promise_of check_start_node_crossing
  export_collected opts number ignored lists w e = elim (check_start_node_crossing ua lists) [
    | ok u ↦ promise_of (export_nodeset ua lib enc opts lists number ignored w e)
    | fails r ↦ set_value failure e
    | throws x ↦ set_value failure e
  ]

  unfoldable pub start_export_in_another_thread :
      ℕ → List Text → Options → ℕ → List NodeClass → W → E → Promise E
  unfolding export_collected browse_lists
  start_export_in_another_thread fuel start_ids opts number ignored w e =
      elim (browse_lists fuel start_ids [] w) [
        | endless ↦ no_value
        | interrupted ↦ set_value success e
        | browse_error ↦ set_value failure e
        | collected_lists lists w' ↦ export_collected opts number ignored lists w' e
      ]

-- The options that the program passes on: all but the parent are the default ones.
abbrev pub application_options : ExpandedNodeId → Options
application_options parent = record {
  ns0_custom_nodes_ready_to_work = false;
  is_enable = false;
  create_missing_start_node = false;
  allow_abstract_variable = false;
  parent_start_node_replacer = parent;
}

-- What Run reads from outside, less the endpoint and the user: the arguments, whether UA_Client_new has made
-- a client, whether the status of the connection is good, the client after it, and whether the posted task
-- has run before a stop signal.
pub record Surroundings (W : Type 0) : Type 0 where
  pub command_line : CommandLine
  pub start_node_ids : List Text
  pub parent_start_node_replacer : Text
  pub number_of_max_nodes_to_request_data : ℕ
  pub has_client : Bool
  pub is_connected : Bool
  pub connected : W
  pub is_posted : Bool

-- The exit code, none where the program does not end or its behaviour is undefined.
abbrev pub ExitCode : Type 0
ExitCode = Option ℕ

module _ {W E : Type 0} (ua : Ua) (service_browse : BrowseDescription → W → BrowseResponse × W)
    (session_over : W → Bool) (lib : IOpen62541 W) (enc : IEncoder E) where
  abbrev pub exit_of : Promise E → ExitCode × Option E
  exit_of no_value = (none, none)
  exit_of (set_value n e) = (some (if n == failure then failure else success), some e)

  unfoldable pub connect_and_export :
      ℕ → Surroundings W → ExpandedNodeId → List NodeClass → E → ExitCode × Option E
  connect_and_export fuel s parent ignored e =
      let run =
        start_export_in_another_thread ua service_browse session_over lib enc fuel s.start_node_ids
          (application_options parent) s.number_of_max_nodes_to_request_data ignored s.connected
          e in
      if not s.has_client
      then (some failure, some e)
      else if not s.is_connected
      then (some failure, some e)
      else if s.is_posted
      then exit_of run
      else (some success, some e)

  unfoldable pub run_with_params : ℕ → Surroundings W → List NodeClass → E → ExitCode × Option E
  unfolding connect_and_export
  run_with_params fuel s ignored e =
      let parent = ua.parse_expanded s.parent_start_node_replacer in
      if is_empty s.parent_start_node_replacer
      then connect_and_export fuel s (ns0_expanded 85) ignored e
      else if ua.node_id_is_null parent.node_id
      then (some failure, some e)
      else connect_and_export fuel s parent ignored e

  -- The encoder is what the run leaves of it.
  unfoldable pub run : ℕ → Surroundings W → List NodeClass → E → ExitCode × Option E
  unfolding run_with_params options_cli_pars
  run fuel s ignored e = elim (options_cli_pars s.command_line) [
    | ok n ↦ if n == info_print then (some success, some e) else run_with_params fuel s ignored e
    | fails r ↦ (some failure, some e)
    | throws x ↦ (some failure, some e)
  ]
