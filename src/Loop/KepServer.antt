-- ===== src/Loop/KepServer.antt =====
-- KepServerRefFix of NodesetExporterLoop.cpp: servers like KepServer send no reverse references, and
-- give variables an abstract type.
pub mod Reverse
pub mod Types
use open62541_nodeset_export.Prelude.{
  Bool, List, Option, Text, [], codes, false, if◌then◌else◌, none, not, some, true, ◌&&◌, ◌++◌,
  ◌==◌, ◌||◌, ◌∷◌,
}
use open62541_nodeset_export.Interfaces.{NodeReferencesRequestResponse}
use open62541_nodeset_export.Status.{Outcome, Status, fails, of_status, ok, ◌>>=◌}
use open62541_nodeset_export.Strings.{c_string}
use open62541_nodeset_export.Ua.{
  ExpandedNodeId, Identifier, ReferenceDescription, Ua, expanded_to_string, numeric, string,
}
use open62541_nodeset_export.Ua.Ids.{
  base_data_variable_type, base_variable_type, has_component, has_type_definition,
}

-- child_str.substr(0, find_last_of('.')), none where there is no dot.
unfoldable pub before_last_dot : Text → Option Text
before_last_dot [] = none
before_last_dot (c ∷ cs) = elim (before_last_dot cs) [
  | some t ↦ some (c ∷ t)
  | none ↦ if c == b'.' then some [] else none
]

-- The text that the parent is parsed from.
unfoldable pub parent_text : Text → Text
parent_text child = elim (before_last_dot child) [ some t ↦ t | none ↦ codes "i=85" ]

abbrev pub is_string : Identifier → Bool
is_string (string s) = true
is_string _ = false

abbrev pub has_reverse : List ReferenceDescription → Bool
has_reverse [] = false
has_reverse (ref ∷ refs) = not ref.is_forward || has_reverse refs

module _ (ua : Ua) where
  -- HasTypeDefinition to BaseVariableType.
  abbrev pub has_abstract_type : ReferenceDescription → Bool
  has_abstract_type ref =
      ua.node_id_equal ref.reference_type_id has_type_definition
      && ua.node_id_equal ref.node_id.node_id base_variable_type

  unfoldable pub replace_abstract_type : ReferenceDescription → ReferenceDescription
  replace_abstract_type ref =
      if has_abstract_type ref
      then record ref {
        node_id = record {
          node_id = record {
            namespace_index = ref.node_id.node_id.namespace_index;
            identifier = numeric base_data_variable_type;
          };
          namespace_uri = ref.node_id.namespace_uri;
          server_index = ref.node_id.server_index;
        };
      }
      else ref

  -- The inner loop, with its two flags; it breaks once both are set.
  unfoldable pub scan_references :
      List ReferenceDescription → Bool → Bool → List ReferenceDescription × Bool
  scan_references [] found_type has_inverse = ([], has_inverse)
  scan_references (ref ∷ refs) found_type has_inverse =
      let found_type' = found_type || has_abstract_type ref in
      let has_inverse' = has_inverse || not ref.is_forward in
      let rest = scan_references refs found_type' has_inverse' in
      if found_type' && has_inverse'
      then (replace_abstract_type ref ∷ refs, true)
      else (replace_abstract_type ref ∷ rest.0, rest.1)

  -- The reverse reference that is made up from the text of the node id.
  unfoldable pub new_reverse_reference : ExpandedNodeId → ReferenceDescription
  unfolding parent_text
  new_reverse_reference id = record {
    reference_type_id = has_component;
    is_forward = false;
    node_id = ua.parse_expanded (c_string (parent_text (expanded_to_string ua id)));
  }

  unfoldable pub fix_node : NodeReferencesRequestResponse → Outcome NodeReferencesRequestResponse
  fix_node node = elim node.references [
    | [] ↦ ok node
    | ref ∷ refs ↦
        let scanned = scan_references (ref ∷ refs) false false in
        if scanned.1
        then ok (record node { references = scanned.0 })
        else if is_string node.exp_node_id.node_id.identifier
        then ok (record node {
          references = scanned.0 ++ (new_reverse_reference node.exp_node_id ∷ []);
        })
        else fails (of_status Status.fail)
  ]

  unfoldable pub kep_server_ref_fix :
      List NodeReferencesRequestResponse → Outcome (List NodeReferencesRequestResponse)
  kep_server_ref_fix [] = ok []
  kep_server_ref_fix (node ∷ nodes) = do
    node' ← fix_node node
    nodes' ← kep_server_ref_fix nodes
    ok (node' ∷ nodes')
