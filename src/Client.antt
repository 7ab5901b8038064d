-- ===== src/Client.antt =====
-- src/nodesetexporter/open62541/ClientWrappers.cpp: the server side of the interface, by the services of
-- an OPC UA client. The services are parameters over the state of the connection.
pub mod RoundTrip
pub mod Browse
pub mod References
use open62541_nodeset_export.Prelude.{
  Bool, List, Option, Text, [], if◌then◌else◌, is_empty, length, map, none, not, some, suc, zero, ℕ,
  ◌&&◌, ◌++◌, ◌-◌, ◌==◌, ◌||◌, ◌∷◌,
}
use open62541_nodeset_export.Effect.{Effect, and_then, lift}
use open62541_nodeset_export.Interfaces.{
  IOpen62541, NodeAttributesRequestResponse, NodeClassesRequestResponse,
  NodeReferencesRequestResponse,
}
use open62541_nodeset_export.Model.{Attributes}
use open62541_nodeset_export.Prelude.Int.{negsuc, pos}
use open62541_nodeset_export.Status.{
  Outcome, Status, fails, of_status, ok, out_of_range, runtime_error, throws, undefined, ◌>>=◌,
}
use open62541_nodeset_export.TypeAliases.{ua_variant_to_std_variant}
use open62541_nodeset_export.Ua.{
  AttrValue, ExpandedNodeId, NodeClass, NodeId, ReferenceDescription, Scalar, Ua, Variant,
  class_value, int32,
}

pub record ReadValueId : Type 0 where
  pub node_id : NodeId
  pub attribute_id : ℕ

-- `value` is none where hasValue is not set.
pub record DataValue : Type 0 where
  pub status : ℕ
  pub value : Option Variant

pub record ReadResponse : Type 0 where
  pub service_result : ℕ
  pub results : List DataValue

pub record BrowseResult : Type 0 where
  pub status_code : ℕ
  pub references : List ReferenceDescription
  pub continuation_point : Text

-- `results` is none for a null pointer.
pub record BrowseResponse : Type 0 where
  pub service_result : ℕ
  pub results : Option (List BrowseResult)

-- UA_Client_Service_read, _browse (with all references in both directions), _browseNext and
-- UA_Client_readValueAttribute.
pub record UaClient (W : Type 0) : Type 0 where
  pub service_read : List ReadValueId → W → ReadResponse × W
  pub service_browse : List NodeId → ℕ → W → BrowseResponse × W
  pub service_browse_next : Text → W → BrowseResponse × W
  pub read_value_attribute : NodeId → W → (ℕ × Variant) × W

abbrev pub attribute_nodeclass : ℕ
attribute_nodeclass = 2

abbrev pub attribute_value : ℕ
attribute_value = 13

-- The values of UA_NodeClass.
unfoldable pub class_of_number : ℕ → NodeClass
class_of_number n =
    if n == 0
    then NodeClass.unspecified
    else if n == 1
    then NodeClass.object
    else if n == 2
    then NodeClass.variable
    else if n == 4
    then NodeClass.method
    else if n == 8
    then NodeClass.object_type
    else if n == 16
    then NodeClass.variable_type
    else if n == 32
    then NodeClass.reference_type
    else if n == 64
    then NodeClass.data_type
    else if n == 128
    then NodeClass.view
    else if n == 2147483647
    then NodeClass.force32bit
    else NodeClass.other n

-- The Int32 that a server answers for a class, read as a class.
unfoldable pub as_class : Scalar → Scalar
unfolding class_of_number
as_class (int32 (pos n)) = class_value (class_of_number n)
as_class (int32 (negsuc n)) = class_value (NodeClass.other (4294967295 - n))
as_class s = s

abbrev pub as_classes : Variant → Variant
as_classes v = elim v.elements [
  | none ↦ v
  | some xs ↦ record v { elements = some (map as_class xs) }
]

abbrev pub correct_type : ReadValueId → DataValue → DataValue
correct_type id v = elim v.value [
  | none ↦ v
  | some u ↦
      if id.attribute_id == attribute_nodeclass then record v { value = some (as_classes u) } else v
]

abbrev pub correct_types : List ReadValueId → List DataValue → List DataValue
correct_types (id ∷ ids) (v ∷ vs) = correct_type id v ∷ correct_types ids vs
correct_types _ _ = []

module _ {W : Type 0} (ua : Ua) (client : UaClient W) where
  -- A service that only warns when its status is uncertain.
  abbrev pub check_service : ℕ → Outcome (Unit {0})
  check_service status = if ua.is_bad status then fails (of_status Status.fail) else ok tt

  -- ReadNodesAttributes of a list of value ids. The function that it calls for each answer is applied by
  -- the callers to the list that is returned.
  unfoldable pub read_value_ids : List ReadValueId → Effect W (List DataValue)
  read_value_ids ids w =
      let (response, w') = client.service_read ids w in
      if ua.is_bad response.service_result
      then (fails (of_status Status.fail), w')
      else if not (length response.results == length ids)
      then (fails (of_status Status.fail), w')
      else (ok (correct_types ids response.results), w')

  -- The value of an answer, none for a bad status.
  abbrev pub good_value : DataValue → Option Variant
  good_value v = if ua.is_bad v.status then none else v.value

  unfoldable pub class_of : Variant → Outcome NodeClass
  class_of v = elim v.elements [ some (class_value c ∷ vs) ↦ ok c | _ ↦ throws undefined ]

  unfoldable pub set_class :
      NodeClassesRequestResponse → DataValue → Outcome NodeClassesRequestResponse
  unfolding class_of
  set_class r v = elim (good_value v) [
    | none ↦ ok (record r { node_class = NodeClass.unspecified; result_code = v.status })
    | some u ↦ (class_of u >>= λ c. ok (record r { node_class = c }))
  ]

  unfoldable pub set_classes :
      List NodeClassesRequestResponse → List DataValue → Outcome (List NodeClassesRequestResponse)
  unfolding set_class
  set_classes (r ∷ rs) (v ∷ vs) = do r' ← set_class r v; rs' ← set_classes rs vs; ok (r' ∷ rs')
  set_classes rs _ = ok rs

  abbrev pub class_ids : List NodeClassesRequestResponse → List ReadValueId
  class_ids =
      map (λ r. record { node_id = r.exp_node_id.node_id; attribute_id = attribute_nodeclass })

  unfoldable pub client_read_node_classes :
      List NodeClassesRequestResponse → Effect W (List NodeClassesRequestResponse)
  client_read_node_classes rs w =
      and_then (read_value_ids (class_ids rs) w) (λ values. lift (set_classes rs values))

  -- ReadNodesAttributes of nodes: the attributes of all nodes in one list, and back.
  abbrev pub attribute_ids : NodeId → Attributes → List ReadValueId
  attribute_ids id [] = []
  attribute_ids id ((k, v) ∷ attrs) =
      record { node_id = id; attribute_id = k } ∷ attribute_ids id attrs

  abbrev pub flat_ids : List NodeAttributesRequestResponse → List ReadValueId
  flat_ids [] = []
  flat_ids (r ∷ rs) = attribute_ids r.exp_node_id.node_id r.attrs ++ flat_ids rs

  unfoldable pub attribute_of : ReadValueId → DataValue → Option AttrValue
  attribute_of id v = elim (good_value v) [
    | none ↦ none
    | some u ↦
        if id.attribute_id == attribute_value
        then some (AttrValue.variant u)
        else ua_variant_to_std_variant u
  ]

  abbrev pub attributes_of : List ReadValueId → List DataValue → List (Option AttrValue)
  attributes_of (id ∷ ids) (v ∷ vs) = attribute_of id v ∷ attributes_of ids vs
  attributes_of _ _ = []

  -- The attributes of one node take the first values; the others are left for the next nodes.
  unfoldable pub fill_attributes :
      Attributes → List (Option AttrValue) → Attributes × List (Option AttrValue)
  fill_attributes ((k, old) ∷ attrs) (v ∷ vs) =
      let rest = fill_attributes attrs vs in ((k, v) ∷ rest.0, rest.1)
  fill_attributes attrs vs = (attrs, vs)

  unfoldable pub fill_nodes :
      List NodeAttributesRequestResponse
      → List (Option AttrValue)
      → List NodeAttributesRequestResponse
  unfolding fill_attributes
  fill_nodes [] vs = []
  fill_nodes (r ∷ rs) vs =
      let filled = fill_attributes r.attrs vs in
      record r { attrs = filled.0 } ∷ fill_nodes rs filled.1

  unfoldable pub client_read_nodes_attributes :
      List NodeAttributesRequestResponse → Effect W (List NodeAttributesRequestResponse)
  unfolding fill_nodes attribute_of
  client_read_nodes_attributes rs w =
      and_then (read_value_ids (flat_ids rs) w)
        λ values w'. (ok (fill_nodes rs (attributes_of (flat_ids rs) values)), w')

  -- BrowseNext: the pages after the first, until the server sends no continuation point. The fuel is the
  -- pages that may still come.
  unfoldable pub browse_next :
      ℕ → Text → List ReferenceDescription → Effect W (List ReferenceDescription)
  browse_next fuel [] refs w = (ok refs, w)
  browse_next zero (c ∷ cs) refs w = (throws undefined, w)
  browse_next (suc fuel) (c ∷ cs) refs w =
      let (response, w') = client.service_browse_next (c ∷ cs) w in
      if ua.is_bad response.service_result
      then (fails (of_status Status.fail), w')
      else elim response.results [
        | none ↦ (throws runtime_error, w')
        | some [] ↦ (throws runtime_error, w')
        | some (page ∷ []) ↦ browse_next fuel page.continuation_point (refs ++ page.references) w'
        | some (page ∷ page2 ∷ pages) ↦ (throws runtime_error, w')
      ]

  -- Whether the loop of ReadNodeReferences reaches into the list of nodes for this result.
  abbrev pub is_touched : BrowseResult → Bool
  is_touched r =
      ua.is_bad r.status_code
      || ua.is_uncertain r.status_code
      || not (is_empty r.references && is_empty r.continuation_point)

  unfoldable pub add_results :
      ℕ
      → List NodeReferencesRequestResponse
      → List BrowseResult
      → Effect W (List NodeReferencesRequestResponse)
  unfolding browse_next
  add_results fuel nodes [] w = (ok nodes, w)
  add_results fuel [] (r ∷ rs) w =
      let rest = add_results fuel [] rs w in if is_touched r then (throws out_of_range, w) else rest
  add_results fuel (node ∷ nodes) (r ∷ rs) w =
      and_then (browse_next fuel r.continuation_point (node.references ++ r.references) w)
        λ refs w1.
          and_then (add_results fuel nodes rs w1)
            λ nodes' w2. (ok (record node { references = refs } ∷ nodes'), w2)

  -- `max` is m_requested_max_references_per_node.
  unfoldable pub client_read_node_references :
      ℕ → ℕ → List NodeReferencesRequestResponse → Effect W (List NodeReferencesRequestResponse)
  unfolding add_results
  client_read_node_references fuel max nodes w =
      let (response, w') = client.service_browse (map (λ n. n.exp_node_id.node_id) nodes) max w in
      if ua.is_bad response.service_result
      then (fails (of_status Status.fail), w')
      else elim response.results [
        | none ↦ (throws runtime_error, w')
        | some rs ↦ add_results fuel nodes rs w'
      ]

  unfoldable pub client_read_node_data_value : ExpandedNodeId → Effect W Variant
  client_read_node_data_value id w =
      let ((status, v), w') = client.read_value_attribute id.node_id w in
      if ua.is_bad status then (fails (of_status Status.fail), w') else (ok v, w')

  -- The interface that the loop takes.
  unfoldable pub client_wrapper : ℕ → ℕ → IOpen62541 W
  unfolding client_read_node_classes client_read_node_references client_read_nodes_attributes
      client_read_node_data_value
  client_wrapper fuel max = record {
    read_node_classes = client_read_node_classes;
    read_node_references = client_read_node_references fuel max;
    read_nodes_attributes = client_read_nodes_attributes;
    read_node_data_value = client_read_node_data_value;
  }
