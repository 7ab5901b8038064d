-- ===== src/Interfaces.antt =====
-- include/nodesetexporter/interfaces: the server that nodes are read from (IOpen62541.h) and the
-- encoder that they are written to (IEncoder.h), each over a state of its own.
use open62541_nodeset_export.Prelude.{List, Text, ℕ}
use open62541_nodeset_export.Effect.{Effect}
use open62541_nodeset_export.Model.{Attributes, NodeIntermediateModel}
use open62541_nodeset_export.Ua.{ExpandedNodeId, NodeClass, NodeId, ReferenceDescription, Variant}

pub record NodeClassesRequestResponse : Type 0 where
  pub exp_node_id : ExpandedNodeId
  pub node_class : NodeClass
  pub result_code : ℕ

pub record NodeReferencesRequestResponse : Type 0 where
  pub exp_node_id : ExpandedNodeId
  pub references : List ReferenceDescription

pub record NodeAttributesRequestResponse : Type 0 where
  pub exp_node_id : ExpandedNodeId
  pub attrs : Attributes

-- A method takes the vector that the source passes by reference and returns it filled in.
pub record IOpen62541 (W : Type 0) : Type 0 where
  pub read_node_classes :
      List NodeClassesRequestResponse → Effect W (List NodeClassesRequestResponse)
  pub read_node_references :
      List NodeReferencesRequestResponse → Effect W (List NodeReferencesRequestResponse)
  pub read_nodes_attributes :
      List NodeAttributesRequestResponse → Effect W (List NodeAttributesRequestResponse)
  pub read_node_data_value : ExpandedNodeId → Effect W Variant

pub record IEncoder (E : Type 0) : Type 0 where
  pub begin : Effect E (Unit {0})
  pub end : Effect E (Unit {0})
  pub add_namespaces : List Text → Effect E (Unit {0})
  pub add_aliases : List (Text × NodeId) → Effect E (Unit {0})
  pub add_node_object : NodeIntermediateModel → Effect E (Unit {0})
  pub add_node_object_type : NodeIntermediateModel → Effect E (Unit {0})
  pub add_node_variable : NodeIntermediateModel → Effect E (Unit {0})
  pub add_node_variable_type : NodeIntermediateModel → Effect E (Unit {0})
  pub add_node_reference_type : NodeIntermediateModel → Effect E (Unit {0})
  pub add_node_data_type : NodeIntermediateModel → Effect E (Unit {0})
