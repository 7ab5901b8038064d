-- ===== src/Ua/Ids.antt =====
-- The node ids of namespace 0 that the exporter names, and its tables: the constants of
-- NodesetExporterLoop.h and the static members at the end of NodesetExporterLoop.cpp.
use open62541_nodeset_export.Prelude.{List, [], map, ℕ, ◌∷◌}
use open62541_nodeset_export.Ua.{ExpandedNodeId, NodeClass, NodeId, ns0_expanded, ns0_node_id}

abbrev pub id_organizes : ℕ
id_organizes = 35

abbrev pub id_has_component : ℕ
id_has_component = 47

abbrev pub id_has_type_definition : ℕ
id_has_type_definition = 40

abbrev pub id_folder_type : ℕ
id_folder_type = 61

abbrev pub objects_folder : NodeId
objects_folder = ns0_node_id 85

abbrev pub has_component : NodeId
has_component = ns0_node_id id_has_component

abbrev pub has_type_definition : NodeId
has_type_definition = ns0_node_id id_has_type_definition

abbrev pub base_variable_type : NodeId
base_variable_type = ns0_node_id 62

abbrev pub has_subtype : NodeId
has_subtype = ns0_node_id 45

abbrev pub base_object_type_node_id : ExpandedNodeId
base_object_type_node_id = ns0_expanded 58

abbrev pub base_data_variable_type : ℕ
base_data_variable_type = 63

abbrev pub base_data_variable_type_node_id : ExpandedNodeId
base_data_variable_type_node_id = ns0_expanded base_data_variable_type

-- m_hierarhical_references. Aggregates is named twice in the source.
abbrev pub hierarchical_references : List NodeId
hierarchical_references =
    map ns0_node_id (33 ∷ 34 ∷ 35 ∷ 36 ∷ 44 ∷ 45 ∷ 46 ∷ 47 ∷ 48 ∷ 49 ∷ 16362 ∷ 14936 ∷ 44 ∷ [])

abbrev pub types_nodeclasses : List NodeClass
types_nodeclasses =
    NodeClass.object_type ∷ NodeClass.reference_type ∷ NodeClass.data_type ∷ NodeClass.variable_type
    ∷ []

-- The first value of the static m_ignored_nodeclasses.
abbrev pub ignored_nodeclasses : List NodeClass
ignored_nodeclasses =
    NodeClass.unspecified ∷ NodeClass.method ∷ NodeClass.view ∷ NodeClass.force32bit ∷ []

-- m_ns0_opcua_standard_node_ids: the root, objects, types and views folders.
abbrev pub ns0_standard_node_ids : List ExpandedNodeId
ns0_standard_node_ids = map ns0_expanded (84 ∷ 85 ∷ 86 ∷ 87 ∷ [])
