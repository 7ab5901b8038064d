-- ===== src/Loop/Parent/Base.antt =====
-- The base type that stands in for a missing parent.
use open62541_nodeset_export.Prelude.{[], arith, refl, true, ◌≡◌}
use open62541_nodeset_export.Loop.Parent.{get_base_object_type}
use open62541_nodeset_export.Status.{ok}
use open62541_nodeset_export.Ua.{ExpandedNodeId, NodeClass, contains_class, ns0_expanded}
use open62541_nodeset_export.Ua.Ids.{types_nodeclasses}

pub get_base_object_type-plain :
    (c : NodeClass) (base : ExpandedNodeId)
    → get_base_object_type c ≡ ok base
    → record { node_id = base.node_id; namespace_uri = []; server_index = 0 } ≡ base
unfolding get_base_object_type
get_base_object_type-plain c base h = ground arith

pub get_base_object_type-total :
    (c : NodeClass)
    → contains_class types_nodeclasses c ≡ true
    → (base : ExpandedNodeId) × (get_base_object_type c ≡ ok base)
unfolding get_base_object_type
get_base_object_type-total NodeClass.object_type h = (ns0_expanded 58, refl)
get_base_object_type-total NodeClass.variable_type h = (ns0_expanded 62, refl)
get_base_object_type-total NodeClass.reference_type h = (ns0_expanded 33, refl)
get_base_object_type-total NodeClass.data_type h = (ns0_expanded 24, refl)
get_base_object_type-total NodeClass.object h = cc
get_base_object_type-total _ h = cc

-- Only a type class has a base type.
pub get_base_object_type-type :
    (c : NodeClass) (base : ExpandedNodeId)
    → get_base_object_type c ≡ ok base
    → contains_class types_nodeclasses c ≡ true
unfolding get_base_object_type
get_base_object_type-type c base h = ground arith
