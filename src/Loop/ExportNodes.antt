-- ===== src/Loop/ExportNodes.antt =====
-- ExportNodes of NodesetExporterLoop.cpp: each model goes to the encoder's method for its class.
pub mod Counts
use open62541_nodeset_export.Prelude.{List, Option, [], none, some, ◌+◌, ◌∷◌}
use open62541_nodeset_export.Effect.{Effect, and_then}
use open62541_nodeset_export.Interfaces.{IEncoder}
use open62541_nodeset_export.Loop.Exporter.{ExportedNodes, Exporter}
use open62541_nodeset_export.Model.{NodeIntermediateModel}
use open62541_nodeset_export.Status.{Outcome, fails, ok, throws}
use open62541_nodeset_export.Ua.{NodeClass}

-- The switch on the class: the encoder's call, none for a class that is not exported.
unfoldable pub add_node :
    {E : Type 0} → IEncoder E → NodeIntermediateModel → Option (Effect E (Unit {0}))
add_node enc m = elim m.node_class [
  | NodeClass.object ↦ some (enc.add_node_object m)
  | NodeClass.variable ↦ some (enc.add_node_variable m)
  | NodeClass.object_type ↦ some (enc.add_node_object_type m)
  | NodeClass.variable_type ↦ some (enc.add_node_variable_type m)
  | NodeClass.reference_type ↦ some (enc.add_node_reference_type m)
  | NodeClass.data_type ↦ some (enc.add_node_data_type m)
  | _ ↦ none
]

-- The counter of the class.
unfoldable pub count_node : NodeClass → ExportedNodes → ExportedNodes
count_node NodeClass.object n = record n { object_nodes = n.object_nodes + 1 }
count_node NodeClass.variable n = record n { variable_nodes = n.variable_nodes + 1 }
count_node NodeClass.object_type n = record n { objecttype_nodes = n.objecttype_nodes + 1 }
count_node NodeClass.variable_type n = record n { variabletype_nodes = n.variabletype_nodes + 1 }
count_node NodeClass.reference_type n = record n { referencetype_nodes = n.referencetype_nodes + 1 }
count_node NodeClass.data_type n = record n { datatype_nodes = n.datatype_nodes + 1 }
count_node _ n = n

-- After the encoder's call: the counter grows unless it threw.
unfoldable pub after_call :
    {W E : Type 0}
    → NodeClass
    → Exporter W E
    → Outcome (Unit {0}) × E
    → Outcome (Unit {0}) × Exporter W E
after_call c x (ok u, e) =
    (ok u, record x { encoder = e; exported_nodes = count_node c x.exported_nodes })
after_call c x (fails s, e) =
    (fails s, record x { encoder = e; exported_nodes = count_node c x.exported_nodes })
after_call c x (throws t, e) = (throws t, record x { encoder = e })

module _ {W E : Type 0} (enc : IEncoder E) where
  unfoldable pub export_node : NodeIntermediateModel → Effect (Exporter W E) (Unit {0})
  unfolding add_node after_call
  export_node m x = elim (add_node enc m) [
    | none ↦ (ok tt, x)
    | some call ↦ after_call m.node_class x (call x.encoder)
  ]

  unfoldable pub export_nodes : List NodeIntermediateModel → Effect (Exporter W E) (Unit {0})
  export_nodes [] x = (ok tt, x)
  export_nodes (m ∷ ms) x = and_then (export_node m x) (λ _. export_nodes ms)
