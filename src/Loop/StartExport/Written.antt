-- ===== src/Loop/StartExport/Written.antt =====
-- The models that may stand in the file, and lists of models that the encoder takes one after the other.
use open62541_nodeset_export.Prelude.{
  List, Option, [], false, none, some, true, ◌++◌, ◌∷◌, ◌≡◌, ◌≢◌,
}
use open62541_nodeset_export.Effect.{Effect}
use open62541_nodeset_export.Interfaces.{IEncoder}
use open62541_nodeset_export.Loop.ExportNodes.{add_node}
use open62541_nodeset_export.Loop.ExportNodes.Counts.{Accepted, CallThen}
use open62541_nodeset_export.Loop.NodeData.Body.{HasParentReference}
use open62541_nodeset_export.Loop.Options.{Options}
use open62541_nodeset_export.Model.{NodeIntermediateModel}
use open62541_nodeset_export.Prelude.Member.{In}
use open62541_nodeset_export.Ua.{NodeClass}
use open62541_nodeset_export.Ua.Ids.{ns0_standard_node_ids}

-- A model that may stand in the file: its class is exported, it is no standard node, and its parent is
-- the target of one of its reverse references.
pub record IsWritable (opts : Options) (ignored : List NodeClass) (m : NodeIntermediateModel)
    : Type 0 where
  pub class_exported : In m.node_class ignored → ⊥
  pub outside_standard :
      (opts.ns0_custom_nodes_ready_to_work ≡ false → m.exp_node_id.node_id.namespace_index ≢ 0)
      × (opts.ns0_custom_nodes_ready_to_work ≡ true → In m.exp_node_id ns0_standard_node_ids → ⊥)
  pub has_parent : HasParentReference m.node_class m.parent_node_id m.references

CallThen-map :
    {E : Type 0} (call : Option (Effect E (Unit {0}))) (P Q : E → Type 0) (e : E)
    → ((e1 : E) → P e1 → Q e1)
    → CallThen call P e
    → CallThen call Q e
CallThen-map none P Q e f h = f e h
CallThen-map (some call) P Q e f (e1, done, h) = (e1, done, f e1 h)

pub Accepted-append :
    {E : Type 0} (enc : IEncoder E) (ms ns : List NodeIntermediateModel) (e e1 e2 : E)
    → Accepted enc ms e e1
    → Accepted enc ns e1 e2
    → Accepted enc (ms ++ ns) e e2
Accepted-append enc [] ns e e1 e2 h k = rw h k
Accepted-append enc (m ∷ ms) ns e e1 e2 h k =
    CallThen-map (add_node enc m) _ _ e (λ e' r. Accepted-append enc ms ns e' e1 e2 r k) h
