-- ===== src/Loop/NodesData/Shared.antt =====
-- What exporters share: the static table of ignored classes.
use open62541_nodeset_export.Prelude.{List, inl, inr, none, true, ℕ, ◌≡◌}
use open62541_nodeset_export.Loop.Exporter.{Exporter, NodeLists, construct}
use open62541_nodeset_export.Loop.Exporter.Constructor.{construct-ignored}
use open62541_nodeset_export.Loop.NodeData.{Entry, node_model}
use open62541_nodeset_export.Loop.NodeData.Body.{node_model-ignored_class}
use open62541_nodeset_export.Loop.NodesData.{context_of}
use open62541_nodeset_export.Loop.Options.{Options}
use open62541_nodeset_export.Prelude.Member.{In}
use open62541_nodeset_export.Status.{ok}
use open62541_nodeset_export.Ua.{ExpandedNodeId, NodeClass, Ua}
use open62541_nodeset_export.Ua.Ids.{types_nodeclasses}
use open62541_nodeset_export.Ua.Sets.{In→contains_class}

-- The table of ignored classes is static: once an exporter was made in the flat mode, a later exporter
-- with any options, made over the table that the first one left, drops every node of a type class.
pub construct-shared_table :
    {W E : Type 0} (ua : Ua) (flat later : Options) (lists lists' : NodeLists) (number number' : ℕ)
    (static_ignored : List NodeClass) (server server' : W) (encoder encoder' : E)
    (x y : Exporter W E)
    → flat.is_enable ≡ true
    → construct flat lists number static_ignored server encoder ≡ ok x
    → construct later lists' number' x.ignored_nodeclasses server' encoder' ≡ ok y
    → (start : ExpandedNodeId) (e : Entry) → In e.node_class types_nodeclasses
    → node_model ua (context_of y start) e ≡ ok none
construct-shared_table ua flat later lists lists' number number' static_ignored server server'
      encoder encoder' x y on made made' start e t =
    node_model-ignored_class ua (context_of y start) e (
      In→contains_class y.ignored_nodeclasses e.node_class (
        (construct-ignored later lists' number' x.ignored_nodeclasses server' encoder' y made'
            e.node_class).1
          (inl (
            (construct-ignored flat lists number static_ignored server encoder x made
                e.node_class).1
              (inr (on, t))))))
