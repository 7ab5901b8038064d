-- ===== src/Loop/StartExport/Order.antt =====
-- The order in which StartExport writes the parts of the file.
use open62541_nodeset_export.Prelude.{All, List, Text, [], ◌≡◌, ◌⊎◌}
use open62541_nodeset_export.Effect.{Effect}
use open62541_nodeset_export.Interfaces.{IEncoder, IOpen62541}
use open62541_nodeset_export.Loop.Aliases.{Aliases, get_aliases}
use open62541_nodeset_export.Loop.ExportNodes.Counts.{Accepted}
use open62541_nodeset_export.Loop.Exporter.{Exporter, NodeLists}
use open62541_nodeset_export.Loop.Requests.{get_namespaces}
use open62541_nodeset_export.Loop.StartExport.Content.{OfLists}
use open62541_nodeset_export.Loop.StartExport.Gives.{Gives}
use open62541_nodeset_export.Loop.StartExport.Ranges.{Named}
use open62541_nodeset_export.Loop.StartExport.Written.{IsWritable}
use open62541_nodeset_export.Model.{NodeIntermediateModel}
use open62541_nodeset_export.Status.{ok}
use open62541_nodeset_export.Ua.{Ua, UaLaws}

module _ {W E : Type 0} (enc : IEncoder E) where
  -- What a successful export has done: the encoder took `begin`, the namespaces that the server has, the
  -- models that the lists of start nodes give, the aliases if there are any, and `end`.
  pub record Completed (ua : Ua) (lib : IOpen62541 W) (x x' : Exporter W E) : Type 0 where
    pub begun : E
    pub named : E
    pub noded : E
    pub aliased : E
    pub asked : W
    pub namespaces : List Text
    pub written : List NodeIntermediateModel
    pub aliases : Aliases
    pub begins : enc.begin x.encoder ≡ (ok tt, begun)
    pub from_server : get_namespaces lib x.server ≡ (ok namespaces, asked)
    pub names : enc.add_namespaces namespaces begun ≡ (ok tt, named)
    pub from_lists : OfLists ua lib E x.options x.ignored_nodeclasses x.node_ids written
    pub aliases_of : get_aliases ua written [] ≡ ok aliases
    pub writable : All (IsWritable x.options x.ignored_nodeclasses) written
    pub accepted : Accepted enc written named noded
    pub aliased_last :
        ((aliases ≡ []) × (noded ≡ aliased)) ⊎ (enc.add_aliases aliases noded ≡ (ok tt, aliased))
    pub ends : enc.end aliased ≡ (ok tt, x'.encoder)

  module _ {ua : Ua} (laws : UaLaws ua) (lib : IOpen62541 W) where
    -- From where the namespaces are written on.
    abbrev ListsWritten : NodeLists → Aliases → Aliases → Exporter W E → Exporter W E → Type 0
    ListsWritten lists before after x x' =
        (ms : List NodeIntermediateModel) × Accepted enc ms x.encoder x'.encoder
        × (OfLists ua lib E x.options x.ignored_nodeclasses lists ms × Named ua before ms after)
