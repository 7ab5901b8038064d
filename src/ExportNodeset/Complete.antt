-- ===== src/ExportNodeset/Complete.antt =====
-- What a good status of ExportNodeset means.
use open62541_nodeset_export.Prelude.{◌≡◌}
use open62541_nodeset_export.ExportNodeset.{ExportResult}
use open62541_nodeset_export.Interfaces.{IEncoder, IOpen62541}
use open62541_nodeset_export.Loop.Exporter.{Exporter}
use open62541_nodeset_export.Loop.Options.{Options}
use open62541_nodeset_export.Loop.StartExport.Order.{Completed}
use open62541_nodeset_export.Status.{Outcome, Status, ok}
use open62541_nodeset_export.Ua.{Ua, UaLaws}

module _ {ua : Ua} (laws : UaLaws ua) {W E : Type 0} (lib : IOpen62541 W) (enc : IEncoder E) where
  -- A run of the core with a good status has written a whole file.
  abbrev pub WholeFile : ExportResult E → Outcome (Exporter W E) → Type 0
  WholeFile result core =
      (x x' : Exporter W E) × (core ≡ ok x)
      × Completed enc ua lib x x'
      × (result.encoder ≡ x'.encoder)
