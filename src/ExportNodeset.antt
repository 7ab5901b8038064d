-- ===== src/ExportNodeset.antt =====
-- src/nodesetexporter/NodesetExporter.cpp: ExportNodeset, the function that a caller of the library uses.
-- The choice of the logger, of the server's wrapper and of the encoder is made by the arguments here.
pub mod Complete
pub mod File
use open62541_nodeset_export.Prelude.{List, Option, if◌then◌else◌, is_empty, none, some, ℕ}
use open62541_nodeset_export.Interfaces.{IEncoder, IOpen62541}
use open62541_nodeset_export.Loop.Exporter.{Exporter, NodeLists, construct}
use open62541_nodeset_export.Loop.Options.{Options}
use open62541_nodeset_export.Loop.StartExport.{start_export}
use open62541_nodeset_export.Status.{
  Exception, Outcome, Status, StatusResults, empty_node_id_list, fails, of_status, of_sub_status,
  ok, throws, undefined,
}
use open62541_nodeset_export.Ua.{NodeClass, Ua}
use open62541_nodeset_export.Ua.Ids.{ignored_nodeclasses}

-- What is left after a call: `status` is none where C++ leaves the behaviour undefined, and
-- `ignored_nodeclasses` is the static table of NodesetExporterLoop.
pub record ExportResult (E : Type 0) : Type 0 where
  pub status : Option StatusResults
  pub ignored_nodeclasses : List NodeClass
  pub encoder : E

-- The exceptions that the catch block turns into a status.
unfoldable pub caught : Exception → Option StatusResults
caught undefined = none
caught x = some (of_status Status.fail)

unfoldable pub status_of : Outcome (Unit {0}) → Option StatusResults
unfolding caught
status_of (ok u) = some (of_status Status.good)
status_of (fails r) = some r
status_of (throws x) = caught x

module _ {W E : Type 0} (ua : Ua) (lib : IOpen62541 W) (enc : IEncoder E) where
  -- The core has been made, or its constructor has thrown before it touched the table.
  unfoldable pub run_core : List NodeClass → E → Outcome (Exporter W E) → ExportResult E
  unfolding status_of
  run_core ignored encoder (ok x) =
      let (o, x') = start_export ua lib enc x in
      record {
        status = status_of o;
        ignored_nodeclasses = x'.ignored_nodeclasses;
        encoder = x'.encoder;
      }
  run_core ignored encoder (fails r) = record {
    status = some r;
    ignored_nodeclasses = ignored;
    encoder = encoder;
  }
  run_core ignored encoder (throws t) = record {
    status = caught t;
    ignored_nodeclasses = ignored;
    encoder = encoder;
  }

  unfoldable pub export_nodeset : Options → NodeLists → ℕ → List NodeClass → W → E → ExportResult E
  unfolding run_core
  export_nodeset opts node_ids number ignored server encoder =
      if is_empty node_ids
      then record {
        status = some (of_sub_status Status.fail empty_node_id_list);
        ignored_nodeclasses = ignored;
        encoder = encoder;
      }
      else run_core ignored encoder (construct opts node_ids number ignored server encoder)
