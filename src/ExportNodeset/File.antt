-- ===== src/ExportNodeset/File.antt =====
-- What a good status of ExportNodeset means for the file, with the encoder for XML.
use open62541_nodeset_export.Prelude.{All, List, Text, [], ◌++◌, ◌∷◌, ◌≡◌}
use open62541_nodeset_export.ExportNodeset.{ExportResult}
use open62541_nodeset_export.Interfaces.{IOpen62541}
use open62541_nodeset_export.Loop.Aliases.{Aliases, get_aliases}
use open62541_nodeset_export.Loop.Exporter.{Exporter, NodeLists, ignore_types}
use open62541_nodeset_export.Loop.Options.{Options}
use open62541_nodeset_export.Loop.Requests.{get_namespaces}
use open62541_nodeset_export.Loop.StartExport.Content.{OfLists}
use open62541_nodeset_export.Loop.StartExport.Written.{IsWritable}
use open62541_nodeset_export.Model.{NodeIntermediateModel}
use open62541_nodeset_export.Status.{Status, ok}
use open62541_nodeset_export.Ua.{NodeClass, Ua, UaLaws}
use open62541_nodeset_export.Xml.{Xml, XmlLaws}
use open62541_nodeset_export.XmlEncoder.{XmlEncoder}
use open62541_nodeset_export.XmlEncoder.File.{IsNodeSetFile}
use open62541_nodeset_export.XmlEncoder.Stages.{IsFresh}

module _ {X F W : Type 0} {ua : Ua} (laws : UaLaws ua) (xml : Xml X F) (xml_laws : XmlLaws xml)
    (lib : IOpen62541 W) where
  -- The models are those that the lists give and are writable, the namespaces are the server's, and the
  -- buffer has got the document.
  abbrev pub IsExported :
      Options → NodeLists → List NodeClass → W → Text → ExportResult (XmlEncoder X F) → Type 0
  IsExported opts lists ignored server written result =
      (uris : List Text) × (aliases : Aliases) × (models : List NodeIntermediateModel) × (doc : X)
      × (asked : W) × (get_namespaces lib server ≡ (ok uris, asked))
      × OfLists ua lib (XmlEncoder X F) opts (ignore_types opts ignored) lists models
      × (get_aliases ua models [] ≡ ok aliases)
      × All (IsWritable opts (ignore_types opts ignored)) models
      × IsFresh ua xml xml_laws (written ++ (xml.print doc ++ (0 ∷ []))) result.encoder
      × IsNodeSetFile ua xml uris aliases models doc
