-- ===== src/Tests/Document.antt =====
-- An export to a buffer, with the encoder for XML.
use open62541_nodeset_export.Prelude.{List, Option, Text, [], codes, ◌∷◌}
use open62541_nodeset_export.ExportNodeset.{ExportResult, export_nodeset}
use open62541_nodeset_export.Loop.Exporter.{NodeLists}
use open62541_nodeset_export.Samples.{sample_ua}
use open62541_nodeset_export.Samples.Document.{Tree, empty_document, sample_xml}
use open62541_nodeset_export.Samples.Server.{id_of, plain_options, sample_server}
use open62541_nodeset_export.Status.{Status}
use open62541_nodeset_export.Ua.Ids.{ignored_nodeclasses}
use open62541_nodeset_export.XmlEncoder.{XmlEncoder, encoder_to_buffer, xml_encoder}

abbrev xml_lists : NodeLists
xml_lists = (codes "start", id_of 1 ∷ id_of 2 ∷ id_of 3 ∷ []) ∷ []

abbrev fresh_encoder : XmlEncoder Tree (List (Text × Text))
fresh_encoder = encoder_to_buffer empty_document [] []

abbrev xml_run_result : ExportResult (XmlEncoder Tree (List (Text × Text)))
xml_run_result =
    export_nodeset sample_ua sample_server (xml_encoder sample_ua sample_xml) plain_options
      xml_lists 2 ignored_nodeclasses 0 fresh_encoder

abbrev printed_run : Option Text
printed_run = xml_run_result.encoder.out_buffer
