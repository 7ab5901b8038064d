-- ===== src/XmlEncoder/Whole.antt =====
-- The document of a whole export to a buffer.
use open62541_nodeset_export.Prelude.{Text, [], ap, some, ◌++◌, ◌∙◌, ◌∷◌}
use open62541_nodeset_export.Interfaces.{IOpen62541}
use open62541_nodeset_export.Loop.Exporter.{Exporter}
use open62541_nodeset_export.Loop.StartExport.Order.{Completed}
use open62541_nodeset_export.Ua.{Ua}
use open62541_nodeset_export.Xml.{Xml, XmlLaws, element_node}
use open62541_nodeset_export.XmlEncoder.{Place, XmlEncoder, xml_encoder}
use open62541_nodeset_export.XmlEncoder.File.{IsNodeSetFile}
use open62541_nodeset_export.XmlEncoder.Stages.{
  IsFresh, after_aliases, after_begin, after_end, after_namespaces, after_nodes,
}

module _ {X F : Type 0} (ua : Ua) (xml : Xml X F) where
  module _ (laws : XmlLaws xml) where
    -- When an export with this encoder to a buffer succeeds, what has been added to the buffer is the print of
    -- a NodeSet document and a zero byte. Under the declaration the document has one UANodeSet, with the
    -- namespaces of the server first, then the aliases if there are any, the two remarks, and one element for
    -- each written model of an exported class, in order. The encoder is as fresh as before, for the next export.
    pub Completed-IsNodeSetFile :
        {W : Type 0} (lib : IOpen62541 W) (written : Text) (x x' : Exporter W (XmlEncoder X F))
        → IsFresh ua xml laws written x.encoder
        → (done : Completed (xml_encoder ua xml) ua lib x x')
        → (doc : X) × IsFresh ua xml laws (written ++ (xml.print doc ++ (0 ∷ []))) x'.encoder
          × IsNodeSetFile ua xml done.namespaces done.aliases done.written doc
    Completed-IsNodeSetFile lib written x x' fresh done =
        let (t, s1, d, at1, top, root) =
          after_begin ua xml laws written x.encoder done.begun fresh done.begins in
        let (s2, at2, holds2) =
          after_namespaces ua xml laws done.namespaces t s1 written done.begun done.named at1 root
            done.names in
        let (s3, at3, holds3) =
          after_nodes ua xml laws done.namespaces done.written t s2 written done.named done.noded
            at2 holds2 done.accepted in
        let (s4, between, at4, (n, a, (u, kids, k, are, nodes)), aliased) =
          after_aliases ua xml laws done.namespaces done.written done.aliases t s3 written
            done.noded done.aliased at3 holds3 done.aliased_last in
        (
          xml.place s4 t,
          after_end ua xml laws t s4 written done.aliased x'.encoder (some Place.in_nodeset) at4
              done.ends,
          (
            d,
            s4,
            u,
            between,
            kids,
            laws.children-place s4 t ∙ ap (λ l. l ++ (element_node s4 ∷ [])) top,
            n,
            a,
            k,
            are,
            aliased,
            nodes,
          ),
        )
