-- ===== src/XmlEncoder.antt =====
-- include/nodesetexporter/encoders/XMLEncoder.h: the encoder, an instance of IEncoder. It builds a document
-- and prints it when it ends.

pub mod Nodes
pub mod Head
pub mod Document
pub mod File
pub mod Stages
pub mod Whole
pub mod Protocol
pub mod Layout
pub mod Accepts
use open62541_nodeset_export.Prelude.{
  Bool, List, Option, Text, [], codes, false, if◌then◌else◌, none, some, true, ◌++◌, ◌∷◌,
}
use open62541_nodeset_export.Effect.{Effect}
use open62541_nodeset_export.Interfaces.{IEncoder}
use open62541_nodeset_export.Model.{NodeIntermediateModel}
use open62541_nodeset_export.Status.{Outcome, Status, fails, of_status, ok}
use open62541_nodeset_export.Strings.{c_string}
use open62541_nodeset_export.Ua.{NodeId, Ua, node_id_to_string}
use open62541_nodeset_export.Xml.{Xml, declaration_node, element_node}
use open62541_nodeset_export.XmlNode.Elements.{
  add_node_ua_type, fill_object, fill_reference_type, fill_variable, fill_variable_type,
}

-- Where m_xml_ua_namespace_uris points to: the first child of the current UANodeSet, or into an earlier one.
pub data Place : Type 0 where
  in_nodeset elsewhere : Place

-- `nodeset` is the element that m_xml_ua_nodeset points to, and `tree` the document without it; it is the
-- last child of the document. `aliases` says whether m_xml_ua_aliases is set. `out_buffer` is what has been
-- written to the stream, none where the encoder writes to a file.
pub record XmlEncoder (X F : Type 0) : Type 0 where
  pub tree : X
  pub nodeset : Option X
  pub namespace_uris : Option Place
  pub aliases : Bool
  pub begin_first : Bool
  pub filename : Text
  pub out_buffer : Option Text
  pub files : F

abbrev pub moved : Option Place → Option Place
moved none = none
moved (some p) = some Place.elsewhere

module _ {X F : Type 0} (ua : Ua) (xml : Xml X F) where
  abbrev pub failed : XmlEncoder X F → Outcome (Unit {0}) × XmlEncoder X F
  failed e = (fails (of_status Status.fail), e)

  -- The document with the current UANodeSet.
  unfoldable pub document : XmlEncoder X F → X
  document e = elim e.nodeset [ none ↦ e.tree | some s ↦ xml.place s e.tree ]

  unfoldable pub set_namespaces_of_schema : X → X
  set_namespaces_of_schema x =
      let x1 =
        xml.set_attribute (codes "xmlns:xsi") (codes "http://www.w3.org/2001/XMLSchema-instance")
          x in
      let x2 =
        xml.set_attribute (codes "xmlns:uax")
          (codes "http://opcfoundation.org/UA/2008/02/Types.xsd") x1 in
      let x3 =
        xml.set_attribute (codes "xmlns:xsd") (codes "http://www.w3.org/2001/XMLSchema") x2 in
      xml.set_attribute (codes "xmlns") (codes "http://opcfoundation.org/UA/2011/03/UANodeSet.xsd")
        x3

  abbrev pub value_comment : Text
  value_comment =
      codes "Value elements are currently not supported in Variable and VariableType nodes."

  abbrev pub definition_comment : Text
  definition_comment = codes "Definition elements are currently not supported in UADataType."

  unfoldable pub new_nodeset : X → X
  unfolding set_namespaces_of_schema
  new_nodeset x =
      xml.insert_new_comment definition_comment
        (xml.insert_new_comment value_comment (set_namespaces_of_schema x))

  unfoldable pub xml_begin : Effect (XmlEncoder X F) (Unit {0})
  unfolding document new_nodeset
  xml_begin e = elim xml.new_declaration [
    | none ↦ failed e
    | some d ↦ elim (xml.insert_first_child (declaration_node d) e.tree) [
      | none ↦ failed e
      | some tree ↦
          let e1 = record e { tree = tree } in
          elim (xml.new_element (codes "UANodeSet")) [
            | none ↦ failed e1
            | some x ↦
                elim (xml.insert_end_child (element_node (set_namespaces_of_schema x))
                  (document e1)) [
                    | none ↦ failed e1
                    | some whole ↦ (
                      ok tt,
                      record e1 {
                        tree = document e1;
                        nodeset = some (new_nodeset x);
                        namespace_uris = moved e.namespace_uris;
                        begin_first = true;
                      },
                    )
                  ]
          ]
    ]
  ]

  -- BasicCheck: the current UANodeSet after a Begin, none where the check fails.
  unfoldable pub basic_check : XmlEncoder X F → Option X
  basic_check e = if e.begin_first then e.nodeset else none

  unfoldable pub reset : XmlEncoder X F → XmlEncoder X F
  unfolding document
  reset e = record e {
    tree = xml.clear (document e);
    nodeset = none;
    namespace_uris = none;
    aliases = false;
  }

  -- CStrSize counts the terminating zero byte, which is written to the stream too.
  unfoldable pub xml_end : Effect (XmlEncoder X F) (Unit {0})
  unfolding basic_check reset document
  xml_end e = elim (basic_check e) [
    | none ↦ failed e
    | some s ↦ elim e.out_buffer [
      | some written ↦ (
        ok tt,
        reset (record e {
          begin_first = false;
          out_buffer = some (written ++ (xml.print (document e) ++ (0 ∷ [])));
        }),
      )
      | none ↦
          let (saved, files') = xml.save_file (c_string e.filename) (document e) e.files in
          if saved
          then (ok tt, reset (record e { begin_first = false; files = files' }))
          else failed (record e { files = files' })
    ]
  ]

  unfoldable pub add_uris : List Text → X → Option X
  add_uris [] x = some x
  add_uris (uri ∷ uris) x = elim (xml.insert_new_child_element (codes "Uri") x) [
    | none ↦ none
    | some c ↦ add_uris uris (xml.place (xml.set_text (c_string uri) c) x)
  ]

  unfoldable pub xml_add_namespaces : List Text → Effect (XmlEncoder X F) (Unit {0})
  unfolding basic_check add_uris
  xml_add_namespaces uris e = elim e.namespace_uris [
    | some p ↦ failed e
    | none ↦ elim (basic_check e) [
      | none ↦ failed e
      | some s ↦ elim (xml.new_element (codes "NamespaceUris")) [
        | none ↦ failed e
        | some x ↦ elim (add_uris uris x) [
          | none ↦ failed e
          | some filled ↦ elim (xml.insert_first_child (element_node filled) s) [
            | none ↦ failed e
            | some s' ↦
                (ok tt, record e { nodeset = some s'; namespace_uris = some Place.in_nodeset })
          ]
        ]
      ]
    ]
  ]

  abbrev pub fill_alias : Text → NodeId → X → X
  fill_alias alias id c =
      xml.set_attribute (codes "Alias") (c_string alias)
        (xml.set_text (c_string (node_id_to_string ua id)) c)

  unfoldable pub add_alias_elements : List (Text × NodeId) → X → Option X
  add_alias_elements [] x = some x
  add_alias_elements ((alias, id) ∷ rest) x =
      elim (xml.insert_new_child_element (codes "Alias") x) [
        | none ↦ none
        | some c ↦ add_alias_elements rest (xml.place (fill_alias alias id c) x)
      ]

  -- The results of the insertions are not looked at; one after an element of another parent does nothing.
  unfoldable pub insert_aliases : Option Place → X → X → X
  insert_aliases none x s = elim (xml.insert_first_child (element_node x) s) [
    | none ↦ s
    | some s' ↦ s'
  ]
  insert_aliases (some Place.in_nodeset) x s = xml.insert_after_first_child x s
  insert_aliases (some Place.elsewhere) x s = s

  unfoldable pub xml_add_aliases : List (Text × NodeId) → Effect (XmlEncoder X F) (Unit {0})
  unfolding basic_check add_alias_elements insert_aliases
  xml_add_aliases aliases e = if e.aliases then failed e else elim (basic_check e) [
    | none ↦ failed e
    | some s ↦ elim (xml.new_element (codes "Aliases")) [
      | none ↦ failed e
      | some x ↦ elim (add_alias_elements aliases x) [
        | none ↦ failed e
        | some filled ↦ (
          ok tt,
          record e { nodeset = some (insert_aliases e.namespace_uris filled s); aliases = true },
        )
      ]
    ]
  ]

  -- What the six methods for nodes share. The element stays in the document also where filling it in has
  -- failed.
  unfoldable pub add_node_element : Text → (X → Bool × X) → Effect (XmlEncoder X F) (Unit {0})
  unfolding basic_check
  add_node_element tag fill e = elim (basic_check e) [
    | none ↦ failed e
    | some s ↦ elim (xml.insert_new_child_element tag s) [
      | none ↦ failed e
      | some c ↦
          let (done, c') = fill c in
          let e' = record e { nodeset = some (xml.place c' s) } in
          if done then (ok tt, e') else failed e'
    ]
  ]

  unfoldable pub xml_add_node_object : NodeIntermediateModel → Effect (XmlEncoder X F) (Unit {0})
  xml_add_node_object m = add_node_element (codes "UAObject") (fill_object ua xml m)

  unfoldable pub xml_add_node_object_type :
      NodeIntermediateModel → Effect (XmlEncoder X F) (Unit {0})
  xml_add_node_object_type m = add_node_element (codes "UAObjectType") (add_node_ua_type ua xml m)

  unfoldable pub xml_add_node_variable : NodeIntermediateModel → Effect (XmlEncoder X F) (Unit {0})
  xml_add_node_variable m = add_node_element (codes "UAVariable") (fill_variable ua xml m)

  unfoldable pub xml_add_node_variable_type :
      NodeIntermediateModel → Effect (XmlEncoder X F) (Unit {0})
  xml_add_node_variable_type m =
      add_node_element (codes "UAVariableType") (fill_variable_type ua xml m)

  unfoldable pub xml_add_node_reference_type :
      NodeIntermediateModel → Effect (XmlEncoder X F) (Unit {0})
  xml_add_node_reference_type m =
      add_node_element (codes "UAReferenceType") (fill_reference_type ua xml m)

  unfoldable pub xml_add_node_data_type : NodeIntermediateModel → Effect (XmlEncoder X F) (Unit {0})
  xml_add_node_data_type m = add_node_element (codes "UADataType") (add_node_ua_type ua xml m)

  abbrev pub xml_encoder : IEncoder (XmlEncoder X F)
  xml_encoder = record {
    begin = xml_begin;
    end = xml_end;
    add_namespaces = xml_add_namespaces;
    add_aliases = xml_add_aliases;
    add_node_object = xml_add_node_object;
    add_node_object_type = xml_add_node_object_type;
    add_node_variable = xml_add_node_variable;
    add_node_variable_type = xml_add_node_variable_type;
    add_node_reference_type = xml_add_node_reference_type;
    add_node_data_type = xml_add_node_data_type;
  }

-- The two constructors, over the empty document of a new XMLDocument.
abbrev pub encoder_to_file : {X F : Type 0} → X → Text → F → XmlEncoder X F
encoder_to_file empty filename files = record {
  tree = empty;
  nodeset = none;
  namespace_uris = none;
  aliases = false;
  begin_first = false;
  filename = filename;
  out_buffer = none;
  files = files;
}

abbrev pub encoder_to_buffer : {X F : Type 0} → X → Text → F → XmlEncoder X F
encoder_to_buffer empty written files = record (encoder_to_file empty [] files) {
  out_buffer = some written;
}
