-- ===== src/XmlEncoder/File.antt =====
-- The file that a whole export with this encoder leaves.
use open62541_nodeset_export.Prelude.{
  List, Option-cases, Text, [], ap, append_assoc, codes, fun_ext, if◌then◌else◌, inl, inr, refl,
  some, sym, true, ◌++◌, ◌∙◌, ◌∷◌, ◌≡◌, ◌⊎◌,
}
use open62541_nodeset_export.Loop.ExportNodes.{add_node}
use open62541_nodeset_export.Loop.ExportNodes.Counts.{
  Accepted, is_exported, is_exported_node, not_exported,
}
use open62541_nodeset_export.Model.{NodeIntermediateModel}
use open62541_nodeset_export.Ua.{NodeId, Ua}
use open62541_nodeset_export.Xml.{Xml, XmlChild, XmlLaws, declaration_node, element_node}
use open62541_nodeset_export.XmlEncoder.{XmlEncoder, xml_encoder}
use open62541_nodeset_export.XmlEncoder.Document.{basic_check-eq-some}
use open62541_nodeset_export.XmlEncoder.Head.{
  IsAliases, IsNamespaceUris, nodeset_attributes, remarks,
}
use open62541_nodeset_export.XmlEncoder.Nodes.{some-injective, xml_add_node-IsAdded}
use open62541_nodeset_export.XmlNode.Classes.{IsNodeElement}
use open62541_nodeset_export.XmlNode.Updates.{Gains, nothing_added}

module _ {X F : Type 0} (ua : Ua) (xml : Xml X F) where
  -- The element of each model of a class that is exported, in order.
  abbrev pub NodeElements : List NodeIntermediateModel → List (XmlChild X) → Type 0
  NodeElements [] kids = kids ≡ []
  NodeElements (m ∷ ms) kids =
      if is_exported m.node_class
      then ((c : X) × (rest : List (XmlChild X)) × (kids ≡ element_node c ∷ rest)
          × IsNodeElement ua xml m.node_class m c
          × NodeElements ms rest)
      else NodeElements ms kids

  -- The Aliases element, or none where there are no aliases.
  abbrev pub IsAliasesOf : List (Text × NodeId) → List (XmlChild X) → Type 0
  IsAliasesOf aliases kids =
      ((aliases ≡ []) × (kids ≡ []))
      ⊎ ((c : X) × (kids ≡ element_node c ∷ []) × IsAliases ua xml aliases c)

  -- A declaration and a UANodeSet: in it the namespaces come first, then the aliases, the two remarks, and
  -- the nodes.
  abbrev pub IsNodeSetFile :
      List Text → List (Text × NodeId) → List NodeIntermediateModel → X → Type 0
  IsNodeSetFile uris aliases models doc =
      (d : Text) × (s u : X) × (between kids : List (XmlChild X)) × (xml.children doc
        ≡ declaration_node d ∷ element_node s ∷ [])
      × (xml.name s ≡ codes "UANodeSet")
      × (xml.attribute s ≡ nodeset_attributes ua xml)
      × (xml.children s ≡ element_node u ∷ (between ++ (remarks ua xml ++ kids)))
      × IsNamespaceUris ua xml uris u
      × IsAliasesOf aliases between
      × NodeElements models kids

  module _ (laws : XmlLaws xml) where
    -- Models that have been taken one after the other.
    abbrev pub AreAdded : List NodeIntermediateModel → X → XmlEncoder X F → XmlEncoder X F → Type 0
    AreAdded ms s e e' =
        (s' : X) × (e' ≡ record e { nodeset = some s' }) × Gains xml (NodeElements ms) s s'

    first_added :
        (m : NodeIntermediateModel) (ms : List NodeIntermediateModel) (c s s' : X)
        → is_exported m.node_class ≡ true
        → IsNodeElement ua xml m.node_class m c
        → Gains xml (NodeElements ms) (xml.place c s) s'
        → Gains xml (NodeElements (m ∷ ms)) s s'
    first_added m ms c s s' exported one (same, attrs, (kids, more, are)) = (
      same ∙ (laws.place-SameTag c s).0,
      attrs ∙ fun_ext (laws.place-SameTag c s).1,
      (
        element_node c ∷ kids,
        more
            ∙ ap (λ l. l ++ kids) (laws.children-place c s)
            ∙ append_assoc (xml.children s) (element_node c ∷ []) kids,
        rw exported (c, kids, refl, one, are),
      ),
    )

    pub Accepted-AreAdded :
        (ms : List NodeIntermediateModel) (e e' : XmlEncoder X F) (s : X)
        → e.nodeset ≡ some s
        → Accepted (xml_encoder ua xml) ms e e'
        → AreAdded ms s e e'
    Accepted-AreAdded [] e e' s here same = (
      s,
      sym same ∙ λ i. record e { nodeset = here i },
      nothing_added xml (NodeElements []) s refl,
    )
    Accepted-AreAdded (m ∷ ms) e e' s here accepted =
        elim (Option-cases (add_node (xml_encoder ua xml) m)) [
          | inl passed ↦
              let (s', same, grown) = Accepted-AreAdded ms e e' s here (rw passed at accepted) in
              (s', same, rw (not_exported (xml_encoder ua xml) m passed) grown)
          | inr (call, which) ↦
              let (e1, taken, rest) = rw which at accepted in
              let (s0, c, checked, same1, one) =
                xml_add_node-IsAdded ua xml laws m call e e1 which taken in
              let q : s0 ≡ s =
                some-injective s0 s (sym (basic_check-eq-some ua xml laws e s0 checked) ∙ here) in
              let (s', same, grown) =
                Accepted-AreAdded ms e1 e' (xml.place c s)
                  (ap (λ y. y.nodeset) same1 ∙ ap (λ y. some (xml.place c y)) q) rest in
              (
                s',
                same ∙ ap (λ (y : XmlEncoder X F). record y { nodeset = some s' }) same1,
                first_added m ms c s s' (is_exported_node (xml_encoder ua xml) m call which) one
                    grown,
              )
        ]
