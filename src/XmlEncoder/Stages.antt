-- ===== src/XmlEncoder/Stages.antt =====
-- What each part of an export leaves in the encoder.
use open62541_nodeset_export.Prelude.{
  List, Option, Text, [], ap, append-nil, codes, fun_ext, inl, inr, none, refl, some, subst, sym,
  ◌++◌, ◌∙◌, ◌∷◌, ◌≡◌, ◌⊎◌,
}
use open62541_nodeset_export.Containers.Slots.{holds}
use open62541_nodeset_export.Loop.ExportNodes.Counts.{Accepted}
use open62541_nodeset_export.Model.{NodeIntermediateModel}
use open62541_nodeset_export.Status.{ok}
use open62541_nodeset_export.Ua.{NodeId, Ua}
use open62541_nodeset_export.Xml.{Xml, XmlChild, XmlLaws, declaration_node, element_node}
use open62541_nodeset_export.XmlEncoder.{
  Place, XmlEncoder, basic_check, document, insert_aliases, moved, reset, xml_add_aliases,
  xml_add_namespaces, xml_begin, xml_encoder, xml_end,
}
use open62541_nodeset_export.XmlEncoder.Document.{
  basic_check-eq-some, some-eq-ok, xml_add_aliases-IsAliasedBy, xml_add_namespaces-IsNamedBy,
  xml_begin-IsBegun,
}
use open62541_nodeset_export.XmlEncoder.File.{Accepted-AreAdded, IsAliasesOf, NodeElements}
use open62541_nodeset_export.XmlEncoder.Head.{IsNamespaceUris, nodeset_attributes, remarks}
use open62541_nodeset_export.XmlEncoder.Nodes.{some-injective}
use open62541_nodeset_export.XmlNode.Updates.{Filled}

module _ {X F : Type 0} (ua : Ua) (xml : Xml X F) where
  module _ (laws : XmlLaws xml) where
    -- What is known of the encoder between the calls: its document, its UANodeSet, what has been written,
    -- and where the namespaces are.
    abbrev pub At : X → Text → Option Place → X → XmlEncoder X F → Type 0
    At t written place_of_uris s e =
        (e.tree ≡ t)
        × (e.nodeset ≡ some s)
        × (e.out_buffer ≡ some written)
        × (e.namespace_uris ≡ place_of_uris)

    -- An encoder to a buffer that has not begun: nothing is in its document.
    abbrev pub IsFresh : Text → XmlEncoder X F → Type 0
    IsFresh written e =
        (xml.children e.tree ≡ [])
        × (e.nodeset ≡ none)
        × (e.out_buffer ≡ some written)
        × (e.namespace_uris ≡ none)

    -- The UANodeSet with what it holds so far.
    abbrev pub Holds : List Text → List (XmlChild X) → List NodeIntermediateModel → X → Type 0
    Holds uris between models s =
        (xml.name s ≡ codes "UANodeSet")
        × (xml.attribute s ≡ nodeset_attributes ua xml)
        × ((u : X) × (kids : List (XmlChild X)) × (xml.children s
              ≡ element_node u ∷ (between ++ (remarks ua xml ++ kids)))
            × IsNamespaceUris ua xml uris u
            × NodeElements ua xml models kids)

    pub same_nodeset :
        (e : XmlEncoder X F) (s s0 : X)
        → e.nodeset ≡ some s
        → basic_check ua xml e ≡ some s0
        → s0 ≡ s
    same_nodeset e s s0 here checked =
        some-injective s0 s (sym (basic_check-eq-some ua xml laws e s0 checked) ∙ here)

    pub after_begin :
        (written : Text) (e e' : XmlEncoder X F)
        → IsFresh written e
        → xml_begin ua xml e ≡ (ok tt, e')
        → (t s : X) × (d : Text) × At t written none s e'
          × (xml.children t ≡ declaration_node d ∷ [])
          × Filled xml
              (codes "UANodeSet")
              (nodeset_attributes ua xml)
              (λ kids. kids ≡ remarks ua xml)
              s
    unfolding document
    after_begin written e e' (no_child, closed, buffer, p) h =
        let (d, t, s, same, top, root) = xml_begin-IsBegun ua xml laws e e' h in
        (
          t,
          s,
          d,
          (
            ap (λ y. y.tree) same ∙ λ i. elim (closed i) [ none ↦ t | some s0 ↦ xml.place s0 t ],
            ap (λ y. y.nodeset) same,
            ap (λ y. y.out_buffer) same ∙ buffer,
            ap (λ y. y.namespace_uris) same ∙ ap moved p,
          ),
          top ∙ ap (λ l. declaration_node d ∷ l) no_child,
          root,
        )

    pub after_namespaces :
        (uris : List Text) (t s : X) (written : Text) (e e' : XmlEncoder X F)
        → At t written none s e
        → Filled xml
            (codes "UANodeSet")
            (nodeset_attributes ua xml)
            (λ kids. kids ≡ remarks ua xml)
            s
        → xml_add_namespaces ua xml uris e ≡ (ok tt, e')
        → (s' : X) × At t written (some Place.in_nodeset) s' e' × Holds uris [] [] s'
    after_namespaces uris t s written e e' (tree, here, buffer, p) (n, a, k) h =
        let (free, (s0, s', u, checked, same, n', a', k', are)) =
          xml_add_namespaces-IsNamedBy ua xml laws uris e e' h in
        let q : s0 ≡ s = same_nodeset e s s0 here checked in
        (
          s',
          (
            ap (λ y. y.tree) same ∙ tree,
            ap (λ y. y.nodeset) same,
            ap (λ y. y.out_buffer) same ∙ buffer,
            ap (λ y. y.namespace_uris) same,
          ),
          (
            n' ∙ ap xml.name q ∙ n,
            a' ∙ ap xml.attribute q ∙ a,
            (
              u,
              [],
              k'
                  ∙ ap (λ y. element_node u ∷ xml.children y) q
                  ∙ ap (λ l. element_node u ∷ l) (k ∙ sym (append-nil (remarks ua xml))),
              are,
              refl,
            ),
          ),
        )

    pub after_nodes :
        (uris : List Text) (models : List NodeIntermediateModel) (t s : X) (written : Text)
        (e e' : XmlEncoder X F)
        → At t written (some Place.in_nodeset) s e
        → Holds uris [] [] s
        → Accepted (xml_encoder ua xml) models e e'
        → (s' : X) × At t written (some Place.in_nodeset) s' e' × Holds uris [] models s'
    after_nodes uris models t s written e e' (tree, here, buffer, p)
          (n, a, (u, kids, k, are, none_yet)) h =
        let (s', same, (n', a', (more, k', nodes))) =
          Accepted-AreAdded ua xml laws models e e' s here h in
        (
          s',
          (
            ap (λ y. y.tree) same ∙ tree,
            ap (λ y. y.nodeset) same,
            ap (λ y. y.out_buffer) same ∙ buffer,
            ap (λ y. y.namespace_uris) same ∙ p,
          ),
          (
            n' ∙ n,
            a' ∙ a,
            (
              u,
              more,
              k'
                  ∙ ap (λ l. l ++ more)
                      (k ∙ ap (λ l. element_node u ∷ (remarks ua xml ++ l)) none_yet),
              are,
              nodes,
            ),
          ),
        )

    pub insert_aliases_lem :
        (c s u : X) (rest : List (XmlChild X)) (p : Option Place)
        → p ≡ some Place.in_nodeset
        → xml.children s ≡ element_node u ∷ rest
        → (xml.name (insert_aliases ua xml p c s) ≡ xml.name s)
          × (xml.attribute (insert_aliases ua xml p c s) ≡ xml.attribute s)
          × (xml.children (insert_aliases ua xml p c s) ≡ element_node u ∷ element_node c ∷ rest)
    unfolding insert_aliases
    insert_aliases_lem c s u rest none e k = cc
    insert_aliases_lem c s u rest (some Place.elsewhere) e k = cc
    insert_aliases_lem c s u rest (some Place.in_nodeset) e k = (
      (laws.insert_after_first_child-SameTag c s).0,
      fun_ext (laws.insert_after_first_child-SameTag c s).1,
      laws.children-insert_after_first_child c s (element_node u) rest k,
    )

    pub after_aliases :
        (uris : List Text) (models : List NodeIntermediateModel) (aliases : List (Text × NodeId))
        (t s : X) (written : Text) (e e' : XmlEncoder X F)
        → At t written (some Place.in_nodeset) s e
        → Holds uris [] models s
        → ((aliases ≡ []) × (e ≡ e')) ⊎ (xml_add_aliases ua xml aliases e ≡ (ok tt, e'))
        → (s' : X) × (between : List (XmlChild X)) × At t written (some Place.in_nodeset) s' e'
          × Holds uris between models s'
          × IsAliasesOf ua xml aliases between
    after_aliases uris models aliases t s written e e' at holds (inl (no_alias, same)) =
        (s, [], subst (At t written (some Place.in_nodeset) s) same at, holds, inl (no_alias, refl))
    after_aliases uris models aliases t s written e e' (tree, here, buffer, p)
          (n, a, (u, kids, k, are, nodes)) (inr h) =
        let (s0, c, checked, same, is) = xml_add_aliases-IsAliasedBy ua xml laws aliases e e' h in
        let q : s0 ≡ s = same_nodeset e s s0 here checked in
        let (n', a', k') =
          insert_aliases_lem c s0 u (remarks ua xml ++ kids) e.namespace_uris p
            (ap xml.children q ∙ k) in
        (
          insert_aliases ua xml e.namespace_uris c s0,
          element_node c ∷ [],
          (
            ap (λ y. y.tree) same ∙ tree,
            ap (λ y. y.nodeset) same,
            ap (λ y. y.out_buffer) same ∙ buffer,
            ap (λ y. y.namespace_uris) same ∙ p,
          ),
          (n' ∙ ap xml.name q ∙ n, a' ∙ ap xml.attribute q ∙ a, (u, kids, k', are, nodes)),
          inr (c, refl, is),
        )

    buffered-eq :
        {R : Type 0} (o : Option Text) (written : Text) (f : Text → R) (r z : R)
        → o ≡ some written
        → elim o [ some w ↦ f w | none ↦ r ] ≡ z
        → f written ≡ z
    buffered-eq (some w) written f r z e h = ap f (sym (some-injective w written e)) ∙ h
    buffered-eq none written f r z e h = cc

    pub after_end :
        (t s : X) (written : Text) (e e' : XmlEncoder X F) (p : Option Place)
        → At t written p s e
        → xml_end ua xml e ≡ (ok tt, e')
        → IsFresh (written ++ (xml.print (xml.place s t) ++ (0 ∷ []))) e'
    unfolding xml_end reset document
    after_end t s written e e' p (tree, here, buffer, _) h =
        let (s0, checked, h1) = some-eq-ok ua xml e e' (basic_check ua xml e) _ h in
        let h2 = buffered-eq e.out_buffer written _ _ (ok tt, e') buffer h1 in
        let doc : document ua xml e ≡ xml.place s t =
          λ i. elim (here i) [ none ↦ tree i | some s1 ↦ xml.place s1 (tree i) ] in
        (
          ap (λ q. xml.children q.1.tree) (sym h2) ∙ laws.children-clear _,
          ap (λ q. q.1.nodeset) (sym h2),
          ap (λ q. q.1.out_buffer) (sym h2)
              ∙ ap (λ d. some (written ++ (xml.print d ++ (0 ∷ [])))) doc,
          ap (λ q. q.1.namespace_uris) (sym h2),
        )
