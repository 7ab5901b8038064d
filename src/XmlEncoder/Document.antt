-- ===== src/XmlEncoder/Document.antt =====
-- The document that the encoder leaves after a whole export.
use open62541_nodeset_export.Prelude.{
  Bool, List, Option, Text, ap, arith, codes, false, fun_ext, if◌then◌else◌, none, refl, some, sym,
  true, ◌∷◌, ◌≡◌,
}
use open62541_nodeset_export.Status.{Outcome, Status, fails, of_status, ok}
use open62541_nodeset_export.Ua.{NodeId, Ua}
use open62541_nodeset_export.Xml.{Xml, XmlLaws, declaration_node, element_node}
use open62541_nodeset_export.XmlEncoder.{
  XmlEncoder, add_alias_elements, add_uris, basic_check, document, failed, insert_aliases, moved,
  new_nodeset, set_namespaces_of_schema, xml_add_aliases, xml_add_namespaces, xml_begin,
}
use open62541_nodeset_export.XmlEncoder.Head.{
  AreElements, IsAlias, IsAliases, IsNamedBy, IsUri, add_alias_elements-Gains, add_uris-Gains,
  new_element-Filled, new_nodeset-Filled, nodeset_attributes, remarks,
}
use open62541_nodeset_export.XmlNode.Attributes.{no_attributes}
use open62541_nodeset_export.XmlNode.Updates.{Empty-Gains, Filled}

module _ {X F : Type 0} (ua : Ua) (xml : Xml X F) where
  pub failed-ne-ok : (e e' : XmlEncoder X F) → failed ua xml e ≡ (ok tt, e') → ⊥
  failed-ne-ok e e' h = let bad : fails (of_status Status.fail) ≡ ok tt = ap (λ p. p.0) h in cc

  -- A part that had to be there.
  pub some-eq-ok :
      {A : Type 0} (e e' : XmlEncoder X F) (o : Option A)
      (f : A → Outcome (Unit {0}) × XmlEncoder X F)
      → elim o [ none ↦ failed ua xml e | some a ↦ f a ] ≡ (ok tt, e')
      → (a : A) × (o ≡ some a) × (f a ≡ (ok tt, e'))
  some-eq-ok e e' none f h = absurd (failed-ne-ok e e' h)
  some-eq-ok e e' (some a) f h = (a, refl, h)

  none-eq-ok :
      {A : Type 0} (e e' : XmlEncoder X F) (o : Option A) (r : Outcome (Unit {0}) × XmlEncoder X F)
      → elim o [ some a ↦ failed ua xml e | none ↦ r ] ≡ (ok tt, e')
      → (o ≡ none) × (r ≡ (ok tt, e'))
  none-eq-ok e e' none r h = (refl, h)
  none-eq-ok e e' (some a) r h = absurd (failed-ne-ok e e' h)

  module _ (laws : XmlLaws xml) where
    pub xml_add_namespaces-IsNamedBy :
        (uris : List Text) (e e' : XmlEncoder X F)
        → xml_add_namespaces ua xml uris e ≡ (ok tt, e')
        → (e.namespace_uris ≡ none) × IsNamedBy ua xml uris e e'
    unfolding xml_add_namespaces
    xml_add_namespaces-IsNamedBy uris e e' h =
        let (free, h1) = none-eq-ok e e' e.namespace_uris _ h in
        let (s, checked, h2) = some-eq-ok e e' (basic_check ua xml e) _ h1 in
        let (x, made, h3) = some-eq-ok e e' (xml.new_element (codes "NamespaceUris")) _ h2 in
        let (c, filled, h4) = some-eq-ok e e' (add_uris ua xml uris x) _ h3 in
        let (s', first, h5) = some-eq-ok e e' (xml.insert_first_child (element_node c) s) _ h4 in
        let same = laws.insert_first_child-SameTag (element_node c) s s' first in
        (
          free,
          (
            s,
            s',
            c,
            checked,
            sym (ap (λ p. p.1) h5),
            same.0,
            fun_ext same.1,
            laws.children-insert_first_child (element_node c) s s' first,
            Empty-Gains xml (codes "NamespaceUris") no_attributes (AreElements (IsUri ua xml) uris)
                x c (new_element-Filled ua xml laws (codes "NamespaceUris") x made)
                (add_uris-Gains ua xml laws uris x c filled),
          ),
        )

    if-eq-ok :
        (e e' : XmlEncoder X F) (b : Bool) (r : Outcome (Unit {0}) × XmlEncoder X F)
        → (if b then failed ua xml e else r) ≡ (ok tt, e')
        → r ≡ (ok tt, e')
    if-eq-ok e e' true r h = absurd (failed-ne-ok e e' h)
    if-eq-ok e e' false r h = h

    -- A successful AddAliases.
    abbrev pub IsAliasedBy : List (Text × NodeId) → XmlEncoder X F → XmlEncoder X F → Type 0
    IsAliasedBy aliases e e' =
        (s c : X) × (basic_check ua xml e ≡ some s)
        × (e' ≡ record e {
          nodeset = some (insert_aliases ua xml e.namespace_uris c s);
          aliases = true;
        })
        × IsAliases ua xml aliases c

    pub xml_add_aliases-IsAliasedBy :
        (aliases : List (Text × NodeId)) (e e' : XmlEncoder X F)
        → xml_add_aliases ua xml aliases e ≡ (ok tt, e')
        → IsAliasedBy aliases e e'
    unfolding xml_add_aliases
    xml_add_aliases-IsAliasedBy aliases e e' h =
        let h1 = if-eq-ok e e' e.aliases _ h in
        let (s, checked, h2) = some-eq-ok e e' (basic_check ua xml e) _ h1 in
        let (x, made, h3) = some-eq-ok e e' (xml.new_element (codes "Aliases")) _ h2 in
        let (c, filled, h4) = some-eq-ok e e' (add_alias_elements ua xml aliases x) _ h3 in
        (
          s,
          c,
          checked,
          sym (ap (λ p. p.1) h4),
          Empty-Gains xml (codes "Aliases") no_attributes (AreElements (IsAlias ua xml) aliases) x c
              (new_element-Filled ua xml laws (codes "Aliases") x made)
              (add_alias_elements-Gains ua xml laws aliases x c filled),
        )

    -- A successful Begin.
    abbrev pub IsBegun : XmlEncoder X F → XmlEncoder X F → Type 0
    IsBegun e e' =
        (d : Text) × (t s : X) × (e' ≡ record e {
          tree = document ua xml (record e { tree = t });
          nodeset = some s;
          namespace_uris = moved e.namespace_uris;
          begin_first = true;
        })
        × (xml.children t ≡ declaration_node d ∷ xml.children e.tree)
        × Filled xml (codes "UANodeSet") (nodeset_attributes ua xml) (λ kids. kids ≡ remarks ua xml)
            s

    pub xml_begin-IsBegun :
        (e e' : XmlEncoder X F) → xml_begin ua xml e ≡ (ok tt, e') → IsBegun e e'
    unfolding xml_begin
    xml_begin-IsBegun e e' h =
        let (d, declared, h1) = some-eq-ok e e' xml.new_declaration _ h in
        let (t, inserted, h2) =
          some-eq-ok e e' (xml.insert_first_child (declaration_node d) e.tree) _ h1 in
        let e1 = record e { tree = t } in
        let (x, made, h3) = some-eq-ok e1 e' (xml.new_element (codes "UANodeSet")) _ h2 in
        let (whole, placed, h4) =
          some-eq-ok e1 e'
            (xml.insert_end_child (element_node (set_namespaces_of_schema ua xml x))
              (document ua xml e1))
            _ h3 in
        (
          d,
          t,
          new_nodeset ua xml x,
          sym (ap (λ p. p.1) h4),
          laws.children-insert_first_child (declaration_node d) e.tree t inserted,
          new_nodeset-Filled ua xml laws x made,
        )

    pub basic_check-eq-some :
        (e : XmlEncoder X F) (s : X) → basic_check ua xml e ≡ some s → e.nodeset ≡ some s
    unfolding basic_check
    basic_check-eq-some e s h = ground arith
