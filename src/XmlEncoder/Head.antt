-- ===== src/XmlEncoder/Head.antt =====
-- What the encoder writes besides the nodes: the root element, the namespaces and the aliases.
use open62541_nodeset_export.Prelude.{
  List, Option-cases, Text, [], ap, append_assoc, codes, fun_ext, inl, inr, refl, some, subst, ◌++◌,
  ◌∙◌, ◌∷◌, ◌≡◌,
}
use open62541_nodeset_export.Strings.{c_string}
use open62541_nodeset_export.Ua.{NodeId, Ua, node_id_to_string}
use open62541_nodeset_export.Xml.{Xml, XmlChild, XmlLaws, comment_node, element_node, text_node}
use open62541_nodeset_export.XmlEncoder.{
  Place, XmlEncoder, add_alias_elements, add_uris, basic_check, definition_comment, fill_alias,
  new_nodeset, set_namespaces_of_schema, value_comment,
}
use open62541_nodeset_export.XmlEncoder.Nodes.{some-injective}
use open62541_nodeset_export.XmlNode.Attributes.{no_attributes, override}
use open62541_nodeset_export.XmlNode.Parts.{IsTextElement, text_element}
use open62541_nodeset_export.XmlNode.Updates.{
  Attrs, Empty-Gains, Filled, Gains, Gains-trans, new_child-Filled, nothing_added,
  set_attribute-Filled,
}

-- A list of elements, one for each value.
abbrev pub AreElements : {A X : Type 0} → (A → X → Type 0) → List A → List (XmlChild X) → Type 0
AreElements P [] kids = kids ≡ []
AreElements {A} {X} P (a ∷ others) kids =
    (c : X) × (rest : List (XmlChild X)) × (kids ≡ element_node c ∷ rest)
    × P a c
    × AreElements P others rest

module _ {X F : Type 0} (ua : Ua) (xml : Xml X F) where
  abbrev pub nodeset_attributes : Attrs
  nodeset_attributes =
      override (codes "xmlns") (some (codes "http://opcfoundation.org/UA/2011/03/UANodeSet.xsd")) (
        override (codes "xmlns:xsd") (some (codes "http://www.w3.org/2001/XMLSchema")) (
          override (codes "xmlns:uax")
            (some (codes "http://opcfoundation.org/UA/2008/02/Types.xsd"))
            (override (codes "xmlns:xsi") (some (codes "http://www.w3.org/2001/XMLSchema-instance"))
              no_attributes)))

  abbrev pub remarks : List (XmlChild X)
  remarks = comment_node (value_comment ua xml) ∷ comment_node (definition_comment ua xml) ∷ []

  abbrev pub IsUri : Text → X → Type 0
  IsUri uri = IsTextElement ua xml (codes "Uri") no_attributes (c_string uri)

  abbrev pub IsAlias : Text × NodeId → X → Type 0
  IsAlias (alias, id) =
      IsTextElement ua xml (codes "Alias")
        (override (codes "Alias") (some (c_string alias)) no_attributes)
        (c_string (node_id_to_string ua id))

  abbrev pub IsNamespaceUris : List Text → X → Type 0
  IsNamespaceUris uris = Filled xml (codes "NamespaceUris") no_attributes (AreElements IsUri uris)

  abbrev pub IsAliases : List (Text × NodeId) → X → Type 0
  IsAliases aliases = Filled xml (codes "Aliases") no_attributes (AreElements IsAlias aliases)

  -- A successful AddNamespaces: the element of the namespaces has become the first child.
  abbrev pub IsNamedBy : List Text → XmlEncoder X F → XmlEncoder X F → Type 0
  IsNamedBy uris e e' =
      (s s' c : X) × (basic_check ua xml e ≡ some s)
      × (e' ≡ record e { nodeset = some s'; namespace_uris = some Place.in_nodeset })
      × (xml.name s' ≡ xml.name s)
      × (xml.attribute s' ≡ xml.attribute s)
      × (xml.children s' ≡ element_node c ∷ xml.children s)
      × IsNamespaceUris uris c

  module _ (laws : XmlLaws xml) where
    pub new_element-Filled :
        (tag : Text) (x : X)
        → xml.new_element tag ≡ some x
        → Filled xml tag no_attributes (λ kids. kids ≡ []) x
    new_element-Filled tag x e = let (a, b, d) = laws.new_element-IsNew tag x e in (a, fun_ext b, d)

    -- One more child of a list.
    one_more :
        {A : Type 0} (P : A → X → Type 0) (a : A) (rest : List A) (c x y : X)
        → P a c
        → Gains xml (AreElements P rest) (xml.place c x) y
        → Gains xml (AreElements P (a ∷ rest)) x y
    one_more P a rest c x y one (same, attrs, (kids, more, are)) = (
      same ∙ (laws.place-SameTag c x).0,
      attrs ∙ fun_ext (laws.place-SameTag c x).1,
      (
        element_node c ∷ kids,
        more
            ∙ ap (λ l. l ++ kids) (laws.children-place c x)
            ∙ append_assoc (xml.children x) (element_node c ∷ []) kids,
        (c, kids, refl, one, are),
      ),
    )

    pub add_uris-Gains :
        (uris : List Text) (x y : X)
        → add_uris ua xml uris x ≡ some y
        → Gains xml (AreElements IsUri uris) x y
    unfolding add_uris
    add_uris-Gains [] x y h =
        subst (λ z. Gains xml (AreElements IsUri []) x z) (some-injective x y h)
          (nothing_added xml (AreElements IsUri []) x refl)
    add_uris-Gains (uri ∷ uris) x y h =
        elim (Option-cases (xml.insert_new_child_element (codes "Uri") x)) [
          | inl e ↦ let bad = rw (e, add_uris) at h in cc
          | inr (c, e) ↦
              one_more IsUri uri uris (xml.set_text (c_string uri) c) x y
                (text_element ua xml laws (codes "Uri") no_attributes (c_string uri) c
                  (new_child-Filled xml laws (codes "Uri") x c e))
                (add_uris-Gains uris _ y (rw (e, add_uris) at h))
        ]

    aliotherselement :
        (alias : Text) (id : NodeId) (x c : X)
        → xml.insert_new_child_element (codes "Alias") x ≡ some c
        → IsAlias (alias, id) (fill_alias ua xml alias id c)
    aliotherselement alias id x c e =
        let (n, a, k) =
          text_element ua xml laws (codes "Alias") no_attributes
            (c_string (node_id_to_string ua id)) c
            (new_child-Filled xml laws (codes "Alias") x c e) in
        set_attribute-Filled xml laws (codes "Alias") no_attributes
          (λ kids. kids ≡ text_node (c_string (node_id_to_string ua id)) ∷ []) (codes "Alias")
          (c_string alias) _ (n, a, k)

    pub add_alias_elements-Gains :
        (aliases : List (Text × NodeId)) (x y : X)
        → add_alias_elements ua xml aliases x ≡ some y
        → Gains xml (AreElements IsAlias aliases) x y
    unfolding add_alias_elements
    add_alias_elements-Gains [] x y h =
        subst (λ z. Gains xml (AreElements IsAlias []) x z) (some-injective x y h)
          (nothing_added xml (AreElements IsAlias []) x refl)
    add_alias_elements-Gains ((alias, id) ∷ aliases) x y h =
        elim (Option-cases (xml.insert_new_child_element (codes "Alias") x)) [
          | inl e ↦ let bad = rw (e, add_alias_elements) at h in cc
          | inr (c, e) ↦
              one_more IsAlias (alias, id) aliases (fill_alias ua xml alias id c) x y
                (aliotherselement alias id x c e)
                (add_alias_elements-Gains aliases _ y (rw (e, add_alias_elements) at h))
        ]

    comment-Gains :
        (t : Text) (x : X)
        → Gains xml (λ kids. kids ≡ comment_node t ∷ []) x (xml.insert_new_comment t x)
    comment-Gains t x = (
      (laws.comment-SameTag t x).0,
      fun_ext (laws.comment-SameTag t x).1,
      (comment_node t ∷ [], laws.children-comment t x, refl),
    )

    pub new_nodeset-Filled :
        (x : X)
        → xml.new_element (codes "UANodeSet") ≡ some x
        → Filled xml
            (codes "UANodeSet")
            nodeset_attributes
            (λ kids. kids ≡ remarks)
            (new_nodeset ua xml x)
    unfolding new_nodeset set_namespaces_of_schema
    new_nodeset-Filled x e =
        let tag = codes "UANodeSet" in
        let none_yet = λ (kids : List (XmlChild X)). kids ≡ [] in
        let root =
          set_attribute-Filled xml laws tag _ none_yet (codes "xmlns")
            (codes "http://opcfoundation.org/UA/2011/03/UANodeSet.xsd") _
            (set_attribute-Filled xml laws tag _ none_yet (codes "xmlns:xsd")
              (codes "http://www.w3.org/2001/XMLSchema") _
              (set_attribute-Filled xml laws tag _ none_yet (codes "xmlns:uax")
                (codes "http://opcfoundation.org/UA/2008/02/Types.xsd") _
                (set_attribute-Filled xml laws tag no_attributes none_yet (codes "xmlns:xsi")
                  (codes "http://www.w3.org/2001/XMLSchema-instance") x
                  (new_element-Filled tag x e)))) in
        let first = comment-Gains (value_comment ua xml) (set_namespaces_of_schema ua xml x) in
        let second = comment-Gains (definition_comment ua xml) _ in
        let (n, a, (b, c, k, kb, kc)) =
          Empty-Gains xml tag nodeset_attributes _ _ _ root
            (Gains-trans xml _ _ _ _ _ first second) in
        (n, a, rw (k, kb, kc))
