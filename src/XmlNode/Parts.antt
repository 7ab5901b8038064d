-- ===== src/XmlNode/Parts.antt =====
-- The children of the element of a node: its names and its references.
use open62541_nodeset_export.Prelude.{
  Bool, Bool-cases, List, Option, Option-cases, Text, [], ap, append_assoc, codes, false, fun_ext,
  if◌then◌else◌, inl, inr, is_empty, map, none, refl, some, subst, sym, true, ℕ, ◌++◌, ◌∙◌, ◌∷◌,
  ◌≡◌, ◌≢◌, ◌⊎◌,
}
use open62541_nodeset_export.AttributeText.{ua_localized_text_to_xml_string}
use open62541_nodeset_export.Model.{
  NodeIntermediateModel, get_node_reference_type_aliases, reference_type_text,
}
use open62541_nodeset_export.Strings.{c_string}
use open62541_nodeset_export.Ua.{
  AttrValue, LocalizedText, ReferenceDescription, Ua, localized_text, scalar,
}
use open62541_nodeset_export.Xml.{Xml, XmlChild, XmlLaws, element_node, text_node}
use open62541_nodeset_export.XmlNode.{
  add_localized, add_references, fill_localized, fill_reference, fill_references,
  get_and_check_ua_attribute, if_done,
}
use open62541_nodeset_export.XmlNode.Attributes.{no_attributes, override}
use open62541_nodeset_export.XmlNode.Updates.{
  Attrs, Filled, Gains, OnDone, OnDone-map, new_child-Filled, nothing_added, place-Gains,
  set_attribute-Filled, set_if-Filled,
}

module _ {X F : Type 0} (ua : Ua) (xml : Xml X F) where
  -- An element with this name and these attributes around a text.
  abbrev pub IsTextElement : Text → Attrs → Text → X → Type 0
  IsTextElement tag attrs t c =
      (xml.name c ≡ tag) × (xml.attribute c ≡ attrs) × (xml.children c ≡ text_node t ∷ [])

  abbrev pub locale_attribute : LocalizedText → Attrs
  locale_attribute t =
      override (codes "Locale") (if is_empty t.locale then none else some (c_string t.locale))
        no_attributes

  -- The localized text of a value; one of another type reads as empty.
  abbrev pub localized : AttrValue → LocalizedText
  localized (scalar (localized_text t)) = t
  localized _ = record { locale = []; text = [] }

  abbrev pub IsLocalized : Text → AttrValue → List (XmlChild X) → Type 0
  IsLocalized tag v kids =
      (c : X) × (kids ≡ element_node c ∷ [])
      × IsTextElement tag (locale_attribute (localized v)) (c_string (localized v).text) c

  -- The element of a localized text that is not empty.
  abbrev pub IsLocalizedOf : Text → Option AttrValue → List (XmlChild X) → Type 0
  IsLocalizedOf tag none kids = kids ≡ []
  IsLocalizedOf tag (some v) kids =
      (((localized v).text ≡ []) × (kids ≡ []))
      ⊎ (((localized v).text ≢ []) × IsLocalized tag v kids)

  abbrev pub reference_attributes : ReferenceDescription → Attrs
  reference_attributes ref =
      override (codes "IsForward") (if ref.is_forward then none else some (codes "false")) (
        override (codes "ReferenceType")
          (some (c_string (reference_type_text ua ref.reference_type_id))) no_attributes)

  abbrev pub IsReference : ReferenceDescription → X → Type 0
  IsReference ref c =
      (ua.node_id_is_null ref.node_id.node_id ≡ false)
      × IsTextElement (codes "Reference") (reference_attributes ref)
          (c_string (ua.expanded_print ref.node_id)) c

  -- One element for each reference, in order.
  abbrev pub AreReferences : List ReferenceDescription → List (XmlChild X) → Type 0
  AreReferences [] kids = kids ≡ []
  AreReferences (ref ∷ refs) kids =
      (c : X) × (rest : List (XmlChild X)) × (kids ≡ element_node c ∷ rest)
      × IsReference ref c
      × AreReferences refs rest

  -- The References element, which is missing only where tinyxml2 could not make it.
  abbrev pub IsReferencesOf : NodeIntermediateModel → List (XmlChild X) → Type 0
  IsReferencesOf m kids =
      ((c : X) × (kids ≡ element_node c ∷ [])
        × (xml.name c ≡ codes "References")
        × (xml.attribute c ≡ no_attributes)
        × AreReferences m.references (xml.children c))
      ⊎ ((y : X) × (xml.insert_new_child_element (codes "References") y ≡ none) × (kids ≡ []))

  module _ (laws : XmlLaws xml) where
    -- A text put into an element whose attributes have been set.
    pub text_element :
        (tag : Text) (a : Attrs) (t : Text) (c : X)
        → Filled xml tag a (λ kids. kids ≡ []) c
        → IsTextElement tag a t (xml.set_text t c)
    text_element tag a t c (n, e, k) = (
      (laws.set_text-SameTag t c).0 ∙ n,
      fun_ext (laws.set_text-SameTag t c).1 ∙ e,
      laws.children-set_text t c k,
    )

    localized_lem :
        (v : AttrValue)
        → ua_localized_text_to_xml_string v
          ≡ record { locale = (localized v).locale; text = (localized v).text }
    unfolding ua_localized_text_to_xml_string
    localized_lem (scalar (localized_text t)) = refl
    localized_lem v = refl

    pub fill_localized-IsLocalized :
        (tag : Text) (v : AttrValue) (x c : X)
        → xml.insert_new_child_element tag x ≡ some c
        → IsLocalized tag v
            (element_node (fill_localized ua xml (ua_localized_text_to_xml_string v) c) ∷ [])
    unfolding fill_localized
    fill_localized-IsLocalized tag v x c e =
        let t = localized v in
        rw (localized_lem v) (
          _,
          refl,
          text_element tag (locale_attribute t) (c_string t.text) _ (
              set_if-Filled xml laws tag no_attributes (λ kids. kids ≡ []) (is_empty t.locale)
                (codes "Locale") (c_string t.locale) c (new_child-Filled xml laws tag x c e)),
        )

    is_empty-eq : (t : Text) → is_empty t ≡ true → t ≡ []
    is_empty-eq [] h = refl
    is_empty-eq (c ∷ cs) h = cc

    is_empty-ne : (t : Text) → is_empty t ≡ false → t ≢ []
    is_empty-ne [] h e = cc
    is_empty-ne (c ∷ cs) h e = cc

    placed_value :
        (tag : Text) (v : AttrValue) (x : X) (o : Option X)
        → xml.insert_new_child_element tag x ≡ o
        → (localized v).text ≢ []
        → OnDone (Gains xml (IsLocalizedOf tag (some v)) x) (elim o [
          | none ↦ (false, x)
          | some c ↦
              (true, xml.place (fill_localized ua xml (ua_localized_text_to_xml_string v) c) x)
        ])
    placed_value tag v x none e filled = tt
    placed_value tag v x (some c) e filled =
        place-Gains xml laws (IsLocalizedOf tag (some v)) _ x
          (inr (filled, fill_localized-IsLocalized tag v x c e))

    localized_value :
        (tag : Text) (v : AttrValue) (x : X)
        → OnDone (Gains xml (IsLocalizedOf tag (some v)) x) (
            if is_empty (ua_localized_text_to_xml_string v).text
            then (true, x)
            else elim (xml.insert_new_child_element tag x) [
              | none ↦ (false, x)
              | some c ↦
                  (true, xml.place (fill_localized ua xml (ua_localized_text_to_xml_string v) c) x)
            ])
    localized_value tag v x =
        let same : (ua_localized_text_to_xml_string v).text ≡ (localized v).text =
          ap (λ t. t.text) (localized_lem v) in
        elim (Bool-cases (is_empty (ua_localized_text_to_xml_string v).text)) [
          | inl b ↦ rw b (
              nothing_added xml (IsLocalizedOf tag (some v)) x
                (inl (sym same ∙ is_empty-eq _ b, refl)))
          | inr b ↦ rw b (
              placed_value tag v x (xml.insert_new_child_element tag x) refl
                (λ q. is_empty-ne _ b (same ∙ q)))
        ]

    pub add_localized-Gains :
        (tag : Text) (k : ℕ) (m : NodeIntermediateModel) (x : X)
        → OnDone
            (Gains xml (IsLocalizedOf tag (get_and_check_ua_attribute m k)) x)
            (add_localized ua xml tag k m x)
    unfolding add_localized
    add_localized-Gains tag k m x = elim (Option-cases (get_and_check_ua_attribute m k)) [
      | inl e ↦ rw (e, add_localized) (nothing_added xml (λ kids. kids ≡ []) x refl)
      | inr (v, e) ↦ rw (e, add_localized) (localized_value tag v x)
    ]

    fill_reference-IsReference :
        (ref : ReferenceDescription) (x c : X)
        → xml.insert_new_child_element (codes "Reference") x ≡ some c
        → OnDone
            (IsReference ref)
            (fill_reference ua xml ref (reference_type_text ua ref.reference_type_id) c)
    unfolding fill_reference
    fill_reference-IsReference ref x c e =
        let type_text = reference_type_text ua ref.reference_type_id in
        let c1 = xml.set_attribute (codes "ReferenceType") (c_string type_text) c in
        elim (Bool-cases (is_empty type_text)) [
          | inl b ↦ rw b tt
          | inr b ↦ elim (Bool-cases (ua.node_id_is_null ref.node_id.node_id)) [
            | inl null ↦ rw (b, null) tt
            | inr null ↦
                rw (b, null)
                  (
                    null,
                    text_element (codes "Reference") (reference_attributes ref)
                        (c_string (ua.expanded_print ref.node_id)) _
                        (set_if-Filled xml laws (codes "Reference") _ (λ kids. kids ≡ [])
                          ref.is_forward (codes "IsForward") (codes "false") c1
                          (set_attribute-Filled xml laws (codes "Reference") no_attributes
                            (λ kids. kids ≡ []) (codes "ReferenceType") (c_string type_text) c
                            (new_child-Filled xml laws (codes "Reference") x c e))),
                  )
          ]
        ]

    one_more_reference :
        (ref : ReferenceDescription) (refs : List ReferenceDescription) (c x y : X)
        → IsReference ref c
        → Gains xml (AreReferences refs) (xml.place c x) y
        → Gains xml (AreReferences (ref ∷ refs)) x y
    one_more_reference ref refs c x y one (same, attrs, (kids, more, are)) = (
      same ∙ (laws.place-SameTag c x).0,
      attrs ∙ fun_ext (laws.place-SameTag c x).1,
      (
        element_node c ∷ kids,
        more
            ∙ ap (λ l. l ++ kids) (laws.children-place c x)
            ∙ append_assoc (xml.children x) (element_node c ∷ []) kids,
        (c, kids, refl, one, are),
      ),
    )

    next_reference :
        (ref : ReferenceDescription) (refs : List ReferenceDescription) (c x : X) (f : X → Bool × X)
        (r : Bool × X)
        → OnDone (IsReference ref) r
        → ((y : X) → OnDone (Gains xml (AreReferences refs) y) (f y))
        → OnDone (Gains xml (AreReferences (ref ∷ refs)) x) (if_done (r.0, xml.place r.1 x) f)
    next_reference ref refs c x f (true, c') one rest =
        OnDone-map (Gains xml (AreReferences refs) (xml.place c' x))
          (Gains xml (AreReferences (ref ∷ refs)) x) (f (xml.place c' x))
          (λ y. one_more_reference ref refs c' x y one) (rest (xml.place c' x))
    next_reference ref refs c x f (false, c') one rest = tt

    fill_references-Gains :
        (refs : List ReferenceDescription) (x : X)
        → OnDone (Gains xml (AreReferences refs) x) (
            fill_references ua xml
              (map (λ r. (r, reference_type_text ua r.reference_type_id)) refs)
              x)
    unfolding fill_references
    fill_references-Gains [] x = nothing_added xml (AreReferences []) x refl
    fill_references-Gains (ref ∷ refs) x =
        elim (Option-cases (xml.insert_new_child_element (codes "Reference") x)) [
          | inl e ↦ rw (e, fill_references) tt
          | inr (c, e) ↦
              rw (e, fill_references)
                (next_reference ref refs c x _ _ (fill_reference-IsReference ref x c e)
                  (fill_references-Gains refs))
        ]

    references_placed :
        (m : NodeIntermediateModel) (x c : X) (r : Bool × X)
        → xml.insert_new_child_element (codes "References") x ≡ some c
        → OnDone (Gains xml (AreReferences m.references) c) r
        → OnDone (Gains xml (IsReferencesOf m) x) (r.0, xml.place r.1 x)
    references_placed m x c (true, c') e (same, attrs, (kids, more, are)) =
        let (n, a, k) = new_child-Filled xml laws (codes "References") x c e in
        place-Gains xml laws (IsReferencesOf m) c' x (
          inl (
            c',
            refl,
            same ∙ n,
            attrs ∙ a,
            subst (AreReferences m.references) (sym (more ∙ ap (λ l. l ++ kids) k)) are,
          ))
    references_placed m x c (false, c') e h = tt

    pub add_references-Gains :
        (m : NodeIntermediateModel) (x : X)
        → OnDone (Gains xml (IsReferencesOf m) x) (add_references ua xml m x)
    unfolding add_references get_node_reference_type_aliases
    add_references-Gains m x =
        elim (Option-cases (xml.insert_new_child_element (codes "References") x)) [
          | inl e ↦
              rw (e, add_references) (nothing_added xml (IsReferencesOf m) x (inr (x, e, refl)))
          | inr (c, e) ↦
              rw (e, add_references)
                (references_placed m x c _ e (fill_references-Gains m.references c))
        ]
