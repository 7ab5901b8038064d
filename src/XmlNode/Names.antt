-- ===== src/XmlNode/Names.antt =====
-- Filling in an element keeps its name, also where it gives up.
use open62541_nodeset_export.Prelude.{
  Bool, Bool-cases, Option, Option-cases, Text, codes, false, if◌then◌else◌, inl, inr, is_empty,
  none, refl, some, true, ℕ, ◌∙◌, ◌≡◌,
}
use open62541_nodeset_export.AttributeText.{
  ua_expanded_to_xml_string, ua_localized_text_to_xml_string,
}
use open62541_nodeset_export.Model.{
  NodeIntermediateModel, attribute_datatype, get_node_reference_type_aliases,
}
use open62541_nodeset_export.Status.{Outcome}
use open62541_nodeset_export.Ua.{AttrValue, Ua}
use open62541_nodeset_export.Xml.{Xml, XmlLaws}
use open62541_nodeset_export.XmlNode.{
  add_localized, add_optional, add_parent, add_references, add_required, alias_text,
  attribute_accesslevel, attribute_arraydimensions, attribute_browsename, attribute_description,
  attribute_displayname, attribute_eventnotifier, attribute_historizing, attribute_inversename,
  attribute_isabstract, attribute_minimumsamplinginterval, attribute_symmetric,
  attribute_useraccesslevel, attribute_userwritemask, attribute_valuerank, attribute_writemask,
  dimensions_text, fill_localized, fill_references, get_and_check_ua_attribute, if_done,
  primitive_text, set_optional,
}
use open62541_nodeset_export.XmlNode.Elements.{
  add_access_attributes, add_inverse_name, add_node_ua_instance, add_node_ua_type,
  add_value_attributes, fill_object, fill_reference_type, fill_variable, fill_variable_type,
}

module _ {X F : Type 0} (ua : Ua) (xml : Xml X F) (laws : XmlLaws xml) where
  abbrev pub KeepsName : X → X → Type 0
  KeepsName x x' = xml.name x' ≡ xml.name x

  if_done-KeepsName :
      (x : X) (r : Bool × X) (f : X → Bool × X)
      → KeepsName x r.1
      → ((y : X) → KeepsName y (f y).1)
      → KeepsName x (if_done r f).1
  if_done-KeepsName x (true, y) f h k = k y ∙ h
  if_done-KeepsName x (false, y) f h k = h

  if-KeepsName :
      (x y z : X) (b : Bool) → KeepsName x y → KeepsName x z → KeepsName x (if b then y else z)
  if-KeepsName x y z true h k = h
  if-KeepsName x y z false h k = k

  set_optional-KeepsName :
      (tag : Text) (o : Option Text) (x : X) → KeepsName x (set_optional ua xml tag o x)
  set_optional-KeepsName tag none x = refl
  set_optional-KeepsName tag (some t) x = laws.name-set_attribute tag t x

  add_optional-KeepsName :
      (tag : Text) (k : ℕ) (as_text : AttrValue → Outcome Text) (m : NodeIntermediateModel) (x : X)
      → KeepsName x (add_optional ua xml tag k as_text m x)
  unfolding add_optional
  add_optional-KeepsName tag k as_text m x = elim (Option-cases (get_and_check_ua_attribute m k)) [
    | inl e ↦ rw (e, add_optional) refl
    | inr (v, e) ↦ rw (e, add_optional) (set_optional-KeepsName tag _ x)
  ]

  -- A child that may be made and placed.
  placed-KeepsName :
      (x : X) (o : Option X) (r : X → Bool × X) (otherwise : Bool)
      → KeepsName x
          (elim o as (λ p. Bool × X) [
            | none ↦ (otherwise, x)
            | some c ↦ ((r c).0, xml.place (r c).1 x)
          ]).1
  placed-KeepsName x none r otherwise = refl
  placed-KeepsName x (some c) r otherwise = (laws.place-SameTag (r c).1 x).0

  add_required-KeepsName :
      (m : NodeIntermediateModel) (x : X) → KeepsName x (add_required ua xml m x).1
  unfolding add_required
  add_required-KeepsName m x =
      elim (Bool-cases (is_empty (ua_expanded_to_xml_string ua m.exp_node_id))) [
        | inl b ↦ rw (b, add_required) refl
        | inr b ↦
            let first = laws.name-set_attribute (codes "NodeId") _ x in
            elim (Option-cases (get_and_check_ua_attribute m attribute_browsename)) [
              | inl e ↦ rw (b, e, add_required) first
              | inr (v, e) ↦
                  rw (b, e, add_required) (laws.name-set_attribute (codes "BrowseName") _ _ ∙ first)
            ]
      ]

  add_parent-KeepsName :
      (with_parent : Bool) (m : NodeIntermediateModel) (x : X)
      → KeepsName x (if with_parent then add_parent ua xml m x else x)
  unfolding add_parent
  add_parent-KeepsName true m x =
      if-KeepsName x x _ (is_empty (ua_expanded_to_xml_string ua m.parent_node_id)) refl
        (laws.name-set_attribute (codes "ParentNodeId") _ x)
  add_parent-KeepsName false m x = refl

  add_localized-KeepsName :
      (tag : Text) (k : ℕ) (m : NodeIntermediateModel) (x : X)
      → KeepsName x (add_localized ua xml tag k m x).1
  unfolding add_localized
  add_localized-KeepsName tag k m x = elim (Option-cases (get_and_check_ua_attribute m k)) [
    | inl e ↦ rw (e, add_localized) refl
    | inr (v, e) ↦
        rw (e, add_localized)
          (elim (Bool-cases (is_empty (ua_localized_text_to_xml_string v).text)) [
            | inl b ↦ rw b refl
            | inr b ↦ rw b (
                placed-KeepsName x (xml.insert_new_child_element tag x)
                  (λ c. (true, fill_localized ua xml (ua_localized_text_to_xml_string v) c)) false)
          ])
  ]

  add_references-KeepsName :
      (m : NodeIntermediateModel) (x : X) → KeepsName x (add_references ua xml m x).1
  unfolding add_references
  add_references-KeepsName m x =
      placed-KeepsName x (xml.insert_new_child_element (codes "References") x)
        (fill_references ua xml (get_node_reference_type_aliases ua m)) true

  add_inverse_name-KeepsName :
      (m : NodeIntermediateModel) (x : X) → KeepsName x (add_inverse_name ua xml m x).1
  unfolding add_inverse_name
  add_inverse_name-KeepsName m x =
      elim (Option-cases (get_and_check_ua_attribute m attribute_inversename)) [
        | inl e ↦ rw (e, add_inverse_name) refl
        | inr (v, e) ↦
            rw (e, add_inverse_name)
              (placed-KeepsName x (xml.insert_new_child_element (codes "InverseName") x)
                (λ c. (true, fill_localized ua xml (ua_localized_text_to_xml_string v) c)) false)
      ]

  add_node_ua_instance-KeepsName :
      (with_parent : Bool) (m : NodeIntermediateModel) (x : X)
      → KeepsName x (add_node_ua_instance ua xml with_parent m x).1
  unfolding add_node_ua_instance
  add_node_ua_instance-KeepsName with_parent m x =
      let p = primitive_text ua xml in
      let masks : X → X = λ y.
        (let y1 = add_optional ua xml (codes "WriteMask") attribute_writemask p m y in
          let y2 = add_optional ua xml (codes "UserWriteMask") attribute_userwritemask p m y1 in
          if with_parent then add_parent ua xml m y2 else y2) in
      let described : X → Bool × X = λ y.
        if_done (add_localized ua xml (codes "Description") attribute_description m y)
          (add_references ua xml m) in
      let named : X → Bool × X = λ y.
        if_done (add_localized ua xml (codes "DisplayName") attribute_displayname m (masks y))
          described in
      if_done-KeepsName x (add_required ua xml m x) named (add_required-KeepsName m x) λ y.
        if_done-KeepsName y
          (add_localized ua xml (codes "DisplayName") attribute_displayname m (masks y)) described
          (add_localized-KeepsName (codes "DisplayName") attribute_displayname m (masks y)
            ∙ add_parent-KeepsName with_parent m _
            ∙ add_optional-KeepsName (codes "UserWriteMask") attribute_userwritemask p m _
            ∙ add_optional-KeepsName (codes "WriteMask") attribute_writemask p m y)
          λ z.
            if_done-KeepsName z
              (add_localized ua xml (codes "Description") attribute_description m z)
              (add_references ua xml m)
              (add_localized-KeepsName (codes "Description") attribute_description m z)
              (add_references-KeepsName m)

  pub add_node_ua_type-KeepsName :
      (m : NodeIntermediateModel) (x : X) → KeepsName x (add_node_ua_type ua xml m x).1
  unfolding add_node_ua_type
  add_node_ua_type-KeepsName m x =
      if_done-KeepsName x (add_node_ua_instance ua xml false m x)
        (λ y. (
          true,
          add_optional ua xml (codes "IsAbstract") attribute_isabstract (primitive_text ua xml) m y,
        ))
        (add_node_ua_instance-KeepsName false m x)
        (add_optional-KeepsName (codes "IsAbstract") attribute_isabstract (primitive_text ua xml) m)

  pub fill_object-KeepsName :
      (m : NodeIntermediateModel) (x : X) → KeepsName x (fill_object ua xml m x).1
  unfolding fill_object
  fill_object-KeepsName m x =
      if_done-KeepsName x (add_node_ua_instance ua xml true m x)
        (λ y. (
          true,
          add_optional ua xml (codes "EventNotifier") attribute_eventnotifier
              (primitive_text ua xml) m y,
        ))
        (add_node_ua_instance-KeepsName true m x)
        (add_optional-KeepsName (codes "EventNotifier") attribute_eventnotifier
          (primitive_text ua xml) m)

  add_value_attributes-KeepsName :
      (m : NodeIntermediateModel) (x : X) → KeepsName x (add_value_attributes ua xml m x)
  unfolding add_value_attributes
  add_value_attributes-KeepsName m x =
      add_optional-KeepsName (codes "ArrayDimensions") attribute_arraydimensions
        (dimensions_text ua xml) m _
      ∙ add_optional-KeepsName (codes "ValueRank") attribute_valuerank (primitive_text ua xml) m _
      ∙ add_optional-KeepsName (codes "DataType") attribute_datatype (alias_text ua xml m) m x

  add_access_attributes-KeepsName :
      (m : NodeIntermediateModel) (x : X) → KeepsName x (add_access_attributes ua xml m x)
  unfolding add_access_attributes
  add_access_attributes-KeepsName m x =
      let p = primitive_text ua xml in
      add_optional-KeepsName (codes "Historizing") attribute_historizing p m _
      ∙ add_optional-KeepsName (codes "MinimumSamplingInterval") attribute_minimumsamplinginterval p
          m _
      ∙ add_optional-KeepsName (codes "UserAccessLevel") attribute_useraccesslevel p m _
      ∙ add_optional-KeepsName (codes "AccessLevel") attribute_accesslevel p m x

  pub fill_variable-KeepsName :
      (m : NodeIntermediateModel) (x : X) → KeepsName x (fill_variable ua xml m x).1
  unfolding fill_variable
  fill_variable-KeepsName m x =
      if_done-KeepsName x (add_node_ua_instance ua xml true m x)
        (λ y. (true, add_access_attributes ua xml m (add_value_attributes ua xml m y)))
        (add_node_ua_instance-KeepsName true m x)
        λ y. add_access_attributes-KeepsName m _ ∙ add_value_attributes-KeepsName m y

  pub fill_variable_type-KeepsName :
      (m : NodeIntermediateModel) (x : X) → KeepsName x (fill_variable_type ua xml m x).1
  unfolding fill_variable_type
  fill_variable_type-KeepsName m x =
      if_done-KeepsName x (add_node_ua_type ua xml m x)
        (λ y. (true, add_value_attributes ua xml m y)) (add_node_ua_type-KeepsName m x)
        (add_value_attributes-KeepsName m)

  pub fill_reference_type-KeepsName :
      (m : NodeIntermediateModel) (x : X) → KeepsName x (fill_reference_type ua xml m x).1
  unfolding fill_reference_type
  fill_reference_type-KeepsName m x =
      if_done-KeepsName x (add_node_ua_type ua xml m x)
        (λ y.
          add_inverse_name ua xml m (
            add_optional ua xml (codes "Symmetric") attribute_symmetric (primitive_text ua xml) m
              y))
        (add_node_ua_type-KeepsName m x)
        λ y.
          add_inverse_name-KeepsName m _
          ∙ add_optional-KeepsName (codes "Symmetric") attribute_symmetric (primitive_text ua xml) m
              y
