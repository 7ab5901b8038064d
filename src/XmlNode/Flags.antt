-- ===== src/XmlNode/Flags.antt =====
-- Which nodes can be filled in, where every child element can be made.
use open62541_nodeset_export.Prelude.{
  Bool, Bool-cases, List, Option, Option-cases, Text, [], codes, false, inl, inr, is_empty, none,
  not, refl, some, true, ℕ, ◌&&◌, ◌∙◌, ◌∷◌, ◌≡◌,
}
use open62541_nodeset_export.AttributeText.{
  ua_expanded_to_xml_string, ua_localized_text_to_xml_string,
}
use open62541_nodeset_export.Model.{NodeIntermediateModel, get_node_reference_type_aliases}
use open62541_nodeset_export.Ua.{AttrValue, ReferenceDescription, Ua}
use open62541_nodeset_export.Xml.{Xml}
use open62541_nodeset_export.XmlNode.{
  add_localized, add_references, add_required, attribute_browsename, attribute_description,
  attribute_displayname, attribute_inversename, fill_reference, fill_references,
  get_and_check_ua_attribute, if_done,
}
use open62541_nodeset_export.XmlNode.Elements.{
  add_inverse_name, add_node_ua_instance, add_node_ua_type, fill_object, fill_reference_type,
  fill_variable, fill_variable_type,
}

module _ (ua : Ua) where
  abbrev pub is_written_reference : ReferenceDescription × Text → Bool
  is_written_reference (ref, type_text) =
      not (is_empty type_text) && not (ua.node_id_is_null ref.node_id.node_id)

  abbrev pub are_written : List (ReferenceDescription × Text) → Bool
  are_written [] = true
  are_written (ref ∷ refs) = is_written_reference ref && are_written refs

  abbrev pub has_value : Option AttrValue → Bool
  has_value none = false
  has_value (some v) = true

  abbrev pub is_identified : NodeIntermediateModel → Bool
  is_identified m =
      not (is_empty (ua_expanded_to_xml_string ua m.exp_node_id))
      && has_value (get_and_check_ua_attribute m attribute_browsename)

  -- The node has an id and a browse name, and every reference a type and a target.
  abbrev pub is_writable : NodeIntermediateModel → Bool
  is_writable m = is_identified m && are_written (get_node_reference_type_aliases ua m)

module _ {X F : Type 0} (ua : Ua) (xml : Xml X F) where
  -- There is memory for every child.
  abbrev pub IsRoomy : Type 0
  IsRoomy = (tag : Text) (x : X) → (c : X) × (xml.insert_new_child_element tag x ≡ some c)

  if_done-flag :
      (r : Bool × X) (f : X → Bool × X) (a b : Bool)
      → r.0 ≡ a
      → ((y : X) → (f y).0 ≡ b)
      → (if_done r f).0 ≡ a && b
  if_done-flag (true, y) f true b h k = k y
  if_done-flag (true, y) f false b h k = cc
  if_done-flag (false, y) f true b h k = cc
  if_done-flag (false, y) f false b h k = refl

  and_true : (b : Bool) → b && true ≡ b
  and_true true = refl
  and_true false = refl

  -- One more part, which always goes through.
  then_done :
      (r : Bool × X) (f : X → Bool × X) (a : Bool)
      → r.0 ≡ a
      → ((y : X) → (f y).0 ≡ true)
      → (if_done r f).0 ≡ a
  then_done r f a h k = if_done-flag r f a true h k ∙ and_true a

  add_required-flag :
      (m : NodeIntermediateModel) (x : X) → (add_required ua xml m x).0 ≡ is_identified ua m
  unfolding add_required
  add_required-flag m x =
      elim (Bool-cases (is_empty (ua_expanded_to_xml_string ua m.exp_node_id))) [
        | inl b ↦ rw (b, add_required) refl
        | inr b ↦ elim (Option-cases (get_and_check_ua_attribute m attribute_browsename)) [
          | inl e ↦ rw (b, e, add_required) refl
          | inr (v, e) ↦ rw (b, e, add_required) refl
        ]
      ]

  fill_reference-flag :
      (ref : ReferenceDescription) (type_text : Text) (x : X)
      → (fill_reference ua xml ref type_text x).0 ≡ is_written_reference ua (ref, type_text)
  unfolding fill_reference
  fill_reference-flag ref type_text x = elim (Bool-cases (is_empty type_text)) [
    | inl b ↦ rw (b, fill_reference) refl
    | inr b ↦ elim (Bool-cases (ua.node_id_is_null ref.node_id.node_id)) [
      | inl n ↦ rw (b, n, fill_reference) refl
      | inr n ↦ rw (b, n, fill_reference) refl
    ]
  ]

  module _ (roomy : IsRoomy) where
    fill_references-flag :
        (refs : List (ReferenceDescription × Text)) (x : X)
        → (fill_references ua xml refs x).0 ≡ are_written ua refs
    unfolding fill_references
    fill_references-flag [] x = refl
    fill_references-flag ((ref, type_text) ∷ refs) x =
        let (c, made) = roomy (codes "Reference") x in
        rw (made, fill_references)
          (if_done-flag _ _ _ _ (fill_reference-flag ref type_text c) (fill_references-flag refs))

    add_references-flag :
        (m : NodeIntermediateModel) (x : X)
        → (add_references ua xml m x).0 ≡ are_written ua (get_node_reference_type_aliases ua m)
    unfolding add_references
    add_references-flag m x =
        let (c, made) = roomy (codes "References") x in
        rw (made, add_references) (fill_references-flag (get_node_reference_type_aliases ua m) c)

    add_localized-flag :
        (tag : Text) (k : ℕ) (m : NodeIntermediateModel) (x : X)
        → (add_localized ua xml tag k m x).0 ≡ true
    unfolding add_localized
    add_localized-flag tag k m x = elim (Option-cases (get_and_check_ua_attribute m k)) [
      | inl e ↦ rw (e, add_localized) refl
      | inr (v, e) ↦ elim (Bool-cases (is_empty (ua_localized_text_to_xml_string v).text)) [
        | inl b ↦ rw (e, b, add_localized) refl
        | inr b ↦ let (c, made) = roomy tag x in rw (e, b, made, add_localized) refl
      ]
    ]

    add_inverse_name-flag :
        (m : NodeIntermediateModel) (x : X) → (add_inverse_name ua xml m x).0 ≡ true
    unfolding add_inverse_name
    add_inverse_name-flag m x =
        elim (Option-cases (get_and_check_ua_attribute m attribute_inversename)) [
          | inl e ↦ rw (e, add_inverse_name) refl
          | inr (v, e) ↦
              let (c, made) = roomy (codes "InverseName") x in rw (e, made, add_inverse_name) refl
        ]

    add_node_ua_instance-flag :
        (with_parent : Bool) (m : NodeIntermediateModel) (x : X)
        → (add_node_ua_instance ua xml with_parent m x).0 ≡ is_writable ua m
    unfolding add_node_ua_instance
    add_node_ua_instance-flag with_parent m x =
        if_done-flag (add_required ua xml m x) _ (is_identified ua m) _ (add_required-flag m x) λ y.
          if_done-flag (add_localized ua xml (codes "DisplayName") attribute_displayname m _) _ true
            _ (add_localized-flag (codes "DisplayName") attribute_displayname m _)
            λ z.
              if_done-flag (add_localized ua xml (codes "Description") attribute_description m z) _
                true _ (add_localized-flag (codes "Description") attribute_description m z)
                (add_references-flag m)

    pub add_node_ua_type-flag :
        (m : NodeIntermediateModel) (x : X) → (add_node_ua_type ua xml m x).0 ≡ is_writable ua m
    unfolding add_node_ua_type
    add_node_ua_type-flag m x =
        then_done (add_node_ua_instance ua xml false m x) _ _ (add_node_ua_instance-flag false m x)
          λ y. refl

    pub fill_object-flag :
        (m : NodeIntermediateModel) (x : X) → (fill_object ua xml m x).0 ≡ is_writable ua m
    unfolding fill_object
    fill_object-flag m x =
        then_done (add_node_ua_instance ua xml true m x) _ _ (add_node_ua_instance-flag true m x)
          λ y. refl

    pub fill_variable-flag :
        (m : NodeIntermediateModel) (x : X) → (fill_variable ua xml m x).0 ≡ is_writable ua m
    unfolding fill_variable
    fill_variable-flag m x =
        then_done (add_node_ua_instance ua xml true m x) _ _ (add_node_ua_instance-flag true m x)
          λ y. refl

    pub fill_variable_type-flag :
        (m : NodeIntermediateModel) (x : X) → (fill_variable_type ua xml m x).0 ≡ is_writable ua m
    unfolding fill_variable_type
    fill_variable_type-flag m x =
        then_done (add_node_ua_type ua xml m x) _ _ (add_node_ua_type-flag m x) λ y. refl

    pub fill_reference_type-flag :
        (m : NodeIntermediateModel) (x : X) → (fill_reference_type ua xml m x).0 ≡ is_writable ua m
    unfolding fill_reference_type
    fill_reference_type-flag m x =
        then_done (add_node_ua_type ua xml m x) _ _ (add_node_ua_type-flag m x)
          λ y. add_inverse_name-flag m _
