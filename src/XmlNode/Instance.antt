-- ===== src/XmlNode/Instance.antt =====
-- What AddNodeUAInstance and AddNodeUAType write.
use open62541_nodeset_export.Prelude.{
  Bool, Bool-cases, List, Option, Option-cases, Text, [], arith, codes, false, if◌then◌else◌, inl,
  inr, is_empty, none, refl, some, subst, true, ℕ, ◌≡◌,
}
use open62541_nodeset_export.AttributeText.{
  ua_expanded_to_xml_string, ua_qualified_name_to_xml_string,
}
use open62541_nodeset_export.Model.{NodeIntermediateModel}
use open62541_nodeset_export.Strings.{c_string}
use open62541_nodeset_export.Ua.{AttrValue, ExpandedNodeId, Ua, expanded_to_string}
use open62541_nodeset_export.Xml.{Xml, XmlChild, XmlLaws}
use open62541_nodeset_export.XmlNode.{
  add_localized, add_optional, add_parent, add_references, add_required, attribute_browsename,
  attribute_description, attribute_displayname, attribute_isabstract, attribute_userwritemask,
  attribute_writemask, get_and_check_ua_attribute, if_done, is_default, primitive_text,
}
use open62541_nodeset_export.XmlNode.Attributes.{
  no_attributes, override, shown_flag, shown_of, shown_uint32, uint32-shown,
}
use open62541_nodeset_export.XmlNode.Elements.{add_node_ua_instance}
use open62541_nodeset_export.XmlNode.Parts.{
  IsLocalizedOf, IsReferencesOf, add_localized-Gains, add_references-Gains,
}
use open62541_nodeset_export.XmlNode.Updates.{
  Attrs, Empty-Gains, Filled, Gains-trans, OnDone, OnDone-map, Then, add_optional-Filled,
  if_done-OnDone, set_attribute-Filled,
}

module _ {X F : Type 0} (ua : Ua) (xml : Xml X F) where
  -- What is shown of an attribute of the node.
  abbrev pub shown_in : NodeIntermediateModel → ℕ → (AttrValue → Option Text) → Option Text
  shown_in m k shown = shown_of ua xml shown (get_and_check_ua_attribute m k)

  abbrev pub parent_text : NodeIntermediateModel → Option Text
  parent_text m =
      if is_empty (ua_expanded_to_xml_string ua m.parent_node_id)
      then none
      else some (c_string (ua_expanded_to_xml_string ua m.parent_node_id))

  abbrev pub browse_name : AttrValue → Option Text
  browse_name v = some (c_string (ua_qualified_name_to_xml_string ua v))

  -- The two attributes that every node has.
  abbrev pub required_attributes : NodeIntermediateModel → Attrs → Attrs
  required_attributes m f =
      override (codes "BrowseName") (shown_in m attribute_browsename browse_name)
        (override (codes "NodeId") (some (c_string (expanded_to_string ua m.exp_node_id))) f)

  abbrev pub instance_attributes : Bool → NodeIntermediateModel → Attrs → Attrs
  instance_attributes with_parent m f =
      override (codes "ParentNodeId") (if with_parent then parent_text m else none) (
        override (codes "UserWriteMask") (shown_in m attribute_userwritemask (shown_uint32 ua xml))
          (override (codes "WriteMask") (shown_in m attribute_writemask (shown_uint32 ua xml))
            (required_attributes m f)))

  abbrev pub type_attributes : NodeIntermediateModel → Attrs → Attrs
  type_attributes m f =
      override (codes "IsAbstract") (shown_in m attribute_isabstract (shown_flag ua xml))
        (instance_attributes false m f)

  -- The names, then the references.
  abbrev pub InstanceChildren : NodeIntermediateModel → List (XmlChild X) → Type 0
  InstanceChildren m =
      Then
        (IsLocalizedOf ua xml (codes "DisplayName")
          (get_and_check_ua_attribute m attribute_displayname))
        (Then
          (IsLocalizedOf ua xml (codes "Description")
            (get_and_check_ua_attribute m attribute_description))
          (IsReferencesOf ua xml m))

  -- The node has an id and a browse name.
  abbrev pub IsNamed : NodeIntermediateModel → Type 0
  IsNamed m =
      (ua.node_id_is_null m.exp_node_id.node_id ≡ false)
      × ((v : AttrValue) × (get_and_check_ua_attribute m attribute_browsename ≡ some v))

  module _ (laws : XmlLaws xml) where
    not_null :
        (n : ExpandedNodeId)
        → is_empty (ua_expanded_to_xml_string ua n) ≡ false
        → (ua.node_id_is_null n.node_id ≡ false)
          × (ua_expanded_to_xml_string ua n ≡ expanded_to_string ua n)
    unfolding ua_expanded_to_xml_string
    not_null n h = ground arith

    module _ (tag : Text) where
      abbrev pub Started : Attrs → X → Type 0
      Started a = Filled xml tag a (λ kids. kids ≡ [])

      required_set :
          (m : NodeIntermediateModel) (x : X) (v : AttrValue) (node_id : Text)
          → Started no_attributes x
          → ua_expanded_to_xml_string ua m.exp_node_id ≡ expanded_to_string ua m.exp_node_id
          → Started
              (override (codes "BrowseName") (browse_name v) (
                override
                  (codes "NodeId")
                  (some (c_string (expanded_to_string ua m.exp_node_id)))
                  no_attributes))
              (xml.set_attribute
                (codes "BrowseName")
                (c_string (ua_qualified_name_to_xml_string ua v))
                (xml.set_attribute
                  (codes "NodeId")
                  (c_string (ua_expanded_to_xml_string ua m.exp_node_id))
                  x))
      required_set m x v node_id start same =
          set_attribute-Filled xml laws tag _ (λ kids. kids ≡ []) (codes "BrowseName")
            (c_string (ua_qualified_name_to_xml_string ua v)) _
            (subst
              (λ t. Started (override (codes "NodeId") (some (c_string t)) no_attributes) (
                xml.set_attribute (codes "NodeId")
                  (c_string (ua_expanded_to_xml_string ua m.exp_node_id)) x))
              same
              (set_attribute-Filled xml laws tag no_attributes (λ kids. kids ≡ []) (codes "NodeId")
                (c_string (ua_expanded_to_xml_string ua m.exp_node_id)) x start))

      add_required-Filled :
          (m : NodeIntermediateModel) (x : X)
          → Started no_attributes x
          → OnDone
              (λ y. IsNamed m × Started (required_attributes m no_attributes) y)
              (add_required ua xml m x)
      unfolding add_required
      add_required-Filled m x start =
          elim (Bool-cases (is_empty (ua_expanded_to_xml_string ua m.exp_node_id))) [
            | inl b ↦ rw (b, add_required) tt
            | inr b ↦
                let (real, same) = not_null m.exp_node_id b in
                elim (Option-cases (get_and_check_ua_attribute m attribute_browsename)) [
                  | inl e ↦ rw (b, e, add_required) tt
                  | inr (v, e) ↦
                      rw (b, e, add_required) ((real, (v, refl)), required_set m x v [] start same)
                ]
          ]

      add_parent-Filled :
          (with_parent : Bool) (m : NodeIntermediateModel) (a : Attrs) (x : X)
          → Started a x
          → Started
              (override (codes "ParentNodeId") (if with_parent then parent_text m else none) a)
              (if with_parent then add_parent ua xml m x else x)
      unfolding add_parent
      add_parent-Filled false m a x h = h
      add_parent-Filled true m a x h =
          let parent = ua_expanded_to_xml_string ua m.parent_node_id in
          elim (Bool-cases (is_empty parent)) [
            | inl b ↦ rw b h
            | inr b ↦ rw b (
                set_attribute-Filled xml laws tag a (λ kids. kids ≡ []) (codes "ParentNodeId")
                  (c_string parent) x h)
          ]

      -- The masks and the parent, after the required attributes.
      add_masks-Filled :
          (with_parent : Bool) (m : NodeIntermediateModel) (x : X)
          → Started (required_attributes m no_attributes) x
          → Started (instance_attributes with_parent m no_attributes) (
              let x2 =
                add_optional ua xml
                  (codes "WriteMask")
                  attribute_writemask
                  (primitive_text ua xml)
                  m
                  x in
              let x3 =
                add_optional ua xml
                  (codes "UserWriteMask")
                  attribute_userwritemask
                  (primitive_text ua xml)
                  m
                  x2 in
              if with_parent then add_parent ua xml m x3 else x3)
      unfolding is_default
      add_masks-Filled with_parent m x h = add_parent-Filled with_parent m _ _ (
          add_optional-Filled xml laws tag _ (λ kids. kids ≡ []) ua (codes "UserWriteMask")
            attribute_userwritemask (primitive_text ua xml) (shown_uint32 ua xml) m _
            (uint32-shown ua xml attribute_userwritemask (λ u. refl))
            (add_optional-Filled xml laws tag _ (λ kids. kids ≡ []) ua (codes "WriteMask")
              attribute_writemask (primitive_text ua xml) (shown_uint32 ua xml) m x
              (uint32-shown ua xml attribute_writemask (λ u. refl)) h))

      -- The children, after the attributes.
      names_and_references :
          (m : NodeIntermediateModel) (a : Attrs)
          → IsNamed m
          → (x : X) → Started a x
          → OnDone
              (λ y. IsNamed m × Filled xml tag a (InstanceChildren m) y)
              (if_done (add_localized ua xml (codes "DisplayName") attribute_displayname m x) λ x1.
                if_done
                  (add_localized ua xml (codes "Description") attribute_description m x1)
                  (add_references ua xml m))
      names_and_references m a named x h =
          if_done-OnDone _ _ (add_localized ua xml (codes "DisplayName") attribute_displayname m x)
            _ (add_localized-Gains ua xml laws (codes "DisplayName") attribute_displayname m x)
            λ x1 first.
              if_done-OnDone _ _
                (add_localized ua xml (codes "Description") attribute_description m x1) _
                (add_localized-Gains ua xml laws (codes "Description") attribute_description m x1)
                λ x2 second.
                  OnDone-map _ _ (add_references ua xml m x2)
                    (λ y third. (
                      named,
                      Empty-Gains xml tag a (InstanceChildren m) x y h (
                          Gains-trans xml _ _ x x1 y first
                            (Gains-trans xml _ _ x1 x2 y second third)),
                    ))
                    (add_references-Gains ua xml laws m x2)

      pub add_node_ua_instance-Filled :
          (with_parent : Bool) (m : NodeIntermediateModel) (x : X)
          → Started no_attributes x
          → OnDone
              (λ y.
                IsNamed m
                × Filled xml tag
                    (instance_attributes with_parent m no_attributes)
                    (InstanceChildren m)
                    y)
              (add_node_ua_instance ua xml with_parent m x)
      unfolding add_node_ua_instance
      add_node_ua_instance-Filled with_parent m x start =
          if_done-OnDone _ _ (add_required ua xml m x) _ (add_required-Filled m x start)
            λ x1 (named, h). names_and_references m _ named _ (add_masks-Filled with_parent m x1 h)
