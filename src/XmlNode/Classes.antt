-- ===== src/XmlNode/Classes.antt =====
-- What is written of a node of each class.
use open62541_nodeset_export.Prelude.{
  List, Option, Option-cases, Text, [], codes, false, inl, inr, none, refl, some, true, ◌≡◌,
}
use open62541_nodeset_export.AttributeText.{ua_localized_text_to_xml_string}
use open62541_nodeset_export.Model.{NodeIntermediateModel, attribute_datatype}
use open62541_nodeset_export.Ua.{AttrValue, NodeClass, Ua}
use open62541_nodeset_export.Xml.{Xml, XmlChild, XmlLaws}
use open62541_nodeset_export.XmlNode.{
  alias_text, attribute_accesslevel, attribute_arraydimensions, attribute_eventnotifier,
  attribute_historizing, attribute_inversename, attribute_isabstract,
  attribute_minimumsamplinginterval, attribute_symmetric, attribute_useraccesslevel,
  attribute_valuerank, dimensions_text, fill_localized, get_and_check_ua_attribute, is_default,
  primitive_text,
}
use open62541_nodeset_export.XmlNode.Attributes.{
  byte-shown, data_type-shown, dimensions-shown, flag-shown, interval-shown, no_attributes,
  override, rank-shown, shown_byte, shown_data_type, shown_dimensions, shown_flag, shown_interval,
  shown_rank,
}
use open62541_nodeset_export.XmlNode.Elements.{
  add_access_attributes, add_inverse_name, add_node_ua_instance, add_node_ua_type,
  add_value_attributes, fill_object, fill_reference_type, fill_variable, fill_variable_type,
}
use open62541_nodeset_export.XmlNode.Instance.{
  InstanceChildren, IsNamed, add_node_ua_instance-Filled, instance_attributes, shown_in,
  type_attributes,
}
use open62541_nodeset_export.XmlNode.Parts.{IsLocalized, fill_localized-IsLocalized}
use open62541_nodeset_export.XmlNode.Updates.{
  Attrs, Filled, Filled-Gains, Gains, OnDone, OnDone-map, Then, add_optional-Filled, if_done-OnDone,
  nothing_added, place-Gains,
}

module _ {X F : Type 0} (ua : Ua) (xml : Xml X F) where
  abbrev pub tag_of : NodeClass → Text
  tag_of NodeClass.object = codes "UAObject"
  tag_of NodeClass.variable = codes "UAVariable"
  tag_of NodeClass.object_type = codes "UAObjectType"
  tag_of NodeClass.variable_type = codes "UAVariableType"
  tag_of NodeClass.reference_type = codes "UAReferenceType"
  tag_of NodeClass.data_type = codes "UADataType"
  tag_of _ = []

  abbrev pub value_attributes : NodeIntermediateModel → Attrs → Attrs
  value_attributes m f =
      override (codes "ArrayDimensions")
        (shown_in ua xml m attribute_arraydimensions (shown_dimensions ua xml))
        (override (codes "ValueRank") (shown_in ua xml m attribute_valuerank (shown_rank ua xml)) (
          override (codes "DataType")
            (shown_in ua xml m attribute_datatype (shown_data_type ua xml m)) f))

  abbrev pub access_attributes : NodeIntermediateModel → Attrs → Attrs
  access_attributes m f =
      override (codes "Historizing") (shown_in ua xml m attribute_historizing (shown_flag ua xml)) (
        override (codes "MinimumSamplingInterval")
          (shown_in ua xml m attribute_minimumsamplinginterval (shown_interval ua xml))
          (override (codes "UserAccessLevel")
            (shown_in ua xml m attribute_useraccesslevel (shown_byte ua xml 1))
            (override (codes "AccessLevel")
              (shown_in ua xml m attribute_accesslevel (shown_byte ua xml 1)) f)))

  abbrev pub class_attributes : NodeClass → NodeIntermediateModel → Attrs
  class_attributes NodeClass.object m =
      override (codes "EventNotifier")
        (shown_in ua xml m attribute_eventnotifier (shown_byte ua xml 0))
        (instance_attributes ua xml true m no_attributes)
  class_attributes NodeClass.variable m =
      access_attributes m (value_attributes m (instance_attributes ua xml true m no_attributes))
  class_attributes NodeClass.variable_type m =
      value_attributes m (type_attributes ua xml m no_attributes)
  class_attributes NodeClass.reference_type m =
      override (codes "Symmetric") (shown_in ua xml m attribute_symmetric (shown_flag ua xml))
        (type_attributes ua xml m no_attributes)
  class_attributes _ m = type_attributes ua xml m no_attributes

  -- The inverse name, also an empty one.
  abbrev pub IsInverseName : Option AttrValue → List (XmlChild X) → Type 0
  IsInverseName none kids = kids ≡ []
  IsInverseName (some v) kids = IsLocalized ua xml (codes "InverseName") v kids

  abbrev pub ClassChildren : NodeClass → NodeIntermediateModel → List (XmlChild X) → Type 0
  ClassChildren NodeClass.reference_type m =
      Then (InstanceChildren ua xml m)
        (IsInverseName (get_and_check_ua_attribute m attribute_inversename))
  ClassChildren _ m = InstanceChildren ua xml m

  -- The element of a node: its name tells the class, and its attributes and children are those of the class.
  abbrev pub IsNodeElement : NodeClass → NodeIntermediateModel → X → Type 0
  IsNodeElement class m c =
      IsNamed ua xml m
      × Filled xml (tag_of class) (class_attributes class m) (ClassChildren class m) c

  module _ (laws : XmlLaws xml) where
    module _ (tag : Text) where
      pub add_node_ua_type-Filled :
          (m : NodeIntermediateModel) (x : X)
          → Filled xml tag no_attributes (λ kids. kids ≡ []) x
          → OnDone
              (λ y.
                IsNamed ua xml m
                × Filled xml tag
                    (type_attributes ua xml m no_attributes)
                    (InstanceChildren ua xml m)
                    y)
              (add_node_ua_type ua xml m x)
      unfolding add_node_ua_type is_default
      add_node_ua_type-Filled m x start =
          if_done-OnDone _ _ (add_node_ua_instance ua xml false m x) _
            (add_node_ua_instance-Filled ua xml laws tag false m x start)
            λ y (named, h). (
              named,
              add_optional-Filled xml laws tag _ (InstanceChildren ua xml m) ua (codes "IsAbstract")
                  attribute_isabstract (primitive_text ua xml) (shown_flag ua xml) m y
                  (flag-shown ua xml attribute_isabstract (λ u. refl)) h,
            )

      add_value_attributes-Filled :
          (m : NodeIntermediateModel) (a : Attrs) (K : List (XmlChild X) → Type 0) (x : X)
          → Filled xml tag a K x
          → Filled xml tag (value_attributes m a) K (add_value_attributes ua xml m x)
      unfolding add_value_attributes
      add_value_attributes-Filled m a K x h =
          add_optional-Filled xml laws tag _ K ua (codes "ArrayDimensions")
            attribute_arraydimensions (dimensions_text ua xml) (shown_dimensions ua xml) m _
            (dimensions-shown ua xml)
            (add_optional-Filled xml laws tag _ K ua (codes "ValueRank") attribute_valuerank
              (primitive_text ua xml) (shown_rank ua xml) m _ (rank-shown ua xml)
              (add_optional-Filled xml laws tag a K ua (codes "DataType") attribute_datatype
                (alias_text ua xml m) (shown_data_type ua xml m) m x (data_type-shown ua xml m) h))

      add_access_attributes-Filled :
          (m : NodeIntermediateModel) (a : Attrs) (K : List (XmlChild X) → Type 0) (x : X)
          → Filled xml tag a K x
          → Filled xml tag (access_attributes m a) K (add_access_attributes ua xml m x)
      unfolding add_access_attributes is_default
      add_access_attributes-Filled m a K x h =
          add_optional-Filled xml laws tag _ K ua (codes "Historizing") attribute_historizing
            (primitive_text ua xml) (shown_flag ua xml) m _
            (flag-shown ua xml attribute_historizing (λ u. refl))
            (add_optional-Filled xml laws tag _ K ua (codes "MinimumSamplingInterval")
              attribute_minimumsamplinginterval (primitive_text ua xml) (shown_interval ua xml) m _
              (interval-shown ua xml)
              (add_optional-Filled xml laws tag _ K ua (codes "UserAccessLevel")
                attribute_useraccesslevel (primitive_text ua xml) (shown_byte ua xml 1) m _
                (byte-shown ua xml attribute_useraccesslevel 1 (λ u. refl))
                (add_optional-Filled xml laws tag a K ua (codes "AccessLevel") attribute_accesslevel
                  (primitive_text ua xml) (shown_byte ua xml 1) m x
                  (byte-shown ua xml attribute_accesslevel 1 (λ u. refl)) h)))

    pub fill_object-IsNodeElement :
        (m : NodeIntermediateModel) (x : X)
        → Filled xml (codes "UAObject") no_attributes (λ kids. kids ≡ []) x
        → OnDone (IsNodeElement NodeClass.object m) (fill_object ua xml m x)
    unfolding fill_object is_default
    fill_object-IsNodeElement m x start =
        if_done-OnDone _ _ (add_node_ua_instance ua xml true m x) _
          (add_node_ua_instance-Filled ua xml laws (codes "UAObject") true m x start)
          λ y (named, h). (
            named,
            add_optional-Filled xml laws (codes "UAObject") _ (InstanceChildren ua xml m) ua
                (codes "EventNotifier") attribute_eventnotifier (primitive_text ua xml)
                (shown_byte ua xml 0) m y (byte-shown ua xml attribute_eventnotifier 0 (λ u. refl))
                h,
          )

    pub fill_variable-IsNodeElement :
        (m : NodeIntermediateModel) (x : X)
        → Filled xml (codes "UAVariable") no_attributes (λ kids. kids ≡ []) x
        → OnDone (IsNodeElement NodeClass.variable m) (fill_variable ua xml m x)
    unfolding fill_variable
    fill_variable-IsNodeElement m x start =
        if_done-OnDone _ _ (add_node_ua_instance ua xml true m x) _
          (add_node_ua_instance-Filled ua xml laws (codes "UAVariable") true m x start)
          λ y (named, h). (
            named,
            add_access_attributes-Filled (codes "UAVariable") m _ (InstanceChildren ua xml m) _ (
                add_value_attributes-Filled (codes "UAVariable") m _ (InstanceChildren ua xml m) y
                  h),
          )

    pub fill_variable_type-IsNodeElement :
        (m : NodeIntermediateModel) (x : X)
        → Filled xml (codes "UAVariableType") no_attributes (λ kids. kids ≡ []) x
        → OnDone (IsNodeElement NodeClass.variable_type m) (fill_variable_type ua xml m x)
    unfolding fill_variable_type
    fill_variable_type-IsNodeElement m x start =
        if_done-OnDone _ _ (add_node_ua_type ua xml m x) _
          (add_node_ua_type-Filled (codes "UAVariableType") m x start)
          λ y (named, h). (
            named,
            add_value_attributes-Filled (codes "UAVariableType") m _ (InstanceChildren ua xml m) y
                h,
          )

    inverse_placed :
        (v : AttrValue) (x : X) (o : Option X)
        → xml.insert_new_child_element (codes "InverseName") x ≡ o
        → OnDone (Gains xml (IsInverseName (some v)) x) (elim o [
          | none ↦ (false, x)
          | some c ↦
              (true, xml.place (fill_localized ua xml (ua_localized_text_to_xml_string v) c) x)
        ])
    inverse_placed v x none e = tt
    inverse_placed v x (some c) e =
        place-Gains xml laws (IsInverseName (some v)) _ x
          (fill_localized-IsLocalized ua xml laws (codes "InverseName") v x c e)

    add_inverse_name-Gains :
        (m : NodeIntermediateModel) (x : X)
        → OnDone
            (Gains xml (IsInverseName (get_and_check_ua_attribute m attribute_inversename)) x)
            (add_inverse_name ua xml m x)
    unfolding add_inverse_name
    add_inverse_name-Gains m x =
        elim (Option-cases (get_and_check_ua_attribute m attribute_inversename)) [
          | inl e ↦ rw (e, add_inverse_name) (nothing_added xml (λ kids. kids ≡ []) x refl)
          | inr (v, e) ↦ rw (e, add_inverse_name) (inverse_placed v x _ refl)
        ]

    pub fill_reference_type-IsNodeElement :
        (m : NodeIntermediateModel) (x : X)
        → Filled xml (codes "UAReferenceType") no_attributes (λ kids. kids ≡ []) x
        → OnDone (IsNodeElement NodeClass.reference_type m) (fill_reference_type ua xml m x)
    unfolding fill_reference_type is_default
    fill_reference_type-IsNodeElement m x start =
        if_done-OnDone _ _ (add_node_ua_type ua xml m x) _
          (add_node_ua_type-Filled (codes "UAReferenceType") m x start)
          λ y (named, h).
            OnDone-map _ _ (add_inverse_name ua xml m _)
              (λ z grown. (
                named,
                Filled-Gains xml (codes "UAReferenceType") _ (InstanceChildren ua xml m) _ _ z
                    (add_optional-Filled xml laws (codes "UAReferenceType") _
                      (InstanceChildren ua xml m) ua (codes "Symmetric") attribute_symmetric
                      (primitive_text ua xml) (shown_flag ua xml) m y
                      (flag-shown ua xml attribute_symmetric (λ u. refl)) h)
                    grown,
              ))
              (add_inverse_name-Gains m _)
