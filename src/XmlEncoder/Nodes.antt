-- ===== src/XmlEncoder/Nodes.antt =====
-- What the encoder's methods for nodes add to the document.
use open62541_nodeset_export.Prelude.{
  Bool, Option, Option-cases, Text, [], ap, codes, false, if◌then◌else◌, inl, inr, none, refl, some,
  sym, true, ◌∙◌, ◌≡◌,
}
use open62541_nodeset_export.Effect.{Effect}
use open62541_nodeset_export.Loop.ExportNodes.{add_node}
use open62541_nodeset_export.Model.{NodeIntermediateModel}
use open62541_nodeset_export.Status.{Status, fails, of_status, ok}
use open62541_nodeset_export.Ua.{NodeClass, Ua}
use open62541_nodeset_export.Xml.{Xml, XmlLaws}
use open62541_nodeset_export.XmlEncoder.{
  XmlEncoder, add_node_element, basic_check, failed, xml_add_node_data_type, xml_add_node_object,
  xml_add_node_object_type, xml_add_node_reference_type, xml_add_node_variable,
  xml_add_node_variable_type, xml_encoder,
}
use open62541_nodeset_export.XmlNode.Attributes.{no_attributes}
use open62541_nodeset_export.XmlNode.Classes.{
  IsNodeElement, add_node_ua_type-Filled, fill_object-IsNodeElement,
  fill_reference_type-IsNodeElement, fill_variable-IsNodeElement, fill_variable_type-IsNodeElement,
}
use open62541_nodeset_export.XmlNode.Elements.{
  add_node_ua_type, fill_object, fill_reference_type, fill_variable, fill_variable_type,
}
use open62541_nodeset_export.XmlNode.Updates.{Filled, OnDone, new_child-Filled}

pub some-injective : {A : Type 0} (a b : A) → some a ≡ some b → a ≡ b
some-injective a b h = cc

module _ {X F : Type 0} (ua : Ua) (xml : Xml X F) where
  -- An element with the property has become the last child of the current UANodeSet, and nothing else has
  -- changed.
  abbrev pub IsAdded : (X → Type 0) → XmlEncoder X F → XmlEncoder X F → Type 0
  IsAdded Q e e' =
      (s c : X) × (basic_check ua xml e ≡ some s)
      × (e' ≡ record e { nodeset = some (xml.place c s) })
      × Q c

  module _ (Q : X → Type 0) where
    filled-eq-ok :
        (e e' : XmlEncoder X F) (s : X) (r : Bool × X)
        → basic_check ua xml e ≡ some s
        → OnDone Q r
        → (if r.0
            then (ok tt, record e { nodeset = some (xml.place r.1 s) })
            else failed ua xml (record e { nodeset = some (xml.place r.1 s) }))
          ≡ (ok tt, e')
        → IsAdded Q e e'
    filled-eq-ok e e' s (true, c) checked q h = (s, c, checked, sym (ap (λ p. p.1) h), q)
    filled-eq-ok e e' s (false, c) checked q h =
        let bad : fails (of_status Status.fail) ≡ ok tt = ap (λ p. p.0) h in cc

    new_child-eq-ok :
        (tag : Text) (fill : X → Bool × X) (e e' : XmlEncoder X F) (s : X) (o : Option X)
        → basic_check ua xml e ≡ some s
        → ((c : X) → o ≡ some c → OnDone Q (fill c))
        → elim o [
          | none ↦ failed ua xml e
          | some c ↦
              let (done, c') = fill c in
              let e' = record e { nodeset = some (xml.place c' s) } in
              if done then (ok tt, e') else failed ua xml e'
        ]
          ≡ (ok tt, e')
        → IsAdded Q e e'
    new_child-eq-ok tag fill e e' s none checked q h =
        let bad : fails (of_status Status.fail) ≡ ok tt = ap (λ p. p.0) h in cc
    new_child-eq-ok tag fill e e' s (some c) checked q h =
        filled-eq-ok e e' s (fill c) checked (q c refl) h

    add_node_element-eq-ok :
        (laws : XmlLaws xml) (tag : Text) (fill : X → Bool × X) (e e' : XmlEncoder X F)
        → ((c : X) → Filled xml tag no_attributes (λ kids. kids ≡ []) c → OnDone Q (fill c))
        → add_node_element ua xml tag fill e ≡ (ok tt, e')
        → IsAdded Q e e'
    unfolding add_node_element
    add_node_element-eq-ok laws tag fill e e' q h = elim (Option-cases (basic_check ua xml e)) [
      | inl b ↦
          let bad : fails (of_status Status.fail) ≡ ok tt =
            ap (λ p. p.0) (rw (b, add_node_element) at h) in
          cc
      | inr (s, b) ↦
          new_child-eq-ok tag fill e e' s (xml.insert_new_child_element tag s) b
            (λ c made. q c (new_child-Filled xml laws tag s c made)) (rw (b, add_node_element) at h)
    ]

  -- The methods by class, on a model whose own class is left aside.
  abbrev pub call_of :
      NodeClass → NodeIntermediateModel → Option (Effect (XmlEncoder X F) (Unit {0}))
  call_of class m = elim class [
    | NodeClass.object ↦ some (xml_add_node_object ua xml m)
    | NodeClass.variable ↦ some (xml_add_node_variable ua xml m)
    | NodeClass.object_type ↦ some (xml_add_node_object_type ua xml m)
    | NodeClass.variable_type ↦ some (xml_add_node_variable_type ua xml m)
    | NodeClass.reference_type ↦ some (xml_add_node_reference_type ua xml m)
    | NodeClass.data_type ↦ some (xml_add_node_data_type ua xml m)
    | _ ↦ none
  ]

  module _ (laws : XmlLaws xml) where
    of_class :
        (class : NodeClass) (m : NodeIntermediateModel) (call : Effect (XmlEncoder X F) (Unit {0}))
        (e e' : XmlEncoder X F)
        → call_of class m ≡ some call
        → call e ≡ (ok tt, e')
        → IsAdded (IsNodeElement ua xml class m) e e'
    unfolding xml_add_node_object xml_add_node_variable xml_add_node_object_type
        xml_add_node_variable_type xml_add_node_reference_type xml_add_node_data_type
    of_class NodeClass.object m call e e' which h =
        let same : xml_add_node_object ua xml m ≡ call = some-injective _ _ which in
        add_node_element-eq-ok (IsNodeElement ua xml NodeClass.object m) laws (codes "UAObject")
          (fill_object ua xml m) e e' (λ x start. fill_object-IsNodeElement ua xml laws m x start)
          (ap (λ f. f e) same ∙ h)
    of_class NodeClass.variable m call e e' which h =
        let same : xml_add_node_variable ua xml m ≡ call = some-injective _ _ which in
        add_node_element-eq-ok (IsNodeElement ua xml NodeClass.variable m) laws (codes "UAVariable")
          (fill_variable ua xml m) e e'
          (λ x start. fill_variable-IsNodeElement ua xml laws m x start) (ap (λ f. f e) same ∙ h)
    of_class NodeClass.object_type m call e e' which h =
        let same : xml_add_node_object_type ua xml m ≡ call = some-injective _ _ which in
        add_node_element-eq-ok (IsNodeElement ua xml NodeClass.object_type m) laws
          (codes "UAObjectType") (add_node_ua_type ua xml m) e e'
          (λ x start. add_node_ua_type-Filled ua xml laws (codes "UAObjectType") m x start)
          (ap (λ f. f e) same ∙ h)
    of_class NodeClass.variable_type m call e e' which h =
        let same : xml_add_node_variable_type ua xml m ≡ call = some-injective _ _ which in
        add_node_element-eq-ok (IsNodeElement ua xml NodeClass.variable_type m) laws
          (codes "UAVariableType") (fill_variable_type ua xml m) e e'
          (λ x start. fill_variable_type-IsNodeElement ua xml laws m x start)
          (ap (λ f. f e) same ∙ h)
    of_class NodeClass.reference_type m call e e' which h =
        let same : xml_add_node_reference_type ua xml m ≡ call = some-injective _ _ which in
        add_node_element-eq-ok (IsNodeElement ua xml NodeClass.reference_type m) laws
          (codes "UAReferenceType") (fill_reference_type ua xml m) e e'
          (λ x start. fill_reference_type-IsNodeElement ua xml laws m x start)
          (ap (λ f. f e) same ∙ h)
    of_class NodeClass.data_type m call e e' which h =
        let same : xml_add_node_data_type ua xml m ≡ call = some-injective _ _ which in
        add_node_element-eq-ok (IsNodeElement ua xml NodeClass.data_type m) laws
          (codes "UADataType") (add_node_ua_type ua xml m) e e'
          (λ x start. add_node_ua_type-Filled ua xml laws (codes "UADataType") m x start)
          (ap (λ f. f e) same ∙ h)
    of_class class m call e e' which h = cc

    -- Where ExportNodes hands a model to this encoder and the call succeeds, there is a UANodeSet that Begin has
    -- made, and its new last child is the element of the node: the name is that of the node's class, the
    -- attributes are those of the class that are there, have the right type and are not the default, with the
    -- node id and the browse name always, and the children are the display name, the description, one
    -- reference for each reference of the model, in order, and for a reference type the inverse name. Nothing
    -- else changes.
    pub xml_add_node-IsAdded :
        (m : NodeIntermediateModel) (call : Effect (XmlEncoder X F) (Unit {0}))
        (e e' : XmlEncoder X F)
        → add_node (xml_encoder ua xml) m ≡ some call
        → call e ≡ (ok tt, e')
        → IsAdded (IsNodeElement ua xml m.node_class m) e e'
    unfolding add_node
    xml_add_node-IsAdded m call e e' which h = of_class m.node_class m call e e' which h
