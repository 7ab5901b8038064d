-- ===== src/XmlEncoder/Accepts.antt =====
-- Which nodes the encoder accepts.
use open62541_nodeset_export.Prelude.{
  Bool, Text, ap, codes, false, if◌then◌else◌, refl, some, sym, true, ◌∙◌, ◌≡◌,
}
use open62541_nodeset_export.Effect.{Effect}
use open62541_nodeset_export.Loop.ExportNodes.{add_node}
use open62541_nodeset_export.Model.{NodeIntermediateModel}
use open62541_nodeset_export.Status.{Outcome, Status, fails, of_status, ok}
use open62541_nodeset_export.Ua.{NodeClass, Ua}
use open62541_nodeset_export.Xml.{Xml}
use open62541_nodeset_export.XmlEncoder.{
  XmlEncoder, add_node_element, basic_check, failed, xml_add_node_data_type, xml_add_node_object,
  xml_add_node_object_type, xml_add_node_reference_type, xml_add_node_variable,
  xml_add_node_variable_type, xml_encoder,
}
use open62541_nodeset_export.XmlEncoder.Nodes.{call_of, some-injective}
use open62541_nodeset_export.XmlNode.Flags.{
  IsRoomy, add_node_ua_type-flag, fill_object-flag, fill_reference_type-flag, fill_variable-flag,
  fill_variable_type-flag, is_writable,
}

module _ {X F : Type 0} (ua : Ua) (xml : Xml X F) (roomy : IsRoomy ua xml) where
  abbrev pub verdict : Bool → Outcome (Unit {0})
  verdict accepted = if accepted then ok tt else fails (of_status Status.fail)

  placed-verdict :
      (b accepted : Bool) (e : XmlEncoder X F)
      → b ≡ accepted
      → (if b then (ok tt, e) else failed ua xml e).0 ≡ verdict accepted
  placed-verdict true true e h = refl
  placed-verdict true false e h = cc
  placed-verdict false true e h = cc
  placed-verdict false false e h = refl

  add_node_element-verdict :
      (tag : Text) (fill : X → Bool × X) (accepted : Bool) (e : XmlEncoder X F) (s : X)
      → basic_check ua xml e ≡ some s
      → ((x : X) → (fill x).0 ≡ accepted)
      → (add_node_element ua xml tag fill e).0 ≡ verdict accepted
  unfolding add_node_element
  add_node_element-verdict tag fill accepted e s checked flag =
      let (c, made) = roomy tag s in
      rw (checked, made, add_node_element) (placed-verdict (fill c).0 accepted _ (flag c))

  verdict_of_class :
      (class : NodeClass) (m : NodeIntermediateModel) (call : Effect (XmlEncoder X F) (Unit {0}))
      (e : XmlEncoder X F) (s : X)
      → call_of ua xml class m ≡ some call
      → basic_check ua xml e ≡ some s
      → (call e).0 ≡ verdict (is_writable ua m)
  unfolding xml_add_node_object xml_add_node_variable xml_add_node_object_type
      xml_add_node_variable_type xml_add_node_reference_type xml_add_node_data_type
  verdict_of_class NodeClass.object m call e s which checked =
      ap (λ f. (f e).0) (some-injective call _ (sym which))
      ∙ add_node_element-verdict (codes "UAObject") _ _ e s checked
          (fill_object-flag ua xml roomy m)
  verdict_of_class NodeClass.variable m call e s which checked =
      ap (λ f. (f e).0) (some-injective call _ (sym which))
      ∙ add_node_element-verdict (codes "UAVariable") _ _ e s checked
          (fill_variable-flag ua xml roomy m)
  verdict_of_class NodeClass.object_type m call e s which checked =
      ap (λ f. (f e).0) (some-injective call _ (sym which))
      ∙ add_node_element-verdict (codes "UAObjectType") _ _ e s checked
          (add_node_ua_type-flag ua xml roomy m)
  verdict_of_class NodeClass.variable_type m call e s which checked =
      ap (λ f. (f e).0) (some-injective call _ (sym which))
      ∙ add_node_element-verdict (codes "UAVariableType") _ _ e s checked
          (fill_variable_type-flag ua xml roomy m)
  verdict_of_class NodeClass.reference_type m call e s which checked =
      ap (λ f. (f e).0) (some-injective call _ (sym which))
      ∙ add_node_element-verdict (codes "UAReferenceType") _ _ e s checked
          (fill_reference_type-flag ua xml roomy m)
  verdict_of_class NodeClass.data_type m call e s which checked =
      ap (λ f. (f e).0) (some-injective call _ (sym which))
      ∙ add_node_element-verdict (codes "UADataType") _ _ e s checked
          (add_node_ua_type-flag ua xml roomy m)
  verdict_of_class class m call e s which checked = cc

  -- Between Begin and End, and as long as every child element can be made, the call that ExportNodes makes for
  -- a model succeeds exactly where the node has an id that is not null, a browse name, and for every reference
  -- a type and a target that is not null; otherwise it returns Fail. Nothing else about the node matters, such
  -- as the type or the value of any other attribute.
  pub xml_add_node-verdict :
      (m : NodeIntermediateModel) (call : Effect (XmlEncoder X F) (Unit {0})) (e : XmlEncoder X F)
      (s : X)
      → add_node (xml_encoder ua xml) m ≡ some call
      → basic_check ua xml e ≡ some s
      → (call e).0 ≡ verdict (is_writable ua m)
  unfolding add_node
  xml_add_node-verdict m call e s which checked =
      verdict_of_class m.node_class m call e s which checked
