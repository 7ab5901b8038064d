-- ===== src/XmlEncoder/Protocol.antt =====
-- Which calls the encoder refuses, and how an export ends.
use open62541_nodeset_export.Prelude.{
  Bool, List, Option, Text, [], arith, codes, false, if◌then◌else◌, inl, inr, none, refl, some,
  true, ◌∷◌, ◌≡◌, ◌⊎◌,
}
use open62541_nodeset_export.Effect.{Effect}
use open62541_nodeset_export.Interfaces.{IEncoder}
use open62541_nodeset_export.Model.{NodeIntermediateModel}
use open62541_nodeset_export.Status.{Outcome, Status, fails, of_status}
use open62541_nodeset_export.Ua.{NodeId, Ua}
use open62541_nodeset_export.Xml.{Xml}
use open62541_nodeset_export.XmlEncoder.{
  Place, XmlEncoder, add_node_element, basic_check, failed, xml_add_aliases, xml_add_namespaces,
  xml_add_node_data_type, xml_add_node_object, xml_add_node_object_type,
  xml_add_node_reference_type, xml_add_node_variable, xml_add_node_variable_type, xml_encoder,
  xml_end,
}

-- The methods of IEncoder with their arguments.
pub data EncoderCall : Type 0 where
  begin_call end_call : EncoderCall
  namespaces_call : List Text → EncoderCall
  aliases_call : List (Text × NodeId) → EncoderCall
  object_call object_type_call variable_call variable_type_call reference_type_call data_type_call :
      NodeIntermediateModel → EncoderCall

module _ {E : Type 0} (enc : IEncoder E) where
  abbrev pub run_call : EncoderCall → Effect E (Unit {0})
  run_call begin_call = enc.begin
  run_call end_call = enc.end
  run_call (namespaces_call uris) = enc.add_namespaces uris
  run_call (aliases_call aliases) = enc.add_aliases aliases
  run_call (object_call m) = enc.add_node_object m
  run_call (object_type_call m) = enc.add_node_object_type m
  run_call (variable_call m) = enc.add_node_variable m
  run_call (variable_type_call m) = enc.add_node_variable_type m
  run_call (reference_type_call m) = enc.add_node_reference_type m
  run_call (data_type_call m) = enc.add_node_data_type m

  -- One call after the other, whatever they return.
  abbrev pub run_calls : List EncoderCall → E → E
  run_calls [] e = e
  run_calls (call ∷ calls) e = run_calls calls (run_call call e).1

module _ {X F : Type 0} (ua : Ua) (xml : Xml X F) where
  -- Begin has not been called, or not since the last End.
  abbrev pub IsClosed : XmlEncoder X F → Type 0
  IsClosed e = (e.begin_first ≡ false) ⊎ (e.nodeset ≡ none)

  -- A call out of place: before Begin, or one for the namespaces or the aliases that comes again.
  abbrev pub IsRefused : EncoderCall → XmlEncoder X F → Type 0
  IsRefused begin_call e = ⊥
  IsRefused (namespaces_call uris) e = IsClosed e ⊎ ((p : Place) × (e.namespace_uris ≡ some p))
  IsRefused (aliases_call aliases) e = IsClosed e ⊎ (e.aliases ≡ true)
  IsRefused _ e = IsClosed e

  closed_check : (e : XmlEncoder X F) → IsClosed e → basic_check ua xml e ≡ none
  unfolding basic_check
  closed_check e h = ground arith

  module _ (e : XmlEncoder X F) where
    refused_element :
        (tag : Text) (fill : X → Bool × X)
        → basic_check ua xml e ≡ none
        → add_node_element ua xml tag fill e ≡ failed ua xml e
    unfolding add_node_element
    refused_element tag fill b = rw (b, add_node_element) refl

    unless_checked :
        (o : Option Place) (c : Option X) (f : X → Outcome (Unit {0}) × XmlEncoder X F)
        → c ≡ none
        → elim o [
          | some p ↦ failed ua xml e
          | none ↦ elim c [ none ↦ failed ua xml e | some s ↦ f s ]
        ]
          ≡ failed ua xml e
    unless_checked none none f h = refl
    unless_checked none (some s) f h = cc
    unless_checked (some p) c f h = refl

    there_already :
        {A : Type 0} (o : Option A) (p : A) (r : Outcome (Unit {0}) × XmlEncoder X F)
        → o ≡ some p
        → elim o [ some q ↦ failed ua xml e | none ↦ r ] ≡ failed ua xml e
    there_already (some q) p r h = refl
    there_already none p r h = cc

    unless_set :
        (b : Bool) (c : Option X) (f : X → Outcome (Unit {0}) × XmlEncoder X F)
        → c ≡ none
        → (if b then failed ua xml e else elim c [ none ↦ failed ua xml e | some s ↦ f s ])
          ≡ failed ua xml e
    unless_set true c f h = refl
    unless_set false none f h = refl
    unless_set false (some s) f h = cc

    if_true :
        (b : Bool) (r : Outcome (Unit {0}) × XmlEncoder X F)
        → b ≡ true
        → (if b then failed ua xml e else r) ≡ failed ua xml e
    if_true true r h = refl
    if_true false r h = cc

    -- A call out of place returns Fail and changes nothing: any call but Begin before Begin or after End, a
    -- second AddNamespaces, and a second AddAliases.
    pub run_call-refused :
        (call : EncoderCall)
        → IsRefused call e
        → run_call (xml_encoder ua xml) call e ≡ (fails (of_status Status.fail), e)
    unfolding xml_end xml_add_namespaces xml_add_aliases xml_add_node_object xml_add_node_variable
        xml_add_node_object_type xml_add_node_variable_type xml_add_node_reference_type
        xml_add_node_data_type
    run_call-refused begin_call h = absurd h
    run_call-refused end_call h = rw (closed_check e h, xml_end) refl
    run_call-refused (namespaces_call uris) (inl h) =
        unless_checked e.namespace_uris (basic_check ua xml e) _ (closed_check e h)
    run_call-refused (namespaces_call uris) (inr (p, h)) = there_already e.namespace_uris p _ h
    run_call-refused (aliases_call aliases) (inl h) =
        unless_set e.aliases (basic_check ua xml e) _ (closed_check e h)
    run_call-refused (aliases_call aliases) (inr h) = if_true e.aliases _ h
    run_call-refused (object_call m) h = refused_element (codes "UAObject") _ (closed_check e h)
    run_call-refused (object_type_call m) h =
        refused_element (codes "UAObjectType") _ (closed_check e h)
    run_call-refused (variable_call m) h = refused_element (codes "UAVariable") _ (closed_check e h)
    run_call-refused (variable_type_call m) h =
        refused_element (codes "UAVariableType") _ (closed_check e h)
    run_call-refused (reference_type_call m) h =
        refused_element (codes "UAReferenceType") _ (closed_check e h)
    run_call-refused (data_type_call m) h =
        refused_element (codes "UADataType") _ (closed_check e h)
