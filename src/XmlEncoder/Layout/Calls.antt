-- ===== src/XmlEncoder/Layout/Calls.antt =====
-- Every call of the encoder keeps the order of the children of the UANodeSet.
use open62541_nodeset_export.Prelude.{
  Bool, List, Option, Text, [], ap, codes, false, inl, none, refl, some, subst, true, ◌++◌, ◌∙◌,
  ◌∷◌, ◌≡◌,
}
use open62541_nodeset_export.Loop.Distinct.{distinct}
use open62541_nodeset_export.Status.{Outcome}
use open62541_nodeset_export.Strings.{c_string}
use open62541_nodeset_export.Ua.{NodeId, Ua}
use open62541_nodeset_export.Xml.{Xml, XmlLaws, declaration_node, element_node}
use open62541_nodeset_export.XmlEncoder.{
  Place, XmlEncoder, add_alias_elements, add_node_element, add_uris, basic_check, document, moved,
  new_nodeset, reset, set_namespaces_of_schema, xml_add_aliases, xml_add_namespaces,
  xml_add_node_data_type, xml_add_node_object, xml_add_node_object_type,
  xml_add_node_reference_type, xml_add_node_variable, xml_add_node_variable_type, xml_begin,
  xml_encoder, xml_end,
}
use open62541_nodeset_export.XmlEncoder.Document.{basic_check-eq-some}
use open62541_nodeset_export.XmlEncoder.Head.{
  add_alias_elements-Gains, add_uris-Gains, new_nodeset-Filled, remarks,
}
use open62541_nodeset_export.XmlEncoder.Layout.{
  IsLaidOut, Sections, aliased-Sections, append-Sections, first-Sections, if-keeps, is_head,
  none-keeps, some-keeps,
}
use open62541_nodeset_export.XmlEncoder.Nodes.{some-injective}
use open62541_nodeset_export.XmlEncoder.Protocol.{
  EncoderCall, aliases_call, begin_call, data_type_call, end_call, namespaces_call, object_call,
  object_type_call, reference_type_call, run_call, run_calls, variable_call, variable_type_call,
}
use open62541_nodeset_export.XmlNode.Names.{
  KeepsName, add_node_ua_type-KeepsName, fill_object-KeepsName, fill_reference_type-KeepsName,
  fill_variable-KeepsName, fill_variable_type-KeepsName,
}

module _ {X F : Type 0} (ua : Ua) (xml : Xml X F) (laws : XmlLaws xml) where
  abbrev LaidOut : Outcome (Unit {0}) × XmlEncoder X F → Type 0
  LaidOut r = IsLaidOut ua xml r.1

  here :
      (e : XmlEncoder X F) (s : X)
      → IsLaidOut ua xml e
      → basic_check ua xml e ≡ some s
      → Sections ua xml e.namespace_uris e.aliases s
  here e s h checked = h s (basic_check-eq-some ua xml laws e s checked)

  new_nodeset-Sections :
      (p : Option Place) (b : Bool) (x : X)
      → xml.new_element (codes "UANodeSet") ≡ some x
      → Sections ua xml (moved p) b (new_nodeset ua xml x)
  new_nodeset-Sections none b x made = (
    [],
    [],
    remarks ua xml,
    (new_nodeset-Filled ua xml laws x made).2,
    refl,
    inl refl,
    (tt, (tt, tt)),
  )
  new_nodeset-Sections (some p) b x made = (
    [],
    [],
    remarks ua xml,
    (new_nodeset-Filled ua xml laws x made).2,
    refl,
    inl refl,
    (tt, (tt, tt)),
  )

  replaced :
      (p : Option Place) (b : Bool) (s s' : X)
      → some s ≡ some s'
      → Sections ua xml p b s
      → Sections ua xml p b s'
  replaced p b s s' e h = subst (Sections ua xml p b) (some-injective s s' e) h

  xml_begin-IsLaidOut : (e : XmlEncoder X F) → IsLaidOut ua xml e → LaidOut (xml_begin ua xml e)
  unfolding xml_begin
  xml_begin-IsLaidOut e h = some-keeps ua xml laws LaidOut xml.new_declaration _ _ h λ d made_d.
      some-keeps ua xml laws LaidOut (xml.insert_first_child (declaration_node d) e.tree) _ _ h
        λ tree first.
          some-keeps ua xml laws LaidOut (xml.new_element (codes "UANodeSet")) _ _ h λ x made.
            some-keeps ua xml laws LaidOut
              (xml.insert_end_child (element_node (set_namespaces_of_schema ua xml x))
                (document ua xml (record e { tree = tree })))
              _ _ h
              λ whole last s same.
                replaced (moved e.namespace_uris) e.aliases _ s same
                  (new_nodeset-Sections e.namespace_uris e.aliases x made)

  without_nodeset : (e : XmlEncoder X F) → e.nodeset ≡ none → IsLaidOut ua xml e
  without_nodeset e closed s bad = cc

  reset-IsLaidOut : (e : XmlEncoder X F) → IsLaidOut ua xml (reset ua xml e)
  unfolding reset
  reset-IsLaidOut e = without_nodeset (reset ua xml e) refl

  xml_end-IsLaidOut : (e : XmlEncoder X F) → IsLaidOut ua xml e → LaidOut (xml_end ua xml e)
  unfolding xml_end
  xml_end-IsLaidOut e h = some-keeps ua xml laws LaidOut (basic_check ua xml e) _ _ h λ s checked.
      none-keeps ua xml laws LaidOut e.out_buffer _ _
        (λ written. reset-IsLaidOut (record e {
          begin_first = false;
          out_buffer = some (written ++ (xml.print (document ua xml e) ++ (0 ∷ [])));
        }))
        λ no_buffer.
          if-keeps ua xml laws LaidOut
            (xml.save_file (c_string e.filename) (document ua xml e) e.files).0 _ _
            (λ saved. reset-IsLaidOut (record e {
              begin_first = false;
              files = (xml.save_file (c_string e.filename) (document ua xml e) e.files).1;
            }))
            (λ unsaved. h)

  xml_add_namespaces-IsLaidOut :
      (uris : List Text) (e : XmlEncoder X F)
      → IsLaidOut ua xml e
      → LaidOut (xml_add_namespaces ua xml uris e)
  unfolding xml_add_namespaces
  xml_add_namespaces-IsLaidOut uris e h =
      none-keeps ua xml laws LaidOut e.namespace_uris _ _ (λ p. h)
        λ free. some-keeps ua xml laws LaidOut (basic_check ua xml e) _ _ h λ s checked.
          some-keeps ua xml laws LaidOut (xml.new_element (codes "NamespaceUris")) _ _ h λ x made.
            some-keeps ua xml laws LaidOut (add_uris ua xml uris x) _ _ h λ filled more.
              some-keeps ua xml laws LaidOut (xml.insert_first_child (element_node filled) s) _ _ h
                λ s' first s1 same. replaced (some Place.in_nodeset) e.aliases s' s1 same (
                  first-Sections ua xml laws e.aliases s s' filled
                    (laws.children-insert_first_child (element_node filled) s s' first)
                    ((add_uris-Gains ua xml laws uris x filled more).0
                      ∙ (laws.new_element-IsNew (codes "NamespaceUris") x made).0)
                    (subst (λ p. Sections ua xml p e.aliases s) free (here e s h checked)))

  xml_add_aliases-IsLaidOut :
      (aliases : List (Text × NodeId)) (e : XmlEncoder X F)
      → IsLaidOut ua xml e
      → LaidOut (xml_add_aliases ua xml aliases e)
  unfolding xml_add_aliases
  xml_add_aliases-IsLaidOut aliases e h =
      if-keeps ua xml laws LaidOut e.aliases _ _ (λ set. h)
        λ unset. some-keeps ua xml laws LaidOut (basic_check ua xml e) _ _ h λ s checked.
          some-keeps ua xml laws LaidOut (xml.new_element (codes "Aliases")) _ _ h λ x made.
            some-keeps ua xml laws LaidOut (add_alias_elements ua xml aliases x) _ _ h
              λ filled more s1 same. replaced e.namespace_uris true _ s1 same (
                aliased-Sections ua xml laws e.namespace_uris s filled
                  ((add_alias_elements-Gains ua xml laws aliases x filled more).0
                    ∙ (laws.new_element-IsNew (codes "Aliases") x made).0)
                  (subst (λ b. Sections ua xml e.namespace_uris b s) unset (here e s h checked)))

  add_node_element-IsLaidOut :
      (tag : Text) (fill : X → Bool × X) (e : XmlEncoder X F)
      → is_head ua xml tag ≡ false
      → ((x : X) → KeepsName ua xml laws x (fill x).1)
      → IsLaidOut ua xml e
      → LaidOut (add_node_element ua xml tag fill e)
  unfolding add_node_element
  add_node_element-IsLaidOut tag fill e distinct keeps h =
      some-keeps ua xml laws LaidOut (basic_check ua xml e) _ _ h λ s checked.
        some-keeps ua xml laws LaidOut (xml.insert_new_child_element tag s) _ _ h λ c made.
          let name : xml.name (fill c).1 ≡ tag =
            keeps c ∙ (laws.insert_new_child_element-IsNew tag s c made).0 in
          let grown : IsLaidOut ua xml (record e { nodeset = some (xml.place (fill c).1 s) }) =
            λ s1 same. replaced e.namespace_uris e.aliases _ s1 same (
              append-Sections ua xml laws e.namespace_uris e.aliases s _ (element_node (fill c).1)
                (laws.children-place (fill c).1 s) (ap (is_head ua xml) name ∙ distinct)
                (here e s h checked)) in
          if-keeps ua xml laws LaidOut (fill c).0 _ _ (λ done. grown) (λ given_up. grown)

  run_call-IsLaidOut :
      (call : EncoderCall) (e : XmlEncoder X F)
      → IsLaidOut ua xml e
      → LaidOut (run_call (xml_encoder ua xml) call e)
  unfolding xml_add_node_object xml_add_node_variable xml_add_node_object_type
      xml_add_node_variable_type xml_add_node_reference_type xml_add_node_data_type
  run_call-IsLaidOut begin_call e h = xml_begin-IsLaidOut e h
  run_call-IsLaidOut end_call e h = xml_end-IsLaidOut e h
  run_call-IsLaidOut (namespaces_call uris) e h = xml_add_namespaces-IsLaidOut uris e h
  run_call-IsLaidOut (aliases_call aliases) e h = xml_add_aliases-IsLaidOut aliases e h
  run_call-IsLaidOut (object_call m) e h =
      add_node_element-IsLaidOut (codes "UAObject") _ e refl (fill_object-KeepsName ua xml laws m) h
  run_call-IsLaidOut (object_type_call m) e h =
      add_node_element-IsLaidOut (codes "UAObjectType") _ e refl
        (add_node_ua_type-KeepsName ua xml laws m) h
  run_call-IsLaidOut (variable_call m) e h =
      add_node_element-IsLaidOut (codes "UAVariable") _ e refl
        (fill_variable-KeepsName ua xml laws m) h
  run_call-IsLaidOut (variable_type_call m) e h =
      add_node_element-IsLaidOut (codes "UAVariableType") _ e refl
        (fill_variable_type-KeepsName ua xml laws m) h
  run_call-IsLaidOut (reference_type_call m) e h =
      add_node_element-IsLaidOut (codes "UAReferenceType") _ e refl
        (fill_reference_type-KeepsName ua xml laws m) h
  run_call-IsLaidOut (data_type_call m) e h =
      add_node_element-IsLaidOut (codes "UADataType") _ e refl
        (add_node_ua_type-KeepsName ua xml laws m) h

  run_all :
      (calls : List EncoderCall) (e : XmlEncoder X F)
      → IsLaidOut ua xml e
      → IsLaidOut ua xml (run_calls (xml_encoder ua xml) calls e)
  run_all [] e h = h
  run_all (call ∷ calls) e h =
      run_all calls (run_call (xml_encoder ua xml) call e).1 (run_call-IsLaidOut call e h)

  -- After any sequence of calls of the encoder that starts without a UANodeSet, in whatever order and however
  -- many of them fail, the UANodeSet has at most one element for the namespaces, in front of everything else,
  -- and at most one for the aliases, before everything but that; no other child has one of the two names. The
  -- first one is there if and only if m_xml_ua_namespace_uris points into this UANodeSet.
  pub run_calls-IsLaidOut :
      (calls : List EncoderCall) (e : XmlEncoder X F)
      → e.nodeset ≡ none
      → IsLaidOut ua xml (run_calls (xml_encoder ua xml) calls e)
  run_calls-IsLaidOut calls e closed = run_all calls e (without_nodeset e closed)
