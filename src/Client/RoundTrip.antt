-- ===== src/Client/RoundTrip.antt =====
-- ReadNodesAttributes sends the attributes of all nodes in one list and hands the answers back to the
-- nodes.
use open62541_nodeset_export.Prelude.{
  ==_iff, Bool-cases, List, Option, [], ap, arith, false, inl, inr, length, none, refl, some, subst,
  sym, true, ℕ, ◌++◌, ◌==◌, ◌∙◌, ◌∷◌, ◌≡◌, ◌≢◌,
}
use open62541_nodeset_export.BrowseOperations.Rounds.{answer}
use open62541_nodeset_export.Client.{
  DataValue, ReadValueId, UaClient, as_classes, attribute_ids, attribute_of, attributes_of,
  client_read_nodes_attributes, correct_type, correct_types, fill_attributes, fill_nodes, flat_ids,
  read_value_ids,
}
use open62541_nodeset_export.Effect.{and_then-eq-ok}
use open62541_nodeset_export.Interfaces.{NodeAttributesRequestResponse}
use open62541_nodeset_export.Model.{Attributes}
use open62541_nodeset_export.Status.{ok, ok-injective}
use open62541_nodeset_export.TypeAliases.{ua_variant_to_std_variant}
use open62541_nodeset_export.Ua.{AttrValue, NodeId, Ua, Variant}

module _ {W : Type 0} (ua : Ua) (client : UaClient W) where
  -- The value that an answer gives to the attribute `key`: none for a bad status, the whole variant for the
  -- attribute Value, i=13, and otherwise the first element, where the number of a class, i=2, is read as a
  -- class first.
  pub record IsGiven (key : ℕ) (answer : DataValue) (v : Option AttrValue) : Type 0 where
    pub bad : ua.is_bad answer.status ≡ true → v ≡ none
    pub unset : answer.value ≡ none → v ≡ none
    pub whole :
        (u : Variant)
        → ua.is_bad answer.status ≡ false
        → answer.value ≡ some u
        → key ≡ 13
        → v ≡ some (AttrValue.variant u)
    pub class :
        (u : Variant)
        → ua.is_bad answer.status ≡ false
        → answer.value ≡ some u
        → key ≡ 2
        → v ≡ ua_variant_to_std_variant (as_classes u)
    pub element :
        (u : Variant)
        → ua.is_bad answer.status ≡ false
        → answer.value ≡ some u
        → key ≢ 13
        → key ≢ 2
        → v ≡ ua_variant_to_std_variant u

  attribute_of-IsGiven :
      (id : ReadValueId) (answer : DataValue)
      → IsGiven id.attribute_id answer (attribute_of ua client id (correct_type id answer))
  unfolding attribute_of
  attribute_of-IsGiven id answer = record {
    bad = λ h. ground arith;
    unset = λ h. ground arith;
    whole = λ u fine value key. ground arith;
    class = λ u fine value key. ground arith;
    element = λ u fine value key key'. ground arith;
  }

  -- The attributes of one node: each was asked for by the id of the node and its own key, keeps the key, and
  -- has the value that the answer to just this request gives.
  abbrev pub OwnAnswers :
      NodeId → Attributes → Attributes → List ReadValueId → List DataValue → Type 0
  OwnAnswers id [] [] [] [] = Unit
  OwnAnswers id ((k, old) ∷ attrs) ((k', v) ∷ attrs') (asked ∷ ids) (answer ∷ answers) =
      (asked.node_id ≡ id)
      × (asked.attribute_id ≡ k)
      × (k' ≡ k)
      × IsGiven k answer v
      × OwnAnswers id attrs attrs' ids answers
  OwnAnswers id _ _ _ _ = ⊥

  -- Node by node: the requests and the answers are split between the nodes in their order.
  abbrev pub AllAnswered :
      List NodeAttributesRequestResponse
      → List NodeAttributesRequestResponse
      → List ReadValueId
      → List DataValue
      → Type 0
  AllAnswered [] [] ids answers = (ids ≡ []) × (answers ≡ [])
  AllAnswered (r ∷ rs) (r' ∷ rs') ids answers =
      (own later : List ReadValueId) × (own_answers later_answers : List DataValue) × (ids
        ≡ own ++ later)
      × (answers ≡ own_answers ++ later_answers)
      × (r'.exp_node_id ≡ r.exp_node_id)
      × OwnAnswers r.exp_node_id.node_id r.attrs r'.attrs own own_answers
      × AllAnswered rs rs' later later_answers
  AllAnswered _ _ ids answers = ⊥

  -- What the answers give for the ids.
  abbrev values_of : List ReadValueId → List DataValue → List (Option AttrValue)
  values_of ids answers = attributes_of ua client ids (correct_types ids answers)

  abbrev FillsOwn : NodeId → Attributes → List ReadValueId → List DataValue → Type 0
  FillsOwn id attrs later answers =
      let filled =
        fill_attributes ua client attrs
          (values_of (attribute_ids ua client id attrs ++ later) answers) in
      (own_answers later_answers : List DataValue) × (answers ≡ own_answers ++ later_answers)
      × (length later_answers ≡ length later)
      × OwnAnswers id attrs filled.0 (attribute_ids ua client id attrs) own_answers
      × (filled.1 ≡ values_of later later_answers)

  fill_attributes-FillsOwn :
      (id : NodeId) (attrs : Attributes) (later : List ReadValueId) (answers : List DataValue)
      → length answers ≡ length (attribute_ids ua client id attrs ++ later)
      → FillsOwn id attrs later answers
  unfolding fill_attributes
  fill_attributes-FillsOwn id [] later answers h = ([], answers, refl, h, tt, refl)
  fill_attributes-FillsOwn id ((k, old) ∷ attrs) later [] h = absurd (omega arith)
  fill_attributes-FillsOwn id ((k, old) ∷ attrs) later (d ∷ answers) h =
      let (own, rest, split, size, mine, left) =
        fill_attributes-FillsOwn id attrs later answers (omega arith) in
      let asked : ReadValueId = record { node_id = id; attribute_id = k } in
      (
        d ∷ own,
        rest,
        ap (λ t. d ∷ t) split,
        size,
        (refl, refl, refl, attribute_of-IsGiven asked d, mine),
        left,
      )

  fill_nodes-AllAnswered :
      (rs : List NodeAttributesRequestResponse) (answers : List DataValue)
      → length answers ≡ length (flat_ids ua client rs)
      → AllAnswered rs
          (fill_nodes ua client rs (values_of (flat_ids ua client rs) answers))
          (flat_ids ua client rs)
          answers
  unfolding fill_nodes
  fill_nodes-AllAnswered [] [] h = (refl, refl)
  fill_nodes-AllAnswered [] (d ∷ answers) h = cc
  fill_nodes-AllAnswered (r ∷ rs) answers h =
      let id = r.exp_node_id.node_id in
      let later = flat_ids ua client rs in
      let (own, rest, split, size, mine, left) =
        fill_attributes-FillsOwn id r.attrs later answers h in
      (
        attribute_ids ua client id r.attrs,
        later,
        own,
        rest,
        refl,
        split,
        refl,
        mine,
        subst (λ t. AllAnswered rs (fill_nodes ua client rs t) later rest) (sym left)
            (fill_nodes-AllAnswered rs rest size),
      )

  read_value_ids-eq-ok :
      (ids : List ReadValueId) (values : List DataValue) (w w' : W)
      → read_value_ids ua client ids w ≡ (ok values, w')
      → (ua.is_bad (client.service_read ids w).0.service_result ≡ false)
        × (length (client.service_read ids w).0.results ≡ length ids)
        × (values ≡ correct_types ids (client.service_read ids w).0.results)
  unfolding read_value_ids
  read_value_ids-eq-ok ids values w w' h =
      let response = (client.service_read ids w).0 in
      elim (Bool-cases (ua.is_bad response.service_result)) [
        | inl e ↦ let f = ap (λ p. p.0) (rw (e, read_value_ids) at h) in cc
        | inr e ↦ elim (Bool-cases (length response.results == length ids)) [
          | inl g ↦
              let f = ap (λ p. p.0) (rw (e, g, read_value_ids) at h) in
              (e, (==_iff _ _).0 g, sym (ok-injective f))
          | inr g ↦ let f = ap (λ p. p.0) (rw (e, g, read_value_ids) at h) in cc
        ]
      ]

  -- A successful ReadNodesAttributes has sent one list of requests, with an answer to each. Both are split
  -- between the nodes in their order: a node gets one request for each of its attributes, by its own id and
  -- the key of the attribute, keeps its id and its keys, and each of its attributes has the value that the
  -- answer to its own request gives.
  pub client_read_nodes_attributes-values :
      (rs rs' : List NodeAttributesRequestResponse) (w w' : W)
      → client_read_nodes_attributes ua client rs w ≡ (ok rs', w')
      → (ids : List ReadValueId) × AllAnswered rs rs' ids (client.service_read ids w).0.results
  unfolding client_read_nodes_attributes
  client_read_nodes_attributes-values rs rs' w w' h =
      let ids = flat_ids ua client rs in
      let (values, w1, asked, done) = and_then-eq-ok (read_value_ids ua client ids w) _ rs' w' h in
      let (fine, size, same) = read_value_ids-eq-ok ids values w w1 asked in
      let results = (client.service_read ids w).0.results in
      let q : fill_nodes ua client rs (values_of ids results) ≡ rs' =
        ap (λ v. fill_nodes ua client rs (attributes_of ua client ids v)) (sym same)
        ∙ ok-injective (ap (λ p. p.0) done) in
      (ids, subst (λ t. AllAnswered rs t ids results) q (fill_nodes-AllAnswered rs results size))
