-- ===== src/Loop/Requests/Answers.antt =====
-- What the checks of the server's answers let through.
use open62541_nodeset_export.Prelude.{
  ==_iff, All, Bool-cases, List, [], ap, arith, false, inl, inr, is_empty, length, map, not, subst,
  suc, sym, true, ℕ, ◌&&◌, ◌-◌, ◌==◌, ◌∙◌, ◌∷◌, ◌≡◌, ◌≢◌, ◌⊎◌,
}
use open62541_nodeset_export.Effect.{and_then-eq-ok, lift}
use open62541_nodeset_export.Interfaces.{
  IOpen62541, NodeAttributesRequestResponse, NodeClassesRequestResponse,
  NodeReferencesRequestResponse,
}
use open62541_nodeset_export.Loop.Options.{Options}
use open62541_nodeset_export.Loop.Requests.{
  NodeRange, check_references, check_size, get_node_attributes, get_node_references,
  read_attributes, reference_request, slice,
}
use open62541_nodeset_export.Loop.Wanted.{attribute_requests}
use open62541_nodeset_export.Loop.Wanted.Classes.{AllUnset, attribute_requests-unset}
use open62541_nodeset_export.Status.{Outcome-cases, ok, ok-injective}
use open62541_nodeset_export.Ua.{ExpandedNodeId, NodeClass, Ua}

-- A node has a reference, or it is the start node that is to be created.
abbrev pub AllReferenced : Options → ℕ → ℕ → List NodeReferencesRequestResponse → Type 0
AllReferenced opts first index [] = Unit
AllReferenced opts first index (node ∷ nodes) =
    ((node.references ≢ [])
      ⊎ ((opts.create_missing_start_node ≡ true)
          × (opts.is_enable ≡ true)
          × (first ≡ 0)
          × (index ≡ 0)))
    × AllReferenced opts first (suc index) nodes

module _ {W : Type 0} (ua : Ua) (lib : IOpen62541 W) (opts : Options) where
  not_empty :
      (node : NodeReferencesRequestResponse) (first index : ℕ)
      → (is_empty node.references
          && not (
              opts.create_missing_start_node && (opts.is_enable && ((first == 0) && (index == 0)))))
        ≡ false
      → (node.references ≢ [])
        ⊎ ((opts.create_missing_start_node ≡ true)
            × (opts.is_enable ≡ true)
            × (first ≡ 0)
            × (index ≡ 0))
  not_empty node first index h = elim (Bool-cases (is_empty node.references)) [
    | inl e ↦ inr (ground arith)
    | inr e ↦ inl (λ q. let f : is_empty node.references ≡ true = rw q in cc)
  ]

  check_references-eq-ok :
      (first index : ℕ) (nodes nodes' : List NodeReferencesRequestResponse)
      → check_references ua lib opts first index nodes ≡ ok nodes'
      → (nodes ≡ nodes') × AllReferenced opts first index nodes
  unfolding check_references
  check_references-eq-ok first index [] nodes' h = (ok-injective h, tt)
  check_references-eq-ok first index (node ∷ nodes) nodes' h =
      elim (Bool-cases (
        is_empty node.references
        && not (
            opts.create_missing_start_node
            && (opts.is_enable && ((first == 0) && (index == 0)))))) [
              | inl e ↦ let f = rw (e, check_references) at h in cc
              | inr e ↦
                  elim (Outcome-cases (check_references ua lib opts first (suc index) nodes)) [
                    | inl (rest, q) ↦
                        let (same, all) = check_references-eq-ok first (suc index) nodes rest q in
                        let f = rw (e, q, check_references) at h in
                        (
                          ap (λ t. node ∷ t) same ∙ ok-injective f,
                          (not_empty node first index e, all),
                        )
                    | inr (inl (r, q)) ↦ let f = rw (e, q, check_references) at h in cc
                    | inr (inr (r, q)) ↦ let f = rw (e, q, check_references) at h in cc
                  ]
            ]

  check_size-eq-ok :
      {A : Type 0} (range : NodeRange) (xs ys : List A)
      → check_size range xs ≡ ok ys
      → (length ys ≡ range.second - range.first) × (xs ≡ ys)
  check_size-eq-ok range xs ys h = elim (Bool-cases (range.second - range.first == length xs)) [
    | inl e ↦ let same = ok-injective (rw e at h) in (rw (← same) (sym ((==_iff _ _).0 e)), same)
    | inr e ↦ let f = rw e at h in cc
  ]

  -- A successful GetNodeReferences hands on what the server answered for the nodes of the range: one entry
  -- for each of them, and none without a reference, but for the start node where the flat mode is to create it.
  pub get_node_references-checked :
      (node_ids : List ExpandedNodeId) (range : NodeRange) (w w' : W)
      (nodes : List NodeReferencesRequestResponse)
      → get_node_references ua lib opts node_ids range w ≡ (ok nodes, w')
      → (lib.read_node_references (map (reference_request ua lib opts) (slice range node_ids)) w
          ≡ (ok nodes, w'))
        × (length nodes ≡ range.second - range.first)
        × AllReferenced opts range.first 0 nodes
  unfolding get_node_references
  get_node_references-checked node_ids range w w' nodes h =
      let (answers, w1, asked, h1) =
        and_then-eq-ok
          (lib.read_node_references (map (reference_request ua lib opts) (slice range node_ids)) w)
          _ nodes w' h in
      let (checked, w2, passed, h2) =
        and_then-eq-ok (lift (check_references ua lib opts range.first 0 answers) w1) _ nodes w'
          h1 in
      let (same, all) =
        check_references-eq-ok range.first 0 answers checked (ap (λ p. p.0) passed) in
      let (size, same') = check_size-eq-ok range checked nodes (ap (λ p. p.0) h2) in
      let q : answers ≡ nodes = same ∙ same' in
      (
        subst
            (λ t.
              lib.read_node_references (map (reference_request ua lib opts) (slice range node_ids))
                w
              ≡ (ok t, w'))
            q
            (subst
              (λ u.
                lib.read_node_references
                  (map (reference_request ua lib opts) (slice range node_ids)) w
                ≡ (ok answers, u))
              (ap (λ p. p.1) passed ∙ ap (λ p. p.1) h2) asked),
        size,
        subst (AllReferenced opts range.first 0) q all,
      )

module _ {W : Type 0} (lib : IOpen62541 W) where
  -- GetNodeAttributes asks the server only if the first node of the range is to be asked for an attribute:
  -- where the first node is of an ignored class that has no attributes, as a method is, it succeeds without
  -- a request, with every attribute of every node of the range unset and the server as it was.
  pub get_node_attributes-first_ignored :
      (ignored : List NodeClass) (node_ids : List ExpandedNodeId) (range : NodeRange)
      (classes : List NodeClassesRequestResponse) (r : NodeAttributesRequestResponse)
      (rs : List NodeAttributesRequestResponse) (w : W)
      → attribute_requests ignored node_ids classes (range.second - range.first) range.first
        ≡ ok (r ∷ rs)
      → r.attrs ≡ []
      → (get_node_attributes lib ignored node_ids range classes w ≡ (ok (r ∷ rs), w))
        × All (λ q. AllUnset q.attrs) (r ∷ rs)
  unfolding get_node_attributes read_attributes
  get_node_attributes-first_ignored ignored node_ids range classes r rs w asked unwanted =
      let (size, unread) =
        attribute_requests-unset ignored node_ids classes (range.second - range.first) range.first
          (r ∷ rs) asked in
      let e : is_empty r.attrs ≡ true = rw unwanted in
      let f : (range.second - range.first == length (r ∷ rs)) ≡ true = (==_iff _ _).1 (sym size) in
      (rw (asked, e, f), unread)
