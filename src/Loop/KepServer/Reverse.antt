-- ===== src/Loop/KepServer/Reverse.antt =====
-- Which nodes KepServerRefFix can mend, and what it makes of their references.
use open62541_nodeset_export.Prelude.{
  ==_iff, Bool, Bool-cases, List, Text, [], ap, arith, codes, false, inl, inr, none, not, refl,
  some, subst, sym, true, ◌&&◌, ◌++◌, ◌==◌, ◌||◌, ◌∙◌, ◌∷◌, ◌≡◌, ◌≢◌, ◌⊎◌,
}
use open62541_nodeset_export.Interfaces.{NodeReferencesRequestResponse}
use open62541_nodeset_export.Loop.KepServer.{
  before_last_dot, fix_node, has_abstract_type, has_reverse, is_string, kep_server_ref_fix,
  new_reverse_reference, parent_text, replace_abstract_type, scan_references,
}
use open62541_nodeset_export.Loop.KepServer.Types.{made_concrete}
use open62541_nodeset_export.Prelude.Member.{In}
use open62541_nodeset_export.Status.{Status, fails, of_status, ok}
use open62541_nodeset_export.Strings.{c_string}
use open62541_nodeset_export.Ua.{
  ExpandedNodeId, ReferenceDescription, Ua, expanded_to_string, numeric,
}
use open62541_nodeset_export.XmlEncoder.{failed}

has_reverse-append :
    (xs ys : List ReferenceDescription)
    → has_reverse (xs ++ ys) ≡ (has_reverse xs || has_reverse ys)
has_reverse-append [] ys = refl
has_reverse-append (x ∷ xs) ys = ground (arith, has_reverse-append xs ys)

module _ (ua : Ua) where
  replace-is_forward :
      (ref : ReferenceDescription) → (replace_abstract_type ua ref).is_forward ≡ ref.is_forward
  unfolding replace_abstract_type
  replace-is_forward ref = ground arith

  scan-flag :
      (refs : List ReferenceDescription) (t i : Bool)
      → (scan_references ua refs t i).1 ≡ (i || has_reverse refs)
  unfolding scan_references
  scan-flag [] t i = ground arith
  scan-flag (ref ∷ refs) t i =
      ground (arith, scan-flag refs (t || has_abstract_type ua ref) (i || not ref.is_forward))

  scan-has_reverse :
      (refs : List ReferenceDescription) (t i : Bool)
      → has_reverse (scan_references ua refs t i).0 ≡ has_reverse refs
  unfolding scan_references
  scan-has_reverse [] t i = refl
  scan-has_reverse (ref ∷ refs) t i = ground (
    arith,
    replace-is_forward ref,
    scan-has_reverse refs (t || has_abstract_type ua ref) (i || not ref.is_forward),
  )

  -- The text before the last dot, or that of the objects folder where there is no dot.
  abbrev pub IsParentText : Text → Text → Type 0
  IsParentText child parent =
      ((rest : Text) × (child ≡ parent ++ (b'.' ∷ rest)) × (In b'.' rest → ⊥))
      ⊎ ((In b'.' child → ⊥) × (parent ≡ codes "i=85"))

  before_last_dot-cases :
      (child : Text)
      → ((parent : Text) × (before_last_dot child ≡ some parent)
          × ((rest : Text) × (child ≡ parent ++ (b'.' ∷ rest)) × (In b'.' rest → ⊥)))
        ⊎ ((In b'.' child → ⊥) × (before_last_dot child ≡ none))
  unfolding before_last_dot
  before_last_dot-cases [] = inr ((λ h. h), refl)
  before_last_dot-cases (c ∷ cs) = elim (before_last_dot-cases cs) [
    | inl (parent, before, (rest, split, no_dot)) ↦
        inl (c ∷ parent, rw before, (rest, ap (λ t. c ∷ t) split, no_dot))
    | inr (no_dot, before) ↦ elim (Bool-cases (c == b'.')) [
      | inl e ↦ inl ([], rw (before, e), (cs, ap (λ t. t ∷ cs) ((==_iff c b'.').0 e), no_dot))
      | inr e ↦ inr (
        (λ h. elim h [
          | inl same ↦ let yes = (==_iff c b'.').1 (sym same) in cc
          | inr later ↦ no_dot later
        ]),
        rw (before, e),
      )
    ]
  ]

  parent_text-some :
      (child parent : Text) → before_last_dot child ≡ some parent → parent_text child ≡ parent
  unfolding parent_text
  parent_text-some child parent before = rw (parent_text, before)

  parent_text-IsParentText : (child : Text) → IsParentText child (parent_text child)
  unfolding parent_text
  parent_text-IsParentText child = elim (before_last_dot-cases child) [
    | inl (parent, before, split) ↦
        subst (IsParentText child) (sym (parent_text-some child parent before)) (inl split)
    | inr (no_dot, before) ↦ inr (no_dot, rw (parent_text, before))
  ]

  -- The same references in the same order, but for abstract types that may have been replaced.
  abbrev pub AllKept : List ReferenceDescription → List ReferenceDescription → Type 0
  AllKept [] [] = Unit
  AllKept (ref ∷ refs) (ref' ∷ refs') =
      ((ref' ≡ ref) ⊎ (ref' ≡ made_concrete ua ref)) × AllKept refs refs'
  AllKept _ _ = ⊥

  AllKept-refl : (refs : List ReferenceDescription) → AllKept refs refs
  AllKept-refl [] = tt
  AllKept-refl (ref ∷ refs) = (inl refl, AllKept-refl refs)

  scan-AllKept :
      (refs : List ReferenceDescription) (t i : Bool) → AllKept refs (scan_references ua refs t i).0
  unfolding scan_references replace_abstract_type
  scan-AllKept [] t i = tt
  scan-AllKept (ref ∷ refs) t i =
      let t' = t || has_abstract_type ua ref in
      let i' = i || not ref.is_forward in
      elim (Bool-cases (t' && i')) [
        | inl e ↦ rw e (inr refl, AllKept-refl refs)
        | inr e ↦ rw e (inr refl, scan-AllKept refs t' i')
      ]

  -- A node that cannot be mended: it has references, none of them reverse, and no string id.
  abbrev pub IsHopeless : NodeReferencesRequestResponse → Type 0
  IsHopeless node =
      (node.references ≢ [])
      × (has_reverse node.references ≡ false)
      × (is_string node.exp_node_id.node_id.identifier ≡ false)

  -- The kept references, and behind them one HasComponent reference back to the parent that the string id
  -- of the node names.
  abbrev pub IsGivenParent :
      ExpandedNodeId → List ReferenceDescription → List ReferenceDescription → Type 0
  IsGivenParent id refs refs' =
      (is_string id.node_id.identifier ≡ true)
      × ((kept : List ReferenceDescription) × (parent : Text) × AllKept refs kept
          × IsParentText (expanded_to_string ua id) parent
          × (refs'
              ≡ kept
                ++ (record {
                  reference_type_id = record { namespace_index = 0; identifier = numeric 47 };
                  is_forward = false;
                  node_id = ua.parse_expanded (c_string parent);
                }
                    ∷ [])))

  -- The node keeps its id and an empty list stays empty. Any other list has a reverse reference: it is kept
  -- where it had one, and is given a parent where it had none.
  abbrev pub IsMended : NodeReferencesRequestResponse → NodeReferencesRequestResponse → Type 0
  IsMended node node' =
      (node'.exp_node_id ≡ node.exp_node_id)
      × (node.references ≡ [] → node'.references ≡ [])
      × (node.references ≢ [] → has_reverse node'.references ≡ true)
      × (has_reverse node.references ≡ true → AllKept node.references node'.references)
      × (node.references ≢ []
          → has_reverse node.references ≡ false
          → IsGivenParent node.exp_node_id node.references node'.references)

  abbrev Fixes : NodeReferencesRequestResponse → Type 0
  Fixes node =
      ((node' : NodeReferencesRequestResponse) × (fix_node ua node ≡ ok node')
        × IsMended node node'
        × (IsHopeless node → ⊥))
      ⊎ (IsHopeless node × (fix_node ua node ≡ fails (of_status Status.fail)))

  fix_node-cases : (node : NodeReferencesRequestResponse) → Fixes node
  unfolding fix_node new_reverse_reference
  fix_node-cases node = go node.references refl
    where
      go : (refs : List ReferenceDescription) → node.references ≡ refs → Fixes node
      go [] e = inl (
        node,
        ground arith,
        (refl, λ h. h, λ h. absurd (h e), λ h. AllKept-refl node.references, λ h. absurd (h e)),
        λ h. h.0 e,
      )
      go (ref ∷ refs) e =
          let scanned = scan_references ua (ref ∷ refs) false false in
          let reverse = has_reverse (ref ∷ refs) in
          let own = ap has_reverse e in
          let flag = scan-flag (ref ∷ refs) false false in
          let still = scan-has_reverse (ref ∷ refs) false false in
          let kept : AllKept node.references scanned.0 =
            subst (λ t. AllKept t scanned.0) (sym e) (scan-AllKept (ref ∷ refs) false false) in
          elim (Bool-cases reverse) [
            | inl s ↦
                let set = flag ∙ s in
                inl (
                  record node { references = scanned.0 },
                  rw (e, set),
                  (refl, λ h. cc, λ h. still ∙ s, λ h. kept, λ h none_back. cc),
                  λ h. cc,
                )
            | inr s ↦
                let clear = flag ∙ s in
                elim (Bool-cases (is_string node.exp_node_id.node_id.identifier)) [
                  | inl t ↦
                      let back = new_reverse_reference ua node.exp_node_id in
                      let text = expanded_to_string ua node.exp_node_id in
                      inl (
                        record node { references = scanned.0 ++ (back ∷ []) },
                        rw (e, clear, t),
                        (
                          refl,
                          λ h. cc,
                          λ h. has_reverse-append scanned.0 (back ∷ []) ∙ ground arith,
                          λ h. cc,
                          λ h none_back. (
                            t,
                            (
                              scanned.0,
                              parent_text text,
                              kept,
                              parent_text-IsParentText text,
                              refl,
                            ),
                          ),
                        ),
                        λ h. cc,
                      )
                  | inr t ↦ inr ((λ h. cc, own ∙ s, t), rw (e, clear, t))
                ]
          ]

  -- The two lists agree node by node.
  abbrev pub AllMended :
      List NodeReferencesRequestResponse → List NodeReferencesRequestResponse → Type 0
  AllMended [] [] = Unit
  AllMended (node ∷ nodes) (node' ∷ nodes') = IsMended node node' × AllMended nodes nodes'
  AllMended _ _ = ⊥

  abbrev pub AnyHopeless : List NodeReferencesRequestResponse → Type 0
  AnyHopeless [] = ⊥
  AnyHopeless (node ∷ nodes) = IsHopeless node ⊎ AnyHopeless nodes

-- KepServerRefFix succeeds exactly where every node with references and no reverse one among them has a
-- string id, and otherwise returns Fail. On success the nodes keep their ids and their order and an empty
-- list of references stays empty. The references of the others stay, in order, but for abstract types that
-- may have been replaced; where none of them is reverse, one HasComponent reference is added behind them,
-- back to the parent that the id of the node names up to the last dot, or to the objects folder where there
-- is no dot.
pub kep_server_ref_fix-cases :
    (ua : Ua) (nodes : List NodeReferencesRequestResponse)
    → ((nodes' : List NodeReferencesRequestResponse) × (kep_server_ref_fix ua nodes ≡ ok nodes')
        × AllMended ua nodes nodes'
        × (AnyHopeless ua nodes → ⊥))
      ⊎ (AnyHopeless ua nodes × (kep_server_ref_fix ua nodes ≡ fails (of_status Status.fail)))
unfolding kep_server_ref_fix
kep_server_ref_fix-cases ua [] = inl ([], refl, tt, λ h. h)
kep_server_ref_fix-cases ua (node ∷ nodes) = elim (fix_node-cases ua node) [
  | inl (node', fixed, mended, fine) ↦ elim (kep_server_ref_fix-cases ua nodes) [
    | inl (nodes', all_fixed, all_mended, all_fine) ↦ inl (
      node' ∷ nodes',
      rw (fixed, all_fixed),
      (mended, all_mended),
      λ h. elim h [ inl bad ↦ fine bad | inr bad ↦ all_fine bad ],
    )
    | inr (bad, failed) ↦ inr (inr bad, rw (fixed, failed))
  ]
  | inr (bad, failed) ↦ inr (inl bad, rw failed)
]
