-- ===== src/Loop/StartExport/Ignored.antt =====
-- The two loops of StartExport over the classes.
use open62541_nodeset_export.Prelude.{
  Bool-cases, List, [], if◌then◌else◌, inl, inr, refl, subst, sym, true, ◌↔◌, ◌∷◌, ◌≡◌, ◌⊎◌,
}
use open62541_nodeset_export.Interfaces.{IEncoder, IOpen62541, NodeClassesRequestResponse}
use open62541_nodeset_export.Loop.StartExport.{ignore_nodes, ignore_nodes_checked}
use open62541_nodeset_export.Prelude.Member.{In}
use open62541_nodeset_export.Status.{Status, fails, of_status, ok}
use open62541_nodeset_export.Ua.{
  ExpandedNodeId, NodeClass, Ua, UaLaws, contains_class, contains_expanded, insert_expanded,
}
use open62541_nodeset_export.Ua.Sets.{
  In→contains_class, contains_class→In, contains_expanded→In, insert_unseen,
}
use open62541_nodeset_export.XmlEncoder.{failed}

abbrev pub AnyBad : Ua → List NodeClassesRequestResponse → Type 0
AnyBad ua [] = ⊥
AnyBad ua (c ∷ cs) = (ua.is_bad c.result_code ≡ true) ⊎ AnyBad ua cs

-- The node has an answer of an ignored class, whatever the result code of the answer is.
abbrev pub HasIgnored : List NodeClass → List NodeClassesRequestResponse → ExpandedNodeId → Type 0
HasIgnored ignored [] id = ⊥
HasIgnored ignored (c ∷ cs) id =
    (In c.node_class ignored × (c.exp_node_id ≡ id)) ⊎ HasIgnored ignored cs id

-- The set after the answer for one node.
abbrev with_answer :
    Ua → List NodeClass → NodeClassesRequestResponse → List ExpandedNodeId → List ExpandedNodeId
with_answer ua ignored c ids =
    if contains_class ignored c.node_class then insert_expanded ua c.exp_node_id ids else ids

module _ (ua : Ua) {W E : Type 0} (lib : IOpen62541 W) (enc : IEncoder E)
    (ignored : List NodeClass) where
  pub ignore_nodes_checked-outcomes :
      (cs : List NodeClassesRequestResponse) (ids : List ExpandedNodeId)
      → (AnyBad ua cs
          × ((ignore_nodes_checked ua lib enc ignored cs ids).0 ≡ fails (of_status Status.fail)))
        ⊎ ((AnyBad ua cs → ⊥)
            × (ignore_nodes_checked ua lib enc ignored cs ids
                ≡ (ok tt, ignore_nodes ua lib enc ignored cs ids)))
  unfolding ignore_nodes ignore_nodes_checked
  ignore_nodes_checked-outcomes [] ids = inr ((λ h. h), refl)
  ignore_nodes_checked-outcomes (c ∷ cs) ids = elim (Bool-cases (ua.is_bad c.result_code)) [
    | inl e ↦ inl (inl e, rw e)
    | inr e ↦ elim (ignore_nodes_checked-outcomes cs (with_answer ua ignored c ids)) [
      | inl (bad, failed) ↦ inl (inr bad, rw e failed)
      | inr (fine, done) ↦ inr ((λ h. elim h [ inl b ↦ cc | inr b ↦ fine b ]), rw e done)
    ]
  ]

module _ {ua : Ua} (laws : UaLaws ua) where
  insert_seen :
      (x : ExpandedNodeId) (ids : List ExpandedNodeId)
      → contains_expanded ua ids x ≡ true
      → insert_expanded ua x ids ≡ ids
  unfolding insert_expanded
  insert_seen x ids h = rw h

  In-insert_expanded :
      (x id : ExpandedNodeId) (ids : List ExpandedNodeId)
      → In id (insert_expanded ua x ids) ↔ (In id ids ⊎ (x ≡ id))
  In-insert_expanded x id ids = elim (Bool-cases (contains_expanded ua ids x)) [
    | inl e ↦
        subst (λ t. In id t ↔ (In id ids ⊎ (x ≡ id))) (sym (insert_seen x ids e))
          (
            λ m. inl m,
            λ m. elim m [
              | inl old ↦ old
              | inr same ↦ subst (λ t. In t ids) same (contains_expanded→In laws ids x e)
            ],
          )
    | inr e ↦
        subst (λ t. In id t ↔ (In id ids ⊎ (x ≡ id))) (sym (insert_unseen ua ids x e))
          (
            λ m. elim m [ inl same ↦ inr (sym same) | inr old ↦ inl old ],
            λ m. elim m [ inl old ↦ inr old | inr same ↦ inl (sym same) ],
          )
  ]

  In-with_answer :
      (ignored : List NodeClass) (c : NodeClassesRequestResponse) (ids : List ExpandedNodeId)
      (id : ExpandedNodeId)
      → In id (with_answer ua ignored c ids)
        ↔ (In id ids ⊎ (In c.node_class ignored × (c.exp_node_id ≡ id)))
  In-with_answer ignored c ids id = elim (Bool-cases (contains_class ignored c.node_class)) [
    | inl e ↦
        let class_in = contains_class→In ignored c.node_class e in
        let grown = In-insert_expanded c.exp_node_id id ids in
        subst
          (λ b.
            In id (if b then insert_expanded ua c.exp_node_id ids else ids)
            ↔ (In id ids ⊎ (In c.node_class ignored × (c.exp_node_id ≡ id))))
          (sym e)
          (
            λ m. elim (grown.0 m) [ inl old ↦ inl old | inr same ↦ inr (class_in, same) ],
            λ m. elim m [ inl old ↦ grown.1 (inl old) | inr (_, same) ↦ grown.1 (inr same) ],
          )
    | inr e ↦
        subst
          (λ b.
            In id (if b then insert_expanded ua c.exp_node_id ids else ids)
            ↔ (In id ids ⊎ (In c.node_class ignored × (c.exp_node_id ≡ id))))
          (sym e)
          (
            λ m. inl m,
            λ m. elim m [
              | inl old ↦ old
              | inr (class_in, same) ↦
                  let yes = In→contains_class ignored c.node_class class_in in cc
            ],
          )
  ]

  module _ {W E : Type 0} (lib : IOpen62541 W) (enc : IEncoder E) (ignored : List NodeClass) where
    In-ignore_nodes :
        (cs : List NodeClassesRequestResponse) (ids : List ExpandedNodeId) (id : ExpandedNodeId)
        → In id (ignore_nodes ua lib enc ignored cs ids) ↔ (In id ids ⊎ HasIgnored ignored cs id)
    unfolding ignore_nodes
    In-ignore_nodes [] ids id = (λ m. inl m, λ m. elim m [ inl old ↦ old | inr bad ↦ absurd bad ])
    In-ignore_nodes (c ∷ cs) ids id =
        let rest = In-ignore_nodes cs (with_answer ua ignored c ids) id in
        let one = In-with_answer ignored c ids id in
        (
          λ m. elim (rest.0 m) [
            | inl now ↦ elim (one.0 now) [ inl old ↦ inl old | inr new ↦ inr (inl new) ]
            | inr later ↦ inr (inr later)
          ],
          λ m. elim m [
            | inl old ↦ rest.1 (inl (one.1 (inl old)))
            | inr (inl new) ↦ rest.1 (inl (one.1 (inr new)))
            | inr (inr later) ↦ rest.1 (inr later)
          ],
        )

    -- The loop of the branch with batches adds the id of every node with an answer of an ignored class to
    -- the set, and no other, whatever the result code of the answer is. The loop of the branch with one
    -- request returns Fail when the result code of some answer is bad, and otherwise makes the same set.
    pub ignore_nodes_checked-cases :
        (cs : List NodeClassesRequestResponse) (ids : List ExpandedNodeId)
        → ((id : ExpandedNodeId)
            → In id (ignore_nodes ua lib enc ignored cs ids)
              ↔ (In id ids ⊎ HasIgnored ignored cs id))
          × ((AnyBad ua cs
                × ((ignore_nodes_checked ua lib enc ignored cs ids).0
                    ≡ fails (of_status Status.fail)))
              ⊎ ((AnyBad ua cs → ⊥)
                  × (ignore_nodes_checked ua lib enc ignored cs ids
                      ≡ (ok tt, ignore_nodes ua lib enc ignored cs ids))))
    ignore_nodes_checked-cases cs ids =
        (In-ignore_nodes cs ids, ignore_nodes_checked-outcomes ua lib enc ignored cs ids)
