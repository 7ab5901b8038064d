-- ===== src/Loop/NodeData/Body.antt =====
-- The parts of the loop body, inverted and run.
use open62541_nodeset_export.Prelude.{
  Bool-cases, List, Option, [], arith, inl, inr, none, refl, some, subst, true, ◌∷◌, ◌≡◌,
}
use open62541_nodeset_export.BrowseOperations.Rounds.{found}
use open62541_nodeset_export.Loop.NodeData.{
  Context, Entry, choose_parent, is_ignored_node, node_model, subtype_reference, use_base_type,
}
use open62541_nodeset_export.Loop.Parent.{get_base_object_type, get_parent_node_id}
use open62541_nodeset_export.Loop.Parent.Base.{get_base_object_type-plain}
use open62541_nodeset_export.Loop.Parent.First.{IsParentReference, get_parent_node_id-first}
use open62541_nodeset_export.Loop.StartNode.{StartLinks}
use open62541_nodeset_export.Prelude.Member.{In, In-append_right}
use open62541_nodeset_export.Status.{>>=-eq-ok, Outcome, ok}
use open62541_nodeset_export.Ua.{
  ExpandedNodeId, NodeClass, ReferenceDescription, Ua, UaLaws, contains_class,
}

-- The parent of a model is the target of one of its references, as the schema wants it.
abbrev pub HasParentReference : NodeClass → ExpandedNodeId → List ReferenceDescription → Type 0
HasParentReference node_class parent refs =
    (ref : ReferenceDescription) × In ref refs
    × IsParentReference node_class ref
    × (parent ≡ ref.node_id)

module _ {ua : Ua} (laws : UaLaws ua) where
  pub get_parent_node_id-HasParentReference :
      (c : NodeClass) (refs : List ReferenceDescription) (parent : ExpandedNodeId)
      → get_parent_node_id ua c refs ≡ some parent
      → HasParentReference c parent refs
  get_parent_node_id-HasParentReference c refs parent h =
      elim (get_parent_node_id-first laws c refs) [
        | inl (before, ref, after, split, none_before, is_parent, same) ↦
            (ref, rw split (In-append_right ref before (ref ∷ after) (inl refl)), is_parent, cc)
        | inr (_, same) ↦ cc
      ]

  module _ (node_class : NodeClass) where
    pub choose_parent-HasParentReference :
        (links : StartLinks) (parent : ExpandedNodeId) (refs : List ReferenceDescription)
        → choose_parent ua node_class links ≡ ok (some parent, refs)
        → HasParentReference node_class parent refs
    unfolding choose_parent
    choose_parent-HasParentReference links parent refs h = elim (Bool-cases (use_base_type links)) [
      | inl e ↦
          let (base, found, same) = >>=-eq-ok (get_base_object_type node_class) _ (rw e at h) in
          (
            subtype_reference base,
            subst (In (subtype_reference base)) (cc)
                (In-append_right _ links.references (subtype_reference base ∷ []) (inl refl)),
            (refl, λ _. refl),
            cc (get_base_object_type-plain node_class base found),
          )
      | inr e ↦
          let k : ◌≡◌ {A = Outcome (Option ExpandedNodeId × List ReferenceDescription)}
              (ok (get_parent_node_id ua node_class links.references, links.references))
              (ok (some parent, refs)) =
            rw e at h in
          subst (HasParentReference node_class parent) (cc)
            (get_parent_node_id-HasParentReference node_class links.references parent (cc))
    ]

-- A node of an ignored class is dropped.
pub node_model-ignored_class :
    (ua : Ua) (ctx : Context) (e : Entry)
    → contains_class ctx.ignored_nodeclasses e.node_class ≡ true
    → node_model ua ctx e ≡ ok none
unfolding node_model is_ignored_node
node_model-ignored_class ua ctx e h = ground arith
