-- ===== src/Loop/NodeData/Parents.antt =====
-- What GetNodesData exports of a node: its identity, its class and its parent.
use open62541_nodeset_export.Prelude.{
  Bool-cases, List, Option, [], ap, arith, false, inl, inr, none, some, subst, sym, true, ◌∙◌, ◌∷◌,
  ◌≡◌, ◌≢◌,
}
use open62541_nodeset_export.Loop.NodeData.{
  Context, Entry, choose_parent, create_start_node, export_entry, fill_model, filter_references,
  is_ignored_node, link_start_node, link_to_start_node, node_model,
}
use open62541_nodeset_export.Loop.NodeData.Body.{
  HasParentReference, choose_parent-HasParentReference,
}
use open62541_nodeset_export.Loop.StartNode.{StartLinks}
use open62541_nodeset_export.Model.{Attributes, NodeIntermediateModel}
use open62541_nodeset_export.Prelude.Member.{In}
use open62541_nodeset_export.Status.{>>=-eq-ok, ok}
use open62541_nodeset_export.Ua.{
  ExpandedNodeId, ReferenceDescription, Ua, UaLaws, contains_class, contains_expanded,
}
use open62541_nodeset_export.Ua.Ids.{ns0_standard_node_ids}
use open62541_nodeset_export.Ua.Sets.{In→contains_class, In→contains_expanded}

fill_model-eq-some :
    (ua : Ua) (ctx : Context) (e : Entry) (attrs : Attributes) (parent : Option ExpandedNodeId)
    (refs : List ReferenceDescription) (m : NodeIntermediateModel)
    → fill_model ua ctx e attrs parent refs ≡ ok (some m)
    → (parent ≡ some m.parent_node_id)
      × (m.references ≡ refs)
      × (m.exp_node_id ≡ e.exp_node_id)
      × (m.node_class ≡ e.node_class)
unfolding fill_model
fill_model-eq-some ua ctx e attrs none refs m h = cc
fill_model-eq-some ua ctx e attrs (some p) [] m h = cc
fill_model-eq-some ua ctx e attrs (some p) (r ∷ rs) m h = ground arith

-- What is promised of the model of a node.
pub record IsExportable (ctx : Context) (e : Entry) (m : NodeIntermediateModel) : Type 0 where
  pub same_id : m.exp_node_id ≡ e.exp_node_id
  pub same_class : m.node_class ≡ e.node_class
  pub class_exported : In m.node_class ctx.ignored_nodeclasses → ⊥
  pub outside_standard :
      (ctx.ns0_custom_nodes_ready_to_work ≡ false → m.exp_node_id.node_id.namespace_index ≢ 0)
      × (ctx.ns0_custom_nodes_ready_to_work ≡ true → In m.exp_node_id ns0_standard_node_ids → ⊥)
  pub has_parent : HasParentReference m.node_class m.parent_node_id m.references

module _ {ua : Ua} (laws : UaLaws ua) (ctx : Context) (e : Entry) (m : NodeIntermediateModel) where
  -- What is promised of the parts that do not come from the filters.
  abbrev Parts : Type 0
  Parts =
      (m.exp_node_id ≡ e.exp_node_id)
      × (m.node_class ≡ e.node_class)
      × HasParentReference e.node_class m.parent_node_id m.references

  filled-Parts :
      (links : StartLinks) (attrs : Attributes) (parent : Option ExpandedNodeId)
      (refs : List ReferenceDescription)
      → choose_parent ua e.node_class links ≡ ok (parent, refs)
      → fill_model ua ctx e attrs parent refs ≡ ok (some m)
      → Parts
  filled-Parts links attrs parent refs chosen filled =
      let (is_parent, same_refs, same_id, same_class) =
        fill_model-eq-some ua ctx e attrs parent refs m filled in
      (
        same_id,
        same_class,
        subst (HasParentReference e.node_class m.parent_node_id) (sym same_refs) (
            choose_parent-HasParentReference laws e.node_class links m.parent_node_id refs
              (rw is_parent at chosen)),
      )

  export_entry-Parts : export_entry ua ctx e ≡ ok (some m) → Parts
  unfolding export_entry
  export_entry-Parts h =
      let ((attrs, refs), created, rest) =
        >>=-eq-ok (create_start_node ua ctx e (filter_references ua ctx e)) _ h in
      let links = link_start_node ua ctx e (link_to_start_node ua ctx e refs) in
      let ((parent, refs'), chosen, filled) =
        >>=-eq-ok (choose_parent ua e.node_class links) _ rest in
      filled-Parts links attrs parent refs' chosen filled

  kept_cases :
      is_ignored_node ua ctx e ≡ false
      → (contains_class ctx.ignored_nodeclasses e.node_class ≡ false)
        × (ctx.ns0_custom_nodes_ready_to_work ≡ false → e.exp_node_id.node_id.namespace_index ≢ 0)
        × (ctx.ns0_custom_nodes_ready_to_work ≡ true
            → contains_expanded ua ns0_standard_node_ids e.exp_node_id ≡ false)
  unfolding is_ignored_node
  kept_cases h = (ground arith, λ flag. ground arith, λ flag. ground arith)

  -- A model that GetNodesData makes of a node carries the node's id and class; its class is not among
  -- the ignored ones; with ns0_custom_nodes_ready_to_work off the node is not of namespace 0, and with
  -- it on the node is none of the standard ones; and its parent is the target of one of its own
  -- references, a reverse one, which for a type class has the type HasSubtype.
  pub node_model-IsExportable : node_model ua ctx e ≡ ok (some m) → IsExportable ctx e m
  unfolding node_model
  node_model-IsExportable h = elim (Bool-cases (is_ignored_node ua ctx e)) [
    | inl dropped ↦ cc
    | inr kept ↦
        let (same_id, same_class, has_parent) = export_entry-Parts (rw kept at h) in
        let (class_kept, plain, custom) = kept_cases kept in
        record {
          same_id = same_id;
          same_class = same_class;
          class_exported = λ t. cc (
              In→contains_class ctx.ignored_nodeclasses e.node_class
                (subst (λ c. In c ctx.ignored_nodeclasses) same_class t));
          outside_standard = (
            (λ flag zero_ns.
                plain flag (ap (λ n. n.node_id.namespace_index) (sym same_id) ∙ zero_ns)),
            (λ flag t. cc (
              custom flag,
              In→contains_expanded laws ns0_standard_node_ids e.exp_node_id
                  (subst (λ n. In n ns0_standard_node_ids) same_id t),
            )),
          );
          has_parent =
              subst (λ c. HasParentReference c m.parent_node_id m.references) (sym same_class)
                has_parent;
        }
  ]
