-- ===== src/Loop/NodeData/Safe.antt =====
-- The runtime_error and out_of_range branches of the loop body are never taken.
use open62541_nodeset_export.Prelude.{
  Bool-cases, List, Option, [], ap, arith, inl, inr, none, refl, some, true, ◌&&◌, ◌++◌, ◌==◌, ◌∙◌,
  ◌∷◌, ◌≡◌,
}
use open62541_nodeset_export.BrowseOperations.Rounds.{found}
use open62541_nodeset_export.Loop.NodeData.{
  Context, Entry, choose_parent, create_start_node, export_entry, fill_model, filter_references,
  is_ignored_node, link_start_node, link_to_start_node, node_model, subtype_reference,
  use_base_type,
}
use open62541_nodeset_export.Loop.NodeData.Body.{
  HasParentReference, choose_parent-HasParentReference,
}
use open62541_nodeset_export.Loop.Parent.{get_parent_node_id}
use open62541_nodeset_export.Loop.Parent.Base.{get_base_object_type-total}
use open62541_nodeset_export.Loop.StartNode.{StartLinks}
use open62541_nodeset_export.Loop.StartNode.Links.{
  HasNames, create_attributes_for_start_node-total, subtype_detected-type_class,
}
use open62541_nodeset_export.Model.{Attributes, NodeIntermediateModel}
use open62541_nodeset_export.Status.{ok}
use open62541_nodeset_export.Ua.{ExpandedNodeId, ReferenceDescription, Ua, UaLaws, contains_class}
use open62541_nodeset_export.Ua.Ids.{types_nodeclasses}

module _ {ua : Ua} (laws : UaLaws ua) (ctx : Context) (e : Entry) where
  fill_model-total :
      (attrs : Attributes) (parent : Option ExpandedNodeId) (refs : List ReferenceDescription)
      → ((p : ExpandedNodeId) → parent ≡ some p → HasParentReference e.node_class p refs)
      → (r : Option NodeIntermediateModel) × (fill_model ua ctx e attrs parent refs ≡ ok r)
  unfolding fill_model
  fill_model-total attrs none refs h = (none, refl)
  fill_model-total attrs (some p) [] h = absurd ((h p refl).1)
  fill_model-total attrs (some p) (ref ∷ refs) h = (
    some (record {
      exp_node_id = e.exp_node_id;
      parent_node_id = p;
      node_class = e.node_class;
      references = ref ∷ refs;
      attributes = attrs;
    }),
    refl,
  )

  choose_parent-total :
      (links : StartLinks)
      → (links.has_start_node_subtype_detected ≡ true
          → contains_class types_nodeclasses e.node_class ≡ true)
      → (r : Option ExpandedNodeId × List ReferenceDescription) × (choose_parent ua e.node_class
            links
          ≡ ok r)
  unfolding choose_parent
  choose_parent-total links h = elim (Bool-cases (use_base_type links)) [
    | inl b ↦
        let (base, found) = get_base_object_type-total e.node_class (h (ground arith)) in
        ((some base, links.references ++ (subtype_reference base ∷ [])), rw (b, found))
    | inr b ↦ ((get_parent_node_id ua e.node_class links.references, links.references), rw b)
  ]

  link_start_node-type_class :
      (refs : List ReferenceDescription)
      → (link_start_node ua ctx e refs).has_start_node_subtype_detected ≡ true
      → contains_class types_nodeclasses e.node_class ≡ true
  unfolding link_start_node
  link_start_node-type_class refs h = elim (Bool-cases (e.index == 0)) [
    | inl z ↦ subtype_detected-type_class ua ctx.options e.node_class refs (rw z at h)
    | inr z ↦ cc
  ]

  create_start_node-total :
      (refs : List ReferenceDescription)
      → (ctx.create_missing_start_node ≡ true → e.index ≡ 0 → HasNames e.attrs)
      → (r : Attributes × List ReferenceDescription) × (create_start_node ua ctx e refs ≡ ok r)
  unfolding create_start_node
  create_start_node-total refs names =
      elim (Bool-cases (ctx.is_enable && (ctx.create_missing_start_node && (e.index == 0)))) [
        | inl b ↦
            let (r, h) =
              create_attributes_for_start_node-total e.exp_node_id e.attrs
                (names (ground arith) (ground arith)) in
            (r, rw b h)
        | inr b ↦ ((e.attrs, refs), rw b)
      ]

  export_entry-total :
      (ctx.create_missing_start_node ≡ true → e.index ≡ 0 → HasNames e.attrs)
      → (r : Option NodeIntermediateModel) × (export_entry ua ctx e ≡ ok r)
  unfolding export_entry
  export_entry-total names =
      let ((attrs, refs), created) = create_start_node-total (filter_references ua ctx e) names in
      let links = link_start_node ua ctx e (link_to_start_node ua ctx e refs) in
      let ((parent, refs'), chosen) =
        choose_parent-total links (link_start_node-type_class (link_to_start_node ua ctx e refs)) in
      let (r, filled) = fill_model-total attrs parent refs' (λ p is_parent.
        choose_parent-HasParentReference laws e.node_class links p refs'
          (chosen ∙ ap (λ q. ok (q, refs')) is_parent)) in
      (r, rw (created, chosen) filled)

-- The loop body of GetNodesData ends with a model or with nothing, throws no exception and returns no
-- failure, for every entry for which this holds: where a missing start node is to be created and the entry
-- is the start node, its attributes have the three names as keys.
pub node_model-total :
    {ua : Ua} (laws : UaLaws ua) (ctx : Context) (e : Entry)
    → (ctx.create_missing_start_node ≡ true → e.index ≡ 0 → HasNames e.attrs)
    → (r : Option NodeIntermediateModel) × (node_model ua ctx e ≡ ok r)
unfolding node_model
node_model-total {ua} laws ctx e names = elim (Bool-cases (is_ignored_node ua ctx e)) [
  | inl b ↦ (none, rw b)
  | inr b ↦ let (r, h) = export_entry-total laws ctx e names in (r, rw b h)
]
