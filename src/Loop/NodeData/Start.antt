-- ===== src/Loop/NodeData/Start.antt =====
-- The start node of a list, which the source takes from index 0.
use open62541_nodeset_export.Prelude.{List, arith, false, refl, some, ◌∷◌, ◌≡◌}
use open62541_nodeset_export.Loop.NodeData.{
  Context, Entry, choose_parent, create_start_node, export_entry, fill_model, filter_references,
  is_ignored_node, link_start_node, link_to_start_node, node_model,
}
use open62541_nodeset_export.Loop.Parent.First.{get_parent_node_id-head, not_type_class}
use open62541_nodeset_export.Loop.StartNode.{add_abstract_parents}
use open62541_nodeset_export.Loop.StartNode.Links.{
  AvoidsObjects, add_start_node-avoids, replacer_link,
}
use open62541_nodeset_export.Model.{Attributes}
use open62541_nodeset_export.Prelude.Member.{In}
use open62541_nodeset_export.Status.{ok}
use open62541_nodeset_export.Ua.{ReferenceDescription, Ua, UaLaws}
use open62541_nodeset_export.Ua.Ids.{types_nodeclasses}

-- A start node of no type class that is not dropped, none of whose references (after the filters, or
-- after the artificial start node was made) points to the objects folder, is exported under
-- parent_start_node_replacer: the first reference is a reverse Organizes one to it.
pub node_model-start :
    {ua : Ua} (laws : UaLaws ua) (ctx : Context) (e : Entry) (attrs : Attributes)
    (refs : List ReferenceDescription)
    → e.index ≡ 0
    → is_ignored_node ua ctx e ≡ false
    → (In e.node_class types_nodeclasses → ⊥)
    → create_start_node ua ctx e (filter_references ua ctx e) ≡ ok (attrs, refs)
    → AvoidsObjects refs
    → node_model ua ctx e
      ≡ ok (
          some (record {
            exp_node_id = e.exp_node_id;
            parent_node_id = ctx.parent_start_node_replacer;
            node_class = e.node_class;
            references = replacer_link ctx.options ∷ add_abstract_parents ua ctx.options refs;
            attributes = attrs;
          }))
unfolding node_model export_entry link_to_start_node link_start_node choose_parent fill_model
node_model-start {ua} laws ctx e attrs refs first kept no_type created avoids = ground (
  arith,
  add_start_node-avoids laws ctx.options e.node_class refs avoids,
  not_type_class e.node_class no_type,
  get_parent_node_id-head ua e.node_class (replacer_link ctx.options)
      (add_abstract_parents ua ctx.options refs) no_type refl,
)
