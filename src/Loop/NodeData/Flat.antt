-- ===== src/Loop/NodeData/Flat.antt =====
-- The flat mode: every exported node hangs under the start node alone.
use open62541_nodeset_export.Prelude.{arith, false, refl, some, true, ◌∷◌, ◌≡◌, ◌≢◌}
use open62541_nodeset_export.Loop.Filters.{delete_all_hierarchical_references}
use open62541_nodeset_export.Loop.NodeData.{
  Context, Entry, choose_parent, create_start_node, export_entry, fill_model, filter_references,
  is_ignored_node, link_start_node, link_to_start_node, node_model,
}
use open62541_nodeset_export.Loop.Parent.First.{get_parent_node_id-head}
use open62541_nodeset_export.Loop.StartNode.{add_custom_reference_to_node_id}
use open62541_nodeset_export.Prelude.Member.{In}
use open62541_nodeset_export.Status.{ok}
use open62541_nodeset_export.Ua.{ReferenceDescription, Ua, ns0_node_id}
use open62541_nodeset_export.Ua.Ids.{id_organizes, types_nodeclasses}

-- In the flat mode a later node that is not dropped and is of no type class is exported with the start
-- node as its parent; its references are a reverse Organizes reference to the start node, then those of
-- the server with every hierarchical one deleted; its id, class and attributes are unchanged.
pub node_model-flat :
    (ua : Ua) (ctx : Context) (e : Entry)
    → ctx.is_enable ≡ true
    → e.index ≢ 0
    → is_ignored_node ua ctx e ≡ false
    → (In e.node_class types_nodeclasses → ⊥)
    → node_model ua ctx e
      ≡ ok (
          some (record {
            exp_node_id = e.exp_node_id;
            parent_node_id = ctx.start_node_id;
            node_class = e.node_class;
            references =
                record {
                  reference_type_id = ns0_node_id id_organizes;
                  is_forward = false;
                  node_id = ctx.start_node_id;
                }
                ∷ delete_all_hierarchical_references ua e.references;
            attributes = e.attrs;
          }))
unfolding node_model export_entry create_start_node filter_references link_to_start_node
    link_start_node choose_parent fill_model add_custom_reference_to_node_id
node_model-flat ua ctx e flat later kept no_type = ground (
  arith,
  get_parent_node_id-head ua e.node_class start_link
      (delete_all_hierarchical_references ua e.references) no_type refl,
)
  where
    start_link : ReferenceDescription
    start_link = record {
      reference_type_id = ns0_node_id id_organizes;
      is_forward = false;
      node_id = ctx.start_node_id;
    }
