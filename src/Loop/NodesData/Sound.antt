-- ===== src/Loop/NodesData/Sound.antt =====
-- The models that GetNodesData hands on are the exportable nodes of its range, each once and in order.
use open62541_nodeset_export.Prelude.{
  List, Option, [], inl, inr, none, refl, some, subst, suc, sym, zero, ℕ, ◌-◌, ◌∷◌, ◌≡◌, ◌⊎◌,
}
use open62541_nodeset_export.Interfaces.{
  NodeAttributesRequestResponse, NodeClassesRequestResponse, NodeReferencesRequestResponse,
}
use open62541_nodeset_export.Loop.Exporter.{Exporter}
use open62541_nodeset_export.Loop.NodeData.{Entry, node_model}
use open62541_nodeset_export.Loop.NodeData.Parents.{IsExportable, node_model-IsExportable}
use open62541_nodeset_export.Loop.NodesData.{
  Vectors, add_model, collect_models, context_of, entry_at,
}
use open62541_nodeset_export.Model.{NodeIntermediateModel}
use open62541_nodeset_export.Status.{>>=-eq-ok, at_index, ok, ok-injective}
use open62541_nodeset_export.Ua.{ExpandedNodeId, Ua, UaLaws}

-- The entry holds what the four vectors give for one index: the id and the class at that index of the
-- whole list, the attributes and references at its place in the range that starts at `first`.
pub record IsEntryOf (v : Vectors) (first index : ℕ) (e : Entry) : Type 0 where
  pub same_index : e.index ≡ index
  pub same_id : at_index v.node_ids index ≡ ok e.exp_node_id
  pub same_class :
      (c : NodeClassesRequestResponse) × (at_index v.classes index ≡ ok c)
      × (e.node_class ≡ c.node_class)
  pub same_attrs :
      (a : NodeAttributesRequestResponse) × (at_index v.attrs (index - first) ≡ ok a)
      × (e.attrs ≡ a.attrs)
  pub same_references :
      (r : NodeReferencesRequestResponse) × (at_index v.references (index - first) ≡ ok r)
      × (e.references ≡ r.references)

entry_at-IsEntryOf :
    (v : Vectors) (first index : ℕ) (e : Entry)
    → entry_at v first index ≡ ok e
    → IsEntryOf v first index e
unfolding entry_at
entry_at-IsEntryOf v first index e h =
    let (id, id_at, h1) = >>=-eq-ok (at_index v.node_ids index) _ h in
    let (c, class_at, h2) = >>=-eq-ok (at_index v.classes index) _ h1 in
    let (a, attrs_at, h3) = >>=-eq-ok (at_index v.attrs (index - first)) _ h2 in
    let (r, references_at, h4) = >>=-eq-ok (at_index v.references (index - first)) _ h3 in
    subst (IsEntryOf v first index) (ok-injective h4) (record {
      same_index = refl;
      same_id = id_at;
      same_class = (c, class_at, refl);
      same_attrs = (a, attrs_at, refl);
      same_references = (r, references_at, refl);
    })

-- The node at `index` of the range, with the first node of the whole list as the start node.
abbrev pub IsExported :
    {W E : Type 0} → Exporter W E → Vectors → ℕ → ℕ → NodeIntermediateModel → Type 0
IsExported x v first index m =
    (start : ExpandedNodeId) × (e : Entry) × (at_index v.node_ids 0 ≡ ok start)
    × IsEntryOf v first index e
    × IsExportable (context_of x start) e m

-- The models of `count` nodes from `index` on: each node is left out or gives one model.
abbrev pub AreExported :
    {W E : Type 0} → Exporter W E → Vectors → ℕ → ℕ → ℕ → List NodeIntermediateModel → Type 0
AreExported x v first zero index ms = ms ≡ []
AreExported x v first (suc count) index ms =
    AreExported x v first count (suc index) ms
    ⊎ ((m : NodeIntermediateModel) × (rest : List NodeIntermediateModel) × (ms ≡ m ∷ rest)
        × IsExported x v first index m
        × AreExported x v first count (suc index) rest)

module _ {ua : Ua} (laws : UaLaws ua) {W E : Type 0} (x : Exporter W E) (v : Vectors)
    (first : ℕ) where
  add_model-AreExported :
      (start : ExpandedNodeId) (count index : ℕ) (e : Entry) (m : Option NodeIntermediateModel)
      (rest : List NodeIntermediateModel)
      → at_index v.node_ids 0 ≡ ok start
      → entry_at v first index ≡ ok e
      → node_model ua (context_of x start) e ≡ ok m
      → AreExported x v first count (suc index) rest
      → AreExported x v first (suc count) index (add_model m rest)
  add_model-AreExported start count index e none rest at_start entered h all = inl all
  add_model-AreExported start count index e (some m) rest at_start entered h all = inr (
    m,
    rest,
    refl,
    (
      start,
      e,
      at_start,
      entry_at-IsEntryOf v first index e entered,
      node_model-IsExportable laws (context_of x start) e m h,
    ),
    all,
  )

  -- The loop of GetNodesData collects models in the order of its nodes, at most one for each. The model of
  -- a node is made of the id and the class at the index of that node and of the attributes and references
  -- at its place in the range, and meets IsExportable for them: id and class of the node, a class that is
  -- not ignored, no standard node, and a parent by a reverse reference.
  pub collect_models-IsExported :
      (count index : ℕ) (models : List NodeIntermediateModel)
      → collect_models ua x v first count index ≡ ok models
      → AreExported x v first count index models
  unfolding collect_models
  collect_models-IsExported zero index models h = sym (ok-injective h)
  collect_models-IsExported (suc count) index models h =
      let (start, at_start, h1) = >>=-eq-ok (at_index v.node_ids 0) _ h in
      let (e, entered, h2) = >>=-eq-ok (entry_at v first index) _ h1 in
      let (m, made, h3) = >>=-eq-ok (node_model ua (context_of x start) e) _ h2 in
      let (rest, more, done) = >>=-eq-ok (collect_models ua x v first count (suc index)) _ h3 in
      subst (AreExported x v first (suc count) index) (ok-injective done) (
        add_model-AreExported start count index e m rest at_start entered made
          (collect_models-IsExported count (suc index) rest more))
