-- ===== src/Loop/StartExport/Content.antt =====
-- What the lists of start nodes give to the file: the models that StartExport makes of the server's answers.
use open62541_nodeset_export.Prelude.{
  All, All-append, List, [], inl, inr, length, subst, suc, sym, zero, ℕ, ◌++◌, ◌-◌, ◌∷◌, ◌≡◌, ◌≤◌,
}
use open62541_nodeset_export.Interfaces.{
  IOpen62541, NodeAttributesRequestResponse, NodeClassesRequestResponse,
  NodeReferencesRequestResponse,
}
use open62541_nodeset_export.Loop.Distinct.{distinct}
use open62541_nodeset_export.Loop.Exporter.{Exporter, NodeLists}
use open62541_nodeset_export.Loop.KepServer.{kep_server_ref_fix}
use open62541_nodeset_export.Loop.NodesData.{Vectors, collect_models}
use open62541_nodeset_export.Loop.NodesData.Sound.{AreExported, collect_models-IsExported}
use open62541_nodeset_export.Loop.Options.{Options}
use open62541_nodeset_export.Loop.Requests.{
  get_node_attributes, get_node_classes, get_node_references,
}
use open62541_nodeset_export.Loop.StartExport.Written.{IsWritable}
use open62541_nodeset_export.Model.{NodeIntermediateModel}
use open62541_nodeset_export.Status.{ok}
use open62541_nodeset_export.Ua.{ExpandedNodeId, NodeClass, Ua, UaLaws}

-- Consecutive ranges from `index` up to `size`, each with its part of the list.
pub data InRanges {A : Type 0} (P : ℕ → ℕ → List A → Type 0) (size : ℕ) : ℕ → List A → Type 0 where
  all_done : {index : ℕ} → size ≤ index → InRanges P size index []
  one_range :
      {index : ℕ} (next : ℕ) (part rest : List A)
      → index ≤ next
      → next ≤ size
      → P index next part
      → InRanges P size next rest
      → InRanges P size index (part ++ rest)

module _ (ua : Ua) {W : Type 0} (lib : IOpen62541 W) (E : Type 0) (opts : Options)
    (ignored : List NodeClass) where
  -- The server's answer to the query for the classes of a range.
  abbrev pub GivesClasses : List ExpandedNodeId → ℕ → ℕ → List NodeClassesRequestResponse → Type 0
  GivesClasses node_ids first next classes =
      (asked answered : W) × (get_node_classes ua lib opts node_ids
          (record { first = first; second = next }) asked
        ≡ (ok classes, answered))

  -- The models of a range, made of the classes and of the server's answers to the queries for the
  -- attributes and the references.
  pub record GivesModels (node_ids seen : List ExpandedNodeId)
      (classes : List NodeClassesRequestResponse) (first next : ℕ)
      (models : List NodeIntermediateModel) : Type 0 where
    pub at : Exporter W E
    pub attrs : List NodeAttributesRequestResponse
    pub answers : List NodeReferencesRequestResponse
    pub references : List NodeReferencesRequestResponse
    pub between : W
    pub after : W
    pub same_options : at.options ≡ opts
    pub same_ignored : at.ignored_nodeclasses ≡ ignored
    pub same_seen : at.node_ids_set_copy ≡ seen
    pub attrs_read :
        get_node_attributes lib at.ignored_nodeclasses node_ids
          (record { first = first; second = next })
          classes
          at.server
        ≡ (ok attrs, between)
    pub references_read :
        get_node_references ua lib at.options node_ids
          (record { first = first; second = next })
          between
        ≡ (ok answers, after)
    pub mended : kep_server_ref_fix ua answers ≡ ok references
    pub collected :
        collect_models ua at
          (record {
            node_ids = node_ids;
            classes = classes;
            attrs = attrs;
            references = references;
          })
          first
          (next - first)
          first
        ≡ ok models

  -- The models of one list: duplicates are taken out, and ranges that cover what is left give the classes
  -- and then the models.
  abbrev pub OfList : List ExpandedNodeId → List NodeIntermediateModel → Type 0
  OfList node_ids models =
      (kept seen : List ExpandedNodeId) × (classes : List NodeClassesRequestResponse) × (distinct ua
          node_ids
        ≡ ok (kept, seen))
      × InRanges (GivesClasses kept) (length kept) 0 classes
      × InRanges (GivesModels kept seen classes) (length kept) 0 models

  -- The models of all lists, in order.
  abbrev pub OfLists : NodeLists → List NodeIntermediateModel → Type 0
  OfLists [] models = models ≡ []
  OfLists ((name, node_ids) ∷ lists) models =
      (own rest : List NodeIntermediateModel) × (models ≡ own ++ rest)
      × OfList node_ids own
      × OfLists lists rest

module _ {ua : Ua} (laws : UaLaws ua) {W : Type 0} (lib : IOpen62541 W) (E : Type 0)
    (opts : Options) (ignored : List NodeClass) where
  abbrev AllWritable : List NodeIntermediateModel → Type 0
  AllWritable = All (IsWritable opts ignored)

  AreExported-AllWritable :
      (x : Exporter W E) (v : Vectors) (first count index : ℕ) (models : List NodeIntermediateModel)
      → AreExported x v first count index models
      → All (IsWritable x.options x.ignored_nodeclasses) models
  AreExported-AllWritable x v first zero index models h =
      subst (All (IsWritable x.options x.ignored_nodeclasses)) (sym h) tt
  AreExported-AllWritable x v first (suc count) index models h = elim h [
    | inl all ↦ AreExported-AllWritable x v first count (suc index) models all
    | inr (m, rest, same, (start, e, at_start, entered, exportable), all) ↦
        subst (All (IsWritable x.options x.ignored_nodeclasses)) (sym same) (
          record {
            class_exported = exportable.class_exported;
            outside_standard = exportable.outside_standard;
            has_parent = exportable.has_parent;
          },
          AreExported-AllWritable x v first count (suc index) rest all,
        )
  ]

  GivesModels-AllWritable :
      (node_ids seen : List ExpandedNodeId) (classes : List NodeClassesRequestResponse)
      (first next : ℕ) (models : List NodeIntermediateModel)
      → GivesModels ua lib E opts ignored node_ids seen classes first next models
      → AllWritable models
  GivesModels-AllWritable node_ids seen classes first next models g =
      subst (λ i. All (IsWritable opts i) models) g.same_ignored
        (subst (λ o. All (IsWritable o g.at.ignored_nodeclasses) models) g.same_options
          (AreExported-AllWritable g.at _ first (next - first) first models
            (collect_models-IsExported laws g.at _ first (next - first) first models g.collected)))

  InRanges-AllWritable :
      (P : ℕ → ℕ → List NodeIntermediateModel → Type 0) (size index : ℕ)
      (models : List NodeIntermediateModel)
      → ((first next : ℕ) (part : List NodeIntermediateModel)
          → P first next part
          → AllWritable part)
      → InRanges P size index models
      → AllWritable models
  InRanges-AllWritable P size index _ h (all_done le) = tt
  InRanges-AllWritable P size index _ h (one_range next part rest le inside p more) =
      All-append (IsWritable opts ignored) part rest (h index next part p)
        (InRanges-AllWritable P size next rest h more)

  pub OfLists-AllWritable :
      (lists : NodeLists) (models : List NodeIntermediateModel)
      → OfLists ua lib E opts ignored lists models
      → AllWritable models
  OfLists-AllWritable [] models h = subst AllWritable (sym h) tt
  OfLists-AllWritable ((name, node_ids) ∷ lists) models (own, rest, same, mine, later) =
      let (kept, seen, classes, kept_ids, given, made) = mine in
      subst AllWritable (sym same) (
        All-append (IsWritable opts ignored) own rest
          (InRanges-AllWritable _ (length kept) 0 own (GivesModels-AllWritable kept seen classes)
            made)
          (OfLists-AllWritable lists rest later))
