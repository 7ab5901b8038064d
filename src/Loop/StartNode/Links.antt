-- ===== src/Loop/StartNode/Links.antt =====
-- The start node's attributes can be written, and its links say when it is of a type class.
use open62541_nodeset_export.Prelude.{
  All, Bool-cases, List, Option, [], ap, arith, codes, false, if◌then◌else◌, inl, inr, some, true,
  ℕ, ◌+◌, ◌==◌, ◌∷◌, ◌≡◌, ◌≢◌,
}
use open62541_nodeset_export.Loop.Options.{Options}
use open62541_nodeset_export.Loop.StartNode.{
  add_abstract_parents, add_custom_reference_to_node_id, add_start_node_if_not_found,
  count_until_i85, create_attributes_for_start_node, emplace_at, folder_type_reference, plain_text,
}
use open62541_nodeset_export.Model.{Attributes, assign_attribute, find_attribute}
use open62541_nodeset_export.Status.{ok}
use open62541_nodeset_export.Strings.{c_string, ua_guid_identifier_to_std_string}
use open62541_nodeset_export.Ua.{
  AttrValue, ExpandedNodeId, NodeClass, ReferenceDescription, Ua, UaLaws, contains_class,
  ns0_node_id, qualified_name, scalar,
}
use open62541_nodeset_export.Ua.Ids.{id_organizes, objects_folder, types_nodeclasses}

-- The key is in the map.
abbrev pub HasKey : ℕ → Attributes → Type 0
HasKey k m = (v : Option AttrValue) × (find_attribute m k ≡ some v)

HasKey-assign :
    (k j : ℕ) (v : Option AttrValue) (m : Attributes)
    → HasKey k m
    → HasKey k (assign_attribute j v m)
HasKey-assign k j v [] (w, h) = cc
HasKey-assign k j v ((i, u) ∷ m) (w, h) = elim (Bool-cases (i == j)) [
  | inl e ↦ elim (Bool-cases (i == k)) [
    | inl f ↦ (v, rw (e, f))
    | inr f ↦ (w, rw (e, f) (rw f at h))
  ]
  | inr e ↦ elim (Bool-cases (i == k)) [
    | inl f ↦ (u, rw (e, f))
    | inr f ↦ let (x, g) = HasKey-assign k j v m (w, rw f at h) in (x, rw (e, f) g)
  ]
]

emplace_at-HasKey :
    (k : ℕ) (v : AttrValue) (m : Attributes)
    → HasKey k m
    → emplace_at k v m ≡ ok (assign_attribute k (some v) m)
emplace_at-HasKey k v m (w, h) = rw (h, emplace_at)

-- The three attributes that the made-up start node is given were asked for.
abbrev pub HasNames : Attributes → Type 0
HasNames m = HasKey 3 m × HasKey 4 m × HasKey 5 m

pub create_attributes_for_start_node-total :
    (id : ExpandedNodeId) (attrs : Attributes)
    → HasNames attrs
    → (r : Attributes × List ReferenceDescription) × (create_attributes_for_start_node id attrs
        ≡ ok r)
unfolding create_attributes_for_start_node
create_attributes_for_start_node-total id attrs (h3, h4, h5) =
    let name = c_string (ua_guid_identifier_to_std_string id.node_id) in
    let v3 =
      scalar
        (qualified_name (record { namespace_index = id.node_id.namespace_index; name = name })) in
    let m3 = assign_attribute 3 (some v3) attrs in
    let m4 = assign_attribute 4 (some (plain_text name)) m3 in
    let v5 = plain_text (codes "This is autogenerated start node.") in
    (
      (assign_attribute 5 (some v5) m4, folder_type_reference ∷ []),
      rw (
        emplace_at-HasKey 3 v3 attrs h3,
        emplace_at-HasKey 4 (plain_text name) m3 (HasKey-assign 4 3 (some v3) attrs h4),
        emplace_at-HasKey 5 v5 m4
            (HasKey-assign 5 4 (some (plain_text name)) m3 (HasKey-assign 5 3 (some v3) attrs h5)),
      ),
    )

module _ (ua : Ua) (opts : Options) (node_class : NodeClass)
    (refs : List ReferenceDescription) where
  pub subtype_detected-type_class :
      (add_start_node_if_not_found ua opts node_class refs).has_start_node_subtype_detected ≡ true
      → contains_class types_nodeclasses node_class ≡ true
  unfolding add_start_node_if_not_found
  subtype_detected-type_class h = ground arith

-- No reference points to the objects folder.
abbrev pub AvoidsObjects : List ReferenceDescription → Type 0
AvoidsObjects = All (λ ref. ref.node_id.node_id ≢ objects_folder)

-- The reverse references of a list.
abbrev pub reverse_count : List ReferenceDescription → ℕ
reverse_count [] = 0
reverse_count (ref ∷ refs) = (if ref.is_forward then 0 else 1) + reverse_count refs

abbrev pub replacer_link : Options → ReferenceDescription
replacer_link opts = record {
  reference_type_id = ns0_node_id id_organizes;
  is_forward = false;
  node_id = opts.parent_start_node_replacer;
}

module _ {ua : Ua} (laws : UaLaws ua) where
  count_until_i85-avoids :
      (refs : List ReferenceDescription) (n : ℕ)
      → AvoidsObjects refs
      → count_until_i85 ua refs n ≡ (false, n + reverse_count refs)
  unfolding count_until_i85
  count_until_i85-avoids [] n h = ap (λ k. (false, k)) (omega arith)
  count_until_i85-avoids (ref ∷ refs) n h =
      elim (Bool-cases (ua.node_id_equal ref.node_id.node_id objects_folder)) [
        | inl e ↦ absurd (h.0 ((laws.node_id_equal_iff ref.node_id.node_id objects_folder).0 e))
        | inr e ↦
            rw (e, count_until_i85-avoids refs (n + (if ref.is_forward then 0 else 1)) h.1)
              (ap (λ k. (false, k)) (omega arith))
      ]

  pub add_start_node-avoids :
      (opts : Options) (node_class : NodeClass) (refs : List ReferenceDescription)
      → AvoidsObjects refs
      → add_start_node_if_not_found ua opts node_class refs ≡ record {
        references = replacer_link opts ∷ add_abstract_parents ua opts refs;
        has_start_node_subtype_detected = contains_class types_nodeclasses node_class;
        start_node_reverse_reference_counter = reverse_count refs;
      }
  unfolding add_start_node_if_not_found add_custom_reference_to_node_id
  add_start_node-avoids opts node_class refs h =
      rw (count_until_i85-avoids refs 0 h, add_start_node_if_not_found) (ground arith)
