-- ===== src/Loop/KepServer/Types.antt =====
-- The abstract type definition is replaced.
use open62541_nodeset_export.Prelude.{
  Bool, Bool-cases, List, [], ap, arith, false, if◌then◌else◌, inl, inr, map, not, refl, ℕ, ◌&&◌,
  ◌+◌, ◌||◌, ◌∙◌, ◌∷◌, ◌≡◌, ◌≤◌,
}
use open62541_nodeset_export.Loop.KepServer.{
  has_abstract_type, replace_abstract_type, scan_references,
}
use open62541_nodeset_export.Ua.{ReferenceDescription, Ua, UaLaws, numeric}
use open62541_nodeset_export.Ua.Ids.{base_data_variable_type, base_variable_type}

-- A reference of type HasTypeDefinition, i=40, to BaseVariableType, i=62.
abbrev pub is_abstract : Ua → ReferenceDescription → Bool
is_abstract ua ref =
    ua.node_id_equal ref.reference_type_id (record { namespace_index = 0; identifier = numeric 40 })
    && ua.node_id_equal ref.node_id.node_id
        (record { namespace_index = 0; identifier = numeric 62 })

abbrev pub abstract_count : Ua → List ReferenceDescription → ℕ
abstract_count ua [] = 0
abstract_count ua (ref ∷ refs) = (if is_abstract ua ref then 1 else 0) + abstract_count ua refs

-- The identifier of the target of such a reference becomes that of BaseDataVariableType, i=63.
abbrev pub made_concrete : Ua → ReferenceDescription → ReferenceDescription
made_concrete ua ref =
    if is_abstract ua ref
    then record {
      reference_type_id = ref.reference_type_id;
      is_forward = ref.is_forward;
      node_id = record {
        node_id = record {
          namespace_index = ref.node_id.node_id.namespace_index;
          identifier = numeric 63;
        };
        namespace_uri = ref.node_id.namespace_uri;
        server_index = ref.node_id.server_index;
      };
    }
    else ref

module _ (ua : Ua) where
  replace_abstract_type-made_concrete :
      (ref : ReferenceDescription) → replace_abstract_type ua ref ≡ made_concrete ua ref
  unfolding replace_abstract_type
  replace_abstract_type-made_concrete ref = refl

  map-made_concrete :
      (refs : List ReferenceDescription)
      → abstract_count ua refs ≡ 0
      → map (made_concrete ua) refs ≡ refs
  map-made_concrete [] h = refl
  map-made_concrete (ref ∷ refs) h = elim (Bool-cases (is_abstract ua ref)) [
    | inl e ↦ ground arith
    | inr e ↦ rw (e, map-made_concrete refs (ground arith))
  ]

  -- `t` is the flag that one was replaced already.
  scan-made_concrete :
      (refs : List ReferenceDescription) (t i : Bool)
      → (if t then 1 else 0) + abstract_count ua refs ≤ 1
      → (scan_references ua refs t i).0 ≡ map (made_concrete ua) refs
  unfolding scan_references
  scan-made_concrete [] t i h = refl
  scan-made_concrete (ref ∷ refs) t i h = ground (
    arith,
    replace_abstract_type-made_concrete ref,
    map-made_concrete refs,
    scan-made_concrete refs (t || has_abstract_type ua ref) (i || not ref.is_forward),
  )

module _ {ua : Ua} (laws : UaLaws ua) where
  made_concrete-is_abstract :
      (ref : ReferenceDescription) → is_abstract ua (made_concrete ua ref) ≡ false
  made_concrete-is_abstract ref = ground (
    arith,
    laws.node_id_equal_iff
        (record {
          namespace_index = ref.node_id.node_id.namespace_index;
          identifier = numeric base_data_variable_type;
        })
        base_variable_type,
  )

  abstract_count-made_concrete :
      (refs : List ReferenceDescription) → abstract_count ua (map (made_concrete ua) refs) ≡ 0
  abstract_count-made_concrete [] = refl
  abstract_count-made_concrete (ref ∷ refs) =
      rw (made_concrete-is_abstract ref, abstract_count-made_concrete refs)

  -- Where a node has at most one HasTypeDefinition reference to the abstract BaseVariableType, the loop over
  -- its references gives that one the identifier 63 of BaseDataVariableType and leaves all else as it is,
  -- in order, although it stops early once it has met a reverse reference as well; no reference to the
  -- abstract type is left.
  pub scan_references-concrete :
      (refs : List ReferenceDescription)
      → abstract_count ua refs ≤ 1
      → ((scan_references ua refs false false).0 ≡ map (made_concrete ua) refs)
        × (abstract_count ua (scan_references ua refs false false).0 ≡ 0)
  scan_references-concrete refs h =
      let same = scan-made_concrete ua refs false false (omega arith) in
      (same, ap (abstract_count ua) same ∙ abstract_count-made_concrete refs)
