-- ===== src/Loop/Exporter/Constructor.antt =====
-- What the constructor of NodesetExporterLoop refuses, and what it leaves in the static table.
use open62541_nodeset_export.Prelude.{
  Bool-cases, List, [], ap, arith, false, inl, inr, not, refl, subst, sym, true, ℕ, ◌&&◌, ◌↔◌, ◌∙◌,
  ◌∷◌, ◌≡◌, ◌⊎◌,
}
use open62541_nodeset_export.Loop.Exporter.{
  Exporter, NodeLists, construct, get_summ, ignore_class, ignore_types, no_exported_nodes,
}
use open62541_nodeset_export.Loop.Options.{Options}
use open62541_nodeset_export.Prelude.Member.{In}
use open62541_nodeset_export.Status.{StatusResults, fails, ok, ok-injective, runtime_error, throws}
use open62541_nodeset_export.Ua.{NodeClass, contains_class}
use open62541_nodeset_export.Ua.Ids.{types_nodeclasses}
use open62541_nodeset_export.Ua.Sets.{contains_class→In}

-- The two combinations of options that are refused.
abbrev pub IsRefused : Options → Type 0
IsRefused opts =
    ((opts.create_missing_start_node ≡ true) × (opts.is_enable ≡ false))
    ⊎ ((opts.allow_abstract_variable ≡ true) × (opts.create_missing_start_node ≡ false))

ignore_class-In :
    (c d : NodeClass) (cs : List NodeClass) → In c (ignore_class d cs) ↔ ((c ≡ d) ⊎ In c cs)
ignore_class-In c d cs = elim (Bool-cases (contains_class cs d)) [
  | inl e ↦ rw e ((λ h. inr h), λ h. elim h [ inl q ↦ rw q (contains_class→In cs d e) | inr m ↦ m ])
  | inr e ↦ rw e ((λ h. h), λ h. h)
]

-- The insertions, the last class first.
abbrev ignore_classes : List NodeClass → List NodeClass → List NodeClass
ignore_classes [] cs = cs
ignore_classes (d ∷ ds) cs = ignore_class d (ignore_classes ds cs)

ignore_classes-In :
    (c : NodeClass) (ds cs : List NodeClass) → In c (ignore_classes ds cs) ↔ (In c cs ⊎ In c ds)
ignore_classes-In c [] cs = ((λ h. inl h), λ h. elim h [ inl m ↦ m | inr m ↦ absurd m ])
ignore_classes-In c (d ∷ ds) cs =
    let rest = ignore_classes-In c ds cs in
    let one = ignore_class-In c d (ignore_classes ds cs) in
    (
      (λ h. elim (one.0 h) [
        | inl q ↦ inr (inl q)
        | inr m ↦ elim (rest.0 m) [ inl old ↦ inl old | inr new ↦ inr (inr new) ]
      ]),
      λ h. one.1 (elim h [
        | inl old ↦ inr (rest.1 (inl old))
        | inr (inl q) ↦ inl q
        | inr (inr new) ↦ inr (rest.1 (inr new))
      ]),
    )

abbrev inserted_types : List NodeClass
inserted_types =
    NodeClass.data_type ∷ NodeClass.reference_type ∷ NodeClass.variable_type ∷ NodeClass.object_type
    ∷ []

inserted_types-In : (c : NodeClass) → In c inserted_types ↔ In c types_nodeclasses
inserted_types-In c = (
  (λ h. elim h [
    | inl q ↦ inr (inr (inl q))
    | inr (inl q) ↦ inr (inl q)
    | inr (inr (inl q)) ↦ inr (inr (inr (inl q)))
    | inr (inr (inr (inl q))) ↦ inl q
    | inr (inr (inr (inr m))) ↦ elim m [ ]
  ]),
  λ h. elim h [
    | inl q ↦ inr (inr (inr (inl q)))
    | inr (inl q) ↦ inr (inl q)
    | inr (inr (inl q)) ↦ inl q
    | inr (inr (inr (inl q))) ↦ inr (inr (inl q))
    | inr (inr (inr (inr m))) ↦ elim m [ ]
  ],
)

ignore_types-In :
    (opts : Options) (c : NodeClass) (cs : List NodeClass)
    → In c (ignore_types opts cs) ↔ (In c cs ⊎ ((opts.is_enable ≡ true) × In c types_nodeclasses))
unfolding ignore_types
ignore_types-In opts c cs =
    let all = ignore_classes-In c inserted_types cs in
    elim (Bool-cases opts.is_enable) [
      | inl e ↦ rw e (
        (λ h. elim (all.0 h) [
          | inl old ↦ inl old
          | inr new ↦ inr (refl, (inserted_types-In c).0 new)
        ]),
        λ h. all.1 (elim h [ inl old ↦ inl old | inr t ↦ inr ((inserted_types-In c).1 t.1) ]),
      )
      | inr e ↦ rw e ((λ h. inl h), λ h. elim h [ inl m ↦ m | inr t ↦ cc (t.0) ])
    ]

module _ {W E : Type 0} (opts : Options) (lists : NodeLists) (number : ℕ)
    (static_ignored : List NodeClass) (server : W) (encoder : E) where
  -- The constructor throws runtime_error for exactly the refused combinations of options. Otherwise it
  -- takes over the options, the lists and the number, with the statistics at 0, and the table of ignored
  -- classes holds what it held before and, in the flat mode, the four classes of types.
  pub construct-cases :
      (IsRefused opts
        × (construct opts lists number static_ignored server encoder ≡ throws runtime_error))
      ⊎ ((IsRefused opts → ⊥)
          × ((x : Exporter W E) × (construct opts lists number static_ignored server encoder ≡ ok x)
              × (x.options ≡ opts)
              × (x.node_ids ≡ lists)
              × (x.number_of_max_nodes_to_request_data ≡ number)
              × (get_summ x.exported_nodes ≡ 0)
              × ((c : NodeClass)
                  → In c x.ignored_nodeclasses
                    ↔ (In c static_ignored ⊎ ((opts.is_enable ≡ true) × In c types_nodeclasses)))))
  unfolding construct get_summ
  construct-cases = elim (Bool-cases (opts.create_missing_start_node && not opts.is_enable)) [
    | inl e ↦ inl (inl (ground arith), rw e)
    | inr e ↦
        elim (Bool-cases (opts.allow_abstract_variable && not opts.create_missing_start_node)) [
          | inl f ↦ inl (inr (ground arith), rw (e, f))
          | inr f ↦ inr (
            (λ bad. ground arith),
            (
              record {
                options = opts;
                node_ids = lists;
                number_of_max_nodes_to_request_data = number;
                ignored_nodeclasses = ignore_types opts static_ignored;
                ignored_node_ids_by_classes = [];
                node_ids_set_copy = [];
                exported_nodes = no_exported_nodes;
                server = server;
                encoder = encoder;
              },
              rw (e, f),
              refl,
              refl,
              refl,
              refl,
              λ c. ignore_types-In opts c static_ignored,
            ),
          )
        ]
  ]

  -- The table after a successful construction.
  pub construct-ignored :
      (x : Exporter W E)
      → construct opts lists number static_ignored server encoder ≡ ok x
      → (c : NodeClass)
      → In c x.ignored_nodeclasses
        ↔ (In c static_ignored ⊎ ((opts.is_enable ≡ true) × In c types_nodeclasses))
  construct-ignored x made c = elim construct-cases [
    | inl (bad, refused) ↦ let e = sym refused ∙ made in cc e
    | inr (fine, (y, built, _, _, _, _, table)) ↦
        let q : y ≡ x = ok-injective (sym built ∙ made) in
        subst
          (λ z.
            In c z.ignored_nodeclasses
            ↔ (In c static_ignored ⊎ ((opts.is_enable ≡ true) × In c types_nodeclasses)))
          q (table c)
  ]

  -- The fields of a constructed exporter that do not start empty.
  pub construct-fields :
      (x : Exporter W E)
      → construct opts lists number static_ignored server encoder ≡ ok x
      → (x.options ≡ opts)
        × (x.ignored_nodeclasses ≡ ignore_types opts static_ignored)
        × (x.server ≡ server)
        × (x.encoder ≡ encoder)
        × (x.node_ids ≡ lists)
  unfolding construct
  construct-fields x made =
      elim (Bool-cases (opts.create_missing_start_node && not opts.is_enable)) [
        | inl e ↦ let bad = rw (e, construct) at made in cc
        | inr e ↦
            elim (Bool-cases (opts.allow_abstract_variable && not opts.create_missing_start_node)) [
              | inl f ↦ let bad = rw (e, f, construct) at made in cc
              | inr f ↦
                  let same = ok-injective (rw (e, f, construct) at made) in
                  (
                    ap (λ y. y.options) (sym same),
                    ap (λ y. y.ignored_nodeclasses) (sym same),
                    ap (λ y. y.server) (sym same),
                    ap (λ y. y.encoder) (sym same),
                    ap (λ y. y.node_ids) (sym same),
                  )
            ]
      ]

  -- The constructor has no status of its own.
  pub construct-no_failure :
      (s : StatusResults) → construct opts lists number static_ignored server encoder ≡ fails s → ⊥
  construct-no_failure s h = elim construct-cases [
    | inl (bad, refused) ↦ let e = sym refused ∙ h in cc e
    | inr (fine, built) ↦ let e = sym built.1 ∙ h in cc e
  ]
