-- ===== src/Loop/Distinct/Unique.antt =====
-- Distinct keeps the first of each id, in order.
use open62541_nodeset_export.Prelude.{
  Bool-cases, List, [], ap, append-nil, append_assoc, inl, inr, refl, subst, sym, ◌++◌, ◌↔◌, ◌∙◌,
  ◌∷◌, ◌≡◌, ◌⊎◌,
}
use open62541_nodeset_export.Loop.Distinct.{distinct, distinct_from}
use open62541_nodeset_export.Prelude.Member.{In, IsDistinct}
use open62541_nodeset_export.Status.{StatusResults, fails, ok}
use open62541_nodeset_export.Ua.{ExpandedNodeId, Ua, UaLaws, contains_expanded}
use open62541_nodeset_export.Ua.Sets.{contains_expanded→In, insert_unseen, not_contains_expanded}

-- The first list is the second with entries left out.
abbrev pub IsSubsequence : {A : Type 0} → List A → List A → Type 0
IsSubsequence [] ys = Unit
IsSubsequence (x ∷ xs) [] = ⊥
IsSubsequence (x ∷ xs) (y ∷ ys) = ((x ≡ y) × IsSubsequence xs ys) ⊎ IsSubsequence (x ∷ xs) ys

IsSubsequence-skip :
    {A : Type 0} (xs ys : List A) (y : A) → IsSubsequence xs ys → IsSubsequence xs (y ∷ ys)
IsSubsequence-skip [] ys y h = tt
IsSubsequence-skip (x ∷ xs) ys y h = inr h

IsSubsequence-In : {A : Type 0} (x : A) (xs ys : List A) → IsSubsequence xs ys → In x xs → In x ys
IsSubsequence-In x [] ys h m = absurd m
IsSubsequence-In x (z ∷ xs) [] h m = absurd h
IsSubsequence-In x (z ∷ xs) (y ∷ ys) (inl (e, h)) (inl f) = inl (f ∙ e)
IsSubsequence-In x (z ∷ xs) (y ∷ ys) (inl (e, h)) (inr m) = inr (IsSubsequence-In x xs ys h m)
IsSubsequence-In x (z ∷ xs) (y ∷ ys) (inr h) m = inr (IsSubsequence-In x (z ∷ xs) ys h m)

module _ {ua : Ua} (laws : UaLaws ua) where
  -- What the loop adds to `kept`, given that `seen` holds the same ids as `kept`.
  record Run (kept seen ids : List ExpandedNodeId) : Type 0 where
    fresh : List ExpandedNodeId
    vector : (distinct_from ua kept seen ids).0 ≡ kept ++ fresh
    ordered : IsSubsequence fresh ids
    distinct_fresh : IsDistinct fresh
    new : (x : ExpandedNodeId) → In x fresh → In x seen → ⊥
    whole : (x : ExpandedNodeId) → In x ids → In x seen ⊎ In x fresh
    set : (x : ExpandedNodeId) → In x (distinct_from ua kept seen ids).1 ↔ (In x seen ⊎ In x fresh)

  run : (kept seen ids : List ExpandedNodeId) → Run kept seen ids
  unfolding distinct_from
  run kept seen [] = record {
    fresh = [];
    vector = sym (append-nil kept);
    ordered = tt;
    distinct_fresh = tt;
    new = λ x m. absurd m;
    whole = λ x m. absurd m;
    set = λ x. (λ m. inl m, λ m. elim m [ inl s ↦ s | inr f ↦ absurd f ]);
  }
  run kept seen (id ∷ ids) = elim (Bool-cases (contains_expanded ua seen id)) [
    | inl old ↦
        let r = run kept seen ids in
        record {
          fresh = r.fresh;
          vector = rw old r.vector;
          ordered = IsSubsequence-skip r.fresh ids id r.ordered;
          distinct_fresh = r.distinct_fresh;
          new = r.new;
          whole = λ x m. elim m [
            | inl e ↦ inl (subst (λ y. In y seen) (sym e) (contains_expanded→In laws seen id old))
            | inr n ↦ r.whole x n
          ];
          set = λ x. rw old (r.set x);
        }
    | inr unseen ↦
        let r = run (kept ++ (id ∷ [])) (id ∷ seen) ids in
        record {
          fresh = id ∷ r.fresh;
          vector =
              rw (unseen, insert_unseen ua seen id unseen)
                (r.vector ∙ append_assoc kept (id ∷ []) r.fresh);
          ordered = inl (refl, r.ordered);
          distinct_fresh = ((λ m. r.new id m (inl refl)), r.distinct_fresh);
          new = λ x m s. elim m [
            | inl e ↦ not_contains_expanded laws seen id unseen (subst (λ y. In y seen) e s)
            | inr f ↦ r.new x f (inr s)
          ];
          whole = λ x m. elim m [
            | inl e ↦ inr (inl e)
            | inr n ↦ elim (r.whole x n) [
              | inl (inl e) ↦ inr (inl e)
              | inl (inr s) ↦ inl s
              | inr f ↦ inr (inr f)
            ]
          ];
          set = λ x.
              rw (unseen, insert_unseen ua seen id unseen)
                (
                  (λ m. elim ((r.set x).0 m) [
                    | inl (inl e) ↦ inr (inl e)
                    | inl (inr s) ↦ inl s
                    | inr f ↦ inr (inr f)
                  ]),
                  (λ m. (r.set x).1 (elim m [
                    | inl s ↦ inl (inr s)
                    | inr (inl e) ↦ inl (inl e)
                    | inr (inr f) ↦ inr f
                  ])),
                );
        }
  ]

-- `distinct` of a list with a first id succeeds. Its vector has no id twice and every id of the list; it
-- is the list with entries left out, the first id in its place; its set holds exactly the vector's ids.
pub distinct_unique :
    {ua : Ua} (laws : UaLaws ua) (id : ExpandedNodeId) (ids : List ExpandedNodeId)
    → (rest seen : List ExpandedNodeId) × (distinct ua (id ∷ ids) ≡ ok (id ∷ rest, seen))
      × IsDistinct (id ∷ rest)
      × IsSubsequence (id ∷ rest) (id ∷ ids)
      × ((x : ExpandedNodeId) → In x (id ∷ ids) ↔ In x (id ∷ rest))
      × ((x : ExpandedNodeId) → In x seen ↔ In x (id ∷ rest))
unfolding distinct
distinct_unique {ua} laws id ids =
    let r = run laws (id ∷ []) (id ∷ []) ids in
    (
      r.fresh,
      (distinct_from ua (id ∷ []) (id ∷ []) ids).1,
      ap (λ v. ok (v, (distinct_from ua (id ∷ []) (id ∷ []) ids).1)) r.vector,
      ((λ m. r.new id m (inl refl)), r.distinct_fresh),
      inl (refl, r.ordered),
      (λ x. (
        (λ m. elim m [
          | inl e ↦ inl e
          | inr n ↦ elim (r.whole x n) [
            | inl (inl e) ↦ inl e
            | inl (inr b) ↦ absurd b
            | inr f ↦ inr f
          ]
        ]),
        (λ m. elim m [ inl e ↦ inl e | inr f ↦ inr (IsSubsequence-In x r.fresh ids r.ordered f) ]),
      )),
      (λ x. (
        (λ m. elim ((r.set x).0 m) [
          | inl (inl e) ↦ inl e
          | inl (inr b) ↦ absurd b
          | inr f ↦ inr f
        ]),
        (λ m. (r.set x).1 (elim m [ inl e ↦ inl (inl e) | inr f ↦ inr f ])),
      )),
    )

pub distinct-no_failure :
    (ua : Ua) (ids : List ExpandedNodeId) (r : StatusResults) → distinct ua ids ≡ fails r → ⊥
unfolding distinct
distinct-no_failure ua [] r h = cc
distinct-no_failure ua (id ∷ ids) r h = cc
