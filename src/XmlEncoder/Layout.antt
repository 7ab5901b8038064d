-- ===== src/XmlEncoder/Layout.antt =====
-- What the children of the UANodeSet are after any calls of the encoder, also failing ones.

pub mod Calls
use open62541_nodeset_export.Prelude.{
  All, All-append, Bool, List, Option, Text, [], ap, append_assoc, codes, false, if◌then◌else◌, inl,
  inr, none, refl, some, true, ◌++◌, ◌||◌, ◌∙◌, ◌∷◌, ◌≡◌, ◌⊎◌,
}
use open62541_nodeset_export.Ua.{Ua}
use open62541_nodeset_export.Xml.{Xml, XmlChild, XmlLaws, element_node, text_eq}
use open62541_nodeset_export.XmlEncoder.{Place, XmlEncoder, insert_aliases}

module _ {X F : Type 0} (ua : Ua) (xml : Xml X F) where
  -- An element with one of the two names that stand at the head of a UANodeSet.
  abbrev pub is_head : Text → Bool
  is_head tag = text_eq tag (codes "NamespaceUris") || text_eq tag (codes "Aliases")

  abbrev pub IsOther : XmlChild X → Type 0
  IsOther (element_node x) = is_head (xml.name x) ≡ false
  IsOther _ = Unit

  abbrev pub HasUris : Option Place → List (XmlChild X) → Type 0
  HasUris (some Place.in_nodeset) us =
      (u : X) × (us ≡ element_node u ∷ []) × (xml.name u ≡ codes "NamespaceUris")
  HasUris _ us = us ≡ []

  abbrev pub HasAliases : Bool → List (XmlChild X) → Type 0
  HasAliases b between =
      (between ≡ [])
      ⊎ ((b ≡ true) × ((c : X) × (between ≡ element_node c ∷ []) × (xml.name c ≡ codes "Aliases")))

  abbrev pub Sections : Option Place → Bool → X → Type 0
  Sections p b s =
      (us between rest : List (XmlChild X)) × (xml.children s ≡ us ++ (between ++ rest))
      × HasUris p us
      × HasAliases b between
      × All IsOther rest

  -- The UANodeSet, if there is one, has at most one element for the namespaces, in front of everything else,
  -- and at most one for the aliases, before everything but that; and m_xml_ua_namespace_uris points to the
  -- first one if it points into this UANodeSet.
  abbrev pub IsLaidOut : XmlEncoder X F → Type 0
  IsLaidOut e = (s : X) → e.nodeset ≡ some s → Sections e.namespace_uris e.aliases s

  module _ (laws : XmlLaws xml) where
    pub some-keeps :
        {A R : Type 0} (P : R → Type 0) (o : Option A) (r : R) (f : A → R)
        → P r
        → ((a : A) → o ≡ some a → P (f a))
        → P (elim o as (λ q. R) [ none ↦ r | some a ↦ f a ])
    some-keeps P none r f h k = h
    some-keeps P (some a) r f h k = k a refl

    pub none-keeps :
        {A R : Type 0} (P : R → Type 0) (o : Option A) (f : A → R) (r : R)
        → ((a : A) → P (f a))
        → (o ≡ none → P r)
        → P (elim o as (λ q. R) [ some a ↦ f a | none ↦ r ])
    none-keeps P none f r h k = k refl
    none-keeps P (some a) f r h k = h a

    pub if-keeps :
        {R : Type 0} (P : R → Type 0) (b : Bool) (y z : R)
        → (b ≡ true → P y)
        → (b ≡ false → P z)
        → P (if b then y else z)
    if-keeps P true y z h k = h refl
    if-keeps P false y z h k = k refl

    pub append-Sections :
        (p : Option Place) (b : Bool) (s s' : X) (c : XmlChild X)
        → xml.children s' ≡ xml.children s ++ (c ∷ [])
        → IsOther c
        → Sections p b s
        → Sections p b s'
    append-Sections p b s s' c more plain (us, between, rest, k, u, a, others) = (
      us,
      between,
      rest ++ (c ∷ []),
      more
          ∙ ap (λ l. l ++ (c ∷ [])) k
          ∙ append_assoc us (between ++ rest) (c ∷ [])
          ∙ ap (λ l. us ++ l) (append_assoc between rest (c ∷ [])),
      u,
      a,
      All-append IsOther rest (c ∷ []) others (plain, tt),
    )

    pub first-Sections :
        (b : Bool) (s s' u : X)
        → xml.children s' ≡ element_node u ∷ xml.children s
        → xml.name u ≡ codes "NamespaceUris"
        → Sections none b s
        → Sections (some Place.in_nodeset) b s'
    first-Sections b s s' u more name (us, between, rest, k, no_uris, a, others) = (
      element_node u ∷ [],
      between,
      rest,
      more ∙ ap (λ l. element_node u ∷ l) (k ∙ ap (λ l. l ++ (between ++ rest)) no_uris),
      (u, refl, name),
      a,
      others,
    )

    no_aliases :
        (between rest : List (XmlChild X)) → HasAliases false between → between ++ rest ≡ rest
    no_aliases between rest (inl none_yet) = ap (λ l. l ++ rest) none_yet
    no_aliases between rest (inr (bad, more)) = cc

    pub aliased-Sections :
        (p : Option Place) (s c : X)
        → xml.name c ≡ codes "Aliases"
        → Sections p false s
        → Sections p true (insert_aliases ua xml p c s)
    unfolding insert_aliases
    aliased-Sections none s c name (us, between, rest, k, no_uris, a, others) =
        some-keeps (Sections none true) (xml.insert_first_child (element_node c) s) s (λ s'. s')
          (
            us,
            [],
            rest,
            k ∙ ap (λ l. us ++ l) (no_aliases between rest a),
            no_uris,
            inl refl,
            others,
          )
          λ s' first. (
            [],
            element_node c ∷ [],
            rest,
            laws.children-insert_first_child (element_node c) s s' first
                ∙ ap (λ l. element_node c ∷ l)
                    (k ∙ ap (λ l. l ++ (between ++ rest)) no_uris ∙ no_aliases between rest a),
            refl,
            inr (refl, (c, refl, name)),
            others,
          )
    aliased-Sections (some Place.elsewhere) s c name (us, between, rest, k, no_uris, a, others) =
        (us, [], rest, k ∙ ap (λ l. us ++ l) (no_aliases between rest a), no_uris, inl refl, others)
    aliased-Sections (some Place.in_nodeset) s c name
          (us, between, rest, k, (u, one, named), a, others) =
        (
          element_node u ∷ [],
          element_node c ∷ [],
          rest,
          laws.children-insert_after_first_child c s (element_node u) rest (
              k
              ∙ ap (λ l. l ++ (between ++ rest)) one
              ∙ ap (λ l. element_node u ∷ l) (no_aliases between rest a)),
          (u, refl, named),
          inr (refl, (c, refl, name)),
          others,
        )
