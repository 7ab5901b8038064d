-- ===== src/XmlNode/Updates.antt =====
-- What a step does to the element that it fills in: some attributes are set, and some children come after
-- those that are there.
use open62541_nodeset_export.Prelude.{
  Bool, List, Option, Option-cases, Text, [], ap, append-nil, append_assoc, false, fun_ext,
  if◌then◌else◌, inl, inr, none, refl, some, subst, sym, true, ℕ, ◌++◌, ◌∙◌, ◌∷◌, ◌≡◌,
}
use open62541_nodeset_export.Model.{NodeIntermediateModel}
use open62541_nodeset_export.Status.{Outcome}
use open62541_nodeset_export.Ua.{AttrValue, Ua}
use open62541_nodeset_export.Xml.{Xml, XmlChild, XmlLaws, element_node}
use open62541_nodeset_export.XmlNode.{
  add_optional, get_and_check_ua_attribute, if_done, set_optional, text_unless_default,
}
use open62541_nodeset_export.XmlNode.Attributes.{no_attributes, override, shown_of}

abbrev pub Attrs : Type 0
Attrs = Text → Option Text

-- A property of the children of two steps after one another.
abbrev pub Then :
    {X : Type 0}
    → (List (XmlChild X) → Type 0)
    → (List (XmlChild X) → Type 0)
    → List (XmlChild X)
    → Type 0
Then {X} K L kids =
    (before after : List (XmlChild X)) × (kids ≡ before ++ after) × K before × L after

-- What a step that goes through does; one that gives up is not looked at.
abbrev pub OnDone : {X : Type 0} → (X → Type 0) → Bool × X → Type 0
OnDone Q (true, x) = Q x
OnDone Q (false, x) = Unit

pub if_done-OnDone :
    {X : Type 0} (P Q : X → Type 0) (r : Bool × X) (f : X → Bool × X)
    → OnDone P r
    → ((y : X) → P y → OnDone Q (f y))
    → OnDone Q (if_done r f)
if_done-OnDone P Q (true, x) f h k = k x h
if_done-OnDone P Q (false, x) f h k = tt

pub OnDone-map :
    {X : Type 0} (P Q : X → Type 0) (r : Bool × X) → ((x : X) → P x → Q x) → OnDone P r → OnDone Q r
OnDone-map P Q (true, x) f h = f x h
OnDone-map P Q (false, x) f h = tt

module _ {X F : Type 0} (xml : Xml X F) where
  -- Children with the property are added after those that are there, and nothing else changes.
  abbrev pub Gains : (List (XmlChild X) → Type 0) → X → X → Type 0
  Gains K x x' =
      (xml.name x' ≡ xml.name x)
      × (xml.attribute x' ≡ xml.attribute x)
      × ((kids : List (XmlChild X)) × (xml.children x' ≡ xml.children x ++ kids) × K kids)

  -- The element has this name, these attributes, and children with the property.
  abbrev pub Filled : Text → Attrs → (List (XmlChild X) → Type 0) → X → Type 0
  Filled tag a K x = (xml.name x ≡ tag) × (xml.attribute x ≡ a) × K (xml.children x)

  pub nothing_added : (K : List (XmlChild X) → Type 0) (x : X) → K [] → Gains K x x
  nothing_added K x k = (refl, refl, ([], sym (append-nil (xml.children x)), k))

  pub Gains-trans :
      (K L : List (XmlChild X) → Type 0) (x y z : X)
      → Gains K x y
      → Gains L y z
      → Gains (Then K L) x z
  Gains-trans K L x y z (same, attrs, (kids, more, k)) (same2, attrs2, (kids2, more2, l)) = (
    same2 ∙ same,
    attrs2 ∙ attrs,
    (
      kids ++ kids2,
      more2 ∙ ap (λ c. c ++ kids2) more ∙ append_assoc (xml.children x) kids kids2,
      (kids, kids2, refl, k, l),
    ),
  )

  pub Filled-Gains :
      (tag : Text) (a : Attrs) (K L : List (XmlChild X) → Type 0) (x y : X)
      → Filled tag a K x
      → Gains L x y
      → Filled tag a (Then K L) y
  Filled-Gains tag a K L x y (n, e, k) (same, attrs, (kids, more, l)) =
      (same ∙ n, attrs ∙ e, (xml.children x, kids, more, k, l))

  -- The first children of an element.
  pub Empty-Gains :
      (tag : Text) (a : Attrs) (L : List (XmlChild X) → Type 0) (x y : X)
      → Filled tag a (λ kids. kids ≡ []) x
      → Gains L x y
      → Filled tag a L y
  Empty-Gains tag a L x y (n, e, k) (same, attrs, (kids, more, l)) =
      (same ∙ n, attrs ∙ e, subst L (sym (more ∙ ap (λ c. c ++ kids) k)) l)

  module _ (laws : XmlLaws xml) where
    pub new_child-Filled :
        (tag : Text) (x c : X)
        → xml.insert_new_child_element tag x ≡ some c
        → Filled tag no_attributes (λ kids. kids ≡ []) c
    new_child-Filled tag x c e =
        let (a, b, d) = laws.insert_new_child_element-IsNew tag x c e in (a, fun_ext b, d)

    -- Placing a child adds it and nothing else.
    pub place-Gains :
        (K : List (XmlChild X) → Type 0) (c x : X)
        → K (element_node c ∷ [])
        → Gains K x (xml.place c x)
    place-Gains K c x k = (
      (laws.place-SameTag c x).0,
      fun_ext (laws.place-SameTag c x).1,
      (element_node c ∷ [], laws.children-place c x, k),
    )

    module _ (tag : Text) (a : Attrs) (K : List (XmlChild X) → Type 0) where
      pub set_attribute-Filled :
          (k v : Text) (x : X)
          → Filled tag a K x
          → Filled tag (override k (some v) a) K (xml.set_attribute k v x)
      set_attribute-Filled k v x (n, e, kids) = (
        laws.name-set_attribute k v x ∙ n,
        fun_ext (laws.attribute-set_attribute k v x) ∙ ap (override k (some v)) e,
        subst K (sym (laws.children-set_attribute k v x)) kids,
      )

      pub set_if-Filled :
          (b : Bool) (k v : Text) (x : X)
          → Filled tag a K x
          → Filled tag
              (override k (if b then none else some v) a)
              K
              (if b then x else xml.set_attribute k v x)
      set_if-Filled true k v x h = h
      set_if-Filled false k v x h = set_attribute-Filled k v x h

      module _ (ua : Ua) where
        set_optional-Filled :
            (k : Text) (o : Option Text) (x : X)
            → Filled tag a K x
            → Filled tag (override k o a) K (set_optional ua xml k o x)
        set_optional-Filled k none x h = h
        set_optional-Filled k (some t) x h = set_attribute-Filled k t x h

        -- The block for an optional attribute.
        pub add_optional-Filled :
            (k : Text) (attr : ℕ) (as_text : AttrValue → Outcome Text)
            (shown : AttrValue → Option Text) (m : NodeIntermediateModel) (x : X)
            → ((v : AttrValue) → text_unless_default ua xml attr as_text v ≡ shown v)
            → Filled tag a K x
            → Filled tag
                (override k (shown_of ua xml shown (get_and_check_ua_attribute m attr)) a)
                K
                (add_optional ua xml k attr as_text m x)
        unfolding add_optional
        add_optional-Filled k attr as_text shown m x h filled =
            elim (Option-cases (get_and_check_ua_attribute m attr)) [
              | inl e ↦ rw (e, add_optional) filled
              | inr (v, e) ↦
                  rw (e, add_optional)
                    (subst
                      (λ o.
                        Filled tag (override k o a) K
                          (set_optional ua xml k (text_unless_default ua xml attr as_text v) x))
                      (h v)
                      (set_optional-Filled k (text_unless_default ua xml attr as_text v) x filled))
            ]
