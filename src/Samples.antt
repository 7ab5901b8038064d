-- ===== src/Samples.antt =====
-- A concrete instance of the library functions of open62541, on which the definitions can be run: node
-- ids are compared by the list of their parts.
pub mod Server
pub mod Document
use open62541_nodeset_export.Prelude.{
  Bool, Option, Ordering, Text, [], ap, codes, false, if◌then◌else◌, is_empty, leb, ltb, map, none,
  refl, some, suc, sym, true, zero, ℕ, ◌&&◌, ◌+◌, ◌==◌, ◌↔◌, ◌∙◌, ◌∷◌, ◌≡◌,
}
use open62541_nodeset_export.Texts.{
  compare_text, compare_text-flip, compare_text_refl, compare_text→eq,
}
use open62541_nodeset_export.Ua.{
  ExpandedNodeId, Identifier, NodeId, Ua, UaLaws, byte_string, guid, ns0_node_id, numeric, string,
}

abbrev identifier_parts : Identifier → Text
identifier_parts (numeric n) = 0 ∷ n ∷ []
identifier_parts (string t) = 1 ∷ t
identifier_parts (guid g) = 2 ∷ g.data1 ∷ g.data2 ∷ g.data3 ∷ g.data4
identifier_parts (byte_string t) = 3 ∷ t

abbrev node_id_parts : NodeId → Text
node_id_parts n = n.namespace_index ∷ identifier_parts n.identifier

abbrev identifier_of_parts : Text → Identifier
identifier_of_parts (zero ∷ n ∷ t) = numeric n
identifier_of_parts (suc zero ∷ t) = string t
identifier_of_parts (suc (suc zero) ∷ a ∷ b ∷ c ∷ d) =
    guid (record { data1 = a; data2 = b; data3 = c; data4 = d })
identifier_of_parts (suc (suc (suc k)) ∷ t) = byte_string t
identifier_of_parts _ = numeric 0

abbrev node_id_of_parts : Text → NodeId
node_id_of_parts [] = ns0_node_id 0
node_id_of_parts (n ∷ t) = record { namespace_index = n; identifier = identifier_of_parts t }

identifier_of_parts-parts : (i : Identifier) → identifier_of_parts (identifier_parts i) ≡ i
identifier_of_parts-parts (numeric n) = refl
identifier_of_parts-parts (string t) = refl
identifier_of_parts-parts (guid g) = refl
identifier_of_parts-parts (byte_string t) = refl

node_id_of_parts-parts : (a : NodeId) → node_id_of_parts (node_id_parts a) ≡ a
node_id_of_parts-parts a =
    ap (λ i. record { namespace_index = a.namespace_index; identifier = i })
      (identifier_of_parts-parts a.identifier)

node_id_parts-injective : (a b : NodeId) → node_id_parts a ≡ node_id_parts b → a ≡ b
node_id_parts-injective a b h =
    sym (node_id_of_parts-parts a) ∙ (ap node_id_of_parts h ∙ node_id_of_parts-parts b)

-- One order after the other.
abbrev then_order : Ordering → Ordering → Ordering
then_order Ordering.eq o = o
then_order Ordering.lt o = Ordering.lt
then_order Ordering.gt o = Ordering.gt

abbrev is_eq : Ordering → Bool
is_eq Ordering.eq = true
is_eq _ = false

abbrev node_order : NodeId → NodeId → Ordering
node_order a b = compare_text (node_id_parts a) (node_id_parts b)

abbrev expanded_node_order : ExpandedNodeId → ExpandedNodeId → Ordering
expanded_node_order a b = then_order (node_order a.node_id b.node_id) (
    then_order (compare_text a.namespace_uri b.namespace_uri)
      (compare_text (a.server_index ∷ []) (b.server_index ∷ [])))

abbrev sample_numeric : Identifier → ℕ
sample_numeric (numeric n) = n
sample_numeric _ = 0

-- The parts as digits.
abbrev printed_parts : NodeId → Text
printed_parts n = map (λ k. b'0' + k) (node_id_parts n)

-- Two aliases of each table.
abbrev sample_data_type_alias : ℕ → Option Text
sample_data_type_alias n =
    if n == 6 then some (codes "Int32") else if n == 12 then some (codes "String") else none

abbrev sample_reference_type_alias : ℕ → Option Text
sample_reference_type_alias n =
    if n == 35
    then some (codes "Organizes")
    else if n == 45
    then some (codes "HasSubtype")
    else if n == 47
    then some (codes "HasComponent")
    else none

abbrev pub sample_ua : Ua
sample_ua = record {
  node_id_equal = λ a b. is_eq (node_order a b);
  node_id_order = node_order;
  expanded_order = expanded_node_order;
  numeric_member = sample_numeric;
  print_node_id = λ a. some (printed_parts a);
  print_expanded = λ a. some (printed_parts a.node_id);
  node_id_print = printed_parts;
  expanded_print = λ a. printed_parts a.node_id;
  node_id_is_null = λ a. (a.namespace_index == 0) && (sample_numeric a.identifier == 0);
  qualified_name_is_null = λ q. (q.namespace_index == 0) && is_empty q.name;
  parse_expanded = λ t. record {
    node_id = record { namespace_index = if is_empty t then 0 else 2; identifier = numeric 1 };
    namespace_uri = [];
    server_index = 0;
  };
  is_bad = λ n. leb 2147483648 n;
  is_uncertain = λ n. leb 1073741824 n && ltb n 2147483648;
  data_type_aliases = sample_data_type_alias;
  reference_type_aliases = sample_reference_type_alias;
}

node_order_iff : (a b : NodeId) → (node_order a b ≡ Ordering.eq) ↔ (a ≡ b)
node_order_iff a b = (
  (λ h. node_id_parts-injective a b (compare_text→eq (node_id_parts a) (node_id_parts b) h)),
  λ h. rw h (compare_text_refl (node_id_parts b)),
)

is_eq_iff : (o : Ordering) → (is_eq o ≡ true) ↔ (o ≡ Ordering.eq)
is_eq_iff Ordering.eq = (λ h. refl, λ h. refl)
is_eq_iff Ordering.lt = (λ h. cc, λ h. cc)
is_eq_iff Ordering.gt = (λ h. cc, λ h. cc)

then_order_iff :
    (o p : Ordering) → (then_order o p ≡ Ordering.eq) ↔ ((o ≡ Ordering.eq) × (p ≡ Ordering.eq))
then_order_iff Ordering.eq p = (λ h. (refl, h), λ h. h.1)
then_order_iff Ordering.lt p = (λ h. cc, λ h. cc)
then_order_iff Ordering.gt p = (λ h. cc, λ h. cc)

one_element : (m n : ℕ) → m ∷ [] ≡ n ∷ [] → m ≡ n
one_element m n h = cc

expanded_parts :
    (a b : ExpandedNodeId)
    → a.node_id ≡ b.node_id
    → a.namespace_uri ≡ b.namespace_uri
    → a.server_index ≡ b.server_index
    → a ≡ b
expanded_parts a b h k l = λ i. record { node_id = h i; namespace_uri = k i; server_index = l i }

abbrev uri_order : ExpandedNodeId → ExpandedNodeId → Ordering
uri_order a b = compare_text a.namespace_uri b.namespace_uri

abbrev server_order : ExpandedNodeId → ExpandedNodeId → Ordering
server_order a b = compare_text (a.server_index ∷ []) (b.server_index ∷ [])

expanded_node_order_iff : (a b : ExpandedNodeId) → (expanded_node_order a b ≡ Ordering.eq) ↔ (a ≡ b)
expanded_node_order_iff a b = (
  (λ h.
      let (e, f) =
        (then_order_iff (node_order a.node_id b.node_id)
            (then_order (uri_order a b) (server_order a b))).0
          h in
      let (g, k) = (then_order_iff (uri_order a b) (server_order a b)).0 f in
      expanded_parts a b ((node_order_iff a.node_id b.node_id).0 e)
        (compare_text→eq a.namespace_uri b.namespace_uri g)
        (one_element a.server_index b.server_index
          (compare_text→eq (a.server_index ∷ []) (b.server_index ∷ []) k))),
  λ h. rw (
    h,
    compare_text_refl (node_id_parts b.node_id),
    compare_text_refl b.namespace_uri,
    compare_text_refl (b.server_index ∷ []),
  ),
)

then_order-flip :
    (o o' p p' : Ordering)
    → (o ≡ Ordering.gt) ↔ (o' ≡ Ordering.lt)
    → (o ≡ Ordering.eq) ↔ (o' ≡ Ordering.eq)
    → (p ≡ Ordering.gt) ↔ (p' ≡ Ordering.lt)
    → (then_order o p ≡ Ordering.gt) ↔ (then_order o' p' ≡ Ordering.lt)
then_order-flip Ordering.eq Ordering.eq p p' h k l = l
then_order-flip Ordering.gt Ordering.lt p p' h k l = (λ e. refl, λ e. refl)
then_order-flip Ordering.lt Ordering.gt p p' h k l = (λ e. cc, λ e. cc)
then_order-flip Ordering.lt Ordering.lt p p' h k l = let e = h.1 refl in cc
then_order-flip Ordering.gt Ordering.gt p p' h k l = let e = h.0 refl in cc
then_order-flip Ordering.eq Ordering.lt p p' h k l = let e = k.0 refl in cc
then_order-flip Ordering.eq Ordering.gt p p' h k l = let e = k.0 refl in cc
then_order-flip Ordering.lt Ordering.eq p p' h k l = let e = k.1 refl in cc
then_order-flip Ordering.gt Ordering.eq p p' h k l = let e = k.1 refl in cc

compare_text-eq-flip :
    (s t : Text) → (compare_text s t ≡ Ordering.eq) ↔ (compare_text t s ≡ Ordering.eq)
compare_text-eq-flip s t = (
  (λ h. rw (compare_text→eq s t h) (compare_text_refl t)),
  λ h. rw (compare_text→eq t s h) (compare_text_refl s),
)

expanded_node_order-flip :
    (a b : ExpandedNodeId)
    → (expanded_node_order a b ≡ Ordering.gt) ↔ (expanded_node_order b a ≡ Ordering.lt)
expanded_node_order-flip a b =
    let p = node_id_parts a.node_id in
    let q = node_id_parts b.node_id in
    let s = a.server_index ∷ [] in
    let t = b.server_index ∷ [] in
    then_order-flip (compare_text p q) (compare_text q p)
      (then_order (uri_order a b) (server_order a b))
      (then_order (uri_order b a) (server_order b a)) (compare_text-flip p q)
      (compare_text-eq-flip p q)
      (then_order-flip (uri_order a b) (uri_order b a) (server_order a b) (server_order b a)
        (compare_text-flip a.namespace_uri b.namespace_uri)
        (compare_text-eq-flip a.namespace_uri b.namespace_uri) (compare_text-flip s t))

node_id_equal_iff : (a b : NodeId) → (is_eq (node_order a b) ≡ true) ↔ (a ≡ b)
node_id_equal_iff a b = (
  (λ h. (node_order_iff a b).0 ((is_eq_iff (node_order a b)).0 h)),
  λ h. (is_eq_iff (node_order a b)).1 ((node_order_iff a b).1 h),
)

pub sample_laws : UaLaws sample_ua
sample_laws = record {
  node_id_equal_iff = node_id_equal_iff;
  node_id_order_iff = node_order_iff;
  expanded_order_iff = expanded_node_order_iff;
  node_id_order_flip = λ a b. compare_text-flip (node_id_parts a) (node_id_parts b);
  expanded_order_flip = expanded_node_order-flip;
  numeric_member_numeric = λ n. refl;
}
