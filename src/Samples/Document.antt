-- ===== src/Samples/Document.antt =====
-- A document as a tree, on which the encoder for XML can be run. Its text has no line breaks.
use open62541_nodeset_export.Prelude.{
  List, Option, Text, [], ap, codes, if◌then◌else◌, none, refl, some, subst, true, ◌++◌, ◌+◌, ◌∙◌,
  ◌∷◌, ◌≡◌,
}
use open62541_nodeset_export.Prelude.Int.{negsuc, pos}
use open62541_nodeset_export.Strings.{to_string}
use open62541_nodeset_export.Ua.{Scalar, boolean, byte, int32, uint32}
use open62541_nodeset_export.Xml.{
  IsNew, SameTag, Xml, XmlChild, XmlLaws, comment_node, declaration_node, element_node, text_eq,
  text_node,
}

mutual
  pub data Tree : Type 0 where
    tag_node : Text → List (Text × Text) → Kids → Tree

  pub data Kids : Type 0 where
    no_kids : Kids
    kid_element : Tree → Kids → Kids
    kid_text kid_comment kid_declaration : Text → Kids → Kids

abbrev kids_of : Tree → Kids
kids_of (tag_node tag attrs kids) = kids

abbrev add_kid : XmlChild Tree → Kids → Kids
add_kid (element_node x) kids = kid_element x kids
add_kid (text_node t) kids = kid_text t kids
add_kid (comment_node t) kids = kid_comment t kids
add_kid (declaration_node t) kids = kid_declaration t kids

abbrev end_kid : XmlChild Tree → Kids → Kids
end_kid c no_kids = add_kid c no_kids
end_kid c (kid_element x kids) = kid_element x (end_kid c kids)
end_kid c (kid_text t kids) = kid_text t (end_kid c kids)
end_kid c (kid_comment t kids) = kid_comment t (end_kid c kids)
end_kid c (kid_declaration t kids) = kid_declaration t (end_kid c kids)

abbrev second_kid : Tree → Kids → Kids
second_kid c no_kids = no_kids
second_kid c (kid_element x kids) = kid_element x (kid_element c kids)
second_kid c (kid_text t kids) = kid_text t (kid_element c kids)
second_kid c (kid_comment t kids) = kid_comment t (kid_element c kids)
second_kid c (kid_declaration t kids) = kid_declaration t (kid_element c kids)

abbrev list_of : Kids → List (XmlChild Tree)
list_of no_kids = []
list_of (kid_element x kids) = element_node x ∷ list_of kids
list_of (kid_text t kids) = text_node t ∷ list_of kids
list_of (kid_comment t kids) = comment_node t ∷ list_of kids
list_of (kid_declaration t kids) = declaration_node t ∷ list_of kids

abbrev with_kids : (Kids → Kids) → Tree → Tree
with_kids f (tag_node tag attrs kids) = tag_node tag attrs (f kids)

abbrev tag_name : Tree → Text
tag_name (tag_node tag attrs kids) = tag

abbrev lookup_attribute : List (Text × Text) → Text → Option Text
lookup_attribute [] j = none
lookup_attribute ((k, v) ∷ attrs) j = if text_eq k j then some v else lookup_attribute attrs j

abbrev tree_attribute : Tree → Text → Option Text
tree_attribute (tag_node tag attrs kids) = lookup_attribute attrs

abbrev put_attribute : Text → Text → Tree → Tree
put_attribute k v (tag_node tag attrs kids) = tag_node tag ((k, v) ∷ attrs) kids

abbrev printed_attributes : List (Text × Text) → Text
printed_attributes [] = []
printed_attributes ((k, v) ∷ attrs) =
    printed_attributes attrs ++ (b' ' ∷ (k ++ (b'=' ∷ b'"' ∷ (v ++ (b'"' ∷ [])))))

unfoldable mutual
  pub print_tree : Tree → Text
  print_tree (tag_node tag attrs kids) =
      (b'<' ∷ tag)
      ++ (printed_attributes attrs
          ++ ((b'>' ∷ []) ++ (print_kids kids ++ ((b'<' ∷ b'/' ∷ tag) ++ (b'>' ∷ [])))))

  pub print_kids : Kids → Text
  print_kids no_kids = []
  print_kids (kid_element x kids) = print_tree x ++ print_kids kids
  print_kids (kid_text t kids) = t ++ print_kids kids
  print_kids (kid_comment t kids) = codes "<!--" ++ (t ++ (codes "-->" ++ print_kids kids))
  print_kids (kid_declaration t kids) = codes "<?" ++ (t ++ (codes "?>" ++ print_kids kids))

abbrev print_document : Tree → Text
print_document x = print_kids (kids_of x)

abbrev format : Scalar → Text
format (boolean b) = if b then codes "true" else codes "false"
format (byte n) = to_string n
format (uint32 n) = to_string n
format (int32 (pos n)) = to_string n
format (int32 (negsuc n)) = b'-' ∷ to_string (n + 1)
format s = []

abbrev pub empty_document : Tree
empty_document = tag_node [] [] no_kids

-- The files are a list of names and texts.
abbrev pub sample_xml : Xml Tree (List (Text × Text))
sample_xml = record {
  new_declaration = some (codes "xml version=\"1.0\" encoding=\"UTF-8\"");
  new_element = λ tag. some (tag_node tag [] no_kids);
  insert_new_child_element = λ tag x. some (tag_node tag [] no_kids);
  place = λ c x. with_kids (end_kid (element_node c)) x;
  insert_new_comment = λ t x. with_kids (end_kid (comment_node t)) x;
  insert_first_child = λ c x. some (with_kids (add_kid c) x);
  insert_end_child = λ c x. some (with_kids (end_kid c) x);
  insert_after_first_child = λ c x. with_kids (second_kid c) x;
  set_attribute = put_attribute;
  set_text = λ t x. with_kids (add_kid (text_node t)) x;
  clear = λ x. empty_document;
  print = print_document;
  save_file = λ name x files. (true, files ++ ((name, print_document x) ∷ []));
  to_str = format;
  name = tag_name;
  attribute = tree_attribute;
  children = λ x. list_of (kids_of x);
}

list_of-end_kid :
    (c : XmlChild Tree) (kids : Kids) → list_of (end_kid c kids) ≡ list_of kids ++ (c ∷ [])
list_of-end_kid (element_node x) no_kids = refl
list_of-end_kid (text_node t) no_kids = refl
list_of-end_kid (comment_node t) no_kids = refl
list_of-end_kid (declaration_node t) no_kids = refl
list_of-end_kid c (kid_element x kids) = ap (λ l. element_node x ∷ l) (list_of-end_kid c kids)
list_of-end_kid c (kid_text t kids) = ap (λ l. text_node t ∷ l) (list_of-end_kid c kids)
list_of-end_kid c (kid_comment t kids) = ap (λ l. comment_node t ∷ l) (list_of-end_kid c kids)
list_of-end_kid c (kid_declaration t kids) =
    ap (λ l. declaration_node t ∷ l) (list_of-end_kid c kids)

list_of-add_kid : (c : XmlChild Tree) (kids : Kids) → list_of (add_kid c kids) ≡ c ∷ list_of kids
list_of-add_kid (element_node x) kids = refl
list_of-add_kid (text_node t) kids = refl
list_of-add_kid (comment_node t) kids = refl
list_of-add_kid (declaration_node t) kids = refl

list_of-second_kid :
    (c : Tree) (kids : Kids) (first : XmlChild Tree) (rest : List (XmlChild Tree))
    → list_of kids ≡ first ∷ rest
    → list_of (second_kid c kids) ≡ first ∷ element_node c ∷ rest
list_of-second_kid c no_kids first rest h = cc
list_of-second_kid c (kid_element x kids) first rest h = cc
list_of-second_kid c (kid_text t kids) first rest h = cc
list_of-second_kid c (kid_comment t kids) first rest h = cc
list_of-second_kid c (kid_declaration t kids) first rest h = cc

with_kids-SameTag : (f : Kids → Kids) (x : Tree) → SameTag sample_xml x (with_kids f x)
with_kids-SameTag f (tag_node tag attrs kids) = (refl, λ k. refl)

end_kid-children :
    (c : XmlChild Tree) (x : Tree)
    → list_of (kids_of (with_kids (end_kid c) x)) ≡ list_of (kids_of x) ++ (c ∷ [])
end_kid-children c (tag_node tag attrs kids) = list_of-end_kid c kids

add_kid-children :
    (c : XmlChild Tree) (x : Tree)
    → list_of (kids_of (with_kids (add_kid c) x)) ≡ c ∷ list_of (kids_of x)
add_kid-children c (tag_node tag attrs kids) = list_of-add_kid c kids

second_kid-children :
    (c x : Tree) (first : XmlChild Tree) (rest : List (XmlChild Tree))
    → list_of (kids_of x) ≡ first ∷ rest
    → list_of (kids_of (with_kids (second_kid c) x)) ≡ first ∷ element_node c ∷ rest
second_kid-children c (tag_node tag attrs kids) first rest h =
    list_of-second_kid c kids first rest h

put_attribute-attribute :
    (k v : Text) (x : Tree) (j : Text)
    → tree_attribute (put_attribute k v x) j ≡ (if text_eq k j then some v else tree_attribute x j)
put_attribute-attribute k v (tag_node tag attrs kids) j = refl

put_attribute-name : (k v : Text) (x : Tree) → tag_name (put_attribute k v x) ≡ tag_name x
put_attribute-name k v (tag_node tag attrs kids) = refl

put_attribute-children :
    (k v : Text) (x : Tree) → list_of (kids_of (put_attribute k v x)) ≡ list_of (kids_of x)
put_attribute-children k v (tag_node tag attrs kids) = refl

some_tree : (x y : Tree) → some x ≡ some y → x ≡ y
some_tree x y h = cc

IsNew-tree :
    (tag : Text) (x : Tree) → some (tag_node tag [] no_kids) ≡ some x → IsNew sample_xml tag x
IsNew-tree tag x h =
    subst (IsNew sample_xml tag) (some_tree (tag_node tag [] no_kids) x h) (refl, (λ k. refl), refl)

pub sample_xml_laws : XmlLaws sample_xml
sample_xml_laws = record {
  new_element-IsNew = IsNew-tree;
  insert_new_child_element-IsNew = λ tag x c h. IsNew-tree tag c h;
  place-SameTag = λ c x. with_kids-SameTag (end_kid (element_node c)) x;
  children-place = λ c x. end_kid-children (element_node c) x;
  comment-SameTag = λ t x. with_kids-SameTag (end_kid (comment_node t)) x;
  children-comment = λ t x. end_kid-children (comment_node t) x;
  insert_first_child-SameTag = λ c x x' h.
      subst (SameTag sample_xml x) (some_tree (with_kids (add_kid c) x) x' h)
        (with_kids-SameTag (add_kid c) x);
  children-insert_first_child = λ c x x' h.
      subst (λ y. list_of (kids_of y) ≡ c ∷ list_of (kids_of x))
        (some_tree (with_kids (add_kid c) x) x' h) (add_kid-children c x);
  insert_end_child-SameTag = λ c x x' h.
      subst (SameTag sample_xml x) (some_tree (with_kids (end_kid c) x) x' h)
        (with_kids-SameTag (end_kid c) x);
  children-insert_end_child = λ c x x' h.
      subst (λ y. list_of (kids_of y) ≡ list_of (kids_of x) ++ (c ∷ []))
        (some_tree (with_kids (end_kid c) x) x' h) (end_kid-children c x);
  insert_after_first_child-SameTag = λ c x. with_kids-SameTag (second_kid c) x;
  children-insert_after_first_child = second_kid-children;
  attribute-set_attribute = put_attribute-attribute;
  name-set_attribute = put_attribute-name;
  children-set_attribute = put_attribute-children;
  set_text-SameTag = λ t x. with_kids-SameTag (add_kid (text_node t)) x;
  children-set_text = λ t x h. add_kid-children (text_node t) x ∙ ap (λ l. text_node t ∷ l) h;
  children-clear = λ x. refl;
  to_str_boolean = λ b. refl;
  to_str_byte = λ n. refl;
  to_str_uint32 = λ n. refl;
  to_str_int32_pos = λ n. refl;
  to_str_int32_negsuc = λ n. refl;
}
