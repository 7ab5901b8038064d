-- ===== src/Xml.antt =====
-- The functions of tinyxml2 that the encoder calls, as parameters over the type of elements and of the
-- document, and over the files that a document is saved to. An element that InsertNewChildElement makes is
-- filled in through its pointer while nothing reads its parent; here it is filled in first and then placed.
use open62541_nodeset_export.Prelude.{
  Bool, List, Option, Text, [], codes, false, if◌then◌else◌, none, some, true, ℕ, ◌&&◌, ◌++◌, ◌+◌,
  ◌==◌, ◌∷◌, ◌≡◌,
}
use open62541_nodeset_export.Prelude.Int.{negsuc, pos}
use open62541_nodeset_export.Strings.{to_string}
use open62541_nodeset_export.Ua.{Scalar, boolean, byte, int32, uint32}

-- A child of an element or of the document.
pub data XmlChild (X : Type 0) : Type 0 where
  element_node : X → XmlChild X
  text_node : Text → XmlChild X
  comment_node : Text → XmlChild X
  declaration_node : Text → XmlChild X

-- `none` stands for a null pointer. `attribute`, `name` and `children` are not called by the encoder:
-- they are what a reader of the document sees.
pub record Xml (X F : Type 0) : Type 0 where
  pub new_declaration : Option Text
  pub new_element : Text → Option X
  -- InsertNewChildElement: the new child, and the parent with the child as its last one.
  pub insert_new_child_element : Text → X → Option X
  pub place : X → X → X
  pub insert_new_comment : Text → X → X
  pub insert_first_child : XmlChild X → X → Option X
  pub insert_end_child : XmlChild X → X → Option X
  -- InsertAfterChild with the first child of the parent.
  pub insert_after_first_child : X → X → X
  pub set_attribute : Text → Text → X → X
  pub set_text : Text → X → X
  pub clear : X → X
  pub print : X → Text
  pub save_file : Text → X → F → Bool × F
  -- What XMLUtil::ToStr prints.
  pub to_str : Scalar → Text
  pub name : X → Text
  pub attribute : X → Text → Option Text
  pub children : X → List (XmlChild X)

abbrev pub text_eq : Text → Text → Bool
text_eq [] [] = true
text_eq (x ∷ xs) (y ∷ ys) = (x == y) && text_eq xs ys
text_eq _ _ = false

module _ {X F : Type 0} (xml : Xml X F) where
  abbrev pub IsNew : Text → X → Type 0
  IsNew tag x = (xml.name x ≡ tag) × ((k : Text) → xml.attribute x k ≡ none) × (xml.children x ≡ [])

  -- The name and the attributes are the same.
  abbrev pub SameTag : X → X → Type 0
  SameTag x x' = (xml.name x' ≡ xml.name x) × ((k : Text) → xml.attribute x' k ≡ xml.attribute x k)

-- What the documentation of tinyxml2 says of them.
pub record XmlLaws {X F : Type 0} (xml : Xml X F) : Type 0 where
  pub new_element-IsNew : (tag : Text) (x : X) → xml.new_element tag ≡ some x → IsNew xml tag x
  pub insert_new_child_element-IsNew :
      (tag : Text) (x c : X) → xml.insert_new_child_element tag x ≡ some c → IsNew xml tag c
  pub place-SameTag : (c x : X) → SameTag xml x (xml.place c x)
  pub children-place :
      (c x : X) → xml.children (xml.place c x) ≡ xml.children x ++ (element_node c ∷ [])
  pub comment-SameTag : (t : Text) (x : X) → SameTag xml x (xml.insert_new_comment t x)
  pub children-comment :
      (t : Text) (x : X)
      → xml.children (xml.insert_new_comment t x) ≡ xml.children x ++ (comment_node t ∷ [])
  pub insert_first_child-SameTag :
      (c : XmlChild X) (x x' : X) → xml.insert_first_child c x ≡ some x' → SameTag xml x x'
  pub children-insert_first_child :
      (c : XmlChild X) (x x' : X)
      → xml.insert_first_child c x ≡ some x'
      → xml.children x' ≡ c ∷ xml.children x
  pub insert_end_child-SameTag :
      (c : XmlChild X) (x x' : X) → xml.insert_end_child c x ≡ some x' → SameTag xml x x'
  pub children-insert_end_child :
      (c : XmlChild X) (x x' : X)
      → xml.insert_end_child c x ≡ some x'
      → xml.children x' ≡ xml.children x ++ (c ∷ [])
  pub insert_after_first_child-SameTag :
      (c x : X) → SameTag xml x (xml.insert_after_first_child c x)
  pub children-insert_after_first_child :
      (c x : X) (first : XmlChild X) (rest : List (XmlChild X))
      → xml.children x ≡ first ∷ rest
      → xml.children (xml.insert_after_first_child c x) ≡ first ∷ element_node c ∷ rest
  pub attribute-set_attribute :
      (k v : Text) (x : X) (j : Text)
      → xml.attribute (xml.set_attribute k v x) j
        ≡ (if text_eq k j then some v else xml.attribute x j)
  pub name-set_attribute : (k v : Text) (x : X) → xml.name (xml.set_attribute k v x) ≡ xml.name x
  pub children-set_attribute :
      (k v : Text) (x : X) → xml.children (xml.set_attribute k v x) ≡ xml.children x
  pub set_text-SameTag : (t : Text) (x : X) → SameTag xml x (xml.set_text t x)
  pub children-set_text :
      (t : Text) (x : X) → xml.children x ≡ [] → xml.children (xml.set_text t x) ≡ text_node t ∷ []
  pub children-clear : (x : X) → xml.children (xml.clear x) ≡ []
  -- The formats of ToStr: %u, %d and the two words.
  pub to_str_boolean :
      (b : Bool) → xml.to_str (boolean b) ≡ (if b then codes "true" else codes "false")
  pub to_str_byte : (n : ℕ) → xml.to_str (byte n) ≡ to_string n
  pub to_str_uint32 : (n : ℕ) → xml.to_str (uint32 n) ≡ to_string n
  pub to_str_int32_pos : (n : ℕ) → xml.to_str (int32 (pos n)) ≡ to_string n
  pub to_str_int32_negsuc : (n : ℕ) → xml.to_str (int32 (negsuc n)) ≡ b'-' ∷ to_string (n + 1)
