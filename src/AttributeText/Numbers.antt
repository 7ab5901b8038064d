-- ===== src/AttributeText/Numbers.antt =====
-- The text of numbers: it is read back, and it fits into its buffer.
use open62541_nodeset_export.Prelude.{
  All, Bool-cases, Text, [], ap, append-nil, arith, codes, false, if◌then◌else◌, inl, inr, length,
  ltb, pow-suc, refl, suc, sym, take, true, zero, ℕ, ◌%◌, ◌*◌, ◌++◌, ◌+◌, ◌-◌, ◌/◌, ◌<◌, ◌==◌, ◌^◌,
  ◌∙◌, ◌∷◌, ◌≡◌, ◌≢◌, ◌≤◌,
}
use open62541_nodeset_export.AttributeText.{to_chars, ua_primitives_to_xml_string, zeros}
use open62541_nodeset_export.Prelude.Int.{negsuc, pos}
use open62541_nodeset_export.Strings.{c_string, digits_from, to_string}
use open62541_nodeset_export.Ua.{
  Scalar, boolean, byte, class_value, double, enum_definition, int32, localized_text, node_id_value,
  opaque, qualified_name, scalar, structure_definition, text_value, uint32,
}
use open62541_nodeset_export.Xml.{Xml, XmlLaws}

abbrev pub IsDigit : ℕ → Type 0
IsDigit c = (b'0' ≤ c) × (c ≤ b'9')

-- The number that decimal digits after a number make.
abbrev pub value_from : ℕ → Text → ℕ
value_from n [] = n
value_from n (c ∷ cs) = value_from (n * 10 + (c - b'0')) cs

value-digits_from :
    (fuel n : ℕ) (acc : Text) → n < fuel → value_from 0 (digits_from fuel n acc) ≡ value_from n acc
unfolding digits_from
value-digits_from zero n acc h = elim h [ ]
value-digits_from (suc fuel) n acc h = elim (Bool-cases (ltb n 10)) [
  | inl e ↦ rw e (ap (λ k. value_from k acc) (omega arith))
  | inr e ↦
      let big : 10 ≤ n = ground arith in
      rw e (
        value-digits_from fuel (n / 10) ((b'0' + n % 10) ∷ acc) (omega arith)
        ∙ ap (λ k. value_from k acc) (omega arith))
]

digits_from-IsDigit :
    (fuel n : ℕ) (acc : Text) → All IsDigit acc → All IsDigit (digits_from fuel n acc)
unfolding digits_from
digits_from-IsDigit zero n acc h = h
digits_from-IsDigit (suc fuel) n acc h = elim (Bool-cases (ltb n 10)) [
  | inl e ↦ let small : n < 10 = ground arith in rw e ((omega arith, omega arith), h)
  | inr e ↦
      rw e
        (digits_from-IsDigit fuel (n / 10) ((b'0' + n % 10) ∷ acc) ((omega arith, omega arith), h))
]

tenth : (k n : ℕ) → n < 10 ^ suc (suc k) → n / 10 < 10 ^ suc k
tenth k n h = let e : 10 ^ suc (suc k) ≡ 10 ^ suc k * 10 = pow-suc 10 (suc k) in omega (arith, e, h)

-- A number below 10 ^ (k + 1) has at most k + 1 digits.
length-digits_from :
    (k fuel n : ℕ) (acc : Text)
    → n < 10 ^ suc k
    → length (digits_from fuel n acc) ≤ length acc + suc k
unfolding digits_from
length-digits_from k zero n acc h = omega arith
length-digits_from zero (suc fuel) n acc h =
    let small : ltb n 10 ≡ true = ground arith in rw small (omega arith)
length-digits_from (suc k) (suc fuel) n acc h = elim (Bool-cases (ltb n 10)) [
  | inl e ↦ rw e (omega arith)
  | inr e ↦
      let p = length-digits_from k fuel (n / 10) ((b'0' + n % 10) ∷ acc) (tenth k n h) in
      rw e (omega (arith, p))
]

pub value-to_string : (n : ℕ) → value_from 0 (to_string n) ≡ n
unfolding to_string
value-to_string n = value-digits_from (suc n) n [] (omega arith)

pub to_string-IsDigit : (n : ℕ) → All IsDigit (to_string n)
unfolding to_string
to_string-IsDigit n = digits_from-IsDigit (suc n) n [] tt

pub length-to_string : (k n : ℕ) → n < 10 ^ suc k → length (to_string n) ≤ suc k
unfolding to_string
length-to_string k n h = let p = length-digits_from k (suc n) n [] h in omega (arith, p)

-- A text without a zero byte in it.
abbrev pub IsCText : Text → Type 0
IsCText = All (λ c. c ≢ 0)

c_string-zeros : (n : ℕ) → c_string (zeros n) ≡ []
unfolding c_string
c_string-zeros zero = refl
c_string-zeros (suc n) = refl

c_string-append_zeros : (t : Text) (n : ℕ) → IsCText t → c_string (t ++ zeros n) ≡ t
unfolding c_string
c_string-append_zeros [] n h = c_string-zeros n
c_string-append_zeros (c ∷ t) n (h, hs) =
    let e : (c == 0) ≡ false = ground arith in rw (e, c_string-append_zeros t n hs)

pub c_string_whole : (t : Text) → IsCText t → c_string t ≡ t
c_string_whole t h = ap c_string (sym (append-nil t)) ∙ c_string-append_zeros t 0 h

take-all : (n : ℕ) (t : Text) → length t ≤ n → take n t ≡ t
take-all zero [] h = refl
take-all zero (c ∷ t) h = absurd (omega arith)
take-all (suc n) [] h = refl
take-all (suc n) (c ∷ t) h = ap (λ s. c ∷ s) (take-all n t (omega arith))

-- A text that is shorter than the buffer comes out whole.
pub c_string-to_chars :
    (size : ℕ) (t : Text) → IsCText t → length t < size → c_string (to_chars size t) ≡ t
unfolding to_chars
c_string-to_chars size t h fits =
    let e = take-all (size - 1) t (omega arith) in
    rw e (c_string-append_zeros t (size - length t) h)

pub IsDigit-IsCText : (t : Text) → All IsDigit t → IsCText t
IsDigit-IsCText [] h = tt
IsDigit-IsCText (c ∷ cs) (d, ds) = ((λ e. omega (arith, e, d)), IsDigit-IsCText cs ds)

-- The values whose type bounds them.
abbrev pub IsInRange : Scalar → Type 0
IsInRange (boolean b) = Unit {0}
IsInRange (byte n) = n < 2 ^ 8
IsInRange (uint32 n) = n < 2 ^ 32
IsInRange (int32 (pos n)) = n < 2 ^ 31
IsInRange (int32 (negsuc n)) = n < 2 ^ 31
IsInRange _ = ⊥

-- How a value reads in a document.
abbrev pub scalar_text : Scalar → Text
scalar_text (boolean b) = if b then codes "true" else codes "false"
scalar_text (byte n) = to_string n
scalar_text (uint32 n) = to_string n
scalar_text (int32 (pos n)) = to_string n
scalar_text (int32 (negsuc n)) = b'-' ∷ to_string (n + 1)
scalar_text _ = []

module _ {X F : Type 0} (xml : Xml X F) (laws : XmlLaws xml) where
  buffered :
      (size : ℕ) (t plain : Text)
      → t ≡ plain
      → IsCText plain
      → length plain < size
      → c_string (to_chars size t) ≡ plain
  buffered size t plain e h fits = rw e (c_string-to_chars size plain h fits)

  number :
      (size k n : ℕ) (t : Text)
      → t ≡ to_string n
      → n < 10 ^ suc k
      → suc k < size
      → c_string (to_chars size t) ≡ to_string n
  number size k n t e small room =
      buffered size t (to_string n) e (IsDigit-IsCText (to_string n) (to_string-IsDigit n))
        (let p = length-to_string k n small in omega (arith, p))

  -- The buffers of UAPrimitivesToXMLString are large enough: for a Boolean, a byte, a UInt32 and an Int32 the
  -- text that comes out, up to its first zero byte, is the word or the decimal number, and nothing is cut off.
  pub primitives-scalar_text :
      (s : Scalar)
      → IsInRange s
      → c_string (ua_primitives_to_xml_string xml (scalar s)) ≡ scalar_text s
  unfolding ua_primitives_to_xml_string
  primitives-scalar_text (boolean true) h =
      buffered 6 _ (codes "true") (laws.to_str_boolean true) (omega arith) (omega arith)
  primitives-scalar_text (boolean false) h =
      buffered 6 _ (codes "false") (laws.to_str_boolean false) (omega arith) (omega arith)
  primitives-scalar_text (byte n) h =
      number 4 2 n _ (laws.to_str_byte n) (omega arith) (omega arith)
  primitives-scalar_text (uint32 n) h =
      number 11 9 n _ (laws.to_str_uint32 n) (omega arith) (omega arith)
  primitives-scalar_text (int32 (pos n)) h =
      number 12 9 n _ (laws.to_str_int32_pos n) (omega arith) (omega arith)
  primitives-scalar_text (int32 (negsuc n)) h =
      buffered 12 _ (b'-' ∷ to_string (n + 1)) (laws.to_str_int32_negsuc n)
        ((λ e. cc), IsDigit-IsCText (to_string (n + 1)) (to_string-IsDigit (n + 1)))
        (let p = length-to_string 9 (n + 1) (omega arith) in omega (arith, p))
  primitives-scalar_text (double n) h = elim h [ ]
  primitives-scalar_text (class_value c) h = elim h [ ]
  primitives-scalar_text (text_value t) h = elim h [ ]
  primitives-scalar_text (node_id_value n) h = elim h [ ]
  primitives-scalar_text (qualified_name q) h = elim h [ ]
  primitives-scalar_text (localized_text t) h = elim h [ ]
  primitives-scalar_text (structure_definition t) h = elim h [ ]
  primitives-scalar_text (enum_definition t) h = elim h [ ]
  primitives-scalar_text (opaque n) h = elim h [ ]
