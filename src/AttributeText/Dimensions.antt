-- ===== src/AttributeText/Dimensions.antt =====
-- The text of array dimensions is read back.
use open62541_nodeset_export.Prelude.{
  All, All-append, List, Text, [], ap, append_assoc, arith, false, if◌then◌else◌, refl, sym, ℕ, ◌*◌,
  ◌++◌, ◌+◌, ◌-◌, ◌==◌, ◌∙◌, ◌∷◌, ◌≡◌, ◌≢◌,
}
use open62541_nodeset_export.AttributeText.{
  append_dimensions, erase_last, ua_array_dimension_to_xml_string,
}
use open62541_nodeset_export.AttributeText.Numbers.{
  IsCText, IsDigit, IsDigit-IsCText, c_string_whole, to_string-IsDigit, value-to_string, value_from,
}
use open62541_nodeset_export.Strings.{c_string, to_string}
use open62541_nodeset_export.Ua.{uint32_array}

-- A reader of numbers with commas between them.
abbrev pub read_numbers : ℕ → Text → List ℕ
read_numbers n [] = n ∷ []
read_numbers n (c ∷ cs) =
    if c == b',' then n ∷ read_numbers 0 cs else read_numbers (n * 10 + (c - b'0')) cs

-- The numbers with commas between them.
abbrev pub joined : ℕ → List ℕ → Text
joined n [] = to_string n
joined n (m ∷ ns) = to_string n ++ (b',' ∷ joined m ns)

append_dimensions-joined :
    (result : Text) (n : ℕ) (ns : List ℕ)
    → append_dimensions result (n ∷ ns) ≡ (result ++ joined n ns) ++ (b',' ∷ [])
unfolding append_dimensions
append_dimensions-joined result n [] = sym (append_assoc result (to_string n) (b',' ∷ []))
append_dimensions-joined result n (m ∷ ns) =
    append_dimensions-joined (result ++ (to_string n ++ (b',' ∷ []))) m ns
    ∙ ap (λ t. t ++ (b',' ∷ []))
        (append_assoc result (to_string n ++ (b',' ∷ [])) (joined m ns)
          ∙ ap (λ t. result ++ t) (append_assoc (to_string n) (b',' ∷ []) (joined m ns)))

erase_last-append : (t : Text) (c : ℕ) → erase_last (t ++ (c ∷ [])) ≡ t
erase_last-append [] c = refl
erase_last-append (a ∷ []) c = refl
erase_last-append (a ∷ b ∷ t) c = ap (λ s. a ∷ s) (erase_last-append (b ∷ t) c)

dimensions-joined :
    (n : ℕ) (ns : List ℕ) → ua_array_dimension_to_xml_string (uint32_array (n ∷ ns)) ≡ joined n ns
unfolding ua_array_dimension_to_xml_string
dimensions-joined n ns =
    ap erase_last (append_dimensions-joined [] n ns) ∙ erase_last-append (joined n ns) b','

IsDigit-no_comma : (c : ℕ) → IsDigit c → (c == b',') ≡ false
IsDigit-no_comma c (low, high) = ground arith

read_numbers-digits :
    (k : ℕ) (digits : Text) → All IsDigit digits → read_numbers k digits ≡ value_from k digits ∷ []
read_numbers-digits k [] h = refl
read_numbers-digits k (c ∷ cs) (d, ds) =
    rw (IsDigit-no_comma c d) (read_numbers-digits (k * 10 + (c - b'0')) cs ds)

read_numbers-comma :
    (k : ℕ) (digits rest : Text)
    → All IsDigit digits
    → read_numbers k (digits ++ (b',' ∷ rest)) ≡ value_from k digits ∷ read_numbers 0 rest
read_numbers-comma k [] rest h = refl
read_numbers-comma k (c ∷ cs) rest (d, ds) =
    rw (IsDigit-no_comma c d) (read_numbers-comma (k * 10 + (c - b'0')) cs rest ds)

read_numbers-joined : (n : ℕ) (ns : List ℕ) → read_numbers 0 (joined n ns) ≡ n ∷ ns
read_numbers-joined n [] =
    read_numbers-digits 0 (to_string n) (to_string-IsDigit n) ∙ ap (λ k. k ∷ []) (value-to_string n)
read_numbers-joined n (m ∷ ns) =
    read_numbers-comma 0 (to_string n) (joined m ns) (to_string-IsDigit n) ∙ λ i.
    value-to_string n i ∷ read_numbers-joined m ns i

joined-IsCText : (n : ℕ) (ns : List ℕ) → IsCText (joined n ns)
joined-IsCText n [] = IsDigit-IsCText (to_string n) (to_string-IsDigit n)
joined-IsCText n (m ∷ ns) =
    All-append (λ c. c ≢ 0) (to_string n) (b',' ∷ joined m ns)
      (IsDigit-IsCText (to_string n) (to_string-IsDigit n)) ((λ e. cc), joined-IsCText m ns)

-- The text that UAArrayDimensionToXMLString makes of one dimension or more, as it is passed on through a
-- char pointer, is read back as the same numbers in the same order: they are in decimal, with a comma between
-- any two and none at the end.
pub read_numbers-dimensions :
    (n : ℕ) (ns : List ℕ)
    → read_numbers 0 (c_string (ua_array_dimension_to_xml_string (uint32_array (n ∷ ns)))) ≡ n ∷ ns
read_numbers-dimensions n ns =
    ap (λ t. read_numbers 0 (c_string t)) (dimensions-joined n ns)
    ∙ ap (read_numbers 0) (c_string_whole (joined n ns) (joined-IsCText n ns))
    ∙ read_numbers-joined n ns
