-- ===== src/Strings.antt =====
-- src/nodesetexporter/common/Strings.cpp and common/Strings.h, with the hexadecimal GUID printer that is
-- compiled for open62541 1.3, and the parts of std::string that the exporter uses.
use open62541_nodeset_export.Prelude.{
  List, Text, [], drop, if◌then◌else◌, ltb, suc, take, zero, ℕ, ◌%◌, ◌++◌, ◌+◌, ◌-◌, ◌/◌, ◌==◌, ◌^◌,
  ◌∷◌,
}
use open62541_nodeset_export.Ua.{Guid, NodeId, byte_string, guid, numeric, string}

-- The bytes before the first zero byte: what a char pointer passes on.
unfoldable pub c_string : Text → Text
c_string [] = []
c_string (c ∷ cs) = let rest = c_string cs in if c == 0 then [] else c ∷ rest

unfoldable pub digits_from : ℕ → ℕ → Text → Text
digits_from zero n acc = acc
digits_from (suc fuel) n acc =
    let rest = digits_from fuel (n / 10) ((b'0' + n % 10) ∷ acc) in
    if ltb n 10 then (b'0' + n) ∷ acc else rest

-- std::to_string of an unsigned number. A number has fewer decimal digits than its value plus one.
unfoldable pub to_string : ℕ → Text
unfolding digits_from
to_string n = digits_from (suc n) n []

-- hexmapLower, by the value of the nibble.
abbrev pub hex_digit : ℕ → ℕ
hex_digit d = if ltb d 10 then b'0' + d else b'a' + (d - 10)

-- The loops of UA_Guid_to_hex over one field: `count` nibbles, the most significant first.
unfoldable pub hex_field : ℕ → ℕ → Text
hex_field zero x = []
hex_field (suc count) x = hex_digit (x / 16 ^ count % 16) ∷ hex_field count x

-- The loop over bytes of data4, two nibbles for each.
unfoldable pub hex_bytes : List ℕ → Text
hex_bytes [] = []
hex_bytes (x ∷ xs) = hex_digit (x % 256 / 16) ∷ hex_digit (x % 16) ∷ hex_bytes xs

unfoldable pub guid_to_hex : Guid → Text
unfolding hex_field hex_bytes
guid_to_hex g =
    hex_field 8 g.data1
    ++ (b'-'
        ∷ (hex_field 4 g.data2
            ++ (b'-'
                ∷ (hex_field 4 g.data3
                    ++ (b'-'
                        ∷ (hex_bytes (take 2 g.data4)
                            ++ (b'-' ∷ hex_bytes (take 6 (drop 2 g.data4)))))))))

unfoldable pub ua_guid_identifier_to_std_string : NodeId → Text
ua_guid_identifier_to_std_string n = elim n.identifier [
  | numeric i ↦ to_string i
  | string s ↦ s
  | guid g ↦ guid_to_hex g
  | byte_string s ↦ s
]
