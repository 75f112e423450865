-- ===== src/NodeId/Text.antt =====
-- NodeID of RobotRaconteurCore/src/NodeID.cpp: a NodeID is its 16 bytes, a string its bytes. `uuid_text`
-- is boost::lexical_cast of a UUID to a string.
use robotraconteur_pyodide.Prelude.{
  ℕ, zero, suc, ◌+◌, ◌-◌, ◌*◌, ◌%◌, Bool, true, false, ◌&&◌, ◌||◌, List, [], ◌∷◌, ◌++◌, Option,
  none, some, leb, ◌==◌, if◌then◌else◌,
}
use mathlib.Core.Option
use robotraconteur_pyodide.Outcome.{Result, ok, throw, invalid_argument}
use robotraconteur_pyodide.Message.Data.{nil_id}
use robotraconteur_pyodide.Message.V2.Read.{eq_bytes}

-- `id.find(":") != id.npos`.
unfoldable pub contains : ℕ → List ℕ → Bool
contains c [] = false
contains c (x ∷ xs) = (x == c) || contains c xs

-- boost::trim_copy: the characters of isspace, at both ends.
abbrev pub is_space : ℕ → Bool
is_space c = (c == 32) || (leb 9 c && leb c 13)

unfoldable pub trim_left : List ℕ → List ℕ
trim_left [] = []
trim_left (x ∷ xs) = let rest = trim_left xs in if is_space x then rest else x ∷ xs

abbrev pub cons_unless_space : ℕ → List ℕ → List ℕ
cons_unless_space x [] = if is_space x then [] else x ∷ []
cons_unless_space x (y ∷ ys) = x ∷ y ∷ ys

unfoldable pub trim_right : List ℕ → List ℕ
trim_right [] = []
trim_right (x ∷ xs) = cons_unless_space x (trim_right xs)

-- [a-fA-F0-9]
abbrev pub is_hex : ℕ → Bool
is_hex c = (leb 48 c && leb c 57) || ((leb 65 c && leb c 70) || (leb 97 c && leb c 102))

-- The number of a digit, as `ss << std::hex` reads it.
abbrev pub hex_value : ℕ → ℕ
hex_value c = if leb c 57 then c - 48 else if leb c 70 then c - 55 else c - 87

-- `n` digits, and what follows them.
unfoldable pub take_hex : ℕ → List ℕ → Option (List ℕ × List ℕ)
take_hex zero xs = some ([], xs)
take_hex (suc n) [] = none
take_hex (suc n) (x ∷ xs) =
    if is_hex x then Option.map (λ p. (x ∷ p.0, p.1)) (take_hex n xs) else none

-- A character that may be there.
unfoldable pub skip : ℕ → List ℕ → List ℕ
skip c [] = []
skip c (x ∷ xs) = if x == c then xs else x ∷ xs

abbrev pub and_then :
    Option (List ℕ × List ℕ) → (List ℕ → Option (List ℕ × List ℕ)) → Option (List ℕ × List ℕ)
and_then none f = none
and_then (some (xs, rest)) f = Option.map (λ p. (xs ++ p.0, p.1)) (f rest)

abbrev pub only_end : Option (List ℕ × List ℕ) → Option (List ℕ)
only_end none = none
only_end (some (xs, [])) = some xs
only_end (some (xs, y ∷ ys)) = none

-- The regular expression: five groups of digits, a hyphen or none between them, and braces or none. The
-- digits of all groups.
unfoldable pub match_digits : List ℕ → Option (List ℕ)
unfolding take_hex skip
match_digits s = only_end (
    Option.map (λ p. (p.0, skip b'}' p.1))
      (and_then (take_hex 8 (skip b'{' s)) λ s1. and_then (take_hex 4 (skip b'-' s1)) λ s2.
        and_then (take_hex 4 (skip b'-' s2))
          λ s3. and_then (take_hex 4 (skip b'-' s3)) λ s4. take_hex 12 (skip b'-' s4)))

-- Two digits to a byte.
unfoldable pub bytes_of : List ℕ → List ℕ
bytes_of [] = []
bytes_of (h ∷ []) = []
bytes_of (h ∷ l ∷ rest) = (hex_value h * 16 + hex_value l) % 256 ∷ bytes_of rest

abbrev pub digits_or_throw : Option (List ℕ) → Result (List ℕ)
digits_or_throw none = throw invalid_argument
digits_or_throw (some digits) = ok (bytes_of digits)

-- init_from_string.
unfoldable pub init_from_string : List ℕ → Result (List ℕ)
unfolding contains trim_left trim_right eq_bytes match_digits
init_from_string s =
    if contains b':' s
    then throw invalid_argument
    else if eq_bytes (trim_right (trim_left s)) (b'{' ∷ b'0' ∷ b'}' ∷ [])
    then ok nil_id
    else digits_or_throw (match_digits s)

-- boost::replace_all_copy(s, "-", "").
unfoldable pub without_hyphens : List ℕ → List ℕ
without_hyphens [] = []
without_hyphens (x ∷ xs) = let rest = without_hyphens xs in if x == b'-' then rest else x ∷ rest

-- ToString(format), and ToString() where the format is B.
unfoldable pub to_string : (List ℕ → List ℕ) → List ℕ → List ℕ → Result (List ℕ)
unfolding without_hyphens eq_bytes
to_string uuid_text format id =
    if eq_bytes format (b'B' ∷ [])
    then ok (b'{' ∷ (uuid_text id ++ (b'}' ∷ [])))
    else if eq_bytes format (b'D' ∷ [])
    then ok (uuid_text id)
    else if eq_bytes format (b'N' ∷ [])
    then ok (without_hyphens (uuid_text id))
    else throw invalid_argument

-- IsAnyNode, and GetHashCode: the sum of the bytes, which fits an int.
unfoldable pub is_any_node : List ℕ → Bool
is_any_node [] = true
is_any_node (b ∷ bs) = (b == 0) && is_any_node bs

unfoldable pub get_hash_code : List ℕ → ℕ
get_hash_code [] = 0
get_hash_code (b ∷ bs) = b + get_hash_code bs
