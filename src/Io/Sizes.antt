-- ===== src/Io/Sizes.antt =====
-- The byte counts of ArrayBinaryWriter in RobotRaconteurCore/src/IOUtils.cpp. A string is its bytes;
-- sizes are below 2 ^ 32.
use robotraconteur_pyodide.Prelude.{
  ℕ, ◌+◌, ◌-◌, ◌^◌, ◌&&◌, Bool, List, ltb, leb, if◌then◌else◌, length,
}
use robotraconteur_pyodide.Prelude.Int.{ℤ, pos, negsuc, leb_ℤ}
use robotraconteur_pyodide.Outcome.{Result, ok, throw, invalid_argument, buffer_limit_violation}
use robotraconteur_pyodide.Io.Reader.{size_add}

unfoldable pub get_uint_x_byte_count : ℕ → ℕ
get_uint_x_byte_count v = if leb v 252 then 1 else if leb v (2 ^ 16 - 1) then 3 else 5

unfoldable pub get_uint_x2_byte_count : ℕ → ℕ
get_uint_x2_byte_count v =
    if leb v 252 then 1 else if leb v (2 ^ 16 - 1) then 3 else if leb v (2 ^ 32 - 1) then 5 else 9

-- `v >= numeric_limits<intN_t>::min() && v <= hi`, where the minimum is -(n + 1).
abbrev pub in_range : ℕ → ℕ → ℤ → Bool
in_range n hi v = leb_ℤ (negsuc n) v && leb_ℤ v (pos hi)

unfoldable pub get_int_x_byte_count : ℤ → ℕ
get_int_x_byte_count v =
    if in_range 127 124 v then 1 else if in_range (2 ^ 15 - 1) (2 ^ 15 - 1) v then 3 else 5

unfoldable pub get_int_x2_byte_count : ℤ → ℕ
get_int_x2_byte_count v =
    if in_range 127 124 v
    then 1
    else if in_range (2 ^ 15 - 1) (2 ^ 15 - 1) v
    then 3
    else if in_range (2 ^ 31 - 1) (2 ^ 31 - 1) v
    then 5
    else 9

unfoldable pub get_string_byte_count8 : List ℕ → ℕ
get_string_byte_count8 s = length s

unfoldable pub get_string_byte_count8_with_x_len : List ℕ → Result ℕ
get_string_byte_count8_with_x_len s =
    if leb (2 ^ 32 - 1 - 5) (length s)
    then throw invalid_argument
    else ok (size_add (length s) (get_uint_x_byte_count (length s)))

unfoldable pub get_size_plus_uint_x : ℕ → Result ℕ
get_size_plus_uint_x s =
    if leb s 251
    then ok (s + 1)
    else if leb s (2 ^ 16 - 1 - 3)
    then ok (s + 3)
    else if ltb (2 ^ 32 - 1 - 5) s
    then throw buffer_limit_violation
    else ok (s + 5)
