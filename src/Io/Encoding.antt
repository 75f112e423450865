-- ===== src/Io/Encoding.antt =====
-- The encodings of numbers and strings, stated apart from the code that writes and reads them.
use robotraconteur_pyodide.Prelude.{
  ℕ, ◌-◌, ◌^◌, List, ◌∷◌, ◌++◌, ltb, if◌then◌else◌, length, le_bytes,
}
use robotraconteur_pyodide.Prelude.Int.{ℤ}
use robotraconteur_pyodide.Prelude.Words.{to_word}
use robotraconteur_pyodide.Io.Sizes.{in_range}

-- One byte up to 252; then 253 and two bytes, or 254 and four.
unfoldable pub uint_x : ℕ → List ℕ
uint_x v =
    if ltb v 253
    then le_bytes 1 v
    else if ltb v (2 ^ 16)
    then 253 ∷ le_bytes 2 v
    else 254 ∷ le_bytes 4 v

-- The same with 255 and eight bytes.
unfoldable pub uint_x2 : ℕ → List ℕ
unfolding uint_x
uint_x2 v = if ltb v (2 ^ 32) then uint_x v else 255 ∷ le_bytes 8 v

-- One byte from -128 to 124; then 125 and two bytes, or 126 and four.
unfoldable pub int_x : ℤ → List ℕ
int_x v =
    if in_range 127 124 v
    then le_bytes 1 (to_word (2 ^ 8) v)
    else if in_range (2 ^ 15 - 1) (2 ^ 15 - 1) v
    then 125 ∷ le_bytes 2 (to_word (2 ^ 16) v)
    else 126 ∷ le_bytes 4 (to_word (2 ^ 32) v)

unfoldable pub int_x2 : ℤ → List ℕ
unfolding int_x
int_x2 v =
    if in_range (2 ^ 31 - 1) (2 ^ 31 - 1) v then int_x v else 127 ∷ le_bytes 8 (to_word (2 ^ 64) v)

unfoldable pub string_with_x_len : List ℕ → List ℕ
string_with_x_len s = uint_x (length s) ++ s
