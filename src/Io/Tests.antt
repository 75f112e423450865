-- ===== src/Io/Tests.antt =====
-- The theorems on the two objects at concrete inputs.
use robotraconteur_pyodide.Prelude.{
  ℕ, ◌≡◌, refl, ◌<◌, ◌+◌, ◌⊎◌, ◌^◌, List, [], ◌∷◌, overwrite, arith,
}
use robotraconteur_pyodide.Prelude.Int.{negsuc}
use robotraconteur_pyodide.Outcome.{ok, throw, undefined, buffer_limit_violation}
use robotraconteur_pyodide.Io.Reader.{
  back, copy_out, read, read_uint_x, read_uint_x2, read_int_x, read_int_x2,
}
use robotraconteur_pyodide.Io.Writer.{
  write_uint_x, write_uint_x2, write_int_x, write_int_x2, write_string8_with_x_len,
}
use robotraconteur_pyodide.Io.Sizes.{
  get_uint_x_byte_count, get_uint_x2_byte_count, get_int_x_byte_count, get_int_x2_byte_count,
  get_size_plus_uint_x, get_string_byte_count8_with_x_len,
}
use robotraconteur_pyodide.Io.Encoding.{string_with_x_len}
use robotraconteur_pyodide.Io.Reads.{reader}
use robotraconteur_pyodide.Io.Writes.{writer}
use robotraconteur_pyodide.Io.Safe.{IsSound}
use robotraconteur_pyodide.Io.RoundTrip.{
  Returns, read_uint_x-write_uint_x, read_uint_x2-write_uint_x2, read_int_x-write_int_x,
  read_int_x2-write_int_x2,
}
use robotraconteur_pyodide.Io.Reader.{seek, push_relative_limit, push_absolute_limit, pop_limit}
use robotraconteur_pyodide.Io.Limits.{
  seek-IsSound, pop_limit-push_relative_limit, pop_limit-push_absolute_limit,
}
use robotraconteur_pyodide.Io.Bounds.{
  Taken, read_lem, read_wraps, get_size_plus_uint_x-get_uint_x_byte_count,
  write_string8_with_x_len-count,
}

abbrev ten : List ℕ
ten = 0 ∷ 0 ∷ 0 ∷ 0 ∷ 0 ∷ 0 ∷ 0 ∷ 0 ∷ 0 ∷ 0 ∷ []

abbrev three : List ℕ
three = 7 ∷ 8 ∷ 9 ∷ []

read_uint_x-write_uint_x_example :
    Returns (write_uint_x 253) read_uint_x 253 (get_uint_x_byte_count 253) ten 1 10 10 []
unfolding get_uint_x_byte_count
read_uint_x-write_uint_x_example =
    read_uint_x-write_uint_x 253 ten 1 10 10 [] (omega arith) (omega arith) (omega arith)
      (omega arith)

read_uint_x2-write_uint_x2_example :
    Returns
      (write_uint_x2 5000000000)
      read_uint_x2
      5000000000
      (get_uint_x2_byte_count 5000000000)
      ten
      1
      10
      10
      []
unfolding get_uint_x2_byte_count
read_uint_x2-write_uint_x2_example =
    read_uint_x2-write_uint_x2 5000000000 ten 1 10 10 [] (omega arith) (omega arith) (omega arith)
      (omega arith)

read_int_x-write_int_x_example :
    Returns
      (write_int_x (negsuc 199))
      read_int_x
      (negsuc 199)
      (get_int_x_byte_count (negsuc 199))
      ten
      1
      10
      10
      []
unfolding get_int_x_byte_count
read_int_x-write_int_x_example =
    read_int_x-write_int_x (negsuc 199) ten 1 10 10 [] (ground arith) (omega arith) (omega arith)
      (omega arith)

read_int_x2-write_int_x2_example :
    Returns
      (write_int_x2 (negsuc 4999999999))
      read_int_x2
      (negsuc 4999999999)
      (get_int_x2_byte_count (negsuc 4999999999))
      ten
      1
      10
      10
      []
unfolding get_int_x2_byte_count
read_int_x2-write_int_x2_example =
    read_int_x2-write_int_x2 (negsuc 4999999999) ten 1 10 10 [] (ground arith) (omega arith)
      (omega arith) (omega arith)

three-IsSound : IsSound (reader three 1 3 2 (3 ∷ []))
three-IsSound = record {
  small = omega arith;
  placed = omega arith;
  limit = 2;
  others = 3 ∷ [];
  limited = refl;
  bounded = ground arith;
}

read_lem_example :
    Taken 1 2 (reader three 1 3 2 (3 ∷ []))
    ⊎ ((2 < 1 + 1) × (read 1 (reader three 1 3 2 (3 ∷ [])) ≡ throw buffer_limit_violation))
read_lem_example =
    read_lem 1 2 (3 ∷ []) (reader three 1 3 2 (3 ∷ [])) (omega arith) three-IsSound refl

read_run : read 1 (reader three 1 3 2 (3 ∷ [])) ≡ ok (8 ∷ [], reader three 2 3 2 (3 ∷ []))
unfolding read back copy_out
read_run = refl

read_full_run : read 2 (reader three 1 3 2 (3 ∷ [])) ≡ throw buffer_limit_violation
unfolding read back copy_out
read_full_run = refl

read_wraps_example : read 4294967295 (reader three 1 3 3 []) ≡ undefined
read_wraps_example =
    read_wraps 4294967295 three 1 3 3 [] (omega arith) (omega arith) (omega arith) (omega arith)

get_size_plus_uint_x_example : (65538 ≡ 65533 + get_uint_x_byte_count 65538) × (65538 < 2 ^ 32)
unfolding get_size_plus_uint_x
get_size_plus_uint_x_example = get_size_plus_uint_x-get_uint_x_byte_count 65533 65538 refl

write_string8_with_x_len_example :
    write_string8_with_x_len three (writer ten 2 10 10 [])
    ≡ ok (tt, writer (overwrite ten 2 (string_with_x_len three)) 6 10 10 [])
unfolding get_string_byte_count8_with_x_len get_uint_x_byte_count
write_string8_with_x_len_example =
    write_string8_with_x_len-count three 4 ten 2 10 10 [] refl (omega arith) (omega arith)
      (omega arith)

seek-IsSound_example :
    IsSound (reader three 2 3 2 (3 ∷ []))
    × ((reader three 2 3 2 (3 ∷ [])).position ≡ 2)
    × ((reader three 2 3 2 (3 ∷ [])).limits ≡ (reader three 1 3 2 (3 ∷ [])).limits)
unfolding seek
seek-IsSound_example =
    seek-IsSound 2 (reader three 1 3 2 (3 ∷ [])) (reader three 2 3 2 (3 ∷ [])) three-IsSound refl

pop_limit-push_relative_limit_example :
    IsSound (reader three 1 3 2 (2 ∷ 3 ∷ []))
    × (pop_limit (reader three 1 3 2 (2 ∷ 3 ∷ [])) ≡ ok (tt, reader three 1 3 2 (3 ∷ [])))
unfolding push_relative_limit
pop_limit-push_relative_limit_example =
    pop_limit-push_relative_limit 1 (reader three 1 3 2 (3 ∷ [])) (reader three 1 3 2 (2 ∷ 3 ∷ []))
      three-IsSound refl

pop_limit-push_absolute_limit_example :
    IsSound (reader three 1 3 2 (2 ∷ 3 ∷ []))
    × (pop_limit (reader three 1 3 2 (2 ∷ 3 ∷ [])) ≡ ok (tt, reader three 1 3 2 (3 ∷ [])))
unfolding push_absolute_limit
pop_limit-push_absolute_limit_example =
    pop_limit-push_absolute_limit 2 (reader three 1 3 2 (3 ∷ [])) (reader three 1 3 2 (2 ∷ 3 ∷ []))
      three-IsSound refl
