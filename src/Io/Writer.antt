-- ===== src/Io/Writer.antt =====
-- ArrayBinaryWriter of RobotRaconteurCore/src/IOUtils.cpp and include/RobotRaconteur/IOUtils.h, for
-- the same target as the reader.
use robotraconteur_pyodide.Prelude.{
  ℕ, ◌+◌, ◌-◌, ◌^◌, ◌&&◌, List, [], ◌∷◌, leb, if◌then◌else◌, length, take, overwrite, le_bytes,
}
use robotraconteur_pyodide.Prelude.Int.{ℤ, pos, sub_ℕ, is_zero_ℤ}
use robotraconteur_pyodide.Prelude.Words.{to_word}
use robotraconteur_pyodide.Outcome.{
  ok, throw, undefined, bind, Action, ◌>>=◌, ◌>>◌, return, raise, buffer_limit_violation, data_type,
  data_serialization,
}
use robotraconteur_pyodide.Arrays.{switch, RrBaseArray, kind, element_size}
use robotraconteur_pyodide.Io.Reader.{size_add, size_mul, numeric_cast_int32, back, pop_back}
use robotraconteur_pyodide.Io.Sizes.{in_range}

-- `buffer` holds the bytes that may be written. The back of `limits` is the head of the list.
pub record ArrayBinaryWriter : Type 0 where
  pub buffer : List ℕ
  pub position : ℕ
  pub len : ℕ
  pub limits : List ℕ

unfoldable pub new_writer : List ℕ → ℕ → ℕ → ArrayBinaryWriter
new_writer buffer start_position n = record {
  buffer = buffer;
  position = start_position;
  len = n;
  limits = n ∷ [];
}

unfoldable pub seek : ℕ → Action ArrayBinaryWriter (Unit {0})
unfolding back
seek p w =
    bind (back w.limits)
      λ l. if leb p l then ok (tt, record w { position = p }) else throw buffer_limit_violation

-- `memcpy` of the first `n` bytes of `src` into the buffer; past the end of either it is undefined.
unfoldable pub copy_in : List ℕ → ℕ → Action ArrayBinaryWriter (Unit {0})
copy_in src n w =
    if leb (w.position + n) (length w.buffer) && leb n (length src)
    then ok (
      tt,
      record w { buffer = overwrite w.buffer w.position (take n src); position = w.position + n },
    )
    else undefined

unfoldable pub write : List ℕ → ℕ → Action ArrayBinaryWriter (Unit {0})
unfolding back
write src n w =
    bind (back w.limits)
      λ l. if leb (size_add w.position n) l then copy_in src n w else throw buffer_limit_violation

-- WriteNumber<T> at an unsigned T of `k` bytes, and at a signed one with `m` values.
unfoldable pub write_number : ℕ → ℕ → Action ArrayBinaryWriter (Unit {0})
write_number k v = write (le_bytes k v) k

unfoldable pub write_signed : ℕ → ℕ → ℤ → Action ArrayBinaryWriter (Unit {0})
write_signed k m v = write_number k (to_word m v)

-- Each case of the switch of WriteArray writes `len * sizeof(T)` bytes.
unfoldable pub write_array : RrBaseArray → Action ArrayBinaryWriter (Unit {0})
write_array arr =
    switch (kind arr.type_id) (raise data_type)
      (write arr.contents (size_mul arr.size (element_size arr.type_id))) (raise data_type)
      (raise data_type)

unfoldable pub write_string8 : List ℕ → Action ArrayBinaryWriter (Unit {0})
write_string8 s = write s (length s)

unfoldable pub write_uint_x : ℕ → Action ArrayBinaryWriter (Unit {0})
write_uint_x v =
    if leb v 252
    then write_number 1 v
    else if leb v (2 ^ 16 - 1)
    then (write_number 1 253 >> write_number 2 v)
    else (write_number 1 254 >> write_number 4 v)

unfoldable pub write_uint_x2 : ℕ → Action ArrayBinaryWriter (Unit {0})
write_uint_x2 v =
    if leb v (2 ^ 32 - 1) then write_uint_x v else (write_number 1 255 >> write_number 8 v)

unfoldable pub write_int_x : ℤ → Action ArrayBinaryWriter (Unit {0})
write_int_x v =
    if in_range 127 124 v
    then write_signed 1 (2 ^ 8) v
    else if in_range (2 ^ 15 - 1) (2 ^ 15 - 1) v
    then (write_signed 1 (2 ^ 8) (pos 125) >> write_signed 2 (2 ^ 16) v)
    else (write_signed 1 (2 ^ 8) (pos 126) >> write_signed 4 (2 ^ 32) v)

unfoldable pub write_int_x2 : ℤ → Action ArrayBinaryWriter (Unit {0})
write_int_x2 v =
    if in_range (2 ^ 31 - 1) (2 ^ 31 - 1) v
    then write_int_x v
    else (write_signed 1 (2 ^ 8) (pos 127) >> write_signed 8 (2 ^ 64) v)

-- A size_t is a uint32_t here, so the numeric_cast keeps its value.
unfoldable pub write_string8_with_x_len : List ℕ → Action ArrayBinaryWriter (Unit {0})
write_string8_with_x_len s = do write_uint_x (length s); write s (length s)

unfoldable pub push_relative_limit : ℕ → Action ArrayBinaryWriter (Unit {0})
unfolding back
push_relative_limit n w = bind (back w.limits) λ l.
    if leb (size_add w.position n) l
    then ok (tt, record w { limits = size_add w.position n ∷ w.limits })
    else throw buffer_limit_violation

unfoldable pub push_absolute_limit : ℕ → Action ArrayBinaryWriter (Unit {0})
unfolding back
push_absolute_limit n w = bind (back w.limits) λ l.
    if leb n l then ok (tt, record w { limits = n ∷ w.limits }) else throw buffer_limit_violation

unfoldable pub pop_limit : Action ArrayBinaryWriter (Unit {0})
unfolding pop_back
pop_limit w = bind (pop_back w.limits) (λ ls. ok (tt, record w { limits = ls }))

unfoldable pub distance_from_limit : Action ArrayBinaryWriter ℤ
unfolding back
distance_from_limit w = bind (back w.limits) λ l.
    bind (numeric_cast_int32 l) λ l'. bind (numeric_cast_int32 w.position) λ p. ok (sub_ℕ l' p, w)

-- What the Write methods of Message.cpp do around a section: PushRelativeLimit(n), the section,
-- `if (w.DistanceFromLimit()!=0) throw DataSerializationException(...)`, PopLimit().
unfoldable pub check_limit : Action ArrayBinaryWriter (Unit {0})
check_limit = do
  d ← distance_from_limit
  if is_zero_ℤ d then return tt else raise data_serialization

unfoldable pub in_limit :
    ℕ → Action ArrayBinaryWriter (Unit {0}) → Action ArrayBinaryWriter (Unit {0})
in_limit n section = do push_relative_limit n; section; check_limit; pop_limit
