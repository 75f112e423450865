-- ===== src/Io/Reader.antt =====
-- ArrayBinaryReader of RobotRaconteurCore/src/IOUtils.cpp and include/RobotRaconteur/IOUtils.h.
-- The target is wasm32: a size_t is a 32-bit word, and numbers lie in memory lowest byte first, so
-- the big-endian branches (`#if BOOST_ENDIAN_BIG_BYTE`, with the field nativeorder) are not compiled.
use robotraconteur_pyodide.Prelude.{
  ℕ, ◌+◌, ◌*◌, ◌%◌, ◌^◌, List, [], ◌∷◌, ltb, leb, ◌==◌, if◌then◌else◌, length, take, drop, le_value,
}
use robotraconteur_pyodide.Prelude.Int.{ℤ, pos, sub_ℕ, leb_ℤ, eqb_ℤ, is_zero_ℤ}
use robotraconteur_pyodide.Prelude.Words.{of_word}
use robotraconteur_pyodide.Outcome.{
  Result, ok, throw, undefined, bind, Action, ◌>>=◌, ◌>>◌, return, raise, buffer_limit_violation,
  invalid_argument, bad_numeric_cast, length_error, data_type, data_serialization,
}
use robotraconteur_pyodide.Arrays.{switch, kind, element_size}

-- `a + b` and `a * b` on size_t.
abbrev pub size_add : ℕ → ℕ → ℕ
size_add a b = (a + b) % 2 ^ 32

abbrev pub size_mul : ℕ → ℕ → ℕ
size_mul a b = (a * b) % 2 ^ 32

-- boost::numeric_cast<int32_t> of a size_t.
abbrev pub numeric_cast_int32 : ℕ → Result ℕ
numeric_cast_int32 n = if ltb n (2 ^ 31) then ok n else throw bad_numeric_cast

-- `buffer` holds the bytes that may be read. The back of the vector `limits` is the head of the list.
pub record ArrayBinaryReader : Type 0 where
  pub buffer : List ℕ
  pub position : ℕ
  pub len : ℕ
  pub limits : List ℕ

unfoldable pub new_reader : List ℕ → ℕ → ℕ → ArrayBinaryReader
new_reader buffer start_position n = record {
  buffer = buffer;
  position = start_position;
  len = n;
  limits = n ∷ [];
}

-- `limits.back()` of an empty vector is undefined.
unfoldable pub back : List ℕ → Result ℕ
back [] = undefined
back (l ∷ ls) = ok l

unfoldable pub current_limit : Action ArrayBinaryReader ℕ
unfolding back
current_limit r = bind (back r.limits) (λ l. ok (l, r))

unfoldable pub seek : ℕ → Action ArrayBinaryReader (Unit {0})
unfolding back
seek p r =
    bind (back r.limits)
      λ l. if leb p l then ok (tt, record r { position = p }) else throw buffer_limit_violation

-- `memcpy` out of the buffer; past its end it is undefined.
unfoldable pub copy_out : ℕ → Action ArrayBinaryReader (List ℕ)
copy_out n r =
    if leb (r.position + n) (length r.buffer)
    then ok (take n (drop r.position r.buffer), record r { position = r.position + n })
    else undefined

-- Read returns the bytes that it copies to its destination.
unfoldable pub read : ℕ → Action ArrayBinaryReader (List ℕ)
unfolding back copy_out
read n r =
    bind (back r.limits)
      λ l. if leb (size_add r.position n) l then copy_out n r else throw buffer_limit_violation

-- ReadNumber<T> at an unsigned T of `k` bytes, and at a signed one with `m` values.
unfoldable pub read_number : ℕ → Action ArrayBinaryReader ℕ
read_number k = do out ← read k; return (le_value out)

unfoldable pub read_signed : ℕ → ℕ → Action ArrayBinaryReader ℤ
unfolding read_number
read_signed k m = do out ← read_number k; return (of_word m out)

-- ReadArray fills an array of type `t` with `n` elements; each case of the switch reads
-- `n * sizeof(T)` bytes.
unfoldable pub read_array : ℕ → ℕ → Action ArrayBinaryReader (List ℕ)
read_array t n =
    switch (kind t) (raise data_type) (read (size_mul n (element_size t))) (raise data_type)
      (raise data_type)

unfoldable pub read_uint_x : Action ArrayBinaryReader ℕ
read_uint_x = do
  a ← read_number 1
  if leb a 252
      then return a
      else if a == 253
      then read_number 2
      else if a == 254
      then read_number 4
      else raise invalid_argument

unfoldable pub read_uint_x2 : Action ArrayBinaryReader ℕ
read_uint_x2 = do
  a ← read_number 1
  if leb a 252
      then return a
      else if a == 253
      then read_number 2
      else if a == 254
      then read_number 4
      else read_number 8

unfoldable pub read_int_x : Action ArrayBinaryReader ℤ
unfolding read_signed
read_int_x = do
  a ← read_signed 1 (2 ^ 8)
  if leb_ℤ a (pos 124)
      then return a
      else if eqb_ℤ a (pos 125)
      then read_signed 2 (2 ^ 16)
      else if eqb_ℤ a (pos 126)
      then read_signed 4 (2 ^ 32)
      else raise invalid_argument

unfoldable pub read_int_x2 : Action ArrayBinaryReader ℤ
unfolding read_signed
read_int_x2 = do
  a ← read_signed 1 (2 ^ 8)
  if leb_ℤ a (pos 124)
      then return a
      else if eqb_ℤ a (pos 125)
      then read_signed 2 (2 ^ 16)
      else if eqb_ℤ a (pos 126)
      then read_signed 4 (2 ^ 32)
      else read_signed 8 (2 ^ 64)

unfoldable pub push_relative_limit : ℕ → Action ArrayBinaryReader (Unit {0})
unfolding back
push_relative_limit n r = bind (back r.limits) λ l.
    if leb (size_add r.position n) l
    then ok (tt, record r { limits = size_add r.position n ∷ r.limits })
    else throw buffer_limit_violation

unfoldable pub push_absolute_limit : ℕ → Action ArrayBinaryReader (Unit {0})
unfolding back
push_absolute_limit n r = bind (back r.limits) λ l.
    if leb n l then ok (tt, record r { limits = n ∷ r.limits }) else throw buffer_limit_violation

-- `limits.pop_back()` of an empty vector is undefined.
unfoldable pub pop_back : List ℕ → Result (List ℕ)
pop_back [] = undefined
pop_back (l ∷ ls) = ok ls

unfoldable pub pop_limit : Action ArrayBinaryReader (Unit {0})
unfolding pop_back
pop_limit r = bind (pop_back r.limits) (λ ls. ok (tt, record r { limits = ls }))

unfoldable pub distance_from_limit : Action ArrayBinaryReader ℤ
unfolding back
distance_from_limit r = bind (back r.limits) λ l.
    bind (numeric_cast_int32 l) λ l'. bind (numeric_cast_int32 r.position) λ p. ok (sub_ℕ l' p, r)

-- ReadString8 sizes its string before it reads; `max_size` is std::string::max_size().
unfoldable pub read_string8 : ℕ → ℕ → Action ArrayBinaryReader (List ℕ)
read_string8 max_size n = if leb n max_size then read n else raise length_error

-- What the Read methods of Message.cpp do around a section: PushRelativeLimit(n), the section,
-- `if (r.DistanceFromLimit()!=0) throw DataSerializationException(...)`, PopLimit().
unfoldable pub check_limit : Action ArrayBinaryReader (Unit {0})
check_limit = do
  d ← distance_from_limit
  if is_zero_ℤ d then return tt else raise data_serialization

unfoldable pub in_limit : {A : Type 0} → ℕ → Action ArrayBinaryReader A → Action ArrayBinaryReader A
in_limit n section = do push_relative_limit n; a ← section; check_limit; pop_limit; return a
