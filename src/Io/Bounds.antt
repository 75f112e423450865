-- ===== src/Io/Bounds.antt =====
-- The bounds test of Read, and the sizes that count their own encoding, in IOUtils.cpp.
use robotraconteur_pyodide.Prelude.{
  ℕ, ◌+◌, ◌^◌, ◌≤◌, ◌<◌, ◌≡◌, refl, ap, ◌∙◌, subst, sym, List, ◌∷◌, ◌++◌, ◌⊎◌, inl, inr, All,
  length, take, drop, take-drop, length-take, length-drop, overwrite, arith, lt→leb, le→leb,
}
use native.Mathlib.Decide.{dec_le}
use robotraconteur_pyodide.Outcome.{ok, throw, undefined, buffer_limit_violation}
use robotraconteur_pyodide.Io.Reader.{ArrayBinaryReader, size_add, back, copy_out, read}
use robotraconteur_pyodide.Io.Writer.{write_string8_with_x_len}
use robotraconteur_pyodide.Io.Sizes.{
  get_uint_x_byte_count, get_size_plus_uint_x, get_string_byte_count8_with_x_len,
}
use robotraconteur_pyodide.Io.Encoding.{string_with_x_len}
use robotraconteur_pyodide.Io.Writes.{writer}
use robotraconteur_pyodide.Io.Reads.{reader}
use robotraconteur_pyodide.Io.Numbers.{
  length-uint_x, get_size_plus_uint_x_lem, get_string_byte_count8_with_x_len_lem,
  Writes-write_string8_with_x_len,
}
use robotraconteur_pyodide.Io.Safe.{IsSound}

-- What Read of `k` bytes gives where they are left before the limit `l`: the buffer is what was read
-- before, those bytes and a rest; they are returned, and only the place moves, to behind them.
pub record Taken (k l : ℕ) (r : ArrayBinaryReader) : Type 0 where
  pub fits : r.position + k ≤ l
  pub before : List ℕ
  pub bytes : List ℕ
  pub rest : List ℕ
  pub split : r.buffer ≡ before ++ (bytes ++ rest)
  pub place : length before ≡ r.position
  pub count : length bytes ≡ k
  pub result : read k r ≡ ok (bytes, record r { position = r.position + k })

-- Read of fewer than 2 ^ 31 bytes, by a reader whose place and limits lie in its buffer, whose innermost
-- limit is `l`: where the bytes fit before the limit it returns exactly the next bytes of the buffer and
-- moves on by their number, with the buffer and the limits as they were; where they do not fit it throws
-- BufferLimitViolationException.
pub read_lem :
    (k l : ℕ) (ls : List ℕ) (r : ArrayBinaryReader)
    → k < 2 ^ 31
    → IsSound r
    → r.limits ≡ l ∷ ls
    → Taken k l r ⊎ ((l < r.position + k) × (read k r ≡ throw buffer_limit_violation))
unfolding read back copy_out
read_lem k l ls r small v limited =
    let inside : l ≤ length r.buffer =
      (subst (All (λ q. q ≤ length r.buffer)) limited v.bounded).0 in
    let sum : r.position + k < 2 ^ 32 = omega (arith, v.small, v.placed) in
    let same : size_add r.position k ≡ r.position + k = omega arith in
    elim (dec_le (r.position + k) l) [
      | yes fits ↦ inl (record {
        fits = fits;
        before = take r.position r.buffer;
        bytes = take k (drop r.position r.buffer);
        rest = drop k (drop r.position r.buffer);
        split =
            sym (take-drop r.position r.buffer)
            ∙ ap (◌++◌ (take r.position r.buffer)) (sym (take-drop k (drop r.position r.buffer)));
        place = length-take r.position r.buffer v.placed;
        count =
            length-take k (drop r.position r.buffer)
              (omega (arith, length-drop r.position r.buffer));
        result =
            rw
              (
                limited,
                same,
                le→leb (r.position + k) l fits,
                le→leb (r.position + k) (length r.buffer) (omega arith),
              )
              refl;
      })
      | no past ↦
          inr (omega arith, rw (limited, same, lt→leb (r.position + k) l (omega arith)) refl)
    ]

-- The bounds test of Read adds on size_t: a length that carries the sum past 2 ^ 32, to a value that is
-- within the limit, passes it, and the copy is out of the buffer.
pub read_wraps :
    (k : ℕ) (b : List ℕ) (p n l : ℕ) (ls : List ℕ)
    → length b < p + k
    → 2 ^ 32 ≤ p + k
    → p + k ≤ 2 ^ 32 + l
    → l < 2 ^ 32
    → read k (reader b p n l ls) ≡ undefined
unfolding read back copy_out
read_wraps k b p n l ls past wrap low small =
    rw (le→leb (size_add p k) l (omega arith), lt→leb (p + k) (length b) past)

-- What GetSizePlusUintX returns for a size, when it does not throw, is the size plus the bytes that
-- WriteUintX takes for the result itself, and it is a uint32_t.
pub get_size_plus_uint_x-get_uint_x_byte_count :
    (s t : ℕ) → get_size_plus_uint_x s ≡ ok t → (t ≡ s + get_uint_x_byte_count t) × (t < 2 ^ 32)
get_size_plus_uint_x-get_uint_x_byte_count s t h =
    let (exact, small) = get_size_plus_uint_x_lem s h in (omega (arith, length-uint_x t), small)

-- Where GetStringByteCount8WithXLen gives a count and there is room for it, WriteString8WithXLen
-- succeeds, takes exactly that count, and leaves the length prefix and the string in the buffer; the
-- limit is in the buffer and below 2 ^ 31.
pub write_string8_with_x_len-count :
    (s : List ℕ) (n : ℕ) (b : List ℕ) (p size l : ℕ) (ls : List ℕ)
    → get_string_byte_count8_with_x_len s ≡ ok n
    → p + n ≤ l
    → l ≤ length b
    → l < 2 ^ 31
    → write_string8_with_x_len s (writer b p size l ls)
      ≡ ok (tt, writer (overwrite b p (string_with_x_len s)) (p + n) size l ls)
write_string8_with_x_len-count s n b p size l ls h room fits small =
    let (exact, below) = get_string_byte_count8_with_x_len_lem s h in
    subst
      (λ k.
        write_string8_with_x_len s (writer b p size l ls)
        ≡ ok (tt, writer (overwrite b p (string_with_x_len s)) (p + k) size l ls))
      (sym exact) ((Writes-write_string8_with_x_len s).apply b p size l ls (omega arith) fits small)
