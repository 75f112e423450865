-- ===== src/Io/RoundTrip.antt =====
-- Numbers and strings that are written are read back, at the level of the two objects.
use robotraconteur_pyodide.Prelude.{
  ℕ, ◌+◌, ◌^◌, ◌≤◌, ◌<◌, ◌≡◌, subst, List, length, length-overwrite, drop, overwrite,
  drop-overwrite, arith,
}
use robotraconteur_pyodide.Prelude.Int.{ℤ}
use robotraconteur_pyodide.Prelude.Words.{IsSigned}
use robotraconteur_pyodide.Outcome.{ok, Action}
use robotraconteur_pyodide.Io.Reader.{
  ArrayBinaryReader, read_uint_x, read_uint_x2, read_int_x, read_int_x2,
}
use robotraconteur_pyodide.Io.Writer.{
  ArrayBinaryWriter, write_uint_x, write_uint_x2, write_int_x, write_int_x2,
}
use robotraconteur_pyodide.Io.Sizes.{
  get_uint_x_byte_count, get_uint_x2_byte_count, get_int_x_byte_count, get_int_x2_byte_count,
}
use robotraconteur_pyodide.Io.Writes.{Writes, writer}
use robotraconteur_pyodide.Io.Reads.{Reads, reader}
use robotraconteur_pyodide.Io.Numbers.{
  length-uint_x, length-uint_x2, Writes-write_uint_x, Writes-write_uint_x2, Reads-read_uint_x,
  Reads-read_uint_x2,
}
use robotraconteur_pyodide.Io.Signed.{
  length-int_x, length-int_x2, Writes-write_int_x, Writes-write_int_x2, Reads-read_int_x,
  Reads-read_int_x2,
}

-- `m` succeeds and takes `count` bytes from position `p`; on the buffer it leaves, `b'`, `k` reads `a`
-- from the same position and takes as many bytes.
abbrev pub Returns :
    {A : Type 0}
    → Action ArrayBinaryWriter (Unit {0})
    → Action ArrayBinaryReader A
    → A
    → ℕ
    → List ℕ
    → ℕ
    → ℕ
    → ℕ
    → List ℕ
    → Type 0
Returns m k a count b p n l ls =
    (b' : List ℕ) × (m (writer b p n l ls) ≡ ok (tt, writer b' (p + count) n l ls))
    × (k (reader b' p n l ls) ≡ ok (a, reader b' (p + count) n l ls))

Returns-of :
    {A : Type 0} {m : Action ArrayBinaryWriter (Unit {0})} {k : Action ArrayBinaryReader A} {a : A}
    {xs : List ℕ} (count : ℕ) (b : List ℕ) (p n l : ℕ) (ls : List ℕ)
    → Writes m xs
    → Reads k xs a
    → length xs ≡ count
    → p + count ≤ l
    → l ≤ length b
    → l < 2 ^ 31
    → Returns m k a count b p n l ls
Returns-of {m} {k} {a} {xs} count b p n l ls w r size room fits small =
    subst (λ c. Returns m k a c b p n l ls) size
      (
        overwrite b p xs,
        w.apply b p n l ls (omega arith) fits small,
        r.apply (overwrite b p xs) p n l ls (drop (p + length xs) b)
            (drop-overwrite b p xs (omega arith)) (omega arith)
            (omega (arith, length-overwrite b p xs)) small,
      )

-- A uint32_t comes back from WriteUintX and ReadUintX, in as many bytes as GetUintXByteCount says, where
-- there is room for them up to a limit that is in the buffer and below 2 ^ 31.
pub read_uint_x-write_uint_x :
    (v : ℕ) (b : List ℕ) (p n l : ℕ) (ls : List ℕ)
    → v < 2 ^ 32
    → p + get_uint_x_byte_count v ≤ l
    → l ≤ length b
    → l < 2 ^ 31
    → Returns (write_uint_x v) read_uint_x v (get_uint_x_byte_count v) b p n l ls
read_uint_x-write_uint_x v b p n l ls h =
    Returns-of _ b p n l ls (Writes-write_uint_x v) (Reads-read_uint_x v h) (length-uint_x v)

-- A uint64_t comes back from WriteUintX2 and ReadUintX2, in as many bytes as GetUintX2ByteCount says, where
-- there is room for them up to a limit that is in the buffer and below 2 ^ 31.
pub read_uint_x2-write_uint_x2 :
    (v : ℕ) (b : List ℕ) (p n l : ℕ) (ls : List ℕ)
    → v < 2 ^ 64
    → p + get_uint_x2_byte_count v ≤ l
    → l ≤ length b
    → l < 2 ^ 31
    → Returns (write_uint_x2 v) read_uint_x2 v (get_uint_x2_byte_count v) b p n l ls
read_uint_x2-write_uint_x2 v b p n l ls h =
    Returns-of _ b p n l ls (Writes-write_uint_x2 v) (Reads-read_uint_x2 v h) (length-uint_x2 v)

-- An int32_t comes back from WriteIntX and ReadIntX, in as many bytes as GetIntXByteCount says, where
-- there is room for them up to a limit that is in the buffer and below 2 ^ 31.
pub read_int_x-write_int_x :
    (v : ℤ) (b : List ℕ) (p n l : ℕ) (ls : List ℕ)
    → IsSigned (2 ^ 32) v
    → p + get_int_x_byte_count v ≤ l
    → l ≤ length b
    → l < 2 ^ 31
    → Returns (write_int_x v) read_int_x v (get_int_x_byte_count v) b p n l ls
read_int_x-write_int_x v b p n l ls h =
    Returns-of _ b p n l ls (Writes-write_int_x v) (Reads-read_int_x v h) (length-int_x v)

-- An int64_t comes back from WriteIntX2 and ReadIntX2, in as many bytes as GetIntX2ByteCount says, where
-- there is room for them up to a limit that is in the buffer and below 2 ^ 31.
pub read_int_x2-write_int_x2 :
    (v : ℤ) (b : List ℕ) (p n l : ℕ) (ls : List ℕ)
    → IsSigned (2 ^ 64) v
    → p + get_int_x2_byte_count v ≤ l
    → l ≤ length b
    → l < 2 ^ 31
    → Returns (write_int_x2 v) read_int_x2 v (get_int_x2_byte_count v) b p n l ls
read_int_x2-write_int_x2 v b p n l ls h =
    Returns-of _ b p n l ls (Writes-write_int_x2 v) (Reads-read_int_x2 v h) (length-int_x2 v)
