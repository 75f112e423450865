-- ===== src/Io/Signed.antt =====
-- The signed variable-length integers: what is written is their encoding, it has the size that the
-- byte counts give, and it is read back.

use robotraconteur_pyodide.Prelude.{
  ℕ, ◌-◌, ◌^◌, ◌<◌, ◌≡◌, [], ◌∷◌, append-nil, Bool-cases, true, inl, inr, length, le_bytes,
  le_value, arith,
}
use robotraconteur_pyodide.Prelude.Int.{ℤ, pos, leb_ℤ}
use robotraconteur_pyodide.Prelude.Words.{to_word, of_word, IsSigned}
use robotraconteur_pyodide.Io.Reader.{read_signed, read_int_x, read_int_x2}
use robotraconteur_pyodide.Io.Sizes.{in_range, get_int_x_byte_count, get_int_x2_byte_count}
use robotraconteur_pyodide.Io.Writer.{write_signed, write_int_x, write_int_x2}
use robotraconteur_pyodide.Io.Encoding.{int_x, int_x2}
use robotraconteur_pyodide.Io.Writes.{Writes, Writes->>, Writes-write_number}
use robotraconteur_pyodide.Io.Reads.{Reads, Reads->>=, Reads-return, Reads-read_number, Reads-cast}

-- The byte counts are the sizes of the encodings.
pub length-int_x : (v : ℤ) → length (int_x v) ≡ get_int_x_byte_count v
unfolding int_x get_int_x_byte_count
length-int_x v = ground arith

pub length-int_x2 : (v : ℤ) → length (int_x2 v) ≡ get_int_x2_byte_count v
unfolding int_x2 get_int_x2_byte_count
length-int_x2 v = ground arith

-- A signed word of `k` bytes comes back from its pattern.
Reads-read_signed :
    (k m : ℕ) (v : ℤ)
    → le_value (le_bytes k (to_word m v)) ≡ to_word m v
    → of_word m (to_word m v) ≡ v
    → Reads (read_signed k m) (le_bytes k (to_word m v)) v
unfolding read_signed
Reads-read_signed k m v e back =
    Reads-cast (Reads->>= _ (Reads-read_number k (to_word m v) e) (rw back (Reads-return v)))
      (append-nil (le_bytes k (to_word m v)))

of_word-to_word_one : (v : ℤ) → IsSigned (2 ^ 8) v → of_word (2 ^ 8) (to_word (2 ^ 8) v) ≡ v
of_word-to_word_one v h = ground arith

of_word-to_word_two : (v : ℤ) → IsSigned (2 ^ 16) v → of_word (2 ^ 16) (to_word (2 ^ 16) v) ≡ v
of_word-to_word_two v h = ground arith

of_word-to_word_four : (v : ℤ) → IsSigned (2 ^ 32) v → of_word (2 ^ 32) (to_word (2 ^ 32) v) ≡ v
of_word-to_word_four v h = ground arith

of_word-to_word_eight : (v : ℤ) → IsSigned (2 ^ 64) v → of_word (2 ^ 64) (to_word (2 ^ 64) v) ≡ v
of_word-to_word_eight v h = ground arith

Reads-signed_one :
    (v : ℤ) → IsSigned (2 ^ 8) v → Reads (read_signed 1 (2 ^ 8)) (le_bytes 1 (to_word (2 ^ 8) v)) v
Reads-signed_one v h = Reads-read_signed 1 (2 ^ 8) v (ground arith) (of_word-to_word_one v h)

Reads-signed_two :
    (v : ℤ)
    → IsSigned (2 ^ 16) v
    → Reads (read_signed 2 (2 ^ 16)) (le_bytes 2 (to_word (2 ^ 16) v)) v
Reads-signed_two v h = Reads-read_signed 2 (2 ^ 16) v (ground arith) (of_word-to_word_two v h)

Reads-signed_four :
    (v : ℤ)
    → IsSigned (2 ^ 32) v
    → Reads (read_signed 4 (2 ^ 32)) (le_bytes 4 (to_word (2 ^ 32) v)) v
Reads-signed_four v h = Reads-read_signed 4 (2 ^ 32) v (ground arith) (of_word-to_word_four v h)

Reads-signed_eight :
    (v : ℤ)
    → IsSigned (2 ^ 64) v
    → Reads (read_signed 8 (2 ^ 64)) (le_bytes 8 (to_word (2 ^ 64) v)) v
Reads-signed_eight v h = Reads-read_signed 8 (2 ^ 64) v (ground arith) (of_word-to_word_eight v h)

pub Writes-write_int_x : (v : ℤ) → Writes (write_int_x v) (int_x v)
unfolding write_int_x int_x write_signed
Writes-write_int_x v = elim (Bool-cases (in_range 127 124 v)) [
  | inl h ↦ rw h (Writes-write_number 1 (to_word (2 ^ 8) v))
  | inr h ↦ elim (Bool-cases (in_range (2 ^ 15 - 1) (2 ^ 15 - 1) v)) [
    | inl k ↦ rw (h, k) (Writes->> (Writes-write_number 1 125) (Writes-write_number 2 _))
    | inr k ↦ rw (h, k) (Writes->> (Writes-write_number 1 126) (Writes-write_number 4 _))
  ]
]

pub Writes-write_int_x2 : (v : ℤ) → Writes (write_int_x2 v) (int_x2 v)
unfolding write_int_x2 int_x2 write_signed
Writes-write_int_x2 v = elim (Bool-cases (in_range (2 ^ 31 - 1) (2 ^ 31 - 1) v)) [
  | inl h ↦ rw h (Writes-write_int_x v)
  | inr h ↦ rw h (Writes->> (Writes-write_number 1 127) (Writes-write_number 8 _))
]

-- The first byte of each form, as the readers see it.
lead : (t : ℕ) → t < 128 → Reads (read_signed 1 (2 ^ 8)) (t ∷ []) (pos t)
lead t h = Reads-cast (Reads-signed_one (pos t) (omega arith)) (ground arith)

in_range_hi : (n hi : ℕ) (v : ℤ) → in_range n hi v ≡ true → leb_ℤ v (pos hi) ≡ true
in_range_hi n hi v h = ground arith

pub Reads-read_int_x : (v : ℤ) → IsSigned (2 ^ 32) v → Reads read_int_x (int_x v) v
unfolding read_int_x int_x
Reads-read_int_x v u = elim (Bool-cases (in_range 127 124 v)) [
  | inl h ↦ rw h (
      Reads-cast
        (Reads->>= _ (Reads-signed_one v (ground arith))
          (rw (in_range_hi 127 124 v h) (Reads-return v)))
        (append-nil _))
  | inr h ↦ elim (Bool-cases (in_range (2 ^ 15 - 1) (2 ^ 15 - 1) v)) [
    | inl k ↦ rw (h, k) (Reads->>= _ (lead 125 (omega arith)) (Reads-signed_two v (ground arith)))
    | inr k ↦ rw (h, k) (Reads->>= _ (lead 126 (omega arith)) (Reads-signed_four v u))
  ]
]

pub Reads-read_int_x2 : (v : ℤ) → IsSigned (2 ^ 64) v → Reads read_int_x2 (int_x2 v) v
unfolding read_int_x2 int_x2
Reads-read_int_x2 v u = elim (Bool-cases (in_range (2 ^ 31 - 1) (2 ^ 31 - 1) v)) [
  | inl w ↦ elim (Bool-cases (in_range 127 124 v)) [
    | inl h ↦
        rw (w, h)
          (Reads-cast
            (Reads->>= _ (Reads-signed_one v (ground arith))
              (rw (in_range_hi 127 124 v h) (Reads-return v)))
            (append-nil _))
    | inr h ↦ elim (Bool-cases (in_range (2 ^ 15 - 1) (2 ^ 15 - 1) v)) [
      | inl k ↦
          rw (w, h, k) (Reads->>= _ (lead 125 (omega arith)) (Reads-signed_two v (ground arith)))
      | inr k ↦
          rw (w, h, k) (Reads->>= _ (lead 126 (omega arith)) (Reads-signed_four v (ground arith)))
    ]
  ]
  | inr w ↦ rw w (Reads->>= _ (lead 127 (omega arith)) (Reads-signed_eight v u))
]
