-- ===== src/Io/Numbers.antt =====
-- The unsigned variable-length integers and the strings behind one: what is written is their
-- encoding, it has the size that the byte counts give, and it is read back.
use native.Mathlib.Decide.{dec_lt}
use robotraconteur_pyodide.Prelude.{
  ℕ, ◌+◌, ◌-◌, ◌^◌, ◌<◌, ◌≡◌, refl, List, append-nil, length, length-append, le_bytes, arith,
  le→leb, lt→leb, lt→ltb, le→ltb,
}
use robotraconteur_pyodide.Prelude.Words.{
  le_value-le_bytes_one, le_value-le_bytes_two, le_value-le_bytes_four, le_value-le_bytes_eight,
}
use robotraconteur_pyodide.Outcome.{ok}
use robotraconteur_pyodide.Io.Reader.{read_uint_x, read_uint_x2}
use robotraconteur_pyodide.Io.Sizes.{
  get_uint_x_byte_count, get_uint_x2_byte_count, get_string_byte_count8_with_x_len,
  get_size_plus_uint_x,
}
use robotraconteur_pyodide.Io.Writer.{write_uint_x, write_uint_x2, write_string8_with_x_len}
use robotraconteur_pyodide.Io.Encoding.{uint_x, uint_x2, string_with_x_len}
use robotraconteur_pyodide.Io.Writes.{Writes, Writes->>, Writes-write, Writes-write_number}
use robotraconteur_pyodide.Io.Reads.{Reads, Reads->>=, Reads-return, Reads-read_number, Reads-cast}

-- The byte counts are the sizes of the encodings.
pub length-uint_x : (v : ℕ) → length (uint_x v) ≡ get_uint_x_byte_count v
unfolding uint_x get_uint_x_byte_count
length-uint_x v = ground arith

pub length-uint_x2 : (v : ℕ) → length (uint_x2 v) ≡ get_uint_x2_byte_count v
unfolding uint_x2 get_uint_x2_byte_count
length-uint_x2 v = ground arith

pub Writes-write_uint_x : (v : ℕ) → Writes (write_uint_x v) (uint_x v)
unfolding write_uint_x uint_x
Writes-write_uint_x v = elim (dec_lt v 253) [
  | yes h ↦ rw (le→leb v 252 (omega arith), lt→ltb v 253 h) (Writes-write_number 1 v)
  | no h ↦ elim (dec_lt v (2 ^ 16)) [
    | yes k ↦
        rw
          (
            lt→leb v 252 (omega arith),
            le→ltb v 253 (omega arith),
            le→leb v (2 ^ 16 - 1) (omega arith),
            lt→ltb v (2 ^ 16) k,
          )
          (Writes->> (Writes-write_number 1 253) (Writes-write_number 2 v))
    | no k ↦
        rw
          (
            lt→leb v 252 (omega arith),
            le→ltb v 253 (omega arith),
            lt→leb v (2 ^ 16 - 1) (omega arith),
            le→ltb v (2 ^ 16) (omega arith),
          )
          (Writes->> (Writes-write_number 1 254) (Writes-write_number 4 v))
  ]
]

pub Reads-read_uint_x : (v : ℕ) → v < 2 ^ 32 → Reads read_uint_x (uint_x v) v
unfolding read_uint_x uint_x
Reads-read_uint_x v u = elim (dec_lt v 253) [
  | yes h ↦ rw (lt→ltb v 253 h) (
      Reads-cast
        (Reads->>= _ (Reads-read_number 1 v (le_value-le_bytes_one v (omega arith)))
          (rw (le→leb v 252 (omega arith)) (Reads-return v)))
        (append-nil (le_bytes 1 v)))
  | no h ↦ elim (dec_lt v (2 ^ 16)) [
    | yes k ↦
        rw (le→ltb v 253 (omega arith), lt→ltb v (2 ^ 16) k)
          (Reads->>= _ (Reads-read_number 1 253 refl)
            (Reads-read_number 2 v (le_value-le_bytes_two v k)))
    | no k ↦
        rw (le→ltb v 253 (omega arith), le→ltb v (2 ^ 16) (omega arith))
          (Reads->>= _ (Reads-read_number 1 254 refl)
            (Reads-read_number 4 v (le_value-le_bytes_four v u)))
  ]
]

pub Writes-write_uint_x2 : (v : ℕ) → Writes (write_uint_x2 v) (uint_x2 v)
unfolding write_uint_x2 uint_x2
Writes-write_uint_x2 v = elim (dec_lt v (2 ^ 32)) [
  | yes h ↦ rw (le→leb v (2 ^ 32 - 1) (omega arith), lt→ltb v (2 ^ 32) h) (Writes-write_uint_x v)
  | no h ↦
      rw (lt→leb v (2 ^ 32 - 1) (omega arith), le→ltb v (2 ^ 32) (omega arith))
        (Writes->> (Writes-write_number 1 255) (Writes-write_number 8 v))
]

-- The two readers agree on what fits 32 bits.
pub Reads-read_uint_x2 : (v : ℕ) → v < 2 ^ 64 → Reads read_uint_x2 (uint_x2 v) v
unfolding read_uint_x2 uint_x2
Reads-read_uint_x2 v u = elim (dec_lt v 253) [
  | yes h ↦
      rw (lt→ltb v (2 ^ 32) (omega arith), lt→ltb v 253 h)
        (Reads-cast
          (Reads->>= _ (Reads-read_number 1 v (le_value-le_bytes_one v (omega arith)))
            (rw (le→leb v 252 (omega arith)) (Reads-return v)))
          (append-nil (le_bytes 1 v)))
  | no h ↦ elim (dec_lt v (2 ^ 16)) [
    | yes k ↦
        rw (lt→ltb v (2 ^ 32) (omega arith), le→ltb v 253 (omega arith), lt→ltb v (2 ^ 16) k)
          (Reads->>= _ (Reads-read_number 1 253 refl)
            (Reads-read_number 2 v (le_value-le_bytes_two v k)))
    | no k ↦ elim (dec_lt v (2 ^ 32)) [
      | yes m ↦
          rw (lt→ltb v (2 ^ 32) m, le→ltb v 253 (omega arith), le→ltb v (2 ^ 16) (omega arith))
            (Reads->>= _ (Reads-read_number 1 254 refl)
              (Reads-read_number 4 v (le_value-le_bytes_four v m)))
      | no m ↦ rw (le→ltb v (2 ^ 32) (omega arith)) (
          Reads->>= _ (Reads-read_number 1 255 refl)
            (Reads-read_number 8 v (le_value-le_bytes_eight v u)))
    ]
  ]
]

-- A size with the room for its own encoding in front: what GetSizePlusUintX gives.
pub get_size_plus_uint_x_lem :
    (s : ℕ) {t : ℕ} → get_size_plus_uint_x s ≡ ok t → (t ≡ s + length (uint_x t)) × (t < 2 ^ 32)
unfolding get_size_plus_uint_x uint_x
get_size_plus_uint_x_lem s h = ground arith

pub get_string_byte_count8_with_x_len_lem :
    (s : List ℕ) {n : ℕ}
    → get_string_byte_count8_with_x_len s ≡ ok n
    → (n ≡ length (string_with_x_len s)) × (length s < 2 ^ 32)
unfolding get_string_byte_count8_with_x_len string_with_x_len get_uint_x_byte_count
get_string_byte_count8_with_x_len_lem s h =
    ground (arith, length-append (uint_x (length s)) s, length-uint_x (length s))

pub Writes-write_string8_with_x_len :
    (s : List ℕ) → Writes (write_string8_with_x_len s) (string_with_x_len s)
unfolding write_string8_with_x_len string_with_x_len
Writes-write_string8_with_x_len s =
    Writes->> (Writes-write_uint_x (length s)) (Writes-write s (length s) refl)
