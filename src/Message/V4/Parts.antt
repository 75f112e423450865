-- ===== src/Message/V4/Parts.antt =====
-- The sections of the version 4 format, one by one: what is written, that it is read back, and that
-- its size is the one added up.
use robotraconteur_pyodide.Prelude.{
  ℕ, suc, ◌+◌, ◌^◌, ◌≤◌, ◌<◌, ◌≡◌, refl, sym, Bool, true, false, List, [], ◌∷◌, length,
  length-append, ◌==◌, le→leb, if◌then◌else◌, arith,
}
use robotraconteur_pyodide.Outcome.{Result, ok, bind-eq-ok, ok-injective, Action, return}
use robotraconteur_pyodide.Io.Reader.{ArrayBinaryReader, size_add, read_uint_x}
use robotraconteur_pyodide.Io.Writer.{ArrayBinaryWriter}
use robotraconteur_pyodide.Io.Writer
use robotraconteur_pyodide.Io.Reader
use robotraconteur_pyodide.Io.Sizes.{get_uint_x_byte_count, get_string_byte_count8_with_x_len}
use robotraconteur_pyodide.Io.Encoding.{uint_x, string_with_x_len}
use robotraconteur_pyodide.Io.Numbers.{
  length-uint_x, Writes-write_uint_x, Reads-read_uint_x, get_string_byte_count8_with_x_len_lem,
}
use robotraconteur_pyodide.Io.Writes.{Writes, Writes->>, Writes-return, Writes-write}
use robotraconteur_pyodide.Io.Reads.{Reads, Reads->>=, Reads-return, Reads-read, Reads-read_string8}
use robotraconteur_pyodide.Message.V4.Size.{sum_sizes, size_if, extended_size, is_nonempty}
use robotraconteur_pyodide.Message.V4.Write.{when, write_extended}
use robotraconteur_pyodide.Message.V4.Read.{MaxSizes, optional, read_string_x, read_extended}
use robotraconteur_pyodide.Message.V4.Wire.{part, kept, extended_wire}

pub Writes-when :
    (b : Bool) {m : Action ArrayBinaryWriter (Unit {0})} {xs : List ℕ}
    → Writes m xs
    → Writes (when b m) (part b xs)
Writes-when true h = h
Writes-when false h = Writes-return

pub Reads-optional :
    {A : Type 0} (b : Bool) (d : A) {a : A} {m : Action ArrayBinaryReader A} {xs : List ℕ}
    → Reads m xs a
    → Reads (optional b d m) (part b xs) (kept b d a)
Reads-optional true d h = h
Reads-optional false d h = Reads-return _

write_bytes : (ext : List ℕ) → Writes (when (is_nonempty ext) (Writer.write ext (length ext))) ext
write_bytes [] = Writes-return
write_bytes (x ∷ xs) = Writes-write (x ∷ xs) _ refl

pub Writes-write_extended : (ext : List ℕ) → Writes (write_extended ext) (extended_wire ext)
unfolding write_extended extended_wire
Writes-write_extended ext = Writes->> (Writes-write_uint_x (length ext)) (write_bytes ext)

-- Strings and vectors of 2 ^ 30 bytes are possible.
pub record IsRoomy (c : MaxSizes) : Type 0 where
  pub strings : 2 ^ 30 ≤ c.string
  pub vectors : 2 ^ 30 ≤ c.vector

nonzero : (n : ℕ) → (suc n == 0) ≡ false
nonzero n = ground arith

read_bytes :
    (ext : List ℕ) → Reads (if length ext == 0 then return [] else Reader.read (length ext)) ext ext
read_bytes [] = Reads-return []
read_bytes (x ∷ xs) = rw (nonzero (length xs)) (Reads-read _ (x ∷ xs) refl)

module _ (c : MaxSizes) (roomy : IsRoomy c) where
  pub Reads-read_string_x :
      (s : List ℕ) → length s < 2 ^ 30 → Reads (read_string_x c) (string_with_x_len s) s
  unfolding read_string_x string_with_x_len
  Reads-read_string_x s h =
      Reads->>= _ (Reads-read_uint_x (length s) (omega arith))
        (Reads-read_string8 c.string s (omega (arith, roomy.strings)))

  pub Reads-read_extended :
      (ext : List ℕ) → length ext < 2 ^ 30 → Reads (read_extended c) (extended_wire ext) ext
  unfolding read_extended extended_wire
  Reads-read_extended ext h =
      Reads->>= _ (Reads-read_uint_x (length ext) (omega arith))
        (rw (le→leb (length ext) c.vector (omega (arith, roomy.vectors))) (read_bytes ext))

-- The sizes that are added up are those of the sections `xss`.
abbrev pub Measures : Result ℕ → List ℕ → Type 0
Measures m xs = (n : ℕ) → m ≡ ok n → n ≡ length xs

abbrev pub total : List (List ℕ) → ℕ
total [] = 0
total (xs ∷ xss) = length xs + total xss

pub data AllMeasure : List (Result ℕ) → List (List ℕ) → Type 0 where
  none : AllMeasure [] []
  more :
      {m : Result ℕ} {ms : List (Result ℕ)} {xs : List ℕ} {xss : List (List ℕ)}
      → Measures m xs
      → AllMeasure ms xss
      → AllMeasure (m ∷ ms) (xs ∷ xss)

-- Where the sections are below 2 ^ 32 bytes, no addition wraps.
pub sum_sizes_lem :
    {ms : List (Result ℕ)} {xss : List (List ℕ)} (s : ℕ) {t : ℕ}
    → AllMeasure ms xss
    → s + total xss < 2 ^ 32
    → sum_sizes s ms ≡ ok t
    → t ≡ s + total xss
sum_sizes_lem s none h e = omega (arith, ok-injective e)
sum_sizes_lem s (more {m} {ms} {xs} {xss} one others) h e =
    let (n, hn, h1) = bind-eq-ok m _ e in
    let size : n ≡ length xs = one n hn in
    let sum : size_add s n ≡ s + n = omega arith in
    let rest = sum_sizes_lem (size_add s n) others (omega arith) h1 in omega arith

pub Measures-size_if :
    (b : Bool) {m : Result ℕ} (xs : List ℕ) → Measures m xs → Measures (size_if b m) (part b xs)
Measures-size_if true xs h = h
Measures-size_if false xs h = λ n e. sym (ok-injective e)

pub Measures-string :
    (s : List ℕ) → Measures (get_string_byte_count8_with_x_len s) (string_with_x_len s)
Measures-string s n e = (get_string_byte_count8_with_x_len_lem s e).0

pub Measures-ok : (n : ℕ) (xs : List ℕ) → length xs ≡ n → Measures (ok n) xs
Measures-ok n xs h k e = omega (arith, ok-injective e, h)

pub Measures-uint_x : (n : ℕ) → Measures (ok (get_uint_x_byte_count n)) (uint_x n)
Measures-uint_x n = Measures-ok _ _ (length-uint_x n)

pub uint_x_short : (n : ℕ) → get_uint_x_byte_count n ≤ 5
unfolding get_uint_x_byte_count
uint_x_short n = ground arith

pub Measures-extended :
    (ext : List ℕ) → length ext < 2 ^ 30 → Measures (extended_size ext) (extended_wire ext)
unfolding extended_wire
Measures-extended ext h = Measures-ok _ _ (
    omega (
      arith,
      length-append (uint_x (length ext)) ext,
      length-uint_x (length ext),
      uint_x_short (length ext),
    ))
