-- ===== src/Message/V4/Readers.antt =====
-- The version 4 readers of elements, entries and headers, on any bytes.
use native.Mathlib.Decide.{dec_lt}
use robotraconteur_pyodide.Prelude.{
  ℕ, zero, suc, ◌-◌, ◌^◌, ◌<◌, ◌≤◌, ◌⊎◌, ◌≡◌, refl, Bool, true, false, List, [], ◌∷◌, arith, inl,
  inr, ltb, leb, ◌==◌, if◌then◌else◌,
}
use robotraconteur_pyodide.Prelude.Int.{pos, leb_ℤ, eqb_ℤ}
use robotraconteur_pyodide.Outcome.{Action, ◌>>=◌, invalid_argument, length_error, protocol}
use robotraconteur_pyodide.Arrays.{kind}
use robotraconteur_pyodide.Io.Reader.{
  ArrayBinaryReader, read, read_number, read_signed, read_uint_x, read_int_x,
}
use robotraconteur_pyodide.Io.Sound.{Behaves-both}
use robotraconteur_pyodide.Io.Safe.{
  Behaves, Behaves-return, Behaves-raise, Behaves->>=, Behaves-weaken, Behaves-read,
  Behaves-read_any, Behaves-read_number, Behaves-read_string8, Behaves-test, Behaves-in_limit,
}
use robotraconteur_pyodide.Message.Data.{MessageElement, element, null, nested_list, has}
use robotraconteur_pyodide.Message.V2.Write.{rrac}
use robotraconteur_pyodide.Message.V2.Read.{eq_bytes}
use robotraconteur_pyodide.Message.V2.Readers.{
  Behaves-field, Behaves-then, Behaves-read_each, Behaves-read_array_data, Behaves-read_node_id,
  Kind-cases,
}
use robotraconteur_pyodide.Message.V4.Read.{
  MaxSizes, optional, read_string_x, read_extended, read_fields4, read_data4, read_body4,
  read_element4, read_entry_body4, read_entry4, read_routing, read_pair, read_rows, read_count,
  read_header_body4, read_header4, read_entries4,
}

-- A string or a vector may have 2 ^ 31 bytes or more.
abbrev pub IsOversized : MaxSizes → Type 0
IsOversized c = (2 ^ 31 ≤ c.string) ⊎ (2 ^ 31 ≤ c.vector)

-- Strings and vectors have fewer than 2 ^ 31 bytes, or `X` holds.
pub record IsBounded (X : Type 0) (c : MaxSizes) : Type 0 where
  pub strings : (c.string < 2 ^ 31) ⊎ X
  pub vectors : (c.vector < 2 ^ 31) ⊎ X

pub IsOversized-IsBounded : (c : MaxSizes) → IsBounded (IsOversized c) c
IsOversized-IsBounded c = record {
  strings = elim (dec_lt c.string (2 ^ 31)) [ yes h ↦ inl h | no h ↦ inr (inl (omega arith)) ];
  vectors = elim (dec_lt c.vector (2 ^ 31)) [ yes h ↦ inl h | no h ↦ inr (inr (omega arith)) ];
}

module _ {X : Type 0} where
  Behaves-if :
      {A : Type 0} {n : ℕ} (b : Bool) {m k : Action ArrayBinaryReader A}
      → (b ≡ true → Behaves X 0 n m)
      → Behaves X 0 n k
      → Behaves X 0 n (if b then m else k)
  Behaves-if true h g = h refl
  Behaves-if false h g = g

  -- At least the first byte is taken.
  Behaves-read_uint_x : (n : ℕ) → Behaves X 1 n read_uint_x
  unfolding read_uint_x
  Behaves-read_uint_x n =
      Behaves-both {j = 0} n (Behaves-read_number 1 n (omega arith))
        (λ a.
          Behaves-if (leb a 252) (λ _. Behaves-return n a)
            (Behaves-if (a == 253)
              (λ _. Behaves-weaken 0 (omega arith) (Behaves-read_number 2 n (omega arith)))
              (Behaves-if (a == 254)
                (λ _. Behaves-weaken 0 (omega arith) (Behaves-read_number 4 n (omega arith)))
                (Behaves-raise 0 n invalid_argument))))
        (omega arith)

  Behaves-count : (n : ℕ) → Behaves X 0 n read_uint_x
  Behaves-count n = Behaves-weaken 0 (omega arith) (Behaves-read_uint_x n)

  Behaves-two : (n : ℕ) → Behaves X 0 n (read_number 2)
  Behaves-two n = Behaves-weaken 0 (omega arith) (Behaves-read_number 2 n (omega arith))

  Behaves-read_signed : (k m n : ℕ) → k < 2 ^ 31 → Behaves X 0 n (read_signed k m)
  unfolding read_signed
  Behaves-read_signed k m n small = Behaves-field k n small (λ a. Behaves-return n _)

  Behaves-read_int_x : (n : ℕ) → Behaves X 0 n read_int_x
  unfolding read_int_x
  Behaves-read_int_x n = Behaves-then n (Behaves-read_signed 1 (2 ^ 8) n (omega arith)) λ a.
      Behaves-if (leb_ℤ a (pos 124)) (λ _. Behaves-return n a)
        (Behaves-if (eqb_ℤ a (pos 125)) (λ _. Behaves-read_signed 2 (2 ^ 16) n (omega arith))
          (Behaves-if (eqb_ℤ a (pos 126)) (λ _. Behaves-read_signed 4 (2 ^ 32) n (omega arith))
            (Behaves-raise 0 n invalid_argument)))

  -- A section behind a flag, then the rest.
  Behaves-flag :
      {A B : Type 0} (n : ℕ) (b : Bool) (d : A) {m : Action ArrayBinaryReader A}
      {f : A → Action ArrayBinaryReader B}
      → Behaves X 0 n m
      → ((a : A) → Behaves X 0 n (f a))
      → Behaves X 0 n (optional b d m >>= f)
  Behaves-flag n b d h hf = Behaves-then n (Behaves-if b (λ _. h) (Behaves-return n d)) hf

  Behaves-read_pair :
      {A B : Type 0} (n : ℕ) {m : Action ArrayBinaryReader A} {k : Action ArrayBinaryReader B}
      → Behaves X 0 n m
      → Behaves X 0 n k
      → Behaves X 0 n (read_pair m k)
  unfolding read_pair
  Behaves-read_pair n hm hk =
      Behaves-then n hm (λ a. Behaves-then n hk (λ b. Behaves-return n (a, b)))

  Behaves-read_count : (n : ℕ) → Behaves X 0 n read_count
  unfolding read_count
  Behaves-read_count n =
      Behaves-then n (Behaves-count n) (λ k.
        Behaves-if (ltb (2 ^ 16 - 1) k) (λ _. Behaves-raise 0 n protocol) (Behaves-return n k))

  Behaves-read_data4 :
      (n : ℕ) {m : Action ArrayBinaryReader MessageElement} (t count : ℕ) (type_name : List ℕ)
      → Behaves X 0 n m
      → Behaves X 0 n (read_data4 m t count type_name)
  unfolding read_data4
  Behaves-read_data4 n t count type_name h = elim (Kind-cases (kind t)) [
    | inl e ↦ rw e (Behaves-return n null)
    | inr (inl e) ↦ rw e (Behaves-read_array_data n t count e)
    | inr (inr (inl e)) ↦ rw e (
        Behaves-then n (Behaves-read_each n count h)
          (λ es. Behaves-return n (nested_list t type_name es)))
    | inr (inr (inr e)) ↦ rw e (Behaves-raise 0 n protocol)
  ]

  module _ (c : MaxSizes) (small : IsBounded X c) where
    Behaves-string : (n : ℕ) → Behaves X 0 n (read_string_x c)
    unfolding read_string_x
    Behaves-string n =
        Behaves-then n (Behaves-count n) (λ k. Behaves-read_string8 c.string k n small.strings)

    Behaves-extended_bytes : (n l : ℕ) → leb l c.vector ≡ true → Behaves X 0 n (read l)
    Behaves-extended_bytes n l fits = elim small.vectors [
      | inl below ↦ Behaves-weaken 0 (omega arith) (Behaves-read l n (ground arith))
      | inr x ↦ Behaves-weaken 0 (omega arith) (Behaves-read_any l n x)
    ]

    Behaves-extended : (n : ℕ) → Behaves X 0 n (read_extended c)
    unfolding read_extended
    Behaves-extended n = Behaves-then n (Behaves-count n) λ l.
        Behaves-if (leb l c.vector)
          (λ fits. Behaves-if (l == 0) (λ _. Behaves-return n []) (Behaves-extended_bytes n l fits))
          (Behaves-raise 0 n length_error)

    Behaves-read_fields4 : (n size : ℕ) → Behaves X 0 n (read_fields4 c size)
    unfolding read_fields4
    Behaves-read_fields4 n size = Behaves-field 1 n (omega arith) λ flags.
        Behaves-flag n (has flags 0x01) _ (Behaves-string n) λ name.
          Behaves-flag n (has flags 0x02) _ (Behaves-count n) λ code.
            Behaves-flag n (has flags 0x04) _ (Behaves-read_int_x n) λ number.
              Behaves-field 2 n (omega arith) λ t.
                Behaves-flag n (has flags 0x08) _ (Behaves-string n) λ type_name.
                  Behaves-flag n (has flags 0x10) _ (Behaves-count n) λ type_code.
                    Behaves-flag n (has flags 0x20) _ (Behaves-string n) λ meta.
                      Behaves-flag n (has flags 0x80) _ (Behaves-extended n)
                        λ ext. Behaves-then n (Behaves-count n) (λ count. Behaves-return n _)

    -- Reading an element takes a byte at least, so as much fuel as there are bytes is enough.
    Behaves-read_element4 : (fuel : ℕ) → Behaves X 0 fuel (read_element4 c fuel)
    unfolding read_element4 read_body4
    Behaves-read_element4 zero = record { apply = λ r v h. absurd (omega (arith, v.placed)) }
    Behaves-read_element4 (suc fuel) =
        Behaves->>= fuel (Behaves-read_uint_x (suc fuel))
          (λ size. Behaves-in_limit _ fuel (
            Behaves-then fuel (Behaves-read_fields4 fuel size) λ f.
              Behaves-then fuel
                (Behaves-read_data4 fuel f.element_type f.data_count f.element_type_name
                  (Behaves-read_element4 fuel))
                (λ d. Behaves-return fuel (element f d))))
          (omega arith)

    Behaves-read_entry4 : (fuel : ℕ) → Behaves X 0 fuel (read_entry4 c fuel)
    unfolding read_entry4 read_entry_body4
    Behaves-read_entry4 fuel = Behaves-then fuel (Behaves-count fuel) λ size.
        Behaves-in_limit _ fuel (
          Behaves-field 1 fuel (omega arith) λ flags. Behaves-field 2 fuel (omega arith) λ t.
            Behaves-flag fuel (has flags 0x01) _ (Behaves-string fuel) λ path.
              Behaves-flag fuel (has flags 0x02) _ (Behaves-count fuel) λ path_code.
                Behaves-flag fuel (has flags 0x04) _ (Behaves-string fuel) λ name.
                  Behaves-flag fuel (has flags 0x08) _ (Behaves-count fuel) λ name_code.
                    Behaves-flag fuel (has flags 0x10) _ (Behaves-count fuel) λ request.
                      Behaves-flag fuel (has flags 0x20) _ (Behaves-two fuel) λ err.
                        Behaves-flag fuel (has flags 0x40) _ (Behaves-string fuel) λ meta.
                          Behaves-flag fuel (has flags 0x80) _ (Behaves-extended fuel) λ ext.
                            Behaves-then fuel (Behaves-count fuel) λ count.
                              Behaves-then fuel
                                (Behaves-read_each fuel count (Behaves-read_element4 fuel))
                                (λ es. Behaves-return fuel _))

    pub Behaves-read_entries4 : (fuel count : ℕ) → Behaves X 0 fuel (read_entries4 c fuel count)
    unfolding read_entries4
    Behaves-read_entries4 fuel zero = Behaves-return fuel []
    Behaves-read_entries4 fuel (suc count) = Behaves-then fuel (Behaves-read_entry4 fuel) λ e.
        Behaves-then fuel (Behaves-read_entries4 fuel count) (λ es. Behaves-return fuel (e ∷ es))

    Behaves-read_rows : (n count : ℕ) → Behaves X 0 n (read_rows c count)
    unfolding read_rows
    Behaves-read_rows n zero = Behaves-return n []
    Behaves-read_rows n (suc count) = Behaves-then n (Behaves-count n) λ code.
        Behaves-then n (Behaves-string n)
          λ s. Behaves-then n (Behaves-read_rows n count) (λ t. Behaves-return n _)

    Behaves-read_routing : (n : ℕ) → Behaves X 0 n (read_routing c)
    unfolding read_routing
    Behaves-read_routing n = Behaves-then n (Behaves-read_node_id n 16) λ sender.
        Behaves-then n (Behaves-read_node_id n 16) λ receiver.
          Behaves-then n (Behaves-string n)
            λ sender_name. Behaves-then n (Behaves-string n) (λ receiver_name. Behaves-return n _)

    pub Behaves-read_header4 : (n : ℕ) → Behaves X 0 n (read_header4 c)
    unfolding read_header4 read_header_body4
    Behaves-read_header4 n =
        Behaves-then n (Behaves-read_string8 c.string 4 n small.strings) λ magic.
          Behaves-then n (Behaves-test n (eq_bytes magic rrac) protocol) λ _.
            Behaves-field 4 n (omega arith) λ message_size.
              Behaves-field 2 n (omega arith) λ version.
                Behaves-then n (Behaves-test n (version == 4) protocol) λ _.
                  Behaves-then n (Behaves-count n) λ header_size. Behaves-in_limit _ n (
                    Behaves-field 1 n (omega arith) λ flags.
                      Behaves-flag n (has flags 0x01) _ (Behaves-read_routing n) λ route.
                        Behaves-flag n (has flags 0x02) _
                          (Behaves-read_pair n (Behaves-count n) (Behaves-count n))
                          λ endpoints. Behaves-flag n (has flags 0x04) _ (Behaves-two n) λ priority.
                            Behaves-flag n (has flags 0x10) _
                              (Behaves-read_pair n (Behaves-string n)
                                (Behaves-read_pair n (Behaves-two n) (Behaves-two n)))
                              λ meta.
                                Behaves-flag n (has flags 0x20) _
                                  (Behaves-then n (Behaves-count n) (Behaves-read_rows n))
                                  λ table.
                                    Behaves-flag n (has flags 0x40) _ (Behaves-read_count n)
                                      λ count.
                                        Behaves-flag n (has flags 0x80) _ (Behaves-extended n)
                                          (λ ext. Behaves-return n _))
