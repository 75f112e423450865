-- ===== src/Message/V2/Readers.antt =====
-- The version 2 readers of elements, entries and headers, on any bytes.
use native.Mathlib.Decide.{dec_lt}
use robotraconteur_pyodide.Prelude.{
  ℕ, zero, suc, ◌^◌, ◌≤◌, ◌<◌, ◌≡◌, refl, List, [], ◌∷◌, arith, le→ltb, ◌⊎◌, inl, inr, ◌==◌,
}
use robotraconteur_pyodide.Prelude.Int.{pos, leb_ℤ}
use robotraconteur_pyodide.Outcome.{
  Result, ok, Action, ◌>>=◌, lift, data_type, protocol, data_serialization,
}
use robotraconteur_pyodide.Arrays.{
  Kind, void, scalars, nested, unknown, kind, rr_array_element_size, rr_array_element_size_lem,
  element_size, allocate_rr_array_by_type,
}
use robotraconteur_pyodide.Io.Reader.{
  ArrayBinaryReader, size_mul, numeric_cast_int32, read_number, read_array,
}
use robotraconteur_pyodide.Io.Safe.{
  Behaves, Behaves-return, Behaves-raise, Behaves->>=, Behaves-weaken, Behaves-read,
  Behaves-read_number, Behaves-read_string8, Behaves-lift, Behaves-test,
  Behaves-distance_from_limit, Behaves-in_limit, Settles,
}
use robotraconteur_pyodide.Message.Data.{MessageElement, element, null, nested_list, nil, cons}
use robotraconteur_pyodide.Message.V2.Write.{rrac}
use robotraconteur_pyodide.Message.V2.Read.{
  sub_uint32, read_string16, read_each, read_fields, check_room, read_array_data, read_data,
  read_body, read_element, read_entry_body, read_entry, read_node_id, eq_bytes, read_header_body,
  read_header, read_entries,
}

element_size-Settles : (t : ℕ) → Settles (rr_array_element_size t)
unfolding rr_array_element_size
element_size-Settles t = ground arith

allocate-Settles : (t n : ℕ) → Settles (allocate_rr_array_by_type t n)
unfolding allocate_rr_array_by_type
allocate-Settles t n = ground arith

pub Kind-cases : (k : Kind) → (k ≡ void) ⊎ ((k ≡ scalars) ⊎ ((k ≡ nested) ⊎ (k ≡ unknown)))
Kind-cases void = inl refl
Kind-cases scalars = inr (inl refl)
Kind-cases nested = inr (inr (inl refl))
Kind-cases unknown = inr (inr (inr refl))

module _ {X : Type 0} where
  -- A fixed-size field, then the rest.
  pub Behaves-field :
      {B : Type 0} (k n : ℕ) {f : ℕ → Action ArrayBinaryReader B}
      → k < 2 ^ 31
      → ((a : ℕ) → Behaves X 0 n (f a))
      → Behaves X 0 n (read_number k >>= f)
  Behaves-field k n h hf = Behaves->>= n (Behaves-read_number k n h) hf (omega arith)

  -- Any step that behaves, then the rest.
  pub Behaves-then :
      {A B : Type 0} (n : ℕ) {m : Action ArrayBinaryReader A} {f : A → Action ArrayBinaryReader B}
      → Behaves X 0 n m
      → ((a : A) → Behaves X 0 n (f a))
      → Behaves X 0 n (m >>= f)
  Behaves-then n hm hf = Behaves->>= n hm hf (omega arith)

  pub Behaves-read_each :
      (n : ℕ) {m : Action ArrayBinaryReader MessageElement} (count : ℕ)
      → Behaves X 0 n m
      → Behaves X 0 n (read_each m count)
  unfolding read_each
  Behaves-read_each n zero h = Behaves-return n nil
  Behaves-read_each n (suc count) h =
      Behaves-then n h
        λ e. Behaves-then n (Behaves-read_each n count h) (λ es. Behaves-return n (cons e es))

  Behaves-check_room : (n size : ℕ) → Behaves X 0 n (check_room size)
  unfolding check_room
  Behaves-check_room n size =
      Behaves-then n (Behaves-lift n (numeric_cast_int32 size) (ground arith)) λ k.
        Behaves-then n (Behaves-distance_from_limit n)
          (λ d. Behaves-test n (leb_ℤ (pos k) d) data_serialization)

  -- A size that is no int32_t is refused before anything is read.
  check_room_refuses :
      {B : Type 0} (n size : ℕ) (f : Unit {0} → Action ArrayBinaryReader B)
      → 2 ^ 31 ≤ size
      → Behaves X 0 n (check_room size >>= f)
  unfolding check_room ◌>>=◌ lift
  check_room_refuses n size f h = record { apply = λ r v room. rw (le→ltb size (2 ^ 31) h) tt }

  Behaves-lift_known :
      {A B : Type 0} {k n : ℕ} {m : Result A} {a : A} (f : A → Action ArrayBinaryReader B)
      → m ≡ ok a
      → Behaves X k n (f a)
      → Behaves X k n (lift m >>= f)
  unfolding ◌>>=◌ lift
  Behaves-lift_known f e h = rw e (record { apply = h.apply })

  pub Behaves-read_array_data :
      (n t count : ℕ) → kind t ≡ scalars → Behaves X 0 n (read_array_data t count)
  unfolding read_array_data read_array
  Behaves-read_array_data n t count k =
      Behaves-lift_known _ (rr_array_element_size_lem t k)
        (elim (dec_lt (size_mul (element_size t) count) (2 ^ 31)) [
          | no big ↦ check_room_refuses n _ _ (omega arith)
          | yes fits ↦ Behaves-then n (Behaves-check_room n _) λ _.
              Behaves-then n (Behaves-lift n _ (allocate-Settles t count)) λ _.
                Behaves-then n
                  (rw k (
                    Behaves-weaken 0 (omega arith)
                      (Behaves-read _ n (same_size (element_size t) count fits))))
                  (λ contents. Behaves-return n _)
        ])
    where
      same_size : (w c : ℕ) → size_mul w c < 2 ^ 31 → size_mul c w < 2 ^ 31
      same_size w c h = ground arith

  Behaves-read_data :
      (n : ℕ) {m : Action ArrayBinaryReader MessageElement} (t count : ℕ) (type_name : List ℕ)
      → Behaves X 0 n m
      → Behaves X 0 n (read_data m t count type_name)
  unfolding read_data
  Behaves-read_data n t count type_name h = elim (Kind-cases (kind t)) [
    | inl e ↦ rw e (Behaves-return n null)
    | inr (inl e) ↦ rw e (Behaves-read_array_data n t count e)
    | inr (inr (inl e)) ↦ rw e (
        Behaves-then n (Behaves-read_each n count h)
          (λ es. Behaves-return n (nested_list t type_name es)))
    | inr (inr (inr e)) ↦ rw e (Behaves-raise 0 n data_type)
  ]

  pub Behaves-read_node_id : (n count : ℕ) → Behaves X 0 n (read_node_id count)
  unfolding read_node_id
  Behaves-read_node_id n zero = Behaves-return n []
  Behaves-read_node_id n (suc count) =
      Behaves-field 1 n (omega arith)
        λ b. Behaves-then n (Behaves-read_node_id n count) (λ bs. Behaves-return n (b ∷ bs))

  module _ (max_size : ℕ) (small : (max_size < 2 ^ 31) ⊎ X) where
    Behaves-string :
        {B : Type 0} (n : ℕ) {f : List ℕ → Action ArrayBinaryReader B}
        → ((s : List ℕ) → Behaves X 0 n (f s))
        → Behaves X 0 n (read_string16 max_size >>= f)
    unfolding read_string16
    Behaves-string n hf =
        Behaves-then n
          (Behaves-field 2 n (omega arith) (λ k. Behaves-read_string8 max_size k n small)) hf

    Behaves-read_fields : (n size : ℕ) → Behaves X 0 n (read_fields max_size size)
    unfolding read_fields
    Behaves-read_fields n size = Behaves-string n λ name. Behaves-field 2 n (omega arith) λ t.
        Behaves-string n λ type_name.
          Behaves-string n λ meta. Behaves-field 4 n (omega arith) (λ count. Behaves-return n _)

    -- Reading an element takes four bytes at least, so as much fuel as there are bytes is enough.
    Behaves-read_element : (fuel : ℕ) → Behaves X 0 fuel (read_element max_size fuel)
    unfolding read_element read_body
    Behaves-read_element zero = record { apply = λ r v h. absurd (omega (arith, v.placed)) }
    Behaves-read_element (suc fuel) =
        Behaves->>= fuel (Behaves-read_number 4 (suc fuel) (omega arith))
          (λ size. Behaves-in_limit (sub_uint32 size 4) fuel (
            Behaves-then fuel (Behaves-read_fields fuel size) λ f.
              Behaves-then fuel
                (Behaves-read_data fuel f.element_type f.data_count f.element_type_name
                  (Behaves-read_element fuel))
                (λ d. Behaves-return fuel (element f d))))
          (omega arith)

    Behaves-read_entry : (fuel : ℕ) → Behaves X 0 fuel (read_entry max_size fuel)
    unfolding read_entry read_entry_body
    Behaves-read_entry fuel = Behaves-field 4 fuel (omega arith) λ size.
        Behaves-in_limit (sub_uint32 size 4) fuel (
          Behaves-field 2 fuel (omega arith) λ t. Behaves-field 2 fuel (omega arith) λ reserved.
            Behaves-string fuel λ path. Behaves-string fuel λ name.
              Behaves-field 4 fuel (omega arith) λ request.
                Behaves-field 2 fuel (omega arith) λ err. Behaves-string fuel λ meta.
                  Behaves-field 2 fuel (omega arith) λ count.
                    Behaves-then fuel (Behaves-read_each fuel count (Behaves-read_element fuel))
                      (λ es. Behaves-return fuel _))

    pub Behaves-read_entries :
        (fuel count : ℕ) → Behaves X 0 fuel (read_entries max_size fuel count)
    unfolding read_entries
    Behaves-read_entries fuel zero = Behaves-return fuel []
    Behaves-read_entries fuel (suc count) = Behaves-then fuel (Behaves-read_entry fuel) λ e.
        Behaves-then fuel (Behaves-read_entries fuel count) (λ es. Behaves-return fuel (e ∷ es))

    pub Behaves-read_header : (n : ℕ) → Behaves X 0 n (read_header max_size)
    unfolding read_header read_header_body
    Behaves-read_header n = Behaves-then n (Behaves-read_string8 max_size 4 n small) λ magic.
        Behaves-then n (Behaves-test n (eq_bytes magic rrac) protocol) λ _.
          Behaves-field 4 n (omega arith) λ message_size. Behaves-field 2 n (omega arith) λ version.
            Behaves-then n (Behaves-test n (version == 2) protocol) λ _.
              Behaves-field 2 n (omega arith) λ header_size.
                Behaves-in_limit (sub_uint32 header_size 12) n (
                  Behaves-then n (Behaves-read_node_id n 16) λ sender.
                    Behaves-then n (Behaves-read_node_id n 16) λ receiver.
                      Behaves-field 4 n (omega arith) λ sender_endpoint.
                        Behaves-field 4 n (omega arith) λ receiver_endpoint.
                          Behaves-string n λ sender_name. Behaves-string n λ receiver_name.
                            Behaves-string n λ meta. Behaves-field 2 n (omega arith) λ count.
                              Behaves-field 2 n (omega arith) λ id.
                                Behaves-field 2 n (omega arith) (λ res_id. Behaves-return n _))
