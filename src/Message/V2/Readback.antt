-- ===== src/Message/V2/Readback.antt =====
-- Read gives back what Write put into the buffer for an element whose sizes are set.
use robotraconteur_pyodide.Prelude.{
  ℕ, zero, suc, ◌+◌, ◌-◌, ◌*◌, ◌^◌, ◌≤◌, ◌<◌, ◌≡◌, ap, List, [], ◌++◌, append-nil, append_assoc,
  length, length-append, le_bytes, lt→ltb, le→leb, arith,
}
use robotraconteur_pyodide.Prelude.Words.{le_value-le_bytes_two, le_value-le_bytes_four}
use robotraconteur_pyodide.Prelude.Int.{pos}
use robotraconteur_pyodide.Outcome.{ok, Action, ◌>>=◌, return, lift}
use robotraconteur_pyodide.Arrays.{
  scalars, RrBaseArray, kind, element_size, rr_array_element_size_lem,
  allocate_rr_array_by_type_lem,
}
use robotraconteur_pyodide.Io.Reader.{read_array, distance_from_limit, ArrayBinaryReader}
use robotraconteur_pyodide.Io.Reads.{
  Reads, Reads->>=, Reads-return, Reads-lift, Reads-cast, Reads-read, Reads-read_number,
  Reads-read_string8, Reads-in_limit, reader,
}
use robotraconteur_pyodide.Message.Data.{
  ElementFields, MessageElement, element, ElementData, null, array, Elements, nil, type_id,
  fields_of, count_elements,
}
use robotraconteur_pyodide.Message.V2.Read.{
  sub_uint32, read_string16, read_fields, read_each, check_room, read_array_data, read_data,
  read_body, read_element,
}
use robotraconteur_pyodide.Message.V2.Wire.{
  string16, fields_wire, element_wire, data_wire, elements_wire, depth, depth_data, depth_elements,
  received, received_data, received_elements,
}
use robotraconteur_pyodide.Message.V2.Invariant.{
  IsSizedFields, IsSized, sized, IsSizedData, sized_null, sized_array, sized_list, IsSizedElements,
  sized_nil, sized_cons,
}
use robotraconteur_pyodide.Message.V2.Update.{length-fields_wire}

distance_at :
    (b : List ℕ) (p n l : ℕ) (ls : List ℕ)
    → l < 2 ^ 31
    → p ≤ l
    → distance_from_limit (reader b p n l ls) ≡ ok (pos (l - p), reader b p n l ls)
unfolding distance_from_limit
distance_at b p n l ls h k = ground arith

-- Where the limit leaves room for what follows, the check of the size passes.
Reads-check_room :
    {B : Type 0} (size : ℕ) (f : Unit {0} → Action ArrayBinaryReader B) {xs : List ℕ} {c : B}
    → size ≡ length xs
    → Reads (f tt) xs c
    → Reads (check_room size >>= f) xs c
unfolding check_room ◌>>=◌ lift return
Reads-check_room size f {xs} e h = record {
  apply = λ b p n l ls rest here room fits small.
      let cast : size < 2 ^ 31 = omega arith in
      let enough : size ≤ l - p = omega arith in
      rw
        (
          lt→ltb size (2 ^ 31) cast,
          distance_at b p n l ls small (omega arith),
          le→leb (size + 0) (l - p + 0) (omega arith),
        )
        (h.apply b p n l ls rest here room fits small);
}

pub Reads-read_array_data :
    (a : RrBaseArray)
    → kind a.type_id ≡ scalars
    → length a.contents ≡ element_size a.type_id * a.size
    → element_size a.type_id * a.size < 2 ^ 32
    → Reads (read_array_data a.type_id a.size) a.contents (array a)
unfolding read_array_data read_array
Reads-read_array_data a k size fits = Reads-lift _ (rr_array_element_size_lem a.type_id k) (
    Reads-check_room _ _ (ground arith) (
      Reads-lift _ (allocate_rr_array_by_type_lem a.type_id a.size k fits) (
        rw k (
          Reads-cast (Reads->>= _ (Reads-read _ a.contents (ground arith)) (Reads-return (array a)))
            (append-nil a.contents)))))

-- The fields that follow ElementSize.
abbrev rest_wire : ElementFields → List ℕ
rest_wire f =
    string16 f.element_name
    ++ (le_bytes 2 f.element_type
        ++ (string16 f.element_type_name
            ++ (string16 f.meta_data ++ (le_bytes 4 f.data_count ++ []))))

module _ (max_size : ℕ) (roomy : 2 ^ 16 ≤ max_size) where
  pub Reads-read_string16 :
      (s : List ℕ) → length s < 2 ^ 16 → Reads (read_string16 max_size) (string16 s) s
  unfolding read_string16 string16
  Reads-read_string16 s h =
      Reads->>= _ (Reads-read_number 2 (length s) (le_value-le_bytes_two (length s) h))
        (Reads-read_string8 max_size s (omega arith))

  Reads-read_fields :
      (f : ElementFields) (n : ℕ)
      → IsSizedFields f n
      → f.element_type < 2 ^ 16
      → f.data_count < 2 ^ 32
      → Reads
          (read_fields max_size f.element_size)
          (rest_wire f)
          (fields_of (received (element f null)))
  unfolding read_fields received
  Reads-read_fields f n v t c = Reads->>= _ (Reads-read_string16 f.element_name v.name) (
      Reads->>= _ (Reads-read_number 2 f.element_type (le_value-le_bytes_two f.element_type t)) (
        Reads->>= _ (Reads-read_string16 f.element_type_name v.type_name) (
          Reads->>= _ (Reads-read_string16 f.meta_data v.meta) (
            Reads->>= _ (Reads-read_number 4 f.data_count (le_value-le_bytes_four f.data_count c))
              (Reads-return _)))))

-- DataCount and ElementType fit their words.
type_id-lt : {c : ℕ} {n : List ℕ} {d : ElementData} → IsSizedData c n d → type_id d < 2 ^ 16
unfolding type_id kind
type_id-lt (sized_null h k) = omega arith
type_id-lt (sized_array (k, size) fits small count no_name) = ground arith
type_id-lt (sized_list k small count same_name all_sized) = ground arith

count-lt : {c : ℕ} {n : List ℕ} {d : ElementData} → IsSizedData c n d → c < 2 ^ 32
count-lt (sized_null h k) = omega arith
count-lt (sized_array (k, size) fits small count no_name) = omega arith
count-lt (sized_list k small count same_name all_sized) = omega arith

-- The bytes of an element, with its ElementSize in front of the rest.
element_wire_split :
    (f : ElementFields) (d : ElementData)
    → le_bytes 4 f.element_size ++ (rest_wire f ++ (data_wire d ++ [])) ≡ element_wire (element f d)
unfolding element_wire fields_wire string16
element_wire_split f d = simp (append_assoc, append-nil)

rest_size :
    (f : ElementFields) (d : ElementData)
    → IsSizedFields f (length (data_wire d))
    → length (rest_wire f ++ (data_wire d ++ [])) ≡ sub_uint32 f.element_size 4
unfolding element_wire
rest_size f d v = omega (
  arith,
  v,
  ap length (element_wire_split f d),
  length-append (fields_wire f) (data_wire d),
  length-fields_wire f,
)

module _ (max_size : ℕ) (roomy : 2 ^ 16 ≤ max_size) where
  mutual
    unfolding element_wire depth read_element read_body read_data read_each received type_id kind

    pub Reads-read_element :
        (fuel : ℕ) {e : MessageElement}
        → IsSized e
        → depth e ≤ fuel
        → Reads (read_element max_size fuel) (element_wire e) (received e)
    Reads-read_element zero (sized v t s) h = absurd (omega arith)
    Reads-read_element (suc fuel) (sized {f} {d} v t s) h =
        Reads-cast
          (Reads->>= _
            (Reads-read_number 4 f.element_size (le_value-le_bytes_four f.element_size v.fits))
            (Reads-in_limit _
              (Reads->>= _
                (Reads-read_fields max_size roomy f _ v (rw t (type_id-lt s)) (count-lt s))
                (Reads->>= _ (Reads-read_data fuel f.element_type s t (omega arith))
                  (Reads-return _)))
              (rest_size f d v)))
          (element_wire_split f d)

    Reads-read_data :
        (fuel : ℕ) (t : ℕ) {c : ℕ} {n : List ℕ} {d : ElementData}
        → IsSizedData c n d
        → t ≡ type_id d
        → depth_data d ≤ fuel
        → Reads (read_data (read_element max_size fuel) t c n) (data_wire d) (received_data d)
    Reads-read_data fuel t (sized_null e k) same h = rw same (Reads-return null)
    Reads-read_data fuel t (sized_array {a} (k, size) fits small count no_name) same h =
        rw (same, k, count) (Reads-read_array_data a k size fits)
    Reads-read_data fuel t (sized_list {t = ty} {name} {es} k small count same_name all_sized) same
          h =
        rw (same, k, count, same_name)
          (Reads-cast (Reads->>= _ (Reads-read_elements fuel all_sized h) (Reads-return _))
            (append-nil (elements_wire es)))

    pub Reads-read_elements :
        (fuel : ℕ) {es : Elements}
        → IsSizedElements es
        → depth_elements es ≤ fuel
        → Reads
            (read_each (read_element max_size fuel) (count_elements es))
            (elements_wire es)
            (received_elements es)
    Reads-read_elements fuel sized_nil h = Reads-return nil
    Reads-read_elements fuel (sized_cons {e} {es} v vs) h =
        Reads-cast
          (Reads->>= _ (Reads-read_element fuel v (omega arith))
            (Reads->>= _ (Reads-read_elements fuel vs (omega arith)) (Reads-return _)))
          (simp append-nil)
