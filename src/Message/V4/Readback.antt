-- ===== src/Message/V4/Readback.antt =====
-- Read4 gives back what Write4 put into the buffer for an element whose sizes are set.
use robotraconteur_pyodide.Prelude.{
  ℕ, zero, suc, ◌^◌, ◌≤◌, ◌<◌, ◌≡◌, Bool, List, [], ◌++◌, append-nil, length, length-append, arith,
}
use robotraconteur_pyodide.Prelude.Words.{le_value-le_bytes_one, le_value-le_bytes_two}
use robotraconteur_pyodide.Outcome.{ok}
use robotraconteur_pyodide.Arrays.{scalars, nested, RrBaseArray, kind}
use robotraconteur_pyodide.Io.Sizes.{get_uint_x_byte_count}
use robotraconteur_pyodide.Io.Numbers.{length-uint_x, Reads-read_uint_x}
use robotraconteur_pyodide.Io.Signed.{Reads-read_int_x}
use robotraconteur_pyodide.Io.Reads.{
  Reads, Reads->>=, Reads-return, Reads-cast, Reads-read_number, Reads-in_limit,
}
use robotraconteur_pyodide.Message.Data.{
  ElementFields, MessageElement, ElementData, null, array, nested_list, Elements, nil, type_id,
  count_elements, has,
}
use robotraconteur_pyodide.Message.V2.Read.{sub_uint32, read_each}
use robotraconteur_pyodide.Message.V2.Wire.{depth, depth_data, depth_elements}
use robotraconteur_pyodide.Message.V2.Readback.{Reads-read_array_data}
use robotraconteur_pyodide.Message.V4.Size.{count_and_type_name4}
use robotraconteur_pyodide.Message.V4.Read.{
  MaxSizes, read_fields4, read_data4, read_body4, read_element4,
}
use robotraconteur_pyodide.Message.V4.Wire.{
  kept, fields_wire4, element_wire4, data_wire4, elements_wire4, received_fields4, received4,
  received_data4, received_elements4,
}
use robotraconteur_pyodide.Message.V4.Parts.{
  Reads-optional, IsRoomy, Reads-read_string_x, Reads-read_extended,
}
use robotraconteur_pyodide.Message.V4.Invariant.{
  IsSizedFields4, IsSized4, sized4, IsSizedData4, sized4_null, sized4_array, sized4_list,
  IsSizedElements4, sized4_nil, sized4_cons,
}

array_count :
    (b : Bool) (a : RrBaseArray) {c : ℕ} {name : List ℕ}
    → kind a.type_id ≡ scalars
    → count_and_type_name4 b (array a) ≡ ok (c, name)
    → (c ≡ a.size) × (c < 2 ^ 32)
unfolding count_and_type_name4
array_count b a k h = ground arith

list_count :
    (b : Bool) (t : ℕ) (own : List ℕ) (es : Elements) {c : ℕ} {name : List ℕ}
    → kind t ≡ nested
    → count_and_type_name4 b (nested_list t own es) ≡ ok (c, name)
    → (c ≡ count_elements es) × (c < 2 ^ 32)
unfolding count_and_type_name4
list_count b t own es k h = ground arith

null_count : (b : Bool) {c : ℕ} {name : List ℕ} → count_and_type_name4 b null ≡ ok (c, name) → c ≡ 0
unfolding count_and_type_name4
null_count b h = ground arith

count_small :
    (b : Bool) {d : ElementData} {c : ℕ} {name : List ℕ}
    → IsSizedData4 d
    → count_and_type_name4 b d ≡ ok (c, name)
    → c < 2 ^ 32
count_small b sized4_null h = omega (arith, null_count b h)
count_small b (sized4_array {a} (k, size) fits) h = (array_count b a k h).1
count_small b (sized4_list {t} {name} {es} k v) h = (list_count b t name es k h).1

type_small : {d : ElementData} → IsSizedData4 d → type_id d < 2 ^ 16
unfolding type_id kind
type_small sized4_null = omega arith
type_small (sized4_array (k, size) fits) = ground arith
type_small (sized4_list k v) = ground arith

rest_size4 :
    (f : ElementFields) (d : ElementData)
    → IsSizedFields4 f d (length (data_wire4 d))
    → length (fields_wire4 f ++ (data_wire4 d ++ []))
      ≡ sub_uint32 f.element_size (get_uint_x_byte_count f.element_size)
rest_size4 f d v = rw (append-nil (data_wire4 d)) (
    omega (
      arith,
      v.exact,
      v.fits,
      length-append (fields_wire4 f) (data_wire4 d),
      length-uint_x f.element_size,
    ))

module _ (c : MaxSizes) (roomy : IsRoomy c) where
  Reads-read_fields4 :
      (f : ElementFields) (d : ElementData) (n : ℕ)
      → IsSizedFields4 f d n
      → f.element_type < 2 ^ 16
      → f.data_count < 2 ^ 32
      → Reads (read_fields4 c f.element_size) (fields_wire4 f) (received_fields4 f)
  unfolding read_fields4 fields_wire4 received_fields4
  Reads-read_fields4 f d n v t small =
      Reads-cast
        (Reads->>= _ (Reads-read_number 1 _ (le_value-le_bytes_one _ v.fields.flags)) (
          Reads->>= _
            (Reads-optional (has f.element_flags 0x01) _
              (Reads-read_string_x c roomy _ v.fields.name))
            (Reads->>= _
              (Reads-optional (has f.element_flags 0x02) _ (Reads-read_uint_x _ v.fields.name_code))
              (Reads->>= _
                (Reads-optional (has f.element_flags 0x04) _ (Reads-read_int_x _ v.fields.number))
                (Reads->>= _ (Reads-read_number 2 _ (le_value-le_bytes_two _ t)) (
                  Reads->>= _
                    (Reads-optional (has f.element_flags 0x08) _
                      (Reads-read_string_x c roomy _ v.type_name))
                    (Reads->>= _
                      (Reads-optional (has f.element_flags 0x10) _
                        (Reads-read_uint_x _ v.fields.type_name_code))
                      (Reads->>= _
                        (Reads-optional (has f.element_flags 0x20) _
                          (Reads-read_string_x c roomy _ v.fields.meta))
                        (Reads->>= _
                          (Reads-optional (has f.element_flags 0x80) _
                            (Reads-read_extended c roomy _ v.fields.extended))
                          (Reads->>= _ (Reads-read_uint_x _ small) (Reads-return _)))))))))))
        (simp append-nil)

  mutual
    unfolding element_wire4 depth read_element4 read_body4 read_data4 read_each received4 type_id
        kind received_fields4

    pub Reads-read_element4 :
        (fuel : ℕ) {e : MessageElement}
        → IsSized4 e
        → depth e ≤ fuel
        → Reads (read_element4 c fuel) (element_wire4 e) (received4 e)
    Reads-read_element4 zero (sized4 v s) h = absurd (omega arith)
    Reads-read_element4 (suc fuel) (sized4 {f} {d} v s) h =
        let few : f.data_count < 2 ^ 32 = count_small _ s v.counted in
        Reads-cast
          (Reads->>= _ (Reads-read_uint_x f.element_size v.fits) (
            Reads-in_limit _
              (Reads->>= _ (Reads-read_fields4 f d _ v (rw v.type (type_small s)) few) (
                Reads->>= _
                  (Reads-read_data4 fuel f.element_type
                    (kept (has f.element_flags 0x08) [] f.element_type_name) _ s v.type v.counted
                    (omega arith))
                  (Reads-return _)))
              (rest_size4 f d v)))
          (simp append-nil)

    Reads-read_data4 :
        (fuel t : ℕ) (type_name : List ℕ) (b : Bool) {n : ℕ} {name : List ℕ} {d : ElementData}
        → IsSizedData4 d
        → t ≡ type_id d
        → count_and_type_name4 b d ≡ ok (n, name)
        → depth_data d ≤ fuel
        → Reads
            (read_data4 (read_element4 c fuel) t n type_name)
            (data_wire4 d)
            (received_data4 type_name d)
    Reads-read_data4 fuel t type_name b sized4_null same count h = rw same (Reads-return null)
    Reads-read_data4 fuel t type_name b (sized4_array {a} (k, size) fits) same count h =
        rw (same, k, (array_count b a k count).0) (Reads-read_array_data a k size fits)
    Reads-read_data4 fuel t type_name b (sized4_list {t = ty} {name = own} {es} k all_sized) same
          count h =
        rw (same, k, (list_count b ty own es k count).0)
          (Reads-cast (Reads->>= _ (Reads-read_elements4 fuel all_sized h) (Reads-return _))
            (append-nil (elements_wire4 es)))

    pub Reads-read_elements4 :
        (fuel : ℕ) {es : Elements}
        → IsSizedElements4 es
        → depth_elements es ≤ fuel
        → Reads
            (read_each (read_element4 c fuel) (count_elements es))
            (elements_wire4 es)
            (received_elements4 es)
    Reads-read_elements4 fuel sized4_nil h = Reads-return nil
    Reads-read_elements4 fuel (sized4_cons {e} {es} v vs) h =
        Reads-cast
          (Reads->>= _ (Reads-read_element4 fuel v (omega arith))
            (Reads->>= _ (Reads-read_elements4 fuel vs (omega arith)) (Reads-return _)))
          (simp append-nil)
