-- ===== src/Message/V4/Written.antt =====
-- What Write4 puts into the buffer for an element whose sizes are set.
use robotraconteur_pyodide.Prelude.{ℕ, zero, suc, ◌≤◌, ◌++◌, arith, append_assoc}
use robotraconteur_pyodide.Io.Encoding.{uint_x}
use robotraconteur_pyodide.Io.Numbers.{Writes-write_uint_x, Writes-write_string8_with_x_len}
use robotraconteur_pyodide.Io.Signed.{Writes-write_int_x}
use robotraconteur_pyodide.Io.Writes.{
  Writes, Writes->>, Writes-return, Writes-lift, Writes-write_number, Writes-in_limit, Writes-cast,
}
use robotraconteur_pyodide.Message.Data.{ElementFields, MessageElement, ElementData, Elements, has}
use robotraconteur_pyodide.Message.V2.Write.{write_each, write_data}
use robotraconteur_pyodide.Message.V2.Wire.{depth, depth_data, depth_elements}
use robotraconteur_pyodide.Message.V2.Written.{Writes-write_array}
use robotraconteur_pyodide.Message.V4.Write.{write_fields4, write_updated4, write_element4}
use robotraconteur_pyodide.Message.V4.Wire.{fields_wire4, element_wire4, data_wire4, elements_wire4}
use robotraconteur_pyodide.Message.V4.Parts.{Writes-when, Writes-write_extended}
use robotraconteur_pyodide.Message.V4.Invariant.{
  IsSized4, sized4, IsSizedData4, sized4_null, sized4_array, sized4_list, IsSizedElements4,
  sized4_nil, sized4_cons,
}
use robotraconteur_pyodide.Message.V4.Update.{length-element_wire4}
use robotraconteur_pyodide.Message.V4.Fixed.{update_data4_kept}

Writes-write_fields4 :
    (f : ElementFields) → Writes (write_fields4 f) (uint_x f.element_size ++ fields_wire4 f)
unfolding write_fields4 fields_wire4
Writes-write_fields4 f = Writes->> (Writes-write_uint_x f.element_size) (
    Writes->> (Writes-write_number 1 f.element_flags) (
      Writes->>
        (Writes-when (has f.element_flags 0x01) (Writes-write_string8_with_x_len f.element_name))
        (Writes->>
          (Writes-when (has f.element_flags 0x02) (Writes-write_uint_x f.element_name_code))
          (Writes->> (Writes-when (has f.element_flags 0x04) (Writes-write_int_x f.element_number))
            (Writes->> (Writes-write_number 2 f.element_type) (
              Writes->>
                (Writes-when (has f.element_flags 0x08)
                  (Writes-write_string8_with_x_len f.element_type_name))
                (Writes->>
                  (Writes-when (has f.element_flags 0x10)
                    (Writes-write_uint_x f.element_type_name_code))
                  (Writes->>
                    (Writes-when (has f.element_flags 0x20)
                      (Writes-write_string8_with_x_len f.meta_data))
                    (Writes->>
                      (Writes-when (has f.element_flags 0x80) (Writes-write_extended f.extended))
                      (Writes-write_uint_x f.data_count))))))))))

mutual
  unfolding element_wire4 depth write_updated4 write_data write_each write_element4

  pub Writes-write_element4 :
      (fuel : ℕ) {e : MessageElement}
      → IsSized4 e
      → depth e ≤ fuel
      → Writes (write_element4 fuel e) (element_wire4 e)
  Writes-write_element4 zero (sized4 v s) h = absurd (omega arith)
  Writes-write_element4 (suc fuel) (sized4 {f} {d} v s) h =
      Writes-lift _ (update_data4_kept (sized4 v s)) (
        Writes-in_limit f.element_size
          (Writes-cast
            (Writes->> (Writes-write_fields4 f) (Writes-write_data4 fuel s (omega arith)))
            (append_assoc (uint_x f.element_size) (fields_wire4 f) (data_wire4 d)))
          (length-element_wire4 (sized4 v s)))

  Writes-write_data4 :
      (fuel : ℕ) {d : ElementData}
      → IsSizedData4 d
      → depth_data d ≤ fuel
      → Writes (write_data (write_element4 fuel) d) (data_wire4 d)
  Writes-write_data4 fuel sized4_null h = Writes-return
  Writes-write_data4 fuel (sized4_array {a} (k, size) fits) h =
      rw k (Writes-write_array a k size fits)
  Writes-write_data4 fuel (sized4_list {t} k all_sized) h =
      rw k (Writes-write_elements4 fuel all_sized h)

  pub Writes-write_elements4 :
      (fuel : ℕ) {es : Elements}
      → IsSizedElements4 es
      → depth_elements es ≤ fuel
      → Writes (write_each (write_element4 fuel) es) (elements_wire4 es)
  Writes-write_elements4 fuel sized4_nil h = Writes-return
  Writes-write_elements4 fuel (sized4_cons {e} {es} v vs) h =
      Writes->> (Writes-write_element4 fuel v (omega arith))
        (Writes-write_elements4 fuel vs (omega arith))
