-- ===== src/Message/V2/Written.antt =====
-- What Write puts into the buffer for an element whose sizes are set.
use robotraconteur_pyodide.Prelude.{
  ℕ, zero, suc, ◌*◌, ◌^◌, ◌≤◌, ◌<◌, ◌≡◌, List, length, lt→ltb, arith,
}
use robotraconteur_pyodide.Prelude.Int.{ℤ}
use robotraconteur_pyodide.Arrays.{scalars, RrBaseArray, kind, element_size}
use robotraconteur_pyodide.Io.Writer.{write_array}
use robotraconteur_pyodide.Io.Writes.{
  Writes, Writes->>, Writes-return, Writes-lift, Writes-write, Writes-write_number,
  Writes-write_string8, Writes-in_limit,
}
use robotraconteur_pyodide.Message.Data.{ElementFields, MessageElement, ElementData, Elements}
use robotraconteur_pyodide.Message.V2.Write.{
  write_string16, write_fields, write_each, write_data, write_updated, write_element,
}
use robotraconteur_pyodide.Message.V2.Wire.{
  string16, fields_wire, element_wire, data_wire, elements_wire, depth, depth_data, depth_elements,
}
use robotraconteur_pyodide.Message.V2.Invariant.{
  IsSizedFields, IsSized, sized, IsSizedData, sized_null, sized_array, sized_list, IsSizedElements,
  sized_nil, sized_cons,
}
use robotraconteur_pyodide.Message.V2.Update.{length-element_wire}
use robotraconteur_pyodide.Message.V2.Fixed.{update_data_kept}

pub Writes-write_string16 :
    (s : List ℕ) → length s < 2 ^ 16 → Writes (write_string16 s) (string16 s)
unfolding write_string16 string16
Writes-write_string16 s h =
    Writes-lift _ (rw (lt→ltb (length s) (2 ^ 16) h))
      (Writes->> (Writes-write_number 2 (length s)) (Writes-write_string8 s))

Writes-write_fields :
    (f : ElementFields) (n : ℕ) → IsSizedFields f n → Writes (write_fields f) (fields_wire f)
unfolding write_fields fields_wire
Writes-write_fields f n v = Writes->> (Writes-write_number 4 f.element_size) (
    Writes->> (Writes-write_string16 f.element_name v.name) (
      Writes->> (Writes-write_number 2 f.element_type) (
        Writes->> (Writes-write_string16 f.element_type_name v.type_name) (
          Writes->> (Writes-write_string16 f.meta_data v.meta)
            (Writes-write_number 4 f.data_count)))))

pub Writes-write_array :
    (a : RrBaseArray)
    → kind a.type_id ≡ scalars
    → length a.contents ≡ element_size a.type_id * a.size
    → element_size a.type_id * a.size < 2 ^ 32
    → Writes (write_array a) a.contents
unfolding write_array
Writes-write_array a k size fits = rw k (Writes-write a.contents _ (ground arith))

mutual
  unfolding element_wire depth write_updated write_data write_each write_element

  pub Writes-write_element :
      (lexical_cast : ℤ → List ℕ) (fuel : ℕ) {e : MessageElement}
      → IsSized e
      → depth e ≤ fuel
      → Writes (write_element lexical_cast fuel e) (element_wire e)
  Writes-write_element lexical_cast zero (sized v t s) h = absurd (omega arith)
  Writes-write_element lexical_cast (suc fuel) (sized {f} {d} v t s) h =
      Writes-lift _ (update_data_kept lexical_cast (sized v t s)) (
        Writes-in_limit f.element_size
          (Writes->> (Writes-write_fields f _ v)
            (Writes-write_data lexical_cast fuel s (omega arith)))
          (length-element_wire (sized v t s)))

  Writes-write_data :
      (lexical_cast : ℤ → List ℕ) (fuel : ℕ) {c : ℕ} {n : List ℕ} {d : ElementData}
      → IsSizedData c n d
      → depth_data d ≤ fuel
      → Writes (write_data (write_element lexical_cast fuel) d) (data_wire d)
  Writes-write_data lexical_cast fuel (sized_null e k) h = Writes-return
  Writes-write_data lexical_cast fuel (sized_array {a} (k, size) fits small count no_name) h =
      rw k (Writes-write_array a k size fits)
  Writes-write_data lexical_cast fuel (sized_list {t} k small count same_name all_sized) h =
      rw k (Writes-write_elements lexical_cast fuel all_sized h)

  pub Writes-write_elements :
      (lexical_cast : ℤ → List ℕ) (fuel : ℕ) {es : Elements}
      → IsSizedElements es
      → depth_elements es ≤ fuel
      → Writes (write_each (write_element lexical_cast fuel) es) (elements_wire es)
  Writes-write_elements lexical_cast fuel sized_nil h = Writes-return
  Writes-write_elements lexical_cast fuel (sized_cons {e} {es} v vs) h =
      Writes->> (Writes-write_element lexical_cast fuel v (omega arith))
        (Writes-write_elements lexical_cast fuel vs (omega arith))
