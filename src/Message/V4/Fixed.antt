-- ===== src/Message/V4/Fixed.antt =====
-- An element whose sizes are set is left as it is by another UpdateData4.
use robotraconteur_pyodide.Prelude.{
  ℕ, ◌+◌, ◌*◌, ◌^◌, ◌<◌, ◌≡◌, refl, sym, ap, ◌∙◌, Bool, List, length, length-append, arith,
}
use robotraconteur_pyodide.Outcome.{ok}
use robotraconteur_pyodide.Arrays.{scalars, RrBaseArray, kind, element_size, rr_array_element_size}
use robotraconteur_pyodide.Io.Reader.{size_add}
use robotraconteur_pyodide.Message.Data.{
  ElementFields, MessageElement, ElementData, array, Elements, cons, element_size_of,
}
use robotraconteur_pyodide.Message.V4.Size.{
  count_and_type_name4, update_fields4, update_data4, data_size4, update_elements4,
}
use robotraconteur_pyodide.Message.V4.Wire.{element_wire4, data_wire4, elements_wire4}
use robotraconteur_pyodide.Message.V4.Invariant.{
  IsElement4, IsSizedFields4, IsSized4, sized4, IsSizedData4, sized4_null, sized4_array,
  sized4_list, IsSizedElements4, sized4_nil, sized4_cons,
}
use robotraconteur_pyodide.Message.V4.Update.{length-element_wire4}
use robotraconteur_pyodide.Message.V4.Sized.{element-IsSized4, nested_size4}

update_fields4_kept :
    (f : ElementFields) (d : ElementData) (n : ℕ) → IsSizedFields4 f d n → update_fields4 f d ≡ ok f
unfolding update_fields4
update_fields4_kept f d n v = rw (v.counted, v.named, v.normal, ← v.type) refl

scalar_size4 :
    (b : Bool) (c : ℕ) (name : List ℕ) (a : RrBaseArray)
    → kind a.type_id ≡ scalars
    → length a.contents ≡ element_size a.type_id * a.size
    → element_size a.type_id * a.size < 2 ^ 32
    → count_and_type_name4 b (array a) ≡ ok (c, name)
    → data_size4 c (array a) ≡ ok (length a.contents, array a)
unfolding count_and_type_name4 data_size4 rr_array_element_size
scalar_size4 b c name a k size fits hc = ground arith

mutual
  unfolding update_data4 data_wire4 data_size4

  pub update_data4_kept : {e : MessageElement} → IsSized4 e → update_data4 e ≡ ok e
  update_data4_kept (sized4 {f} {d} v s) =
      rw
        (
          update_fields4_kept f d _ v,
          v.names,
          data_size4_same _ f.data_count f.element_type_name s v.counted
              (omega (arith, v.exact, v.fits)),
          v.size,
        )
        refl

  data_size4_same :
      (b : Bool) (c : ℕ) (name : List ℕ) {d : ElementData}
      → IsSizedData4 d
      → count_and_type_name4 b d ≡ ok (c, name)
      → length (data_wire4 d) < 2 ^ 32
      → data_size4 c d ≡ ok (length (data_wire4 d), d)
  data_size4_same b c name sized4_null h small = refl
  data_size4_same b c name (sized4_array {a} (k, size) fits) h small =
      scalar_size4 b c name a k size fits h
  data_size4_same b c name (sized4_list {t} {name = own} {es} k all_sized) h small =
      nested_size4 c t own es k ∙ rw (update_elements4_kept all_sized small)

  pub update_elements4_kept :
      {es : Elements}
      → IsSizedElements4 es
      → length (elements_wire4 es) < 2 ^ 32
      → update_elements4 es ≡ ok (length (elements_wire4 es), es)
  update_elements4_kept sized4_nil small = refl
  update_elements4_kept (sized4_cons {e} {es} v vs) small =
      let split : length (elements_wire4 (cons e es))
          ≡ length (element_wire4 e) + length (elements_wire4 es) =
        length-append (element_wire4 e) (elements_wire4 es) in
      let others : length (elements_wire4 es) < 2 ^ 32 = omega arith in
      let sum : size_add (element_size_of e) (length (elements_wire4 es))
          ≡ length (elements_wire4 (cons e es)) =
        omega (arith, length-element_wire4 v) in
      rw (update_data4_kept v, update_elements4_kept vs others) (ap (λ m. ok (m, cons e es)) sum)

-- Where UpdateData4 succeeds on an element that holds what version 4 can carry, and the bytes of the
-- element that it leaves are below 2 ^ 32, ElementSize of that element is their number, and another
-- UpdateData4 succeeds and changes nothing.
pub update_data4_lem :
    (e e' : MessageElement)
    → IsElement4 e
    → update_data4 e ≡ ok e'
    → length (element_wire4 e') < 2 ^ 32
    → (element_size_of e' ≡ length (element_wire4 e')) × (update_data4 e' ≡ ok e')
update_data4_lem e e' v h small =
    let set = element-IsSized4 e v h small in
    (sym (length-element_wire4 set), update_data4_kept set)
