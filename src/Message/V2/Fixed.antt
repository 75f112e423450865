-- ===== src/Message/V2/Fixed.antt =====
-- An element or an entry whose sizes are set is left as it is by another UpdateData.
use robotraconteur_pyodide.Prelude.{
  ℕ, ◌+◌, ◌*◌, ◌^◌, ◌<◌, ◌≡◌, refl, ap, ◌∙◌, List, ◌&&◌, not, false, length, arith, le→ltb, ◌-◌,
}
use robotraconteur_pyodide.Prelude.Int.{ℤ}
use robotraconteur_pyodide.Outcome.{ok, bind}
use robotraconteur_pyodide.Arrays.{scalars, RrBaseArray, kind, element_size, rr_array_element_size}
use robotraconteur_pyodide.Message.Data.{
  ElementFields, MessageElement, element, ElementData, array, Elements, cons, type_id,
  element_flags_version2_compat, within_uint32, has, element_number_flag, element_name_str,
}
use robotraconteur_pyodide.Message.V2.Size.{
  name_from_number, count_and_type_name, update_fields, update_data, data_size, update_elements,
}
use robotraconteur_pyodide.Message.V2.Wire.{data_wire, elements_wire}
use robotraconteur_pyodide.Message.V2.Invariant.{
  IsElement, IsSized, sized, IsSizedData, sized_null, sized_array, sized_list, IsSizedElements,
  sized_nil, sized_cons,
}
use robotraconteur_pyodide.Message.V2.Update.{
  update_data-IsSized, three_strings_fit, nested_size, cons_total,
}

numbered_not :
    (x : ℕ)
    → x ≡ element_flags_version2_compat
    → (has x element_number_flag && not (has x element_name_str)) ≡ false
numbered_not x h = rw h

name_from_number_kept :
    (lexical_cast : ℤ → List ℕ) (f : ElementFields)
    → f.element_flags ≡ element_flags_version2_compat
    → name_from_number lexical_cast f ≡ f
unfolding name_from_number
name_from_number_kept lexical_cast f h = rw (numbered_not f.element_flags h)

update_fields_kept :
    (lexical_cast : ℤ → List ℕ) (f : ElementFields) (d : ElementData)
    → f.element_flags ≡ element_flags_version2_compat
    → f.element_type ≡ type_id d
    → count_and_type_name d ≡ ok (f.data_count, f.element_type_name)
    → update_fields lexical_cast f d ≡ ok f
unfolding update_fields
update_fields_kept lexical_cast f d h k m =
    rw (name_from_number_kept lexical_cast f h) (ground (arith, h, k, m))

counted :
    {c : ℕ} {n : List ℕ} {d : ElementData} → IsSizedData c n d → count_and_type_name d ≡ ok (c, n)
unfolding count_and_type_name
counted (sized_null h k) = ground arith
counted (sized_array (k, size) fits small count no_name) = ground arith
counted (sized_list k small count same_name all_sized) = ground arith

array_size :
    (lexical_cast : ℤ → List ℕ) (c : ℕ) (a : RrBaseArray)
    → kind a.type_id ≡ scalars
    → length a.contents ≡ element_size a.type_id * a.size
    → element_size a.type_id * a.size < 2 ^ 32
    → c ≡ a.size
    → data_size lexical_cast c (array a) ≡ ok (length a.contents, array a)
unfolding data_size rr_array_element_size
array_size lexical_cast c a k size fits count = ground arith

resized :
    (f : ElementFields) (d : ElementData) (n : ℕ)
    → f.element_size
      ≡ 16 + (length f.element_name + length f.element_type_name + length f.meta_data) + n
    → f.element_size < 2 ^ 32
    → bind
        (within_uint32
          (16 + (length f.element_name + length f.element_type_name + length f.meta_data) + n))
        (λ size. ok (element (record f { element_size = size }) d))
      ≡ ok (element f d)
resized f d n h k = rw (← h, le→ltb (2 ^ 32 - 1) f.element_size (omega arith))

mutual
  unfolding update_data data_wire

  pub update_data_kept :
      (lexical_cast : ℤ → List ℕ) {e : MessageElement}
      → IsSized e
      → update_data lexical_cast e ≡ ok e
  update_data_kept lexical_cast (sized {f} {d} v t s) =
      rw
        (
          update_fields_kept lexical_cast f d v.flags t (counted s),
          three_strings_fit f.element_name f.element_type_name f.meta_data v.name v.type_name
              v.meta,
          data_size_kept lexical_cast s,
        )
        (resized f d (length (data_wire d)) v.size v.fits)

  data_size_kept :
      (lexical_cast : ℤ → List ℕ) {c : ℕ} {n : List ℕ} {d : ElementData}
      → IsSizedData c n d
      → data_size lexical_cast c d ≡ ok (length (data_wire d), d)
  data_size_kept lexical_cast (sized_null h k) = refl
  data_size_kept lexical_cast (sized_array {c} {a} (k, size) fits small count no_name) =
      array_size lexical_cast c a k size fits count
  data_size_kept lexical_cast (sized_list {c} {t} {name} {es} k small count same_name all_sized) =
      nested_size lexical_cast c t name es k ∙ rw (update_elements_kept lexical_cast all_sized)

  pub update_elements_kept :
      (lexical_cast : ℤ → List ℕ) {es : Elements}
      → IsSizedElements es
      → update_elements lexical_cast es ≡ ok (length (elements_wire es), es)
  update_elements_kept lexical_cast sized_nil = refl
  update_elements_kept lexical_cast (sized_cons {e} {es} v vs) =
      rw (update_data_kept lexical_cast v, update_elements_kept lexical_cast vs)
        (ap (λ m. ok (m, cons e es)) (cons_total es v refl))

-- An UpdateData that succeeds, on an element that holds what its types say, is done once and for all:
-- another UpdateData succeeds and changes nothing.
pub update_data_twice :
    (e : MessageElement) (lexical_cast : ℤ → List ℕ) (e' : MessageElement)
    → IsElement e
    → update_data lexical_cast e ≡ ok e'
    → update_data lexical_cast e' ≡ ok e'
update_data_twice e lexical_cast e' v h =
    update_data_kept lexical_cast (update_data-IsSized e lexical_cast e' v h)
