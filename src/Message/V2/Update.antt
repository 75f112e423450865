-- ===== src/Message/V2/Update.antt =====
-- UpdateData sets the sizes, and an element whose sizes are set is left as it is.
use robotraconteur_pyodide.Prelude.{
  ℕ, suc, ◌+◌, ◌*◌, ◌^◌, ◌<◌, ◌≡◌, refl, sym, ap, subst, ◌∙◌, List, [], ◌++◌, length, length-append,
  le_bytes, arith,
}
use robotraconteur_pyodide.Prelude.Int.{ℤ}
use robotraconteur_pyodide.Outcome.{ok, bind, bind-eq-ok, ok-injective}
use robotraconteur_pyodide.Arrays.{
  scalars, nested, RrBaseArray, kind, element_size, rr_array_element_size,
}
use robotraconteur_pyodide.Message.Data.{
  ElementFields, MessageElement, element, ElementData, null, array, nested_list, Elements, nil,
  cons, element_size_of, type_id, count_elements, within_uint32, element_flags_version2_compat,
}
use robotraconteur_pyodide.Message.V2.Size.{
  three_strings, count_and_type_name, update_fields, update_data, data_size, update_elements,
}
use robotraconteur_pyodide.Message.V2.Wire.{
  string16, fields_wire, element_wire, data_wire, elements_wire,
}
use robotraconteur_pyodide.Message.V2.Invariant.{
  IsElement, of_data, IsData, no_data, array_data, list_data, IsElements, no_elements,
  more_elements, IsSized, sized, IsSizedData, sized_null, sized_array, sized_list, IsSizedElements,
  sized_nil, sized_cons,
}

pub length-string16 : (s : List ℕ) → length (string16 s) ≡ 2 + length s
unfolding string16
length-string16 s = omega (arith, length-append (le_bytes 2 (length s)) s)

-- The bytes in front of the data.
pub length-fields_wire :
    (f : ElementFields)
    → length (fields_wire f)
      ≡ 16 + (length f.element_name + length f.element_type_name + length f.meta_data)
unfolding fields_wire
length-fields_wire f = omega (
  arith,
  length-append (le_bytes 4 f.element_size) (
      string16 f.element_name
      ++ (le_bytes 2 f.element_type
          ++ (string16 f.element_type_name ++ (string16 f.meta_data ++ le_bytes 4 f.data_count)))),
  length-append (string16 f.element_name) (
      le_bytes 2 f.element_type
      ++ (string16 f.element_type_name ++ (string16 f.meta_data ++ le_bytes 4 f.data_count))),
  length-string16 f.element_name,
  length-append (string16 f.element_type_name) (string16 f.meta_data ++ le_bytes 4 f.data_count),
  length-string16 f.element_type_name,
  length-append (string16 f.meta_data) (le_bytes 4 f.data_count),
  length-string16 f.meta_data,
)

-- The bytes of an element are as many as its ElementSize says.
pub length-element_wire :
    {e : MessageElement} → IsSized e → length (element_wire e) ≡ element_size_of e
unfolding element_wire
length-element_wire (sized {f} {d} v t s) =
    omega (arith, v, length-append (fields_wire f) (data_wire d), length-fields_wire f)

pub three_strings_lem :
    (a b c : List ℕ) {n : ℕ}
    → three_strings a b c ≡ ok n
    → (length a < 2 ^ 16)
      × (length b < 2 ^ 16)
      × (length c < 2 ^ 16)
      × (n ≡ length a + length b + length c)
unfolding three_strings
three_strings_lem a b c h = ground arith

pub three_strings_fit :
    (a b c : List ℕ)
    → length a < 2 ^ 16
    → length b < 2 ^ 16
    → length c < 2 ^ 16
    → three_strings a b c ≡ ok (length a + length b + length c)
unfolding three_strings
three_strings_fit a b c h k m = ground arith

update_fields_lem :
    (lexical_cast : ℤ → List ℕ) (f g : ElementFields) (d : ElementData)
    → update_fields lexical_cast f d ≡ ok g
    → (g.element_flags ≡ element_flags_version2_compat)
      × (g.element_type ≡ type_id d)
      × (count_and_type_name d ≡ ok (g.data_count, g.element_type_name))
unfolding update_fields
update_fields_lem lexical_cast f g d h = ground arith

sized_scalars :
    (lexical_cast : ℤ → List ℕ) (c n : ℕ) (name : List ℕ) (a : RrBaseArray) {d : ElementData}
    → kind a.type_id ≡ scalars
    → element_size a.type_id * a.size < 2 ^ 32
    → count_and_type_name (array a) ≡ ok (c, name)
    → data_size lexical_cast c (array a) ≡ ok (n, d)
    → (a.size < 2 ^ 32)
      × (c ≡ a.size)
      × (name ≡ [])
      × (n ≡ element_size a.type_id * a.size)
      × (d ≡ array a)
unfolding count_and_type_name data_size rr_array_element_size
sized_scalars lexical_cast c n name a k fits hc hd = ground arith

pub nested_size :
    (lexical_cast : ℤ → List ℕ) (c t : ℕ) (name : List ℕ) (es : Elements)
    → kind t ≡ nested
    → data_size lexical_cast c (nested_list t name es)
      ≡ bind (update_elements lexical_cast es) (λ (n, es'). ok (n, nested_list t name es'))
unfolding data_size
nested_size lexical_cast c t name es k = rw (k, data_size)

sized_nested :
    (lexical_cast : ℤ → List ℕ) (c n t : ℕ) (name type_name : List ℕ) (es : Elements)
    {d : ElementData}
    → kind t ≡ nested
    → count_and_type_name (nested_list t type_name es) ≡ ok (c, name)
    → data_size lexical_cast c (nested_list t type_name es) ≡ ok (n, d)
    → (es' : Elements) × (count_elements es < 2 ^ 32)
      × (c ≡ count_elements es)
      × (name ≡ type_name)
      × (update_elements lexical_cast es ≡ ok (n, es'))
      × (d ≡ nested_list t type_name es')
unfolding count_and_type_name
sized_nested lexical_cast c n t name type_name es k hc hd =
    let hd' = sym (nested_size lexical_cast c t type_name es k) ∙ hd in
    let ((m, es'), e, f) = bind-eq-ok (update_elements lexical_cast es) _ hd' in
    (es', ground arith, ground arith, ground arith, ground (arith, e, f), ground (arith, f))

null_size :
    (lexical_cast : ℤ → List ℕ) (c n : ℕ) (name : List ℕ) {d : ElementData}
    → count_and_type_name null ≡ ok (c, name)
    → data_size lexical_cast c null ≡ ok (n, d)
    → (c ≡ 0) × (name ≡ []) × (n ≡ 0) × (d ≡ null)
unfolding count_and_type_name data_size
null_size lexical_cast c n name hc hd = ground arith

pub cons_total :
    {e : MessageElement} (es : Elements) {n : ℕ}
    → IsSized e
    → n ≡ length (elements_wire es)
    → element_size_of e + n ≡ length (elements_wire (cons e es))
unfolding elements_wire
cons_total {e} es v h =
    omega (arith, length-element_wire v, length-append (element_wire e) (elements_wire es))

mutual
  unfolding update_data data_wire type_id

  element-IsSized :
      (e : MessageElement) (lexical_cast : ℤ → List ℕ) {e' : MessageElement}
      → IsElement e
      → update_data lexical_cast e ≡ ok e'
      → IsSized e'
  element-IsSized (element f d) lexical_cast (of_data v) h =
      let (g, hg, h1) = bind-eq-ok (update_fields lexical_cast f d) _ h in
      let (s, hs, h2) =
        bind-eq-ok (three_strings g.element_name g.element_type_name g.meta_data) _ h1 in
      let ((n, d'), hd, h3) = bind-eq-ok (data_size lexical_cast g.data_count d) _ h2 in
      let (size, hz, h4) = bind-eq-ok (within_uint32 (16 + s + n)) _ h3 in
      let (flags, type, counted) = update_fields_lem lexical_cast f g d hg in
      let (la, lb, lc, total) = three_strings_lem _ _ _ hs in
      let (wire, data_sized, same_type) =
        data_size-IsSized d lexical_cast g.data_count n g.element_type_name v counted hd in
      subst IsSized (ok-injective h4) (
        sized
          (record {
            flags = flags;
            name = la;
            type_name = lb;
            meta = lc;
            size = ground arith;
            fits = ground arith;
          })
          (type ∙ sym same_type) data_sized)

  data_size-IsSized :
      (d : ElementData) (lexical_cast : ℤ → List ℕ) (c n : ℕ) (name : List ℕ) {d' : ElementData}
      → IsData d
      → count_and_type_name d ≡ ok (c, name)
      → data_size lexical_cast c d ≡ ok (n, d')
      → (n ≡ length (data_wire d')) × IsSizedData c name d' × (type_id d' ≡ type_id d)
  data_size-IsSized null lexical_cast c n name no_data hc hd =
      let (count, no_name, total, same) = null_size lexical_cast c n name hc hd in
      rw same (total, sized_null count no_name, refl)
  data_size-IsSized (array a) lexical_cast c n name (array_data (k, size) fits) hc hd =
      let (small, count, no_name, total, same) =
        sized_scalars lexical_cast c n name a k fits hc hd in
      rw same (total ∙ sym size, sized_array (k, size) fits small count no_name, refl)
  data_size-IsSized (nested_list t type_name es) lexical_cast c n name (list_data k v) hc hd =
      let (es', small, count, same_name, updated, same) =
        sized_nested lexical_cast c n t name type_name es k hc hd in
      let (total, all_sized, same_count) = update_elements-IsSized es lexical_cast n v updated in
      rw same (
        total,
        sized_list k (rw same_count small) (count ∙ sym same_count) same_name all_sized,
        refl,
      )

  pub update_elements-IsSized :
      (es : Elements) (lexical_cast : ℤ → List ℕ) (n : ℕ) {es' : Elements}
      → IsElements es
      → update_elements lexical_cast es ≡ ok (n, es')
      → (n ≡ length (elements_wire es'))
        × IsSizedElements es'
        × (count_elements es' ≡ count_elements es)
  update_elements-IsSized nil lexical_cast n no_elements h =
      let e = ok-injective h in
      subst
        (λ p. (p.0 ≡ length (elements_wire p.1)) × IsSizedElements p.1 × (count_elements p.1 ≡ 0)) e
        (refl, sized_nil, refl)
  update_elements-IsSized (cons e es) lexical_cast n (more_elements v vs) h =
      let (e', he, h1) = bind-eq-ok (update_data lexical_cast e) _ h in
      let ((m, es'), hes, h2) = bind-eq-ok (update_elements lexical_cast es) _ h1 in
      let one = element-IsSized e lexical_cast v he in
      let (total, rest, same) = update_elements-IsSized es lexical_cast m vs hes in
      subst
        (λ p.
          (p.0 ≡ length (elements_wire p.1))
          × IsSizedElements p.1
          × (count_elements p.1 ≡ count_elements (cons e es)))
        (ok-injective h2) (cons_total es' one total, sized_cons one rest, ap suc same)

-- The element that UpdateData leaves, when it succeeds on one that holds what its types say, has the
-- size of its own encoding, a count and a type name that fit its data, and so on for every nested
-- element.
pub update_data-IsSized :
    (e : MessageElement) (lexical_cast : ℤ → List ℕ) (e' : MessageElement)
    → IsElement e
    → update_data lexical_cast e ≡ ok e'
    → IsSized e'
update_data-IsSized e lexical_cast e' v h = element-IsSized e lexical_cast v h
