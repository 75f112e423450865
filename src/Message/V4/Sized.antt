-- ===== src/Message/V4/Sized.antt =====
-- UpdateData4 sets the sizes of an element, and an element whose sizes are set is left as it is.
use robotraconteur_pyodide.Prelude.{
  ℕ, suc, ◌+◌, ◌*◌, ◌^◌, ◌<◌, ◌≡◌, refl, sym, ap, subst, ◌∙◌, Bool, List, ◌++◌, length,
  length-append, arith,
}
use robotraconteur_pyodide.Outcome.{ok, bind, bind-eq-ok, ok-injective}
use robotraconteur_pyodide.Arrays.{
  scalars, nested, RrBaseArray, kind, element_size, rr_array_element_size,
}
use robotraconteur_pyodide.Io.Reader.{size_add}
use robotraconteur_pyodide.Io.Sizes.{get_uint_x_byte_count, get_size_plus_uint_x}
use robotraconteur_pyodide.Io.Encoding.{uint_x}
use robotraconteur_pyodide.Message.Data.{
  ElementFields, MessageElement, element, ElementData, null, array, nested_list, Elements, nil,
  cons, type_id, has, count_elements,
}
use robotraconteur_pyodide.Message.V4.Size.{
  sum_sizes, count_and_type_name4, names_size4, update_fields4, update_data4, data_size4,
  update_elements4,
}
use robotraconteur_pyodide.Message.V4.Wire.{fields_wire4, element_wire4, data_wire4, elements_wire4}
use robotraconteur_pyodide.Message.V4.Invariant.{
  IsElement4, of_fields, IsData4, no_data4, array_data4, list_data4, IsElements4, no_elements4,
  more_elements4, IsSized4, sized4, IsSizedData4, sized4_null, sized4_array, sized4_list,
  IsSizedElements4, sized4_nil, sized4_cons,
}
use robotraconteur_pyodide.Message.V4.Update.{
  length-element_wire4, size_exact, name_short, IsUpdated, update_fields4-IsUpdated,
}

array_size4 :
    (b : Bool) (c n : ℕ) (name : List ℕ) (a : RrBaseArray) {d : ElementData}
    → kind a.type_id ≡ scalars
    → element_size a.type_id * a.size < 2 ^ 32
    → count_and_type_name4 b (array a) ≡ ok (c, name)
    → data_size4 c (array a) ≡ ok (n, d)
    → (n ≡ element_size a.type_id * a.size) × (d ≡ array a)
unfolding count_and_type_name4 data_size4 rr_array_element_size
array_size4 b c n name a k fits hc hd = ground arith

pub nested_size4 :
    (c t : ℕ) (name : List ℕ) (es : Elements)
    → kind t ≡ nested
    → data_size4 c (nested_list t name es)
      ≡ bind (update_elements4 es) (λ (n, es'). ok (n, nested_list t name es'))
unfolding data_size4
nested_size4 c t name es k = rw (k, data_size4)

null_size4 : (c n : ℕ) {d : ElementData} → data_size4 c null ≡ ok (n, d) → (n ≡ 0) × (d ≡ null)
unfolding data_size4
null_size4 c n hd = ground arith

same_count :
    (b : Bool) (t : ℕ) (name : List ℕ) (es es' : Elements)
    → count_elements es' ≡ count_elements es
    → count_and_type_name4 b (nested_list t name es')
      ≡ count_and_type_name4 b (nested_list t name es)
unfolding count_and_type_name4
same_count b t name es es' h = rw h refl

wire_parts :
    (f : ElementFields) (d : ElementData)
    → length (element_wire4 (element f d))
      ≡ length (uint_x f.element_size) + (length (fields_wire4 f) + length (data_wire4 d))
unfolding element_wire4
wire_parts f d =
    length-append (uint_x f.element_size) (fields_wire4 f ++ data_wire4 d)
    ∙ ap (◌+◌ (length (uint_x f.element_size))) (length-append (fields_wire4 f) (data_wire4 d))

fields_wire4_sized :
    (f : ElementFields) (n : ℕ) → fields_wire4 (record f { element_size = n }) ≡ fields_wire4 f
unfolding fields_wire4
fields_wire4_sized f n = refl

mutual
  unfolding update_data4 data_wire4 type_id

  pub element-IsSized4 :
      (e : MessageElement) {e' : MessageElement}
      → IsElement4 e
      → update_data4 e ≡ ok e'
      → length (element_wire4 e') < 2 ^ 32
      → IsSized4 e'
  element-IsSized4 (element f d) (of_fields vf vd) h small =
      let (g, hg, h1) = bind-eq-ok (update_fields4 f d) _ h in
      let (s, hs, h2) = bind-eq-ok (sum_sizes 3 (names_size4 g)) _ h1 in
      let ((n, d'), hd, h3) = bind-eq-ok (data_size4 g.data_count d) _ h2 in
      let (size, hz, h4) =
        bind-eq-ok
          (get_size_plus_uint_x (size_add (size_add s n) (get_uint_x_byte_count g.data_count))) _
          h3 in
      let v : IsUpdated g d = update_fields4-IsUpdated f d vf hg in
      let made = ok-injective h4 in
      let whole : length (element_wire4 (element (record g { element_size = size }) d')) < 2 ^ 32 =
        subst (λ e. length (element_wire4 e) < 2 ^ 32) (sym made) small in
      let parts = wire_parts (record g { element_size = size }) d' in
      let same = ap length (fields_wire4_sized g size) in
      let (wire, data_sized, same_type, counted) =
        data-IsSized4 d (has g.element_flags 0x10) g.data_count n g.element_type_name vd v.counted
          hd (omega arith) in
      let (exact, fits) = size_exact g s n size v.fields hs (omega arith) hz in
      subst IsSized4 made (
        sized4
          (record {
            fields = record {
              flags = v.fields.flags;
              name = v.fields.name;
              name_code = v.fields.name_code;
              number = v.fields.number;
              type_name_code = v.fields.type_name_code;
              meta = v.fields.meta;
              extended = v.fields.extended;
            };
            type = v.type ∙ sym same_type;
            type_name = name_short _ vd v.counted;
            counted = counted ∙ v.counted;
            named = v.named;
            normal = v.normal;
            flagged = v.flagged;
            sum = s;
            names = hs;
            size =
                subst
                  (λ k.
                    get_size_plus_uint_x
                      (size_add (size_add s k) (get_uint_x_byte_count g.data_count))
                    ≡ ok size)
                  wire hz;
            exact = omega arith;
            fits = fits;
          })
          data_sized)

  data-IsSized4 :
      (d : ElementData) (b : Bool) (c n : ℕ) (name : List ℕ) {d' : ElementData}
      → IsData4 d
      → count_and_type_name4 b d ≡ ok (c, name)
      → data_size4 c d ≡ ok (n, d')
      → length (data_wire4 d') < 2 ^ 32
      → (n ≡ length (data_wire4 d'))
        × IsSizedData4 d'
        × (type_id d' ≡ type_id d)
        × (count_and_type_name4 b d' ≡ count_and_type_name4 b d)
  data-IsSized4 null b c n name no_data4 hc hd small =
      let (no_size, same) = null_size4 c n hd in rw same (no_size, sized4_null, refl, refl)
  data-IsSized4 (array a) b c n name (array_data4 (k, size) fits) hc hd small =
      let (whole, same) = array_size4 b c n name a k fits hc hd in
      rw same (whole ∙ sym size, sized4_array (k, size) fits, refl, refl)
  data-IsSized4 (nested_list t type_name es) b c n name (list_data4 k short v) hc hd small =
      let hd' = sym (nested_size4 c t type_name es k) ∙ hd in
      let ((m, es'), hes, h1) = bind-eq-ok (update_elements4 es) _ hd' in
      let made = ok-injective h1 in
      let below : length (elements_wire4 es') < 2 ^ 32 =
        subst (λ p. length (data_wire4 p.1) < 2 ^ 32) (sym made) small in
      let (wire, all_sized, count) = elements-IsSized4 es m v hes below in
      subst
        (λ p.
          (p.0 ≡ length (data_wire4 p.1))
          × IsSizedData4 p.1
          × (type_id p.1 ≡ t)
          × (count_and_type_name4 b p.1 ≡ count_and_type_name4 b (nested_list t type_name es)))
        made (wire, sized4_list k all_sized, refl, same_count b t type_name es es' count)

  pub elements-IsSized4 :
      (es : Elements) (n : ℕ) {es' : Elements}
      → IsElements4 es
      → update_elements4 es ≡ ok (n, es')
      → length (elements_wire4 es') < 2 ^ 32
      → (n ≡ length (elements_wire4 es'))
        × IsSizedElements4 es'
        × (count_elements es' ≡ count_elements es)
  elements-IsSized4 nil n no_elements4 h small =
      subst
        (λ p. (p.0 ≡ length (elements_wire4 p.1)) × IsSizedElements4 p.1 × (count_elements p.1 ≡ 0))
        (ok-injective h) (refl, sized4_nil, refl)
  elements-IsSized4 (cons e es) n (more_elements4 v vs) h small =
      let (e', he, h1) = bind-eq-ok (update_data4 e) _ h in
      let ((m, es'), hes, h2) = bind-eq-ok (update_elements4 es) _ h1 in
      let made = ok-injective h2 in
      let below : length (elements_wire4 (cons e' es')) < 2 ^ 32 =
        subst (λ p. length (elements_wire4 p.1) < 2 ^ 32) (sym made) small in
      let split = length-append (element_wire4 e') (elements_wire4 es') in
      let one = element-IsSized4 e v he (omega arith) in
      let (sum, rest, same) = elements-IsSized4 es m vs hes (omega arith) in
      let wire = length-element_wire4 one in
      subst
        (λ p.
          (p.0 ≡ length (elements_wire4 p.1))
          × IsSizedElements4 p.1
          × (count_elements p.1 ≡ count_elements (cons e es)))
        made (omega arith, sized4_cons one rest, ap suc same)
