-- ===== src/Message/V4/Update.antt =====
-- UpdateData4 sets the sizes of an element.
use robotraconteur_pyodide.Prelude.{
  ℕ, ◌+◌, ◌^◌, ◌<◌, ◌≡◌, refl, ap, subst, ◌∙◌, Bool, true, false, not, ◌&&◌, List, [], ◌∷◌, ◌++◌,
  length, length-append, arith,
}
use robotraconteur_pyodide.Outcome.{ok, require, protocol, bind-eq-ok, ok-injective}
use robotraconteur_pyodide.Io.Reader.{size_add}
use robotraconteur_pyodide.Io.Sizes.{get_uint_x_byte_count, get_size_plus_uint_x}
use robotraconteur_pyodide.Io.Encoding.{uint_x, int_x, string_with_x_len}
use robotraconteur_pyodide.Io.Numbers.{length-uint_x, get_size_plus_uint_x_lem}
use robotraconteur_pyodide.Io.Signed.{length-int_x}
use robotraconteur_pyodide.Message.Data.{
  ElementFields, MessageElement, ElementData, type_id, has, element_size_of,
}
use robotraconteur_pyodide.Message.V4.Flags.{element_flags4, IsElementFlags, element_flags4_lem}
use robotraconteur_pyodide.Message.V4.Size.{
  is_nonempty, sum_sizes, count_and_type_name4, names_size4, update_fields4,
}
use robotraconteur_pyodide.Message.V4.Wire.{
  part, extended_wire, fields_wire4, element_wire4, data_wire4,
}
use robotraconteur_pyodide.Message.V4.Parts.{
  AllMeasure, none, more, total, sum_sizes_lem, Measures-size_if, Measures-string, Measures-ok,
  Measures-uint_x, Measures-extended,
}
use robotraconteur_pyodide.Message.V4.Invariant.{
  IsFields4, IsData4, no_data4, array_data4, list_data4, IsSized4, sized4,
}

-- The sections whose sizes ComputeSize4 adds up before the data.
abbrev names_parts : ElementFields → List (List ℕ)
names_parts f =
    part (has f.element_flags 0x01) (string_with_x_len f.element_name)
    ∷ part (has f.element_flags 0x02) (uint_x f.element_name_code)
    ∷ part (has f.element_flags 0x04) (int_x f.element_number)
    ∷ part (has f.element_flags 0x08) (string_with_x_len f.element_type_name)
    ∷ part (has f.element_flags 0x10) (uint_x f.element_type_name_code)
    ∷ part (has f.element_flags 0x20) (string_with_x_len f.meta_data)
    ∷ part (has f.element_flags 0x80) (extended_wire f.extended)
    ∷ []

names_measured : (f : ElementFields) → IsFields4 f → AllMeasure (names_size4 f) (names_parts f)
names_measured f v = more (Measures-size_if _ _ (Measures-string f.element_name)) (
    more (Measures-size_if _ _ (Measures-uint_x f.element_name_code)) (
      more (Measures-size_if _ _ (Measures-ok _ _ (length-int_x f.element_number))) (
        more (Measures-size_if _ _ (Measures-string f.element_type_name)) (
          more (Measures-size_if _ _ (Measures-uint_x f.element_type_name_code)) (
            more (Measures-size_if _ _ (Measures-string f.meta_data))
              (more (Measures-size_if _ _ (Measures-extended f.extended v.extended)) none))))))

length-fields_wire4 :
    (f : ElementFields)
    → length (fields_wire4 f) ≡ 3 + total (names_parts f) + get_uint_x_byte_count f.data_count
unfolding fields_wire4
length-fields_wire4 f = simp (length-append, length-uint_x) (omega arith)

pub length-element_wire4 :
    {e : MessageElement} → IsSized4 e → length (element_wire4 e) ≡ element_size_of e
unfolding element_wire4
length-element_wire4 (sized4 {f} {d} v s) = omega (
  arith,
  v.exact,
  length-append (uint_x f.element_size) (fields_wire4 f ++ data_wire4 d),
  length-append (fields_wire4 f) (data_wire4 d),
)

-- The size that UpdateData4 gives an element is that of its bytes, where they are below 2 ^ 32.
pub size_exact :
    (f : ElementFields) (s n size : ℕ)
    → IsFields4 f
    → sum_sizes 3 (names_size4 f) ≡ ok s
    → length (fields_wire4 f) + n < 2 ^ 32
    → get_size_plus_uint_x (size_add (size_add s n) (get_uint_x_byte_count f.data_count)) ≡ ok size
    → (size ≡ length (uint_x size) + (length (fields_wire4 f) + n)) × (size < 2 ^ 32)
size_exact f s n size v hs h hz =
    let wire = length-fields_wire4 f in
    let sum : s ≡ 3 + total (names_parts f) =
      sum_sizes_lem 3 (names_measured f v) (omega arith) hs in
    let (whole, fits) = get_size_plus_uint_x_lem _ hz in
    let all : size_add (size_add s n) (get_uint_x_byte_count f.data_count)
        ≡ length (fields_wire4 f) + n =
      omega arith in
    (omega arith, fits)

require-not : (t : Bool) {u : Unit {0}} → require (not t) protocol ≡ ok u → t ≡ false
require-not true h = cc
require-not false h = refl

pub name_short :
    (b : Bool) {d : ElementData} {n : ℕ} {name : List ℕ}
    → IsData4 d
    → count_and_type_name4 b d ≡ ok (n, name)
    → length name < 2 ^ 30
unfolding count_and_type_name4
name_short b no_data4 h = ground arith
name_short b (array_data4 (k, size) fits) h = ground arith
name_short b (list_data4 k short v) h = ground arith

-- What UpdateData4 sets before it computes the size.
pub record IsUpdated (f : ElementFields) (d : ElementData) : Type 0 where
  pub fields : IsFields4 f
  pub type : f.element_type ≡ type_id d
  pub counted :
      count_and_type_name4 (has f.element_flags 0x10) d ≡ ok (f.data_count, f.element_type_name)
  pub named : (has f.element_flags 0x03 && has f.element_flags 0x04) ≡ false
  pub normal :
      element_flags4
        (is_nonempty f.element_type_name)
        (is_nonempty f.meta_data)
        (is_nonempty f.extended)
        f.element_flags
      ≡ f.element_flags
  pub flagged :
      IsElementFlags
        (is_nonempty f.element_type_name)
        (is_nonempty f.meta_data)
        (is_nonempty f.extended)
        f.element_flags

pub update_fields4-IsUpdated :
    (f : ElementFields) (d : ElementData) {g : ElementFields}
    → IsFields4 f
    → update_fields4 f d ≡ ok g
    → IsUpdated g d
unfolding update_fields4
update_fields4-IsUpdated f d v h =
    let ((n, name), hn, h1) = bind-eq-ok (count_and_type_name4 (has f.element_flags 0x10) d) _ h in
    let (_, hr, h2) =
      bind-eq-ok (require (not (has f.element_flags 0x03 && has f.element_flags 0x04)) protocol) _
        h1 in
    let (same, coded, named, small, set) =
      element_flags4_lem (is_nonempty name) (is_nonempty f.meta_data) (is_nonempty f.extended)
        f.element_flags v.flags in
    subst (λ g. IsUpdated g d) (ok-injective h2)
      (record {
        fields = record {
          flags = small;
          name = v.name;
          name_code = v.name_code;
          number = v.number;
          type_name_code = v.type_name_code;
          meta = v.meta;
          extended = v.extended;
        };
        type = refl;
        counted = ap (λ b. count_and_type_name4 b d) coded ∙ hn;
        named = named ∙ require-not _ hr;
        normal = same;
        flagged = set;
      })
