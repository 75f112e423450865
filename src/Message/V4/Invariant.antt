-- ===== src/Message/V4/Invariant.antt =====
-- What an element must hold to be carried by version 4, and when its sizes, counts and flags are set.
use robotraconteur_pyodide.Prelude.{ℕ, ◌+◌, ◌*◌, ◌^◌, ◌<◌, ◌≡◌, false, ◌&&◌, List, length}
use robotraconteur_pyodide.Prelude.Words.{IsSigned}
use robotraconteur_pyodide.Outcome.{ok}
use robotraconteur_pyodide.Arrays.{Kind, RrBaseArray, kind, element_size, IsArray}
use robotraconteur_pyodide.Io.Reader.{size_add}
use robotraconteur_pyodide.Io.Sizes.{get_uint_x_byte_count, get_size_plus_uint_x}
use robotraconteur_pyodide.Io.Encoding.{uint_x}
use robotraconteur_pyodide.Message.Data.{
  ElementFields, MessageElement, element, ElementData, null, array, nested_list, Elements, nil,
  cons, type_id, has,
}
use robotraconteur_pyodide.Message.V4.Flags.{element_flags4, IsElementFlags}
use robotraconteur_pyodide.Message.V4.Size.{
  is_nonempty, sum_sizes, count_and_type_name4, names_size4,
}
use robotraconteur_pyodide.Message.V4.Wire.{fields_wire4, data_wire4}

-- Numbers fit their fields, and strings are below 2 ^ 30 bytes. ElementTypeName is set by UpdateData4.
pub record IsFields4 (f : ElementFields) : Type 0 where
  pub flags : f.element_flags < 256
  pub name : length f.element_name < 2 ^ 30
  pub name_code : f.element_name_code < 2 ^ 32
  pub number : IsSigned (2 ^ 32) f.element_number
  pub type_name_code : f.element_type_name_code < 2 ^ 32
  pub meta : length f.meta_data < 2 ^ 30
  pub extended : length f.extended < 2 ^ 30

mutual
  pub data IsElement4 : MessageElement → Type 0 where
    of_fields :
        {f : ElementFields} {d : ElementData} → IsFields4 f → IsData4 d → IsElement4 (element f d)

  pub data IsData4 : ElementData → Type 0 where
    no_data4 : IsData4 null
    array_data4 :
        {a : RrBaseArray} → IsArray a → element_size a.type_id * a.size < 2 ^ 32 → IsData4 (array a)
    list_data4 :
        {t : ℕ} {name : List ℕ} {es : Elements}
        → kind t ≡ Kind.nested
        → length name < 2 ^ 30
        → IsElements4 es
        → IsData4 (nested_list t name es)

  pub data IsElements4 : Elements → Type 0 where
    no_elements4 : IsElements4 nil
    more_elements4 :
        {e : MessageElement} {es : Elements}
        → IsElement4 e
        → IsElements4 es
        → IsElements4 (cons e es)

-- What UpdateData4 sets, for data of `n` bytes; `sum` is what the sections in front of it add up to.
pub record IsSizedFields4 (f : ElementFields) (d : ElementData) (n : ℕ) : Type 0 where
  pub fields : IsFields4 f
  pub type : f.element_type ≡ type_id d
  pub type_name : length f.element_type_name < 2 ^ 30
  pub counted :
      count_and_type_name4 (has f.element_flags 0x10) d ≡ ok (f.data_count, f.element_type_name)
  pub named : (has f.element_flags 0x03 && has f.element_flags 0x04) ≡ false
  pub normal :
      element_flags4
        (is_nonempty f.element_type_name)
        (is_nonempty f.meta_data)
        (is_nonempty f.extended)
        f.element_flags
      ≡ f.element_flags
  pub flagged :
      IsElementFlags
        (is_nonempty f.element_type_name)
        (is_nonempty f.meta_data)
        (is_nonempty f.extended)
        f.element_flags
  pub sum : ℕ
  pub names : sum_sizes 3 (names_size4 f) ≡ ok sum
  pub size :
      get_size_plus_uint_x (size_add (size_add sum n) (get_uint_x_byte_count f.data_count))
      ≡ ok f.element_size
  pub exact : f.element_size ≡ length (uint_x f.element_size) + (length (fields_wire4 f) + n)
  pub fits : f.element_size < 2 ^ 32

mutual
  pub data IsSized4 : MessageElement → Type 0 where
    sized4 :
        {f : ElementFields} {d : ElementData}
        → IsSizedFields4 f d (length (data_wire4 d))
        → IsSizedData4 d
        → IsSized4 (element f d)

  pub data IsSizedData4 : ElementData → Type 0 where
    sized4_null : IsSizedData4 null
    sized4_array :
        {a : RrBaseArray}
        → IsArray a
        → element_size a.type_id * a.size < 2 ^ 32
        → IsSizedData4 (array a)
    sized4_list :
        {t : ℕ} {name : List ℕ} {es : Elements}
        → kind t ≡ Kind.nested
        → IsSizedElements4 es
        → IsSizedData4 (nested_list t name es)

  pub data IsSizedElements4 : Elements → Type 0 where
    sized4_nil : IsSizedElements4 nil
    sized4_cons :
        {e : MessageElement} {es : Elements}
        → IsSized4 e
        → IsSizedElements4 es
        → IsSizedElements4 (cons e es)
