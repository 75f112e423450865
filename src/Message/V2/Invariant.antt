-- ===== src/Message/V2/Invariant.antt =====
-- When the data of an element is what its type says, and when the sizes of an element are set.
use robotraconteur_pyodide.Prelude.{ℕ, ◌+◌, ◌*◌, ◌^◌, ◌<◌, ◌≡◌, List, [], length}
use robotraconteur_pyodide.Arrays.{Kind, RrBaseArray, kind, element_size, IsArray}
use robotraconteur_pyodide.Message.Data.{
  ElementFields, MessageElement, element, ElementData, null, array, nested_list, Elements, nil,
  cons, count_elements, type_id, element_flags_version2_compat,
}
use robotraconteur_pyodide.Message.V2.Wire.{data_wire}

-- The data is what its type says, at every level.
mutual
  pub data IsElement : MessageElement → Type 0 where
    of_data : {f : ElementFields} {d : ElementData} → IsData d → IsElement (element f d)

  pub data IsData : ElementData → Type 0 where
    no_data : IsData null
    array_data :
        {a : RrBaseArray} → IsArray a → element_size a.type_id * a.size < 2 ^ 32 → IsData (array a)
    list_data :
        {t : ℕ} {name : List ℕ} {es : Elements}
        → kind t ≡ Kind.nested
        → IsElements es
        → IsData (nested_list t name es)

  pub data IsElements : Elements → Type 0 where
    no_elements : IsElements nil
    more_elements :
        {e : MessageElement} {es : Elements} → IsElement e → IsElements es → IsElements (cons e es)

-- The sizes that UpdateData has to set.
pub record IsSizedFields (f : ElementFields) (n : ℕ) : Type 0 where
  pub flags : f.element_flags ≡ element_flags_version2_compat
  pub name : length f.element_name < 2 ^ 16
  pub type_name : length f.element_type_name < 2 ^ 16
  pub meta : length f.meta_data < 2 ^ 16
  pub size :
      f.element_size
      ≡ 16 + (length f.element_name + length f.element_type_name + length f.meta_data) + n
  pub fits : f.element_size < 2 ^ 32

mutual
  pub data IsSized : MessageElement → Type 0 where
    sized :
        {f : ElementFields} {d : ElementData}
        → IsSizedFields f (length (data_wire d))
        → f.element_type ≡ type_id d
        → IsSizedData f.data_count f.element_type_name d
        → IsSized (element f d)

  -- The second and third argument are DataCount and ElementTypeName.
  pub data IsSizedData : ℕ → List ℕ → ElementData → Type 0 where
    sized_null : {c : ℕ} {n : List ℕ} → c ≡ 0 → n ≡ [] → IsSizedData c n null
    sized_array :
        {c : ℕ} {n : List ℕ} {a : RrBaseArray}
        → IsArray a
        → element_size a.type_id * a.size < 2 ^ 32
        → a.size < 2 ^ 32
        → c ≡ a.size
        → n ≡ []
        → IsSizedData c n (array a)
    sized_list :
        {c : ℕ} {n : List ℕ} {t : ℕ} {name : List ℕ} {es : Elements}
        → kind t ≡ Kind.nested
        → count_elements es < 2 ^ 32
        → c ≡ count_elements es
        → n ≡ name
        → IsSizedElements es
        → IsSizedData c n (nested_list t name es)

  pub data IsSizedElements : Elements → Type 0 where
    sized_nil : IsSizedElements nil
    sized_cons :
        {e : MessageElement} {es : Elements}
        → IsSized e
        → IsSizedElements es
        → IsSizedElements (cons e es)
