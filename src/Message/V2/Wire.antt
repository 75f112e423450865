-- ===== src/Message/V2/Wire.antt =====
-- The version 2 format, stated apart from the code: the bytes of an element whose sizes are set.
use robotraconteur_pyodide.Prelude.{ℕ, suc, List, [], ◌++◌, length, le_bytes}
use Prim.Native.Nat.{max}
use robotraconteur_pyodide.Message.Data.{
  ElementFields, MessageElement, element, ElementData, null, array, nested_list, Elements, nil,
  cons, new_fields,
}

unfoldable pub string16 : List ℕ → List ℕ
string16 s = le_bytes 2 (length s) ++ s

unfoldable pub fields_wire : ElementFields → List ℕ
fields_wire f =
    le_bytes 4 f.element_size
    ++ (string16 f.element_name
        ++ (le_bytes 2 f.element_type
            ++ (string16 f.element_type_name ++ (string16 f.meta_data ++ le_bytes 4 f.data_count))))

unfoldable mutual
  pub element_wire : MessageElement → List ℕ
  element_wire (element f d) = fields_wire f ++ data_wire d

  pub data_wire : ElementData → List ℕ
  data_wire null = []
  data_wire (array a) = a.contents
  data_wire (nested_list t name es) = elements_wire es

  pub elements_wire : Elements → List ℕ
  elements_wire nil = []
  elements_wire (cons e es) = element_wire e ++ elements_wire es

-- How deep lists are nested: the fuel that writing and reading take.
unfoldable mutual
  pub depth : MessageElement → ℕ
  depth (element f d) = suc (depth_data d)

  pub depth_data : ElementData → ℕ
  depth_data null = 0
  depth_data (array a) = 0
  depth_data (nested_list t name es) = depth_elements es

  pub depth_elements : Elements → ℕ
  depth_elements nil = 0
  depth_elements (cons e es) = max (depth e) (depth_elements es)

-- What a reader builds from the bytes: the fields that version 2 does not carry are as new.
unfoldable mutual
  pub received : MessageElement → MessageElement
  received (element f d) =
      element
        (record new_fields {
          element_size = f.element_size;
          element_name = f.element_name;
          element_type = f.element_type;
          element_type_name = f.element_type_name;
          meta_data = f.meta_data;
          data_count = f.data_count;
        })
        (received_data d)

  pub received_data : ElementData → ElementData
  received_data null = null
  received_data (array a) = array a
  received_data (nested_list t name es) = nested_list t name (received_elements es)

  pub received_elements : Elements → Elements
  received_elements nil = nil
  received_elements (cons e es) = cons (received e) (received_elements es)
