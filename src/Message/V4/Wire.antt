-- ===== src/Message/V4/Wire.antt =====
-- The version 4 format, stated apart from the code: the bytes of elements and entries whose sizes are
-- set, and what a reader builds from them.
use robotraconteur_pyodide.Prelude.{ℕ, Bool, List, [], ◌∷◌, ◌++◌, if◌then◌else◌, length, le_bytes}
use robotraconteur_pyodide.Io.Encoding.{uint_x, int_x, string_with_x_len}
use robotraconteur_pyodide.Message.Data.{
  ElementFields, MessageElement, element, ElementData, null, array, nested_list, Elements, nil,
  cons, MessageEntry, has, new_fields, count_elements,
}

-- A section that a flag says is there, and a field of it.
abbrev pub part : Bool → List ℕ → List ℕ
part b xs = if b then xs else []

abbrev pub kept {ℓ} : {A : Type ℓ} → Bool → A → A → A
kept b d a = if b then a else d

unfoldable pub extended_wire : List ℕ → List ℕ
extended_wire ext = uint_x (length ext) ++ ext

-- From ElementFlags to DataCount.
unfoldable pub fields_wire4 : ElementFields → List ℕ
fields_wire4 f =
    le_bytes 1 f.element_flags
    ++ (part (has f.element_flags 0x01) (string_with_x_len f.element_name)
        ++ (part (has f.element_flags 0x02) (uint_x f.element_name_code)
            ++ (part (has f.element_flags 0x04) (int_x f.element_number)
                ++ (le_bytes 2 f.element_type
                    ++ (part (has f.element_flags 0x08) (string_with_x_len f.element_type_name)
                        ++ (part (has f.element_flags 0x10) (uint_x f.element_type_name_code)
                            ++ (part (has f.element_flags 0x20) (string_with_x_len f.meta_data)
                                ++ (part (has f.element_flags 0x80) (extended_wire f.extended)
                                    ++ uint_x f.data_count))))))))

unfoldable mutual
  pub element_wire4 : MessageElement → List ℕ
  element_wire4 (element f d) = uint_x f.element_size ++ (fields_wire4 f ++ data_wire4 d)

  pub data_wire4 : ElementData → List ℕ
  data_wire4 null = []
  data_wire4 (array a) = a.contents
  data_wire4 (nested_list t name es) = elements_wire4 es

  pub elements_wire4 : Elements → List ℕ
  elements_wire4 nil = []
  elements_wire4 (cons e es) = element_wire4 e ++ elements_wire4 es

-- A field whose flag is not set is as in a new element.
unfoldable pub received_fields4 : ElementFields → ElementFields
received_fields4 f = record {
  element_size = f.element_size;
  element_flags = f.element_flags;
  element_name = kept (has f.element_flags 0x01) [] f.element_name;
  element_name_code = kept (has f.element_flags 0x02) 0 f.element_name_code;
  element_number = kept (has f.element_flags 0x04) new_fields.element_number f.element_number;
  element_type = f.element_type;
  element_type_name = kept (has f.element_flags 0x08) [] f.element_type_name;
  element_type_name_code = kept (has f.element_flags 0x10) 0 f.element_type_name_code;
  meta_data = kept (has f.element_flags 0x20) [] f.meta_data;
  extended = kept (has f.element_flags 0x80) [] f.extended;
  data_count = f.data_count;
}

-- A list is given the type name of its element.
unfoldable mutual
  unfolding received_fields4

  pub received4 : MessageElement → MessageElement
  received4 (element f d) =
      element (received_fields4 f)
        (received_data4 (kept (has f.element_flags 0x08) [] f.element_type_name) d)

  pub received_data4 : List ℕ → ElementData → ElementData
  received_data4 type_name null = null
  received_data4 type_name (array a) = array a
  received_data4 type_name (nested_list t name es) = nested_list t type_name (received_elements4 es)

  pub received_elements4 : Elements → Elements
  received_elements4 nil = nil
  received_elements4 (cons e es) = cons (received4 e) (received_elements4 es)

-- What follows EntrySize.
unfoldable pub entry_body_wire4 : MessageEntry → List ℕ
entry_body_wire4 e =
    le_bytes 1 e.entry_flags
    ++ (le_bytes 2 e.entry_type
        ++ (part (has e.entry_flags 0x01) (string_with_x_len e.service_path)
            ++ (part (has e.entry_flags 0x02) (uint_x e.service_path_code)
                ++ (part (has e.entry_flags 0x04) (string_with_x_len e.member_name)
                    ++ (part (has e.entry_flags 0x08) (uint_x e.member_name_code)
                        ++ (part (has e.entry_flags 0x10) (uint_x e.request_id)
                            ++ (part (has e.entry_flags 0x20) (le_bytes 2 e.error)
                                ++ (part (has e.entry_flags 0x40) (string_with_x_len e.meta_data)
                                    ++ (part (has e.entry_flags 0x80) (extended_wire e.extended)
                                        ++ (uint_x (count_elements e.elements)
                                            ++ elements_wire4 e.elements))))))))))

unfoldable pub entry_wire4 : MessageEntry → List ℕ
unfolding entry_body_wire4
entry_wire4 e = uint_x e.entry_size ++ entry_body_wire4 e

unfoldable pub entries_wire4 : List MessageEntry → List ℕ
entries_wire4 [] = []
entries_wire4 (e ∷ es) = entry_wire4 e ++ entries_wire4 es

unfoldable pub received_entry4 : MessageEntry → MessageEntry
received_entry4 e = record {
  entry_size = e.entry_size;
  entry_flags = e.entry_flags;
  entry_type = e.entry_type;
  service_path = kept (has e.entry_flags 0x01) [] e.service_path;
  service_path_code = kept (has e.entry_flags 0x02) 0 e.service_path_code;
  member_name = kept (has e.entry_flags 0x04) [] e.member_name;
  member_name_code = kept (has e.entry_flags 0x08) 0 e.member_name_code;
  request_id = kept (has e.entry_flags 0x10) 0 e.request_id;
  error = kept (has e.entry_flags 0x20) 0 e.error;
  meta_data = kept (has e.entry_flags 0x40) [] e.meta_data;
  extended = kept (has e.entry_flags 0x80) [] e.extended;
  elements = received_elements4 e.elements;
}

unfoldable pub received_entries4 : List MessageEntry → List MessageEntry
received_entries4 [] = []
received_entries4 (e ∷ es) = received_entry4 e ∷ received_entries4 es
