-- ===== src/Message/V4/Sample.antt =====
-- A small message of version 4 for tests: the entry of the version 2 sample, with an extended element
-- named by a number, and an entry without elements, under a header with a table and a priority.
use robotraconteur_pyodide.Prelude.{ℕ, ◌^◌, List, [], ◌∷◌}
use robotraconteur_pyodide.Prelude.Int.{negsuc}
use robotraconteur_pyodide.Message.Data.{
  MessageHeader, ElementFields, MessageElement, element, array, nested_list, nil, cons,
  MessageEntry, Message, new_fields, new_entry,
}
use robotraconteur_pyodide.Message.V2.Sample.{text, header}
use robotraconteur_pyodide.Message.V4.Read.{MaxSizes}

abbrev pub limits : MaxSizes
limits = record { string = 2 ^ 30; vector = 2 ^ 30 }

-- An element with a number for a name and extended data; `flags`, type, size and count are given.
abbrev pub numbered : ℕ → ℕ → ℕ → ℕ → ElementFields
numbered flags t size count = record new_fields {
  element_flags = flags;
  element_number = negsuc 299;
  extended = 5 ∷ 6 ∷ [];
  element_type = t;
  element_size = size;
  data_count = count;
}

abbrev pub list_fields : ℕ → ℕ → List ℕ → ℕ → ℕ → ElementFields
list_fields flags t type_name size count = record new_fields {
  element_flags = flags;
  element_name = b'v' ∷ [];
  element_type = t;
  element_type_name = type_name;
  element_size = size;
  data_count = count;
}

abbrev pub structure4 : MessageElement
structure4 =
    element (list_fields 0x29 0 [] 0 0)
      (nested_list 101 (b'S' ∷ []) (cons (element (numbered 0x04 0 0 0) (array text)) nil))

abbrev pub entry4 : MessageElement → ℕ → ℕ → MessageEntry
entry4 e flags size = record new_entry {
  entry_flags = flags;
  entry_type = 3;
  service_path = b's' ∷ [];
  request_id = 7;
  elements = cons e nil;
  entry_size = size;
}

abbrev pub bare : ℕ → ℕ → MessageEntry
bare flags size = record new_entry {
  entry_flags = flags;
  entry_type = 4;
  entry_size = size;
  member_name = b'm' ∷ [];
}

abbrev pub header4 : ℕ → ℕ → ℕ → ℕ → MessageHeader
header4 flags own whole count = record (header own whole count) {
  message_flags = flags;
  priority = 258;
  string_table = (300, b't' ∷ []) ∷ [];
}

abbrev pub sample4 : Message
sample4 = record {
  header = header4 0x27 0 0 0;
  entries = entry4 structure4 0x75 0 ∷ bare 0x75 0 ∷ [];
}

abbrev pub structure4_sized : MessageElement
structure4_sized =
    element (list_fields 0x09 101 (b'S' ∷ []) 22 1)
      (nested_list 101 (b'S' ∷ []) (cons (element (numbered 0x84 11 13 2) (array text)) nil))

abbrev pub sample4_sized : Message
sample4_sized = record {
  header = header4 0x77 66 105 2;
  entries = entry4 structure4_sized 0x15 31 ∷ bare 0x05 8 ∷ [];
}
