-- ===== src/Message/V2/Sample.antt =====
-- A small message for tests: one entry with a list of two elements, a string and an int32 array.
use robotraconteur_pyodide.Prelude.{ℕ, List, [], ◌∷◌}
use robotraconteur_pyodide.Prelude.Int.{ℤ}
use robotraconteur_pyodide.Arrays.{RrBaseArray}
use robotraconteur_pyodide.Message.Data.{
  MessageHeader, ElementFields, MessageElement, element, array, nested_list, nil, cons,
  MessageEntry, Message, new_header, new_fields, new_entry,
}

-- No element of the sample is named by a number.
abbrev pub no_numbers : ℤ → List ℕ
no_numbers z = []

abbrev pub id : ℕ → List ℕ
id n = n ∷ 1 ∷ 2 ∷ 3 ∷ 4 ∷ 5 ∷ 6 ∷ 7 ∷ 8 ∷ 9 ∷ 10 ∷ 11 ∷ 12 ∷ 13 ∷ 14 ∷ 15 ∷ []

abbrev pub text : RrBaseArray
text = record { type_id = 11; size = 2; contents = b'o' ∷ b'k' ∷ [] }

abbrev pub numbers : RrBaseArray
numbers = record { type_id = 7; size = 2; contents = 1 ∷ 0 ∷ 0 ∷ 0 ∷ 2 ∷ 0 ∷ 0 ∷ 0 ∷ [] }

-- The fields with a name, a type, a type name, a size and a count.
abbrev pub fields : List ℕ → ℕ → List ℕ → ℕ → ℕ → ElementFields
fields name t type_name size count = record new_fields {
  element_name = name;
  element_type = t;
  element_type_name = type_name;
  element_size = size;
  data_count = count;
}

abbrev pub structure : MessageElement
structure = element (fields (b'v' ∷ []) 0 [] 0 0) (
    nested_list 101 (b'S' ∷ []) (
      cons (element (fields (b'a' ∷ []) 0 [] 0 0) (array text))
        (cons (element (fields (b'b' ∷ []) 0 [] 0 0) (array numbers)) nil)))

abbrev pub structure_sized : MessageElement
structure_sized = element (fields (b'v' ∷ []) 101 (b'S' ∷ []) 62 2) (
    nested_list 101 (b'S' ∷ []) (
      cons (element (fields (b'a' ∷ []) 11 [] 19 2) (array text))
        (cons (element (fields (b'b' ∷ []) 7 [] 25 2) (array numbers)) nil)))

abbrev pub entry : MessageElement → ℕ → MessageEntry
entry e size = record new_entry {
  entry_type = 3;
  service_path = b's' ∷ [];
  request_id = 7;
  elements = cons e nil;
  entry_size = size;
}

abbrev pub header : ℕ → ℕ → ℕ → MessageHeader
header own whole count = record new_header {
  sender_node_id = id 200;
  receiver_node_id = id 100;
  sender_endpoint = 4000000000;
  message_id = 9;
  header_size = own;
  message_size = whole;
  entry_count = count;
}

abbrev pub sample : Message
sample = record { header = header 0 0 0; entries = entry structure 0 ∷ [] }

abbrev pub sample_sized : Message
sample_sized = record { header = header 64 149 1; entries = entry structure_sized 85 ∷ [] }
