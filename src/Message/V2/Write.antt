-- ===== src/Message/V2/Write.antt =====
-- The Write methods of Message.cpp for version 2. What an object keeps of the updates that its Write
-- makes is what UpdateData and ComputeSize return. `fuel` bounds the nesting of the elements.
use robotraconteur_pyodide.Prelude.{
  ℕ, zero, suc, ◌-◌, ◌^◌, List, [], ◌∷◌, ltb, if◌then◌else◌, length,
}
use robotraconteur_pyodide.Prelude.Int.{ℤ}
use robotraconteur_pyodide.Outcome.{
  Action, ◌>>=◌, ◌>>◌, return, lift, raise, protocol, data_type, out_of_fuel,
}
use robotraconteur_pyodide.Arrays.{switch, kind}
use robotraconteur_pyodide.Io.Sizes.{get_string_byte_count8}
use robotraconteur_pyodide.Io.Writer.{
  ArrayBinaryWriter, write_number, write_string8, write_array, push_relative_limit, pop_limit,
  in_limit,
}
use robotraconteur_pyodide.Message.Data.{
  MessageHeader, ElementFields, MessageElement, element, ElementData, null, array, nested_list,
  Elements, nil, cons, MessageEntry, Message, count_elements, numeric_cast_uint16,
}
use robotraconteur_pyodide.Message.V2.Size.{update_data, update_entry, update_header, compute_size}

-- `w.WriteNumber(boost::numeric_cast<uint16_t>(GetStringByteCount8(s))); w.WriteString8(s);`
unfoldable pub write_string16 : List ℕ → Action ArrayBinaryWriter (Unit {0})
unfolding get_string_byte_count8
write_string16 s = do
  n ← lift (numeric_cast_uint16 (get_string_byte_count8 s))
  write_number 2 n
  write_string8 s

-- What precedes the data of an element.
unfoldable pub write_fields : ElementFields → Action ArrayBinaryWriter (Unit {0})
write_fields f = do
  write_number 4 f.element_size
  write_string16 f.element_name
  write_number 2 f.element_type
  write_string16 f.element_type_name
  write_string16 f.meta_data
  write_number 4 f.data_count

-- A loop over elements, `write_one` being the body.
unfoldable pub write_each :
    (MessageElement → Action ArrayBinaryWriter (Unit {0}))
    → Elements
    → Action ArrayBinaryWriter (Unit {0})
write_each write_one nil = return tt
write_each write_one (cons e es) = do write_one e; write_each write_one es

-- The switch over ElementType; the casts fail where the data is of another class.
unfoldable pub write_data :
    (MessageElement → Action ArrayBinaryWriter (Unit {0}))
    → ElementData
    → Action ArrayBinaryWriter (Unit {0})
write_data write_one null = return tt
write_data write_one (array a) =
    switch (kind a.type_id) (return tt) (write_array a) (raise data_type) (raise data_type)
write_data write_one (nested_list t name es) =
    switch (kind t) (return tt) (raise data_type) (write_each write_one es) (raise data_type)

unfoldable pub write_updated :
    (MessageElement → Action ArrayBinaryWriter (Unit {0}))
    → MessageElement
    → Action ArrayBinaryWriter (Unit {0})
write_updated write_one (element f d) =
    in_limit f.element_size (write_fields f >> write_data write_one d)

unfoldable pub write_element :
    (ℤ → List ℕ) → ℕ → MessageElement → Action ArrayBinaryWriter (Unit {0})
write_element lexical_cast zero e = out_of_fuel
write_element lexical_cast (suc fuel) e = do
  e' ← lift (update_data lexical_cast e)
  write_updated (write_element lexical_cast fuel) e'

unfoldable pub write_entry_updated :
    (ℤ → List ℕ) → ℕ → MessageEntry → Action ArrayBinaryWriter (Unit {0})
write_entry_updated lexical_cast fuel e = in_limit e.entry_size do
  write_number 4 e.entry_size
  write_number 2 e.entry_type
  write_number 2 0
  write_string16 e.service_path
  write_string16 e.member_name
  write_number 4 e.request_id
  write_number 2 e.error
  write_string16 e.meta_data
  n ← lift (numeric_cast_uint16 (count_elements e.elements))
  write_number 2 n
  write_each (write_element lexical_cast fuel) e.elements

unfoldable pub write_entry : (ℤ → List ℕ) → ℕ → MessageEntry → Action ArrayBinaryWriter (Unit {0})
write_entry lexical_cast fuel e = do
  e' ← lift (update_entry lexical_cast e)
  write_entry_updated lexical_cast fuel e'

-- The loop over the 16 bytes of a NodeID.
unfoldable pub write_node_id : List ℕ → Action ArrayBinaryWriter (Unit {0})
write_node_id [] = return tt
write_node_id (b ∷ bs) = do write_number 1 b; write_node_id bs

abbrev pub rrac : List ℕ
rrac = b'R' ∷ b'R' ∷ b'A' ∷ b'C' ∷ []

unfoldable pub write_header : MessageHeader → Action ArrayBinaryWriter (Unit {0})
write_header h = in_limit h.header_size do
  write_string8 rrac
  write_number 4 h.message_size
  write_number 2 2
  if ltb (2 ^ 16 - 1) h.header_size then raise protocol else return tt
  n ← lift (numeric_cast_uint16 h.header_size)
  write_number 2 n
  write_node_id h.sender_node_id
  write_node_id h.receiver_node_id
  write_number 4 h.sender_endpoint
  write_number 4 h.receiver_endpoint
  write_string16 h.sender_node_name
  write_string16 h.receiver_node_name
  write_string16 h.meta_data
  write_number 2 h.entry_count
  write_number 2 h.message_id
  write_number 2 h.message_res_id

unfoldable pub write_entries :
    (ℤ → List ℕ) → ℕ → List MessageEntry → Action ArrayBinaryWriter (Unit {0})
write_entries lexical_cast fuel [] = return tt
write_entries lexical_cast fuel (e ∷ es) = do
  write_entry lexical_cast fuel e
  write_entries lexical_cast fuel es

unfoldable pub write_message : (ℤ → List ℕ) → ℕ → Message → Action ArrayBinaryWriter (Unit {0})
write_message lexical_cast fuel m = do
  (s, m') ← lift (compute_size lexical_cast m)
  push_relative_limit s
  n ← lift (numeric_cast_uint16 (length m'.entries))
  h ← lift (update_header s n m'.header)
  write_header h
  write_entries lexical_cast fuel m'.entries
  pop_limit
