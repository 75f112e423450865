-- ===== src/Message/V4/Write.antt =====
-- The Write4 methods of Message.cpp.
use robotraconteur_pyodide.Prelude.{ℕ, zero, suc, Bool, List, [], ◌∷◌, if◌then◌else◌, length}
use robotraconteur_pyodide.Outcome.{Action, ◌>>=◌, ◌>>◌, return, lift, out_of_fuel}
use robotraconteur_pyodide.Io.Writer.{
  ArrayBinaryWriter, write, write_number, write_string8, write_string8_with_x_len, write_uint_x,
  write_int_x, push_relative_limit, pop_limit, in_limit,
}
use robotraconteur_pyodide.Message.Data.{
  MessageHeader, ElementFields, MessageElement, element, MessageEntry, Message, count_elements, has,
}
use robotraconteur_pyodide.Message.V2.Write.{write_each, write_data, write_node_id, rrac}
use robotraconteur_pyodide.Message.V4.Size.{is_nonempty, update_data4, update_entry4, compute_size4}

-- `if (b) { ... }`
abbrev pub when : Bool → Action ArrayBinaryWriter (Unit {0}) → Action ArrayBinaryWriter (Unit {0})
when b m = if b then m else return tt

unfoldable pub write_extended : List ℕ → Action ArrayBinaryWriter (Unit {0})
write_extended ext = do write_uint_x (length ext); when (is_nonempty ext) (write ext (length ext))

-- What precedes the data of an element.
unfoldable pub write_fields4 : ElementFields → Action ArrayBinaryWriter (Unit {0})
write_fields4 f = do
  write_uint_x f.element_size
  write_number 1 f.element_flags
  when (has f.element_flags 0x01) (write_string8_with_x_len f.element_name)
  when (has f.element_flags 0x02) (write_uint_x f.element_name_code)
  when (has f.element_flags 0x04) (write_int_x f.element_number)
  write_number 2 f.element_type
  when (has f.element_flags 0x08) (write_string8_with_x_len f.element_type_name)
  when (has f.element_flags 0x10) (write_uint_x f.element_type_name_code)
  when (has f.element_flags 0x20) (write_string8_with_x_len f.meta_data)
  when (has f.element_flags 0x80) (write_extended f.extended)
  write_uint_x f.data_count

-- The switch over ElementType is that of version 2.
unfoldable pub write_updated4 :
    (MessageElement → Action ArrayBinaryWriter (Unit {0}))
    → MessageElement
    → Action ArrayBinaryWriter (Unit {0})
write_updated4 write_one (element f d) =
    in_limit f.element_size (write_fields4 f >> write_data write_one d)

unfoldable pub write_element4 : ℕ → MessageElement → Action ArrayBinaryWriter (Unit {0})
write_element4 zero e = out_of_fuel
write_element4 (suc fuel) e = do e' ← lift (update_data4 e); write_updated4 (write_element4 fuel) e'

unfoldable pub write_entry_updated4 : ℕ → MessageEntry → Action ArrayBinaryWriter (Unit {0})
write_entry_updated4 fuel e = in_limit e.entry_size do
  write_uint_x e.entry_size
  write_number 1 e.entry_flags
  write_number 2 e.entry_type
  when (has e.entry_flags 0x01) (write_string8_with_x_len e.service_path)
  when (has e.entry_flags 0x02) (write_uint_x e.service_path_code)
  when (has e.entry_flags 0x04) (write_string8_with_x_len e.member_name)
  when (has e.entry_flags 0x08) (write_uint_x e.member_name_code)
  when (has e.entry_flags 0x10) (write_uint_x e.request_id)
  when (has e.entry_flags 0x20) (write_number 2 e.error)
  when (has e.entry_flags 0x40) (write_string8_with_x_len e.meta_data)
  when (has e.entry_flags 0x80) (write_extended e.extended)
  write_uint_x (count_elements e.elements)
  write_each (write_element4 fuel) e.elements

unfoldable pub write_entry4 : ℕ → MessageEntry → Action ArrayBinaryWriter (Unit {0})
write_entry4 fuel e = do e' ← lift (update_entry4 e); write_entry_updated4 fuel e'

unfoldable pub write_routing : MessageHeader → Action ArrayBinaryWriter (Unit {0})
write_routing h = do
  write_node_id h.sender_node_id
  write_node_id h.receiver_node_id
  write_string8_with_x_len h.sender_node_name
  write_string8_with_x_len h.receiver_node_name

-- A code and a string, for each row of the table.
unfoldable pub write_rows : List (ℕ × List ℕ) → Action ArrayBinaryWriter (Unit {0})
write_rows [] = return tt
write_rows ((code, s) ∷ t) = do write_uint_x code; write_string8_with_x_len s; write_rows t

unfoldable pub write_header4 : MessageHeader → Action ArrayBinaryWriter (Unit {0})
write_header4 h = in_limit h.header_size do
  write_string8 rrac
  write_number 4 h.message_size
  write_number 2 4
  write_uint_x h.header_size
  write_number 1 h.message_flags
  when (has h.message_flags 0x01) (write_routing h)
  when (has h.message_flags 0x02)
      (write_uint_x h.sender_endpoint >> write_uint_x h.receiver_endpoint)
  when (has h.message_flags 0x04) (write_number 2 h.priority)
  when (has h.message_flags 0x10) (
      write_string8_with_x_len h.meta_data
      >> (write_number 2 h.message_id >> write_number 2 h.message_res_id))
  when (has h.message_flags 0x20)
      (write_uint_x (length h.string_table) >> write_rows h.string_table)
  when (has h.message_flags 0x40) (write_uint_x h.entry_count)
  when (has h.message_flags 0x80) (write_extended h.extended)

unfoldable pub write_entries4 : ℕ → List MessageEntry → Action ArrayBinaryWriter (Unit {0})
write_entries4 fuel [] = return tt
write_entries4 fuel (e ∷ es) = do write_entry4 fuel e; write_entries4 fuel es

unfoldable pub write_message4 : ℕ → Message → Action ArrayBinaryWriter (Unit {0})
write_message4 fuel m = do
  (s, m') ← lift (compute_size4 m)
  push_relative_limit s
  write_header4 m'.header
  write_entries4 fuel m'.entries
  pop_limit
