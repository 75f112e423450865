-- ===== src/Message/V4/Frame.antt =====
-- The version 4 format of headers and messages, stated apart from the code, and what entries and
-- headers must hold.
use robotraconteur_pyodide.Prelude.{
  ℕ, ◌^◌, ◌<◌, ◌≡◌, not, ◌||◌, List, [], ◌∷◌, ◌++◌, ◌==◌, length, le_bytes, All,
}
use robotraconteur_pyodide.Outcome.{ok}
use robotraconteur_pyodide.Io.Reader.{size_add}
use robotraconteur_pyodide.Io.Sizes.{get_size_plus_uint_x}
use robotraconteur_pyodide.Io.Encoding.{uint_x, string_with_x_len}
use robotraconteur_pyodide.Message.Data.{
  MessageHeader, MessageEntry, Message, count_elements, has, nil_id,
}
use robotraconteur_pyodide.Message.V2.Write.{rrac}
use robotraconteur_pyodide.Message.V2.Frame.{node_id_wire, IsNodeId}
use robotraconteur_pyodide.Message.V4.Size.{
  is_nonempty, is_nonzero, sum_sizes, entry_sizes4, flags_of_entry,
}
use robotraconteur_pyodide.Message.V4.Flags.{IsEntryFlags, IsHeaderFlags}
use robotraconteur_pyodide.Message.V4.Wire.{
  part, kept, extended_wire, elements_wire4, entry_wire4, entries_wire4, received_entries4,
}
use robotraconteur_pyodide.Message.V4.Invariant.{IsElements4, IsSizedElements4}

unfoldable pub rows_wire : List (ℕ × List ℕ) → List ℕ
rows_wire [] = []
rows_wire ((code, s) ∷ t) = uint_x code ++ (string_with_x_len s ++ rows_wire t)

-- What follows HeaderSize.
unfoldable pub header_body_wire4 : MessageHeader → List ℕ
header_body_wire4 h =
    le_bytes 1 h.message_flags
    ++ (part (has h.message_flags 0x01) (
          node_id_wire h.sender_node_id
          ++ (node_id_wire h.receiver_node_id
              ++ (string_with_x_len h.sender_node_name ++ string_with_x_len h.receiver_node_name)))
        ++ (part (has h.message_flags 0x02) (uint_x h.sender_endpoint ++ uint_x h.receiver_endpoint)
            ++ (part (has h.message_flags 0x04) (le_bytes 2 h.priority)
                ++ (part (has h.message_flags 0x10) (
                      string_with_x_len h.meta_data
                      ++ (le_bytes 2 h.message_id ++ le_bytes 2 h.message_res_id))
                    ++ (part (has h.message_flags 0x20)
                          (uint_x (length h.string_table) ++ rows_wire h.string_table)
                        ++ (part (has h.message_flags 0x40) (uint_x h.entry_count)
                            ++ part (has h.message_flags 0x80) (extended_wire h.extended)))))))

unfoldable pub header_wire4 : MessageHeader → List ℕ
unfolding header_body_wire4
header_wire4 h =
    rrac
    ++ (le_bytes 4 h.message_size
        ++ (le_bytes 2 4 ++ (uint_x h.header_size ++ header_body_wire4 h)))

unfoldable pub message_wire4 : Message → List ℕ
message_wire4 m = header_wire4 m.header ++ entries_wire4 m.entries

-- A field whose flag is not set is as Read4 leaves it.
unfoldable pub received_header4 : MessageHeader → MessageHeader
received_header4 h = record {
  header_size = h.header_size;
  message_flags = h.message_flags;
  sender_endpoint = kept (has h.message_flags 0x02) 0 h.sender_endpoint;
  receiver_endpoint = kept (has h.message_flags 0x02) 0 h.receiver_endpoint;
  sender_node_name = kept (has h.message_flags 0x01) [] h.sender_node_name;
  receiver_node_name = kept (has h.message_flags 0x01) [] h.receiver_node_name;
  sender_node_id = kept (has h.message_flags 0x01) nil_id h.sender_node_id;
  receiver_node_id = kept (has h.message_flags 0x01) nil_id h.receiver_node_id;
  meta_data = kept (has h.message_flags 0x10) [] h.meta_data;
  entry_count = kept (has h.message_flags 0x40) 1 h.entry_count;
  message_id = kept (has h.message_flags 0x10) 0 h.message_id;
  message_res_id = kept (has h.message_flags 0x10) 0 h.message_res_id;
  message_size = h.message_size;
  string_table = kept (has h.message_flags 0x20) [] h.string_table;
  priority = kept (has h.message_flags 0x04) 0 h.priority;
  extended = kept (has h.message_flags 0x80) [] h.extended;
}

unfoldable pub received_message4 : Message → Message
unfolding received_header4
received_message4 m = record {
  header = received_header4 m.header;
  entries = received_entries4 m.entries;
}

-- Numbers fit their fields, and strings are below 2 ^ 30 bytes.
pub record IsEntryFields4 (e : MessageEntry) : Type 0 where
  pub flags : e.entry_flags < 256
  pub type : e.entry_type < 2 ^ 16
  pub path : length e.service_path < 2 ^ 30
  pub path_code : e.service_path_code < 2 ^ 32
  pub name : length e.member_name < 2 ^ 30
  pub name_code : e.member_name_code < 2 ^ 32
  pub request : e.request_id < 2 ^ 32
  pub error : e.error < 2 ^ 16
  pub meta : length e.meta_data < 2 ^ 30
  pub extended : length e.extended < 2 ^ 30
  pub count : count_elements e.elements < 2 ^ 32

pub record IsEntry4 (e : MessageEntry) : Type 0 where
  pub fields : IsEntryFields4 e
  pub elements : IsElements4 e.elements

pub record IsSizedEntry4 (e : MessageEntry) : Type 0 where
  pub fields : IsEntryFields4 e
  pub elements : IsSizedElements4 e.elements
  pub normal : flags_of_entry e ≡ e.entry_flags
  pub flagged :
      IsEntryFlags
        (is_nonzero e.request_id)
        (is_nonzero e.error)
        (is_nonempty e.meta_data)
        (is_nonempty e.extended)
        e.entry_flags
  pub sum : ℕ
  pub names : sum_sizes (size_add 3 (length (elements_wire4 e.elements))) (entry_sizes4 e) ≡ ok sum
  pub size : get_size_plus_uint_x sum ≡ ok e.entry_size
  pub exact : e.entry_size ≡ length (entry_wire4 e)
  pub fits : e.entry_size < 2 ^ 32

abbrev pub IsRow : ℕ × List ℕ → Type 0
IsRow row = (row.0 < 2 ^ 32) × (length row.1 < 2 ^ 30)

pub record IsHeader4 (h : MessageHeader) : Type 0 where
  pub flags : h.message_flags < 256
  pub sender : IsNodeId h.sender_node_id
  pub receiver : IsNodeId h.receiver_node_id
  pub sender_name : length h.sender_node_name < 2 ^ 30
  pub receiver_name : length h.receiver_node_name < 2 ^ 30
  pub sender_endpoint : h.sender_endpoint < 2 ^ 32
  pub receiver_endpoint : h.receiver_endpoint < 2 ^ 32
  pub priority : h.priority < 2 ^ 16
  pub meta : length h.meta_data < 2 ^ 30
  pub id : h.message_id < 2 ^ 16
  pub res_id : h.message_res_id < 2 ^ 16
  pub rows : All IsRow h.string_table
  pub row_count : length h.string_table < 2 ^ 30
  pub row_bytes : length (rows_wire h.string_table) < 2 ^ 30
  pub extended : length h.extended < 2 ^ 30

pub record IsSizedHeader4 (h : MessageHeader) : Type 0 where
  pub header : IsHeader4 h
  pub count : h.entry_count < 2 ^ 16
  pub flagged :
      IsHeaderFlags
        (not (h.entry_count == 1))
        (is_nonempty h.meta_data || (is_nonzero h.message_id || is_nonzero h.message_res_id))
        (is_nonempty h.extended)
        h.message_flags
  pub exact : h.header_size ≡ length (header_wire4 h)
  pub fits : h.header_size < 2 ^ 32

-- A message whose header and entries hold what version 4 can carry.
pub record IsMessage4 (m : Message) : Type 0 where
  pub header : IsHeader4 m.header
  pub entries : All IsEntry4 m.entries

pub record IsSizedMessage4 (m : Message) : Type 0 where
  pub header : IsSizedHeader4 m.header
  pub entries : All IsSizedEntry4 m.entries
  pub count : m.header.entry_count ≡ length m.entries
  pub size : m.header.message_size ≡ length (message_wire4 m)
