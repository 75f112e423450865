-- ===== src/Message/V2/Frame.antt =====
-- The version 2 format of entries, headers and messages: their bytes, when their sizes are set, and
-- what a reader builds from the bytes.
use robotraconteur_pyodide.Prelude.{
  ℕ, ◌+◌, ◌^◌, ◌<◌, ◌≡◌, List, [], ◌∷◌, ◌++◌, length, le_bytes, All, IsByte,
}
use Prim.Native.Nat.{max}
use robotraconteur_pyodide.Message.Data.{
  MessageHeader, MessageEntry, Message, count_elements, new_header, new_entry,
  message_flags_version2_compat, entry_flags_version2_compat,
}
use robotraconteur_pyodide.Message.V2.Write.{rrac}
use robotraconteur_pyodide.Message.V2.Wire.{
  string16, elements_wire, depth_elements, received_elements,
}
use robotraconteur_pyodide.Message.V2.Invariant.{IsElements, IsSizedElements}

-- What follows EntrySize.
unfoldable pub entry_body_wire : MessageEntry → List ℕ
entry_body_wire e =
    le_bytes 2 e.entry_type
    ++ (le_bytes 2 0
        ++ (string16 e.service_path
            ++ (string16 e.member_name
                ++ (le_bytes 4 e.request_id
                    ++ (le_bytes 2 e.error
                        ++ (string16 e.meta_data
                            ++ (le_bytes 2 (count_elements e.elements)
                                ++ elements_wire e.elements)))))))

unfoldable pub entry_wire : MessageEntry → List ℕ
unfolding entry_body_wire
entry_wire e = le_bytes 4 e.entry_size ++ entry_body_wire e

unfoldable pub entries_wire : List MessageEntry → List ℕ
entries_wire [] = []
entries_wire (e ∷ es) = entry_wire e ++ entries_wire es

unfoldable pub node_id_wire : List ℕ → List ℕ
node_id_wire [] = []
node_id_wire (b ∷ bs) = le_bytes 1 b ++ node_id_wire bs

-- What follows HeaderSize.
unfoldable pub header_body_wire : MessageHeader → List ℕ
header_body_wire h =
    node_id_wire h.sender_node_id
    ++ (node_id_wire h.receiver_node_id
        ++ (le_bytes 4 h.sender_endpoint
            ++ (le_bytes 4 h.receiver_endpoint
                ++ (string16 h.sender_node_name
                    ++ (string16 h.receiver_node_name
                        ++ (string16 h.meta_data
                            ++ (le_bytes 2 h.entry_count
                                ++ (le_bytes 2 h.message_id ++ le_bytes 2 h.message_res_id))))))))

unfoldable pub header_wire : MessageHeader → List ℕ
unfolding header_body_wire
header_wire h =
    rrac
    ++ (le_bytes 4 h.message_size
        ++ (le_bytes 2 2 ++ (le_bytes 2 h.header_size ++ header_body_wire h)))

unfoldable pub message_wire : Message → List ℕ
message_wire m = header_wire m.header ++ entries_wire m.entries

unfoldable pub depth_entries : List MessageEntry → ℕ
depth_entries [] = 0
depth_entries (e ∷ es) = max (depth_elements e.elements) (depth_entries es)

-- An entry whose numbers fit their fields and whose elements hold what their types say. Write refuses
-- an entry of 2 ^ 16 elements.
pub record IsEntry (e : MessageEntry) : Type 0 where
  pub type : e.entry_type < 2 ^ 16
  pub request : e.request_id < 2 ^ 32
  pub error : e.error < 2 ^ 16
  pub count : count_elements e.elements < 2 ^ 16
  pub elements : IsElements e.elements

pub record IsSizedEntry (e : MessageEntry) : Type 0 where
  pub flags : e.entry_flags ≡ entry_flags_version2_compat
  pub path : length e.service_path < 2 ^ 16
  pub name : length e.member_name < 2 ^ 16
  pub meta : length e.meta_data < 2 ^ 16
  pub type : e.entry_type < 2 ^ 16
  pub request : e.request_id < 2 ^ 32
  pub error : e.error < 2 ^ 16
  pub count : count_elements e.elements < 2 ^ 16
  pub elements : IsSizedElements e.elements
  pub size :
      e.entry_size
      ≡ 22
        + length (elements_wire e.elements)
        + (length e.service_path + length e.member_name + length e.meta_data)
  pub fits : e.entry_size < 2 ^ 32

-- A NodeID has 16 bytes.
abbrev pub IsNodeId : List ℕ → Type 0
IsNodeId id = (length id ≡ 16) × All IsByte id

-- A header whose numbers fit their fields.
pub record IsHeader (h : MessageHeader) : Type 0 where
  pub sender : IsNodeId h.sender_node_id
  pub receiver : IsNodeId h.receiver_node_id
  pub sender_endpoint : h.sender_endpoint < 2 ^ 32
  pub receiver_endpoint : h.receiver_endpoint < 2 ^ 32
  pub id : h.message_id < 2 ^ 16
  pub res_id : h.message_res_id < 2 ^ 16

pub record IsSizedHeader (h : MessageHeader) : Type 0 where
  pub header : IsHeader h
  pub flags : h.message_flags ≡ message_flags_version2_compat
  pub sender_name : length h.sender_node_name < 2 ^ 16
  pub receiver_name : length h.receiver_node_name < 2 ^ 16
  pub meta : length h.meta_data < 2 ^ 16
  pub count : h.entry_count < 2 ^ 16
  pub size :
      h.header_size
      ≡ 64 + (length h.sender_node_name + length h.receiver_node_name + length h.meta_data)
  pub fits : h.header_size < 2 ^ 16
  pub message : h.message_size < 2 ^ 32

unfoldable pub received_entry : MessageEntry → MessageEntry
received_entry e = record new_entry {
  entry_size = e.entry_size;
  entry_type = e.entry_type;
  service_path = e.service_path;
  member_name = e.member_name;
  request_id = e.request_id;
  error = e.error;
  meta_data = e.meta_data;
  elements = received_elements e.elements;
}

unfoldable pub received_entries : List MessageEntry → List MessageEntry
received_entries [] = []
received_entries (e ∷ es) = received_entry e ∷ received_entries es

unfoldable pub received_header : MessageHeader → MessageHeader
received_header h = record new_header {
  message_size = h.message_size;
  header_size = h.header_size;
  sender_node_id = h.sender_node_id;
  receiver_node_id = h.receiver_node_id;
  sender_endpoint = h.sender_endpoint;
  receiver_endpoint = h.receiver_endpoint;
  sender_node_name = h.sender_node_name;
  receiver_node_name = h.receiver_node_name;
  meta_data = h.meta_data;
  entry_count = h.entry_count;
  message_id = h.message_id;
  message_res_id = h.message_res_id;
}

unfoldable pub received_message : Message → Message
received_message m = record {
  header = received_header m.header;
  entries = received_entries m.entries;
}
