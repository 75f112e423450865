-- ===== src/Message/V4/Read.antt =====
-- The Read4 methods of Message.cpp. `c` holds the max_size() of std::string and of std::vector<uint8_t>.
use robotraconteur_pyodide.Prelude.{
  ℕ, zero, suc, ◌-◌, ◌^◌, Bool, List, [], ◌∷◌, ltb, leb, ◌==◌, if◌then◌else◌,
}
use robotraconteur_pyodide.Outcome.{
  Action, ◌>>=◌, ◌>>◌, return, raise, protocol, length_error, out_of_fuel,
}
use robotraconteur_pyodide.Arrays.{switch, kind}
use robotraconteur_pyodide.Io.Reader.{
  ArrayBinaryReader, read, read_number, read_string8, read_uint_x, read_int_x, push_relative_limit,
  in_limit,
}
use robotraconteur_pyodide.Io.Sizes.{get_uint_x_byte_count}
use robotraconteur_pyodide.Message.Data.{
  MessageHeader, ElementFields, MessageElement, element, ElementData, null, nested_list,
  MessageEntry, Message, has, new_fields, nil_id,
}
use robotraconteur_pyodide.Message.V2.Write.{rrac}
use robotraconteur_pyodide.Message.V2.Read.{
  sub_uint32, read_each, read_array_data, read_node_id, eq_bytes,
}

pub record MaxSizes : Type 0 where
  pub string : ℕ
  pub vector : ℕ

-- `if (b) { x = ...; }`, where `d` is what x is before.
abbrev pub optional :
    {A : Type 0} → Bool → A → Action ArrayBinaryReader A → Action ArrayBinaryReader A
optional b d m = if b then m else return d

-- `uint32_t n = r.ReadUintX(); s = r.ReadString8(n);`
unfoldable pub read_string_x : MaxSizes → Action ArrayBinaryReader (List ℕ)
read_string_x c = do n ← read_uint_x; read_string8 c.string n

-- `Extended.resize(l); if (l != 0) r.Read(&Extended[0], 0, l);`
unfoldable pub read_extended : MaxSizes → Action ArrayBinaryReader (List ℕ)
read_extended c = do
  l ← read_uint_x
  if leb l c.vector then (if l == 0 then return [] else read l) else raise length_error

-- From ElementFlags to DataCount.
unfoldable pub read_fields4 : MaxSizes → ℕ → Action ArrayBinaryReader ElementFields
read_fields4 c size = do
  flags ← read_number 1
  name ← optional (has flags 0x01) [] (read_string_x c)
  code ← optional (has flags 0x02) 0 read_uint_x
  number ← optional (has flags 0x04) new_fields.element_number read_int_x
  t ← read_number 2
  type_name ← optional (has flags 0x08) [] (read_string_x c)
  type_code ← optional (has flags 0x10) 0 read_uint_x
  meta ← optional (has flags 0x20) [] (read_string_x c)
  ext ← optional (has flags 0x80) [] (read_extended c)
  count ← read_uint_x
  return (record {
    element_size = size;
    element_flags = flags;
    element_name = name;
    element_name_code = code;
    element_number = number;
    element_type = t;
    element_type_name = type_name;
    element_type_name_code = type_code;
    meta_data = meta;
    extended = ext;
    data_count = count;
  })

-- The switch over ElementType, on ElementType, DataCount and ElementTypeName.
unfoldable pub read_data4 :
    Action ArrayBinaryReader MessageElement → ℕ → ℕ → List ℕ → Action ArrayBinaryReader ElementData
read_data4 read_one t count type_name =
    switch (kind t) (return null) (read_array_data t count)
      (do es ← read_each read_one count; return (nested_list t type_name es)) (raise protocol)

unfoldable pub read_body4 :
    MaxSizes → Action ArrayBinaryReader MessageElement → ℕ → Action ArrayBinaryReader MessageElement
read_body4 c read_one size = do
  f ← read_fields4 c size
  d ← read_data4 read_one f.element_type f.data_count f.element_type_name
  return (element f d)

unfoldable pub read_element4 : MaxSizes → ℕ → Action ArrayBinaryReader MessageElement
read_element4 c zero = out_of_fuel
read_element4 c (suc fuel) = do
  size ← read_uint_x
  in_limit (sub_uint32 size (get_uint_x_byte_count size)) (read_body4 c (read_element4 c fuel) size)

unfoldable pub read_entry_body4 : MaxSizes → ℕ → ℕ → Action ArrayBinaryReader MessageEntry
read_entry_body4 c fuel size = do
  flags ← read_number 1
  t ← read_number 2
  path ← optional (has flags 0x01) [] (read_string_x c)
  path_code ← optional (has flags 0x02) 0 read_uint_x
  name ← optional (has flags 0x04) [] (read_string_x c)
  name_code ← optional (has flags 0x08) 0 read_uint_x
  request ← optional (has flags 0x10) 0 read_uint_x
  err ← optional (has flags 0x20) 0 (read_number 2)
  meta ← optional (has flags 0x40) [] (read_string_x c)
  ext ← optional (has flags 0x80) [] (read_extended c)
  count ← read_uint_x
  es ← read_each (read_element4 c fuel) count
  return (record {
    entry_size = size;
    entry_flags = flags;
    entry_type = t;
    service_path = path;
    service_path_code = path_code;
    member_name = name;
    member_name_code = name_code;
    request_id = request;
    error = err;
    meta_data = meta;
    extended = ext;
    elements = es;
  })

unfoldable pub read_entry4 : MaxSizes → ℕ → Action ArrayBinaryReader MessageEntry
read_entry4 c fuel = do
  size ← read_uint_x
  in_limit (sub_uint32 size (get_uint_x_byte_count size)) (read_entry_body4 c fuel size)

-- The NodeIDs and names of sender and receiver.
pub record Routing : Type 0 where
  pub sender_id : List ℕ
  pub receiver_id : List ℕ
  pub sender_name : List ℕ
  pub receiver_name : List ℕ

abbrev pub no_routing : Routing
no_routing = record {
  sender_id = nil_id;
  receiver_id = nil_id;
  sender_name = [];
  receiver_name = [];
}

unfoldable pub read_routing : MaxSizes → Action ArrayBinaryReader Routing
read_routing c = do
  sender ← read_node_id 16
  receiver ← read_node_id 16
  sender_name ← read_string_x c
  receiver_name ← read_string_x c
  return (record {
    sender_id = sender;
    receiver_id = receiver;
    sender_name = sender_name;
    receiver_name = receiver_name;
  })

unfoldable pub read_pair :
    {A B : Type 0}
    → Action ArrayBinaryReader A
    → Action ArrayBinaryReader B
    → Action ArrayBinaryReader (A × B)
read_pair m k = do a ← m; b ← k; return (a, b)

unfoldable pub read_rows : MaxSizes → ℕ → Action ArrayBinaryReader (List (ℕ × List ℕ))
read_rows c zero = return []
read_rows c (suc n) = do
  code ← read_uint_x
  s ← read_string_x c
  t ← read_rows c n
  return ((code, s) ∷ t)

-- `if (c > std::numeric_limits<uint16_t>::max()) throw ...`
unfoldable pub read_count : Action ArrayBinaryReader ℕ
read_count = do n ← read_uint_x; if ltb (2 ^ 16 - 1) n then raise protocol else return n

-- From MessageFlags to the end of the header.
unfoldable pub read_header_body4 : MaxSizes → ℕ → ℕ → Action ArrayBinaryReader MessageHeader
read_header_body4 c message_size header_size = do
  flags ← read_number 1
  route ← optional (has flags 0x01) no_routing (read_routing c)
  endpoints ← optional (has flags 0x02) (0, 0) (read_pair read_uint_x read_uint_x)
  priority ← optional (has flags 0x04) 0 (read_number 2)
  meta ←
      optional (has flags 0x10) ([], (0, 0))
        (read_pair (read_string_x c) (read_pair (read_number 2) (read_number 2)))
  table ← optional (has flags 0x20) [] (read_uint_x >>= read_rows c)
  count ← optional (has flags 0x40) 1 read_count
  ext ← optional (has flags 0x80) [] (read_extended c)
  return (record {
    header_size = header_size;
    message_flags = flags;
    sender_endpoint = endpoints.0;
    receiver_endpoint = endpoints.1;
    sender_node_name = route.sender_name;
    receiver_node_name = route.receiver_name;
    sender_node_id = route.sender_id;
    receiver_node_id = route.receiver_id;
    meta_data = meta.0;
    entry_count = count;
    message_id = meta.1.0;
    message_res_id = meta.1.1;
    message_size = message_size;
    string_table = table;
    priority = priority;
    extended = ext;
  })

unfoldable pub read_header4 : MaxSizes → Action ArrayBinaryReader MessageHeader
read_header4 c = do
  magic ← read_string8 c.string 4
  if eq_bytes magic rrac then return tt else raise protocol
  message_size ← read_number 4
  version ← read_number 2
  if version == 4 then return tt else raise protocol
  header_size ← read_uint_x
  in_limit (sub_uint32 (sub_uint32 header_size 10) (get_uint_x_byte_count header_size))
      (read_header_body4 c message_size header_size)

unfoldable pub read_entries4 : MaxSizes → ℕ → ℕ → Action ArrayBinaryReader (List MessageEntry)
read_entries4 c fuel zero = return []
read_entries4 c fuel (suc n) = do
  e ← read_entry4 c fuel
  es ← read_entries4 c fuel n
  return (e ∷ es)

-- The limit that it pushes stays pushed, as in the source.
unfoldable pub read_message4 : MaxSizes → ℕ → Action ArrayBinaryReader Message
read_message4 c fuel = do
  h ← read_header4 c
  push_relative_limit (sub_uint32 h.message_size h.header_size)
  es ← read_entries4 c fuel h.entry_count
  return (record { header = h; entries = es })
