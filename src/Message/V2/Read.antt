-- ===== src/Message/V2/Read.antt =====
-- The Read methods of Message.cpp for version 2. `max_size` is std::string::max_size(); `fuel` bounds
-- the nesting of the elements that are read.
use robotraconteur_pyodide.Prelude.{
  ℕ, zero, suc, ◌+◌, ◌-◌, ◌%◌, ◌^◌, Bool, true, false, List, [], ◌∷◌, ◌==◌, ◌&&◌, if◌then◌else◌,
}
use robotraconteur_pyodide.Prelude.Int.{pos, leb_ℤ}
use robotraconteur_pyodide.Outcome.{
  Action, ◌>>=◌, ◌>>◌, return, lift, raise, protocol, data_type, data_serialization, out_of_fuel,
}
use robotraconteur_pyodide.Arrays.{switch, kind, rr_array_element_size, allocate_rr_array_by_type}
use robotraconteur_pyodide.Io.Reader.{
  ArrayBinaryReader, size_mul, numeric_cast_int32, read_number, read_string8, read_array,
  push_relative_limit, distance_from_limit, in_limit,
}
use robotraconteur_pyodide.Message.Data.{
  MessageHeader, ElementFields, MessageElement, element, ElementData, null, array, nested_list,
  Elements, nil, cons, MessageEntry, Message, new_header, new_fields, new_entry,
}
use robotraconteur_pyodide.Message.V2.Write.{rrac}

-- `a - b` on uint32_t.
abbrev pub sub_uint32 : ℕ → ℕ → ℕ
sub_uint32 a b = (a + 2 ^ 32 - b) % 2 ^ 32

-- `uint16_t n = r.ReadNumber<uint16_t>(); s = r.ReadString8(n);`
unfoldable pub read_string16 : ℕ → Action ArrayBinaryReader (List ℕ)
read_string16 max_size = do n ← read_number 2; read_string8 max_size n

-- A counted loop that gathers what `read_one` reads.
unfoldable pub read_each :
    Action ArrayBinaryReader MessageElement → ℕ → Action ArrayBinaryReader Elements
read_each read_one zero = return nil
read_each read_one (suc n) = do e ← read_one; es ← read_each read_one n; return (cons e es)

-- The fields that precede the data; the others keep what the constructor gave them.
unfoldable pub read_fields : ℕ → ℕ → Action ArrayBinaryReader ElementFields
read_fields max_size size = do
  name ← read_string16 max_size
  t ← read_number 2
  type_name ← read_string16 max_size
  meta ← read_string16 max_size
  count ← read_number 4
  return (record new_fields {
    element_size = size;
    element_name = name;
    element_type = t;
    element_type_name = type_name;
    meta_data = meta;
    data_count = count;
  })

-- `if (boost::numeric_cast<int32_t>(size) > r.DistanceFromLimit()) throw ...`
unfoldable pub check_room : ℕ → Action ArrayBinaryReader (Unit {0})
check_room size = do
  n ← lift (numeric_cast_int32 size)
  d ← distance_from_limit
  if leb_ℤ (pos n) d then return tt else raise data_serialization

-- An array is read only if its bytes fit before the limit. The product is taken on size_t.
unfoldable pub read_array_data : ℕ → ℕ → Action ArrayBinaryReader ElementData
read_array_data t count = do
  w ← lift (rr_array_element_size t)
  check_room (size_mul w count)
  lift (allocate_rr_array_by_type t count)
  contents ← read_array t count
  return (array (record { type_id = t; size = count; contents = contents }))

-- The switch over ElementType, on ElementType, DataCount and ElementTypeName.
unfoldable pub read_data :
    Action ArrayBinaryReader MessageElement → ℕ → ℕ → List ℕ → Action ArrayBinaryReader ElementData
read_data read_one t count type_name =
    switch (kind t) (return null) (read_array_data t count)
      (do es ← read_each read_one count; return (nested_list t type_name es)) (raise data_type)

unfoldable pub read_body :
    ℕ → Action ArrayBinaryReader MessageElement → ℕ → Action ArrayBinaryReader MessageElement
read_body max_size read_one size = do
  f ← read_fields max_size size
  d ← read_data read_one f.element_type f.data_count f.element_type_name
  return (element f d)

unfoldable pub read_element : ℕ → ℕ → Action ArrayBinaryReader MessageElement
read_element max_size zero = out_of_fuel
read_element max_size (suc fuel) = do
  size ← read_number 4
  in_limit (sub_uint32 size 4) (read_body max_size (read_element max_size fuel) size)

unfoldable pub read_entry_body : ℕ → ℕ → ℕ → Action ArrayBinaryReader MessageEntry
read_entry_body max_size fuel size = do
  t ← read_number 2
  read_number 2
  path ← read_string16 max_size
  name ← read_string16 max_size
  request ← read_number 4
  err ← read_number 2
  meta ← read_string16 max_size
  count ← read_number 2
  es ← read_each (read_element max_size fuel) count
  return (record new_entry {
    entry_size = size;
    entry_type = t;
    service_path = path;
    member_name = name;
    request_id = request;
    error = err;
    meta_data = meta;
    elements = es;
  })

unfoldable pub read_entry : ℕ → ℕ → Action ArrayBinaryReader MessageEntry
read_entry max_size fuel = do
  size ← read_number 4
  in_limit (sub_uint32 size 4) (read_entry_body max_size fuel size)

-- The loop over the 16 bytes of a NodeID.
unfoldable pub read_node_id : ℕ → Action ArrayBinaryReader (List ℕ)
read_node_id zero = return []
read_node_id (suc n) = do b ← read_number 1; bs ← read_node_id n; return (b ∷ bs)

-- `a == b` on strings.
unfoldable pub eq_bytes : List ℕ → List ℕ → Bool
eq_bytes [] [] = true
eq_bytes (a ∷ as') (b ∷ bs) = a == b && eq_bytes as' bs
eq_bytes _ _ = false

unfoldable pub read_header_body : ℕ → ℕ → ℕ → Action ArrayBinaryReader MessageHeader
read_header_body max_size message_size header_size = do
  sender ← read_node_id 16
  receiver ← read_node_id 16
  sender_endpoint ← read_number 4
  receiver_endpoint ← read_number 4
  sender_name ← read_string16 max_size
  receiver_name ← read_string16 max_size
  meta ← read_string16 max_size
  count ← read_number 2
  id ← read_number 2
  res_id ← read_number 2
  return (record new_header {
    message_size = message_size;
    header_size = header_size;
    sender_node_id = sender;
    receiver_node_id = receiver;
    sender_endpoint = sender_endpoint;
    receiver_endpoint = receiver_endpoint;
    sender_node_name = sender_name;
    receiver_node_name = receiver_name;
    meta_data = meta;
    entry_count = count;
    message_id = id;
    message_res_id = res_id;
  })

unfoldable pub read_header : ℕ → Action ArrayBinaryReader MessageHeader
read_header max_size = do
  magic ← read_string8 max_size 4
  if eq_bytes magic rrac then return tt else raise protocol
  message_size ← read_number 4
  version ← read_number 2
  if version == 2 then return tt else raise protocol
  header_size ← read_number 2
  in_limit (sub_uint32 header_size 12) (read_header_body max_size message_size header_size)

unfoldable pub read_entries : ℕ → ℕ → ℕ → Action ArrayBinaryReader (List MessageEntry)
read_entries max_size fuel zero = return []
read_entries max_size fuel (suc n) = do
  e ← read_entry max_size fuel
  es ← read_entries max_size fuel n
  return (e ∷ es)

-- The limit that it pushes stays pushed, as in the source.
unfoldable pub read_message : ℕ → ℕ → Action ArrayBinaryReader Message
read_message max_size fuel = do
  h ← read_header max_size
  push_relative_limit (sub_uint32 h.message_size h.header_size)
  es ← read_entries max_size fuel h.entry_count
  return (record { header = h; entries = es })
