-- ===== src/Message/Data.antt =====
-- The classes Message, MessageHeader, MessageEntry, MessageElement and MessageElementNestedElementList
-- of RobotRaconteurCore/include/RobotRaconteur/Message.h, and the flags of RobotRaconteurConstants.h.
-- A string is its bytes (a null MessageStringPtr is the empty one), a NodeID its 16 bytes, an enum its
-- number. Shared pointers are values: no two places of a message hold the same object.
use robotraconteur_pyodide.Prelude.{
  ℕ, suc, ◌-◌, ◌^◌, Bool, not, List, [], ◌∷◌, ltb, ◌==◌, if◌then◌else◌, bit_and, bit_or,
}
use robotraconteur_pyodide.Prelude.Int.{ℤ, pos}
use robotraconteur_pyodide.Outcome.{Result, ok, throw, bad_numeric_cast, protocol}
use robotraconteur_pyodide.Arrays.{RrBaseArray, void_t}

-- `flags & mask` as a condition, `flags |= mask` and `flags &= ~mask` on a uint8_t.
abbrev pub has : ℕ → ℕ → Bool
has flags mask = not (bit_and flags mask == 0)

abbrev pub with_flag : ℕ → ℕ → ℕ
with_flag flags mask = bit_or flags mask

abbrev pub without_flag : ℕ → ℕ → ℕ
without_flag flags mask = bit_and flags (255 - mask)

pub record MessageHeader : Type 0 where
  pub header_size : ℕ
  pub message_flags : ℕ
  pub sender_endpoint : ℕ
  pub receiver_endpoint : ℕ
  pub sender_node_name : List ℕ
  pub receiver_node_name : List ℕ
  pub sender_node_id : List ℕ
  pub receiver_node_id : List ℕ
  pub meta_data : List ℕ
  pub entry_count : ℕ
  pub message_id : ℕ
  pub message_res_id : ℕ
  pub message_size : ℕ
  pub string_table : List (ℕ × List ℕ)
  pub priority : ℕ
  pub extended : List ℕ

-- The fields of a MessageElement but its data.
pub record ElementFields : Type 0 where
  pub element_size : ℕ
  pub element_flags : ℕ
  pub element_name : List ℕ
  pub element_name_code : ℕ
  pub element_number : ℤ
  pub element_type : ℕ
  pub element_type_name : List ℕ
  pub element_type_name_code : ℕ
  pub meta_data : List ℕ
  pub extended : List ℕ
  pub data_count : ℕ

-- `dat` is null, an array, or a MessageElementNestedElementList with its Type, TypeName and Elements.
mutual
  pub data MessageElement : Type 0 where
    element : ElementFields → ElementData → MessageElement

  pub data ElementData : Type 0 where
    null : ElementData
    array : RrBaseArray → ElementData
    nested_list : ℕ → List ℕ → Elements → ElementData

  pub data Elements : Type 0 where
    nil : Elements
    cons : MessageElement → Elements → Elements

pub record MessageEntry : Type 0 where
  pub entry_size : ℕ
  pub entry_flags : ℕ
  pub entry_type : ℕ
  pub service_path : List ℕ
  pub service_path_code : ℕ
  pub member_name : List ℕ
  pub member_name_code : ℕ
  pub request_id : ℕ
  pub error : ℕ
  pub meta_data : List ℕ
  pub extended : List ℕ
  pub elements : Elements

pub record Message : Type 0 where
  pub header : MessageHeader
  pub entries : List MessageEntry

abbrev pub count_elements : Elements → ℕ
count_elements nil = 0
count_elements (cons e es) = suc (count_elements es)

abbrev pub fields_of : MessageElement → ElementFields
fields_of (element f d) = f

abbrev pub element_size_of : MessageElement → ℕ
element_size_of e = (fields_of e).element_size

-- `dat->GetTypeID()`, and DataTypes_void_t for a null `dat`.
unfoldable pub type_id : ElementData → ℕ
type_id null = void_t
type_id (array a) = a.type_id
type_id (nested_list t name es) = t

-- MessageHeaderFlags ROUTING_INFO | ENDPOINT_INFO | META_INFO | MULTIPLE_ENTRIES, MessageEntryFlags
-- SERVICE_PATH_STR | MEMBER_NAME_STR | REQUEST_ID | ERROR | META_INFO, and MessageElementFlags
-- ELEMENT_NAME_STR | ELEMENT_TYPE_NAME_STR | META_INFO: the flags of a version 2 message.
abbrev pub message_flags_version2_compat : ℕ
message_flags_version2_compat = 0x53

abbrev pub entry_flags_version2_compat : ℕ
entry_flags_version2_compat = 0x75

abbrev pub element_flags_version2_compat : ℕ
element_flags_version2_compat = 0x29

abbrev pub element_name_str : ℕ
element_name_str = 0x01

abbrev pub element_number_flag : ℕ
element_number_flag = 0x04

-- boost::numeric_cast<uint16_t> and <uint32_t>.
abbrev pub numeric_cast_uint16 : ℕ → Result ℕ
numeric_cast_uint16 n = if ltb n (2 ^ 16) then ok n else throw bad_numeric_cast

abbrev pub numeric_cast_uint32 : ℕ → Result ℕ
numeric_cast_uint32 n = if ltb n (2 ^ 32) then ok n else throw bad_numeric_cast

-- `if (size > std::numeric_limits<uint16_t>::max()) throw ProtocolException(...)`, and for uint32_t.
abbrev pub within_uint16 : ℕ → Result ℕ
within_uint16 n = if ltb (2 ^ 16 - 1) n then throw protocol else ok n

abbrev pub within_uint32 : ℕ → Result ℕ
within_uint32 n = if ltb (2 ^ 32 - 1) n then throw protocol else ok n

-- The default constructors.
abbrev pub nil_id : List ℕ
nil_id = 0 ∷ 0 ∷ 0 ∷ 0 ∷ 0 ∷ 0 ∷ 0 ∷ 0 ∷ 0 ∷ 0 ∷ 0 ∷ 0 ∷ 0 ∷ 0 ∷ 0 ∷ 0 ∷ []

abbrev pub new_header : MessageHeader
new_header = record {
  header_size = 0;
  message_flags = message_flags_version2_compat;
  sender_endpoint = 0;
  receiver_endpoint = 0;
  sender_node_name = [];
  receiver_node_name = [];
  sender_node_id = nil_id;
  receiver_node_id = nil_id;
  meta_data = [];
  entry_count = 0;
  message_id = 0;
  message_res_id = 0;
  message_size = 0;
  string_table = [];
  priority = 0;
  extended = [];
}

abbrev pub new_fields : ElementFields
new_fields = record {
  element_size = 0;
  element_flags = element_flags_version2_compat;
  element_name = [];
  element_name_code = 0;
  element_number = pos 0;
  element_type = void_t;
  element_type_name = [];
  element_type_name_code = 0;
  meta_data = [];
  extended = [];
  data_count = 0;
}

abbrev pub new_entry : MessageEntry
new_entry = record {
  entry_size = 0;
  entry_flags = entry_flags_version2_compat;
  entry_type = 0;
  service_path = [];
  service_path_code = 0;
  member_name = [];
  member_name_code = 0;
  request_id = 0;
  error = 0;
  meta_data = [];
  extended = [];
  elements = nil;
}
