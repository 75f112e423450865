-- ===== src/Message/V4/Tests.antt =====
-- Runs of the version 4 format on a small message, and the theorems at it.
use robotraconteur_pyodide.Prelude.{
  sym, append-nil, ◌++◌, ◌-◌, ◌+◌, ℕ, zero, suc, ◌≡◌, refl, ◌<◌, ◌^◌, List, [], ◌∷◌, length, arith,
}
use robotraconteur_pyodide.Outcome.{ok, undefined, ◌>>=◌, return}
use robotraconteur_pyodide.Arrays.{kind, element_size, rr_array_element_size}
use robotraconteur_pyodide.Io.Encoding.{uint_x, int_x, string_with_x_len}
use robotraconteur_pyodide.Io.Sizes.{
  get_uint_x_byte_count, get_int_x_byte_count, get_string_byte_count8_with_x_len,
  get_size_plus_uint_x,
}
use robotraconteur_pyodide.Io.Writes.{writer}
use robotraconteur_pyodide.Io.Reads.{reader}
use robotraconteur_pyodide.Io.Safe.{IsSound}
use robotraconteur_pyodide.Io.Reader.{
  back, copy_out, read, read_number, read_uint_x, read_string8, in_limit, push_relative_limit,
  pop_limit,
}
use robotraconteur_pyodide.Message.V2.Write.{rrac}
use robotraconteur_pyodide.Message.V2.Read.{eq_bytes}
use robotraconteur_pyodide.Message.Data.{type_id, element_size_of}
use robotraconteur_pyodide.Message.V2.Wire.{depth}
use robotraconteur_pyodide.Message.V2.Frame.{node_id_wire, depth_entries}
use robotraconteur_pyodide.Message.V2.Safe.{EndsOr}
use robotraconteur_pyodide.Message.V4.Flags.{element_flags4, entry_flags4, header_flags4}
use robotraconteur_pyodide.Message.V4.Size.{
  count_and_type_name4, update_fields4, update_data4, update_entries4, update_header4,
  compute_size4,
}
use robotraconteur_pyodide.Message.V4.Write.{write_message4}
use robotraconteur_pyodide.Message.V4.Read.{
  MaxSizes, read_pair, read_string_x, read_header_body4, read_header4, read_message4,
}
use robotraconteur_pyodide.Message.V4.Wire.{
  fields_wire4, element_wire4, entry_wire4, entry_body_wire4, entries_wire4, extended_wire,
}
use robotraconteur_pyodide.Message.V4.Invariant.{
  IsFields4, IsElement4, of_fields, array_data4, list_data4, no_elements4, more_elements4,
}
use robotraconteur_pyodide.Message.V4.Frame.{
  rows_wire, header_body_wire4, header_wire4, message_wire4, received_message4, IsEntryFields4,
  IsMessage4, IsSizedMessage4,
}
use robotraconteur_pyodide.Message.V4.Parts.{IsRoomy}
use robotraconteur_pyodide.Message.V4.Fixed.{update_data4_lem}
use robotraconteur_pyodide.Message.V4.RoundTrip.{
  compute_size4-IsSized, read_message4-message_wire4, read_message4-write_message4,
}
use robotraconteur_pyodide.Message.V4.Readers.{IsOversized}
use robotraconteur_pyodide.Message.V4.Safe.{read_message4-Ends}
use robotraconteur_pyodide.Message.V4.Sample.{
  limits, numbered, list_fields, structure4, structure4_sized, entry4, bare, sample4, sample4_sized,
}

sized_run : compute_size4 sample4 ≡ ok (105, sample4_sized)
unfolding compute_size4 update_data4 update_fields4 count_and_type_name4 rr_array_element_size kind
    element_size type_id element_flags4 entry_flags4 header_flags4 get_uint_x_byte_count
    get_int_x_byte_count get_string_byte_count8_with_x_len get_size_plus_uint_x update_entries4
    update_header4
sized_run = refl

updated_run : update_data4 structure4 ≡ ok structure4_sized
unfolding update_data4 update_fields4 count_and_type_name4 rr_array_element_size kind element_size
    type_id element_flags4 get_uint_x_byte_count get_int_x_byte_count
    get_string_byte_count8_with_x_len get_size_plus_uint_x
updated_run = refl

list_fields-IsFields4 : IsFields4 (list_fields 0x29 0 [] 0 0)
list_fields-IsFields4 = record {
  flags = omega arith;
  name = omega arith;
  name_code = omega arith;
  number = ground arith;
  type_name_code = omega arith;
  meta = omega arith;
  extended = omega arith;
}

numbered-IsFields4 : IsFields4 (numbered 0x04 0 0 0)
numbered-IsFields4 = record {
  flags = omega arith;
  name = omega arith;
  name_code = omega arith;
  number = ground arith;
  type_name_code = omega arith;
  meta = omega arith;
  extended = omega arith;
}

structure4-IsElement4 : IsElement4 structure4
unfolding kind element_size
structure4-IsElement4 = of_fields list_fields-IsFields4 (
    list_data4 refl (omega arith) (
      more_elements4 (of_fields numbered-IsFields4 (array_data4 (refl, refl) (omega arith)))
        no_elements4))

entry4-IsEntryFields4 : IsEntryFields4 (entry4 structure4 0x75 0)
entry4-IsEntryFields4 = record {
  flags = omega arith;
  type = omega arith;
  path = omega arith;
  path_code = omega arith;
  name = omega arith;
  name_code = omega arith;
  request = omega arith;
  error = omega arith;
  meta = omega arith;
  extended = omega arith;
  count = omega arith;
}

bare-IsEntryFields4 : IsEntryFields4 (bare 0x75 0)
bare-IsEntryFields4 = record {
  flags = omega arith;
  type = omega arith;
  path = omega arith;
  path_code = omega arith;
  name = omega arith;
  name_code = omega arith;
  request = omega arith;
  error = omega arith;
  meta = omega arith;
  extended = omega arith;
  count = omega arith;
}

sample4-IsMessage4 : IsMessage4 sample4
unfolding rows_wire uint_x string_with_x_len
sample4-IsMessage4 = record {
  header = record {
    flags = omega arith;
    sender = (refl, ground arith);
    receiver = (refl, ground arith);
    sender_name = omega arith;
    receiver_name = omega arith;
    sender_endpoint = omega arith;
    receiver_endpoint = omega arith;
    priority = omega arith;
    meta = omega arith;
    id = omega arith;
    res_id = omega arith;
    rows = ((omega arith, omega arith), tt);
    row_count = omega arith;
    row_bytes = omega arith;
    extended = omega arith;
  };
  entries = (
    record {
      fields = entry4-IsEntryFields4;
      elements = more_elements4 structure4-IsElement4 no_elements4;
    },
    (record { fields = bare-IsEntryFields4; elements = no_elements4 }, tt),
  );
}

abbrev zeros : ℕ → List ℕ
zeros zero = []
zeros (suc n) = 0 ∷ zeros n

abbrev empty : List ℕ
empty = zeros 120

sample4-short : length (message_wire4 sample4_sized) < 2 ^ 32
unfolding message_wire4 header_wire4 header_body_wire4 node_id_wire rows_wire entries_wire4
    entry_wire4 entry_body_wire4 element_wire4 fields_wire4 extended_wire uint_x int_x
    string_with_x_len
sample4-short = omega arith

structure4-short : length (element_wire4 structure4_sized) < 2 ^ 32
unfolding element_wire4 fields_wire4 extended_wire uint_x int_x string_with_x_len
structure4-short = omega arith

limits-IsRoomy : IsRoomy limits
limits-IsRoomy = record { strings = omega arith; vectors = omega arith }

read_message4-write_message4_example :
    (b' : List ℕ) × (write_message4 2 sample4 (writer empty 3 120 120 [])
      ≡ ok (tt, writer b' 108 120 120 []))
    × (length b' ≡ length empty)
    × (read_message4 limits 2 (reader b' 3 120 120 [])
        ≡ ok (received_message4 sample4_sized, reader b' 108 120 108 (120 ∷ [])))
unfolding depth_entries depth
read_message4-write_message4_example =
    read_message4-write_message4 limits limits-IsRoomy 2 sample4 105 sample4_sized empty 3 120 120
      [] sample4-IsMessage4 sized_run sample4-short (omega arith) (omega arith) (omega arith)
      (omega arith)

compute_size4-IsSized_example :
    IsSizedMessage4 sample4_sized × (105 ≡ length (message_wire4 sample4_sized))
compute_size4-IsSized_example =
    compute_size4-IsSized sample4 105 sample4_sized sample4-IsMessage4 sized_run sample4-short

update_data4_lem_example :
    (element_size_of structure4_sized ≡ length (element_wire4 structure4_sized))
    × (update_data4 structure4_sized ≡ ok structure4_sized)
update_data4_lem_example =
    update_data4_lem structure4 structure4_sized structure4-IsElement4 updated_run structure4-short

-- What is written for the sample.
abbrev wire4 : List ℕ
wire4 = message_wire4 sample4_sized

wire4-IsSound : IsSound (reader wire4 0 105 105 [])
unfolding message_wire4 header_wire4 header_body_wire4 node_id_wire rows_wire entries_wire4
    entry_wire4 entry_body_wire4 element_wire4 fields_wire4 extended_wire uint_x int_x
    string_with_x_len
wire4-IsSound = record {
  small = omega arith;
  placed = omega arith;
  limit = 105;
  others = [];
  limited = refl;
  bounded = ground arith;
}

wire4-room : length wire4 < 0 + 106
unfolding message_wire4 header_wire4 header_body_wire4 node_id_wire rows_wire entries_wire4
    entry_wire4 entry_body_wire4 element_wire4 fields_wire4 extended_wire uint_x int_x
    string_with_x_len
wire4-room = omega arith

-- Read4 gives a message there.
wire4_read_run :
    read_message4 limits 106 (reader wire4 0 105 105 [])
    ≡ ok (received_message4 sample4_sized, reader wire4 105 105 105 (105 ∷ []))
unfolding depth_entries depth
wire4_read_run =
    read_message4-message_wire4 limits limits-IsRoomy 106 sample4_sized wire4 0 105 105 [] []
      compute_size4-IsSized_example.0 (omega arith) (sym (append-nil wire4)) (omega arith)
      (omega (arith, compute_size4-IsSized_example.1)) (omega arith)

read_message4-Ends_example :
    EndsOr
      (IsOversized limits)
      (reader wire4 0 105 105 [])
      (read_message4 limits 106 (reader wire4 0 105 105 []))
read_message4-Ends_example =
    read_message4-Ends limits 106 (reader wire4 0 105 105 []) wire4-IsSound wire4-room

-- A string of 2 ^ 32 - 17 bytes, which std::string allows in libc++ on a 32-bit target: the place and the
-- length add up to 0, and Read takes them for being before the limit.
abbrev libcxx : MaxSizes
libcxx = record { string = 2 ^ 32 - 17; vector = 2 ^ 31 - 1 }

abbrev long_name : List ℕ
long_name =
    rrac ++ (60 ∷ 0 ∷ 0 ∷ 0 ∷ 4 ∷ 0 ∷ 40 ∷ 0x10 ∷ 254 ∷ 0xEF ∷ 0xFF ∷ 0xFF ∷ 0xFF ∷ zeros 43)

long_name_run : read_message4 libcxx 61 (reader long_name 0 60 60 []) ≡ undefined
unfolding read_message4 read_header4 read_header_body4 read_string_x read_string8 read_uint_x
    read_number read back copy_out in_limit push_relative_limit pop_limit eq_bytes ◌>>=◌ return
    get_uint_x_byte_count read_pair
long_name_run = refl
