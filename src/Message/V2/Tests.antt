-- ===== src/Message/V2/Tests.antt =====
-- Runs of the version 2 format on a small message, and the theorems at it.
use robotraconteur_pyodide.Prelude.{ℕ, zero, suc, ◌≡◌, refl, ◌<◌, ◌^◌, List, [], ◌∷◌, length, arith}
use robotraconteur_pyodide.Outcome.{ok, throw, protocol}
use robotraconteur_pyodide.Arrays.{kind, element_size, rr_array_element_size}
use robotraconteur_pyodide.Io.Writes.{writer}
use robotraconteur_pyodide.Io.Reads.{reader}
use robotraconteur_pyodide.Io.Safe.{IsSound}
use robotraconteur_pyodide.Message.Data.{type_id}
use robotraconteur_pyodide.Message.V2.Size.{
  compute_size, update_data, update_fields, count_and_type_name,
}
use robotraconteur_pyodide.Message.V2.Write.{rrac, write_message}
use robotraconteur_pyodide.Message.V2.Read.{eq_bytes, read_message}
use robotraconteur_pyodide.Message.V2.Wire.{depth}
use robotraconteur_pyodide.Message.V2.Invariant.{
  IsElement, of_data, array_data, list_data, no_elements, more_elements, IsSized,
}
use robotraconteur_pyodide.Message.V2.Frame.{message_wire, received_message, depth_entries}
use robotraconteur_pyodide.Message.V2.Update.{update_data-IsSized}
use robotraconteur_pyodide.Message.V2.Fixed.{update_data_twice}
use robotraconteur_pyodide.Message.V2.RoundTrip.{
  IsMessage, IsSizedMessage, compute_size-IsSized, read_message-write_message,
}
use robotraconteur_pyodide.Message.V2.Refused.{read_message_refuses}
use robotraconteur_pyodide.Message.V2.Safe.{Ends, read_message-Ends}
use robotraconteur_pyodide.Message.V2.Sample.{
  no_numbers, sample, sample_sized, structure, structure_sized,
}

sized_run : compute_size no_numbers sample ≡ ok (149, sample_sized)
unfolding compute_size update_data update_fields count_and_type_name rr_array_element_size kind
    element_size type_id
sized_run = refl

updated_run : update_data no_numbers structure ≡ ok structure_sized
unfolding update_data update_fields count_and_type_name rr_array_element_size kind element_size
    type_id
updated_run = refl

structure-IsElement : IsElement structure
unfolding kind element_size
structure-IsElement = of_data (
    list_data refl (
      more_elements (of_data (array_data (refl, refl) (omega arith)))
        (more_elements (of_data (array_data (refl, refl) (omega arith))) no_elements)))

sample-IsMessage : IsMessage sample
sample-IsMessage = record {
  header = record {
    sender = (refl, ground arith);
    receiver = (refl, ground arith);
    sender_endpoint = omega arith;
    receiver_endpoint = omega arith;
    id = omega arith;
    res_id = omega arith;
  };
  entries = (
    record {
      type = omega arith;
      request = omega arith;
      error = omega arith;
      count = omega arith;
      elements = more_elements structure-IsElement no_elements;
    },
    tt,
  );
}

abbrev zeros : ℕ → List ℕ
zeros zero = []
zeros (suc n) = 0 ∷ zeros n

abbrev empty : List ℕ
empty = zeros 160

read_message-write_message_example :
    (b' : List ℕ) × (write_message no_numbers 2 sample (writer empty 3 160 160 [])
      ≡ ok (tt, writer b' 152 160 160 []))
    × (length b' ≡ length empty)
    × (read_message (2 ^ 30) 2 (reader b' 3 160 160 [])
        ≡ ok (received_message sample_sized, reader b' 152 160 152 (160 ∷ [])))
unfolding depth_entries depth
read_message-write_message_example =
    read_message-write_message (2 ^ 30) (omega arith) no_numbers 2 sample 149 sample_sized empty 3
      160 160 [] sample-IsMessage sized_run (omega arith) (omega arith) (omega arith) (omega arith)

empty-IsSound : IsSound (reader empty 3 160 160 [])
empty-IsSound = record {
  small = omega arith;
  placed = omega arith;
  limit = 160;
  others = [];
  limited = refl;
  bounded = ground arith;
}

read_message-Ends_example :
    Ends (reader empty 3 160 160 []) (read_message (2 ^ 30) 158 (reader empty 3 160 160 []))
read_message-Ends_example =
    read_message-Ends (2 ^ 30) (omega arith) 158 (reader empty 3 160 160 []) empty-IsSound
      (omega arith)

compute_size-IsSized_example :
    IsSizedMessage sample_sized × (149 ≡ length (message_wire sample_sized)) × (149 < 2 ^ 32)
compute_size-IsSized_example = compute_size-IsSized no_numbers sample sample-IsMessage sized_run

update_data-IsSized_example : IsSized structure_sized
update_data-IsSized_example =
    update_data-IsSized structure no_numbers structure_sized structure-IsElement updated_run

update_data_twice_example : update_data no_numbers structure_sized ≡ ok structure_sized
update_data_twice_example =
    update_data_twice structure no_numbers structure_sized structure-IsElement updated_run

abbrev version_four : List ℕ
version_four = 82 ∷ 82 ∷ 65 ∷ 67 ∷ 20 ∷ 0 ∷ 0 ∷ 0 ∷ 4 ∷ 0 ∷ []

read_message_refuses_example :
    read_message (2 ^ 30) 7 (reader version_four 0 10 10 []) ≡ throw protocol
unfolding eq_bytes
read_message_refuses_example =
    read_message_refuses (2 ^ 30) (omega arith) 7 rrac 20 4 version_four 0 10 10 [] [] refl
      (omega arith) (omega arith) refl refl (omega arith) (omega arith) (omega arith)
