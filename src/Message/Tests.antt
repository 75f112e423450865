-- ===== src/Message/Tests.antt =====
-- The theorems on message objects at concrete inputs.
use robotraconteur_pyodide.Prelude.{ℕ, ◌≡◌, ◌⊎◌, refl, List, [], ◌∷◌, ◌-◌, ◌^◌, arith}
use robotraconteur_pyodide.Prelude.Int.{negsuc}
use robotraconteur_pyodide.Outcome.{ok}
use robotraconteur_pyodide.Arrays.{kind, element_size}
use robotraconteur_pyodide.Message.Data.{
  MessageElement, element, array, nested_list, nil, cons, MessageEntry, Message, new_header,
  new_fields, new_entry, type_id,
}
use robotraconteur_pyodide.Message.V2.Read.{eq_bytes}
use robotraconteur_pyodide.Message.V2.Size.{update_data, compute_size}
use robotraconteur_pyodide.Message.V2.Invariant.{
  IsElement, of_data, array_data, list_data, more_elements, no_elements,
}
use robotraconteur_pyodide.Message.V2.Sample.{entry, text, numbers, no_numbers}
use robotraconteur_pyodide.Message.Objects.{
  set_data, add_element, find_element, contains_element, create_numbered_element,
  shallow_copy_element, shallow_copy_message,
}
use robotraconteur_pyodide.Message.Lookup.{
  Finds, FindsNone, find_element-contains_element, find_element-add_element,
  find_element-add_element_again,
}
use robotraconteur_pyodide.Message.Copy.{
  without_priority, update_data-shallow_copy_element, compute_size-shallow_copy_message,
  shallow_copy_message-priority, update_data-create_numbered_element,
}

abbrev letter : List ℕ
letter = 97 ∷ []

abbrev other : List ℕ
other = 98 ∷ []

abbrev one : MessageEntry
one = (add_element letter (array text) new_entry).1

contains_element_example :
    ((e : MessageElement) × Finds letter one.elements e) ⊎ FindsNone letter one.elements
contains_element_example = find_element-contains_element letter one.elements

find_element-add_element_example :
    find_element other (add_element other (array numbers) one).1.elements
    ≡ ok (add_element other (array numbers) one).0
unfolding contains_element add_element eq_bytes
find_element-add_element_example = find_element-add_element other (array numbers) one refl

find_element-add_element_again_example :
    find_element letter (add_element letter (array numbers) one).1.elements
    ≡ find_element letter one.elements
unfolding contains_element add_element eq_bytes
find_element-add_element_again_example =
    find_element-add_element_again letter (array numbers) one refl

-- What SetData leaves of the size and the type of the sample's elements.
abbrev copied : MessageElement
copied =
    element
      (record new_fields { element_name = 118 ∷ []; element_size = 2 ^ 32 - 1; element_type = 101 })
      (nested_list 101 (83 ∷ []) (
        cons
          (element
            (record new_fields {
              element_name = 97 ∷ [];
              element_size = 2 ^ 32 - 1;
              element_type = 11;
            })
            (array text))
          (cons
            (element
              (record new_fields {
                element_name = 98 ∷ [];
                element_size = 2 ^ 32 - 1;
                element_type = 7;
              })
              (array numbers))
            nil)))

-- The sample's element with its type set.
abbrev typed : MessageElement
typed =
    element (record new_fields { element_name = 118 ∷ []; element_type = 101 })
      (nested_list 101 (83 ∷ []) (
        cons
          (element (record new_fields { element_name = 97 ∷ []; element_type = 11 }) (array text))
          (cons
            (element (record new_fields { element_name = 98 ∷ []; element_type = 7 })
              (array numbers))
            nil)))

typed-IsElement : IsElement typed
unfolding kind element_size
typed-IsElement = of_data (
    list_data refl (
      more_elements (of_data (array_data (refl, refl) (omega arith)))
        (more_elements (of_data (array_data (refl, refl) (omega arith))) no_elements)))

typed_copy : shallow_copy_element typed ≡ ok copied
unfolding shallow_copy_element kind type_id
typed_copy = refl

update_data-shallow_copy_element_example :
    update_data no_numbers copied ≡ update_data no_numbers typed
update_data-shallow_copy_element_example =
    update_data-shallow_copy_element no_numbers typed copied typed-IsElement typed_copy

abbrev urgent : Message
urgent = record {
  header = record new_header { priority = 5; message_id = 9 };
  entries = entry typed 0 ∷ [];
}

abbrev urgent_copied : Message
urgent_copied = record {
  header = record new_header { message_id = 9 };
  entries = entry copied 0 ∷ [];
}

urgent_copy : shallow_copy_message urgent ≡ ok urgent_copied
unfolding shallow_copy_message shallow_copy_element kind type_id
urgent_copy = refl

compute_size-shallow_copy_message_example :
    compute_size no_numbers urgent_copied ≡ compute_size no_numbers (without_priority urgent)
compute_size-shallow_copy_message_example =
    compute_size-shallow_copy_message no_numbers urgent urgent_copied
      (
        record {
          type = omega arith;
          request = omega arith;
          error = omega arith;
          count = omega arith;
          elements = more_elements typed-IsElement no_elements;
        },
        tt,
      )
      urgent_copy

shallow_copy_message-priority_example : urgent_copied.header ≡ (without_priority urgent).header
shallow_copy_message-priority_example =
    shallow_copy_message-priority urgent urgent_copied urgent_copy

update_data-create_numbered_element_example :
    update_data no_numbers (create_numbered_element (negsuc 2) (array text))
    ≡ update_data no_numbers (
        set_data
          (record new_fields { element_name = no_numbers (negsuc 2); element_number = negsuc 2 })
          (array text))
update_data-create_numbered_element_example =
    update_data-create_numbered_element no_numbers (negsuc 2) (array text)
