-- ===== src/Message/Objects.antt =====
-- The functions of RobotRaconteurCore/src/Message.cpp that build, search and copy messages. A search
-- returns the object that it finds, not a pointer by which the caller could change it. A null message,
-- entry or element, which the copies pass on as null, is not an object here.
use robotraconteur_pyodide.Prelude.{
  ℕ, ◌-◌, ◌^◌, Bool, true, false, List, [], ◌∷◌, ◌++◌, if◌then◌else◌, ◌==◌,
}
use robotraconteur_pyodide.Prelude.Int.{ℤ}
use robotraconteur_pyodide.Outcome.{
  Result, ok, throw, bind, message_entry_not_found, message_element_not_found, data_type_mismatch,
}
use robotraconteur_pyodide.Arrays.{switch, kind}
use robotraconteur_pyodide.Message.Data.{
  MessageHeader, ElementFields, MessageElement, element, ElementData, null, array, nested_list,
  Elements, nil, cons, MessageEntry, Message, fields_of, type_id, with_flag, without_flag,
  element_name_str, element_number_flag, new_header, new_fields, new_entry,
}
use robotraconteur_pyodide.Message.V2.Read.{eq_bytes}

unfoldable pub first_entry : List ℕ → List MessageEntry → Result MessageEntry
first_entry name [] = throw message_entry_not_found
first_entry name (e ∷ es) = if eq_bytes e.member_name name then ok e else first_entry name es

unfoldable pub find_entry : List ℕ → Message → Result MessageEntry
unfolding first_entry
find_entry name m = first_entry name m.entries

unfoldable pub add_entry : ℕ → List ℕ → Message → MessageEntry × Message
add_entry t name m =
    let e = record new_entry { member_name = name; entry_type = t } in
    (e, record m { entries = m.entries ++ (e ∷ []) })

-- MessageElement::FindElement and ContainsElement, on the elements of an entry or of a list.
unfoldable pub find_element : List ℕ → Elements → Result MessageElement
find_element name nil = throw message_element_not_found
find_element name (cons e es) =
    if eq_bytes (fields_of e).element_name name then ok e else find_element name es

unfoldable pub contains_element : List ℕ → Elements → Bool
contains_element name nil = false
contains_element name (cons e es) =
    if eq_bytes (fields_of e).element_name name then true else contains_element name es

unfoldable pub set_data : ElementFields → ElementData → MessageElement
unfolding type_id
set_data f d = element (record f { element_type = type_id d; element_size = 2 ^ 32 - 1 }) d

-- CreateMessageElement with a name, and with a number.
unfoldable pub create_message_element : List ℕ → ElementData → MessageElement
unfolding set_data
create_message_element name d = set_data (record new_fields { element_name = name }) d

abbrev pub set_element_number : ℤ → MessageElement → MessageElement
set_element_number number (element f d) =
    element
      (record f {
        element_flags =
            with_flag (without_flag f.element_flags element_name_str) element_number_flag;
        element_number = number;
      })
      d

unfoldable pub create_numbered_element : ℤ → ElementData → MessageElement
unfolding create_message_element
create_numbered_element number d = set_element_number number (create_message_element [] d)

-- `elements.push_back(m)`.
unfoldable pub push_back : MessageElement → Elements → Elements
push_back m nil = cons m nil
push_back m (cons e es) = cons e (push_back m es)

unfoldable pub add_element : List ℕ → ElementData → MessageEntry → MessageElement × MessageEntry
unfolding create_message_element push_back
add_element name d e =
    let m = create_message_element name d in (m, record e { elements = push_back m e.elements })

-- CastDataToNestedList and rr_cast: a null pointer is cast to a null pointer.
unfoldable pub cast_data_to_nested_list : ℕ → ElementData → Result ElementData
cast_data_to_nested_list expected null = ok null
cast_data_to_nested_list expected (array a) = throw data_type_mismatch
cast_data_to_nested_list expected (nested_list t name es) =
    if t == expected then ok (nested_list t name es) else throw data_type_mismatch

-- ShallowCopyMessageElement copies every field, then sets the data, which sets ElementType and
-- ElementSize.
unfoldable mutual
  unfolding kind set_data

  pub shallow_copy_element : MessageElement → Result MessageElement
  shallow_copy_element (element f d) =
      switch (kind f.element_type) (ok (set_data f d)) (ok (set_data f d)) (shallow_copy_list f d)
        (ok (set_data f d))

  pub shallow_copy_list : ElementFields → ElementData → Result MessageElement
  shallow_copy_list f null = ok (element f null)
  shallow_copy_list f (array a) = throw data_type_mismatch
  shallow_copy_list f (nested_list t name es) =
      bind (shallow_copy_elements es) (λ es'. ok (set_data f (nested_list t name es')))

  pub shallow_copy_elements : Elements → Result Elements
  shallow_copy_elements nil = ok nil
  shallow_copy_elements (cons e es) =
      bind (shallow_copy_element e) λ e'. bind (shallow_copy_elements es) (λ es'. ok (cons e' es'))

unfoldable pub shallow_copy_entry : MessageEntry → Result MessageEntry
shallow_copy_entry e =
    bind (shallow_copy_elements e.elements) (λ es. ok (record e { elements = es }))

unfoldable pub shallow_copy_entries : List MessageEntry → Result (List MessageEntry)
unfolding shallow_copy_entry
shallow_copy_entries [] = ok []
shallow_copy_entries (e ∷ es) =
    bind (shallow_copy_entry e) λ e'. bind (shallow_copy_entries es) (λ es'. ok (e' ∷ es'))

-- Every field of the header but Priority.
abbrev pub shallow_copy_header : MessageHeader → MessageHeader
shallow_copy_header h = record new_header {
  message_size = h.message_size;
  header_size = h.header_size;
  message_flags = h.message_flags;
  sender_endpoint = h.sender_endpoint;
  receiver_endpoint = h.receiver_endpoint;
  sender_node_name = h.sender_node_name;
  receiver_node_name = h.receiver_node_name;
  sender_node_id = h.sender_node_id;
  receiver_node_id = h.receiver_node_id;
  meta_data = h.meta_data;
  entry_count = h.entry_count;
  message_id = h.message_id;
  message_res_id = h.message_res_id;
  string_table = h.string_table;
  extended = h.extended;
}

unfoldable pub shallow_copy_message : Message → Result Message
unfolding shallow_copy_entries
shallow_copy_message m =
    bind (shallow_copy_entries m.entries)
      (λ es. ok (record { header = shallow_copy_header m.header; entries = es }))
