-- ===== src/Message/V2/Size.antt =====
-- ComputeSize and UpdateData of MessageElement and MessageEntry, ComputeSize and UpdateHeader of
-- MessageHeader, and Message::ComputeSize. `lexical_cast` is boost::lexical_cast<std::string> of an
-- int32_t.
use robotraconteur_pyodide.Prelude.{ℕ, ◌+◌, ◌&&◌, not, List, [], ◌∷◌, ◌==◌, if◌then◌else◌, length}
use robotraconteur_pyodide.Prelude.Int.{ℤ}
use robotraconteur_pyodide.Outcome.{Result, ok, throw, bind, require, protocol, data_type}
use robotraconteur_pyodide.Arrays.{switch, kind, rr_array_element_size}
use robotraconteur_pyodide.Io.Reader.{size_mul}
use robotraconteur_pyodide.Io.Sizes.{get_string_byte_count8}
use robotraconteur_pyodide.Message.Data.{
  MessageHeader, ElementFields, MessageElement, element, ElementData, null, array, nested_list,
  Elements, nil, cons, MessageEntry, Message, count_elements, element_size_of, type_id, has,
  with_flag, without_flag, message_flags_version2_compat, entry_flags_version2_compat,
  element_flags_version2_compat, element_name_str, element_number_flag, within_uint16,
  within_uint32, numeric_cast_uint16, numeric_cast_uint32,
}

-- The byte counts of three strings that ComputeSize checks and adds up.
unfoldable pub three_strings : List ℕ → List ℕ → List ℕ → Result ℕ
unfolding get_string_byte_count8
three_strings a b c = bind (within_uint16 (get_string_byte_count8 a)) λ s1.
    bind (within_uint16 (get_string_byte_count8 b))
      λ s2. bind (within_uint16 (get_string_byte_count8 c)) λ s3. ok (s1 + s2 + s3)

-- UpdateData turns an element number into a name.
unfoldable pub name_from_number : (ℤ → List ℕ) → ElementFields → ElementFields
name_from_number lexical_cast f =
    if has f.element_flags element_number_flag && not (has f.element_flags element_name_str)
    then record f {
      element_name = lexical_cast f.element_number;
      element_flags = with_flag (without_flag f.element_flags element_number_flag) element_name_str;
    }
    else f

-- What the switch of UpdateData sets DataCount and ElementTypeName to.
unfoldable pub count_and_type_name : ElementData → Result (ℕ × List ℕ)
unfolding kind
count_and_type_name null = ok (0, [])
count_and_type_name (array a) =
    switch (kind a.type_id) (ok (0, [])) (bind (numeric_cast_uint32 a.size) (λ n. ok (n, [])))
      (throw data_type) (throw data_type)
count_and_type_name (nested_list t name es) =
    switch (kind t) (ok (0, [])) (throw data_type)
      (bind (numeric_cast_uint32 (count_elements es)) (λ n. ok (n, name))) (throw data_type)

-- UpdateData up to its call of ComputeSize.
unfoldable pub update_fields : (ℤ → List ℕ) → ElementFields → ElementData → Result ElementFields
unfolding name_from_number
update_fields lexical_cast f d =
    let g = name_from_number lexical_cast f in
    bind (require (g.element_flags == element_flags_version2_compat) protocol) λ _.
      bind (count_and_type_name d) λ (n, name).
        ok (record g { element_type = type_id d; element_type_name = name; data_count = n })

-- ComputeSize updates the nested elements: the results are the size and the data after it.
unfoldable mutual
  unfolding type_id three_strings

  pub update_data : (ℤ → List ℕ) → MessageElement → Result MessageElement
  update_data lexical_cast (element f d) = bind (update_fields lexical_cast f d) λ g.
      bind (three_strings g.element_name g.element_type_name g.meta_data) λ s.
        bind (data_size lexical_cast g.data_count d) λ (n, d').
          bind (within_uint32 (16 + s + n))
            λ size. ok (element (record g { element_size = size }) d')

  pub data_size : (ℤ → List ℕ) → ℕ → ElementData → Result (ℕ × ElementData)
  data_size lexical_cast count null = ok (0, null)
  data_size lexical_cast count (array a) =
      switch (kind a.type_id) (ok (0, array a))
        (bind (rr_array_element_size a.type_id) (λ w. ok (size_mul count w, array a)))
        (throw data_type) (throw data_type)
  data_size lexical_cast count (nested_list t name es) =
      switch (kind t) (ok (0, nested_list t name es)) (throw data_type)
        (bind (update_elements lexical_cast es) λ (n, es'). ok (n, nested_list t name es'))
        (throw data_type)

  pub update_elements : (ℤ → List ℕ) → Elements → Result (ℕ × Elements)
  update_elements lexical_cast nil = ok (0, nil)
  update_elements lexical_cast (cons e es) = bind (update_data lexical_cast e) λ e'.
      bind (update_elements lexical_cast es) λ (n, es'). ok (element_size_of e' + n, cons e' es')

unfoldable pub update_entry : (ℤ → List ℕ) → MessageEntry → Result MessageEntry
unfolding three_strings
update_entry lexical_cast e =
    bind (require (e.entry_flags == entry_flags_version2_compat) protocol) λ _.
      bind (update_elements lexical_cast e.elements) λ (n, es).
        bind (three_strings e.service_path e.member_name e.meta_data) λ s.
          bind (within_uint32 (22 + n + s))
            λ size. ok (record e { entry_size = size; elements = es })

-- MessageHeader::ComputeSize.
unfoldable pub header_size : MessageHeader → Result ℕ
unfolding three_strings
header_size h =
    bind (three_strings h.sender_node_name h.receiver_node_name h.meta_data)
      λ s. within_uint16 (64 + s)

unfoldable pub update_header : ℕ → ℕ → MessageHeader → Result MessageHeader
unfolding header_size
update_header message_size entry_count h =
    bind (require (h.message_flags == message_flags_version2_compat) protocol) λ _.
      bind (header_size h) λ size.
        ok (record h { header_size = size; message_size = message_size; entry_count = entry_count })

unfoldable pub update_entries : (ℤ → List ℕ) → List MessageEntry → Result (ℕ × List MessageEntry)
unfolding update_entry
update_entries lexical_cast [] = ok (0, [])
update_entries lexical_cast (e ∷ es) =
    bind (update_entry lexical_cast e)
      λ e'. bind (update_entries lexical_cast es) λ (n, es'). ok (e'.entry_size + n, e' ∷ es')

-- Message::ComputeSize: the size and the message after it.
unfoldable pub compute_size : (ℤ → List ℕ) → Message → Result (ℕ × Message)
unfolding header_size update_entries update_header
compute_size lexical_cast m = bind (header_size m.header) λ s.
    bind (update_entries lexical_cast m.entries) λ (n, es). bind (within_uint32 (s + n)) λ size.
      bind (numeric_cast_uint16 (length es)) λ count.
        bind (update_header size count m.header) λ h. ok (size, record { header = h; entries = es })
