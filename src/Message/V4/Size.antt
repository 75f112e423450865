-- ===== src/Message/V4/Size.antt =====
-- ComputeSize4 and UpdateData4 of MessageElement and MessageEntry, ComputeSize4 and UpdateHeader4 of
-- MessageHeader, and Message::ComputeSize4. Sizes are sums on a 32-bit size_t.
use robotraconteur_pyodide.Prelude.{
  ℕ, ◌+◌, Bool, true, false, not, ◌&&◌, List, [], ◌∷◌, ltb, ◌==◌, if◌then◌else◌, length,
}
use robotraconteur_pyodide.Outcome.{Result, ok, throw, bind, require, protocol, data_type}
use robotraconteur_pyodide.Arrays.{switch, kind, rr_array_element_size}
use robotraconteur_pyodide.Io.Reader.{size_add, size_mul}
use robotraconteur_pyodide.Io.Sizes.{
  get_uint_x_byte_count, get_int_x_byte_count, get_string_byte_count8_with_x_len,
  get_size_plus_uint_x,
}
use robotraconteur_pyodide.Message.Data.{
  MessageHeader, ElementFields, MessageElement, element, ElementData, null, array, nested_list,
  Elements, nil, cons, MessageEntry, Message, count_elements, element_size_of, type_id, has,
  within_uint32, numeric_cast_uint16, numeric_cast_uint32,
}
use robotraconteur_pyodide.Message.V4.Flags.{element_flags4, entry_flags4, header_flags4}

-- `.size() > 0`, and `!= 0`.
abbrev pub is_nonempty {ℓ} : {A : Type ℓ} → List A → Bool
is_nonempty [] = false
is_nonempty (x ∷ xs) = true

abbrev pub is_nonzero : ℕ → Bool
is_nonzero n = not (n == 0)

-- `s += n1; s += n2; ...`
abbrev pub sum_sizes : ℕ → List (Result ℕ) → Result ℕ
sum_sizes s [] = ok s
sum_sizes s (m ∷ ms) = bind m (λ n. sum_sizes (size_add s n) ms)

-- `if (b) { s += ...; }`
abbrev pub size_if : Bool → Result ℕ → Result ℕ
size_if b m = if b then m else ok 0

-- A vector of bytes behind its size.
abbrev pub extended_size : List ℕ → Result ℕ
extended_size ext = ok (size_add (get_uint_x_byte_count (length ext)) (length ext))

-- What the switch of UpdateData4 sets DataCount and ElementTypeName to; the name is left to the code
-- where there is one.
unfoldable pub count_and_type_name4 : Bool → ElementData → Result (ℕ × List ℕ)
unfolding kind
count_and_type_name4 coded null = ok (0, [])
count_and_type_name4 coded (array a) =
    switch (kind a.type_id) (ok (0, [])) (bind (numeric_cast_uint32 a.size) (λ n. ok (n, [])))
      (throw data_type) (throw data_type)
count_and_type_name4 coded (nested_list t name es) =
    switch (kind t) (ok (0, [])) (throw data_type)
      (bind (numeric_cast_uint32 (count_elements es)) (λ n. ok (n, if coded then [] else name)))
      (throw data_type)

-- UpdateData4 up to its call of ComputeSize4.
unfoldable pub update_fields4 : ElementFields → ElementData → Result ElementFields
unfolding element_flags4
update_fields4 f d = bind (count_and_type_name4 (has f.element_flags 0x10) d) λ (n, name).
    bind (require (not (has f.element_flags 0x03 && has f.element_flags 0x04)) protocol) λ _.
      ok (record f {
        element_type = type_id d;
        element_type_name = name;
        data_count = n;
        element_flags =
            element_flags4 (is_nonempty name) (is_nonempty f.meta_data) (is_nonempty f.extended)
              f.element_flags;
      })

-- What ComputeSize4 adds up before the data.
abbrev pub names_size4 : ElementFields → List (Result ℕ)
names_size4 f =
    size_if (has f.element_flags 0x01) (get_string_byte_count8_with_x_len f.element_name)
    ∷ size_if (has f.element_flags 0x02) (ok (get_uint_x_byte_count f.element_name_code))
    ∷ size_if (has f.element_flags 0x04) (ok (get_int_x_byte_count f.element_number))
    ∷ size_if (has f.element_flags 0x08) (get_string_byte_count8_with_x_len f.element_type_name)
    ∷ size_if (has f.element_flags 0x10) (ok (get_uint_x_byte_count f.element_type_name_code))
    ∷ size_if (has f.element_flags 0x20) (get_string_byte_count8_with_x_len f.meta_data)
    ∷ size_if (has f.element_flags 0x80) (extended_size f.extended)
    ∷ []

unfoldable mutual
  unfolding type_id update_fields4

  pub update_data4 : MessageElement → Result MessageElement
  update_data4 (element f d) = bind (update_fields4 f d) λ g.
      bind (sum_sizes 3 (names_size4 g)) λ s. bind (data_size4 g.data_count d) λ (n, d').
        bind (get_size_plus_uint_x (size_add (size_add s n) (get_uint_x_byte_count g.data_count)))
          λ size. ok (element (record g { element_size = size }) d')

  pub data_size4 : ℕ → ElementData → Result (ℕ × ElementData)
  data_size4 count null = ok (0, null)
  data_size4 count (array a) =
      switch (kind a.type_id) (ok (0, array a))
        (bind (rr_array_element_size a.type_id) (λ w. ok (size_mul count w, array a)))
        (throw data_type) (throw data_type)
  data_size4 count (nested_list t name es) =
      switch (kind t) (ok (0, nested_list t name es)) (throw data_type)
        (bind (update_elements4 es) λ (n, es'). ok (n, nested_list t name es')) (throw data_type)

  pub update_elements4 : Elements → Result (ℕ × Elements)
  update_elements4 nil = ok (0, nil)
  update_elements4 (cons e es) =
      bind (update_data4 e) λ e'.
        bind (update_elements4 es) λ (n, es'). ok (size_add (element_size_of e') n, cons e' es')

abbrev pub entry_sizes4 : MessageEntry → List (Result ℕ)
entry_sizes4 e =
    size_if (has e.entry_flags 0x01) (get_string_byte_count8_with_x_len e.service_path)
    ∷ size_if (has e.entry_flags 0x02) (ok (get_uint_x_byte_count e.service_path_code))
    ∷ size_if (has e.entry_flags 0x04) (get_string_byte_count8_with_x_len e.member_name)
    ∷ size_if (has e.entry_flags 0x08) (ok (get_uint_x_byte_count e.member_name_code))
    ∷ size_if (has e.entry_flags 0x10) (ok (get_uint_x_byte_count e.request_id))
    ∷ size_if (has e.entry_flags 0x20) (ok 2)
    ∷ size_if (has e.entry_flags 0x40) (get_string_byte_count8_with_x_len e.meta_data)
    ∷ size_if (has e.entry_flags 0x80) (extended_size e.extended)
    ∷ ok (get_uint_x_byte_count (count_elements e.elements))
    ∷ []

-- The flags that UpdateData4 leaves.
abbrev pub flags_of_entry : MessageEntry → ℕ
flags_of_entry e =
    entry_flags4 (is_nonzero e.request_id) (is_nonzero e.error) (is_nonempty e.meta_data)
      (is_nonempty e.extended) e.entry_flags

unfoldable pub update_entry4 : MessageEntry → Result MessageEntry
unfolding update_elements4 entry_flags4
update_entry4 e = bind (update_elements4 e.elements) λ (n, es).
    let g : MessageEntry = record e { entry_flags = flags_of_entry e; elements = es } in
    bind (sum_sizes (size_add 3 n) (entry_sizes4 g))
      λ s. bind (get_size_plus_uint_x s) (λ size. ok (record g { entry_size = size }))

-- The StringTable: its strings behind their codes, of 1024 bytes at most.
abbrev pub table_sizes : List (ℕ × List ℕ) → List (Result ℕ)
table_sizes [] = []
table_sizes ((code, s) ∷ t) =
    ok (get_uint_x_byte_count code) ∷ get_string_byte_count8_with_x_len s ∷ table_sizes t

abbrev pub table_size : List (ℕ × List ℕ) → Result ℕ
table_size t = bind (sum_sizes 0 (table_sizes t)) λ s1.
    if ltb 1024 s1 then throw protocol else ok (size_add s1 (get_uint_x_byte_count (length t)))

abbrev pub header_sizes4 : MessageHeader → List (Result ℕ)
header_sizes4 h =
    size_if (has h.message_flags 0x01) (ok 32)
    ∷ size_if (has h.message_flags 0x01) (get_string_byte_count8_with_x_len h.sender_node_name)
    ∷ size_if (has h.message_flags 0x01) (get_string_byte_count8_with_x_len h.receiver_node_name)
    ∷ size_if (has h.message_flags 0x02) (ok (get_uint_x_byte_count h.sender_endpoint))
    ∷ size_if (has h.message_flags 0x02) (ok (get_uint_x_byte_count h.receiver_endpoint))
    ∷ size_if (has h.message_flags 0x04) (ok 2)
    ∷ size_if (has h.message_flags 0x10) (get_string_byte_count8_with_x_len h.meta_data)
    ∷ size_if (has h.message_flags 0x10) (ok 4)
    ∷ size_if (has h.message_flags 0x20) (table_size h.string_table)
    ∷ size_if (has h.message_flags 0x40) (ok (get_uint_x_byte_count h.entry_count))
    ∷ size_if (has h.message_flags 0x80) (extended_size h.extended)
    ∷ []

-- MessageHeader::ComputeSize4.
unfoldable pub header_size4 : MessageHeader → Result ℕ
header_size4 h = bind (sum_sizes 11 (header_sizes4 h)) get_size_plus_uint_x

-- The flags that UpdateHeader4 leaves.
abbrev pub flags_of_header : ℕ → MessageHeader → ℕ
flags_of_header entry_count h =
    header_flags4 (not (entry_count == 1))
      (not (not (is_nonempty h.meta_data) && (h.message_id == 0 && h.message_res_id == 0)))
      (is_nonempty h.extended) h.message_flags

unfoldable pub update_header4 : ℕ → ℕ → MessageHeader → Result MessageHeader
unfolding header_size4 header_flags4
update_header4 message_entry_size entry_count h =
    let g : MessageHeader = record h {
      message_flags = flags_of_header entry_count h;
      entry_count = entry_count;
    } in
    bind (header_size4 g) (λ size.
      ok (record g { header_size = size; message_size = size_add message_entry_size size }))

-- The sum is taken on a uint64_t.
unfoldable pub update_entries4 : List MessageEntry → Result (ℕ × List MessageEntry)
unfolding update_entry4
update_entries4 [] = ok (0, [])
update_entries4 (e ∷ es) =
    bind (update_entry4 e)
      λ e'. bind (update_entries4 es) λ (n, es'). ok (e'.entry_size + n, e' ∷ es')

-- Message::ComputeSize4: the size and the message after it. Its last test, whether a uint32_t is above
-- the greatest uint32_t, is left out.
unfoldable pub compute_size4 : Message → Result (ℕ × Message)
unfolding update_entries4 update_header4
compute_size4 m = bind (numeric_cast_uint16 (length m.entries)) λ count.
    bind (update_entries4 m.entries) λ (n, es). bind (within_uint32 n) λ size.
      bind (numeric_cast_uint16 (length es)) λ count'.
        bind (update_header4 size count' (record m.header { entry_count = count }))
          λ h. ok (h.message_size, record { header = h; entries = es })
