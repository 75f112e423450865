-- ===== src/Message/V4/HeaderSize.antt =====
-- MessageHeader::UpdateHeader4 sets the size of a header.
use robotraconteur_pyodide.Prelude.{
  ℕ, ◌+◌, ◌^◌, ◌<◌, ◌≡◌, refl, sym, subst, ◌∙◌, Bool, true, false, not, ◌&&◌, ◌||◌, List, [], ◌∷◌,
  ◌++◌, ltb, ◌==◌, if◌then◌else◌, length, length-append, le_bytes, arith,
}
use robotraconteur_pyodide.Outcome.{ok, throw, protocol, bind-eq-ok, ok-injective}
use robotraconteur_pyodide.Io.Reader.{size_add}
use robotraconteur_pyodide.Io.Sizes.{get_uint_x_byte_count}
use robotraconteur_pyodide.Io.Encoding.{uint_x, string_with_x_len}
use robotraconteur_pyodide.Io.Numbers.{length-uint_x, get_size_plus_uint_x_lem}
use robotraconteur_pyodide.Message.Data.{MessageHeader, has}
use robotraconteur_pyodide.Message.V2.Frame.{node_id_wire}
use robotraconteur_pyodide.Message.V2.Headers.{length-node_id_wire}
use robotraconteur_pyodide.Message.V4.Flags.{header_flags4_lem}
use robotraconteur_pyodide.Message.V4.Size.{
  is_nonempty, is_nonzero, sum_sizes, table_sizes, table_size, header_sizes4, header_size4,
  flags_of_header, update_header4,
}
use robotraconteur_pyodide.Message.V4.Wire.{part, extended_wire}
use robotraconteur_pyodide.Message.V4.Frame.{
  rows_wire, header_body_wire4, header_wire4, IsHeader4, IsSizedHeader4,
}
use robotraconteur_pyodide.Message.V4.Parts.{
  Measures, AllMeasure, none, more, total, sum_sizes_lem, Measures-size_if, Measures-string,
  Measures-ok, Measures-uint_x, Measures-extended, uint_x_short,
}

abbrev row_parts : List (ℕ × List ℕ) → List (List ℕ)
row_parts [] = []
row_parts ((code, s) ∷ t) = uint_x code ∷ string_with_x_len s ∷ row_parts t

rows_measured : (t : List (ℕ × List ℕ)) → AllMeasure (table_sizes t) (row_parts t)
rows_measured [] = none
rows_measured ((code, s) ∷ t) =
    more (Measures-uint_x code) (more (Measures-string s) (rows_measured t))

length-rows_wire : (t : List (ℕ × List ℕ)) → length (rows_wire t) ≡ total (row_parts t)
unfolding rows_wire
length-rows_wire [] = refl
length-rows_wire ((code, s) ∷ t) = omega (
  arith,
  length-append (uint_x code) (string_with_x_len s ++ rows_wire t),
  length-append (string_with_x_len s) (rows_wire t),
  length-rows_wire t,
)

within_table :
    (s count : ℕ) {n : ℕ}
    → (if ltb 1024 s then throw protocol else ok (size_add s count)) ≡ ok n
    → n ≡ size_add s count
within_table s count h = ground arith

Measures-table :
    (t : List (ℕ × List ℕ))
    → length (rows_wire t) < 2 ^ 30
    → Measures (table_size t) (uint_x (length t) ++ rows_wire t)
Measures-table t small n h =
    let (s, hs, h1) = bind-eq-ok (sum_sizes 0 (table_sizes t)) _ h in
    let rows = length-rows_wire t in
    let sum = sum_sizes_lem 0 (rows_measured t) (omega arith) hs in
    let whole = within_table s (get_uint_x_byte_count (length t)) h1 in
    omega (
      arith,
      length-append (uint_x (length t)) (rows_wire t),
      length-uint_x (length t),
      uint_x_short (length t),
    )

-- The sections whose sizes ComputeSize4 adds up.
abbrev header_parts : MessageHeader → List (List ℕ)
header_parts h =
    part (has h.message_flags 0x01)
      (node_id_wire h.sender_node_id ++ node_id_wire h.receiver_node_id)
    ∷ part (has h.message_flags 0x01) (string_with_x_len h.sender_node_name)
    ∷ part (has h.message_flags 0x01) (string_with_x_len h.receiver_node_name)
    ∷ part (has h.message_flags 0x02) (uint_x h.sender_endpoint)
    ∷ part (has h.message_flags 0x02) (uint_x h.receiver_endpoint)
    ∷ part (has h.message_flags 0x04) (le_bytes 2 h.priority)
    ∷ part (has h.message_flags 0x10) (string_with_x_len h.meta_data)
    ∷ part (has h.message_flags 0x10) (le_bytes 2 h.message_id ++ le_bytes 2 h.message_res_id)
    ∷ part (has h.message_flags 0x20) (uint_x (length h.string_table) ++ rows_wire h.string_table)
    ∷ part (has h.message_flags 0x40) (uint_x h.entry_count)
    ∷ part (has h.message_flags 0x80) (extended_wire h.extended)
    ∷ []

two_ids :
    (h : MessageHeader)
    → IsHeader4 h
    → length (node_id_wire h.sender_node_id ++ node_id_wire h.receiver_node_id) ≡ 32
two_ids h v =
    let (sender, _) = v.sender in
    let (receiver, _) = v.receiver in
    omega (
      arith,
      length-append (node_id_wire h.sender_node_id) (node_id_wire h.receiver_node_id),
      length-node_id_wire h.sender_node_id,
      length-node_id_wire h.receiver_node_id,
    )

header_measured : (h : MessageHeader) → IsHeader4 h → AllMeasure (header_sizes4 h) (header_parts h)
header_measured h v =
    more
      (Measures-size_if _ _ (
        Measures-ok 32 (node_id_wire h.sender_node_id ++ node_id_wire h.receiver_node_id)
          (two_ids h v)))
      (more (Measures-size_if _ _ (Measures-string h.sender_node_name)) (
        more (Measures-size_if _ _ (Measures-string h.receiver_node_name)) (
          more (Measures-size_if _ _ (Measures-uint_x h.sender_endpoint)) (
            more (Measures-size_if _ _ (Measures-uint_x h.receiver_endpoint)) (
              more (Measures-size_if _ _ (Measures-ok 2 (le_bytes 2 h.priority) refl)) (
                more (Measures-size_if _ _ (Measures-string h.meta_data)) (
                  more
                    (Measures-size_if _ _
                      (Measures-ok 4 (le_bytes 2 h.message_id ++ le_bytes 2 h.message_res_id) refl))
                    (more (Measures-size_if _ _ (Measures-table h.string_table v.row_bytes)) (
                      more (Measures-size_if _ _ (Measures-uint_x h.entry_count)) (
                        more (Measures-size_if _ _ (Measures-extended h.extended v.extended))
                          none))))))))))

length-part-append :
    (b : Bool) (xs ys : List ℕ)
    → length (part b (xs ++ ys)) ≡ length (part b xs) + length (part b ys)
length-part-append true xs ys = length-append xs ys
length-part-append false xs ys = refl

pub length-header_wire4 :
    (h : MessageHeader)
    → length (header_wire4 h) ≡ length (uint_x h.header_size) + (11 + total (header_parts h))
unfolding header_wire4 header_body_wire4
length-header_wire4 h = simp (length-append, length-part-append) (omega arith)

-- META_INFO is there for metadata or an id.
meta_cases :
    (b : Bool) (i j : ℕ) → not (not b && (i == 0 && j == 0)) ≡ (b || (is_nonzero i || is_nonzero j))
meta_cases b i j = ground arith

-- UpdateHeader4 sets the header's own size, the number of entries and the size of the message, where
-- the bytes of the header that it leaves are below 2 ^ 32.
pub update_header4-IsSized :
    (n count : ℕ) (h h' : MessageHeader)
    → IsHeader4 h
    → count < 2 ^ 16
    → update_header4 n count h ≡ ok h'
    → length (header_wire4 h') < 2 ^ 32
    → IsSizedHeader4 h' × (h'.entry_count ≡ count) × (h'.message_size ≡ size_add n h'.header_size)
unfolding update_header4 header_size4
update_header4-IsSized n count h h' v small e below =
    let g : MessageHeader = record h {
      message_flags = flags_of_header count h;
      entry_count = count;
    } in
    let (size, hz, h1) = bind-eq-ok (header_size4 g) _ e in
    let (s, hs, h2) = bind-eq-ok (sum_sizes 11 (header_sizes4 g)) _ hz in
    let made = ok-injective h1 in
    let made_header : MessageHeader = record g {
      header_size = size;
      message_size = size_add n size;
    } in
    let whole = subst (λ x. length (header_wire4 x) < 2 ^ 32) (sym made) below in
    let (flags, (multiple, meta, extended)) =
      header_flags4_lem (not (count == 1))
        (not (not (is_nonempty h.meta_data) && (h.message_id == 0 && h.message_res_id == 0)))
        (is_nonempty h.extended) h.message_flags v.flags in
    let w : IsHeader4 made_header = record {
      flags = flags;
      sender = v.sender;
      receiver = v.receiver;
      sender_name = v.sender_name;
      receiver_name = v.receiver_name;
      sender_endpoint = v.sender_endpoint;
      receiver_endpoint = v.receiver_endpoint;
      priority = v.priority;
      meta = v.meta;
      id = v.id;
      res_id = v.res_id;
      rows = v.rows;
      row_count = v.row_count;
      row_bytes = v.row_bytes;
      extended = v.extended;
    } in
    let wire = length-header_wire4 made_header in
    let sum = sum_sizes_lem 11 (header_measured made_header w) (omega arith) hs in
    let (exact, fits) = get_size_plus_uint_x_lem s h2 in
    subst
      (λ x.
        IsSizedHeader4 x × (x.entry_count ≡ count) × (x.message_size ≡ size_add n x.header_size))
      made
      (
        record {
          header = w;
          count = small;
          flagged = (
            multiple,
            meta ∙ meta_cases (is_nonempty h.meta_data) h.message_id h.message_res_id,
            extended,
          );
          exact = omega arith;
          fits = fits;
        },
        refl,
        refl,
      )
