-- ===== src/Message/V4/Headers.antt =====
-- Headers of version 4: what Write4 writes, and that Read4 gives it back.
use robotraconteur_pyodide.Prelude.{
  ℕ, ◌+◌, ◌-◌, ◌^◌, ◌<◌, ◌≡◌, refl, sym, ap, Bool, true, false, not, List, [], ◌∷◌, ◌++◌, ◌==◌,
  append-nil, length, length-append, All, le→ltb, arith,
}
use robotraconteur_pyodide.Prelude.Words.{
  le_value-le_bytes_one, le_value-le_bytes_two, le_value-le_bytes_four,
}
use robotraconteur_pyodide.Outcome.{Action, ◌>>=◌}
use robotraconteur_pyodide.Io.Encoding.{uint_x, string_with_x_len}
use robotraconteur_pyodide.Io.Reader.{ArrayBinaryReader, read_uint_x}
use robotraconteur_pyodide.Io.Numbers.{
  length-uint_x, Writes-write_uint_x, Reads-read_uint_x, Writes-write_string8_with_x_len,
}
use robotraconteur_pyodide.Io.Writes.{
  Writes, Writes->>, Writes-return, Writes-write_number, Writes-in_limit, Writes-write_string8,
}
use robotraconteur_pyodide.Io.Reads.{
  Reads, Reads->>=, Reads-return, Reads-cast, Reads-read_number, Reads-in_limit, Reads-test,
  Reads-read_string8,
}
use robotraconteur_pyodide.Message.Data.{MessageHeader, has, nil_id}
use robotraconteur_pyodide.Message.V2.Write.{rrac}
use robotraconteur_pyodide.Message.V2.Read.{eq_bytes}
use robotraconteur_pyodide.Message.V2.Frame.{node_id_wire}
use robotraconteur_pyodide.Message.V2.Headers.{Writes-write_node_id, Reads-id}
use robotraconteur_pyodide.Message.V4.Write.{write_routing, write_rows, write_header4}
use robotraconteur_pyodide.Message.V4.Read.{
  MaxSizes, optional, Routing, no_routing, read_routing, read_pair, read_rows, read_count,
  read_header_body4, read_header4,
}
use robotraconteur_pyodide.Message.V4.Wire.{part, kept}
use robotraconteur_pyodide.Message.V4.Frame.{
  rows_wire, header_body_wire4, header_wire4, received_header4, IsRow, IsHeader4, IsSizedHeader4,
}
use robotraconteur_pyodide.Message.V4.Parts.{
  Writes-when, Writes-write_extended, Reads-optional, IsRoomy, Reads-read_string_x,
  Reads-read_extended,
}

Writes-write_rows : (t : List (ℕ × List ℕ)) → Writes (write_rows t) (rows_wire t)
unfolding write_rows rows_wire
Writes-write_rows [] = Writes-return
Writes-write_rows ((code, s) ∷ t) =
    Writes->> (Writes-write_uint_x code)
      (Writes->> (Writes-write_string8_with_x_len s) (Writes-write_rows t))

Writes-write_routing :
    (h : MessageHeader)
    → Writes (write_routing h) (
        node_id_wire h.sender_node_id
        ++ (node_id_wire h.receiver_node_id
            ++ (string_with_x_len h.sender_node_name ++ string_with_x_len h.receiver_node_name)))
unfolding write_routing
Writes-write_routing h = Writes->> (Writes-write_node_id h.sender_node_id) (
    Writes->> (Writes-write_node_id h.receiver_node_id) (
      Writes->> (Writes-write_string8_with_x_len h.sender_node_name)
        (Writes-write_string8_with_x_len h.receiver_node_name)))

pub Writes-write_header4 :
    (h : MessageHeader) → IsSizedHeader4 h → Writes (write_header4 h) (header_wire4 h)
unfolding write_header4 header_wire4 header_body_wire4
Writes-write_header4 h v =
    Writes-in_limit h.header_size
      (Writes->> (Writes-write_string8 rrac) (
        Writes->> (Writes-write_number 4 h.message_size) (
          Writes->> (Writes-write_number 2 4) (
            Writes->> (Writes-write_uint_x h.header_size) (
              Writes->> (Writes-write_number 1 h.message_flags) (
                Writes->> (Writes-when (has h.message_flags 0x01) (Writes-write_routing h)) (
                  Writes->>
                    (Writes-when (has h.message_flags 0x02) (
                      Writes->> (Writes-write_uint_x h.sender_endpoint)
                        (Writes-write_uint_x h.receiver_endpoint)))
                    (Writes->>
                      (Writes-when (has h.message_flags 0x04) (Writes-write_number 2 h.priority))
                      (Writes->>
                        (Writes-when (has h.message_flags 0x10) (
                          Writes->> (Writes-write_string8_with_x_len h.meta_data) (
                            Writes->> (Writes-write_number 2 h.message_id)
                              (Writes-write_number 2 h.message_res_id))))
                        (Writes->>
                          (Writes-when (has h.message_flags 0x20) (
                            Writes->> (Writes-write_uint_x (length h.string_table))
                              (Writes-write_rows h.string_table)))
                          (Writes->>
                            (Writes-when (has h.message_flags 0x40)
                              (Writes-write_uint_x h.entry_count))
                            (Writes-when (has h.message_flags 0x80)
                              (Writes-write_extended h.extended)))))))))))))
      (sym v.exact)

Reads-read_pair :
    {A B : Type 0} {m : Action ArrayBinaryReader A} {k : Action ArrayBinaryReader B}
    {xs ys : List ℕ} {a : A} {b : B}
    → Reads m xs a
    → Reads k ys b
    → Reads (read_pair m k) (xs ++ ys) (a, b)
unfolding read_pair
Reads-read_pair {xs} {ys} hm hk =
    Reads-cast (Reads->>= _ hm (Reads->>= _ hk (Reads-return _))) (ap (◌++◌ xs) (append-nil ys))

-- Several fields behind one flag.
Reads-optional_pair :
    {A B : Type 0} (b : Bool) (d : A) (e : B) {x : A} {y : B} {m : Action ArrayBinaryReader (A × B)}
    {xs : List ℕ}
    → Reads m xs (x, y)
    → Reads (optional b (d, e) m) (part b xs) (kept b d x, kept b e y)
Reads-optional_pair true d e h = h
Reads-optional_pair false d e h = Reads-return _

Reads-optional_triple :
    {A B C : Type 0} (b : Bool) (d : A) (e : B) (f : C) {x : A} {y : B} {z : C}
    {m : Action ArrayBinaryReader (A × (B × C))} {xs : List ℕ}
    → Reads m xs (x, (y, z))
    → Reads (optional b (d, (e, f)) m) (part b xs) (kept b d x, (kept b e y, kept b f z))
Reads-optional_triple true d e f h = h
Reads-optional_triple false d e f h = Reads-return _

Reads-optional_routing :
    (b : Bool) {r : Routing} {m : Action ArrayBinaryReader Routing} {xs : List ℕ}
    → Reads m xs r
    → Reads (optional b no_routing m) (part b xs) (record {
      sender_id = kept b nil_id r.sender_id;
      receiver_id = kept b nil_id r.receiver_id;
      sender_name = kept b [] r.sender_name;
      receiver_name = kept b [] r.receiver_name;
    })
Reads-optional_routing true h = h
Reads-optional_routing false h = Reads-return _

Reads-read_count : (n : ℕ) → n < 2 ^ 16 → Reads read_count (uint_x n) n
unfolding read_count
Reads-read_count n h =
    Reads-cast
      (Reads->>= _ (Reads-read_uint_x n (omega arith))
        (rw (le→ltb (2 ^ 16 - 1) n (omega arith)) (Reads-return n)))
      (append-nil (uint_x n))

-- One entry is the number that Read4 takes where the flag is not set.
kept_count : (b : Bool) (n : ℕ) → b ≡ not (n == 1) → kept b 1 n ≡ n
kept_count true n h = refl
kept_count false n h = ground arith

pub received_count4 :
    (h : MessageHeader) → IsSizedHeader4 h → (received_header4 h).entry_count ≡ h.entry_count
unfolding received_header4
received_count4 h v = kept_count _ h.entry_count v.flagged.0

header_split :
    (h : MessageHeader)
    → length (header_wire4 h) ≡ 10 + (length (uint_x h.header_size) + length (header_body_wire4 h))
unfolding header_wire4
header_split h = simp length-append (omega arith)

module _ (c : MaxSizes) (roomy : IsRoomy c) where
  Reads-read_rows :
      (t : List (ℕ × List ℕ)) → All IsRow t → Reads (read_rows c (length t)) (rows_wire t) t
  unfolding read_rows rows_wire
  Reads-read_rows [] v = Reads-return []
  Reads-read_rows ((code, s) ∷ t) ((small, short), vs) =
      Reads-cast
        (Reads->>= _ (Reads-read_uint_x code small) (
          Reads->>= _ (Reads-read_string_x c roomy s short)
            (Reads->>= _ (Reads-read_rows t vs) (Reads-return _))))
        (simp append-nil)

  Reads-read_table :
      (t : List (ℕ × List ℕ))
      → All IsRow t
      → length t < 2 ^ 30
      → Reads (read_uint_x >>= read_rows c) (uint_x (length t) ++ rows_wire t) t
  Reads-read_table t v small =
      Reads->>= _ (Reads-read_uint_x (length t) (omega arith)) (Reads-read_rows t v)

  Reads-read_routing :
      (h : MessageHeader)
      → IsHeader4 h
      → Reads
          (read_routing c)
          (node_id_wire h.sender_node_id
            ++ (node_id_wire h.receiver_node_id
                ++ (string_with_x_len h.sender_node_name
                    ++ string_with_x_len h.receiver_node_name)))
          (record {
            sender_id = h.sender_node_id;
            receiver_id = h.receiver_node_id;
            sender_name = h.sender_node_name;
            receiver_name = h.receiver_node_name;
          })
  unfolding read_routing
  Reads-read_routing h v =
      Reads-cast
        (Reads->>= _ (Reads-id h.sender_node_id v.sender.0 v.sender.1) (
          Reads->>= _ (Reads-id h.receiver_node_id v.receiver.0 v.receiver.1) (
            Reads->>= _ (Reads-read_string_x c roomy _ v.sender_name)
              (Reads->>= _ (Reads-read_string_x c roomy _ v.receiver_name) (Reads-return _)))))
        (simp append-nil)

  Reads-read_header_body4 :
      (h : MessageHeader)
      → IsSizedHeader4 h
      → Reads
          (read_header_body4 c h.message_size h.header_size)
          (header_body_wire4 h)
          (received_header4 h)
  unfolding read_header_body4 header_body_wire4 received_header4
  Reads-read_header_body4 h v =
      let w = v.header in
      let two = λ (n : ℕ) (k : n < 2 ^ 16). Reads-read_number 2 n (le_value-le_bytes_two n k) in
      Reads-cast
        (Reads->>= _ (Reads-read_number 1 _ (le_value-le_bytes_one _ w.flags)) (
          Reads->>= _ (Reads-optional_routing (has h.message_flags 0x01) (Reads-read_routing h w)) (
            Reads->>= _
              (Reads-optional_pair (has h.message_flags 0x02) _ _ (
                Reads-read_pair (Reads-read_uint_x _ w.sender_endpoint)
                  (Reads-read_uint_x _ w.receiver_endpoint)))
              (Reads->>= _ (Reads-optional (has h.message_flags 0x04) _ (two _ w.priority)) (
                Reads->>= _
                  (Reads-optional_triple (has h.message_flags 0x10) _ _ _ (
                    Reads-read_pair (Reads-read_string_x c roomy _ w.meta)
                      (Reads-read_pair (two _ w.id) (two _ w.res_id))))
                  (Reads->>= _
                    (Reads-optional (has h.message_flags 0x20) _
                      (Reads-read_table _ w.rows w.row_count))
                    (Reads->>= _
                      (Reads-optional (has h.message_flags 0x40) _ (Reads-read_count _ v.count))
                      (Reads->>= _
                        (Reads-optional (has h.message_flags 0x80) _
                          (Reads-read_extended c roomy _ w.extended))
                        (Reads-return _)))))))))
        (simp append-nil)

  pub Reads-read_header4 :
      (h : MessageHeader)
      → IsSizedHeader4 h
      → h.message_size < 2 ^ 32
      → Reads (read_header4 c) (header_wire4 h) (received_header4 h)
  unfolding read_header4 header_wire4 eq_bytes
  Reads-read_header4 h v small =
      Reads->>= _ (Reads-read_string8 c.string rrac (omega (arith, roomy.strings))) (
        Reads-test _ (
          Reads->>= _ (Reads-read_number 4 _ (le_value-le_bytes_four _ small)) (
            Reads->>= _ (Reads-read_number 2 4 refl) (
              Reads-test _ (
                Reads->>= _ (Reads-read_uint_x _ v.fits) (
                  Reads-in_limit _ (Reads-read_header_body4 h v) (
                    omega
                      (arith, v.exact, v.fits, header_split h, length-uint_x h.header_size))))))))
