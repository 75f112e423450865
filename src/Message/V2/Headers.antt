-- ===== src/Message/V2/Headers.antt =====
-- Headers: the sizes that UpdateHeader sets, what Write writes, and what Read gives back.
use robotraconteur_pyodide.Prelude.{
  ℕ, suc, ◌+◌, ◌-◌, ◌^◌, ◌≤◌, ◌<◌, ◌≡◌, refl, ap, subst, List, [], ◌∷◌, append-nil, length,
  length-append, All, IsByte, le→ltb, arith, true, ◌==◌,
}
use robotraconteur_pyodide.Prelude.Words.{
  le_value-le_bytes_one, le_value-le_bytes_two, le_value-le_bytes_four,
}
use robotraconteur_pyodide.Outcome.{ok, bind-eq-ok, ok-injective, require, protocol}
use robotraconteur_pyodide.Io.Writes.{
  Writes, Writes->>, Writes-return, Writes-lift, Writes-write_number, Writes-in_limit,
  Writes-write_string8,
}
use robotraconteur_pyodide.Io.Reads.{
  Reads, Reads->>=, Reads-return, Reads-cast, Reads-read_number, Reads-in_limit, Reads-test,
  Reads-read_string8,
}
use robotraconteur_pyodide.Message.Data.{MessageHeader, message_flags_version2_compat}
use robotraconteur_pyodide.Message.V2.Size.{three_strings, header_size, update_header}
use robotraconteur_pyodide.Message.V2.Write.{rrac, write_node_id, write_header}
use robotraconteur_pyodide.Message.V2.Read.{eq_bytes, read_node_id, read_header, read_header_body}
use robotraconteur_pyodide.Message.V2.Frame.{
  node_id_wire, header_body_wire, header_wire, IsHeader, IsSizedHeader, received_header,
}
use robotraconteur_pyodide.Message.V2.Update.{three_strings_lem, three_strings_fit, length-string16}
use robotraconteur_pyodide.Message.V2.Entries.{require_lem, flag_test, cast_fits}
use robotraconteur_pyodide.Message.V2.Written.{Writes-write_string16}
use robotraconteur_pyodide.Message.V2.Readback.{Reads-read_string16}

pub header_size_lem :
    (h : MessageHeader) {n : ℕ}
    → header_size h ≡ ok n
    → (length h.sender_node_name < 2 ^ 16)
      × (length h.receiver_node_name < 2 ^ 16)
      × (length h.meta_data < 2 ^ 16)
      × (n ≡ 64 + (length h.sender_node_name + length h.receiver_node_name + length h.meta_data))
      × (n < 2 ^ 16)
unfolding header_size
header_size_lem h e =
    let (s, hs, h1) =
      bind-eq-ok (three_strings h.sender_node_name h.receiver_node_name h.meta_data) _ e in
    let (la, lb, lc, sum) = three_strings_lem _ _ _ hs in
    (la, lb, lc, ground (arith, h1, sum), ground (arith, h1, sum))

-- UpdateHeader sets the header's own size and the two numbers that it is given.
pub update_header-IsSized :
    (message_size count : ℕ) (h : MessageHeader) {h' : MessageHeader}
    → IsHeader h
    → message_size < 2 ^ 32
    → count < 2 ^ 16
    → update_header message_size count h ≡ ok h'
    → IsSizedHeader h'
      × (h'.message_size ≡ message_size)
      × (h'.entry_count ≡ count)
      × (header_size h ≡ ok h'.header_size)
unfolding update_header
update_header-IsSized message_size count h v hm hc e =
    let (_, hf, h1) =
      bind-eq-ok (require (h.message_flags == message_flags_version2_compat) protocol) _ e in
    let (n, hn, h2) = bind-eq-ok (header_size h) _ h1 in
    let flag : (h.message_flags == message_flags_version2_compat) ≡ true = require_lem _ hf in
    let (la, lb, lc, size, fits) = header_size_lem h hn in
    subst
      (λ g.
        IsSizedHeader g
        × (g.message_size ≡ message_size)
        × (g.entry_count ≡ count)
        × (header_size h ≡ ok g.header_size))
      (ok-injective h2)
      (
        record {
          header = record {
            sender = v.sender;
            receiver = v.receiver;
            sender_endpoint = v.sender_endpoint;
            receiver_endpoint = v.receiver_endpoint;
            id = v.id;
            res_id = v.res_id;
          };
          flags = ground arith;
          sender_name = la;
          receiver_name = lb;
          meta = lc;
          count = hc;
          size = size;
          fits = fits;
          message = hm;
        },
        refl,
        refl,
        hn,
      )

pub update_header_kept :
    (h : MessageHeader) → IsSizedHeader h → update_header h.message_size h.entry_count h ≡ ok h
unfolding update_header header_size
update_header_kept h v = rw (
  flag_test h.message_flags v.flags,
  three_strings_fit h.sender_node_name h.receiver_node_name h.meta_data v.sender_name
      v.receiver_name v.meta,
  ← v.size,
  le→ltb (2 ^ 16 - 1) h.header_size (omega arith),
)

pub length-node_id_wire : (bs : List ℕ) → length (node_id_wire bs) ≡ length bs
unfolding node_id_wire
length-node_id_wire [] = refl
length-node_id_wire (b ∷ bs) = ap suc (length-node_id_wire bs)

pub length-header_wire :
    (h : MessageHeader) → IsSizedHeader h → length (header_wire h) ≡ h.header_size
unfolding header_wire
length-header_wire h v =
    let sender = v.header.sender.0 in
    let receiver = v.header.receiver.0 in
    simp (length-append, length-string16, length-node_id_wire)
      (omega (arith, v.size, sender, receiver))

pub Writes-write_node_id : (bs : List ℕ) → Writes (write_node_id bs) (node_id_wire bs)
unfolding write_node_id node_id_wire
Writes-write_node_id [] = Writes-return
Writes-write_node_id (b ∷ bs) = Writes->> (Writes-write_number 1 b) (Writes-write_node_id bs)

Reads-read_node_id :
    (bs : List ℕ) → All IsByte bs → Reads (read_node_id (length bs)) (node_id_wire bs) bs
unfolding read_node_id node_id_wire
Reads-read_node_id [] h = Reads-return []
Reads-read_node_id (b ∷ bs) (h, hs) =
    Reads-cast
      (Reads->>= _ (Reads-read_number 1 b (le_value-le_bytes_one b h))
        (Reads->>= _ (Reads-read_node_id bs hs) (Reads-return (b ∷ bs))))
      (simp append-nil)

pub Reads-id :
    (bs : List ℕ) → length bs ≡ 16 → All IsByte bs → Reads (read_node_id 16) (node_id_wire bs) bs
Reads-id bs size h =
    subst (λ n. Reads (read_node_id n) (node_id_wire bs) bs) size (Reads-read_node_id bs h)

pub Writes-write_header :
    (h : MessageHeader) → IsSizedHeader h → Writes (write_header h) (header_wire h)
unfolding write_header header_wire
Writes-write_header h v =
    Writes-in_limit h.header_size
      (Writes->> (Writes-write_string8 rrac) (
        Writes->> (Writes-write_number 4 h.message_size) (
          Writes->> (Writes-write_number 2 2) (
            rw (le→ltb (2 ^ 16 - 1) h.header_size (omega (arith, v.fits))) (
              Writes->> {xs = []} Writes-return (
                Writes-lift _ (cast_fits h.header_size v.fits) (
                  Writes->> (Writes-write_number 2 h.header_size) (
                    Writes->> (Writes-write_node_id h.sender_node_id) (
                      Writes->> (Writes-write_node_id h.receiver_node_id) (
                        Writes->> (Writes-write_number 4 h.sender_endpoint) (
                          Writes->> (Writes-write_number 4 h.receiver_endpoint) (
                            Writes->> (Writes-write_string16 h.sender_node_name v.sender_name) (
                              Writes->> (Writes-write_string16 h.receiver_node_name v.receiver_name)
                                (Writes->> (Writes-write_string16 h.meta_data v.meta) (
                                  Writes->> (Writes-write_number 2 h.entry_count) (
                                    Writes->> (Writes-write_number 2 h.message_id)
                                      (Writes-write_number 2 h.message_res_id)))))))))))))))))
      (length-header_wire h v)

module _ (max_size : ℕ) (roomy : 2 ^ 16 ≤ max_size) where
  Reads-read_header_body :
      (h : MessageHeader)
      → IsSizedHeader h
      → Reads
          (read_header_body max_size h.message_size h.header_size)
          (header_body_wire h)
          (received_header h)
  unfolding read_header_body header_body_wire received_header
  Reads-read_header_body h v =
      Reads-cast
        (Reads->>= _ (Reads-id h.sender_node_id v.header.sender.0 v.header.sender.1) (
          Reads->>= _ (Reads-id h.receiver_node_id v.header.receiver.0 v.header.receiver.1) (
            Reads->>= _ (Reads-read_number 4 _ (le_value-le_bytes_four _ v.header.sender_endpoint))
              (Reads->>= _
                (Reads-read_number 4 _ (le_value-le_bytes_four _ v.header.receiver_endpoint))
                (Reads->>= _ (Reads-read_string16 max_size roomy _ v.sender_name) (
                  Reads->>= _ (Reads-read_string16 max_size roomy _ v.receiver_name) (
                    Reads->>= _ (Reads-read_string16 max_size roomy _ v.meta) (
                      Reads->>= _ (Reads-read_number 2 _ (le_value-le_bytes_two _ v.count)) (
                        Reads->>= _ (Reads-read_number 2 _ (le_value-le_bytes_two _ v.header.id)) (
                          Reads->>= _
                            (Reads-read_number 2 _ (le_value-le_bytes_two _ v.header.res_id))
                            (Reads-return _)))))))))))
        (simp append-nil)

  pub Reads-read_header :
      (h : MessageHeader)
      → IsSizedHeader h
      → Reads (read_header max_size) (header_wire h) (received_header h)
  unfolding read_header header_wire eq_bytes
  Reads-read_header h v = Reads->>= _ (Reads-read_string8 max_size rrac (omega arith)) (
      Reads-test _ (
        Reads->>= _ (Reads-read_number 4 _ (le_value-le_bytes_four _ v.message)) (
          Reads->>= _ (Reads-read_number 2 2 refl) (
            Reads-test _ (
              Reads->>= _ (Reads-read_number 2 _ (le_value-le_bytes_two _ v.fits)) (
                Reads-in_limit _ (Reads-read_header_body h v)
                  (omega (arith, v.size, v.fits, length-header_wire h v))))))))
