-- ===== src/Message/V4/RoundTrip.antt =====
-- Whole messages of version 4: the size that ComputeSize4 gives, what Write4 writes, and that Read4
-- gives it back.
use robotraconteur_pyodide.Prelude.{
  ℕ, ◌+◌, ◌^◌, ◌≤◌, ◌<◌, ◌≡◌, ap, sym, subst, ◌∙◌, List, ◌∷◌, ◌++◌, append-nil, append_assoc,
  length, length-append, length-overwrite, drop, drop-overwrite, drop-append, drop-drop, overwrite,
  le→leb, arith,
}
use robotraconteur_pyodide.Outcome.{ok, bind-eq-ok, ok-injective, ◌>>=◌, return}
use robotraconteur_pyodide.Io.Reader.{size_add, push_relative_limit}
use robotraconteur_pyodide.Io.Writes.{writer, Writes, Writes-lift}
use robotraconteur_pyodide.Io.Pops.{Pops, Pops->>, Pops-pop_limit, Writes-push_relative_limit}
use robotraconteur_pyodide.Io.Reads.{reader}
use robotraconteur_pyodide.Message.Data.{Message, within_uint32, numeric_cast_uint16}
use robotraconteur_pyodide.Message.V2.Read.{sub_uint32}
use robotraconteur_pyodide.Message.V2.Frame.{depth_entries}
use robotraconteur_pyodide.Message.V2.Entries.{within_uint32_lem}
use robotraconteur_pyodide.Message.V2.RoundTrip.{cast_lem}
use robotraconteur_pyodide.Message.V4.Size.{update_entries4, update_header4, compute_size4}
use robotraconteur_pyodide.Message.V4.Write.{write_message4}
use robotraconteur_pyodide.Message.V4.Read.{MaxSizes, read_header4, read_entries4, read_message4}
use robotraconteur_pyodide.Message.V4.Wire.{entries_wire4, received_entries4}
use robotraconteur_pyodide.Message.V4.Frame.{
  header_wire4, message_wire4, received_header4, received_message4, IsHeader4, IsMessage4,
  IsSizedMessage4,
}
use robotraconteur_pyodide.Message.V4.Parts.{IsRoomy}
use robotraconteur_pyodide.Message.V4.Carried.{
  update_entries4-IsSized, Writes-write_entries4, Reads-read_entries4,
}
use robotraconteur_pyodide.Message.V4.HeaderSize.{update_header4-IsSized}
use robotraconteur_pyodide.Message.V4.Headers.{
  Writes-write_header4, Reads-read_header4, received_count4,
}

pub compute_size4-IsSized :
    (m : Message) (s : ℕ) (m' : Message)
    → IsMessage4 m
    → compute_size4 m ≡ ok (s, m')
    → length (message_wire4 m') < 2 ^ 32
    → IsSizedMessage4 m' × (s ≡ length (message_wire4 m'))
unfolding compute_size4 message_wire4
compute_size4-IsSized m s m' v e small =
    let (first, hf, h1) = bind-eq-ok (numeric_cast_uint16 (length m.entries)) _ e in
    let ((n, es), hes, h2) = bind-eq-ok (update_entries4 m.entries) _ h1 in
    let (size, hs, h3) = bind-eq-ok (within_uint32 n) _ h2 in
    let (count, hc, h4) = bind-eq-ok (numeric_cast_uint16 (length es)) _ h3 in
    let (h, hh, h5) =
      bind-eq-ok (update_header4 size count (record m.header { entry_count = first })) _ h4 in
    let made = ok-injective h5 in
    let below : length (header_wire4 h ++ entries_wire4 es) < 2 ^ 32 =
      subst (λ p. length (header_wire4 p.1.header ++ entries_wire4 p.1.entries) < 2 ^ 32) (sym made)
        small in
    let split = length-append (header_wire4 h) (entries_wire4 es) in
    let (total, sized) = update_entries4-IsSized m.entries n v.entries hes (omega arith) in
    let (exact, fits) = within_uint32_lem _ hs in
    let (counted, few) = cast_lem _ hc in
    let (header, entry_count, message) =
      update_header4-IsSized size count (record m.header { entry_count = first }) h
        (counted_header first) (omega arith) hh (omega arith) in
    let own = header.exact in
    let all : h.message_size ≡ length (header_wire4 h ++ entries_wire4 es) = omega arith in
    subst (λ p. IsSizedMessage4 p.1 × (p.0 ≡ length (message_wire4 p.1))) made
      (record { header = header; entries = sized; count = entry_count ∙ counted; size = all }, all)
  where
    counted_header : (n : ℕ) → IsHeader4 (record m.header { entry_count = n })
    counted_header n =
        let w = v.header in
        record {
          flags = w.flags;
          sender = w.sender;
          receiver = w.receiver;
          sender_name = w.sender_name;
          receiver_name = w.receiver_name;
          sender_endpoint = w.sender_endpoint;
          receiver_endpoint = w.receiver_endpoint;
          priority = w.priority;
          meta = w.meta;
          id = w.id;
          res_id = w.res_id;
          rows = w.rows;
          row_count = w.row_count;
          row_bytes = w.row_bytes;
          extended = w.extended;
        }

-- Write4 puts into the buffer the bytes of the message that ComputeSize4 leaves.
pub Writes-write_message4 :
    (fuel : ℕ) (m : Message) (s : ℕ) (m' : Message)
    → IsMessage4 m
    → compute_size4 m ≡ ok (s, m')
    → length (message_wire4 m') < 2 ^ 32
    → depth_entries m'.entries ≤ fuel
    → Writes (write_message4 fuel m) (message_wire4 m')
unfolding write_message4 message_wire4
Writes-write_message4 fuel m s m' v e small h =
    let (sized, exact) = compute_size4-IsSized m s m' v e small in
    Writes-lift _ e (
      Writes-push_relative_limit s (sym exact) (
        subst (Pops _) (ap (◌++◌ (header_wire4 m'.header)) (append-nil (entries_wire4 m'.entries)))
          (Pops->> (Writes-write_header4 m'.header sized.header)
            (Pops->> (Writes-write_entries4 fuel m'.entries sized.entries h) Pops-pop_limit))))

module _ (c : MaxSizes) (roomy : IsRoomy c) where
  -- Read4 leaves the limit that it pushed, which is where the message ends.
  pub read_message4-message_wire4 :
      (fuel : ℕ) (m : Message) (b : List ℕ) (p n l : ℕ) (ls rest : List ℕ)
      → IsSizedMessage4 m
      → depth_entries m.entries ≤ fuel
      → drop p b ≡ message_wire4 m ++ rest
      → p + m.header.message_size ≤ l
      → l ≤ length b
      → l < 2 ^ 31
      → read_message4 c fuel (reader b p n l ls)
        ≡ ok (
          received_message4 m,
          reader b (p + m.header.message_size) n (p + m.header.message_size) (l ∷ ls),
        )
  unfolding read_message4 ◌>>=◌ return push_relative_limit received_message4 received_header4
      message_wire4
  read_message4-message_wire4 fuel m b p n l ls rest v deep e room fits small =
      let hw : List ℕ = header_wire4 m.header in
      let ew : List ℕ = entries_wire4 m.entries in
      let hs : m.header.header_size ≡ length hw = v.header.exact in
      let total : m.header.message_size ≡ m.header.header_size + length ew =
        omega (arith, v.size, hs, length-append hw ew) in
      let here : drop p b ≡ hw ++ (ew ++ rest) = e ∙ append_assoc hw ew rest in
      let next : drop (p + length hw) b ≡ ew ++ rest =
        sym (drop-drop p (length hw) b)
        ∙ ap (drop (length hw)) here
        ∙ drop-append hw (ew ++ rest) in
      let first : read_header4 c (reader b p n l ls)
          ≡ ok (received_header4 m.header, reader b (p + length hw) n l ls) =
        (Reads-read_header4 c roomy m.header v.header (omega arith)).apply b p n l ls (ew ++ rest)
          here (omega arith) fits small in
      let end : ℕ = p + m.header.message_size in
      let whole : size_add (p + length hw) (sub_uint32 m.header.message_size m.header.header_size)
          ≡ end =
        omega (arith, v.header.fits) in
      let second : read_entries4 c fuel (received_header4 m.header).entry_count
            (reader b (p + length hw) n end (l ∷ ls))
          ≡ ok (received_entries4 m.entries, reader b (p + length hw + length ew) n end (l ∷ ls)) =
        subst
          (λ k.
            read_entries4 c fuel k (reader b (p + length hw) n end (l ∷ ls))
            ≡ ok (received_entries4 m.entries, reader b (p + length hw + length ew) n end (l ∷ ls)))
          (sym (received_count4 m.header v.header ∙ v.count))
          ((Reads-read_entries4 c roomy fuel m.entries v.entries deep).apply b (p + length hw) n end
            (l ∷ ls) rest next (omega arith) (omega arith) (omega arith)) in
      let last : p + length hw + length ew ≡ end = omega arith in
      rw (first, whole, le→leb end l room, second)
        (ap
          (λ q. ok (
            record { header = received_header4 m.header; entries = received_entries4 m.entries },
            reader b q n end (l ∷ ls),
          ))
          last)

  -- A message whose header and entries hold what version 4 can carry, and that ComputeSize4 accepts with
  -- fewer than 2 ^ 32 bytes, is written, where its size fits between the position and a limit that is in
  -- the buffer and below 2 ^ 31, on as much fuel as its lists are deep; reading from where it was written
  -- gives it back, with the sizes and flags that ComputeSize4 set, a field whose flag is not set being as
  -- Read4 leaves it and a nested list having the type name of its element. Strings and vectors of 2 ^ 30
  -- bytes must be possible.
  pub read_message4-write_message4 :
      (fuel : ℕ) (m : Message) (s : ℕ) (m' : Message) (b : List ℕ) (p n l : ℕ) (ls : List ℕ)
      → IsMessage4 m
      → compute_size4 m ≡ ok (s, m')
      → length (message_wire4 m') < 2 ^ 32
      → depth_entries m'.entries ≤ fuel
      → p + s ≤ l
      → l ≤ length b
      → l < 2 ^ 31
      → (b' : List ℕ) × (write_message4 fuel m (writer b p n l ls)
          ≡ ok (tt, writer b' (p + s) n l ls))
        × (length b' ≡ length b)
        × (read_message4 c fuel (reader b' p n l ls)
            ≡ ok (received_message4 m', reader b' (p + s) n (p + s) (l ∷ ls)))
  read_message4-write_message4 fuel m s m' b p n l ls v e below deep room fits small =
      let (sized, exact) = compute_size4-IsSized m s m' v e below in
      let wire : List ℕ = message_wire4 m' in
      let b' : List ℕ = overwrite b p wire in
      let same : length b' ≡ length b = length-overwrite b p wire in
      let size : m'.header.message_size ≡ s = sized.size ∙ sym exact in
      let written =
        (Writes-write_message4 fuel m s m' v e below deep).apply b p n l ls (omega arith) fits
          small in
      let found : drop p b' ≡ wire ++ drop (p + length wire) b =
        drop-overwrite b p wire (omega arith) in
      let back =
        read_message4-message_wire4 fuel m' b' p n l ls (drop (p + length wire) b) sized deep found
          (omega arith) (omega arith) small in
      (
        b',
        subst (λ k. write_message4 fuel m (writer b p n l ls) ≡ ok (tt, writer b' (p + k) n l ls))
            (sym exact) written,
        same,
        subst
            (λ k.
              read_message4 c fuel (reader b' p n l ls)
              ≡ ok (received_message4 m', reader b' (p + k) n (p + k) (l ∷ ls)))
            size back,
      )
