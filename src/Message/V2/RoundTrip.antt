-- ===== src/Message/V2/RoundTrip.antt =====
-- Whole messages: the size that ComputeSize gives, what Write writes, and that Read gives it back.
use robotraconteur_pyodide.Prelude.{
  ℕ, ◌+◌, ◌^◌, ◌≤◌, ◌<◌, ◌≡◌, ap, sym, subst, ◌∙◌, List, ◌∷◌, ◌++◌, append-nil, append_assoc,
  length, length-append, length-overwrite, drop, drop-overwrite, drop-append, drop-drop, overwrite,
  All, le→leb, arith,
}
use robotraconteur_pyodide.Prelude.Int.{ℤ}
use robotraconteur_pyodide.Outcome.{ok, bind-eq-ok, ok-injective, ◌>>=◌, return}
use robotraconteur_pyodide.Io.Reader.{size_add, push_relative_limit}
use robotraconteur_pyodide.Io.Writes.{writer, Writes, Writes-lift}
use robotraconteur_pyodide.Io.Pops.{
  Pops, Pops->>, Pops-pop_limit, Pops-lift, Writes-push_relative_limit,
}
use robotraconteur_pyodide.Io.Reads.{reader}
use robotraconteur_pyodide.Message.Data.{Message, within_uint32, numeric_cast_uint16}
use robotraconteur_pyodide.Message.V2.Size.{
  header_size, update_entries, update_header, compute_size,
}
use robotraconteur_pyodide.Message.V2.Write.{write_message}
use robotraconteur_pyodide.Message.V2.Read.{sub_uint32, read_header, read_entries, read_message}
use robotraconteur_pyodide.Message.V2.Frame.{
  header_wire, entries_wire, message_wire, depth_entries, IsEntry, IsSizedEntry, IsHeader,
  IsSizedHeader, received_header, received_entries, received_message,
}
use robotraconteur_pyodide.Message.V2.Entries.{
  within_uint32_lem, cast_fits, update_entries-IsSized, Writes-write_entries, Reads-read_entries,
}
use robotraconteur_pyodide.Message.V2.Headers.{
  update_header-IsSized, update_header_kept, length-header_wire, Writes-write_header,
  Reads-read_header,
}

-- A message whose header and entries hold what their fields can carry.
pub record IsMessage (m : Message) : Type 0 where
  pub header : IsHeader m.header
  pub entries : All IsEntry m.entries

pub record IsSizedMessage (m : Message) : Type 0 where
  pub header : IsSizedHeader m.header
  pub entries : All IsSizedEntry m.entries
  pub count : m.header.entry_count ≡ length m.entries
  pub size : m.header.message_size ≡ length (message_wire m)

pub cast_lem : (n : ℕ) {m : ℕ} → numeric_cast_uint16 n ≡ ok m → (m ≡ n) × (n < 2 ^ 16)
cast_lem n h = ground arith

-- What ComputeSize returns for a message, when it succeeds on one whose header and entries hold what
-- their fields can carry, is the number of the bytes of the message that it leaves, which is below
-- 2 ^ 32, and every size and count in that message is right.
pub compute_size-IsSized :
    (lexical_cast : ℤ → List ℕ) (m : Message) {s : ℕ} {m' : Message}
    → IsMessage m
    → compute_size lexical_cast m ≡ ok (s, m')
    → IsSizedMessage m' × (s ≡ length (message_wire m')) × (s < 2 ^ 32)
unfolding compute_size message_wire
compute_size-IsSized lexical_cast m v e =
    let (n, hn, h1) = bind-eq-ok (header_size m.header) _ e in
    let ((k, es), hes, h2) = bind-eq-ok (update_entries lexical_cast m.entries) _ h1 in
    let (size, hs, h3) = bind-eq-ok (within_uint32 (n + k)) _ h2 in
    let (count, hc, h4) = bind-eq-ok (numeric_cast_uint16 (length es)) _ h3 in
    let (h, hh, h5) = bind-eq-ok (update_header size count m.header) _ h4 in
    let (total, sized, same) = update_entries-IsSized lexical_cast m.entries v.entries hes in
    let (exact, fits) = within_uint32_lem _ hs in
    let (counted, small) = cast_lem _ hc in
    let (header, message, entry_count, own) =
      update_header-IsSized size count m.header v.header (omega arith) (omega arith) hh in
    let same_size : n ≡ h.header_size = ok-injective (sym hn ∙ own) in
    let all : size ≡ length (header_wire h ++ entries_wire es) =
      omega (arith, length-append (header_wire h) (entries_wire es), length-header_wire h header) in
    subst (λ p. IsSizedMessage p.1 × (p.0 ≡ length (message_wire p.1)) × (p.0 < 2 ^ 32))
      (ok-injective h5)
      (
        record {
          header = header;
          entries = sized;
          count = entry_count ∙ counted;
          size = message ∙ all;
        },
        all,
        omega arith,
      )

-- Write puts into the buffer the bytes of the message that ComputeSize leaves.
pub Writes-write_message :
    (lexical_cast : ℤ → List ℕ) (fuel : ℕ) (m : Message) {s : ℕ} {m' : Message}
    → IsMessage m
    → compute_size lexical_cast m ≡ ok (s, m')
    → depth_entries m'.entries ≤ fuel
    → Writes (write_message lexical_cast fuel m) (message_wire m')
unfolding write_message message_wire
Writes-write_message lexical_cast fuel m {s} {m'} v e h =
    let (sized, exact, fits) = compute_size-IsSized lexical_cast m v e in
    Writes-lift _ e (
      Writes-push_relative_limit s (sym exact) (
        Pops-lift _
          (cast_fits (length m'.entries) (subst (λ n. n < 2 ^ 16) sized.count sized.header.count))
          (Pops-lift _ (same_header sized exact) (
            subst (Pops _)
              (ap (◌++◌ (header_wire m'.header)) (append-nil (entries_wire m'.entries)))
              (Pops->> (Writes-write_header m'.header sized.header) (
                Pops->> (Writes-write_entries lexical_cast fuel m'.entries sized.entries h)
                  Pops-pop_limit))))))
  where
    same_header :
        IsSizedMessage m'
        → s ≡ length (message_wire m')
        → update_header s (length m'.entries) m'.header ≡ ok m'.header
    same_header sized exact =
        rw (← sized.count, exact, ← sized.size) (update_header_kept m'.header sized.header)

module _ (max_size : ℕ) (roomy : 2 ^ 16 ≤ max_size) where
  -- Read leaves the limit that it pushed, which is where the message ends.
  pub read_message-message_wire :
      (fuel : ℕ) (m : Message) (b : List ℕ) (p n l : ℕ) (ls rest : List ℕ)
      → IsSizedMessage m
      → depth_entries m.entries ≤ fuel
      → drop p b ≡ message_wire m ++ rest
      → p + m.header.message_size ≤ l
      → l ≤ length b
      → l < 2 ^ 31
      → read_message max_size fuel (reader b p n l ls)
        ≡ ok (
          received_message m,
          reader b (p + m.header.message_size) n (p + m.header.message_size) (l ∷ ls),
        )
  unfolding read_message ◌>>=◌ return push_relative_limit received_message received_header
      message_wire
  read_message-message_wire fuel m b p n l ls rest v deep e room fits small =
      let hw : List ℕ = header_wire m.header in
      let ew : List ℕ = entries_wire m.entries in
      let hs : length hw ≡ m.header.header_size = length-header_wire m.header v.header in
      let total : m.header.message_size ≡ m.header.header_size + length ew =
        omega (arith, v.size, hs, length-append hw ew) in
      let here : drop p b ≡ hw ++ (ew ++ rest) = e ∙ append_assoc hw ew rest in
      let next : drop (p + length hw) b ≡ ew ++ rest =
        sym (drop-drop p (length hw) b)
        ∙ ap (drop (length hw)) here
        ∙ drop-append hw (ew ++ rest) in
      let first : read_header max_size (reader b p n l ls)
          ≡ ok (received_header m.header, reader b (p + length hw) n l ls) =
        (Reads-read_header max_size roomy m.header v.header).apply b p n l ls (ew ++ rest) here
          (omega arith) fits small in
      let whole : size_add (p + length hw) (sub_uint32 m.header.message_size m.header.header_size)
          ≡ p + m.header.message_size =
        omega (arith, v.header.message, v.header.fits) in
      let second : read_entries max_size fuel m.header.entry_count
            (reader b (p + length hw) n (p + m.header.message_size) (l ∷ ls))
          ≡ ok (
            received_entries m.entries,
            reader b (p + length hw + length ew) n (p + m.header.message_size) (l ∷ ls),
          ) =
        subst
          (λ k.
            read_entries max_size fuel k
              (reader b (p + length hw) n (p + m.header.message_size) (l ∷ ls))
            ≡ ok (
              received_entries m.entries,
              reader b (p + length hw + length ew) n (p + m.header.message_size) (l ∷ ls),
            ))
          (sym v.count)
          ((Reads-read_entries max_size roomy fuel m.entries v.entries deep).apply b (p + length hw)
            n (p + m.header.message_size) (l ∷ ls) rest next (omega arith) (omega arith)
            (omega arith)) in
      let end : p + length hw + length ew ≡ p + m.header.message_size = omega arith in
      rw (first, whole, le→leb (p + m.header.message_size) l room, second)
        (ap
          (λ q. ok (
            record { header = received_header m.header; entries = received_entries m.entries },
            reader b q n (p + m.header.message_size) (l ∷ ls),
          ))
          end)

  -- A message whose header and entries hold what their fields can carry, and that ComputeSize accepts,
  -- is written, where its size fits between the position and a limit that is in the buffer and below
  -- 2 ^ 31, on as much fuel as its lists are deep; reading from where it was written gives it back, with
  -- the sizes that ComputeSize set, and the fields that version 2 does not carry as in a new object.
  -- Strings of 2 ^ 16 bytes must be possible.
  pub read_message-write_message :
      (lexical_cast : ℤ → List ℕ) (fuel : ℕ) (m : Message) (s : ℕ) (m' : Message) (b : List ℕ)
      (p n l : ℕ) (ls : List ℕ)
      → IsMessage m
      → compute_size lexical_cast m ≡ ok (s, m')
      → depth_entries m'.entries ≤ fuel
      → p + s ≤ l
      → l ≤ length b
      → l < 2 ^ 31
      → (b' : List ℕ) × (write_message lexical_cast fuel m (writer b p n l ls)
          ≡ ok (tt, writer b' (p + s) n l ls))
        × (length b' ≡ length b)
        × (read_message max_size fuel (reader b' p n l ls)
            ≡ ok (received_message m', reader b' (p + s) n (p + s) (l ∷ ls)))
  read_message-write_message lexical_cast fuel m s m' b p n l ls v e deep room fits small =
      let (sized, exact, below) = compute_size-IsSized lexical_cast m v e in
      let wire : List ℕ = message_wire m' in
      let b' : List ℕ = overwrite b p wire in
      let same : length b' ≡ length b = length-overwrite b p wire in
      let size : m'.header.message_size ≡ s = sized.size ∙ sym exact in
      let written =
        (Writes-write_message lexical_cast fuel m v e deep).apply b p n l ls (omega arith) fits
          small in
      let found : drop p b' ≡ wire ++ drop (p + length wire) b =
        drop-overwrite b p wire (omega arith) in
      let back =
        read_message-message_wire fuel m' b' p n l ls (drop (p + length wire) b) sized deep found
          (omega arith) (omega arith) small in
      (
        b',
        subst
            (λ k.
              write_message lexical_cast fuel m (writer b p n l ls)
              ≡ ok (tt, writer b' (p + k) n l ls))
            (sym exact) written,
        same,
        subst
            (λ k.
              read_message max_size fuel (reader b' p n l ls)
              ≡ ok (received_message m', reader b' (p + k) n (p + k) (l ∷ ls)))
            size back,
      )
