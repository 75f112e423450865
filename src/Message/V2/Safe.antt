-- ===== src/Message/V2/Safe.antt =====
-- Message::Read on any bytes.

use robotraconteur_pyodide.Prelude.{
  ℕ, ◌+◌, ◌^◌, ◌≤◌, ◌<◌, ◌≡◌, ap, ◌∙◌, List, ◌∷◌, length, arith, leb, Bool-cases, inl, inr,
}
use robotraconteur_pyodide.Outcome.{
  Result, ok, throw, undefined, stuck, bind, Action, ◌>>=◌, return,
}
use robotraconteur_pyodide.Io.Reader.{ArrayBinaryReader, size_add, push_relative_limit}
use robotraconteur_pyodide.Io.Safe.{
  IsSound, Good, Behaves, back_limit, limit-le, pushed, pushed-IsSound,
}
use robotraconteur_pyodide.Message.Data.{MessageHeader, MessageEntry, Message}
use robotraconteur_pyodide.Message.V2.Read.{sub_uint32, read_header, read_entries, read_message}
use robotraconteur_pyodide.Message.V2.Readers.{Behaves-read_entries, Behaves-read_header}

-- What Message::Read may do to a reader `r`: throw, or end further on in the same buffer with one more
-- limit on top of those of `r`; or read outside the buffer, where `X` holds.
abbrev pub EndsOr : Type 0 → ArrayBinaryReader → Result (Message × ArrayBinaryReader) → Type 0
EndsOr X r (ok (m, r')) =
    (q : ℕ) × IsSound r'
    × (r'.buffer ≡ r.buffer)
    × (r'.limits ≡ q ∷ r.limits)
    × (r.position ≤ r'.position)
EndsOr X r (throw e) = Unit {0}
EndsOr X r undefined = X
EndsOr X r stuck = ⊥

-- It never reads outside the buffer.
abbrev pub Ends : ArrayBinaryReader → Result (Message × ArrayBinaryReader) → Type 0
Ends r x = EndsOr ⊥ r x

module _ (X : Type 0) where
  entries-Ends :
      (q : ℕ) (h : MessageHeader) (r s : ArrayBinaryReader)
      (x : Result (List MessageEntry × ArrayBinaryReader))
      → s.buffer ≡ r.buffer
      → s.limits ≡ r.limits
      → r.position ≤ s.position
      → Good X 0 (pushed q s) x
      → EndsOr X r (bind x (λ (es, s'). return (record { header = h; entries = es }) s'))
  unfolding return
  entries-Ends q h r s (ok (es, s')) b l p (w, b', l', p') =
      (q, w, b' ∙ b, l' ∙ ap (◌∷◌ q) l, omega arith)
  entries-Ends q h r s (throw e) b l p g = tt
  entries-Ends q h r s undefined b l p g = g
  entries-Ends q h r s stuck b l p g = g

  -- A header, and then as many entries as it says, under a limit of their own.
  header-Ends :
      (fuel : ℕ) (rest : ℕ → Action ArrayBinaryReader (List MessageEntry)) (r : ArrayBinaryReader)
      (x : Result (MessageHeader × ArrayBinaryReader))
      → ((count : ℕ) → Behaves X 0 fuel (rest count))
      → length r.buffer < r.position + fuel
      → Good X 0 r x
      → EndsOr X r (
          bind x λ (h, s).
            (push_relative_limit (sub_uint32 h.message_size h.header_size) >>= λ _.
            rest h.entry_count >>= λ es. return (record { header = h; entries = es }))
              s)
  unfolding push_relative_limit ◌>>=◌
  header-Ends fuel rest r (ok (h, s)) behaves room (v, b, l, p) =
      let q : ℕ = size_add s.position (sub_uint32 h.message_size h.header_size) in
      elim (Bool-cases (leb q v.limit)) [
        | inr full ↦ rw (back_limit s v, full) tt
        | inl fits ↦
            rw (back_limit s v, fits)
              (entries-Ends q h r s (rest h.entry_count (pushed q s)) b l (omega arith) (
                (behaves h.entry_count).apply (pushed q s)
                  (pushed-IsSound q s v (ground (arith, limit-le s v))) (rw b (omega arith))))
      ]
  header-Ends fuel rest r (throw e) behaves room g = tt
  header-Ends fuel rest r undefined behaves room g = g
  header-Ends fuel rest r stuck behaves room g = g

  pub framed-Ends :
      (fuel : ℕ) (m : Action ArrayBinaryReader MessageHeader)
      (rest : ℕ → Action ArrayBinaryReader (List MessageEntry)) (r : ArrayBinaryReader)
      → Behaves X 0 fuel m
      → ((count : ℕ) → Behaves X 0 fuel (rest count))
      → IsSound r
      → length r.buffer < r.position + fuel
      → EndsOr X r (
          (m >>= λ h. push_relative_limit (sub_uint32 h.message_size h.header_size) >>= λ _.
          rest h.entry_count >>= λ es. return (record { header = h; entries = es }))
            r)
  unfolding ◌>>=◌
  framed-Ends fuel m rest r first others v room =
      header-Ends fuel rest r (m r) others room (first.apply r v room)

module _ (max_size : ℕ) (small : max_size < 2 ^ 31) where
  -- On any bytes, by a reader whose place and limits are in a buffer of fewer than 2 ^ 31 bytes, and with
  -- no string longer than that, Read of a message never reads past the buffer nor takes a limit that is
  -- not there, and needs no more fuel than one more than the bytes left: it throws, or gives a message
  -- and ends in the buffer, no further back, with one limit more.
  pub read_message-Ends :
      (fuel : ℕ) (r : ArrayBinaryReader)
      → IsSound r
      → length r.buffer < r.position + fuel
      → Ends r (read_message max_size fuel r)
  unfolding read_message
  read_message-Ends fuel r v room =
      framed-Ends ⊥ fuel (read_header max_size) (read_entries max_size fuel) r
        (Behaves-read_header max_size (inl small) fuel)
        (Behaves-read_entries max_size (inl small) fuel) v room
