-- ===== src/Pipe/Order.antt =====
-- What a reliable pipe delivers: the packets in the order of their numbers, whatever order they arrive
-- in and however often.
use robotraconteur_pyodide.Prelude.{
  ℕ, zero, suc, ◌+◌, ◌^◌, ◌≤◌, ◌<◌, ◌≡◌, refl, subst, sym, ap, ◌∙◌, ◌⊎◌, inl, inr, false, List, [],
  ◌∷◌, ◌++◌, append_assoc, none, some, length, All, All_map, Bool-cases, arith, ◌==◌,
}
use robotraconteur_pyodide.Outcome.{ok}
use robotraconteur_pyodide.Pipe.Endpoint.{
  is_writeonly, PipeEndpoint, increment_packet_number, find, insert, erase, try_receive_packet,
  dequeue, pipe_packet_received,
}
use robotraconteur_pyodide.Pipe.Queue.{
  ==-eq, Held, Option-cases, All-find, All-erase, length-erase, All-insert, Held-insert,
  Held-insert_other, Held-erase, find-insert,
}

abbrev pub In : ℕ → List ℕ → Type 0
In k [] = ⊥
In k (x ∷ xs) = (k ≡ x) ⊎ In k xs

module _ {ℓ} {A : Type ℓ} (f : ℕ → A) where
  -- The packets with the numbers 1 to `r`.
  abbrev pub sent : ℕ → List A
  sent zero = []
  sent (suc r) = sent r ++ (f (suc r) ∷ [])

  -- A history of an endpoint that was `start`: packets with numbers up to `last` arrive, each with what
  -- the listeners take of the queue, and the user takes packets. The indices are all that has been taken,
  -- the numbers that have arrived, and the endpoint now.
  pub data Run (last : ℕ) (start : PipeEndpoint A) : List A → List ℕ → PipeEndpoint A → Type ℓ where
    new : Run last start [] [] start
    arrives :
        {t got : List A} {a : List ℕ} {e e' : PipeEndpoint A} (k : ℕ) (taken : List A → ℕ)
        → 0 < k
        → k ≤ last
        → pipe_packet_received taken (f k) k e ≡ (got, e')
        → Run last start t a e
        → Run last start (t ++ got) (k ∷ a) e'
    receives :
        {t : List A} {a : List ℕ} {e e' : PipeEndpoint A} {packet : A}
        → try_receive_packet false e ≡ ok (some packet, e')
        → Run last start t a e
        → Run last start (t ++ (packet ∷ [])) a e'

  -- Holds at every time, but for the loop that empties `out_of_order_packets`.
  pub record IsOrdered (last : ℕ) (t : List A) (a : List ℕ) (e : PipeEndpoint A) : Type ℓ where
    pub reliable : e.unreliable ≡ false
    pub readable : is_writeonly e.direction ≡ false
    pub heeded : e.ignore_incoming_packets ≡ false
    pub order : t ++ e.recv_packets ≡ sent e.recv_packet_number
    pub within : e.recv_packet_number ≤ last
    pub early : All (λ p. (p.1 ≡ f p.0) × (0 < p.0) × (p.0 ≤ last)) e.out_of_order_packets
    pub kept : All (λ k. (k ≤ e.recv_packet_number) ⊎ Held k e.out_of_order_packets) a

  abbrev pub IsSettled : PipeEndpoint A → Type ℓ
  IsSettled e = find (increment_packet_number e.recv_packet_number) e.out_of_order_packets ≡ none

  pub increment_lem :
      (n last : ℕ)
      → last < 2 ^ 32
      → n ≤ last
      → 0 < increment_packet_number n
      → increment_packet_number n ≡ n + 1
  unfolding increment_packet_number
  increment_lem n last h k pos = ground arith

  -- One packet in order, from the network or from the map.
  pub delivered :
      (last : ℕ) (t : List A) (a : List ℕ) (e : PipeEndpoint A) (n : ℕ) (packet : A)
      (m : List (ℕ × A))
      → n ≡ suc e.recv_packet_number
      → n ≤ last
      → packet ≡ f n
      → All (λ p. (p.1 ≡ f p.0) × (0 < p.0) × (p.0 ≤ last)) m
      → ((k : ℕ) → (n == k) ≡ false → Held k e.out_of_order_packets → Held k m)
      → IsOrdered last t a e
      → IsOrdered last t a (record e {
        recv_packet_number = n;
        recv_packets = e.recv_packets ++ (packet ∷ []);
        out_of_order_packets = m;
      })
  delivered last t a e n packet m next low value early still v = record {
    reliable = v.reliable;
    readable = v.readable;
    heeded = v.heeded;
    order =
        let one : sent e.recv_packet_number ++ (f n ∷ []) ≡ sent n =
          subst (λ k. sent e.recv_packet_number ++ (f k ∷ []) ≡ sent k) (sym next) refl in
        sym (append_assoc t e.recv_packets (packet ∷ []))
        ∙ ap (λ q. q ++ (packet ∷ [])) v.order
        ∙ ap (λ p. sent e.recv_packet_number ++ (p ∷ [])) value
        ∙ one;
    within = low;
    early = early;
    kept = All_map a still_kept v.kept;
  }
    where
      still_kept :
          (k : ℕ) → (k ≤ e.recv_packet_number) ⊎ Held k e.out_of_order_packets → (k ≤ n) ⊎ Held k m
      still_kept k (inl h) = inl (omega arith)
      still_kept k (inr h) = elim (Bool-cases (n == k)) [
        | inl same ↦ inl (let here : n ≡ k = ==-eq n k same in omega arith)
        | inr other ↦ inr (still k other h)
      ]

  find_none : (k : ℕ) (m : List (ℕ × A)) → length m ≤ 0 → find k m ≡ none
  find_none k [] h = refl
  find_none k (p ∷ m) h = absurd (omega arith)

  -- The loop ends because the map has no packet with the next number.
  pub dequeue_lem :
      (last : ℕ)
      → last < 2 ^ 32
      → (fuel : ℕ) (t : List A) (a : List ℕ) (e : PipeEndpoint A)
      → length e.out_of_order_packets ≤ fuel
      → IsOrdered last t a e
      → IsOrdered last t a (dequeue fuel e) × IsSettled (dequeue fuel e)
  unfolding dequeue
  dequeue_lem last small zero t a e enough v = (v, find_none _ _ enough)
  dequeue_lem last small (suc fuel) t a e enough v =
      let n : ℕ = increment_packet_number e.recv_packet_number in
      elim (Option-cases (find n e.out_of_order_packets)) [
        | inl none_left ↦ rw (dequeue, none_left) (v, none_left)
        | inr (packet, held) ↦
            let (value, pos, low) = All-find _ n e.out_of_order_packets packet v.early held in
            let next : n ≡ suc e.recv_packet_number =
              omega (arith, increment_lem e.recv_packet_number last small v.within pos) in
            rw (dequeue, held)
              (dequeue_lem last small fuel t a _
                (omega (arith, length-erase n e.out_of_order_packets packet held))
                (delivered last t a e n packet (erase n e.out_of_order_packets) next low value
                  (All-erase _ n e.out_of_order_packets v.early)
                  (λ k other h. Held-erase k n e.out_of_order_packets other h) v))
      ]

  -- A packet that is not the next one waits in the map.
  pub waits :
      (last : ℕ) (t : List A) (a : List ℕ) (e : PipeEndpoint A) (k : ℕ)
      → 0 < k
      → k ≤ last
      → (k == increment_packet_number e.recv_packet_number) ≡ false
      → IsOrdered last t a e
      → IsSettled e
      → IsOrdered last t
          (k ∷ a)
          (record e { out_of_order_packets = insert k (f k) e.out_of_order_packets })
        × (find
              (increment_packet_number e.recv_packet_number)
              (insert k (f k) e.out_of_order_packets)
            ≡ none)
  waits last t a e k pos low other v settled = (
    record {
      reliable = v.reliable;
      readable = v.readable;
      heeded = v.heeded;
      order = v.order;
      within = v.within;
      early = All-insert _ k (f k) e.out_of_order_packets (refl, pos, low) v.early;
      kept = (
        inr (Held-insert k (f k) e.out_of_order_packets),
        All_map a
            (λ j h. elim h [
              | inl old ↦ inl old
              | inr held ↦ inr (Held-insert_other j k (f k) e.out_of_order_packets held)
            ])
            v.kept,
      );
    },
    find-insert (increment_packet_number e.recv_packet_number) k (f k) e.out_of_order_packets other
        ∙ settled,
  )

  pub arrived :
      (last : ℕ) (t : List A) (a : List ℕ) (e : PipeEndpoint A) (k : ℕ)
      → k ≤ e.recv_packet_number
      → IsOrdered last t a e
      → IsOrdered last t (k ∷ a) e
  arrived last t a e k h v = record {
    reliable = v.reliable;
    readable = v.readable;
    heeded = v.heeded;
    order = v.order;
    within = v.within;
    early = v.early;
    kept = (inl h, v.kept);
  }

  -- What the listeners or the user take from the front of the queue is what comes next in order.
  pub taken_lem :
      (last : ℕ) (t : List A) (a : List ℕ) (e : PipeEndpoint A) (got rest : List A)
      → got ++ rest ≡ e.recv_packets
      → IsOrdered last t a e
      → IsOrdered last (t ++ got) a (record e { recv_packets = rest })
  taken_lem last t a e got rest h v = record {
    reliable = v.reliable;
    readable = v.readable;
    heeded = v.heeded;
    order = append_assoc t got rest ∙ ap (λ q. t ++ q) h ∙ v.order;
    within = v.within;
    early = v.early;
    kept = v.kept;
  }

  abbrev pub Holds : ℕ → List A → List ℕ → PipeEndpoint A → Type ℓ
  Holds last t a e = IsOrdered last t a e × IsSettled e
