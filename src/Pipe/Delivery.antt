-- ===== src/Pipe/Delivery.antt =====
-- What the user of a reliable pipe sees of the packets that are sent.
use native.Mathlib.Decide.{dec_lt}
use robotraconteur_pyodide.Prelude.{
  ℕ, suc, ◌+◌, ◌^◌, ◌≤◌, ◌<◌, ◌≡◌, refl, sym, ap, subst, ◌-◌, ◌∙◌, inl, inr, Bool, false, List, [],
  ◌∷◌, ◌++◌, none, some, length, All, arith, ◌⊎◌,
}
use robotraconteur_pyodide.Outcome.{Result, ok, bind}
use robotraconteur_pyodide.Pipe.Endpoint.{
  Direction, is_writeonly, is_readonly, PipeEndpoint, find, increment_packet_number, new_endpoint,
  send_packet,
}
use robotraconteur_pyodide.Pipe.Queue.{Held}
use robotraconteur_pyodide.Pipe.Order.{sent, In, Run, Holds}
use robotraconteur_pyodide.Pipe.Steps.{Run-Holds}

In-All {ℓ} : (P : ℕ → Type ℓ) (k : ℕ) (xs : List ℕ) → All P xs → In k xs → P k
In-All P k [] h m = absurd m
In-All P k (x ∷ xs) h (inl e) = subst P (sym e) h.0
In-All P k (x ∷ xs) h (inr m) = In-All P k xs h.1 m

increment_small : (n : ℕ) → n < 2 ^ 32 - 1 → increment_packet_number n ≡ suc n
unfolding increment_packet_number
increment_small n h = ground arith

module _ {ℓ} {A : Type ℓ} where
  start-Holds :
      (f : ℕ → A) (last : ℕ) (d : Direction)
      → is_writeonly d ≡ false
      → Holds f last [] [] (new_endpoint false d)
  unfolding new_endpoint
  start-Holds f last d h = (
    record {
      reliable = refl;
      readable = h;
      heeded = refl;
      order = refl;
      within = omega arith;
      early = tt;
      kept = tt;
    },
    refl,
  )

  -- Whatever packets have arrived at a new reliable endpoint that may receive, in whatever order and
  -- however often, if the packet of number k is always `f k` and the numbers are from 1 to `last`, below
  -- 2 ^ 32: what has been taken, with what waits in the queue, is the packets 1 to RecvPacketNumber in
  -- order, each once.
  pub taken_in_order :
      (f : ℕ → A) (last : ℕ) (d : Direction) (t : List A) (a : List ℕ) (e : PipeEndpoint A)
      → last < 2 ^ 32
      → is_writeonly d ≡ false
      → Run f last (new_endpoint false d) t a e
      → (t ++ e.recv_packets ≡ sent f e.recv_packet_number) × (e.recv_packet_number ≤ last)
  taken_in_order f last d t a e small h run =
      let (v, settled) =
        Run-Holds f last small (new_endpoint false d) t a e (start-Holds f last d h) run in
      (v.order, v.within)

  -- Once the packets 1 to `n` have all arrived at such an endpoint, in whatever order, RecvPacketNumber
  -- is at least `n`.
  pub passed_on :
      (f : ℕ → A) (last n : ℕ) (d : Direction) (t : List A) (a : List ℕ) (e : PipeEndpoint A)
      → last < 2 ^ 32
      → is_writeonly d ≡ false
      → Run f last (new_endpoint false d) t a e
      → n ≤ last
      → ((k : ℕ) → 0 < k → k ≤ n → In k a)
      → n ≤ e.recv_packet_number
  passed_on f last n d t a e small h run low there =
      let (v, settled) =
        Run-Holds f last small (new_endpoint false d) t a e (start-Holds f last d h) run in
      let r : ℕ = e.recv_packet_number in
      elim (dec_lt r n) [
        | no passed ↦ omega arith
        | yes short ↦
            elim (In-All (λ k. (k ≤ r) ⊎ Held k e.out_of_order_packets) (suc r) a v.kept
              (there (suc r) (omega arith) (omega arith))) [
                | inl h ↦ absurd (omega arith)
                | inr (w, held) ↦
                    let next : increment_packet_number r ≡ suc r =
                      increment_small r (omega arith) in
                    let none_held : none ≡ some w =
                      sym settled ∙ ap (λ k. find k e.out_of_order_packets) next ∙ held in
                    cc none_held
              ]
      ]

  -- Once all the packets 1 to `last`, below 2 ^ 32, have arrived at a new reliable endpoint that may
  -- receive, in whatever order and however often, what has been taken, with what waits in the queue, is
  -- all of them in order, each once.
  pub all_taken :
      (f : ℕ → A) (last : ℕ) (d : Direction) (t : List A) (a : List ℕ) (e : PipeEndpoint A)
      → last < 2 ^ 32
      → is_writeonly d ≡ false
      → Run f last (new_endpoint false d) t a e
      → ((k : ℕ) → 0 < k → k ≤ last → In k a)
      → t ++ e.recv_packets ≡ sent f last
  all_taken f last d t a e small h run there =
      let (order, within) = taken_in_order f last d t a e small h run in
      let past : last ≤ e.recv_packet_number =
        passed_on f last last d t a e small h run (omega arith) there in
      let all : e.recv_packet_number ≡ last = omega arith in order ∙ ap (sent f) all

  -- SendPacket of one packet after the other, and what each hands to the network.
  unfoldable pub send_all : List A → PipeEndpoint A → Result (List (ℕ × A × Bool) × PipeEndpoint A)
  send_all [] e = ok ([], e)
  send_all (x ∷ xs) e =
      bind (send_packet x e) λ (p, e1). bind (send_all xs e1) (λ (ps, e2). ok (p ∷ ps, e2))

  -- The packets with the numbers after `n`.
  abbrev pub numbered : Bool → ℕ → List A → List (ℕ × A × Bool)
  numbered ack n [] = []
  numbered ack n (x ∷ xs) = (suc n, x, ack) ∷ numbered ack (suc n) xs

  send_packet_lem :
      (x : A) (e : PipeEndpoint A)
      → is_readonly e.direction ≡ false
      → e.send_packet_number < 2 ^ 32 - 1
      → send_packet x e
        ≡ ok (
          (suc e.send_packet_number, x, e.request_packet_ack),
          record e { send_packet_number = suc e.send_packet_number },
        )
  unfolding send_packet
  send_packet_lem x e h small = rw (h, increment_small e.send_packet_number small) refl

  -- An endpoint that may send gives the packets consecutive numbers, from the one after the last that it
  -- used, as long as these are below 2 ^ 32, and with each the request for an acknowledgement that was set.
  pub send_all_numbers :
      (xs : List A) (e : PipeEndpoint A)
      → is_readonly e.direction ≡ false
      → e.send_packet_number + length xs < 2 ^ 32
      → send_all xs e
        ≡ ok (
          numbered e.request_packet_ack e.send_packet_number xs,
          record e { send_packet_number = e.send_packet_number + length xs },
        )
  unfolding send_all
  send_all_numbers [] e h small =
      ap (λ n. ok ([], record e { send_packet_number = n })) (omega arith)
  send_all_numbers (x ∷ xs) e h small =
      let n : ℕ = e.send_packet_number in
      let after : PipeEndpoint A = record e { send_packet_number = suc n } in
      rw (send_packet_lem x e h (omega arith), send_all_numbers xs after h (omega arith))
        (ap
          (λ m. ok (
            (suc n, x, e.request_packet_ack) ∷ numbered e.request_packet_ack (suc n) xs,
            record e { send_packet_number = m },
          ))
          (omega arith))
