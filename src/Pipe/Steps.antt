-- ===== src/Pipe/Steps.antt =====
-- Every step of a reliable pipe endpoint keeps what Pipe.Order states.
use robotraconteur_pyodide.Prelude.{
  ℕ, suc, ◌^◌, ◌≤◌, ◌<◌, ◌≡◌, refl, subst, sym, ap, ◌∙◌, inl, inr, Bool, true, false, List, [], ◌∷◌,
  ◌++◌, append-nil, some, length, take, drop, take-drop, Bool-cases, arith, ◌==◌, if◌then◌else◌,
}
use robotraconteur_pyodide.Outcome.{ok, ok-injective}
use robotraconteur_pyodide.Pipe.Endpoint.{
  is_writeonly, PipeEndpoint, increment_packet_number, insert, front, try_receive_packet, dequeue,
  packet_arrives, pipe_packet_received,
}
use robotraconteur_pyodide.Pipe.Queue.{==-eq}
use robotraconteur_pyodide.Pipe.Order.{
  Run, new, arrives, receives, Holds, increment_lem, dequeue_lem, delivered, waits, arrived,
  taken_lem,
}

module _ {ℓ} {A : Type ℓ} (f : ℕ → A) where
  module _ (e : PipeEndpoint A) (k : ℕ) (packet : A) (reliable : e.unreliable ≡ false) where
    arrives_next_eq :
        (k == increment_packet_number e.recv_packet_number) ≡ true
        → packet_arrives packet k e
          ≡ dequeue (length e.out_of_order_packets) (record e {
            recv_packet_number = increment_packet_number e.recv_packet_number;
            recv_packets = e.recv_packets ++ (packet ∷ []);
          })
    unfolding packet_arrives
    arrives_next_eq h = rw (reliable, h) refl

    arrives_early_eq :
        (k == increment_packet_number e.recv_packet_number) ≡ false
        → packet_arrives packet k e
          ≡ record e { out_of_order_packets = insert k packet e.out_of_order_packets }
    unfolding packet_arrives
    arrives_early_eq h = rw (reliable, h) refl

  packet_arrives_next :
      (last : ℕ)
      → last < 2 ^ 32
      → (t : List A) (a : List ℕ) (e : PipeEndpoint A) (k : ℕ) → 0 < k
      → k ≤ last
      → (k == increment_packet_number e.recv_packet_number) ≡ true
      → Holds f last t a e
      → Holds f last t (k ∷ a) (packet_arrives (f k) k e)
  packet_arrives_next last small t a e k pos low same (v, settled) =
      let is : k ≡ increment_packet_number e.recv_packet_number = ==-eq _ _ same in
      let next : increment_packet_number e.recv_packet_number ≡ suc e.recv_packet_number =
        omega (arith, increment_lem f e.recv_packet_number last small v.within (omega arith)) in
      subst (Holds f last t (k ∷ a)) (sym (arrives_next_eq e k (f k) v.reliable same)) (
        dequeue_lem f last small (length e.out_of_order_packets) t (k ∷ a) _ (omega arith) (
          arrived f last t a _ k (omega arith) (
            delivered f last t a e (increment_packet_number e.recv_packet_number) (f k)
              e.out_of_order_packets next (omega arith) (ap f is) v.early (λ j other h. h) v)))

  received_eq :
      (e : PipeEndpoint A) (k : ℕ) (packet : A) (taken : List A → ℕ) (c : Bool)
      → e.unreliable ≡ false
      → is_writeonly e.direction ≡ false
      → e.ignore_incoming_packets ≡ false
      → (k == increment_packet_number e.recv_packet_number) ≡ c
      → pipe_packet_received taken packet k e ≡ (
          let e' = packet_arrives packet k e in
          if c
          then (
            take (taken e'.recv_packets) e'.recv_packets,
            record e' { recv_packets = drop (taken e'.recv_packets) e'.recv_packets },
          )
          else ([], e'))
  unfolding pipe_packet_received
  received_eq e k packet taken c reliable readable heeded h =
      rw (reliable, readable, heeded, h) refl

  received_lem :
      (last : ℕ)
      → last < 2 ^ 32
      → (t got : List A) (a : List ℕ) (e e' : PipeEndpoint A) (k : ℕ) (taken : List A → ℕ) → 0 < k
      → k ≤ last
      → pipe_packet_received taken (f k) k e ≡ (got, e')
      → Holds f last t a e
      → Holds f last (t ++ got) (k ∷ a) e'
  received_lem last small t got a e e' k taken pos low h (v, settled) =
      elim (Bool-cases (k == increment_packet_number e.recv_packet_number)) [
        | inl same ↦
            let (w, s) = packet_arrives_next last small t a e k pos low same (v, settled) in
            let q : List A = (packet_arrives (f k) k e).recv_packets in
            subst (λ p. Holds f last (t ++ p.0) (k ∷ a) p.1)
              (sym (received_eq e k (f k) taken true v.reliable v.readable v.heeded same) ∙ h)
              (
                taken_lem f last t (k ∷ a) (packet_arrives (f k) k e) (take (taken q) q)
                    (drop (taken q) q) (take-drop (taken q) q) w,
                s,
              )
        | inr other ↦
            subst (λ p. Holds f last (t ++ p.0) (k ∷ a) p.1)
              (sym (received_eq e k (f k) taken false v.reliable v.readable v.heeded other) ∙ h)
              (subst (λ u. Holds f last u (k ∷ a) (packet_arrives (f k) k e)) (sym (append-nil t))
                (subst (Holds f last t (k ∷ a)) (sym (arrives_early_eq e k (f k) v.reliable other))
                  (waits f last t a e k pos low other v settled)))
      ]

  front_lem :
      (last : ℕ) (t : List A) (a : List ℕ) (e e' : PipeEndpoint A) (q : List A) (packet : A)
      → q ≡ e.recv_packets
      → front false e q ≡ (some packet, e')
      → Holds f last t a e
      → Holds f last (t ++ (packet ∷ [])) a e'
  front_lem last t a e e' [] packet same h v = cc (ap (λ r. r.0) h)
  front_lem last t a e e' (p ∷ q) packet same h (v, settled) =
      let head : some p ≡ some packet = ap (λ r. r.0) h in
      let first : p ≡ packet = cc head in
      subst (Holds f last (t ++ (packet ∷ [])) a) (ap (λ r. r.1) h) (
        subst (λ x. Holds f last (t ++ (x ∷ [])) a (record e { recv_packets = q })) first
          (taken_lem f last t a e (p ∷ []) q same v, settled))

  try_receive_eq :
      (peek : Bool) (e : PipeEndpoint A)
      → is_writeonly e.direction ≡ false
      → try_receive_packet peek e ≡ ok (front peek e e.recv_packets)
  unfolding try_receive_packet
  try_receive_eq peek e h = rw h refl

  pub Run-Holds :
      (last : ℕ)
      → last < 2 ^ 32
      → (start : PipeEndpoint A) (t : List A) (a : List ℕ) (e : PipeEndpoint A)
      → Holds f last [] [] start
      → Run f last start t a e
      → Holds f last t a e
  Run-Holds last small start t a e h new = h
  Run-Holds last small start t a e h (arrives {t = u} {got} {e = d} k taken pos low r run) =
      received_lem last small u got _ d e k taken pos low r (Run-Holds last small start u _ d h run)
  Run-Holds last small start t a e h (receives {t = u} {e = d} {packet} r run) =
      let (v, settled) = Run-Holds last small start u a d h run in
      front_lem last u a d e d.recv_packets packet refl
        (ok-injective (sym (try_receive_eq false d v.readable) ∙ r)) (v, settled)
