-- ===== src/Wire/Latest.antt =====
-- A connection holds the latest of the values that it is sent, in whatever order they arrive.
use robotraconteur_pyodide.Prelude.{
  ◌+◌, ◌≤◌, ◌<◌, ◌≡◌, refl, sym, subst, ◌∙◌, Bool, true, false, ◌||◌, Bool-cases, inl, inr, ltb,
  ◌⊎◌, Option, List, [], ◌∷◌, All, arith,
}
use robotraconteur_pyodide.Prelude.Int.{ℤ}
use robotraconteur_pyodide.Pipe.Endpoint.{Direction}
use robotraconteur_pyodide.Wire.TimeSpec.{TimeSpec, equal, greater}
use robotraconteur_pyodide.Wire.Time.{after, before, greater_lem}
use robotraconteur_pyodide.Wire.Connection.{
  WireConnection, epoch, new_connection, wire_packet_received, local_time,
}

-- `t` is no later than `u`, and `t` is after the epoch.
abbrev pub NoLater : TimeSpec → TimeSpec → Type 0
NoLater t u = after t + before u ≤ before t + after u

abbrev pub IsAfterEpoch : TimeSpec → Type 0
IsAfterEpoch t = before t < after t

-- A connection that holds nothing has had no packet.
pub none_held : (t u : TimeSpec) → IsAfterEpoch t → NoLater t u → u ≡ epoch → ⊥
none_held t u h k e = absurd (ground arith)

-- A packet, and what the clock of the node says when it arrives.
abbrev pub Arrival {ℓ} : Type ℓ → Type ℓ
Arrival A = TimeSpec × (A × Option ℤ)

-- The value `v` with the time `t` is one of the packets.
pub data Among {ℓ} {A : Type ℓ} (t : TimeSpec) (v : A) : List (Arrival A) → Type ℓ where
  here : {now : Option ℤ} {ps : List (Arrival A)} → Among t v ((t, (v, now)) ∷ ps)
  there : {p : Arrival A} {ps : List (Arrival A)} → Among t v ps → Among t v (p ∷ ps)

module _ {ℓ} {A : Type ℓ} where
  -- The packets of a list one after the other.
  abbrev pub receive_all : List (Arrival A) → WireConnection A → WireConnection A
  receive_all [] c = c
  receive_all ((t, (v, now)) ∷ ps) c = receive_all ps (wire_packet_received now t v c).1

  abbrev accepted : Option ℤ → TimeSpec → A → WireConnection A → WireConnection A
  accepted now t v c = record c {
    inval = v;
    lasttime_recv = t;
    lasttime_recv_local = local_time now c.lasttime_recv_local;
    inval_valid = true;
  }

  accepted_eq :
      (now : Option ℤ) (t : TimeSpec) (v : A) (c : WireConnection A)
      → c.ignore_inval ≡ false
      → (equal c.lasttime_recv epoch || greater t c.lasttime_recv) ≡ true
      → (wire_packet_received now t v c).1 ≡ accepted now t v c
  unfolding wire_packet_received
  accepted_eq now t v c h k = rw (h, k) refl

  dropped_eq :
      (now : Option ℤ) (t : TimeSpec) (v : A) (c : WireConnection A)
      → c.ignore_inval ≡ false
      → (equal c.lasttime_recv epoch || greater t c.lasttime_recv) ≡ false
      → (wire_packet_received now t v c).1 ≡ c
  unfolding wire_packet_received
  dropped_eq now t v c h k = rw (h, k) refl

  accepted-later :
      (t : TimeSpec) (c : WireConnection A)
      → IsAfterEpoch t
      → (equal c.lasttime_recv epoch || greater t c.lasttime_recv) ≡ true
      → NoLater c.lasttime_recv t
  unfolding equal
  accepted-later t c pos_t h = rw_greater (rewritten h)
    where
      rewritten :
          (equal c.lasttime_recv epoch || greater t c.lasttime_recv) ≡ true
          → (equal c.lasttime_recv epoch
              || ltb (before t + after c.lasttime_recv) (after t + before c.lasttime_recv))
            ≡ true
      rewritten k =
          subst (λ b. (equal c.lasttime_recv epoch || b) ≡ true) (greater_lem t c.lasttime_recv) k

      rw_greater :
          (equal c.lasttime_recv epoch
              || ltb (before t + after c.lasttime_recv) (after t + before c.lasttime_recv))
            ≡ true
          → NoLater c.lasttime_recv t
      rw_greater k = ground arith

  dropped-later :
      (t : TimeSpec) (c : WireConnection A)
      → (equal c.lasttime_recv epoch || greater t c.lasttime_recv) ≡ false
      → NoLater t c.lasttime_recv
  dropped-later t c h =
      let no : greater t c.lasttime_recv ≡ false = second_false (equal c.lasttime_recv epoch) h in
      not_later (sym (greater_lem t c.lasttime_recv) ∙ no)
    where
      second_false : (a : Bool) {b : Bool} → (a || b) ≡ false → b ≡ false
      second_false true k = cc
      second_false false k = k

      not_later :
          ltb (before t + after c.lasttime_recv) (after t + before c.lasttime_recv) ≡ false
          → NoLater t c.lasttime_recv
      not_later k = ground arith

  -- What packets make of a connection `c`: `r` holds the latest of them and of what `c` held.
  pub record IsLatest (c : WireConnection A) (ps : List (Arrival A)) (r : WireConnection A)
      : Type ℓ where
    pub listens : r.ignore_inval ≡ false
    pub direction : r.direction ≡ c.direction
    pub lifespan : r.inval_lifespan ≡ c.inval_lifespan
    pub later : NoLater c.lasttime_recv r.lasttime_recv
    pub latest : All (λ p. NoLater p.0 r.lasttime_recv) ps
    pub held :
        ((r.lasttime_recv ≡ c.lasttime_recv)
          × (r.inval ≡ c.inval)
          × (r.inval_valid ≡ c.inval_valid))
        ⊎ (Among r.lasttime_recv r.inval ps × (r.inval_valid ≡ true))

  after_accepted :
      (now : Option ℤ) (t : TimeSpec) (v : A) (c : WireConnection A) (ps : List (Arrival A))
      (r : WireConnection A)
      → NoLater c.lasttime_recv t
      → IsLatest (accepted now t v c) ps r
      → IsLatest c ((t, (v, now)) ∷ ps) r
  after_accepted now t v c ps r le h = record {
    listens = h.listens;
    direction = h.direction;
    lifespan = h.lifespan;
    later = omega (arith, le, h.later);
    latest = (h.later, h.latest);
    held = elim h.held [
      | inl (time, value, valid) ↦ inr (same r time value, valid)
      | inr (among, valid) ↦ inr (there among, valid)
    ];
  }
    where
      same :
          (r : WireConnection A)
          → r.lasttime_recv ≡ t
          → r.inval ≡ v
          → Among r.lasttime_recv r.inval ((t, (v, now)) ∷ ps)
      same r time value =
          subst (λ u. Among u r.inval ((t, (v, now)) ∷ ps)) (sym time)
            (subst (λ w. Among t w ((t, (v, now)) ∷ ps)) (sym value) here)

  after_dropped :
      (now : Option ℤ) (t : TimeSpec) (v : A) (c : WireConnection A) (ps : List (Arrival A))
      (r : WireConnection A)
      → NoLater t c.lasttime_recv
      → IsLatest c ps r
      → IsLatest c ((t, (v, now)) ∷ ps) r
  after_dropped now t v c ps r le h = record {
    listens = h.listens;
    direction = h.direction;
    lifespan = h.lifespan;
    later = h.later;
    latest = (omega (arith, le, h.later), h.latest);
    held = elim h.held [ inl same ↦ inl same | inr (among, valid) ↦ inr (there among, valid) ];
  }

  pub receive_all-IsLatest :
      (ps : List (Arrival A)) (c : WireConnection A)
      → c.ignore_inval ≡ false
      → All (λ p. IsAfterEpoch p.0) ps
      → IsLatest c ps (receive_all ps c)
  receive_all-IsLatest [] c h pos_ps = record {
    listens = h;
    direction = refl;
    lifespan = refl;
    later = omega arith;
    latest = tt;
    held = inl (refl, refl, refl);
  }
  receive_all-IsLatest ((t, (v, now)) ∷ ps) c h (pos_t, pos_ps) =
      elim (Bool-cases (equal c.lasttime_recv epoch || greater t c.lasttime_recv)) [
        | inl yes_new ↦
            subst (λ d. IsLatest c ((t, (v, now)) ∷ ps) (receive_all ps d))
              (sym (accepted_eq now t v c h yes_new))
              (after_accepted now t v c ps _ (accepted-later t c pos_t yes_new)
                (receive_all-IsLatest ps (accepted now t v c) h pos_ps))
        | inr old ↦
            subst (λ d. IsLatest c ((t, (v, now)) ∷ ps) (receive_all ps d))
              (sym (dropped_eq now t v c h old))
              (after_dropped now t v c ps _ (dropped-later t c old)
                (receive_all-IsLatest ps c h pos_ps))
      ]

  pub All-Among {κ} :
      (P : TimeSpec → A → Type κ) (t : TimeSpec) (v : A) (ps : List (Arrival A))
      → All (λ p. P p.0 p.1.0) ps
      → Among t v ps
      → P t v
  All-Among P t v [] h k = elim k [ ]
  All-Among P t v (p ∷ ps) (h, hs) here = h
  All-Among P t v (p ∷ ps) (h, hs) (there k) = All-Among P t v ps hs k

  -- A new connection that has received a packet holds one of the packets, and none of them is later,
  -- where all are after the epoch; so whatever is sent again, or comes late, is not seen again.
  pub receive_all_latest :
      (null : A) (d : Direction) (ps : List (Arrival A)) (t : TimeSpec) (v : A)
      → All (λ p. IsAfterEpoch p.0) ps
      → Among t v ps
      → let r = receive_all ps (new_connection null d) in
        Among r.lasttime_recv r.inval ps
        × (r.inval_valid ≡ true)
        × All (λ p. NoLater p.0 r.lasttime_recv) ps
  unfolding new_connection
  receive_all_latest null d ps t v pos_ps some_packet =
      let c : WireConnection A = new_connection null d in
      let h = receive_all-IsLatest ps c refl pos_ps in
      elim h.held [
        | inl (same, rest, valid) ↦ absurd (
            none_held t _ (All-Among (λ u w. IsAfterEpoch u) t v ps pos_ps some_packet)
              (All-Among (λ u w. NoLater u (receive_all ps c).lasttime_recv) t v ps h.latest
                some_packet)
              same)
        | inr (among, valid) ↦ (among, valid, h.latest)
      ]
