-- ===== src/Wire/Delivery.antt =====
-- Two ends of a wire: what one end sends, and what the other end then holds.
use robotraconteur_pyodide.Prelude.{
  ◌+◌, ◌≤◌, ◌<◌, ◌≡◌, refl, sym, ap, subst, ◌∙◌, true, false, Bool-cases, inl, inr, leb, Option,
  some, List, [], ◌∷◌, All, All_map, arith,
}
use robotraconteur_pyodide.Prelude.Int.{ℤ, pos, negsuc, ◌+ℤ◌}
use robotraconteur_pyodide.Outcome.{Result, ok, throw, read_only_member, bind-eq-ok, ok-injective}
use robotraconteur_pyodide.Pipe.Endpoint.{Direction, is_readonly, is_writeonly}
use robotraconteur_pyodide.Wire.TimeSpec.{TimeSpec, cleanup_nanosecs, less_equal}
use robotraconteur_pyodide.Wire.Time.{
  after, before, IsNormal, cleanup-IsNormal, cleanup-Same, less_equal_lem,
}
use robotraconteur_pyodide.Wire.Connection.{
  WireConnection, new_connection, next_time, send_packet_at, set_out_value, set_out_value_at,
  is_value_expired, get_in_value,
}
use robotraconteur_pyodide.Wire.Latest.{
  NoLater, IsAfterEpoch, Arrival, Among, receive_all, IsLatest, receive_all-IsLatest, All-Among,
  none_held,
}

-- `u` is later than `t`.
abbrev pub Later : TimeSpec → TimeSpec → Type 0
Later t u = after t + before u < before t + after u

-- One nanosecond more, before it is cleaned up.
abbrev one_on : TimeSpec → TimeSpec
one_on t = record { seconds = t.seconds; nanoseconds = t.nanoseconds +ℤ pos 1 }

one_on-Later : (t : TimeSpec) → Later t (one_on t)
one_on-Later t = ground arith

tick-Later : (t : TimeSpec) → Later t (cleanup_nanosecs (one_on t))
tick-Later t = omega (arith, cleanup-Same (one_on t), one_on-Later t)

-- The time of a packet is normal and later than the last.
next_time_lem :
    (now last : TimeSpec)
    → IsNormal now
    → IsNormal last
    → IsNormal (next_time now last) × Later last (next_time now last)
next_time_lem now last v w = elim (Bool-cases (less_equal now last)) [
  | inl early ↦ rw early (cleanup-IsNormal (one_on last), tick-Later last)
  | inr later ↦ rw later (v, not_early (sym (less_equal_lem now last v w) ∙ later))
]
  where
    not_early : leb (after now + before last) (before now + after last) ≡ false → Later last now
    not_early h = ground arith

throw_not_ok {ℓ} : {A : Type ℓ} {a : A} → throw read_only_member ≡ ok a → ⊥
throw_not_ok h = cc

module _ {ℓ} {A : Type ℓ} where
  readonly_eq :
      (clock : Option (TimeSpec × ℤ)) (parent : Option (A → TimeSpec → Result (Unit {0}))) (v : A)
      (c : WireConnection A)
      → is_readonly c.direction ≡ true
      → set_out_value clock parent v c ≡ throw read_only_member
  unfolding set_out_value
  readonly_eq clock parent v c h = rw h refl

  writes_eq :
      (clock : Option (TimeSpec × ℤ)) (parent : Option (A → TimeSpec → Result (Unit {0}))) (v : A)
      (c : WireConnection A)
      → is_readonly c.direction ≡ false
      → set_out_value clock parent v c ≡ set_out_value_at clock parent v c
  unfolding set_out_value
  writes_eq clock parent v c h = rw h refl

  -- What a call of SetOutValueBase that succeeds has done.
  set_out_value_ok :
      (now : TimeSpec) (local : ℤ) (parent : Option (A → TimeSpec → Result (Unit {0}))) (v : A)
      (c : WireConnection A) (t : TimeSpec) (c' : WireConnection A)
      → set_out_value (some (now, local)) parent v c ≡ ok (t, c')
      → (t ≡ next_time now c.lasttime_send) × (c'.lasttime_send ≡ t)
  set_out_value_ok now local parent v c t c' h = elim (Bool-cases (is_readonly c.direction)) [
    | inl readonly ↦
        absurd (throw_not_ok (sym (readonly_eq (some (now, local)) parent v c readonly) ∙ h))
    | inr writes ↦
        let time : TimeSpec = next_time now c.lasttime_send in
        let (_, hs, e) =
          bind-eq-ok (send_packet_at parent v time) _
            (sym (writes_eq (some (now, local)) parent v c writes) ∙ h) in
        let same = ok-injective e in
        (sym (ap (λ p. p.0) same), ap (λ p. p.1.lasttime_send) (sym same) ∙ ap (λ p. p.0) same)
  ]

  -- The packets that a new connection has sent, the last one first, whatever its clock says and
  -- whichever of its sends fail.
  pub data Sent (null : A) (d : Direction) : List (TimeSpec × A) → WireConnection A → Type ℓ where
    opened : Sent null d [] (new_connection null d)
    sends :
        {ps : List (TimeSpec × A)} {c : WireConnection A} {c' : WireConnection A} {t : TimeSpec}
        (now : TimeSpec) (local : ℤ) (parent : Option (A → TimeSpec → Result (Unit {0}))) (v : A)
        → IsNormal now
        → Sent null d ps c
        → set_out_value (some (now, local)) parent v c ≡ ok (t, c')
        → Sent null d ((t, v) ∷ ps) c'

  -- Each packet is later than those before it and than the epoch.
  abbrev pub IsIncreasing : List (TimeSpec × A) → Type 0
  IsIncreasing [] = Unit {0}
  IsIncreasing ((t, v) ∷ ps) = IsAfterEpoch t × All (λ p. Later p.0 t) ps × IsIncreasing ps

  record Settled (ps : List (TimeSpec × A)) (last : TimeSpec) : Type 0 where
    normal : IsNormal last
    started : before last ≤ after last
    past : All (λ p. NoLater p.0 last) ps
    increasing : IsIncreasing ps

  Settled-next_time :
      (now last : TimeSpec) (v : A) (ps : List (TimeSpec × A))
      → IsNormal now
      → Settled ps last
      → Settled ((next_time now last, v) ∷ ps) (next_time now last)
  Settled-next_time now last v ps normal s =
      let (clean, later) = next_time_lem now last normal s.normal in
      record {
        normal = clean;
        started = omega (arith, s.started, later);
        past = (omega arith, All_map ps (λ p h. omega (arith, h, later)) s.past);
        increasing = (
          omega (arith, s.started, later),
          All_map ps (λ p h. omega (arith, h, later)) s.past,
          s.increasing,
        );
      }

  Sent-Settled :
      (null : A) (d : Direction) (ps : List (TimeSpec × A)) (c : WireConnection A)
      → Sent null d ps c
      → Settled ps c.lasttime_send
  unfolding new_connection
  Sent-Settled null d ps c opened = record {
    normal = record {
      low = omega arith;
      high = omega arith;
      positive = λ h. refl;
      negative = λ h. refl;
    };
    started = omega arith;
    past = tt;
    increasing = tt;
  }
  Sent-Settled null d qs c' (sends {ps} {c} {t} now local parent v normal h e) =
      let (time, last) = set_out_value_ok now local parent v c t c' e in
      subst (Settled ((t, v) ∷ ps)) (sym last) (
        subst (λ u. Settled ((u, v) ∷ ps) u) (sym time)
          (Settled-next_time now c.lasttime_send v ps normal (Sent-Settled null d ps c h)))

  -- The packets that a connection sends are in the order of their times, each strictly later than those
  -- before it and than the epoch, even where the clock of the node stands still, goes back or is before
  -- the epoch; its times need only be normal.
  pub Sent-IsIncreasing :
      (null : A) (d : Direction) (ps : List (TimeSpec × A)) (c : WireConnection A)
      → Sent null d ps c
      → IsIncreasing ps
  Sent-IsIncreasing null d ps c h = (Sent-Settled null d ps c h).increasing

  -- The value `v` with the time `t` was sent.
  pub data Of (t : TimeSpec) (v : A) : List (TimeSpec × A) → Type ℓ where
    last_sent : {ps : List (TimeSpec × A)} → Of t v ((t, v) ∷ ps)
    sent_before : {p : TimeSpec × A} {ps : List (TimeSpec × A)} → Of t v ps → Of t v (p ∷ ps)

  Of-after :
      (t : TimeSpec) (v : A) (ps : List (TimeSpec × A))
      → IsIncreasing ps
      → Of t v ps
      → IsAfterEpoch t
  Of-after t v [] h k = elim k [ ]
  Of-after t v (p ∷ ps) (h, past, hs) last_sent = h
  Of-after t v (p ∷ ps) (h, past, hs) (sent_before k) = Of-after t v ps hs k

  Of-Later :
      (t u : TimeSpec) (v : A) (ps : List (TimeSpec × A))
      → All (λ p. Later p.0 u) ps
      → Of t v ps
      → Later t u
  Of-Later t u v [] h k = elim k [ ]
  Of-Later t u v (p ∷ ps) (h, hs) last_sent = h
  Of-Later t u v (p ∷ ps) (h, hs) (sent_before k) = Of-Later t u v ps hs k

  -- Of the packets sent, only the last is no earlier than the last.
  only_last :
      (t u : TimeSpec) (v w : A) (ps : List (TimeSpec × A))
      → All (λ p. Later p.0 t) ps
      → NoLater t u
      → Of u w ((t, v) ∷ ps)
      → w ≡ v
  only_last t u v w ps past le last_sent = refl
  only_last t u v w ps past le (sent_before k) =
      absurd (omega (arith, le, Of-Later u t w ps past k))

  value_eq :
      (now : Option ℤ) (c : WireConnection A)
      → is_writeonly c.direction ≡ false
      → c.inval_valid ≡ true
      → c.inval_lifespan ≡ negsuc 0
      → get_in_value now c ≡ ok c.inval
  unfolding get_in_value is_value_expired
  value_eq now c h k l = rw (h, k, l) refl

  all_after :
      (qs : List (TimeSpec × A)) (ps : List (Arrival A))
      → IsIncreasing qs
      → All (λ p. Of p.0 p.1.0 qs) ps
      → All (λ p. IsAfterEpoch p.0) ps
  all_after qs ps h k = All_map ps (λ p o. Of-after p.0 p.1.0 qs h o) k

  -- Two ends of a wire: where the packets that arrive at a new connection that may be read are packets
  -- that the other end has sent, in any order, repeated or left out, but the last packet sent is among
  -- them, the value that GetInValue gives is the last one sent.
  pub latest_value :
      (null : A) (d e : Direction) (t : TimeSpec) (v : A) (qs : List (TimeSpec × A))
      (c : WireConnection A) (ps : List (Arrival A)) (now : Option ℤ)
      → Sent null d ((t, v) ∷ qs) c
      → All (λ p. Of p.0 p.1.0 ((t, v) ∷ qs)) ps
      → Among t v ps
      → is_writeonly e ≡ false
      → get_in_value now (receive_all ps (new_connection null e)) ≡ ok v
  unfolding new_connection
  latest_value null d e t v qs c ps now h all_sent arrived reads =
      let (first, past, others) = Sent-IsIncreasing null d ((t, v) ∷ qs) c h in
      let pos_ps = all_after ((t, v) ∷ qs) ps (first, past, others) all_sent in
      let start : WireConnection A = new_connection null e in
      let r : WireConnection A = receive_all ps start in
      let k : IsLatest start ps r = receive_all-IsLatest ps start refl pos_ps in
      let le : NoLater t r.lasttime_recv =
        All-Among (λ u w. NoLater u r.lasttime_recv) t v ps k.latest arrived in
      elim k.held [
        | inl (same, rest, valid) ↦ absurd (none_held t _ first le same)
        | inr (among, valid) ↦
            value_eq now r (ap is_writeonly k.direction ∙ reads) valid k.lifespan
            ∙ ap ok (
                only_last t _ v _ qs past le
                  (All-Among (λ u w. Of u w ((t, v) ∷ qs)) _ _ ps all_sent among))
      ]
