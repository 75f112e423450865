-- ===== src/Wire/Tests.antt =====
-- A wire whose two ends exchange three values, and the theorems at it.
use robotraconteur_pyodide.Prelude.{
  ℕ, ◌≡◌, refl, true, false, Option, some, none, List, [], ◌∷◌, arith,
}
use robotraconteur_pyodide.Prelude.Int.{ℤ, pos, negsuc}
use robotraconteur_pyodide.Outcome.{Result, ok}
use robotraconteur_pyodide.Pipe.Endpoint.{Direction}
use robotraconteur_pyodide.Wire.TimeSpec.{
  TimeSpec, cleanup_nanosecs, new_time_spec, minus, equal, less, less_equal,
}
use robotraconteur_pyodide.Wire.Time.{IsNormal, Same, new_time_spec_lem}
use robotraconteur_pyodide.Wire.Connection.{
  WireConnection, new_connection, set_out_value, get_in_value,
}
use robotraconteur_pyodide.Wire.Latest.{here, there, receive_all}
use robotraconteur_pyodide.Wire.Delivery.{
  Sent, opened, sends, IsIncreasing, Sent-IsIncreasing, last_sent, sent_before, latest_value,
}

abbrev at : ℕ → ℕ → TimeSpec
at s n = record { seconds = pos s; nanoseconds = pos n }

-- Nanoseconds of either sign, and of more than a second.
carried_run :
    new_time_spec (pos 1) (negsuc 2500000000)
    ≡ record { seconds = negsuc 0; nanoseconds = negsuc 500000000 }
unfolding new_time_spec cleanup_nanosecs
carried_run = refl

-- A time of no seconds keeps negative nanoseconds.
negative_run : new_time_spec (pos 0) (negsuc 4) ≡ record { seconds = pos 0; nanoseconds = negsuc 4 }
unfolding new_time_spec cleanup_nanosecs
negative_run = refl

new_time_spec_lem_example :
    IsNormal (new_time_spec (pos 1) (negsuc 2500000000))
    × Same
        (new_time_spec (pos 1) (negsuc 2500000000))
        (record { seconds = pos 1; nanoseconds = negsuc 2500000000 })
new_time_spec_lem_example = new_time_spec_lem (pos 1) (negsuc 2500000000)

-- A parent that takes every packet.
abbrev takes : Option (ℕ → TimeSpec → Result (Unit {0}))
takes = some (λ v t. ok tt)

-- An end that has sent the value `v`, last at the time `t`.
abbrev sender : ℕ → TimeSpec → WireConnection ℕ
sender v t = record {
  direction = Direction.both;
  inval = 0;
  inval_valid = false;
  lasttime_recv = at 0 0;
  lasttime_recv_local = pos 0;
  inval_lifespan = negsuc 0;
  outval = v;
  outval_valid = true;
  lasttime_send = t;
  lasttime_send_local = pos 9;
  outval_lifespan = negsuc 0;
  ignore_inval = false;
  send_closed = false;
  recv_closed = false;
}

at-IsNormal : IsNormal (at 5 999999999)
at-IsNormal = record {
  low = omega arith;
  high = omega arith;
  positive = λ h. refl;
  negative = λ h. absurd (omega arith);
}

-- The clock stands still at the last nanosecond of a second, and then goes back.
earlier-IsNormal : IsNormal (at 4 0)
earlier-IsNormal = record {
  low = omega arith;
  high = omega arith;
  positive = λ h. refl;
  negative = λ h. absurd (omega arith);
}

abbrev packets : List (TimeSpec × ℕ)
packets = (at 6 1, 33) ∷ (at 6 0, 22) ∷ (at 5 999999999, 11) ∷ []

history : Sent 0 Direction.both packets (sender 33 (at 6 1))
unfolding new_connection set_out_value less_equal less equal minus new_time_spec cleanup_nanosecs
history =
    sends {c = sender 22 (at 6 0)} (at 4 0) (pos 9) takes 33 earlier-IsNormal
      (sends {c = sender 11 (at 5 999999999)} (at 5 999999999) (pos 9) takes 22 at-IsNormal
        (sends (at 5 999999999) (pos 9) takes 11 at-IsNormal opened refl) refl)
      refl

Sent-IsIncreasing_example : IsIncreasing packets
Sent-IsIncreasing_example = Sent-IsIncreasing 0 Direction.both packets (sender 33 (at 6 1)) history

-- The last packet comes first, the second is lost, and the first comes twice.
abbrev arrivals : List (TimeSpec × (ℕ × Option ℤ))
arrivals =
    (at 5 999999999, (11, some (pos 7)))
    ∷ (at 6 1, (33, some (pos 8)))
    ∷ (at 5 999999999, (11, some (pos 9)))
    ∷ []

latest_value_example :
    get_in_value none (receive_all arrivals (new_connection 0 Direction.readonly)) ≡ ok 33
latest_value_example =
    latest_value 0 Direction.both Direction.readonly (at 6 1) 33
      ((at 6 0, 22) ∷ (at 5 999999999, 11) ∷ []) (sender 33 (at 6 1)) arrivals none history
      (sent_before (sent_before last_sent), (last_sent, (sent_before (sent_before last_sent), tt)))
      (there here) refl
