-- ===== src/Wire/Connection.antt =====
-- WireConnectionBase of RobotRaconteurCore/src/WireMember.cpp. Local times are microseconds; a released
-- node has no clock, and an expired parent sends nothing. Where a method throws, the connection is as before.
use robotraconteur_pyodide.Prelude.{
  ℕ, ◌*◌, Bool, true, false, ◌||◌, not, if◌then◌else◌, Option, some, none,
}
use robotraconteur_pyodide.Prelude.Int.{ℤ, pos, negsuc, ◌+ℤ◌, ltb_ℤ, pos_part}
use robotraconteur_pyodide.Outcome.{
  Result, ok, throw, undefined, bind, read_only_member, write_only_member, value_not_set,
  invalid_operation,
}
use robotraconteur_pyodide.Pipe.Endpoint.{Direction, is_readonly, is_writeonly}
use robotraconteur_pyodide.Wire.TimeSpec.{TimeSpec, cleanup_nanosecs, equal, greater, less_equal}

pub record WireConnection {ℓ} (A : Type ℓ) : Type ℓ where
  pub direction : Direction
  pub inval : A
  pub inval_valid : Bool
  pub lasttime_recv : TimeSpec
  pub lasttime_recv_local : ℤ
  pub inval_lifespan : ℤ
  pub outval : A
  pub outval_valid : Bool
  pub lasttime_send : TimeSpec
  pub lasttime_send_local : ℤ
  pub outval_lifespan : ℤ
  pub ignore_inval : Bool
  pub send_closed : Bool
  pub recv_closed : Bool

abbrev pub epoch : TimeSpec
epoch = record { seconds = pos 0; nanoseconds = pos 0 }

-- Node->NowNodeTime(), where there is a node.
abbrev pub local_time : Option ℤ → ℤ → ℤ
local_time none last = last
local_time (some now) last = now

-- The time of the next packet: that of the clock, or a nanosecond after the last.
abbrev pub next_time : TimeSpec → TimeSpec → TimeSpec
next_time now last =
    if less_equal now last
    then cleanup_nanosecs
        (record { seconds = last.seconds; nanoseconds = last.nanoseconds +ℤ pos 1 })
    else now

-- WireConnectionBase_IsValueExpired, with a lifespan in milliseconds.
abbrev pub is_older : Option ℤ → ℤ → ℕ → Bool
is_older none recv_time millis = true
is_older (some now) recv_time millis = ltb_ℤ (recv_time +ℤ pos (millis * 1000)) now

unfoldable pub is_value_expired : Option ℤ → ℤ → ℤ → Bool
is_value_expired now recv_time lifespan =
    if ltb_ℤ lifespan (pos 0) then false else is_older now recv_time (pos_part lifespan)

module _ {ℓ} {A : Type ℓ} where
  -- The local times, not_a_date_time in the code until the first packet, are 0 until then.
  unfoldable pub new_connection : A → Direction → WireConnection A
  new_connection null d = record {
    direction = d;
    inval = null;
    inval_valid = false;
    lasttime_recv = epoch;
    lasttime_recv_local = pos 0;
    inval_lifespan = negsuc 0;
    outval = null;
    outval_valid = false;
    lasttime_send = epoch;
    lasttime_send_local = pos 0;
    outval_lifespan = negsuc 0;
    ignore_inval = false;
    send_closed = false;
    recv_closed = false;
  }

  unfoldable pub get_last_value_received_time : WireConnection A → Result TimeSpec
  get_last_value_received_time c = if c.inval_valid then ok c.lasttime_recv else throw value_not_set

  unfoldable pub get_last_value_sent_time : WireConnection A → Result TimeSpec
  get_last_value_sent_time c = if c.outval_valid then ok c.lasttime_send else throw value_not_set

  -- Whether the listeners are called, with the packet and its time, and the connection after it.
  unfoldable pub wire_packet_received :
      Option ℤ → TimeSpec → A → WireConnection A → Bool × WireConnection A
  wire_packet_received now timespec packet c =
      if c.ignore_inval
      then (false, c)
      else if equal c.lasttime_recv epoch || greater timespec c.lasttime_recv
      then (
        true,
        record c {
          inval = packet;
          lasttime_recv = timespec;
          lasttime_recv_local = local_time now c.lasttime_recv_local;
          inval_valid = true;
        },
      )
      else (false, c)

  -- `send` is SendWirePacket of the parent, none where GetParent() finds it expired.
  abbrev pub send_packet_at :
      Option (A → TimeSpec → Result (Unit {0})) → A → TimeSpec → Result (Unit {0})
  send_packet_at none value time = throw invalid_operation
  send_packet_at (some send) value time = send value time

  -- NowTimeSpec() and NowNodeTime() of the node; calling them on a released one is undefined. Returns the
  -- time of the packet.
  abbrev pub set_out_value_at :
      Option (TimeSpec × ℤ)
      → Option (A → TimeSpec → Result (Unit {0}))
      → A
      → WireConnection A
      → Result (TimeSpec × WireConnection A)
  set_out_value_at none parent value c = undefined
  set_out_value_at (some (now, local)) parent value c =
      let time = next_time now c.lasttime_send in
      bind (send_packet_at parent value time) λ _. ok (
        time,
        record c {
          outval = value;
          lasttime_send = time;
          lasttime_send_local = local;
          outval_valid = true;
        },
      )

  unfoldable pub set_out_value :
      Option (TimeSpec × ℤ)
      → Option (A → TimeSpec → Result (Unit {0}))
      → A
      → WireConnection A
      → Result (TimeSpec × WireConnection A)
  set_out_value clock parent value c =
      if is_readonly c.direction
      then throw read_only_member
      else set_out_value_at clock parent value c

  unfoldable pub get_in_value : Option ℤ → WireConnection A → Result A
  unfolding is_value_expired
  get_in_value now c =
      if is_writeonly c.direction
      then throw write_only_member
      else if not c.inval_valid
      then throw value_not_set
      else if is_value_expired now c.lasttime_recv_local c.inval_lifespan
      then throw value_not_set
      else ok c.inval

  unfoldable pub get_out_value : Option ℤ → WireConnection A → Result A
  unfolding is_value_expired
  get_out_value now c =
      if is_readonly c.direction
      then throw read_only_member
      else if not c.outval_valid
      then throw value_not_set
      else if is_value_expired now c.lasttime_send_local c.outval_lifespan
      then throw value_not_set
      else ok c.outval

  -- The value and its time, or that there is none.
  unfoldable pub try_get_in_value : Option ℤ → WireConnection A → Result (Option (A × TimeSpec))
  unfolding is_value_expired
  try_get_in_value now c =
      if is_writeonly c.direction
      then throw write_only_member
      else if not c.inval_valid
      then ok none
      else if is_value_expired now c.lasttime_recv_local c.inval_lifespan
      then ok none
      else ok (some (c.inval, c.lasttime_recv))

  unfoldable pub try_get_out_value : Option ℤ → WireConnection A → Result (Option (A × TimeSpec))
  unfolding is_value_expired
  try_get_out_value now c =
      if is_readonly c.direction
      then throw read_only_member
      else if not c.outval_valid
      then ok none
      else if is_value_expired now c.lasttime_send_local c.outval_lifespan
      then ok none
      else ok (some (c.outval, c.lasttime_send))

  unfoldable pub set_ignore_in_value : Bool → WireConnection A → WireConnection A
  set_ignore_in_value ignore c = record c { ignore_inval = ignore }

  unfoldable pub set_in_value_lifespan : ℤ → WireConnection A → WireConnection A
  set_in_value_lifespan millis c = record c { inval_lifespan = millis }

  unfoldable pub set_out_value_lifespan : ℤ → WireConnection A → WireConnection A
  set_out_value_lifespan millis c = record c { outval_lifespan = millis }

  -- What RemoteClose and Shutdown do to the connection itself.
  unfoldable pub close : WireConnection A → WireConnection A
  close c = record c { send_closed = true; recv_closed = true }
