-- ===== src/Pipe/Endpoint.antt =====
-- PipeEndpointBase of RobotRaconteurCore/src/PipeMember.cpp. A packet is of any type A; the unordered
-- map of packets that arrived too early is an association list of their numbers.
use robotraconteur_pyodide.Prelude.{
  ℕ, zero, suc, ◌+◌, ◌-◌, ◌^◌, Bool, true, false, not, ◌&&◌, ◌||◌, List, [], ◌∷◌, ◌++◌, Option,
  none, some, length, take, drop, ltb, ◌==◌, if◌then◌else◌,
}
use robotraconteur_pyodide.Outcome.{
  Result, ok, throw, bind, read_only_member, write_only_member, invalid_operation,
}

-- MemberDefinition_Direction.
pub data Direction : Type 0 where
  both readonly writeonly : Direction

abbrev pub is_readonly : Direction → Bool
is_readonly Direction.readonly = true
is_readonly _ = false

abbrev pub is_writeonly : Direction → Bool
is_writeonly Direction.writeonly = true
is_writeonly _ = false

-- Of the endpoint's fields: the packet numbers and queues, and what guards their use.
pub record PipeEndpoint {ℓ} (A : Type ℓ) : Type ℓ where
  pub send_packet_number : ℕ
  pub recv_packet_number : ℕ
  pub recv_packets : List A
  pub out_of_order_packets : List (ℕ × A)
  pub direction : Direction
  pub unreliable : Bool
  pub request_packet_ack : Bool
  pub ignore_incoming_packets : Bool
  pub closed : Bool

unfoldable pub increment_packet_number : ℕ → ℕ
increment_packet_number n = if ltb n (2 ^ 32 - 1) then n + 1 else 0

module _ {ℓ} {A : Type ℓ} where
  -- `map.find`, `map.insert`, which keeps an entry that is there, and `map.erase`.
  abbrev pub find : ℕ → List (ℕ × A) → Option A
  find k [] = none
  find k ((n, v) ∷ m) = if n == k then some v else find k m

  unfoldable pub insert : ℕ → A → List (ℕ × A) → List (ℕ × A)
  insert k v m = elim (find k m) [ none ↦ (k, v) ∷ m | some w ↦ m ]

  unfoldable pub erase : ℕ → List (ℕ × A) → List (ℕ × A)
  erase k [] = []
  erase k ((n, v) ∷ m) = let rest = erase k m in if n == k then rest else (n, v) ∷ rest

  unfoldable pub new_endpoint : Bool → Direction → PipeEndpoint A
  new_endpoint unreliable direction = record {
    send_packet_number = 0;
    recv_packet_number = 0;
    recv_packets = [];
    out_of_order_packets = [];
    direction = direction;
    unreliable = unreliable;
    request_packet_ack = false;
    ignore_incoming_packets = false;
    closed = false;
  }

  unfoldable pub available : PipeEndpoint A → ℕ
  available e = length e.recv_packets

  -- The packet, its number and the request for an acknowledgement are handed to the parent. The number
  -- is used up even if the parent then throws.
  unfoldable pub send_packet : A → PipeEndpoint A → Result ((ℕ × A × Bool) × PipeEndpoint A)
  unfolding increment_packet_number
  send_packet packet e =
      let n = increment_packet_number e.send_packet_number in
      if is_readonly e.direction
      then throw read_only_member
      else ok ((n, packet, e.request_packet_ack), record e { send_packet_number = n })

  abbrev pub front : Bool → PipeEndpoint A → List A → Option A × PipeEndpoint A
  front peek e [] = (none, e)
  front peek e (p ∷ ps) = (some p, if peek then e else record e { recv_packets = ps })

  unfoldable pub try_receive_packet : Bool → PipeEndpoint A → Result (Option A × PipeEndpoint A)
  try_receive_packet peek e =
      if is_writeonly e.direction then throw write_only_member else ok (front peek e e.recv_packets)

  -- ReceivePacketBase and PeekPacketBase.
  unfoldable pub receive_packet : Bool → PipeEndpoint A → Result (A × PipeEndpoint A)
  unfolding try_receive_packet
  receive_packet peek e =
      bind (try_receive_packet peek e)
        λ (packet, e'). elim packet [ none ↦ throw invalid_operation | some p ↦ ok (p, e') ]

  unfoldable pub set_request_packet_ack : Bool → PipeEndpoint A → PipeEndpoint A
  set_request_packet_ack ack e = record e { request_packet_ack = ack }

  -- The loop that moves packets that are next in order out of `out_of_order_packets`, on fuel.
  unfoldable pub dequeue : ℕ → PipeEndpoint A → PipeEndpoint A
  unfolding increment_packet_number erase
  dequeue zero e = e
  dequeue (suc fuel) e =
      let n = increment_packet_number e.recv_packet_number in
      elim (find n e.out_of_order_packets) [
        | none ↦ e
        | some packet ↦ dequeue fuel (record e {
          recv_packet_number = n;
          recv_packets = e.recv_packets ++ (packet ∷ []);
          out_of_order_packets = erase n e.out_of_order_packets;
        })
      ]

  -- The queue and the numbers after PipePacketReceived; the listeners are called next.
  unfoldable pub packet_arrives : A → ℕ → PipeEndpoint A → PipeEndpoint A
  unfolding dequeue insert increment_packet_number
  packet_arrives packet n e =
      if e.unreliable
      then record e { recv_packets = e.recv_packets ++ (packet ∷ []) }
      else if n == increment_packet_number e.recv_packet_number
      then dequeue (length e.out_of_order_packets) (record e {
        recv_packet_number = increment_packet_number e.recv_packet_number;
        recv_packets = e.recv_packets ++ (packet ∷ []);
      })
      else record e { out_of_order_packets = insert n packet e.out_of_order_packets }

  -- PipePacketReceived: the packets that the listeners take and the endpoint after it. `taken` is how
  -- many they take from the front of the queue they are called with.
  unfoldable pub pipe_packet_received :
      (List A → ℕ) → A → ℕ → PipeEndpoint A → List A × PipeEndpoint A
  unfolding packet_arrives increment_packet_number
  pipe_packet_received taken packet n e =
      let e' = packet_arrives packet n e in
      let count = taken e'.recv_packets in
      if is_writeonly e.direction || e.ignore_incoming_packets
      then ([], e)
      else if e.unreliable || (n == increment_packet_number e.recv_packet_number)
      then (take count e'.recv_packets, record e' { recv_packets = drop count e'.recv_packets })
      else ([], e')

  unfoldable pub set_ignore_received : Bool → PipeEndpoint A → Result (PipeEndpoint A)
  set_ignore_received ignore e =
      if not ignore && e.ignore_incoming_packets
      then throw invalid_operation
      else ok (record e { ignore_incoming_packets = ignore })
