-- ===== src/Pipe/Tests.antt =====
-- The theorems on pipe endpoints at three packets that arrive in the order 2, 3, 2, 1.
use robotraconteur_pyodide.Prelude.{
  ℕ, zero, suc, ◌+◌, ◌≤◌, ◌<◌, ◌≡◌, refl, inl, inr, false, List, [], ◌∷◌, ◌++◌, arith,
}
use robotraconteur_pyodide.Outcome.{ok}
use robotraconteur_pyodide.Pipe.Endpoint.{
  Direction, PipeEndpoint, new_endpoint, insert, dequeue, erase, increment_packet_number,
  packet_arrives, pipe_packet_received, try_receive_packet,
}
use robotraconteur_pyodide.Pipe.Order.{In, Run, new, arrives, receives, sent}
use robotraconteur_pyodide.Pipe.Delivery.{
  taken_in_order, passed_on, all_taken, send_all, numbered, send_all_numbers,
}

abbrev tens : ℕ → ℕ
tens k = 10 + k

abbrev fresh : PipeEndpoint ℕ
fresh = record {
  send_packet_number = 0;
  recv_packet_number = 0;
  recv_packets = [];
  out_of_order_packets = [];
  direction = Direction.both;
  unreliable = false;
  request_packet_ack = false;
  ignore_incoming_packets = false;
  closed = false;
}

abbrev two_early : PipeEndpoint ℕ
two_early = record fresh { out_of_order_packets = (2, 12) ∷ [] }

abbrev both_early : PipeEndpoint ℕ
both_early = record fresh { out_of_order_packets = (3, 13) ∷ (2, 12) ∷ [] }

-- The listeners take one packet of the three.
abbrev finished : PipeEndpoint ℕ
finished = record fresh { recv_packet_number = 3; recv_packets = 12 ∷ 13 ∷ [] }

abbrev emptied : PipeEndpoint ℕ
emptied = record finished { recv_packets = 13 ∷ [] }

abbrev one : List ℕ → ℕ
one q = 1

history : Run tens 3 (new_endpoint false Direction.both) (11 ∷ 12 ∷ []) (1 ∷ 2 ∷ 3 ∷ 2 ∷ []) emptied
unfolding new_endpoint pipe_packet_received packet_arrives dequeue insert erase
    increment_packet_number try_receive_packet
history = receives {t = 11 ∷ []} {e = finished} {packet = 12} refl (
    arrives {t = []} {got = 11 ∷ []} {e = both_early} 1 one (omega arith) (omega arith) refl (
      arrives {t = []} {got = []} {e = both_early} 2 one (omega arith) (omega arith) refl (
        arrives {t = []} {got = []} {e = two_early} 3 one (omega arith) (omega arith) refl
          (arrives {t = []} {got = []} {e = fresh} 2 one (omega arith) (omega arith) refl new))))

taken_in_order_example :
    ((11 ∷ 12 ∷ []) ++ emptied.recv_packets ≡ sent tens emptied.recv_packet_number)
    × (emptied.recv_packet_number ≤ 3)
taken_in_order_example =
    taken_in_order tens 3 Direction.both (11 ∷ 12 ∷ []) (1 ∷ 2 ∷ 3 ∷ 2 ∷ []) emptied (omega arith)
      refl history

all_there : (k : ℕ) → 0 < k → k ≤ 3 → In k (1 ∷ 2 ∷ 3 ∷ 2 ∷ [])
all_there zero pos low = absurd (omega arith)
all_there (suc zero) pos low = inl refl
all_there (suc (suc zero)) pos low = inr (inl refl)
all_there (suc (suc (suc zero))) pos low = inr (inr (inl refl))
all_there (suc (suc (suc (suc k)))) pos low = absurd (omega arith)

passed_on_example : 3 ≤ emptied.recv_packet_number
passed_on_example =
    passed_on tens 3 3 Direction.both (11 ∷ 12 ∷ []) (1 ∷ 2 ∷ 3 ∷ 2 ∷ []) emptied (omega arith) refl
      history (omega arith) all_there

all_taken_example : (11 ∷ 12 ∷ []) ++ emptied.recv_packets ≡ sent tens 3
all_taken_example =
    all_taken tens 3 Direction.both (11 ∷ 12 ∷ []) (1 ∷ 2 ∷ 3 ∷ 2 ∷ []) emptied (omega arith) refl
      history all_there

send_all_numbers_example :
    send_all (7 ∷ 8 ∷ []) fresh
    ≡ ok (numbered false 0 (7 ∷ 8 ∷ []), record fresh { send_packet_number = 0 + 2 })
send_all_numbers_example = send_all_numbers (7 ∷ 8 ∷ []) fresh refl (omega arith)
