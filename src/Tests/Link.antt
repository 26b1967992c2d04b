-- ===== src/Tests/Link.antt =====
-- A started session, its timers and a connection that reads frames in two chunks.
use grid_edge_gateway.Prelude.{
  ℕ, ◌*◌, ◌≤◌, ◌≡◌, refl, List, [], ◌∷◌, ◌++◌, none, true, false, ◌⊎◌, ok, err, panic, length,
  arith, ◌↔◌, ◌>>=◌,
}
use grid_edge_gateway.Iec104.Apci.{
  Apdu, i_frame, s_frame, u_frame, start_dt_act, IsApdu, seq_modulo, seq_distance,
}
use grid_edge_gateway.Iec104.Apci
use grid_edge_gateway.Iec104.Asdu
use grid_edge_gateway.Iec104.Session.{
  Session, Step, default_config, new, send_raw, on_apdu, on_tick, on_i_frame, on_u_frame, on_frame,
  flush, deliver, flush_loop, send_front, enqueue, acknowledge, transmit, transmit_s, test_link,
  Close, mark_acked_to_peer, front,
}
use grid_edge_gateway.Iec104.Session.Flush.{Flushed, sent_count, flush-Flushed, flush_stops}
use grid_edge_gateway.Iec104.Session.Invariant.{IsConfig, IsSession}
use grid_edge_gateway.Iec104.Session.History.{
  Call, receives, ticks, sends, call, run, run-new-IsSession,
}
use grid_edge_gateway.Iec104.Session.Timers.{IsTimely, on_tick-IsTimely}
use grid_edge_gateway.Iec104.Session.Faults.{IsFaulty, ClosesWith, on_apdu_closes}
use grid_edge_gateway.Iec104.Session.Receipts.{waiting_since, run-new-IsSince}
use grid_edge_gateway.Iec104.Session.Quiet.{sent}
use grid_edge_gateway.Iec104.Session.Fifo.{handed, run_in_order}
use grid_edge_gateway.Iec104.Connection.{Link, parse_all, read_chunk, parse_loop, by_parse}
use grid_edge_gateway.Iec104.Connection.Stream.{
  encode_all, feed, parse_all_stops, read_chunk-append, parse_all-encode_all,
}

abbrev session_of : Step → Session
session_of (ok s) = s
session_of (err (c, s)) = s
session_of panic = new default_config 0

abbrev calls : List (ℕ × Call)
calls =
    (1, sends (100 ∷ 1 ∷ []))
    ∷ ((5, receives (u_frame start_dt_act))
        ∷ ((6, sends (36 ∷ 1 ∷ [])) ∷ ((9, receives (s_frame 1)) ∷ ((30, ticks) ∷ []))))

abbrev after_calls : Session
after_calls = session_of (run (new default_config 0) calls)

run-calls : run (new default_config 0) calls ≡ ok after_calls
unfolding run call new send_raw on_apdu on_tick on_u_frame on_frame flush flush_loop send_front
    enqueue acknowledge transmit transmit_s test_link mark_acked_to_peer default_config seq_distance
run-calls = refl

default_config-IsConfig : IsConfig default_config
unfolding default_config
default_config-IsConfig = omega arith

run-new-IsSession_example : IsSession after_calls
run-new-IsSession_example =
    run-new-IsSession default_config 0 calls after_calls default_config-IsConfig (omega arith)
      run-calls

run_in_order_example : sent after_calls.out ++ after_calls.queue ≡ handed calls
unfolding default_config
run_in_order_example =
    run_in_order default_config 0 calls after_calls default_config-IsConfig (omega arith)
      (omega arith) (ground arith) (ground arith) run-calls

abbrev waiting : Session
waiting = record (new default_config 0) {
  is_started = true;
  queue = (1 ∷ []) ∷ ((2 ∷ []) ∷ []);
  send_seq = 32767;
  oldest_unacked_seq = 32767;
}

flush-Flushed_example : Flushed waiting 7 (sent_count waiting) (flush waiting 7)
flush-Flushed_example = flush-Flushed waiting 7

flush_stops_example :
    let s' = flush waiting 7 in
    (s'.is_started ≡ false) ⊎ (s'.k ≤ length s'.unacked) ⊎ (s'.queue ≡ [])
flush_stops_example = flush_stops waiting 7

abbrev idle : Session
idle = record (new default_config 0) { is_started = true }

-- Two I-frames of the peer, which no frame of ours acknowledges.
abbrev receipts : List (ℕ × Call)
receipts =
    (5, receives (i_frame 0 0 (100 ∷ [])))
    ∷ ((7, receives (i_frame 1 0 (100 ∷ []))) ∷ ((9, ticks) ∷ []))

abbrev after_receipts : Session
after_receipts = session_of (run (new default_config 0) receipts)

run-receipts : run (new default_config 0) receipts ≡ ok after_receipts
unfolding run call new on_apdu on_tick on_i_frame on_frame flush flush_loop acknowledge test_link
    default_config seq_distance deliver Asdu.decode
run-receipts = refl

run-new-IsSince_example :
    (after_receipts.unacked_rx_since ≡ front (waiting_since (new default_config 0) receipts []))
    × (length (waiting_since (new default_config 0) receipts [])
        ≡ seq_distance after_receipts.last_acked_to_peer after_receipts.recv_seq)
run-new-IsSince_example =
    run-new-IsSince default_config 0 receipts after_receipts default_config-IsConfig (ground arith)
      run-receipts

idle-IsSession : IsSession idle
unfolding new default_config seq_distance
idle-IsSession = ground arith

heard : on_apdu idle (s_frame 0) 9 ≡ ok (session_of (on_apdu idle (s_frame 0) 9))
unfolding on_apdu on_frame acknowledge flush flush_loop seq_distance new default_config
heard = refl

ticked : on_tick idle 30000 ≡ ok (session_of (on_tick idle 30000))
unfolding on_tick test_link transmit new default_config
ticked = refl

on_tick-IsTimely_example : IsTimely (session_of (on_tick idle 30000)) 30000
unfolding new default_config
on_tick-IsTimely_example =
    on_tick-IsTimely idle (session_of (on_tick idle 30000)) 30000 (omega arith) ticked

-- An I-frame whose N(R) is the number of a frame that has not been sent.
on_apdu_closes_example :
    (((e : Close × Session) × (on_apdu idle (i_frame 0 3 (100 ∷ [])) 9 ≡ err e))
      ↔ IsFaulty idle (i_frame 0 3 (100 ∷ [])))
    × ClosesWith idle.out (on_apdu idle (i_frame 0 3 (100 ∷ [])) 9)
on_apdu_closes_example =
    on_apdu_closes idle (i_frame 0 3 (100 ∷ [])) 9 idle-IsSession (ground arith)

abbrev seconds_clock : ℕ → ℕ
seconds_clock n = n * 1000

abbrev link : Link
link = record { buf = []; session = idle; tapped = [] }

read_chunk-append_example :
    (read_chunk seconds_clock link (0x68 ∷ 4 ∷ []) >>= λ l'.
    read_chunk seconds_clock l' (67 ∷ 0 ∷ (0 ∷ 0 ∷ [])))
    ≡ read_chunk seconds_clock link ((0x68 ∷ 4 ∷ []) ++ (67 ∷ 0 ∷ (0 ∷ 0 ∷ [])))
read_chunk-append_example =
    read_chunk-append seconds_clock link (0x68 ∷ 4 ∷ []) (67 ∷ 0 ∷ (0 ∷ 0 ∷ []))

partial : Apci.parse (0x68 ∷ []) ≡ ok none
unfolding Apci.parse
partial = refl

abbrev frames : List Apdu
frames = s_frame 0 ∷ (i_frame 0 0 (100 ∷ []) ∷ [])

parse_all-encode_all_example :
    parse_all seconds_clock (record link { buf = encode_all frames ++ (0x68 ∷ []) })
    ≡ feed seconds_clock (record link { buf = 0x68 ∷ [] }) frames
parse_all-encode_all_example =
    parse_all-encode_all seconds_clock link frames (0x68 ∷ []) (omega arith) partial

parse_one :
    parse_all seconds_clock (record link { buf = 0x68 ∷ [] }) ≡ ok (record link { buf = 0x68 ∷ [] })
unfolding parse_all parse_loop by_parse Apci.parse
parse_one = refl

parse_all_stops_example : Apci.parse (0x68 ∷ []) ≡ ok none
parse_all_stops_example =
    parse_all_stops seconds_clock (record link { buf = 0x68 ∷ [] })
      (record link { buf = 0x68 ∷ [] }) parse_one
