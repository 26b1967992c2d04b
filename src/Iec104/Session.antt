-- ===== src/Iec104/Session.antt =====
-- `crates/iec104/src/session.rs`: the link layer of a controlled station. An `Instant` is a number
-- of nanoseconds, a `Duration` the same, and `duration_since` is the subtraction that stops at 0. A
-- method that takes `&mut self` returns the new session; one that may close the connection returns
-- `err` with the reason and the session as it was left, and `panic` where decoding an ASDU panics.
-- A `VecDeque` is a list, its front first.
pub mod Flush
pub mod Calls
pub mod Invariant
pub mod History
pub mod Timers
pub mod Quiet
pub mod Fifo
pub mod Faults
pub mod Receipts
pub mod Deadlines
use grid_edge_gateway.Prelude.{
  ℕ, zero, suc, ◌+◌, ◌-◌, ◌*◌, ◌%◌, List, [], ◌∷◌, ◌++◌, Bool, true, false, not, ◌&&◌, Option, none,
  some, length, drop, ltb, leb, ◌==◌, if◌then◌else◌, Result, ok, err, panic, ◌>>=◌,
}
use grid_edge_gateway.Iec104.Apci.{
  Apdu, i_frame, s_frame, u_frame, UFunction, start_dt_act, start_dt_con, stop_dt_act, stop_dt_con,
  test_fr_act, test_fr_con, seq_modulo, seq_distance,
}
use grid_edge_gateway.Iec104.Apci
use grid_edge_gateway.Iec104.Element.{AsduError}
use grid_edge_gateway.Iec104.Asdu.{Asdu}
use grid_edge_gateway.Iec104.Asdu

pub record Config : Type 0 where
  pub k : ℕ
  pub w : ℕ
  pub t1 : ℕ
  pub t2 : ℕ
  pub t3 : ℕ
  pub max_queue : ℕ

abbrev pub seconds : ℕ
seconds = 1000000000

unfoldable pub default_config : Config
default_config = record {
  k = 12;
  w = 8;
  t1 = 15 * seconds;
  t2 = 10 * seconds;
  t3 = 20 * seconds;
  max_queue = 1000;
}

pub data Close : Type 0 where
  ack_timeout test_timeout : Close
  sequence_error : (expected got : ℕ) → Close
  bad_acknowledge : (nr : ℕ) → Close

pub data Output : Type 0 where
  transmitted : List ℕ → Output
  received : Result AsduError Asdu → Output
  started stopped : Output

pub record Session : Type 0 where
  pub cfg : Config
  pub open cfg use *
  pub is_started : Bool
  pub send_seq : ℕ
  pub recv_seq : ℕ
  pub last_acked_to_peer : ℕ
  pub unacked : List ℕ
  pub oldest_unacked_seq : ℕ
  pub queue : List (List ℕ)
  pub unacked_rx_since : Option ℕ
  pub last_rx : ℕ
  pub test_sent : Option ℕ
  pub out : List Output

-- A call that may end the connection.
abbrev pub Step : Type 0
Step = Result (Close × Session) Session

unfoldable pub new : Config → ℕ → Session
new cfg now = record {
  cfg = cfg;
  is_started = false;
  send_seq = 0;
  recv_seq = 0;
  last_acked_to_peer = 0;
  unacked = [];
  oldest_unacked_seq = 0;
  queue = [];
  unacked_rx_since = none;
  last_rx = now;
  test_sent = none;
  out = [];
}

-- `Session::drain`: the outputs so far, and the session without them.
unfoldable pub drain : Session → List Output × Session
drain s = (s.out, record s { out = [] })

abbrev pub emit : Session → Output → Session
emit s o = record s { out = s.out ++ (o ∷ []) }

unfoldable pub transmit : Session → Apdu → Session
transmit s a = emit s (transmitted (Apci.encode a))

unfoldable pub mark_acked_to_peer : Session → Session
mark_acked_to_peer s = record s { last_acked_to_peer = s.recv_seq; unacked_rx_since = none }

unfoldable pub transmit_s : Session → Session
unfolding transmit mark_acked_to_peer
transmit_s s = mark_acked_to_peer (transmit s (s_frame s.recv_seq))

unfoldable pub acknowledge : Session → ℕ → Step
acknowledge s nr =
    let count = seq_distance s.oldest_unacked_seq nr in
    if ltb (length s.unacked) count
    then err (bad_acknowledge nr, s)
    else ok (record s { unacked = drop count s.unacked; oldest_unacked_seq = nr })

-- One round of the loop in `flush`: `asdu` is the front of the queue and `rest` what is behind it.
unfoldable pub send_front : Session → ℕ → List ℕ → List (List ℕ) → Session
unfolding transmit mark_acked_to_peer
send_front s now asdu rest =
    let popped = record s {
      queue = rest;
      send_seq = (s.send_seq + 1) % seq_modulo;
      unacked = s.unacked ++ (now ∷ []);
    } in
    mark_acked_to_peer (transmit popped (i_frame s.send_seq s.recv_seq asdu))

-- The loop sends one ASDU in each round, so the length of the queue is fuel enough.
unfoldable pub flush_loop : ℕ → Session → ℕ → Session
flush_loop zero s now = s
flush_loop (suc fuel) s now = elim (s.is_started && ltb (length s.unacked) s.k) [
  | false ↦ s
  | true ↦ elim s.queue [ [] ↦ s | asdu ∷ rest ↦ flush_loop fuel (send_front s now asdu rest) now ]
]

unfoldable pub flush : Session → ℕ → Session
flush s now = flush_loop (length s.queue) s now

unfoldable pub enqueue : Session → List ℕ → Session
enqueue s asdu =
    let room = if leb s.max_queue (length s.queue) then drop 1 s.queue else s.queue in
    record s { queue = room ++ (asdu ∷ []) }

unfoldable pub send_raw : Session → List ℕ → ℕ → Session
send_raw s asdu now = flush (enqueue s asdu) now

unfoldable pub send : Session → Asdu → ℕ → Session
send s asdu now = send_raw s (Asdu.encode asdu) now

-- `Option::get_or_insert`
abbrev pub get_or_insert : Option ℕ → ℕ → Option ℕ
get_or_insert none now = some now
get_or_insert (some t) now = some t

-- `self.out.push(Output::Received(Asdu::decode(&asdu)))`
unfoldable pub deliver : Session → List ℕ → Step
deliver s asdu = elim (Asdu.decode asdu) [
  | ok a ↦ ok (emit s (received (ok a)))
  | err e ↦ ok (emit s (received (err e)))
  | panic ↦ panic
]

unfoldable pub on_i_frame : Session → ℕ → ℕ → List ℕ → ℕ → Step
on_i_frame s ns nr asdu now =
    if not (ns == s.recv_seq) then err (sequence_error s.recv_seq ns, s) else (do
      acked ← acknowledge (record s { recv_seq = (s.recv_seq + 1) % seq_modulo }) nr
      done ←
          deliver (record acked { unacked_rx_since = get_or_insert acked.unacked_rx_since now })
            asdu
      ok (
          if leb done.w (seq_distance done.last_acked_to_peer done.recv_seq)
          then transmit_s done
          else done))

unfoldable pub on_u_frame : Session → UFunction → Session
unfolding transmit transmit_s
on_u_frame s start_dt_act =
    let confirmed = transmit s (u_frame start_dt_con) in
    if not confirmed.is_started
    then emit (record confirmed { is_started = true }) started
    else confirmed
on_u_frame s stop_dt_act =
    let acked = if not (s.recv_seq == s.last_acked_to_peer) then transmit_s s else s in
    let confirmed = transmit acked (u_frame stop_dt_con) in
    if confirmed.is_started
    then emit (record confirmed { is_started = false }) stopped
    else confirmed
on_u_frame s test_fr_act = transmit s (u_frame test_fr_con)
on_u_frame s test_fr_con = record s { test_sent = none }
on_u_frame s start_dt_con = s
on_u_frame s stop_dt_con = s

unfoldable pub on_frame : Session → Apdu → ℕ → Step
on_frame s (i_frame ns nr asdu) now = on_i_frame s ns nr asdu now
on_frame s (s_frame nr) now = acknowledge s nr
on_frame s (u_frame f) now = ok (on_u_frame s f)

unfoldable pub on_apdu : Session → Apdu → ℕ → Step
on_apdu s apdu now = do done ← on_frame (record s { last_rx = now }) apdu now; ok (flush done now)

-- `if let Some(t) = o && now.duration_since(t) >= limit`
abbrev pub expired : Option ℕ → ℕ → ℕ → Bool
expired none now limit = false
expired (some t) now limit = leb limit (now - t)

abbrev pub front : List ℕ → Option ℕ
front [] = none
front (t ∷ ts) = some t

abbrev pub is_none : Option ℕ → Bool
is_none none = true
is_none (some t) = false

unfoldable pub test_link : Session → ℕ → Session
unfolding transmit
test_link s now =
    if is_none s.test_sent && leb s.t3 (now - s.last_rx)
    then record (transmit s (u_frame test_fr_act)) { test_sent = some now }
    else s

unfoldable pub on_tick : Session → ℕ → Step
unfolding transmit_s test_link
on_tick s now =
    if expired (front s.unacked) now s.t1
    then err (ack_timeout, s)
    else if expired s.test_sent now s.t1
    then err (test_timeout, s)
    else ok (test_link (if expired s.unacked_rx_since now s.t2 then transmit_s s else s) now)
