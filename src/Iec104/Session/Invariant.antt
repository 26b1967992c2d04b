-- ===== src/Iec104/Session/Invariant.antt =====
-- What holds of a session after any history of calls: the sequence numbers, the k and w windows, the
-- bounded queue and the timer of the received frames.
use grid_edge_gateway.Prelude.{
  ℕ, ◌+◌, ◌%◌, ◌≤◌, ◌<◌, ◌≡◌, ap, List, [], ◌∷◌, true, ◌==◌, length, drop, arith, length-append,
  length-drop, ok,
}
use grid_edge_gateway.Iec104.Apci.{
  Apdu, i_frame, s_frame, u_frame, UFunction, start_dt_act, seq_modulo, seq_distance, IsApdu,
}
use grid_edge_gateway.Iec104.Session.{
  Config, Session, Output, received, new, drain, send_front, flush, enqueue, send_raw, on_i_frame,
  on_u_frame, on_frame, on_apdu, test_link, transmit_s, is_none,
}
use grid_edge_gateway.Iec104.Session.Flush.{flush_keeps}
use grid_edge_gateway.Iec104.Session.Calls.{
  acknowledged, counted, answered, Ensures, ensures_ok, acknowledge-Ensures, on_i_frame-Ensures,
  >>=-Ensures, tended,
}

-- The parameters of the standard lie within: windows below the modulo, and room for one ASDU.
pub record IsConfig (c : Config) : Type 0 where
  pub k_fits : c.k < seq_modulo
  pub w_pos : 1 ≤ c.w
  pub w_fits : c.w < seq_modulo
  pub queue_pos : 1 ≤ c.max_queue

-- Our frames: the unacknowledged ones are numbered from `oldest_unacked_seq` up to `send_seq`, and
-- are at most k.
pub record Sending (s : Session) : Type 0 where
  pub send_fits : s.send_seq < seq_modulo
  pub oldest_fits : s.oldest_unacked_seq < seq_modulo
  pub window : length s.unacked ≤ s.k
  pub numbering : s.send_seq ≡ (s.oldest_unacked_seq + length s.unacked) % seq_modulo
  pub bounded : length s.queue ≤ s.max_queue

-- The peer's frames: fewer than w are without our acknowledgement, and the timer t2 runs exactly
-- while there are some.
pub record Receiving (s : Session) : Type 0 where
  pub recv_fits : s.recv_seq < seq_modulo
  pub acked_fits : s.last_acked_to_peer < seq_modulo
  pub owed : seq_distance s.last_acked_to_peer s.recv_seq < s.w
  pub timer : is_none s.unacked_rx_since ≡ (s.recv_seq == s.last_acked_to_peer)

pub record IsSession (s : Session) : Type 0 where
  pub config : IsConfig s.cfg
  pub sending : Sending s
  pub receiving : Receiving s

pub new-IsSession : (c : Config) (now : ℕ) → IsConfig c → IsSession (new c now)
unfolding new seq_distance
new-IsSession c now h = ground arith

pub send_front-IsSession :
    (now : ℕ) (s : Session) (asdu : List ℕ) (rest : List (List ℕ))
    → s.queue ≡ asdu ∷ rest
    → s.is_started ≡ true
    → length s.unacked < s.k
    → IsSession s
    → IsSession (send_front s now asdu rest)
unfolding send_front seq_distance
send_front-IsSession now s asdu rest q on room h =
    ground (arith, ap length q, length-append s.unacked (now ∷ []))

pub flush-IsSession : (s : Session) (now : ℕ) → IsSession s → IsSession (flush s now)
unfolding flush
flush-IsSession s now h = flush_keeps IsSession now (send_front-IsSession now) (length s.queue) s h

pub enqueue-IsSession : (s : Session) (asdu : List ℕ) → IsSession s → IsSession (enqueue s asdu)
unfolding enqueue
enqueue-IsSession s asdu h = ground (
  arith,
  length-append s.queue (asdu ∷ []),
  length-append (drop 1 s.queue) (asdu ∷ []),
  length-drop 1 s.queue,
)

pub send_raw-IsSession :
    (s : Session) (asdu : List ℕ) (now : ℕ) → IsSession s → IsSession (send_raw s asdu now)
unfolding send_raw
send_raw-IsSession s asdu now h = flush-IsSession _ now (enqueue-IsSession s asdu h)

acknowledged-Sending :
    (s : Session) (nr : ℕ)
    → nr < seq_modulo
    → seq_distance s.oldest_unacked_seq nr ≤ length s.unacked
    → Sending s
    → Sending (acknowledged s nr)
unfolding seq_distance
acknowledged-Sending s nr fits within h =
    ground (arith, length-drop (seq_distance s.oldest_unacked_seq nr) s.unacked)

counted-Receiving :
    (s : Session) (nr now : ℕ) (o : Output)
    → IsConfig s.cfg
    → Receiving s
    → Receiving (answered (counted s nr now o))
unfolding counted answered transmit_s seq_distance
counted-Receiving s nr now o c h = ground arith

acknowledged-IsSession :
    (s : Session) (nr : ℕ)
    → nr < seq_modulo
    → seq_distance s.oldest_unacked_seq nr ≤ length s.unacked
    → IsSession s
    → IsSession (acknowledged s nr)
acknowledged-IsSession s nr fits within h = record {
  config = h.config;
  sending = acknowledged-Sending s nr fits within h.sending;
  receiving = ground arith;
}

counted-Sending :
    (s : Session) (nr now : ℕ) (o : Output)
    → nr < seq_modulo
    → seq_distance s.oldest_unacked_seq nr ≤ length s.unacked
    → Sending s
    → Sending (answered (counted s nr now o))
unfolding counted answered transmit_s seq_distance
counted-Sending s nr now o fits within h =
    let acked = acknowledged-Sending s nr fits within h in ground arith

counted-IsSession :
    (s : Session) (nr now : ℕ) (o : Output)
    → nr < seq_modulo
    → seq_distance s.oldest_unacked_seq nr ≤ length s.unacked
    → IsSession s
    → IsSession (answered (counted s nr now o))
counted-IsSession s nr now o fits within h = record {
  config = unfold answered counted transmit_s in ground arith;
  sending = counted-Sending s nr now o fits within h.sending;
  receiving = counted-Receiving s nr now o h.config h.receiving;
}

on_i_frame-IsSession :
    (s : Session) (ns nr : ℕ) (asdu : List ℕ) (now : ℕ)
    → nr < seq_modulo
    → IsSession s
    → Ensures IsSession (on_i_frame s ns nr asdu now)
on_i_frame-IsSession s ns nr asdu now fits h =
    on_i_frame-Ensures IsSession s ns nr asdu now
      (λ e within r. counted-IsSession s nr now (received r) fits within h)

on_u_frame-IsSession : (s : Session) (f : UFunction) → IsSession s → IsSession (on_u_frame s f)
unfolding on_u_frame seq_distance
on_u_frame-IsSession s start_dt_act h = ground arith
on_u_frame-IsSession s f h = ground arith

pub on_frame-IsSession :
    (s : Session) (a : Apdu) (now : ℕ)
    → IsApdu a
    → IsSession s
    → Ensures IsSession (on_frame s a now)
unfolding on_frame
on_frame-IsSession s (i_frame ns nr asdu) now fits h =
    on_i_frame-IsSession s ns nr asdu now fits.1 h
on_frame-IsSession s (s_frame nr) now fits h =
    acknowledge-Ensures IsSession s nr (λ within. acknowledged-IsSession s nr fits within h)
on_frame-IsSession s (u_frame f) now fits h = on_u_frame-IsSession s f h

transmit_s-IsSession : (s : Session) → IsSession s → IsSession (transmit_s s)
unfolding transmit_s seq_distance
transmit_s-IsSession s h = ground arith

test_link-IsSession : (s : Session) (now : ℕ) → IsSession s → IsSession (test_link s now)
unfolding test_link
test_link-IsSession s now h = ground arith

pub tended-IsSession : (s : Session) (now : ℕ) → IsSession s → IsSession (tended s now)
unfolding tended
tended-IsSession s now h = ground (
  arith,
  test_link-IsSession s now h,
  test_link-IsSession (transmit_s s) now (transmit_s-IsSession s h),
)

pub on_apdu_keeps :
    (s : Session) (a : Apdu) (now : ℕ)
    → IsApdu a
    → IsSession s
    → Ensures IsSession (on_apdu s a now)
unfolding on_apdu
on_apdu_keeps s a now fits h =
    let heard : IsSession (record s { last_rx = now }) = ground arith in
    >>=-Ensures IsSession IsSession (on_frame (record s { last_rx = now }) a now) _
      (on_frame-IsSession (record s { last_rx = now }) a now fits heard)
      (λ done k. flush-IsSession done now k)

-- A valid frame that is accepted leaves the invariant standing.
on_apdu-IsSession :
    (s s' : Session) (a : Apdu) (now : ℕ)
    → IsApdu a
    → IsSession s
    → on_apdu s a now ≡ ok s'
    → IsSession s'
on_apdu-IsSession s s' a now fits h e = ensures_ok IsSession _ s' (on_apdu_keeps s a now fits h) e

pub drain-IsSession : (s : Session) → IsSession s → IsSession (drain s).1
unfolding drain
drain-IsSession s h = ground arith
