-- ===== src/Iec104/Session/Receipts.antt =====
-- Since when the peer waits for an acknowledgement: the timer t2 over a history of calls.
use mathlib.Core.Path.{ap₂}
use grid_edge_gateway.Prelude.{
  ℕ, ◌+◌, ◌-◌, ◌%◌, ◌≡◌, refl, sym, ◌∙◌, ap, List, [], ◌∷◌, ◌++◌, All, none, ◌⊎◌, inl, inr,
  Bool-cases, length, drop, length-append, drop_all, arith, ok, err, panic, ◌>>=◌,
}
use grid_edge_gateway.Iec104.Apci.{
  i_frame, s_frame, u_frame, UFunction, start_dt_act, seq_modulo, seq_distance,
}
use grid_edge_gateway.Iec104.Session.{
  Config, Session, Output, received, Step, new, drain, send_front, flush, enqueue, send_raw,
  on_u_frame, on_frame, on_apdu, on_i_frame, transmit_s, test_link, acknowledge, get_or_insert,
  front, expired,
}
use grid_edge_gateway.Iec104.Session.Flush.{flush_keeps}
use grid_edge_gateway.Iec104.Session.Calls.{
  counted, answered, Ensures, ensures_ok, acknowledge-Ensures, on_i_frame-Ensures, on_tick-Ensures,
  >>=-Ensures, tended,
}
use grid_edge_gateway.Iec104.Session.Invariant.{IsConfig, IsSession, new-IsSession}
use grid_edge_gateway.Iec104.Session.History.{
  Call, receives, ticks, drains, sends, IsCall, call, run, call-IsSession,
}

-- The times at which I-frames of the peer arrived, oldest first, when a call has come.
abbrev pub arrived : ℕ × Call → List ℕ → List ℕ
arrived (now, receives (i_frame ns nr asdu)) times = times ++ (now ∷ [])
arrived (now, receives (s_frame nr)) times = times
arrived (now, receives (u_frame f)) times = times
arrived (now, ticks) times = times
arrived (now, drains) times = times
arrived (now, sends asdu) times = times

-- Those of the frames that the peer has not seen acknowledged, which are the last ones.
abbrev pub owed : Session → List ℕ → List ℕ
owed s times = drop (length times - seq_distance s.last_acked_to_peer s.recv_seq) times

-- The arrivals that are still to be acknowledged after a history.
unfoldable pub waiting_since : Session → List (ℕ × Call) → List ℕ → List ℕ
waiting_since s [] times = times
waiting_since s (c ∷ cs) times = elim (call s c) [
  | ok s' ↦ waiting_since s' cs (owed s' (arrived c times))
  | err e ↦ []
  | panic ↦ []
]

-- What a call does to the numbers of the peer's frames and to t2: nothing, or all are acknowledged,
-- or one more frame is counted.
abbrev Same : Session → Session → Type 0
Same s s' =
    (s'.recv_seq ≡ s.recv_seq)
    × (s'.last_acked_to_peer ≡ s.last_acked_to_peer)
    × (s'.unacked_rx_since ≡ s.unacked_rx_since)

abbrev Clear : Session → Type 0
Clear s' = (s'.last_acked_to_peer ≡ s'.recv_seq) × (s'.unacked_rx_since ≡ none)

abbrev Counted : ℕ → Session → Session → Type 0
Counted now s s' =
    (s'.recv_seq ≡ (s.recv_seq + 1) % seq_modulo)
    × (s'.last_acked_to_peer ≡ s.last_acked_to_peer)
    × (s'.unacked_rx_since ≡ get_or_insert s.unacked_rx_since now)

abbrev Settled : Session → Session → Type 0
Settled s s' = Same s s' ⊎ Clear s'

abbrev Moved : ℕ → Session → Session → Type 0
Moved now s s' = Counted now s s' ⊎ Clear s'

Settled-Moved : (now : ℕ) (s m s' : Session) → Moved now s m → Settled m s' → Moved now s s'
Settled-Moved now s m s' h (inr c) = inr c
Settled-Moved now s m s' (inl (x, y, z)) (inl (x', y', z')) = inl (x' ∙ x, y' ∙ y, z' ∙ z)
Settled-Moved now s m s' (inr (x, y)) (inl (x', y', z')) = inr (y' ∙ (x ∙ sym x'), z' ∙ y)

Settled-Settled : (s m s' : Session) → Settled s m → Settled m s' → Settled s s'
Settled-Settled s m s' h (inr c) = inr c
Settled-Settled s m s' (inl (x, y, z)) (inl (x', y', z')) = inl (x' ∙ x, y' ∙ y, z' ∙ z)
Settled-Settled s m s' (inr (x, y)) (inl (x', y', z')) = inr (y' ∙ (x ∙ sym x'), z' ∙ y)

flush-Settled : (s : Session) (now : ℕ) → Settled s (flush s now)
unfolding flush
flush-Settled s now =
    flush_keeps (Settled s) now (λ m asdu rest q on room h. inr (unfold send_front in (refl, refl)))
      (length s.queue) s (inl (refl, refl, refl))

transmit_s-Settled : (s : Session) → Settled s (transmit_s s)
unfolding transmit_s
transmit_s-Settled s = inr (refl, refl)

test_link-Settled : (s : Session) (now : ℕ) → Settled s (test_link s now)
unfolding test_link
test_link-Settled s now = ground arith

tended-Settled : (s : Session) (now : ℕ) → Settled s (tended s now)
unfolding tended
tended-Settled s now = elim (Bool-cases (expired s.unacked_rx_since now s.t2)) [
  | inl due ↦ rw due (
      Settled-Settled s (transmit_s s) (test_link (transmit_s s) now) (transmit_s-Settled s)
        (test_link-Settled (transmit_s s) now))
  | inr early ↦ rw early (test_link-Settled s now)
]

on_u_frame-Settled : (s : Session) (f : UFunction) → Settled s (on_u_frame s f)
unfolding on_u_frame
on_u_frame-Settled s start_dt_act = ground arith
on_u_frame-Settled s f = ground arith

counted-Moved :
    (s : Session) (nr now : ℕ) (o : Output) → Moved now s (answered (counted s nr now o))
unfolding counted answered transmit_s
counted-Moved s nr now o = ground arith

-- t2 runs since the arrival of the oldest of the frames that are to be acknowledged.
abbrev pub IsSince : Session → List ℕ → Type 0
IsSince s times =
    (s.unacked_rx_since ≡ front times)
    × (length times ≡ seq_distance s.last_acked_to_peer s.recv_seq)

same_distance : (n : ℕ) → seq_distance n n ≡ 0
unfolding seq_distance
same_distance n = omega arith

Clear-IsSince : (s' : Session) (times : List ℕ) → Clear s' → IsSince s' (owed s' times)
Clear-IsSince s' times (numbers, timer) =
    let none_owed : seq_distance s'.last_acked_to_peer s'.recv_seq ≡ 0 =
      ap (λ n. seq_distance n s'.recv_seq) numbers ∙ same_distance s'.recv_seq in
    rw (none_owed, drop_all (length times - 0) times (omega arith)) (timer, refl)

Same-IsSince :
    (s s' : Session) (times : List ℕ) → Same s s' → IsSince s times → IsSince s' (owed s' times)
Same-IsSince s s' times (numbers, last, timer) (since, count) =
    let all : length times ≡ seq_distance s'.last_acked_to_peer s'.recv_seq =
      count ∙ sym (ap₂ seq_distance last numbers) in
    let whole : length times - seq_distance s'.last_acked_to_peer s'.recv_seq ≡ 0 =
      omega (arith, all) in
    rw whole (timer ∙ since, all)

Settled-IsSince :
    (s s' : Session) (times : List ℕ) → Settled s s' → IsSince s times → IsSince s' (owed s' times)
Settled-IsSince s s' times (inl same) h = Same-IsSince s s' times same h
Settled-IsSince s s' times (inr clear) h = Clear-IsSince s' times clear

get_or_insert-front :
    (times : List ℕ) (now : ℕ) → get_or_insert (front times) now ≡ front (times ++ (now ∷ []))
get_or_insert-front [] now = refl
get_or_insert-front (t ∷ times) now = refl

one_more :
    (s : Session)
    → IsSession s
    → seq_distance s.last_acked_to_peer ((s.recv_seq + 1) % seq_modulo)
      ≡ seq_distance s.last_acked_to_peer s.recv_seq + 1
unfolding seq_distance
one_more s h = ground (arith, h.receiving, h.config)

Counted-IsSince :
    (now : ℕ) (s s' : Session) (times : List ℕ)
    → IsSession s
    → Counted now s s'
    → IsSince s times
    → IsSince s' (owed s' (times ++ (now ∷ [])))
Counted-IsSince now s s' times ok_s (numbers, last, timer) (since, count) =
    let distance : seq_distance s'.last_acked_to_peer s'.recv_seq
        ≡ seq_distance s.last_acked_to_peer s.recv_seq + 1 =
      ap₂ seq_distance last numbers ∙ one_more s ok_s in
    let all : length (times ++ (now ∷ [])) ≡ seq_distance s'.last_acked_to_peer s'.recv_seq =
      omega (arith, distance, count, length-append times (now ∷ [])) in
    let whole : length (times ++ (now ∷ [])) - seq_distance s'.last_acked_to_peer s'.recv_seq ≡ 0 =
      omega (arith, all) in
    rw whole (timer ∙ (ap (λ o. get_or_insert o now) since ∙ get_or_insert-front times now), all)

Moved-IsSince :
    (now : ℕ) (s s' : Session) (times : List ℕ)
    → IsSession s
    → Moved now s s'
    → IsSince s times
    → IsSince s' (owed s' (times ++ (now ∷ [])))
Moved-IsSince now s s' times h (inl counts) since = Counted-IsSince now s s' times h counts since
Moved-IsSince now s s' times h (inr clear) since = Clear-IsSince s' (times ++ (now ∷ [])) clear

Ensures-map :
    (P Q : Session → Type 0) (r : Step) → ((s : Session) → P s → Q s) → Ensures P r → Ensures Q r
Ensures-map P Q (ok s) f h = f s h
Ensures-map P Q (err e) f h = tt
Ensures-map P Q panic f h = tt

on_i_frame-Moved :
    (s : Session) (ns nr : ℕ) (asdu : List ℕ) (now : ℕ)
    → Ensures (Moved now s) (on_i_frame s ns nr asdu now)
on_i_frame-Moved s ns nr asdu now =
    on_i_frame-Ensures (Moved now s) s ns nr asdu now
      (λ e within r. counted-Moved s nr now (received r))

acknowledge-Settled : (s : Session) (nr : ℕ) → Ensures (Settled s) (acknowledge s nr)
acknowledge-Settled s nr = acknowledge-Ensures (Settled s) s nr (λ within. inl (refl, refl, refl))

drain-Settled : (s : Session) → Settled s (drain s).1
unfolding drain
drain-Settled s = inl (refl, refl, refl)

send_raw-Settled : (s : Session) (asdu : List ℕ) (now : ℕ) → Settled s (send_raw s asdu now)
unfolding send_raw enqueue
send_raw-Settled s asdu now = flush-Settled (enqueue s asdu) now

new-IsSince : (c : Config) (t0 : ℕ) → IsSince (new c t0) []
unfolding new seq_distance
new-IsSince c t0 = (refl, refl)

call-IsSince :
    (s : Session) (c : ℕ × Call) (times : List ℕ)
    → IsSession s
    → IsSince s times
    → Ensures (λ s'. IsSince s' (owed s' (arrived c times))) (call s c)
unfolding call on_apdu on_frame
call-IsSince s (now, receives (i_frame ns nr asdu)) times h since =
    >>=-Ensures (Moved now s) _ (on_i_frame (record s { last_rx = now }) ns nr asdu now) _
      (on_i_frame-Moved (record s { last_rx = now }) ns nr asdu now)
      (λ m moved.
        Moved-IsSince now s (flush m now) times h
          (Settled-Moved now s m (flush m now) moved (flush-Settled m now)) since)
call-IsSince s (now, receives (s_frame nr)) times h since =
    >>=-Ensures (Settled s) _ (acknowledge (record s { last_rx = now }) nr) _
      (acknowledge-Settled (record s { last_rx = now }) nr)
      (λ m settled.
        Settled-IsSince s (flush m now) times
          (Settled-Settled s m (flush m now) settled (flush-Settled m now)) since)
call-IsSince s (now, receives (u_frame f)) times h since =
    let m = on_u_frame (record s { last_rx = now }) f in
    Settled-IsSince s (flush m now) times
      (Settled-Settled s m (flush m now) (on_u_frame-Settled (record s { last_rx = now }) f)
        (flush-Settled m now))
      since
call-IsSince s (now, ticks) times h since =
    on_tick-Ensures _ s now (Settled-IsSince s (tended s now) times (tended-Settled s now) since)
call-IsSince s (now, drains) times h since =
    Settled-IsSince s (drain s).1 times (drain-Settled s) since
call-IsSince s (now, sends asdu) times h since =
    Settled-IsSince s (send_raw s asdu now) times (send_raw-Settled s asdu now) since

-- Along a history, given what the first call comes to.
run-IsSince :
    (s s' : Session) (cs : List (ℕ × Call)) (times : List ℕ)
    → All IsCall cs
    → IsSession s
    → IsSince s times
    → run s cs ≡ ok s'
    → IsSince s' (waiting_since s cs times)
unfolding run waiting_since
run-IsSince s s' [] times fits h since e = ensures_ok (λ m. IsSince m times) (ok s) s' since e
run-IsSince s s' (c ∷ cs) times (fit, fits) h since e =
    go (λ m k since' e'. run-IsSince m s' cs (owed m (arrived c times)) fits k since' e') (call s c)
      (call-IsSession s c fit h) (call-IsSince s c times h since) e
  where
    go :
        ((m : Session)
          → IsSession m
          → IsSince m (owed m (arrived c times))
          → run m cs ≡ ok s'
          → IsSince s' (waiting_since m cs (owed m (arrived c times))))
        → (r : Step) → Ensures IsSession r
        → Ensures (λ m. IsSince m (owed m (arrived c times))) r
        → (r >>= (λ m. run m cs)) ≡ ok s'
        → IsSince s' (elim r [
          | ok m ↦ waiting_since m cs (owed m (arrived c times))
          | err x ↦ []
          | panic ↦ []
        ])
    go next (ok m) k since' e' = next m k since' e'
    go next (err x) k since' e' = absurd (cc e')
    go next panic k since' e' = absurd (cc e')

-- After any history of calls that keeps the connection, at any times and with any valid frames from the peer,
-- t2 runs since the arrival of the oldest of the peer's I-frames that are still to be acknowledged, and it is
-- off where there is none. There are as many of those as the sequence numbers say. The parameters are within their bounds.
pub run-new-IsSince :
    (c : Config) (t0 : ℕ) (cs : List (ℕ × Call)) (s : Session)
    → IsConfig c
    → All IsCall cs
    → run (new c t0) cs ≡ ok s
    → (s.unacked_rx_since ≡ front (waiting_since (new c t0) cs []))
      × (length (waiting_since (new c t0) cs []) ≡ seq_distance s.last_acked_to_peer s.recv_seq)
run-new-IsSince c t0 cs s h fits e =
    run-IsSince (new c t0) s cs [] fits (new-IsSession c t0 h) (new-IsSince c t0) e
