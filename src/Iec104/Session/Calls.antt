-- ===== src/Iec104/Session/Calls.antt =====
-- What the calls of a session come to: the accepted frames, and the reasons to close.
use grid_edge_gateway.Prelude.{
  ℕ, ◌+◌, ◌%◌, ◌≤◌, ◌<◌, ◌≡◌, refl, subst, List, Bool, true, false, ◌==◌, inl, inr, length, drop,
  if◌then◌else◌, ltb, leb, Bool-cases, ge→ltb, lt→ltb, ltb→ge, ltb→lt, eq→==, ne→==, ==→eq, ==→ne,
  ◌≢◌, Result, ok, err, panic, ◌>>=◌,
}
use grid_edge_gateway.Iec104.Apci.{seq_modulo, seq_distance}
use grid_edge_gateway.Iec104.Element.{AsduError}
use grid_edge_gateway.Iec104.Asdu.{Asdu}
use grid_edge_gateway.Iec104.Asdu
use grid_edge_gateway.Iec104.Session.{
  Session, Output, received, Close, sequence_error, bad_acknowledge, Step, acknowledge, deliver,
  on_i_frame, on_tick, test_link, transmit_s, get_or_insert, emit, expired, front, ack_timeout,
  test_timeout,
}

-- The session after an acknowledgement of `count` frames up to `nr`.
abbrev pub acknowledged : Session → ℕ → Session
acknowledged s nr = record s {
  unacked = drop (seq_distance s.oldest_unacked_seq nr) s.unacked;
  oldest_unacked_seq = nr;
}

-- The session when an I-frame has been counted and acknowledged, and its ASDU delivered as `o`.
unfoldable pub counted : Session → ℕ → ℕ → Output → Session
counted s nr now o =
    let acked = acknowledged (record s { recv_seq = (s.recv_seq + 1) % seq_modulo }) nr in
    emit (record acked { unacked_rx_since = get_or_insert s.unacked_rx_since now }) o

unfoldable pub answered : Session → Session
answered s = if leb s.w (seq_distance s.last_acked_to_peer s.recv_seq) then transmit_s s else s

-- What an I-frame leads to, by the answer of the ASDU decoder.
abbrev pub by_answer : Result AsduError Asdu → (Output → Session) → Step
by_answer (ok a) f = ok (f (received (ok a)))
by_answer (err e) f = ok (f (received (err e)))
by_answer panic f = panic

pub acknowledge_within :
    (s : Session) (nr : ℕ)
    → seq_distance s.oldest_unacked_seq nr ≤ length s.unacked
    → acknowledge s nr ≡ ok (acknowledged s nr)
unfolding acknowledge
acknowledge_within s nr h = rw (ge→ltb (length s.unacked) (seq_distance s.oldest_unacked_seq nr) h)

deliver_answer :
    (s : Session) (asdu : List ℕ) (r : Result AsduError Asdu)
    → Asdu.decode asdu ≡ r
    → (deliver s asdu >>= (λ done. ok (answered done))) ≡ by_answer r (λ o. answered (emit s o))
unfolding deliver
deliver_answer s asdu (ok a) e = rw (e, deliver)
deliver_answer s asdu (err x) e = rw (e, deliver)
deliver_answer s asdu panic e = rw (e, deliver)

-- An I-frame with the expected number, whose N(R) lies within our window, is counted, takes the
-- frames up to N(R) off the window, starts t2 where it was not running, reaches the application as
-- the decoder's answer, and is acknowledged where it makes w of the peer's frames unacknowledged.
pub on_i_frame_accepts :
    (s : Session) (ns nr : ℕ) (asdu : List ℕ) (now : ℕ)
    → ns ≡ s.recv_seq
    → seq_distance s.oldest_unacked_seq nr ≤ length s.unacked
    → on_i_frame s ns nr asdu now
      ≡ by_answer (Asdu.decode asdu) (λ o. answered (counted s nr now o))
unfolding on_i_frame counted
on_i_frame_accepts s ns nr asdu now e h =
    rw
      (
        eq→== ns s.recv_seq e,
        acknowledge_within (record s { recv_seq = (s.recv_seq + 1) % seq_modulo }) nr h,
      )
      (unfold answered in deliver_answer _ asdu (Asdu.decode asdu) refl)

-- What holds of the session where the call keeps the connection.
abbrev pub Ensures {ℓ} : (Session → Type ℓ) → Step → Type ℓ
Ensures P (ok s) = P s
Ensures P (err e) = Unit
Ensures P panic = Unit

pub ensures_ok {ℓ} : (P : Session → Type ℓ) (r : Step) (s : Session) → Ensures P r → r ≡ ok s → P s
ensures_ok P (ok s') s h e = subst P (cc) h
ensures_ok P (err x) s h e = cc
ensures_ok P panic s h e = cc

-- An acknowledgement outside our window closes the connection; any other gives `acknowledged`.
pub acknowledge-Ensures {ℓ} :
    (P : Session → Type ℓ) (s : Session) (nr : ℕ)
    → (seq_distance s.oldest_unacked_seq nr ≤ length s.unacked → P (acknowledged s nr))
    → Ensures P (acknowledge s nr)
unfolding acknowledge
acknowledge-Ensures P s nr h =
    elim (Bool-cases (ltb (length s.unacked) (seq_distance s.oldest_unacked_seq nr))) [
      | inl beyond ↦ rw beyond tt
      | inr within ↦ rw within (h (ltb→ge _ _ within))
    ]

by_answer-Ensures {ℓ} :
    (P : Session → Type ℓ) (r : Result AsduError Asdu) (f : Output → Session)
    → ((x : Result AsduError Asdu) → P (f (received x)))
    → Ensures P (by_answer r f)
by_answer-Ensures P (ok a) f h = h (ok a)
by_answer-Ensures P (err e) f h = h (err e)
by_answer-Ensures P panic f h = tt

pub bad_acknowledge_lem :
    (s : Session) (nr : ℕ)
    → length s.unacked < seq_distance s.oldest_unacked_seq nr
    → acknowledge s nr ≡ err (bad_acknowledge nr, s)
unfolding acknowledge
bad_acknowledge_lem s nr h = rw (lt→ltb (length s.unacked) (seq_distance s.oldest_unacked_seq nr) h)

-- An I-frame with another number than the expected one closes the connection and leaves the session
-- as it was; one with the expected number and an N(R) beyond our window closes it too.
pub on_i_frame_rejects :
    (s : Session) (ns nr : ℕ) (asdu : List ℕ) (now : ℕ)
    → (ns ≢ s.recv_seq → on_i_frame s ns nr asdu now ≡ err (sequence_error s.recv_seq ns, s))
      × (ns ≡ s.recv_seq
          → length s.unacked < seq_distance s.oldest_unacked_seq nr
          → on_i_frame s ns nr asdu now
            ≡ err (bad_acknowledge nr, record s { recv_seq = (s.recv_seq + 1) % seq_modulo }))
unfolding on_i_frame
on_i_frame_rejects s ns nr asdu now = (
  λ other. rw (ne→== ns s.recv_seq other),
  λ e beyond. rw (
    eq→== ns s.recv_seq e,
    bad_acknowledge_lem (record s { recv_seq = (s.recv_seq + 1) % seq_modulo }) nr beyond,
  ),
)

pub on_i_frame-Ensures {ℓ} :
    (P : Session → Type ℓ) (s : Session) (ns nr : ℕ) (asdu : List ℕ) (now : ℕ)
    → (ns ≡ s.recv_seq
        → seq_distance s.oldest_unacked_seq nr ≤ length s.unacked
        → (r : Result AsduError Asdu) → P (answered (counted s nr now (received r))))
    → Ensures P (on_i_frame s ns nr asdu now)
on_i_frame-Ensures P s ns nr asdu now h = elim (Bool-cases (ns == s.recv_seq)) [
  | inr other ↦ rw ((on_i_frame_rejects s ns nr asdu now).0 (==→ne ns s.recv_seq other)) tt
  | inl same ↦ elim (Bool-cases (ltb (length s.unacked) (seq_distance s.oldest_unacked_seq nr))) [
    | inl beyond ↦
        rw ((on_i_frame_rejects s ns nr asdu now).1 (==→eq ns s.recv_seq same) (ltb→lt _ _ beyond))
          tt
    | inr within ↦
        rw (on_i_frame_accepts s ns nr asdu now (==→eq ns s.recv_seq same) (ltb→ge _ _ within)) (
          by_answer-Ensures P (Asdu.decode asdu) (λ o. answered (counted s nr now o))
            (h (==→eq ns s.recv_seq same) (ltb→ge _ _ within)))
  ]
]

pub >>=-Ensures {ℓ κ} :
    (P : Session → Type ℓ) (Q : Session → Type κ) (r : Step) (f : Session → Step)
    → Ensures P r
    → ((s : Session) → P s → Ensures Q (f s))
    → Ensures Q (r >>= f)
>>=-Ensures P Q (ok s) f h next = next s h
>>=-Ensures P Q (err e) f h next = tt
>>=-Ensures P Q panic f h next = tt

-- What a tick leads to when no frame and no test of ours is overdue.
unfoldable pub tended : Session → ℕ → Session
tended s now = test_link (if expired s.unacked_rx_since now s.t2 then transmit_s s else s) now

-- A tick closes the connection where the oldest of our frames or our test is overdue.
pub on_tick_lem :
    (s : Session) (now : ℕ)
    → on_tick s now ≡ (
        if expired (front s.unacked) now s.t1
        then err (ack_timeout, s)
        else if expired s.test_sent now s.t1
        then err (test_timeout, s)
        else ok (tended s now))
unfolding on_tick tended
on_tick_lem s now = refl

two_checks-Ensures {ℓ} :
    (P : Session → Type ℓ) (first second : Bool) (x y : Close × Session) (s : Session)
    → P s
    → Ensures P (if first then err x else if second then err y else ok s)
two_checks-Ensures P true second x y s h = tt
two_checks-Ensures P false true x y s h = tt
two_checks-Ensures P false false x y s h = h

pub on_tick-Ensures {ℓ} :
    (P : Session → Type ℓ) (s : Session) (now : ℕ) → P (tended s now) → Ensures P (on_tick s now)
on_tick-Ensures P s now h = rw (on_tick_lem s now) (
    two_checks-Ensures P (expired (front s.unacked) now s.t1) (expired s.test_sent now s.t1)
      (ack_timeout, s) (test_timeout, s) (tended s now) h)

pub ×-Ensures {ℓ κ} :
    (P : Session → Type ℓ) (Q : Session → Type κ) (r : Step)
    → Ensures P r
    → Ensures Q r
    → Ensures (λ s. P s × Q s) r
×-Ensures P Q (ok s) h k = (h, k)
×-Ensures P Q (err e) h k = tt
×-Ensures P Q panic h k = tt
