-- ===== src/Iec104/Session/Faults.antt =====
-- Which frames close the connection.
use grid_edge_gateway.Prelude.{
  ℕ, ◌+◌, ◌%◌, ◌≤◌, ◌<◌, ◌≡◌, ◌≢◌, refl, sym, subst, List, ◌↔◌, ◌⊎◌, inl, inr, length, ltb, ltb→lt,
  ltb→ge, Bool-cases, ◌==◌, ==→eq, ==→ne, arith, Result, ok, err, panic, ◌>>=◌,
}
use grid_edge_gateway.Iec104.Apci.{
  Apdu, i_frame, s_frame, u_frame, seq_modulo, seq_distance, IsApdu,
}
use grid_edge_gateway.Iec104.Apci.Streams.{seq_distance_lem}
use grid_edge_gateway.Iec104.Element.{AsduError}
use grid_edge_gateway.Iec104.Asdu.{Asdu}
use grid_edge_gateway.Iec104.Asdu
use grid_edge_gateway.Iec104.Session.{
  Session, Output, Close, Step, on_i_frame, on_frame, on_apdu, flush,
}
use grid_edge_gateway.Iec104.Session.Calls.{
  by_answer, acknowledge_within, bad_acknowledge_lem, on_i_frame_accepts, on_i_frame_rejects,
}
use grid_edge_gateway.Iec104.Session.Invariant.{IsSession}

-- A number that a peer may acknowledge: that of the oldest frame that we await, or of one up to the
-- next that we send.
abbrev pub IsAwaited : Session → ℕ → Type 0
IsAwaited s nr = (n : ℕ) × (n ≤ length s.unacked) × (nr ≡ (s.oldest_unacked_seq + n) % seq_modulo)

abbrev pub IsFaulty : Session → Apdu → Type 0
IsFaulty s (i_frame ns nr asdu) = (ns ≢ s.recv_seq) ⊎ (¬ IsAwaited s nr)
IsFaulty s (s_frame nr) = ¬ IsAwaited s nr
IsFaulty s (u_frame f) = ⊥

within-IsAwaited :
    (s : Session) (nr : ℕ)
    → IsSession s
    → nr < seq_modulo
    → (seq_distance s.oldest_unacked_seq nr ≤ length s.unacked) ↔ IsAwaited s nr
within-IsAwaited s nr h fits = (
  λ within.
      let forth =
        (seq_distance_lem s.oldest_unacked_seq nr (seq_distance s.oldest_unacked_seq nr)
          h.sending.oldest_fits fits (omega (arith, h.sending.window, h.config.k_fits))).0 in
      (seq_distance s.oldest_unacked_seq nr, within, forth refl),
  λ (n, few, e).
      let back =
        (seq_distance_lem s.oldest_unacked_seq nr n h.sending.oldest_fits fits
          (omega (arith, few, h.sending.window, h.config.k_fits))).1 in
      omega (arith, few, back e),
)

-- What a call does with a frame: it closes for a fault, or it does not close.
abbrev IsOpen : Step → Type 0
IsOpen (ok s) = Unit {0}
IsOpen (err e) = ⊥
IsOpen panic = Unit {0}

data Judged (s : Session) (a : Apdu) (r : Step) : Type 0 where
  faulty :
      IsFaulty s a → (c : Close) (s' : Session) → r ≡ err (c, s') → s'.out ≡ s.out → Judged s a r
  passed : ¬ IsFaulty s a → IsOpen r → Judged s a r

by_answer-IsOpen : (r : Result AsduError Asdu) (f : Output → Session) → IsOpen (by_answer r f)
by_answer-IsOpen (ok a) f = tt
by_answer-IsOpen (err e) f = tt
by_answer-IsOpen panic f = tt

on_i_frame-Judged :
    (s : Session) (ns nr : ℕ) (asdu : List ℕ) (now : ℕ)
    → IsSession s
    → nr < seq_modulo
    → Judged s (i_frame ns nr asdu) (on_i_frame s ns nr asdu now)
on_i_frame-Judged s ns nr asdu now h fits = elim (Bool-cases (ns == s.recv_seq)) [
  | inr other ↦
      let n = ==→ne ns s.recv_seq other in
      faulty (inl n) _ s ((on_i_frame_rejects s ns nr asdu now).0 n) refl
  | inl same ↦
      let e = ==→eq ns s.recv_seq same in
      elim (Bool-cases (ltb (length s.unacked) (seq_distance s.oldest_unacked_seq nr))) [
        | inl beyond ↦
            let far = ltb→lt _ _ beyond in
            faulty
              (inr
                (λ awaited. absurd (omega (arith, far, (within-IsAwaited s nr h fits).1 awaited))))
              _ _ ((on_i_frame_rejects s ns nr asdu now).1 e far) refl
        | inr near ↦
            let within = ltb→ge _ _ near in
            passed
              (λ fault. elim fault [
                | inl n ↦ n e
                | inr n ↦ n ((within-IsAwaited s nr h fits).0 within)
              ])
              (subst IsOpen (sym (on_i_frame_accepts s ns nr asdu now e within))
                (by_answer-IsOpen (Asdu.decode asdu) _))
      ]
]

on_frame-Judged :
    (s : Session) (a : Apdu) (now : ℕ) → IsSession s → IsApdu a → Judged s a (on_frame s a now)
unfolding on_frame
on_frame-Judged s (i_frame ns nr asdu) now h fits = on_i_frame-Judged s ns nr asdu now h fits.1
on_frame-Judged s (s_frame nr) now h fits =
    elim (Bool-cases (ltb (length s.unacked) (seq_distance s.oldest_unacked_seq nr))) [
      | inl beyond ↦
          let far = ltb→lt _ _ beyond in
          faulty (λ awaited. absurd (omega (arith, far, (within-IsAwaited s nr h fits).1 awaited)))
            _ s (bad_acknowledge_lem s nr far) refl
      | inr near ↦
          let within = ltb→ge _ _ near in
          passed (λ n. n ((within-IsAwaited s nr h fits).0 within))
            (subst IsOpen (sym (acknowledge_within s nr within)) tt)
    ]
on_frame-Judged s (u_frame f) now h fits = passed (λ fault. fault) tt

then_flush :
    (s : Session) (a : Apdu) (r : Step) (f : Session → Session)
    → Judged s a r
    → Judged s a (r >>= (λ done. ok (f done)))
then_flush s a r f (faulty fault c s' e same) = faulty fault c s' (rw e refl) same
then_flush s a (ok done) f (passed fine goes) = passed fine tt
then_flush s a (err e) f (passed fine goes) = elim goes [ ]
then_flush s a panic f (passed fine goes) = passed fine tt

heard-Judged :
    (s : Session) (a : Apdu) (now : ℕ) (r : Step)
    → Judged (record s { last_rx = now }) a r
    → Judged s a r
heard-Judged s (i_frame ns nr asdu) now r (faulty fault c s' e same) = faulty fault c s' e same
heard-Judged s (s_frame nr) now r (faulty fault c s' e same) = faulty fault c s' e same
heard-Judged s (u_frame f) now r (faulty fault c s' e same) = faulty fault c s' e same
heard-Judged s (i_frame ns nr asdu) now r (passed fine goes) = passed fine goes
heard-Judged s (s_frame nr) now r (passed fine goes) = passed fine goes
heard-Judged s (u_frame f) now r (passed fine goes) = passed fine goes

on_apdu-Judged :
    (s : Session) (a : Apdu) (now : ℕ) → IsSession s → IsApdu a → Judged s a (on_apdu s a now)
unfolding on_apdu
on_apdu-Judged s a now h fits =
    let heard : IsSession (record s { last_rx = now }) = ground arith in
    then_flush s a (on_frame (record s { last_rx = now }) a now) (λ done. flush done now)
      (heard-Judged s a now _ (on_frame-Judged (record s { last_rx = now }) a now heard fits))

open_contradiction : (r : Step) (e : Close × Session) → IsOpen r → r ≡ err e → ⊥
open_contradiction (ok s) e h k = absurd (cc k)
open_contradiction (err x) e h k = h
open_contradiction panic e h k = absurd (cc k)

-- A call that closes the connection leaves these outputs.
abbrev pub ClosesWith : List Output → Step → Type 0
ClosesWith out (ok s) = Unit {0}
ClosesWith out (err (c, s)) = s.out ≡ out
ClosesWith out panic = Unit {0}

IsOpen-ClosesWith : (out : List Output) (r : Step) → IsOpen r → ClosesWith out r
IsOpen-ClosesWith out (ok s) h = tt
IsOpen-ClosesWith out (err e) h = elim h [ ]
IsOpen-ClosesWith out panic h = tt

-- A valid frame closes the connection of a session that satisfies the invariant exactly where it is
-- an I-frame with another number than the expected one, or an I- or S-frame that acknowledges
-- none of our frames in the window, nor the one before them. Where it closes the connection, nothing
-- has been sent or handed to the application.
pub on_apdu_closes :
    (s : Session) (a : Apdu) (now : ℕ)
    → IsSession s
    → IsApdu a
    → (((e : Close × Session) × (on_apdu s a now ≡ err e)) ↔ IsFaulty s a)
      × ClosesWith s.out (on_apdu s a now)
on_apdu_closes s a now h fits = elim (on_apdu-Judged s a now h fits) [
  | faulty fault c s' e same ↦
      ((λ closed. fault, λ _. ((c, s'), e)), subst (ClosesWith s.out) (sym e) same)
  | passed fine goes ↦ (
    (λ (e, k). absurd (open_contradiction _ e goes k), λ fault. absurd (fine fault)),
    IsOpen-ClosesWith s.out _ goes,
  )
]
