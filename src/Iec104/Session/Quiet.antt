-- ===== src/Iec104/Session/Quiet.antt =====
-- What an output carries to the peer, and the calls that add nothing to it.
use grid_edge_gateway.Prelude.{
  ℕ, ◌+◌, ◌-◌, ◌≤◌, ◌<◌, ◌≡◌, refl, sym, ap, ◌∙◌, List, [], ◌∷◌, ◌++◌, Bool, true, false, not, ◌==◌,
  Option, some, none, length, if◌then◌else◌, leb, arith, ◌&&◌, append_assoc, append-nil, Result, ok,
  err, panic,
}
use grid_edge_gateway.Iec104.Apci.{
  Error, AreBytes, max_length, Apdu, i_frame, s_frame, u_frame, UFunction, start_dt_act,
  start_dt_con, stop_dt_act, stop_dt_con, test_fr_act, test_fr_con, seq_modulo, seq_distance,
  IsApdu,
}
use grid_edge_gateway.Iec104.Session.{
  Session, Output, received, on_u_frame, on_frame, test_link, transmit_s, transmit, is_none,
  expired, emit, transmitted, started, stopped,
}
use grid_edge_gateway.Iec104.Session.Calls.{
  counted, answered, Ensures, acknowledge-Ensures, on_i_frame-Ensures, tended,
}
use grid_edge_gateway.Iec104.Apci
use grid_edge_gateway.Iec104.Apci.Frames.{parse-encode}

-- The ASDU that an output carries to the peer, read back from its bytes.
abbrev pub asdu_of : Apdu → List (List ℕ)
asdu_of (i_frame ns nr asdu) = asdu ∷ []
asdu_of (s_frame nr) = []
asdu_of (u_frame f) = []

abbrev of_answer : Result Error (Option (Apdu × ℕ)) → List (List ℕ)
of_answer (ok (some (a, n))) = asdu_of a
of_answer (ok none) = []
of_answer (err e) = []
of_answer panic = []

unfoldable pub carried : Output → List (List ℕ)
carried (transmitted b) = of_answer (Apci.parse b)
carried (received r) = []
carried started = []
carried stopped = []

unfoldable pub sent : List Output → List (List ℕ)
sent [] = []
sent (o ∷ os) = carried o ++ sent os

-- All that was handed over and not dropped: what went out, and behind it what still waits.
abbrev pub ledger : Session → List (List ℕ)
ledger s = sent s.out ++ s.queue

-- An ASDU that fits one APDU.
abbrev pub Fits : List ℕ → Type 0
Fits asdu = (length asdu + 4 ≤ max_length) × AreBytes asdu

sent-append : (xs ys : List Output) → sent (xs ++ ys) ≡ sent xs ++ sent ys
unfolding sent
sent-append [] ys = refl
sent-append (o ∷ xs) ys =
    ap (◌++◌ (carried o)) (sent-append xs ys) ∙ sym (append_assoc (carried o) (sent xs) (sent ys))

pub carried-encode : (a : Apdu) → IsApdu a → carried (transmitted (Apci.encode a)) ≡ asdu_of a
unfolding carried
carried-encode a h = rw (rw append-nil at (parse-encode a [] h))

-- One more output at the end.
pub sent_snoc : (xs : List Output) (o : Output) → sent (xs ++ (o ∷ [])) ≡ sent xs ++ carried o
sent_snoc xs o =
    sent-append xs (o ∷ []) ∙ ap (◌++◌ (sent xs)) (unfold sent in append-nil (carried o))

-- A call that touches neither the queue nor what the peer has been sent.
abbrev pub Quiet : Session → Session → Type 0
Quiet s s' = (s'.queue ≡ s.queue) × (sent s'.out ≡ sent s.out) × (s'.cfg ≡ s.cfg)

Quiet-trans : (s t u : Session) → Quiet s t → Quiet t u → Quiet s u
Quiet-trans s t u (q, o, c) (q', o', c') = (q' ∙ q, o' ∙ o, c' ∙ c)

emit-Quiet : (s : Session) (o : Output) → carried o ≡ [] → Quiet s (emit s o)
emit-Quiet s o e =
    (refl, sent_snoc s.out o ∙ ap (◌++◌ (sent s.out)) e ∙ append-nil (sent s.out), refl)

transmit_s-Quiet : (s : Session) → s.recv_seq < seq_modulo → Quiet s (transmit_s s)
unfolding transmit_s
transmit_s-Quiet s h = emit-Quiet s _ (carried-encode (s_frame s.recv_seq) h)

transmit_u-Quiet : (s : Session) (f : UFunction) → Quiet s (transmit s (u_frame f))
unfolding transmit
transmit_u-Quiet s f = emit-Quiet s _ (carried-encode (u_frame f) tt)

if-Quiet : (b : Bool) (s x y : Session) → Quiet s x → Quiet s y → Quiet s (if b then x else y)
if-Quiet true s x y h k = h
if-Quiet false s x y h k = k

answered-Quiet : (s : Session) → s.recv_seq < seq_modulo → Quiet s (answered s)
unfolding answered
answered-Quiet s h =
    if-Quiet (leb s.w (seq_distance s.last_acked_to_peer s.recv_seq)) s (transmit_s s) s
      (transmit_s-Quiet s h) (refl, refl, refl)

counted-Quiet :
    (s : Session) (nr now : ℕ) (o : Output) → carried o ≡ [] → Quiet s (counted s nr now o)
unfolding counted
counted-Quiet s nr now o e =
    (refl, sent_snoc s.out o ∙ ap (◌++◌ (sent s.out)) e ∙ append-nil (sent s.out), refl)

-- A control frame of ours and what is reported to the application behind it.
confirm-Quiet :
    (s s' : Session) (f : UFunction) (b : Bool) (o : Output)
    → Quiet s s'
    → carried o ≡ []
    → (on : Bool)
    → Quiet s (
        if b
        then emit (record (transmit s' (u_frame f)) { is_started = on }) o
        else transmit s' (u_frame f))
unfolding transmit
confirm-Quiet s s' f b o h e on =
    let confirmed = transmit_u-Quiet s' f in
    if-Quiet b s _ _ (h.0, sent_snoc _ o ∙ ap (◌++◌ _) e ∙ append-nil _ ∙ confirmed.1 ∙ h.1, h.2)
      (h.0, confirmed.1 ∙ h.1, h.2)

on_u_frame-Quiet :
    (s : Session) (f : UFunction) → s.recv_seq < seq_modulo → Quiet s (on_u_frame s f)
unfolding on_u_frame
on_u_frame-Quiet s start_dt_act h =
    confirm-Quiet s s start_dt_con (not s.is_started) started (refl, refl, refl)
      (unfold carried in refl) true
on_u_frame-Quiet s stop_dt_act h =
    confirm-Quiet s _ stop_dt_con _ stopped
      (if-Quiet (not (s.recv_seq == s.last_acked_to_peer)) s (transmit_s s) s (transmit_s-Quiet s h)
        (refl, refl, refl))
      (unfold carried in refl) false
on_u_frame-Quiet s test_fr_act h = transmit_u-Quiet s test_fr_con
on_u_frame-Quiet s f h = (refl, refl, refl)

pub on_frame-Quiet :
    (s : Session) (a : Apdu) (now : ℕ)
    → s.recv_seq < seq_modulo
    → Ensures (Quiet s) (on_frame s a now)
unfolding on_frame
on_frame-Quiet s (i_frame ns nr asdu) now h =
    on_i_frame-Ensures (Quiet s) s ns nr asdu now λ e within r.
      Quiet-trans s (counted s nr now (received r)) (answered (counted s nr now (received r)))
        (counted-Quiet s nr now (received r) (unfold carried in refl))
        (answered-Quiet (counted s nr now (received r)) (unfold counted in omega arith))
on_frame-Quiet s (s_frame nr) now h =
    acknowledge-Ensures (Quiet s) s nr (λ within. (refl, refl, refl))
on_frame-Quiet s (u_frame f) now h = on_u_frame-Quiet s f h

pub tended-Quiet : (s : Session) (now : ℕ) → s.recv_seq < seq_modulo → Quiet s (tended s now)
unfolding tended test_link
tended-Quiet s now h =
    let acked : Session = if expired s.unacked_rx_since now s.t2 then transmit_s s else s in
    let quiet : Quiet s acked =
      if-Quiet (expired s.unacked_rx_since now s.t2) s (transmit_s s) s (transmit_s-Quiet s h)
        (refl, refl, refl) in
    if-Quiet (is_none acked.test_sent && leb acked.t3 (now - acked.last_rx)) s _ acked
      (Quiet-trans s acked (transmit acked (u_frame test_fr_act)) quiet
        (transmit_u-Quiet acked test_fr_act))
      quiet
