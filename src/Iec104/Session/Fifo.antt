-- ===== src/Iec104/Session/Fifo.antt =====
-- No ASDU that the application hands over is lost, doubled or overtaken on its way to the stream.
use grid_edge_gateway.Prelude.{
  ℕ, ◌+◌, ◌≤◌, ◌<◌, ◌≡◌, refl, sym, subst, ap, ◌∙◌, List, [], ◌∷◌, ◌++◌, true, false, length, leb,
  arith, length-append, gt→leb, All-snoc, append_assoc, append-nil, All, ok,
}
use grid_edge_gateway.Iec104.Apci.{
  Error, AreBytes, max_length, Apdu, i_frame, s_frame, u_frame, UFunction, start_dt_act,
  start_dt_con, stop_dt_act, stop_dt_con, test_fr_act, test_fr_con, seq_modulo, seq_distance,
  IsApdu,
}
use grid_edge_gateway.Iec104.Session.{
  Config, Session, new, send_front, flush, enqueue, send_raw, on_frame, on_apdu, on_tick,
  transmitted,
}
use grid_edge_gateway.Iec104.Session.Flush.{flush_keeps}
use grid_edge_gateway.Iec104.Session.Calls.{
  Ensures, ensures_ok, >>=-Ensures, ×-Ensures, on_tick-Ensures, tended,
}
use grid_edge_gateway.Iec104.Session.Invariant.{
  IsSession, send_front-IsSession, on_frame-IsSession, enqueue-IsSession, new-IsSession,
  tended-IsSession, IsConfig,
}
use grid_edge_gateway.Iec104.Apci
use grid_edge_gateway.Iec104.Session.Quiet.{
  sent, ledger, Fits, Quiet, sent_snoc, carried-encode, on_frame-Quiet, tended-Quiet,
}
use grid_edge_gateway.Iec104.Session.History.{
  Call, receives, ticks, drains, sends, IsCall, call, run,
}

-- The session is consistent, what waits fits a frame, and the ledger reads `asdus`.
record Holds (c : Config) (asdus : List (List ℕ)) (s : Session) : Type 0 where
  configured : s.cfg ≡ c
  valid : IsSession s
  fits : All Fits s.queue
  reads : ledger s ≡ asdus

Quiet-Holds :
    (c : Config) (asdus : List (List ℕ)) (s s' : Session)
    → s.cfg ≡ c
    → All Fits s.queue
    → ledger s ≡ asdus
    → Quiet s s'
    → IsSession s'
    → Holds c asdus s'
Quiet-Holds c asdus s s' cfg fits reads (q, o, same) valid = record {
  configured = same ∙ cfg;
  valid = valid;
  fits = subst (All Fits) (sym q) fits;
  reads = rw (q, o) reads;
}

send_front-Holds :
    (c : Config) (asdus : List (List ℕ)) (now : ℕ) (s : Session) (asdu : List ℕ)
    (rest : List (List ℕ))
    → s.queue ≡ asdu ∷ rest
    → s.is_started ≡ true
    → length s.unacked < s.k
    → Holds c asdus s
    → Holds c asdus (send_front s now asdu rest)
send_front-Holds c asdus now s asdu rest q on room h =
    let all_fit : All Fits (asdu ∷ rest) = subst (All Fits) q h.fits in
    let sending = h.valid.sending in
    let receiving = h.valid.receiving in
    record {
      configured = unfold send_front in h.configured;
      valid = send_front-IsSession now s asdu rest q on room h.valid;
      fits = unfold send_front in all_fit.1;
      reads =
          unfold send_front in
          ap (λ front. front ++ rest)
            (sent_snoc s.out (transmitted (Apci.encode (i_frame s.send_seq s.recv_seq asdu)))
              ∙ ap (◌++◌ (sent s.out)) (
                  carried-encode (i_frame s.send_seq s.recv_seq asdu)
                    (sending.send_fits, receiving.recv_fits, all_fit.0.0, all_fit.0.1)))
          ∙ append_assoc (sent s.out) (asdu ∷ []) rest
          ∙ ap (◌++◌ (sent s.out)) (sym q)
          ∙ h.reads;
    }

flush-Holds :
    (c : Config) (asdus : List (List ℕ)) (s : Session) (now : ℕ)
    → Holds c asdus s
    → Holds c asdus (flush s now)
unfolding flush
flush-Holds c asdus s now h =
    flush_keeps (Holds c asdus) now (send_front-Holds c asdus now) (length s.queue) s h

on_apdu-Holds :
    (c : Config) (asdus : List (List ℕ)) (s : Session) (a : Apdu) (now : ℕ)
    → IsApdu a
    → Holds c asdus s
    → Ensures (Holds c asdus) (on_apdu s a now)
unfolding on_apdu
on_apdu-Holds c asdus s a now fits h =
    let heard = record s { last_rx = now } in
    let valid : IsSession heard = let v = h.valid in ground arith in
    >>=-Ensures (λ s'. Quiet heard s' × IsSession s') (Holds c asdus) (on_frame heard a now) _
      (×-Ensures (Quiet heard) IsSession (on_frame heard a now)
        (on_frame-Quiet heard a now h.valid.receiving.recv_fits)
        (on_frame-IsSession heard a now fits valid))
      (λ s' (quiet, valid').
        flush-Holds c asdus s' now
          (Quiet-Holds c asdus heard s' h.configured h.fits h.reads quiet valid'))

enqueue-Holds :
    (c : Config) (asdus : List (List ℕ)) (s : Session) (asdu : List ℕ)
    → length s.queue < c.max_queue
    → Fits asdu
    → Holds c asdus s
    → Holds c (asdus ++ (asdu ∷ [])) (enqueue s asdu)
unfolding enqueue
enqueue-Holds c asdus s asdu room fit h =
    let has_room : leb s.max_queue (length s.queue) ≡ false =
      gt→leb s.max_queue (length s.queue)
        (omega (arith, ap (λ (c : Config). c.max_queue) h.configured)) in
    record {
      configured = h.configured;
      valid = enqueue-IsSession s asdu h.valid;
      fits = rw has_room (All-snoc Fits s.queue h.fits fit);
      reads = rw has_room (
          sym (append_assoc (sent s.out) s.queue (asdu ∷ [])) ∙ ap (λ l. l ++ (asdu ∷ [])) h.reads);
    }

on_tick-Holds :
    (c : Config) (asdus : List (List ℕ)) (s : Session) (now : ℕ)
    → Holds c asdus s
    → Ensures (Holds c asdus) (on_tick s now)
on_tick-Holds c asdus s now h = on_tick-Ensures (Holds c asdus) s now (
    Quiet-Holds c asdus s (tended s now) h.configured h.fits h.reads
      (tended-Quiet s now h.valid.receiving.recv_fits) (tended-IsSession s now h.valid))

send_raw-Holds :
    (c : Config) (asdus : List (List ℕ)) (s : Session) (asdu : List ℕ) (now : ℕ)
    → length asdus < c.max_queue
    → Fits asdu
    → Holds c asdus s
    → Holds c (asdus ++ (asdu ∷ [])) (send_raw s asdu now)
unfolding send_raw
send_raw-Holds c asdus s asdu now room fit h =
    flush-Holds c (asdus ++ (asdu ∷ [])) (enqueue s asdu) now (
      enqueue-Holds c asdus s asdu
        (omega (arith, ap length h.reads, length-append (sent s.out) s.queue)) fit h)

-- The ASDUs that a history hands over, in order.
abbrev pub handed : List (ℕ × Call) → List (List ℕ)
handed [] = []
handed ((now, sends asdu) ∷ cs) = asdu ∷ handed cs
handed ((now, receives a) ∷ cs) = handed cs
handed ((now, ticks) ∷ cs) = handed cs
handed ((now, drains) ∷ cs) = handed cs

-- The outputs stay in the session, where the statement finds them.
abbrev IsUndrained : ℕ × Call → Type 0
IsUndrained (now, drains) = ⊥
IsUndrained (now, receives a) = Unit {0}
IsUndrained (now, ticks) = Unit {0}
IsUndrained (now, sends asdu) = Unit {0}

run-Holds :
    (c : Config) (asdus : List (List ℕ)) (s : Session) (cs : List (ℕ × Call))
    → All IsCall cs
    → All IsUndrained cs
    → All Fits (handed cs)
    → length asdus + length (handed cs) ≤ c.max_queue
    → Holds c asdus s
    → Ensures (Holds c (asdus ++ handed cs)) (run s cs)
unfolding run call
run-Holds c asdus s [] ok_calls undrained fits room h = rw append-nil h
run-Holds c asdus s ((now, sends asdu) ∷ cs) (_, ok_calls) (_, undrained) (fit, fits) room h =
    let next = send_raw-Holds c asdus s asdu now (omega arith) fit h in
    rw append_assoc at (
      run-Holds c (asdus ++ (asdu ∷ [])) (send_raw s asdu now) cs ok_calls undrained fits
        (omega (arith, length-append asdus (asdu ∷ []))) next)
run-Holds c asdus s ((now, receives a) ∷ cs) (valid, ok_calls) (_, undrained) fits room h =
    >>=-Ensures (Holds c asdus) _ (on_apdu s a now) (λ s'. run s' cs)
      (on_apdu-Holds c asdus s a now valid h)
      (λ s' k. run-Holds c asdus s' cs ok_calls undrained fits room k)
run-Holds c asdus s ((now, ticks) ∷ cs) (_, ok_calls) (_, undrained) fits room h =
    >>=-Ensures (Holds c asdus) _ (on_tick s now) (λ s'. run s' cs) (on_tick-Holds c asdus s now h)
      (λ s' k. run-Holds c asdus s' cs ok_calls undrained fits room k)
run-Holds c asdus s ((now, drains) ∷ cs) ok_calls (bad, _) fits room h = absurd bad

new-Holds : (c : Config) (t0 : ℕ) → IsConfig c → Holds c [] (new c t0)
unfolding new
new-Holds c t0 h = record {
  configured = refl;
  valid = unfold new in new-IsSession c t0 h;
  fits = tt;
  reads = unfold sent in refl;
}

-- After any history that keeps the connection, at any times and with any valid frames from the
-- peer, the ASDUs that the peer reads in our frames and behind them those that still wait are those
-- that the application handed over, each once and in order, as long as each fits a frame and there
-- are no more of them than the queue has room for. The parameters are within their bounds, and the
-- history keeps all outputs, without a drain.
pub run_in_order :
    (c : Config) (t0 : ℕ) (cs : List (ℕ × Call)) (s : Session)
    → IsConfig c
    → All IsCall cs
    → All IsUndrained cs
    → All Fits (handed cs)
    → length (handed cs) ≤ c.max_queue
    → run (new c t0) cs ≡ ok s
    → sent s.out ++ s.queue ≡ handed cs
run_in_order c t0 cs s h calls undrained fits room e =
    (ensures_ok (Holds c (handed cs)) (run (new c t0) cs) s
      (run-Holds c [] (new c t0) cs calls undrained fits (omega arith) (new-Holds c t0 h)) e).reads
