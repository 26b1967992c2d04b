-- ===== src/Iec104/Session/History.antt =====
-- Histories of calls of a session.
use grid_edge_gateway.Prelude.{ℕ, ◌≡◌, List, [], ◌∷◌, All, ok, ◌>>=◌}
use grid_edge_gateway.Iec104.Apci.{Apdu, IsApdu}
use grid_edge_gateway.Iec104.Session.{Config, Session, Step, new, drain, send_raw, on_apdu, on_tick}
use grid_edge_gateway.Iec104.Session.Calls.{Ensures, ensures_ok, on_tick-Ensures, >>=-Ensures}
use grid_edge_gateway.Iec104.Session.Invariant.{
  IsConfig, IsSession, new-IsSession, drain-IsSession, tended-IsSession, send_raw-IsSession,
  on_apdu_keeps,
}

-- One call of the session's interface at a time: a frame or a tick may end the connection.
pub data Call : Type 0 where
  receives : Apdu → Call
  ticks drains : Call
  sends : List ℕ → Call

abbrev pub IsCall : ℕ × Call → Type 0
IsCall (now, receives a) = IsApdu a
IsCall (now, ticks) = Unit {0}
IsCall (now, drains) = Unit {0}
IsCall (now, sends asdu) = Unit {0}

unfoldable pub call : Session → ℕ × Call → Step
call s (now, receives a) = on_apdu s a now
call s (now, ticks) = on_tick s now
call s (now, drains) = ok (drain s).1
call s (now, sends asdu) = ok (send_raw s asdu now)

unfoldable pub run : Session → List (ℕ × Call) → Step
run s [] = ok s
run s (c ∷ cs) = do s' ← call s c; run s' cs

pub call-IsSession :
    (s : Session) (c : ℕ × Call) → IsCall c → IsSession s → Ensures IsSession (call s c)
unfolding call
call-IsSession s (now, receives a) fits h = on_apdu_keeps s a now fits h
call-IsSession s (now, ticks) fits h = on_tick-Ensures IsSession s now (tended-IsSession s now h)
call-IsSession s (now, drains) fits h = drain-IsSession s h
call-IsSession s (now, sends asdu) fits h = send_raw-IsSession s asdu now h

run-IsSession :
    (s : Session) (cs : List (ℕ × Call))
    → All IsCall cs
    → IsSession s
    → Ensures IsSession (run s cs)
unfolding run
run-IsSession s [] fits h = h
run-IsSession s (c ∷ cs) (fit, fits) h =
    >>=-Ensures IsSession IsSession (call s c) (λ s'. run s' cs) (call-IsSession s c fit h)
      (λ s' k. run-IsSession s' cs fits k)

-- From parameters within their bounds, after any history of calls that keeps the connection, at any
-- times and with any valid frames from the peer, the sequence numbers are
-- consistent, at most k of our frames and fewer than w of the peer's are unacknowledged, the timer
-- t2 runs exactly while some are, and the queue is within its bound.
pub run-new-IsSession :
    (c : Config) (t0 : ℕ) (cs : List (ℕ × Call)) (s : Session)
    → IsConfig c
    → All IsCall cs
    → run (new c t0) cs ≡ ok s
    → IsSession s
run-new-IsSession c t0 cs s h fits e =
    ensures_ok IsSession _ s (run-IsSession (new c t0) cs fits (new-IsSession c t0 h)) e
