-- ===== src/Gateway/Inputs.antt =====
-- `crates/gateway/src/inputs.rs`: the control box's relay and the EEBUS bridge, next to IEC 104. An
-- `Instant` is milliseconds, and a text is a list of bytes. The loops over sockets are given as what
-- they do with each thing that happens: a bit read, an error, a line. The parser of JSON is a
-- parameter.
pub mod Debouncing
use grid_edge_gateway.Prelude.{
  ℕ, ◌-◌, List, [], ◌∷◌, ◌++◌, Option, none, some, Bool, true, false, not, ◌&&◌, ◌||◌,
  if◌then◌else◌, leb, ltb, length, Result, ok, err, panic, ◌>>=◌,
}
use grid_edge_gateway.Prelude.Doubles.{Doubles, F64, lit, ◌⊘◌, ◌≼◌, is_finite}
use grid_edge_gateway.Gateway.Points.{DsoCommands}

pub record RelayView : Type 0 where
  pub active : Bool
  pub readable : Bool

-- The causes of a reduction, and the problems of the inputs.
pub data Source : Type 0 where
  iec104 relay eebus : Source

pub data InputProblem : Type 0 where
  relay_unreadable eebus_bridge_lost eebus_failsafe : InputProblem

abbrev pub agrees : Bool → Bool → Bool
agrees true b = b
agrees false b = not b

-- A contact state counts once it has held for `hold`.
pub record Debounce : Type 0 where
  pub hold : ℕ
  pub stable : Bool
  pub candidate : Option (Bool × ℕ)

unfoldable pub new_debounce : ℕ → Debounce
new_debounce hold = record { hold = hold; stable = false; candidate = none }

-- A candidate that is seen again: it becomes the stable state once it has held long enough.
unfoldable pub again : Debounce → Bool → ℕ → ℕ → Debounce
again d raw since now =
    if leb d.hold (now - since) then record d { stable = raw; candidate = none } else d

unfoldable pub differs : Debounce → Bool → ℕ → Debounce
unfolding again
differs d raw now = elim d.candidate [
  | none ↦ record d { candidate = some (raw, now) }
  | some (v, since) ↦
      if agrees v raw then again d raw since now else record d { candidate = some (raw, now) }
]

unfoldable pub update : Debounce → Bool → ℕ → Bool × Debounce
unfolding differs
update d raw now =
    let d' = if agrees raw d.stable then record d { candidate = none } else differs d raw now in
    (d'.stable, d')

pub data InputLossPolicy : Type 0 where
  hold_state dim_on_loss : InputLossPolicy

-- The task of the relay: its debouncer, when it last read, and the view that it shares.
pub record RelayTask : Type 0 where
  pub debounce : Debounce
  pub last_ok : ℕ
  pub ever_read : Bool
  pub view : Option RelayView

unfoldable pub on_bit : RelayTask → Bool → Bool → ℕ → RelayTask
unfolding update
on_bit t bit active_when_closed now =
    let (stable, debounce) = update t.debounce (agrees bit active_when_closed) now in
    record {
      debounce = debounce;
      last_ok = now;
      ever_read = true;
      view = some (record { active = stable; readable = true });
    }

abbrev pub is_active : Option RelayView → Bool
is_active none = false
is_active (some r) = r.active

abbrev pub kept_or_dimmed : InputLossPolicy → Bool → Bool
kept_or_dimmed hold_state held = held
kept_or_dimmed dim_on_loss held = true

-- The connection failed: the module counts as lost after `lost_after`, or if it never answered.
unfoldable pub on_error : RelayTask → InputLossPolicy → ℕ → ℕ → RelayTask
on_error t policy lost_after now =
    if leb lost_after (now - t.last_ok) || not t.ever_read
    then record t {
      view = some (record { active = kept_or_dimmed policy (is_active t.view); readable = false });
    }
    else t

pub data BridgeError : Type 0 where
  not_json not_a_power no_limit : BridgeError

abbrev pub max_line : ℕ
max_line = 1024

module _ ⦃d : Doubles⦄ where
  pub record EebusView : Type 0 where
    pub connected : Bool
    pub active : Bool
    pub limit_kw : Option F64
    pub failsafe : Bool
    pub failsafe_limit_kw : Option F64

  pub record InputState : Type 0 where
    pub relay : Option RelayView
    pub eebus : Option EebusView

  abbrev pub active_view : Option EebusView → Option EebusView
  active_view none = none
  active_view (some e) = if e.active then some e else none

  abbrev pub limit_of : Option EebusView → Option F64
  limit_of none = none
  limit_of (some e) = e.limit_kw

  abbrev pub is_present : Option EebusView → Bool
  is_present none = false
  is_present (some e) = true

  unfoldable pub merge : DsoCommands d → InputState → DsoCommands d
  merge dso inputs =
      let plain = dso.dim || is_active inputs.relay in
      let lpc = active_view inputs.eebus in
      record dso { dim = plain || is_present lpc; limit_kw = if plain then none else limit_of lpc }

  unfoldable pub sources : DsoCommands d → InputState → List Source
  sources dso inputs =
      (if dso.dim then iec104 ∷ [] else [])
      ++ ((if is_active inputs.relay then relay ∷ [] else [])
          ++ (if is_present (active_view inputs.eebus) then eebus ∷ [] else []))

  abbrev pub relay_problems : Option RelayView → List InputProblem
  relay_problems none = []
  relay_problems (some r) = if not r.readable then relay_unreadable ∷ [] else []

  abbrev pub eebus_problems : Option EebusView → List InputProblem
  eebus_problems none = []
  eebus_problems (some e) =
      if not e.connected
      then eebus_bridge_lost ∷ []
      else if e.failsafe
      then eebus_failsafe ∷ []
      else []

  unfoldable pub fallbacks : InputState → List InputProblem
  fallbacks inputs = relay_problems inputs.relay ++ eebus_problems inputs.eebus

  pub record BridgeMessage : Type 0 where
    pub active : Bool
    pub limit_w : Option F64
    pub failsafe : Bool
    pub failsafe_limit_w : Option F64

  unfoldable pub watts_to_kw : Option F64 → Result BridgeError (Option F64)
  watts_to_kw none = ok none
  watts_to_kw (some w) =
      if is_finite w && (lit 0 1 ≼ w) then ok (some (w ⊘ lit 1000 1)) else err not_a_power

  abbrev pub is_none : Option F64 → Bool
  is_none none = true
  is_none (some a) = false

  -- The view after a message that has been parsed.
  unfoldable pub view_of : BridgeMessage → Result BridgeError EebusView
  unfolding watts_to_kw
  view_of m = do
    limit_kw ← watts_to_kw m.limit_w
    if m.active && is_none limit_kw then err no_limit else (do
      failsafe_limit_kw ← watts_to_kw m.failsafe_limit_w
      ok (record {
        connected = true;
        active = m.active;
        limit_kw = limit_kw;
        failsafe = m.failsafe;
        failsafe_limit_kw = failsafe_limit_kw;
      }))

  abbrev failsafe_limit_of : Option EebusView → Option F64
  failsafe_limit_of none = none
  failsafe_limit_of (some e) = e.failsafe_limit_kw

  unfoldable pub on_lost : Option EebusView → EebusView
  on_lost last = record {
    connected = false;
    active = true;
    limit_kw = failsafe_limit_of last;
    failsafe = true;
    failsafe_limit_kw = failsafe_limit_of last;
  }

  module _ (from_json : List ℕ → Option BridgeMessage) where
    unfoldable pub on_message : List ℕ → Result BridgeError EebusView
    unfolding view_of
    on_message line = elim (from_json line) [ none ↦ err not_json | some m ↦ view_of m ]

    -- What happens to the bridge: a line, silence or the end of its connection.
    pub data BridgeEvent : Type 0 where
      line_read : List ℕ → BridgeEvent
      line_missing : BridgeEvent

    abbrev view_or : Result BridgeError EebusView → Option EebusView → Option EebusView
    view_or (ok e) old = some e
    view_or (err e) old = old
    view_or panic old = old

    -- A line that is too long ends the connection, and with it the bridge is lost.
    unfoldable pub on_event : Option EebusView → BridgeEvent → Option EebusView
    unfolding on_message on_lost
    on_event old line_missing = some (on_lost old)
    on_event old (line_read line) =
        if ltb max_line (length line) then some (on_lost old) else view_or (on_message line) old
