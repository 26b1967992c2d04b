-- ===== src/Gateway/Dso.antt =====
-- `crates/gateway/src/dso.rs`: the station that the network operator's control centre commands, and
-- the fields of `snapshot.rs` and of the controller's `DsoCommands` that it uses. The operations of
-- `f64` are an interface. A `HashMap` is an association list, an `Instant` is milliseconds, and the
-- clocks that a call reads are its arguments.
pub mod Commands
pub mod Reports
use grid_edge_gateway.Prelude.{
  ℕ, zero, suc, ◌+◌, ◌-◌, ◌/◌, ◌≤◌, ◌<◌, ◌≡◌, List, [], ◌∷◌, ◌++◌, map, Option, none, some, Bool,
  true, false, not, ◌&&◌, ◌||◌, ◌==◌, leb, ltb, if◌then◌else◌, length, drop,
}
use grid_edge_gateway.Prelude.Int.{ℤ}
use grid_edge_gateway.Iec104.Time.{Cp56Time2a, from_unix_ms}
use grid_edge_gateway.Iec104.Element.{
  Cause, spontaneous, initialized, activation, activation_con, deactivation, deactivation_con,
  activation_termination, interrogated, unknown_type, unknown_cause, unknown_common_address,
  unknown_object_address, good_quality, invalid_quality, Element, single_point, single_point_time,
  float, float_time, end_of_init, single_command, setpoint_float, interrogation, clock_sync,
}
use grid_edge_gateway.Prelude.Doubles.{Doubles}
use grid_edge_gateway.Gateway.Points.{
  F64, DsoCommands, Snapshot, measurements, single_points, float_element,
}
use grid_edge_gateway.Iec104.Asdu.{Asdu, InformationObject, single, mirror}
use grid_edge_gateway.Iec104.Asdu

abbrev pub ioa_dim : ℕ
ioa_dim = 5001

abbrev pub ioa_feed_in_limit : ℕ
ioa_feed_in_limit = 5002

abbrev pub ioa_emergency : ℕ
ioa_emergency = 5003

-- `(0.0..=100.0).contains(&value)` on the bit pattern of an `f32`: those from 0.0 to 100.0, and -0.0.
-- A NaN is none of these.
unfoldable pub in_percent : ℕ → Bool
in_percent value = leb value 0x42C80000 || (value == 0x80000000)

-- A `HashMap` with the addresses of information objects as keys.
module _ {ℓ} {V : Type ℓ} where
  unfoldable pub lookup : ℕ → List (ℕ × V) → Option V
  lookup k [] = none
  lookup k ((j, v) ∷ m) = if j == k then some v else lookup k m

  unfoldable pub remove : ℕ → List (ℕ × V) → List (ℕ × V)
  remove k [] = []
  remove k ((j, v) ∷ m) = let rest = remove k m in if j == k then rest else (j, v) ∷ rest

  unfoldable pub insert : ℕ → V → List (ℕ × V) → List (ℕ × V)
  unfolding remove
  insert k v m = (k, v) ∷ remove k m

  unfoldable pub insert_all : List (ℕ × V) → List (ℕ × V) → List (ℕ × V)
  insert_all [] m = m
  insert_all ((k, v) ∷ points) m = insert_all points (insert k v m)

abbrev pub is_activation : Cause → Bool
is_activation activation = true
is_activation _ = false

abbrev pub is_deactivation : Cause → Bool
is_deactivation deactivation = true
is_deactivation _ = false

abbrev pub mirrored : Asdu → Cause → Bool → List ℕ
mirrored a cause negative = Asdu.encode (mirror a cause negative)

abbrev pub confirmed : Asdu → List (List ℕ)
confirmed a = mirrored a activation_con false ∷ []

abbrev pub executed : Asdu → List (List ℕ)
executed a = mirrored a activation_con false ∷ (mirrored a activation_termination false ∷ [])

abbrev pub refused : Asdu → Cause → List (List ℕ)
refused a cause = mirrored a cause true ∷ []

-- `was_selected.is_some_and(|t| t.elapsed().as_secs() > 10)`
abbrev pub too_late : Option ℕ → ℕ → Bool
too_late none now = false
too_late (some t) now = ltb 10 ((now - t) / 1000)

abbrev object_with : ℕ → Element → InformationObject
object_with ioa element = record { ioa = ioa; element = element }

abbrev deadband_in_units : ℕ → Bool
deadband_in_units ioa = (leb 1006 ioa && leb ioa 1008) || (leb 1010 ioa && leb ioa 1013)

abbrev other_point : Option Bool → Bool → Bool
other_point none on = true
other_point (some true) on = not on
other_point (some false) on = on

module _ (doubles : Doubles) where
  -- The settings of the station.
  pub record Station : Type 0 where
    pub common_address : ℕ
    pub deadband_kw : F64 doubles

  -- The commands that all connections share, and what one connection keeps: the selected objects
  -- with the time of their selection, and the values that were reported last.
  pub record Served : Type 0 where
    pub commands : DsoCommands doubles
    pub selected : List (ℕ × ℕ)
    pub reported_f : List (ℕ × Option (F64 doubles))
    pub reported_b : List (ℕ × Bool)

  -- An answer of the station: the ASDUs to send, and what it keeps.
  abbrev pub Reply : Type 0
  Reply = List (List ℕ) × Served

  -- `Station::command` at the time `now`.
  unfoldable pub command :
      Asdu → ℕ → Bool → ℕ → (DsoCommands doubles → DsoCommands doubles) → Served → Reply
  command a ioa select now apply s =
      if is_activation a.cause
      then (if select
          then (confirmed a, record s { selected = insert ioa now s.selected })
          else let s' = record s { selected = remove ioa s.selected } in
            if too_late (lookup ioa s.selected) now
            then (refused a activation_con, s')
            else (executed a, record s' { commands = apply s'.commands }))
      else if is_deactivation a.cause
      then (mirrored a deactivation_con false ∷ [], record s { selected = remove ioa s.selected })
      else (refused a unknown_cause, s)

  unfoldable pub interrogation_response : Station → Snapshot doubles → List (List ℕ)
  unfolding measurements single_points float_element
  interrogation_response station s =
      let time = from_unix_ms s.time_ms in
      let floats : Asdu = record {
        id = 36;
        cause = interrogated;
        negative = false;
        test = false;
        originator = 0;
        common_address = station.common_address;
        objects =
            map (λ p. object_with p.0 (float_element doubles p.1 time)) (measurements doubles s);
      } in
      let points : Asdu = record floats {
        id = 30;
        objects =
            map (λ p. object_with p.0 (single_point_time p.1 good_quality time))
              (single_points doubles s);
      } in
      Asdu.encode floats ∷ (Asdu.encode points ∷ [])

  -- A general interrogation: every point is sent, and remembered as reported.
  unfoldable pub interrogate : Station → Snapshot doubles → Asdu → Served → Reply
  unfolding interrogation_response
  interrogate station snapshot a s =
      if not (is_activation a.cause) then (refused a unknown_cause, s) else (
        confirmed a
            ++ (interrogation_response station snapshot
                ++ (mirrored a activation_termination false ∷ [])),
        record s {
          reported_f = insert_all (measurements doubles snapshot) s.reported_f;
          reported_b = insert_all (single_points doubles snapshot) s.reported_b;
        },
      )

  -- The match of `Station::handle` on the element of the first object. `wall` is the wall clock.
  unfoldable pub on_element :
      Station → Snapshot doubles → ℕ → ℤ → Asdu → ℕ → Element → Served → Reply
  on_element station snapshot now wall a ioa (interrogation qoi) s =
      interrogate station snapshot a s
  on_element station snapshot now wall a ioa (clock_sync time) s = (
    Asdu.encode (single activation_con station.common_address ioa (clock_sync (from_unix_ms wall)))
        ∷ [],
    s,
  )
  on_element station snapshot now wall a ioa (single_command on select qualifier) s =
      if ioa == ioa_dim
      then command a ioa select now (λ c. record c { dim = on }) s
      else if ioa == ioa_emergency
      then command a ioa select now (λ c. record c { emergency = on }) s
      else (refused a unknown_object_address, s)
  on_element station snapshot now wall a ioa (setpoint_float value select qualifier) s =
      if ioa == ioa_feed_in_limit
      then (if not (in_percent value)
          then (refused a activation_con, s)
          else command a ioa select now (λ c. record c { feed_in_limit_pct = doubles.of_f32 value })
              s)
      else (refused a unknown_object_address, s)
  on_element station snapshot now wall a ioa (single_point on quality) s =
      (refused a unknown_type, s)
  on_element station snapshot now wall a ioa (single_point_time on quality time) s =
      (refused a unknown_type, s)
  on_element station snapshot now wall a ioa (float value quality) s = (refused a unknown_type, s)
  on_element station snapshot now wall a ioa (float_time value quality time) s =
      (refused a unknown_type, s)
  on_element station snapshot now wall a ioa (end_of_init coi) s = (refused a unknown_type, s)

  -- `!(a.common_address != self.common_address && !(broadcast_ok && ...))`
  abbrev pub is_addressed : Station → Asdu → Bool
  is_addressed station a =
      (a.common_address == station.common_address)
      || (((a.id == 100) || (a.id == 103)) && (a.common_address == 0xFFFF))

  -- `Station::handle`
  unfoldable pub handle : Station → Snapshot doubles → ℕ → ℤ → Asdu → Served → Reply
  handle station snapshot now wall a s =
      if not (is_addressed station a)
      then (refused a unknown_common_address, s)
      else elim a.objects [
        | [] ↦ ([], s)
        | obj ∷ rest ↦ on_element station snapshot now wall a obj.ioa obj.element s
      ]

  abbrev pub has_moved : Option (F64 doubles) → Option (F64 doubles) → F64 doubles → Bool
  has_moved (some old) (some new) deadband = doubles.le deadband (doubles.abs (doubles.sub new old))
  has_moved (some old) none deadband = true
  has_moved none (some new) deadband = true
  has_moved none none deadband = false

  -- Whether a measurement goes out: it has moved, or was never reported.
  abbrev is_due : Station → ℕ → Option (Option (F64 doubles)) → Option (F64 doubles) → Bool
  is_due station ioa none v = true
  is_due station ioa (some old) v =
      has_moved old v (if deadband_in_units ioa then (doubles.lit 1 1) else station.deadband_kw)

  unfoldable pub report_floats :
      Station → Cp56Time2a → List (ℕ × Option (F64 doubles)) → Served → Reply
  unfolding float_element
  report_floats station time [] s = ([], s)
  report_floats station time ((ioa, v) ∷ points) s =
      let due = is_due station ioa (lookup ioa s.reported_f) v in
      let (out, s') =
        report_floats station time points
          (if due then record s { reported_f = insert ioa v s.reported_f } else s) in
      let asdu = single spontaneous station.common_address ioa (float_element doubles v time) in
      (if due then Asdu.encode asdu ∷ out else out, s')

  unfoldable pub report_points : Station → Cp56Time2a → List (ℕ × Bool) → Served → Reply
  report_points station time [] s = ([], s)
  report_points station time ((ioa, on) ∷ points) s =
      let due = other_point (lookup ioa s.reported_b) on in
      let (out, s') =
        report_points station time points
          (if due then record s { reported_b = insert ioa on s.reported_b } else s) in
      let asdu =
        single spontaneous station.common_address ioa (single_point_time on good_quality time) in
      (if due then Asdu.encode asdu ∷ out else out, s')

  -- `Station::spontaneous`
  unfoldable pub spontaneous_reports : Station → Snapshot doubles → Served → Reply
  unfolding report_floats report_points
  spontaneous_reports station snapshot s =
      let time = from_unix_ms snapshot.time_ms in
      let (floats, s1) = report_floats station time (measurements doubles snapshot) s in
      let (points, s2) = report_points station time (single_points doubles snapshot) s1 in
      (floats ++ points, s2)
