-- ===== src/Gateway/Dso/Reports.antt =====
-- What the station reports on its own: `Station::spontaneous`.
use grid_edge_gateway.Prelude.{
  ℕ, ◌≡◌, refl, List, [], ◌∷◌, Bool, true, false, Option, none, some, All,
}
use grid_edge_gateway.Iec104.Time.{Cp56Time2a, from_unix_ms}
use grid_edge_gateway.Iec104.Element.{activation}
use grid_edge_gateway.Iec104.Asdu.{Asdu}
use grid_edge_gateway.Prelude.Doubles.{Doubles}
use grid_edge_gateway.Gateway.Points.{F64, Snapshot, measurements, single_points}
use grid_edge_gateway.Gateway.Dso.{
  Station, Served, lookup, remove, insert, insert_all, has_moved, is_due, other_point,
  report_floats, report_points, spontaneous_reports, interrogate,
}

-- The facts on the elements of a list, one after the other.
infixr 3 ◌▹◌
◌▹◌ {ℓ κ} : {A : Type ℓ} {B : Type κ} → A → B → A × B
a ▹ b = (a, b)

module _ (doubles : Doubles) where
  report_floats_none :
      (station : Station doubles) (time : Cp56Time2a) (points : List (ℕ × Option (F64 doubles)))
      (s : Served doubles)
      → All (λ p. is_due doubles station p.0 (lookup p.0 s.reported_f) p.1 ≡ false) points
      → report_floats doubles station time points s ≡ ([], s)
  unfolding report_floats
  report_floats_none station time [] s h = refl
  report_floats_none station time ((ioa, v) ∷ points) s (still, h) =
      rw (still, report_floats_none station time points s h)

  report_points_none :
      (station : Station doubles) (time : Cp56Time2a) (points : List (ℕ × Bool))
      (s : Served doubles)
      → All (λ p. other_point (lookup p.0 s.reported_b) p.1 ≡ false) points
      → report_points doubles station time points s ≡ ([], s)
  unfolding report_points
  report_points_none station time [] s h = refl
  report_points_none station time ((ioa, on) ∷ points) s (same, h) =
      rw (same, report_points_none station time points s h)

  has_moved_same :
      (v : Option (F64 doubles)) (deadband : F64 doubles)
      → ((x : F64 doubles) → doubles.le deadband (doubles.abs (doubles.sub x x)) ≡ false)
      → has_moved doubles v v deadband ≡ false
  has_moved_same none deadband h = refl
  has_moved_same (some x) deadband h = h x

  other_point_same : (on : Bool) → other_point (some on) on ≡ false
  other_point_same true = refl
  other_point_same false = refl

  -- What the station keeps after it has answered a general interrogation.
  abbrev remembered : Snapshot doubles → Served doubles → Served doubles
  remembered snapshot s = record s {
    reported_f = insert_all (measurements doubles snapshot) s.reported_f;
    reported_b = insert_all (single_points doubles snapshot) s.reported_b;
  }

  interrogate_lem :
      (station : Station doubles) (snapshot : Snapshot doubles) (a : Asdu) (s : Served doubles)
      → a.cause ≡ activation
      → (interrogate doubles station snapshot a s).1 ≡ remembered snapshot s
  unfolding interrogate
  interrogate_lem station snapshot a s e = rw e refl

  measurements_still :
      (station : Station doubles) (snapshot : Snapshot doubles)
      (m : List (ℕ × Option (F64 doubles)))
      → ((x : F64 doubles) → doubles.le station.deadband_kw (doubles.abs (doubles.sub x x)) ≡ false)
      → ((x : F64 doubles) → doubles.le (doubles.lit 1 1) (doubles.abs (doubles.sub x x)) ≡ false)
      → All
          (λ p.
            is_due doubles station p.0
              (lookup p.0 (insert_all (measurements doubles snapshot) m))
              p.1
            ≡ false)
          (measurements doubles snapshot)
  unfolding measurements insert_all insert remove lookup
  measurements_still station snapshot m kw unit =
      let by_kw : (v : Option (F64 doubles)) → has_moved doubles v v station.deadband_kw ≡ false =
        λ v. has_moved_same v station.deadband_kw kw in
      let by_unit : (v : Option (F64 doubles)) → has_moved doubles v v (doubles.lit 1 1) ≡ false =
        λ v. has_moved_same v (doubles.lit 1 1) unit in
      by_kw _
      ▹ by_kw _
      ▹ kw _
      ▹ by_kw _
      ▹ kw _
      ▹ unit _
      ▹ unit _
      ▹ unit _
      ▹ by_kw _
      ▹ by_unit _
      ▹ unit _
      ▹ unit _
      ▹ by_unit _
      ▹ tt

  points_still :
      (a b c d e f g h : Bool) (m : List (ℕ × Bool))
      → let points : List (ℕ × Bool) =
          (2001, a)
          ∷ (2002, b)
          ∷ (2003, c)
          ∷ (2004, d)
          ∷ (2005, e)
          ∷ (2006, f)
          ∷ (2007, g)
          ∷ (2008, h)
          ∷ [] in
        All (λ p. other_point (lookup p.0 (insert_all points m)) p.1 ≡ false) points
  unfolding insert_all insert remove lookup
  points_still a b c d e f g h m =
      other_point_same a
      ▹ other_point_same b
      ▹ other_point_same c
      ▹ other_point_same d
      ▹ other_point_same e
      ▹ other_point_same f
      ▹ other_point_same g
      ▹ other_point_same h
      ▹ tt

  single_points_still :
      (snapshot : Snapshot doubles) (m : List (ℕ × Bool))
      → All
          (λ p.
            other_point (lookup p.0 (insert_all (single_points doubles snapshot) m)) p.1 ≡ false)
          (single_points doubles snapshot)
  unfolding single_points
  single_points_still snapshot m = points_still _ _ _ _ _ _ _ _ m

  -- Where no value moves from itself by the station's deadband or by one unit, the station sends
  -- nothing on its own after its answer to a general interrogation, as long as the snapshot is the
  -- same.
  pub spontaneous_reports-interrogate :
      (station : Station doubles) (snapshot : Snapshot doubles) (a : Asdu) (s : Served doubles)
      → ((x : F64 doubles) → doubles.le station.deadband_kw (doubles.abs (doubles.sub x x)) ≡ false)
      → ((x : F64 doubles) → doubles.le (doubles.lit 1 1) (doubles.abs (doubles.sub x x)) ≡ false)
      → a.cause ≡ activation
      → let s' = (interrogate doubles station snapshot a s).1 in
        spontaneous_reports doubles station snapshot s' ≡ ([], s')
  unfolding spontaneous_reports
  spontaneous_reports-interrogate station snapshot a s kw unit e =
      let time = from_unix_ms snapshot.time_ms in
      rw (
        interrogate_lem station snapshot a s e,
        report_floats_none station time (measurements doubles snapshot) (remembered snapshot s)
            (measurements_still station snapshot s.reported_f kw unit),
        report_points_none station time (single_points doubles snapshot) (remembered snapshot s)
            (single_points_still snapshot s.reported_b),
      )
