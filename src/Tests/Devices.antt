-- ===== src/Tests/Devices.antt =====
-- A device with two SunSpec models, and what the field bus has read of a site.
use grid_edge_gateway.Prelude.{
  ℕ, ◌+◌, ◌-◌, ◌≡◌, refl, List, [], ◌∷◌, map, none, some, ◌==◌, if◌then◌else◌, length, drop, arith,
  ne→==, false, Result, ok, err,
}
use grid_edge_gateway.Prelude.Text.{codes}
use grid_edge_gateway.Devices.Sunspec.{
  ModelLocation, base, marker, build_image, header_at, locate_from, locate_models, put_string,
  get_string,
}
use grid_edge_gateway.Devices.Sunspec.Chains.{
  body_in, locate_models-build_image, locate_models_stops,
}
use grid_edge_gateway.Devices.Sunspec.Texts.{get_string-put_string}
use grid_edge_gateway.Gateway.Field.{FieldError, no_marker, FieldState, empty, discover}
use grid_edge_gateway.Gateway.Field.Discovery.{discover-locate_models}
use grid_edge_gateway.Gateway.Readings.{collect}
use grid_edge_gateway.Gateway.Readings.Staleness.{forget_stale, collect-forget_stale}
use grid_edge_gateway.Tests.Numbers.{whole_numbers}

abbrev models : List (ℕ × List ℕ)
models = (1, 7 ∷ 8 ∷ []) ∷ (103, 9 ∷ []) ∷ []

abbrev registers : List ℕ
registers = 1 ∷ 2 ∷ 7 ∷ 8 ∷ 103 ∷ 1 ∷ 9 ∷ 65535 ∷ 0 ∷ []

abbrev locations : List ModelLocation
locations =
    record { id = 1; body = 40004; len = 2 } ∷ record { id = 103; body = 40008; len = 1 } ∷ []

length_image : length (build_image models) ≡ 11
unfolding build_image
length_image = refl

locate_models-registers : locate_models registers ≡ some locations
unfolding locate_models
locate_models-registers = refl

locate_models-build_image_example :
    (found : List ModelLocation) × (locate_models (drop 2 (build_image models)) ≡ some found)
    × (map (λ m. (m.id, body_in (build_image models) m)) found ≡ models)
locate_models-build_image_example =
    locate_models-build_image models ((omega arith, omega arith), ((omega arith, omega arith), tt))
      (omega (arith, length_image))

-- The second model claims to be longer than the device.
locate_models_stops_example :
    locate_from 20 (1 ∷ 1 ∷ 7 ∷ 103 ∷ 500 ∷ 9 ∷ []) 0
    ≡ locate_models (1 ∷ 1 ∷ 7 ∷ 103 ∷ 500 ∷ 9 ∷ [])
locate_models_stops_example = locate_models_stops 20 (1 ∷ 1 ∷ 7 ∷ 103 ∷ 500 ∷ 9 ∷ []) (omega arith)

get_string-put_string_example : get_string (put_string 4 (codes "Fronius")) ≡ codes "Fronius"
get_string-put_string_example =
    get_string-put_string 4 (codes "Fronius") (omega arith) (ground arith)

-- A client of the device.
abbrev read : ℕ → ℕ → Result (FieldError ℕ) (List ℕ)
read addr n = if addr == base then ok marker else elim (header_at registers (addr - (base + 2))) [
  | none ↦ err no_marker
  | some h ↦ ok (h.0 ∷ (h.1 ∷ []))
]

read-header_at :
    (pos a b : ℕ)
    → header_at registers pos ≡ some (a, b)
    → read (base + 2 + pos) 2 ≡ ok (a ∷ (b ∷ []))
read-header_at pos a b e =
    let other : ((base + 2 + pos) == base) ≡ false =
      ne→== (base + 2 + pos) base (λ x. absurd (omega arith)) in
    let same : base + 2 + pos - (base + 2) ≡ pos = omega arith in rw (other, same, e) refl

discover-locate_models_example : discover read ≡ ok locations
discover-locate_models_example =
    discover-locate_models read registers locations refl read-header_at (omega arith)
      locate_models-registers (omega arith)

-- The battery was read 9 s ago.
abbrev field : FieldState ⦃d = whole_numbers⦄
field = record {
  inverters =
      record {
        value = some (record { kw = 8; rated_kw = 10; available_kw = none });
        at = some 99000;
      }
      ∷ [];
  meter_kw = record { value = some 12; at = some 98000 };
  chargers = empty ∷ [];
  heat_pumps = [];
  batteries =
      record { value = some (record { status = 1; kw = 3; soc_pct = 40 }); at = some 91000 } ∷ [];
}

collect-forget_stale_example :
    collect ⦃d = whole_numbers⦄ 100000 (forget_stale ⦃d = whole_numbers⦄ 100000 5000 field) 5000
    ≡ collect ⦃d = whole_numbers⦄ 100000 field 5000
collect-forget_stale_example = collect-forget_stale ⦃d = whole_numbers⦄ 100000 5000 field
