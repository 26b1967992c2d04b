-- ===== src/Gateway/Readings/Staleness.antt =====
-- What a device read too long ago does not reach the controller.
use mathlib.Core.Path.{ap₂}
use grid_edge_gateway.Prelude.{
  ℕ, ◌-◌, ◌≡◌, refl, List, [], ◌∷◌, map, Option, none, some, inl, inr, Bool-cases, leb,
  if◌then◌else◌,
}
use grid_edge_gateway.Prelude.Doubles.{Doubles}
use grid_edge_gateway.Gateway.Field.{Slot, FieldState, fresh, empty}
use grid_edge_gateway.Gateway.Readings.{collect}

-- A slot without what it holds, where that is older than the limit.
abbrev pub forget {ℓ} : {A : Type ℓ} → ℕ → ℕ → Slot A → Slot A
forget now max_age s = elim s.at [
  | none ↦ empty
  | some at ↦ if leb (now - at) max_age then s else empty
]

fresh-forget {ℓ} :
    {A : Type ℓ} (now max_age : ℕ) (s : Slot A)
    → fresh now max_age (forget now max_age s) ≡ fresh now max_age s
unfolding fresh
fresh-forget {A = A} now max_age s = of_parts s.value s.at
  where
    of_parts :
        (value : Option A) (at : Option ℕ)
        → fresh now max_age (forget now max_age (record { value = value; at = at }))
          ≡ fresh now max_age (record { value = value; at = at })
    of_parts value none = refl
    of_parts none (some at) = elim (Bool-cases (leb (now - at) max_age)) [
      | inl e ↦ rw e refl
      | inr e ↦ rw e refl
    ]
    of_parts (some v) (some at) = elim (Bool-cases (leb (now - at) max_age)) [
      | inl e ↦ rw (e, e) refl
      | inr e ↦ rw e refl
    ]

map-forget {ℓ} :
    {A : Type ℓ} (now max_age : ℕ) (slots : List (Slot A))
    → map (fresh now max_age) (map (forget now max_age) slots) ≡ map (fresh now max_age) slots
map-forget now max_age [] = refl
map-forget now max_age (s ∷ slots) =
    ap₂ ◌∷◌ (fresh-forget now max_age s) (map-forget now max_age slots)

module _ ⦃d : Doubles⦄ where
  abbrev pub forget_stale : ℕ → ℕ → FieldState → FieldState
  forget_stale now stale f = record {
    inverters = map (forget now stale) f.inverters;
    meter_kw = forget now stale f.meter_kw;
    chargers = map (forget now stale) f.chargers;
    heat_pumps = map (forget now stale) f.heat_pumps;
    batteries = map (forget now stale) f.batteries;
  }

  -- The readings that the controller gets, and the views, are the same if every slot that was filled
  -- longer ago than the limit is emptied first: nothing of what is too old reaches them.
  pub collect-forget_stale :
      (now stale : ℕ) (f : FieldState)
      → collect now (forget_stale now stale f) stale ≡ collect now f stale
  unfolding collect
  collect-forget_stale now stale f =
      rw
        (
          map-forget now stale f.inverters,
          fresh-forget now stale f.meter_kw,
          map-forget now stale f.chargers,
          map-forget now stale f.heat_pumps,
          map-forget now stale f.batteries,
        )
        refl
