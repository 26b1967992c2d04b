-- ===== src/Gateway/Inputs/Debouncing.antt =====
-- The contact of the control box over time: `Debounce::update` after any sequence of readings.
use grid_edge_gateway.Prelude.{
  ℕ, ◌-◌, ◌≤◌, ◌≡◌, ◌≢◌, ◌⊎◌, ◌↔◌, inl, inr, refl, sym, subst, ◌∙◌, List, [], ◌∷◌, Option, none,
  some, Bool, true, false, leb, le→leb, Bool-cases, arith,
}
use mathlib.Core.Bool.{true≢false, false≢true}
use grid_edge_gateway.Gateway.Inputs.{Debounce, new_debounce, again, differs, update}

-- Readings with their times, the newest first.
abbrev pub Samples : Type 0
Samples = List (Bool × ℕ)

unfoldable pub after : ℕ → Samples → Debounce
after hold [] = new_debounce hold
after hold ((raw, now) ∷ past) = (update (after hold past) raw now).1

-- There is a reading at the time `since`, and it and all that came later are `v`.
abbrev pub HeldSince : Bool → ℕ → Samples → Type 0
HeldSince v since [] = ⊥
HeldSince v since ((raw, t) ∷ past) = (raw ≡ v) × ((t ≡ since) ⊎ HeldSince v since past)

abbrev pub NotAfter : ℕ → Samples → Type 0
NotAfter now [] = Unit
NotAfter now ((raw, t) ∷ past) = (t ≤ now) × NotAfter now past

-- Time does not run backwards.
abbrev pub AreOrdered : Samples → Type 0
AreOrdered [] = Unit
AreOrdered ((raw, t) ∷ past) = NotAfter t past × AreOrdered past

since-le :
    (v : Bool) (since now : ℕ) (past : Samples)
    → HeldSince v since past
    → NotAfter now past
    → since ≤ now
since-le v since now [] h n = absurd h
since-le v since now ((raw, t) ∷ past) (e, inl here) (n, ns) = omega arith
since-le v since now ((raw, t) ∷ past) (e, inr there) (n, ns) = since-le v since now past there ns

-- The debouncer keeps its hold time.
update-hold : (d : Debounce) (raw : Bool) (now : ℕ) → (update d raw now).1.hold ≡ d.hold
unfolding update differs again
update-hold d raw now = ground arith

after-hold : (hold : ℕ) (samples : Samples) → (after hold samples).hold ≡ hold
unfolding after new_debounce
after-hold hold [] = refl
after-hold hold ((raw, now) ∷ past) = update-hold (after hold past) raw now ∙ after-hold hold past

-- What a candidate says of the readings so far.
abbrev Backed : Option (Bool × ℕ) → Samples → Type 0
Backed none samples = Unit
Backed (some (v, since)) samples = HeldSince v since samples

abbrev made : ℕ → Bool → Option (Bool × ℕ) → Debounce
made hold stable candidate = record { hold = hold; stable = stable; candidate = candidate }

update-Backed :
    (hold : ℕ) (stable : Bool) (candidate : Option (Bool × ℕ)) (raw : Bool) (now : ℕ)
    (past : Samples)
    → Backed candidate past
    → Backed (update (made hold stable candidate) raw now).1.candidate ((raw, now) ∷ past)
unfolding update differs again
update-Backed hold true none true now past b = tt
update-Backed hold true none false now past b = (refl, inl refl)
update-Backed hold false none true now past b = (refl, inl refl)
update-Backed hold false none false now past b = tt
update-Backed hold true (some (v, s)) true now past b = tt
update-Backed hold false (some (v, s)) false now past b = tt
update-Backed hold true (some (true, s)) false now past b = (refl, inl refl)
update-Backed hold false (some (false, s)) true now past b = (refl, inl refl)
update-Backed hold true (some (false, s)) false now past b =
    elim (Bool-cases (leb hold (now - s))) [ inl e ↦ rw e tt | inr e ↦ rw e (refl, inr b) ]
update-Backed hold false (some (true, s)) true now past b = elim (Bool-cases (leb hold (now - s))) [
  | inl e ↦ rw e tt
  | inr e ↦ rw e (refl, inr b)
]

after-Backed : (hold : ℕ) (samples : Samples) → Backed (after hold samples).candidate samples
unfolding after new_debounce
after-Backed hold [] = tt
after-Backed hold ((raw, now) ∷ past) =
    let d = after hold past in
    update-Backed d.hold d.stable d.candidate raw now past (after-Backed hold past)

-- A state changes to the reading, where a candidate for it has held.
update_changes :
    (hold : ℕ) (stable : Bool) (candidate : Option (Bool × ℕ)) (raw : Bool) (now : ℕ)
    → (update (made hold stable candidate) raw now).1.stable ≢ stable
    → (since : ℕ) × (candidate ≡ some (raw, since))
      × (hold ≤ now - since)
      × ((update (made hold stable candidate) raw now).1.stable ≡ raw)
unfolding update differs again
update_changes hold true candidate true now h = absurd (h refl)
update_changes hold false candidate false now h = absurd (h refl)
update_changes hold true none false now h = absurd (h refl)
update_changes hold false none true now h = absurd (h refl)
update_changes hold true (some (true, s)) false now h = absurd (h refl)
update_changes hold false (some (false, s)) true now h = absurd (h refl)
update_changes hold true (some (false, s)) false now h = (s, refl, ground arith, ground arith)
update_changes hold false (some (true, s)) true now h = (s, refl, ground arith, ground arith)

-- The candidate for a state that is not stable yet is at least as old as its readings.
abbrev IsWaiting : Bool → ℕ → Option (Bool × ℕ) → Type 0
IsWaiting v since none = ⊥
IsWaiting v since (some (w, s)) = (w ≡ v) × (s ≤ since)

abbrev IsBefore : ℕ → Option (Bool × ℕ) → Type 0
IsBefore t none = Unit
IsBefore t (some (w, s)) = s ≤ t

Backed-IsBefore :
    (candidate : Option (Bool × ℕ)) (t : ℕ) (past : Samples)
    → Backed candidate past
    → NotAfter t past
    → IsBefore t candidate
Backed-IsBefore none t past b n = tt
Backed-IsBefore (some (w, s)) t past b n = since-le w s t past b n

older :
    (stable v : Bool) (s t since : ℕ)
    → s ≤ t
    → stable ≢ v
    → (t ≡ since) ⊎ (stable ≢ v → IsWaiting v since (some (v, s)))
    → s ≤ since
older stable v s t since b n (inl e) = omega arith
older stable v s t since b n (inr h) = (h n).1

update-IsWaiting :
    (hold : ℕ) (stable : Bool) (candidate : Option (Bool × ℕ)) (v : Bool) (t since : ℕ)
    → IsBefore t candidate
    → (t ≡ since) ⊎ (stable ≢ v → IsWaiting v since candidate)
    → (update (made hold stable candidate) v t).1.stable ≢ v
    → IsWaiting v since (update (made hold stable candidate) v t).1.candidate
unfolding update differs again
update-IsWaiting hold true candidate true t since b h n = absurd (n refl)
update-IsWaiting hold false candidate false t since b h n = absurd (n refl)
update-IsWaiting hold true none false t since b (inl e) n = (refl, omega arith)
update-IsWaiting hold false none true t since b (inl e) n = (refl, omega arith)
update-IsWaiting hold true none false t since b (inr h) n = absurd (h n)
update-IsWaiting hold false none true t since b (inr h) n = absurd (h n)
update-IsWaiting hold true (some (true, s)) false t since b (inl e) n = (refl, omega arith)
update-IsWaiting hold false (some (false, s)) true t since b (inl e) n = (refl, omega arith)
update-IsWaiting hold true (some (true, s)) false t since b (inr h) n = cc (h n).0
update-IsWaiting hold false (some (false, s)) true t since b (inr h) n = cc (h n).0
update-IsWaiting hold true (some (false, s)) false t since b h n =
    elim (Bool-cases (leb hold (t - s))) [
      | inl e ↦ absurd (n (rw e))
      | inr e ↦ rw e (refl, older true false s t since b true≢false h)
    ]
update-IsWaiting hold false (some (true, s)) true t since b h n =
    elim (Bool-cases (leb hold (t - s))) [
      | inl e ↦ absurd (n (rw e))
      | inr e ↦ rw e (refl, older false true s t since b false≢true h)
    ]

after-IsWaiting :
    (hold : ℕ) (v : Bool) (since : ℕ) (samples : Samples)
    → HeldSince v since samples
    → AreOrdered samples
    → (after hold samples).stable ≢ v
    → IsWaiting v since (after hold samples).candidate
unfolding after
after-IsWaiting hold v since [] held o n = absurd held
after-IsWaiting hold v since ((raw, t) ∷ past) (e, held) (before, o) n =
    let d = after hold past in
    let was : (t ≡ since) ⊎ (d.stable ≢ v → IsWaiting v since d.candidate) = elim held [
      | inl here ↦ inl here
      | inr there ↦ inr (after-IsWaiting hold v since past there o)
    ] in
    subst (λ r. (update d r t).1.stable ≢ v → IsWaiting v since (update d r t).1.candidate) (sym e)
      (update-IsWaiting d.hold d.stable d.candidate v t since
        (Backed-IsBefore d.candidate t past (after-Backed hold past) before) was)
      n

update_switches :
    (hold : ℕ) (stable : Bool) (candidate : Option (Bool × ℕ)) (raw : Bool) (now since : ℕ)
    → IsWaiting raw since candidate
    → stable ≢ raw
    → hold ≤ now - since
    → (update (made hold stable candidate) raw now).1.stable ≡ raw
unfolding update differs again
update_switches hold true candidate true now since w n h = absurd (n refl)
update_switches hold false candidate false now since w n h = absurd (n refl)
update_switches hold true none false now since w n h = absurd w
update_switches hold false none true now since w n h = absurd w
update_switches hold true (some (true, s)) false now since w n h = cc w.0
update_switches hold false (some (false, s)) true now since w n h = cc w.0
update_switches hold true (some (false, s)) false now since w n h =
    rw (le→leb hold (now - s) (omega arith))
update_switches hold false (some (true, s)) true now since w n h =
    rw (le→leb hold (now - s) (omega arith))

-- The state of the contact changes at a reading exactly where the reading differs from the state and
-- has been there, without interruption, for the hold time: there is an earlier reading, the hold time
-- ago or longer, since which all were the same. Here the times of the readings do not run backwards.
pub after_changes :
    (hold : ℕ) (raw : Bool) (now : ℕ) (past : Samples)
    → AreOrdered past
    → ((after hold ((raw, now) ∷ past)).stable ≢ (after hold past).stable) ↔ (
        ((after hold past).stable ≢ raw)
        × ((since : ℕ) × HeldSince raw since past × (hold ≤ now - since)))
unfolding after
after_changes hold raw now past o = (changed, switched)
  where
    d : Debounce
    d = after hold past

    changed :
        (update d raw now).1.stable ≢ d.stable
        → (d.stable ≢ raw) × ((since : ℕ) × HeldSince raw since past × (hold ≤ now - since))
    changed h =
        let (since, c, long, s) = update_changes d.hold d.stable d.candidate raw now h in
        let held = subst (λ candidate. Backed candidate past) c (after-Backed hold past) in
        (λ e. h (s ∙ sym e), (since, held, omega (arith, after-hold hold past)))

    switched :
        (d.stable ≢ raw) × ((since : ℕ) × HeldSince raw since past × (hold ≤ now - since))
        → (update d raw now).1.stable ≢ d.stable
    switched (n, (since, held, long)) same =
        let waiting = after-IsWaiting hold raw since past held o n in
        n (
          sym same
          ∙ update_switches d.hold d.stable d.candidate raw now since waiting n
              (omega (arith, after-hold hold past)))
