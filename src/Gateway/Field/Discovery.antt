-- ===== src/Gateway/Field/Discovery.antt =====
-- The walk of `discover` over the bus against `locate_models` over the registers.
use mathlib.Core.Path.{ap₂}
use grid_edge_gateway.Prelude.{
  ℕ, zero, suc, ◌+◌, ◌≤◌, ◌<◌, ◌%◌, ◌≡◌, refl, sym, ap, ◌∙◌, List, [], ◌∷◌, ◌++◌, append_assoc,
  append-nil, Option, none, some, false, inl, inr, Option-cases, Bool-cases, ◌==◌, ltb, length,
  length-append, arith, Result, ok, ==→eq, ge→ltb, ltb→lt, ltb→ge,
}
use grid_edge_gateway.Devices.Sunspec.{
  ModelLocation, base, marker, end_id, header_at, locate_from, push_first, locate_models,
}
use grid_edge_gateway.Devices.Sunspec.Chains.{
  header_at-none, locate_from-none, locate_from-end, locate_from-cons,
}
use grid_edge_gateway.Gateway.Field.{FieldError, discover_from, discover}

push_first-some :
    (m : ModelLocation) (o : Option (List ModelLocation)) (found : List ModelLocation)
    → push_first m o ≡ some found
    → (rest : List ModelLocation) × (o ≡ some rest) × (m ∷ rest ≡ found)
push_first-some m none found e = absurd (cc e)
push_first-some m (some rest) found e = (rest, refl, cc e)

module _ {E : Type 0} (read : ℕ → ℕ → Result (FieldError E) (List ℕ)) (regs : List ℕ) where
  -- The device answers for the registers that it has.
  abbrev pub Serves : Type 0
  Serves =
      (pos a b : ℕ) → header_at regs pos ≡ some (a, b) → read (base + 2 + pos) 2 ≡ ok (a ∷ (b ∷ []))

  discover_from-end :
      (fuel pos b : ℕ) (found : List ModelLocation)
      → Serves
      → header_at regs pos ≡ some (end_id, b)
      → discover_from read (suc fuel) (base + 2 + pos) found ≡ ok found
  unfolding discover_from
  discover_from-end fuel pos b found s e = rw (s pos end_id b e, discover_from)

  discover_from-model :
      (fuel pos id len : ℕ) (found : List ModelLocation)
      → Serves
      → header_at regs pos ≡ some (id, len)
      → (id == end_id) ≡ false
      → length found < 32
      → discover_from read (suc fuel) (base + 2 + pos) found
        ≡ discover_from read fuel
            ((base + 2 + pos + (2 + len) % 65536) % 65536)
            (found ++ (record { id = id; body = (base + 2 + pos + 2) % 65536; len = len } ∷ []))
  unfolding discover_from
  discover_from-model fuel pos id len found s e n few =
      let full : ltb 32 (
            length
              (found ++ (record { id = id; body = (base + 2 + pos + 2) % 65536; len = len } ∷ [])))
          ≡ false =
        ge→ltb _ _ (
          omega (
            arith,
            length-append found
                (record { id = id; body = (base + 2 + pos + 2) % 65536; len = len } ∷ []),
          )) in
      rw (s pos id len e, n, full, discover_from)

  within :
      (fuel pos : ℕ) (found : List ModelLocation)
      → locate_from fuel regs pos ≡ some found
      → pos < length regs
  within fuel pos found e = elim (Bool-cases (ltb pos (length regs))) [
    | inl y ↦ ltb→lt pos (length regs) y
    | inr n ↦ absurd (
        cc (
          locate_from-none fuel regs pos (header_at-none regs pos (ltb→ge pos (length regs) n)),
          e,
        ))
  ]

  no_rounds : (pos : ℕ) → locate_from 0 regs pos ≡ none
  unfolding locate_from
  no_rounds pos = refl

  follow :
      (fuel rounds pos : ℕ) (before found : List ModelLocation)
      → Serves
      → base + 2 + length regs ≤ 65536
      → locate_from fuel regs pos ≡ some found
      → length before + length found ≤ 32
      → length found < rounds
      → discover_from read rounds (base + 2 + pos) before ≡ ok (before ++ found)
  follow fuel zero pos before found s bound e few k = absurd (omega arith)
  follow zero (suc rounds) pos before found s bound e few k = absurd (cc (no_rounds pos, e))
  follow (suc fuel) (suc rounds) pos before found s bound e few k =
      elim (Option-cases (header_at regs pos)) [
        | inl n ↦ absurd (cc (locate_from-none (suc fuel) regs pos n, e))
        | inr ((id, len), h) ↦ elim (Bool-cases (id == end_id)) [
          | inl last ↦
              let end : header_at regs pos ≡ some (end_id, len) =
                h ∙ ap (λ i. some (i, len)) (==→eq id end_id last) in
              let all : [] ≡ found = cc (locate_from-end fuel regs pos len end, e) in
              discover_from-end rounds pos len before s end
              ∙ ap ok (sym (append-nil before) ∙ ap (◌++◌ before) all)
          | inr more ↦
              let m : ModelLocation = record {
                id = id;
                body = (base + 2 + pos % 65536 + 2) % 65536;
                len = len;
              } in
              let (rest, r, q) =
                push_first-some m (locate_from fuel regs (pos + (2 + len))) found
                  (sym (locate_from-cons fuel regs pos id len h more) ∙ e) in
              let inside = within fuel (pos + (2 + len)) rest r in
              let one_less = ap length q in
              let one_more = length-append before (m ∷ []) in
              discover_from-model rounds pos id len before s h more (omega arith)
              ∙ (ap₂ (discover_from read rounds) (omega arith) (
                    ap (λ body. before ++ (record { id = id; body = body; len = len } ∷ []))
                      (omega arith))
                  ∙ (follow fuel rounds (pos + (2 + len)) (before ++ (m ∷ [])) rest s bound r
                        (omega arith) (omega arith)
                      ∙ ap ok (append_assoc before (m ∷ []) rest ∙ ap (◌++◌ before) q)))
        ]
      ]

  -- The walk over the bus finds what `locate_models` finds in the registers that the device has behind
  -- the marker, wherever that finds 32 models or fewer, and the device serves the marker and its registers and
  -- has them within the address space.
  pub discover-locate_models :
      (found : List ModelLocation)
      → read base 2 ≡ ok marker
      → Serves
      → base + 2 + length regs ≤ 65536
      → locate_models regs ≡ some found
      → length found ≤ 32
      → discover read ≡ ok found
  unfolding discover locate_models
  discover-locate_models found m s bound e few =
      rw m (follow (suc (length regs)) 33 0 [] found s bound e (omega arith) (omega arith))
