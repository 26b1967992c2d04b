-- ===== src/Devices/Sunspec/Texts.antt =====
-- Texts in registers: `put_string` and `get_string`.
use mathlib.Core.Path.{ap₂}
use grid_edge_gateway.Prelude.{
  ℕ, zero, suc, ◌+◌, ◌*◌, ◌/◌, ◌%◌, ◌≤◌, ◌<◌, ◌≡◌, ◌≢◌, refl, sym, ap, ◌∙◌, List, [], ◌∷◌, ◌++◌,
  length, All, arith, get_elem?-append, get_elem?-none, length-append, append_assoc, ne→==,
}
use grid_edge_gateway.Devices.Sunspec.{
  byte_at, put_from, put_string, to_be_bytes, before_nul, get_string,
}

-- A byte that does not end a text.
abbrev pub IsByte : ℕ → Type 0
IsByte b = (b ≢ 0) × (b < 256)

byte_at-append :
    (front : List ℕ) (b : ℕ) (s : List ℕ) (i : ℕ)
    → i ≡ length front
    → byte_at (front ++ (b ∷ s)) i ≡ b
byte_at-append front b s i e = rw (get_elem?-append i 0 front (b ∷ s) (omega arith), byte_at)

byte_at-none : (s : List ℕ) (i : ℕ) → length s ≤ i → byte_at s i ≡ 0
byte_at-none s i h = rw (get_elem?-none i s h, byte_at)

-- The bytes of one register.
bytes-cons :
    (a b : ℕ) (regs : List ℕ)
    → b < 256
    → to_be_bytes ((a * 256 + b) ∷ regs) ≡ a ∷ (b ∷ to_be_bytes regs)
bytes-cons a b regs h =
    let high : (a * 256 + b) / 256 ≡ a = omega arith in
    let low : (a * 256 + b) % 256 ≡ b = omega arith in rw (high, low)

before_nul-cons : (b : ℕ) (s : List ℕ) → b ≢ 0 → before_nul (b ∷ s) ≡ b ∷ before_nul s
before_nul-cons b s h = rw (ne→== b 0 h)

bytes-put_from :
    (n i a b : ℕ) (s : List ℕ)
    → byte_at s (2 * i) ≡ a
    → byte_at s (2 * i + 1) ≡ b
    → b < 256
    → to_be_bytes (put_from i (suc n) s) ≡ a ∷ (b ∷ to_be_bytes (put_from (i + 1) n s))
bytes-put_from n i a b s e k h =
    ap₂ (λ x y. to_be_bytes ((x * 256 + y) ∷ put_from (i + 1) n s)) e k
    ∙ bytes-cons a b (put_from (i + 1) n s) h

get-put_from :
    (n i : ℕ) (front s : List ℕ)
    → 2 * i ≡ length front
    → length s ≤ 2 * n
    → All IsByte s
    → before_nul (to_be_bytes (put_from i n (front ++ s))) ≡ s
get-put_from zero i front [] e room h = refl
get-put_from zero i front (b ∷ s) e room h = absurd (omega arith)
get-put_from (suc n) i front [] e room h =
    let end = length-append front [] in
    ap before_nul (
      bytes-put_from n i 0 0 (front ++ []) (byte_at-none (front ++ []) (2 * i) (omega arith))
        (byte_at-none (front ++ []) (2 * i + 1) (omega arith)) (omega arith))
get-put_from (suc n) i front (a ∷ []) e room ((x, y), h) =
    let end = length-append front (a ∷ []) in
    ap before_nul (
      bytes-put_from n i a 0 (front ++ (a ∷ [])) (byte_at-append front a [] (2 * i) e)
        (byte_at-none (front ++ (a ∷ [])) (2 * i + 1) (omega arith)) (omega arith))
    ∙ before_nul-cons a (0 ∷ to_be_bytes (put_from (i + 1) n (front ++ (a ∷ [])))) x
get-put_from (suc n) i front (a ∷ (b ∷ s)) e room ((x, y), ((z, w), h)) =
    let longer = length-append front (a ∷ []) in
    let longest = length-append front (a ∷ (b ∷ [])) in
    let second : byte_at (front ++ (a ∷ (b ∷ s))) (2 * i + 1) ≡ b =
      ap (λ t. byte_at t (2 * i + 1)) (sym (append_assoc front (a ∷ []) (b ∷ s)))
      ∙ byte_at-append (front ++ (a ∷ [])) b s (2 * i + 1) (omega arith) in
    let rest = put_from (i + 1) n (front ++ (a ∷ (b ∷ s))) in
    ap before_nul (
      bytes-put_from n i a b (front ++ (a ∷ (b ∷ s))) (byte_at-append front a (b ∷ s) (2 * i) e)
        second w)
    ∙ (before_nul-cons a (b ∷ to_be_bytes rest) x
        ∙ ap (◌∷◌ a) (
            before_nul-cons b (to_be_bytes rest) z
            ∙ ap (◌∷◌ b) (
                ap (λ t. before_nul (to_be_bytes (put_from (i + 1) n t)))
                  (sym (append_assoc front (a ∷ (b ∷ [])) s))
                ∙ get-put_from n (i + 1) (front ++ (a ∷ (b ∷ []))) s (omega arith) (omega arith)
                    h)))

-- A text that is put into registers is read back, as long as it fits and has no byte of value 0.
pub get_string-put_string :
    (n : ℕ) (s : List ℕ) → length s ≤ 2 * n → All IsByte s → get_string (put_string n s) ≡ s
unfolding get_string put_string
get_string-put_string n s room h = get-put_from n 0 [] s (omega arith) room h
