-- ===== src/Prelude/Results.antt =====
-- The result of Rust code that may return an error or panic, as a monad.
use Prim.Native.Nat.{ℕ, zero, suc, ◌+◌, ◌-◌, ◌<◌}
use mathlib.Core.Path.{◌≡◌, refl, ap}
use mathlib.Core.Option.{Option, none, some}
use mathlib.Core.List.{List, [], ◌∷◌, ◌++◌}
use native.Mathlib.Omega.{arith}
use grid_edge_gateway.Prelude.Tests.{leb, le→leb, if◌then◌else◌}
use grid_edge_gateway.Prelude.Lists.{
  length, get_elem?, take, drop, length-append, take-append, drop-append,
}

-- `panic` is an index out of bounds: the thread unwinds and nothing is returned.
pub data Result {ℓ κ} (E : Type κ) (A : Type ℓ) : Type (ℓ ⊔ κ) where
  ok : A → Result E A
  err : E → Result E A
  panic : Result E A

infixl 5 ◌>>=◌
abbrev pub ◌>>=◌ {ℓ κ μ} :
    {E : Type μ} {A : Type ℓ} {B : Type κ} → Result E A → (A → Result E B) → Result E B
ok a >>= f = f a
err e >>= f = err e
panic >>= f = panic

-- `b[i]`
abbrev pub index {ℓ κ} : {E : Type κ} {A : Type ℓ} → List A → ℕ → Result E A
index b i = elim (get_elem? b i) [ none ↦ panic | some x ↦ ok x ]

-- `b[from..to]`, where `from ≤ to`.
abbrev pub slice {ℓ κ} : {E : Type κ} {A : Type ℓ} → List A → ℕ → ℕ → Result E (List A)
slice b from to = if leb to (length b) then ok (take (to - from) (drop from b)) else panic

-- `o.ok_or(e)`
abbrev pub ok_or {ℓ κ} : {E : Type κ} {A : Type ℓ} → Option A → E → Result E A
ok_or none e = err e
ok_or (some a) e = ok a

module _ {ℓ κ} {E : Type κ} {A : Type ℓ} where
  -- Reading at the seam of two lists.
  pub index-append :
      (i : ℕ) (xs : List A) (x : A) (ys : List A)
      → i ≡ length xs
      → index {E = E} (xs ++ (x ∷ ys)) i ≡ ok x
  index-append zero [] x ys e = refl
  index-append (suc i) [] x ys e = absurd (omega arith)
  index-append zero (z ∷ xs) x ys e = absurd (omega arith)
  index-append (suc i) (z ∷ xs) x ys e = index-append i xs x ys (omega arith)

  pub index_in : (b : List A) (i : ℕ) → i < length b → (x : A) × (index {E = E} b i ≡ ok x)
  index_in [] i h = elim h [ ]
  index_in (x ∷ b) zero h = (x, refl)
  index_in (x ∷ b) (suc i) h = index_in b i (omega arith)

  -- Reading behind the first list.
  pub index-append_right :
      (i j : ℕ) (xs ys : List A) → i ≡ length xs + j → index {E = E} (xs ++ ys) i ≡ index ys j
  index-append_right i j [] ys e = ap (index ys) (omega arith)
  index-append_right zero j (x ∷ xs) ys e = absurd (omega arith)
  index-append_right (suc i) j (x ∷ xs) ys e = index-append_right i j xs ys (omega arith)

  pub slice-append :
      (from to : ℕ) (xs ys zs : List A)
      → from ≡ length xs
      → to ≡ from + length ys
      → slice {E = E} (xs ++ (ys ++ zs)) from to ≡ ok ys
  slice-append from to xs ys zs e f = rw (
    le→leb to (length (xs ++ (ys ++ zs)))
        (omega (arith, length-append xs (ys ++ zs), length-append ys zs)),
    drop-append from xs (ys ++ zs) e,
    take-append (to - from) ys zs (omega arith),
  )
