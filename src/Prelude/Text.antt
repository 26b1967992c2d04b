-- ===== src/Prelude/Text.antt =====
-- Texts as the lists of their bytes (the texts of the source are ASCII), and the functions of `str`
-- that the source uses.
use Prim.Native.Nat.{ℕ, ◌-◌}
use Prim.Native.String.{String}
use Prim.Native.Char.{code}
use mathlib.Core.Path.{◌≡◌, refl}
use mathlib.Core.Bool.{Bool, true, false, ◌&&◌}
use mathlib.Core.List.{List, [], ◌∷◌, ◌++◌}
use native.Mathlib.Omega.{arith}
use grid_edge_gateway.Prelude.Tests.{◌==◌, leb, eq→==, ==→eq}
use grid_edge_gateway.Prelude.Lists.{length, drop}

abbrev pub codes : String → List ℕ
codes String.[] = []
codes (String.◌∷◌ c s) = code c ∷ codes s

abbrev pub same : List ℕ → List ℕ → Bool
same [] [] = true
same [] (d ∷ t) = false
same (c ∷ s) [] = false
same (c ∷ s) (d ∷ t) = (c == d) && same s t

pub same_refl : (s : List ℕ) → same s s ≡ true
same_refl [] = refl
same_refl (c ∷ s) = ground (arith, eq→== c c refl, same_refl s)

pub same-eq : (s t : List ℕ) → same s t ≡ true → s ≡ t
same-eq [] [] h = refl
same-eq [] (d ∷ t) h = cc
same-eq (c ∷ s) [] h = cc
same-eq (c ∷ s) (d ∷ t) h = ground (arith, ==→eq c d, same-eq s t)

abbrev pub is_prefix : List ℕ → List ℕ → Bool
is_prefix [] s = true
is_prefix (c ∷ p) [] = false
is_prefix (c ∷ p) (d ∷ s) = (c == d) && is_prefix p s

pub is_prefix-append : (p s : List ℕ) → is_prefix p (p ++ s) ≡ true
is_prefix-append [] s = refl
is_prefix-append (c ∷ p) s = ground (arith, eq→== c c refl, is_prefix-append p s)

unfoldable pub starts_with : String → String → Bool
starts_with s p = is_prefix (codes p) (codes s)

unfoldable pub ends_with : String → String → Bool
ends_with s p =
    let n = length (codes s) in
    leb (length (codes p)) n && is_prefix (codes p) (drop (n - length (codes p)) (codes s))
