-- ===== src/Prelude/Bits.antt =====
-- Masks and unions of bits on bytes as arithmetic; each law is a table, checked by evaluation.
use Prim.Native.Nat.{ℕ, zero, suc, ◌+◌, ◌*◌, ◌/◌, ◌%◌, ◌<◌, bit_and, bit_or}
use mathlib.Core.Path.{◌≡◌, refl}
use mathlib.Core.Bool.{Bool, true, false}
use native.Mathlib.Omega.{arith}
use grid_edge_gateway.Prelude.Tests.{◌==◌, if◌then◌else◌}

module _ (f g : ℕ → ℕ) where
  agree_below : ℕ → Bool
  agree_below zero = true
  agree_below (suc n) = if f n == g n then agree_below n else false

  agree_below→eq : (n : ℕ) → agree_below n ≡ true → (i : ℕ) → i < n → f i ≡ g i
  unfolding agree_below
  agree_below→eq zero e i h = absurd (omega arith)
  agree_below→eq (suc n) e i h = ground (arith, agree_below→eq n (ground arith) i)

pub bit_and-0x01 : (b : ℕ) → b < 256 → bit_and b 0x01 ≡ b % 2
unfolding agree_below
bit_and-0x01 = agree_below→eq _ _ 256 refl

pub bit_and-0x03 : (b : ℕ) → b < 256 → bit_and b 0x03 ≡ b % 4
unfolding agree_below
bit_and-0x03 = agree_below→eq _ _ 256 refl

pub bit_and-0x07 : (b : ℕ) → b < 256 → bit_and b 0x07 ≡ b % 8
unfolding agree_below
bit_and-0x07 = agree_below→eq _ _ 256 refl

pub bit_and-0x0f : (b : ℕ) → b < 256 → bit_and b 0x0F ≡ b % 16
unfolding agree_below
bit_and-0x0f = agree_below→eq _ _ 256 refl

pub bit_and-0x1f : (b : ℕ) → b < 256 → bit_and b 0x1F ≡ b % 32
unfolding agree_below
bit_and-0x1f = agree_below→eq _ _ 256 refl

pub bit_and-0x3f : (b : ℕ) → b < 256 → bit_and b 0x3F ≡ b % 64
unfolding agree_below
bit_and-0x3f = agree_below→eq _ _ 256 refl

pub bit_and-0x7f : (b : ℕ) → b < 256 → bit_and b 0x7F ≡ b % 128
unfolding agree_below
bit_and-0x7f = agree_below→eq _ _ 256 refl

pub bit_and-0x40 : (b : ℕ) → b < 256 → bit_and b 0x40 ≡ b / 64 % 2 * 64
unfolding agree_below
bit_and-0x40 = agree_below→eq _ _ 256 refl

pub bit_and-0x80 : (b : ℕ) → b < 256 → bit_and b 0x80 ≡ b / 128 * 128
unfolding agree_below
bit_and-0x80 = agree_below→eq _ _ 256 refl

pub bit_or-0x80 : (b : ℕ) → b < 128 → bit_or b 0x80 ≡ b + 128
unfolding agree_below
bit_or-0x80 = agree_below→eq _ _ 128 refl

pub bit_or_zero : (b : ℕ) → b < 256 → bit_or b 0 ≡ b
unfolding agree_below
bit_or_zero = agree_below→eq _ _ 256 refl

-- The low five bits and the three bits above them.
pub bit_or_high : (n : ℕ) → n < 256 → bit_or (n % 32) (n / 32 * 32) ≡ n
unfolding agree_below
bit_or_high = agree_below→eq _ _ 256 refl

pub bit_and-0x10 : (b : ℕ) → b < 256 → bit_and b 0x10 ≡ b / 16 % 2 * 16
unfolding agree_below
bit_and-0x10 = agree_below→eq _ _ 256 refl

pub bit_and-0x20 : (b : ℕ) → b < 256 → bit_and b 0x20 ≡ b / 32 % 2 * 32
unfolding agree_below
bit_and-0x20 = agree_below→eq _ _ 256 refl

pub bit_and-0xf0 : (b : ℕ) → b < 256 → bit_and b 0xF0 ≡ b / 16 * 16
unfolding agree_below
bit_and-0xf0 = agree_below→eq _ _ 256 refl

pub bit_or-0x01 : (b : ℕ) → b < 128 → bit_or (b * 2) 1 ≡ b * 2 + 1
unfolding agree_below
bit_or-0x01 = agree_below→eq _ _ 128 refl

pub bit_or-low : (n : ℕ) → n < 64 → bit_or 1 (n * 4) ≡ n * 4 + 1
unfolding agree_below
bit_or-low = agree_below→eq _ _ 64 refl

pub bit_or_zero_left : (n : ℕ) → n < 256 → bit_or 0 n ≡ n
unfolding agree_below
bit_or_zero_left = agree_below→eq _ _ 256 refl
