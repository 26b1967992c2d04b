-- ===== src/Iec104/Element/Total.antt =====
-- `Element::decode` on octets that nobody encoded: every slice of the right size is an element.
use grid_edge_gateway.Prelude.{
  ℕ, ◌/◌, ◌<◌, ◌≤◌, ◌≡◌, refl, subst, sym, bit_and, List, [], ◌∷◌, true, false, some, length, ok,
  arith, ◌⊎◌, inl, inr, drop,
}
use grid_edge_gateway.Prelude.Bits.{bit_and-0x1f, bit_and-0x7f}
use grid_edge_gateway.Iec104.Apci.{AreBytes}
use grid_edge_gateway.Iec104.Time.Wire.{IsTag}
use grid_edge_gateway.Iec104.Time.Wire
use grid_edge_gateway.Iec104.Time.{Cp56Time2a}
use grid_edge_gateway.Iec104.Element.{
  quality_from_bits, Element, single_point, single_point_time, float, float_time, end_of_init,
  single_command, setpoint_float, interrogation, clock_sync, type_id, size, decode, has_bit,
  u32_from_le, time_at,
}
use grid_edge_gateway.Iec104.Element.Codec.{IsElement}

-- The slice decodes, to an element of the type that the ASDU names, with fields that fit.
abbrev pub Decodes : ℕ → List ℕ → Type 0
Decodes id b = (e : Element) × (decode id b ≡ ok e) × (type_id e ≡ id) × IsElement e

time_at_total :
    (b : List ℕ) (i : ℕ)
    → i ≤ length b
    → AreBytes (drop i b)
    → 7 ≤ length (drop i b)
    → (t : Cp56Time2a) × (time_at b i ≡ ok t) × IsTag t
unfolding time_at
time_at_total b i h bytes n =
    let (t, e, fits) = Wire.decode-IsTag_total (drop i b) bytes n in (t, ground arith, fits)

one_octet :
    (id b0 : ℕ) → (id ≡ 1) ⊎ (id ≡ 45) ⊎ (id ≡ 70) ⊎ (id ≡ 100) → b0 < 256 → Decodes id (b0 ∷ [])
unfolding decode type_id quality_from_bits
one_octet id b0 (inl e) h =
    (single_point (has_bit b0 1) (quality_from_bits b0 false), ground arith, ground arith, refl)
one_octet id b0 (inr (inl e)) h = (
  single_command (has_bit b0 1) (has_bit b0 0x80) (bit_and (b0 / 4) 0x1F),
  ground arith,
  ground arith,
  ground (arith, bit_and-0x1f (b0 / 4)),
)
one_octet id b0 (inr (inr (inl e))) h = (end_of_init b0, ground arith, ground arith, h)
one_octet id b0 (inr (inr (inr e))) h = (interrogation b0, ground arith, ground arith, h)

five_octets :
    (id b0 b1 b2 b3 b4 : ℕ)
    → (id ≡ 13) ⊎ (id ≡ 50)
    → AreBytes (b0 ∷ b1 ∷ b2 ∷ b3 ∷ b4 ∷ [])
    → Decodes id (b0 ∷ b1 ∷ b2 ∷ b3 ∷ b4 ∷ [])
unfolding decode type_id
five_octets id b0 b1 b2 b3 b4 (inl e) h = (
  float (u32_from_le b0 b1 b2 b3) (quality_from_bits b4 true),
  ground arith,
  ground arith,
  omega arith,
)
five_octets id b0 b1 b2 b3 b4 (inr e) h = (
  setpoint_float (u32_from_le b0 b1 b2 b3) (has_bit b4 0x80) (bit_and b4 0x7F),
  ground arith,
  ground arith,
  ground (arith, bit_and-0x7f b4),
)

timed_point : (b0 : ℕ) (b : List ℕ) → length b ≡ 7 → AreBytes (b0 ∷ b) → Decodes 30 (b0 ∷ b)
unfolding decode type_id quality_from_bits
timed_point b0 b n h =
    let (t, e, fits) = time_at_total (b0 ∷ b) 1 (omega arith) h.1 (omega arith) in
    (
      single_point_time (has_bit b0 1) (quality_from_bits b0 false) t,
      ground arith,
      refl,
      (refl, fits),
    )

timed_float :
    (b0 b1 b2 b3 b4 : ℕ) (b : List ℕ)
    → length b ≡ 7
    → AreBytes (b0 ∷ b1 ∷ b2 ∷ b3 ∷ b4 ∷ b)
    → Decodes 36 (b0 ∷ b1 ∷ b2 ∷ b3 ∷ b4 ∷ b)
unfolding decode type_id
timed_float b0 b1 b2 b3 b4 b n h =
    let (t, e, fits) =
      time_at_total (b0 ∷ b1 ∷ b2 ∷ b3 ∷ b4 ∷ b) 5 (omega arith) h.1.1.1.1.1 (omega arith) in
    (
      float_time (u32_from_le b0 b1 b2 b3) (quality_from_bits b4 true) t,
      ground arith,
      refl,
      (omega arith, fits),
    )

clock : (b : List ℕ) → length b ≡ 7 → AreBytes b → Decodes 103 b
unfolding decode type_id
clock b n h =
    let (t, e, fits) = time_at_total b 0 (omega arith) h (omega arith) in
    (clock_sync t, ground arith, refl, fits)

size_cases :
    (id n : ℕ)
    → size id ≡ some n
    → ((n ≡ 1) × ((id ≡ 1) ⊎ (id ≡ 45) ⊎ (id ≡ 70) ⊎ (id ≡ 100)))
      ⊎ ((n ≡ 5) × ((id ≡ 13) ⊎ (id ≡ 50)))
      ⊎ ((n ≡ 8) × (id ≡ 30))
      ⊎ ((n ≡ 12) × (id ≡ 36))
      ⊎ ((n ≡ 7) × (id ≡ 103))
unfolding size
size_cases id n h = ground arith

by_size :
    (id n : ℕ) (b : List ℕ)
    → ((n ≡ 1) × ((id ≡ 1) ⊎ (id ≡ 45) ⊎ (id ≡ 70) ⊎ (id ≡ 100)))
      ⊎ ((n ≡ 5) × ((id ≡ 13) ⊎ (id ≡ 50)))
      ⊎ ((n ≡ 8) × (id ≡ 30))
      ⊎ ((n ≡ 12) × (id ≡ 36))
      ⊎ ((n ≡ 7) × (id ≡ 103))
    → length b ≡ n
    → AreBytes b
    → Decodes id b
by_size id n (b0 ∷ []) (inl (e, ids)) l h = one_octet id b0 ids h.0
by_size id n b (inl (e, ids)) l h = absurd (omega arith)
by_size id n (b0 ∷ b1 ∷ b2 ∷ b3 ∷ b4 ∷ []) (inr (inl (e, ids))) l h =
    five_octets id b0 b1 b2 b3 b4 ids h
by_size id n b (inr (inl (e, ids))) l h = absurd (omega arith)
by_size id n (b0 ∷ b) (inr (inr (inl (e, is)))) l h =
    subst (λ i. Decodes i (b0 ∷ b)) (sym is) (timed_point b0 b (omega arith) h)
by_size id n b (inr (inr (inl (e, is)))) l h = absurd (omega arith)
by_size id n (b0 ∷ b1 ∷ b2 ∷ b3 ∷ b4 ∷ b) (inr (inr (inr (inl (e, is))))) l h =
    subst (λ i. Decodes i (b0 ∷ b1 ∷ b2 ∷ b3 ∷ b4 ∷ b)) (sym is)
      (timed_float b0 b1 b2 b3 b4 b (omega arith) h)
by_size id n b (inr (inr (inr (inl (e, is))))) l h = absurd (omega arith)
by_size id n b (inr (inr (inr (inr (e, is))))) l h =
    subst (λ i. Decodes i b) (sym is) (clock b (omega arith) h)

-- Every slice of the size that its type has decodes.
pub decode_element_total :
    (id n : ℕ) (b : List ℕ) → size id ≡ some n → length b ≡ n → AreBytes b → Decodes id b
decode_element_total id n b h l bytes = by_size id n b (size_cases id n h) l bytes
