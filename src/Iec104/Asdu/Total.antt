-- ===== src/Iec104/Asdu/Total.antt =====
-- `Asdu::decode` on any bytes.
use grid_edge_gateway.Prelude.{
  ℕ, zero, suc, ◌+◌, ◌-◌, ◌*◌, ◌<◌, ◌≤◌, ◌≡◌, ◌≢◌, refl, ap, bit_and, List, [], ◌∷◌, Bool, true,
  false, length, get_elem?, All, if◌then◌else◌, leb, none, some, ok, err, panic, arith, take, drop,
  All-take, All-drop, length-take, length-drop, index_in, le→leb, Option-cases, Bool-cases, leb→gt,
  leb→le, ◌↔◌, inl, inr,
}
use grid_edge_gateway.Prelude.Bits.{bit_and-0x7f, bit_and-0x80}
use grid_edge_gateway.Iec104.Apci.{AreBytes, u16_from_le}
use grid_edge_gateway.Iec104.Element.{
  Cause, cause_from_u8, size, type_id, has_bit, u32_from_le, AsduError, truncated,
}
use grid_edge_gateway.Iec104.Element.Codec.{IsElement}
use grid_edge_gateway.Iec104.Element.Total.{decode_element_total}
use grid_edge_gateway.Iec104.Asdu.{
  InformationObject, Asdu, ioa_at, address_at, decode_objects, decode_body, decode, expected_length,
}

-- The octets of an address in front of each element.
abbrev header : Bool → ℕ
header sequence = if sequence then 0 else 3

ioa_at_in : (b : List ℕ) (pos : ℕ) → pos + 3 ≤ length b → (v : ℕ) × (ioa_at b pos ≡ ok v)
unfolding ioa_at
ioa_at_in b pos h =
    let (x, e) = index_in {E = AsduError} b pos (omega arith) in
    let (y, f) = index_in {E = AsduError} b (pos + 1) (omega arith) in
    let (z, g) = index_in {E = AsduError} b (pos + 2) (omega arith) in
    (u32_from_le x y z 0, rw (e, f, g))

address_at_in :
    (b : List ℕ) (sequence : Bool) (first k pos : ℕ)
    → pos + header sequence ≤ length b
    → (v : ℕ) × (address_at b sequence first k pos ≡ ok (v, pos + header sequence))
unfolding address_at
address_at_in b true first k pos h = (first + k, ground arith)
address_at_in b false first k pos h = let (v, e) = ioa_at_in b pos h in (v, rw e)

-- The objects of `os` have elements of the type `id`.
abbrev pub Typed : ℕ → List InformationObject → Type 0
Typed id = All (λ o. (type_id o.element ≡ id) × IsElement o.element)

-- Where the octets are there, the loop over the objects ends with all of them.
decode_objects_total :
    (id n : ℕ) (b : List ℕ) (sequence : Bool) (first k pos count : ℕ)
    → size id ≡ some n
    → AreBytes b
    → pos + count * (header sequence + n) ≤ length b
    → (os : List InformationObject) × (decode_objects id n b sequence first k pos count ≡ ok os)
      × (length os ≡ count)
      × Typed id os
unfolding decode_objects
decode_objects_total id n b sequence first k pos zero s bytes h = ([], refl, refl, tt)
decode_objects_total id n b sequence first k pos (suc count) s bytes h =
    let from = pos + header sequence in
    let octets = take (from + n - from) (drop from b) in
    let (v, address_eq) = address_at_in b sequence first k pos (omega arith) in
    let (e, element_eq, typed, fits) =
      decode_element_total id n octets s
        (omega (arith, length-take (from + n - from) (drop from b), length-drop from b))
        (All-take _ (from + n - from) (drop from b) (All-drop _ from b bytes)) in
    let (os, rest_eq, rest_length, rest_typed) =
      decode_objects_total id n b sequence first (k + 1) (from + n) count s bytes (omega arith) in
    (
      record { ioa = v; element = e } ∷ os,
      rw (address_eq, le→leb (from + n) (length b) (omega arith), element_eq, rest_eq),
      ap suc rest_length,
      ((typed, fits), rest_typed),
    )

index_out : (b : List ℕ) (i : ℕ) → length b ≤ i → get_elem? b i ≡ none
index_out [] i h = refl
index_out (x ∷ b) zero h = absurd (omega arith)
index_out (x ∷ b) (suc i) h = index_out b i (omega arith)

ioa_at_out : (b : List ℕ) (pos : ℕ) → length b < pos + 3 → ioa_at b pos ≡ panic
unfolding ioa_at
ioa_at_out b pos h = ground (arith, index_out b (pos + 2))

module _ (b0 b1 b2 b3 b4 b5 n : ℕ) (rest : List ℕ) (c : Cause) (known_type : size b0 ≡ some n)
    (known_cause : cause_from_u8 (bit_and b2 0x3F) ≡ some c) where
  abbrev input : List ℕ
  input = b0 ∷ b1 ∷ b2 ∷ b3 ∷ b4 ∷ b5 ∷ rest

  -- An ASDU whose type and cause are known, whose octets are all there, and which has at least nine
  -- octets, decodes to that type,
  -- that cause and the announced number of objects, each of the type and with fields that fit.
  pub decode_complete :
      AreBytes input
      → expected_length (has_bit b1 0x80) (bit_and b1 0x7F) n ≤ length input
      → 9 ≤ length input
      → (a : Asdu) × (decode input ≡ ok a)
        × (a.id ≡ b0)
        × (a.cause ≡ c)
        × (length a.objects ≡ bit_and b1 0x7F)
        × Typed b0 a.objects
  unfolding decode decode_body
  decode_complete bytes fits long =
      let sequence = has_bit b1 0x80 in
      let pos : ℕ = if sequence then 9 else 6 in
      let (first, first_eq) = ioa_at_in input 6 long in
      let (os, objects_eq, count, typed) =
        decode_objects_total b0 n input sequence first 0 pos (bit_and b1 0x7F) known_type bytes
          (ground arith) in
      (
        record {
          id = b0;
          cause = c;
          negative = has_bit b2 0x40;
          test = has_bit b2 0x80;
          originator = b3;
          common_address = u16_from_le b4 b5;
          objects = os;
        },
        ground (arith, known_type, known_cause, first_eq, objects_eq),
        refl,
        refl,
        count,
        typed,
      )

  -- Fewer octets than announced are refused.
  pub decode_short :
      length input < expected_length (has_bit b1 0x80) (bit_and b1 0x7F) n
      → decode input ≡ err truncated
  unfolding decode decode_body
  decode_short h = ground (arith, known_type, known_cause)

  decode_empty :
      AreBytes input
      → bit_and b1 0x7F ≡ 0
      → has_bit b1 0x80 ≡ false
      → length rest < 3
      → decode input ≡ panic
  unfolding decode decode_body
  decode_empty bytes count sequence h =
      ground (arith, known_type, known_cause, ioa_at_out input 6 (omega arith))

  panic_only : AreBytes input → decode input ≡ panic → (b1 ≡ 0) × (length rest < 3)
  panic_only bytes e =
      elim (Bool-cases
        (leb (expected_length (has_bit b1 0x80) (bit_and b1 0x7F) n) (length input))) [
          | inr short ↦ cc (decode_short (leb→gt _ _ short))
          | inl fits ↦ elim (Bool-cases (leb 9 (length input))) [
            | inl long ↦
                let (a, done, _, _, _, _) =
                  decode_complete bytes (leb→le _ _ fits) (leb→le _ _ long) in
                cc
            | inr short ↦ ground (arith, bit_and-0x7f b1, bit_and-0x80 b1)
          ]
        ]

-- Of six or more bytes, the decoder panics on exactly those that announce no object, SQ = 0, under a type and a cause
-- that it knows, and end within the three octets that follow the header: it reads the first
-- object's address there before it looks at the number of objects.
pub decode-eq-panic :
    (b0 b1 b2 b3 b4 b5 : ℕ) (rest : List ℕ)
    → AreBytes (b0 ∷ b1 ∷ b2 ∷ b3 ∷ b4 ∷ b5 ∷ rest)
    → (decode (b0 ∷ b1 ∷ b2 ∷ b3 ∷ b4 ∷ b5 ∷ rest) ≡ panic)
      ↔ ((b1 ≡ 0) × (length rest < 3) × (size b0 ≢ none) × (cause_from_u8 (bit_and b2 0x3F) ≢ none))
unfolding decode
decode-eq-panic b0 b1 b2 b3 b4 b5 rest bytes = elim (Option-cases (size b0)) [
  | inl no_type ↦ (λ e. ground (arith, no_type), λ h. absurd (h.2 no_type))
  | inr (n, known_type) ↦ elim (Option-cases (cause_from_u8 (bit_and b2 0x3F))) [
    | inl no_cause ↦ (λ e. ground (arith, known_type, no_cause), λ h. absurd (h.3 no_cause))
    | inr (c, known_cause) ↦ (
      λ e.
          let (count, short) =
            panic_only b0 b1 b2 b3 b4 b5 n rest c known_type known_cause bytes e in
          (count, short, rw known_type (λ x. cc), rw known_cause (λ x. cc)),
      λ h.
          decode_empty b0 b1 b2 b3 b4 b5 n rest c known_type known_cause bytes (rw h.0) (rw h.0)
            h.1,
    )
  ]
]
