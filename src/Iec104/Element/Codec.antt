-- ===== src/Iec104/Element/Codec.antt =====
-- Causes, quality flags and information elements on the wire: `to_u8`/`from_u8`, `bits`/`from_bits`
-- and `Element::encode`/`Element::decode`.
use grid_edge_gateway.Prelude.{
  ℕ, ◌+◌, ◌*◌, ◌/◌, ◌<◌, ◌≤◌, ◌^◌, ◌≡◌, refl, bit_and, bit_or, List, [], ◌∷◌, ◌++◌, Bool, true,
  false, some, length, ok, arith, append-nil, drop,
}
use grid_edge_gateway.Prelude.Bits.{
  bit_and-0x01, bit_and-0x1f, bit_and-0x7f, bit_and-0x80, bit_or-0x80, bit_or_zero, bit_or-low,
  bit_or_zero_left,
}
use grid_edge_gateway.Iec104.Time.Wire.{IsTag}
use grid_edge_gateway.Iec104.Time.Wire
use grid_edge_gateway.Iec104.Time.{Cp56Time2a}
use grid_edge_gateway.Iec104.Time
use grid_edge_gateway.Iec104.Element.{
  Cause, periodic, cause_to_u8, cause_from_u8, Quality, quality_bits, quality_from_bits, Element,
  single_point, single_point_time, float, float_time, end_of_init, single_command, setpoint_float,
  interrogation, clock_sync, type_id, size, encode, decode, bool_to_u8, has_bit, u32_to_le, time_at,
}

pub cause-from-to : (c : Cause) → cause_from_u8 (cause_to_u8 c) ≡ some c
unfolding cause_from_u8 cause_to_u8
cause-from-to periodic = refl
cause-from-to c = refl

pub cause_to_u8-lt : (c : Cause) → cause_to_u8 c < 64
unfolding cause_to_u8
cause_to_u8-lt periodic = omega arith
cause_to_u8-lt c = omega arith

quality-from-bits : (q : Quality) → quality_from_bits (quality_bits q) true ≡ q
unfolding quality_from_bits quality_bits
quality-from-bits q = ground arith

quality_bits-lt : (q : Quality) → quality_bits q < 256
unfolding quality_bits
quality_bits-lt q = ground arith

-- The octet SIQ: four quality flags over the value.
siq :
    (on : Bool) (q : Quality)
    → q.overflow ≡ false
    → let b = bit_or (bit_and (quality_bits q) 0xF0) (bool_to_u8 on) in
      (has_bit b 1 ≡ on) × (quality_from_bits b false ≡ q)
unfolding quality_from_bits quality_bits
siq on q h = ground arith

low_part :
    (on : Bool) (n : ℕ)
    → n < 32
    → bit_or (bool_to_u8 on) (bit_and n 0x1F * 4) ≡ n * 4 + bool_to_u8 on
low_part true n h = ground (arith, bit_and-0x1f n, bit_or-low n)
low_part false n h = ground (arith, bit_and-0x1f n, bit_or_zero_left (n * 4))

with_top_bit :
    (select : Bool) (v : ℕ)
    → v < 128
    → bit_or v (bool_to_u8 select * 128) ≡ v + bool_to_u8 select * 128
with_top_bit true v h = bit_or-0x80 v h
with_top_bit false v h = ground (arith, bit_or_zero v)

command_octet_lem :
    (on select : Bool) (n : ℕ)
    → n < 32
    → bit_or (bit_or (bool_to_u8 on) (bit_and n 0x1F * 4)) (bool_to_u8 select * 128)
      ≡ n * 4 + bool_to_u8 on + bool_to_u8 select * 128
command_octet_lem on select n h = rw (low_part on n h) (with_top_bit select _ (ground arith))

-- The octet SCO: the value, the qualifier and the select bit.
command_octet :
    (on select : Bool) (n : ℕ)
    → n < 32
    → let b = n * 4 + bool_to_u8 on + bool_to_u8 select * 128 in
      (b < 256) × (has_bit b 1 ≡ on) × (has_bit b 0x80 ≡ select) × (bit_and (b / 4) 0x1F ≡ n)
command_octet on select n h =
    let b = n * 4 + bool_to_u8 on + bool_to_u8 select * 128 in
    ground (arith, bit_and-0x01 b, bit_and-0x80 b, bit_and-0x1f (b / 4))

-- The octet QOS: the qualifier and the select bit.
setpoint_octet :
    (select : Bool) (n : ℕ)
    → n < 128
    → let b = n + bool_to_u8 select * 128 in
      (b < 256) × (has_bit b 0x80 ≡ select) × (bit_and b 0x7F ≡ n)
setpoint_octet select n h =
    let b = n + bool_to_u8 select * 128 in ground (arith, bit_and-0x80 b, bit_and-0x7f b)

-- Every field fits the bits that its element has for it, and a single point has no overflow flag.
abbrev pub IsElement : Element → Type 0
IsElement (single_point on q) = q.overflow ≡ false
IsElement (single_point_time on q t) = (q.overflow ≡ false) × IsTag t
IsElement (float v q) = v < 2 ^ 32
IsElement (float_time v q t) = (v < 2 ^ 32) × IsTag t
IsElement (end_of_init coi) = coi < 256
IsElement (single_command on s n) = n < 32
IsElement (setpoint_float v s n) = (v < 2 ^ 32) × (n < 128)
IsElement (interrogation qoi) = qoi < 256
IsElement (clock_sync t) = IsTag t

-- The table of sizes agrees with what is written.
pub size-encode : (e : Element) → size (type_id e) ≡ some (length (encode e))
unfolding size type_id encode
size-encode (single_point on q) = refl
size-encode (single_point_time on q t) = ground (arith, Wire.length-encode t)
size-encode (float_time v q t) = ground (arith, Wire.length-encode t)
size-encode (clock_sync t) = ground (arith, Wire.length-encode t)
size-encode e = refl

time_at-encode :
    (t : Cp56Time2a) (i : ℕ) (b : List ℕ)
    → IsTag t
    → i ≤ length b
    → drop i b ≡ Time.encode t
    → time_at b i ≡ ok t
unfolding time_at
time_at-encode t i b h n e = ground (arith, rw append-nil at (Wire.decode-encode_tag t [] h))

-- An element whose fields fit is read back from its octets under its own type.
pub decode-encode_element : (e : Element) → IsElement e → decode (type_id e) (encode e) ≡ ok e
unfolding decode type_id encode
decode-encode_element (single_point on q) h = ground (arith, siq on q)
decode-encode_element (single_point_time on q t) h = ground (
  arith,
  siq on q,
  time_at-encode t 1 (bit_or (bit_and (quality_bits q) 0xF0) (bool_to_u8 on) ∷ Time.encode t),
)
decode-encode_element (float v q) h = ground (arith, quality-from-bits q)
decode-encode_element (float_time v q t) h = ground (
  arith,
  quality-from-bits q,
  time_at-encode t 5 (u32_to_le v ++ (quality_bits q ∷ Time.encode t)),
)
decode-encode_element (end_of_init coi) h = refl
decode-encode_element (single_command on s n) h =
    ground (arith, command_octet_lem on s n, command_octet on s n)
decode-encode_element (setpoint_float v s n) h =
    ground (arith, with_top_bit s n, bit_and-0x7f n, setpoint_octet s n)
decode-encode_element (interrogation qoi) h = refl
decode-encode_element (clock_sync t) h = ground (arith, time_at-encode t 0 (Time.encode t))
