-- ===== src/Iec104/Element.antt =====
-- `crates/iec104/src/asdu.rs`, its first half: causes of transmission, quality flags and information
-- elements. An `f32` is its bit pattern, a number below 2^32: this code only moves it between the
-- wire and the element.
pub mod Codec
pub mod Total
use grid_edge_gateway.Prelude.{
  ℕ, ◌+◌, ◌*◌, ◌/◌, ◌%◌, bit_and, bit_or, List, [], ◌∷◌, ◌++◌, Bool, true, false, not, ◌&&◌, ◌||◌,
  Option, none, some, length, drop, leb, ◌==◌, if◌then◌else◌, Result, ok, err, panic, ◌>>=◌, index,
}
use grid_edge_gateway.Iec104.Time.{Cp56Time2a}
use grid_edge_gateway.Iec104.Time

pub data Cause : Type 0 where
  periodic background spontaneous initialized request : Cause
  activation activation_con deactivation deactivation_con activation_termination : Cause
  interrogated : Cause
  unknown_type unknown_cause unknown_common_address unknown_object_address : Cause

-- `cause as u8`
unfoldable pub cause_to_u8 : Cause → ℕ
cause_to_u8 periodic = 1
cause_to_u8 background = 2
cause_to_u8 spontaneous = 3
cause_to_u8 initialized = 4
cause_to_u8 request = 5
cause_to_u8 activation = 6
cause_to_u8 activation_con = 7
cause_to_u8 deactivation = 8
cause_to_u8 deactivation_con = 9
cause_to_u8 activation_termination = 10
cause_to_u8 interrogated = 20
cause_to_u8 unknown_type = 44
cause_to_u8 unknown_cause = 45
cause_to_u8 unknown_common_address = 46
cause_to_u8 unknown_object_address = 47

unfoldable pub cause_from_u8 : ℕ → Option Cause
cause_from_u8 v =
    if v == 1
    then some periodic
    else if v == 2
    then some background
    else if v == 3
    then some spontaneous
    else if v == 4
    then some initialized
    else if v == 5
    then some request
    else if v == 6
    then some activation
    else if v == 7
    then some activation_con
    else if v == 8
    then some deactivation
    else if v == 9
    then some deactivation_con
    else if v == 10
    then some activation_termination
    else if v == 20
    then some interrogated
    else if v == 44
    then some unknown_type
    else if v == 45
    then some unknown_cause
    else if v == 46
    then some unknown_common_address
    else if v == 47
    then some unknown_object_address
    else none

pub record Quality : Type 0 where
  pub overflow : Bool
  pub blocked : Bool
  pub substituted : Bool
  pub not_topical : Bool
  pub invalid : Bool

-- `Quality::GOOD` and `Quality::invalid()`
abbrev pub good_quality : Quality
good_quality = record {
  overflow = false;
  blocked = false;
  substituted = false;
  not_topical = false;
  invalid = false;
}

abbrev pub invalid_quality : Quality
invalid_quality = record good_quality { invalid = true }

-- `b as u8`
abbrev pub bool_to_u8 : Bool → ℕ
bool_to_u8 b = if b then 1 else 0

unfoldable pub quality_bits : Quality → ℕ
quality_bits q =
    bit_or
      (bit_or
        (bit_or (bit_or (bool_to_u8 q.overflow) (bool_to_u8 q.blocked * 16))
          (bool_to_u8 q.substituted * 32))
        (bool_to_u8 q.not_topical * 64))
      (bool_to_u8 q.invalid * 128)

-- `b & mask != 0`
abbrev pub has_bit : ℕ → ℕ → Bool
has_bit b mask = not (bit_and b mask == 0)

unfoldable pub quality_from_bits : ℕ → Bool → Quality
quality_from_bits b has_overflow = record {
  overflow = has_overflow && has_bit b 0x01;
  blocked = has_bit b 0x10;
  substituted = has_bit b 0x20;
  not_topical = has_bit b 0x40;
  invalid = has_bit b 0x80;
}

pub data Element : Type 0 where
  single_point : (on : Bool) (quality : Quality) → Element
  single_point_time : (on : Bool) (quality : Quality) (time : Cp56Time2a) → Element
  float : (value : ℕ) (quality : Quality) → Element
  float_time : (value : ℕ) (quality : Quality) (time : Cp56Time2a) → Element
  end_of_init : (coi : ℕ) → Element
  single_command : (on select : Bool) (qualifier : ℕ) → Element
  setpoint_float : (value : ℕ) (select : Bool) (qualifier : ℕ) → Element
  interrogation : (qoi : ℕ) → Element
  clock_sync : (time : Cp56Time2a) → Element

unfoldable pub type_id : Element → ℕ
type_id (single_point on q) = 1
type_id (float v q) = 13
type_id (single_point_time on q t) = 30
type_id (float_time v q t) = 36
type_id (single_command on s q) = 45
type_id (setpoint_float v s q) = 50
type_id (end_of_init coi) = 70
type_id (interrogation qoi) = 100
type_id (clock_sync t) = 103

unfoldable pub size : ℕ → Option ℕ
size id =
    if (id == 1) || (id == 45) || (id == 70) || (id == 100)
    then some 1
    else if (id == 13) || (id == 50)
    then some 5
    else if id == 30
    then some 8
    else if id == 36
    then some 12
    else if id == 103
    then some 7
    else none

-- `u32::to_le_bytes` and `u32::from_le_bytes`, which `f32` shares.
abbrev pub u32_to_le : ℕ → List ℕ
u32_to_le x = (x % 256) ∷ (x / 256 % 256) ∷ (x / 65536 % 256) ∷ (x / 16777216) ∷ []

abbrev pub u32_from_le : ℕ → ℕ → ℕ → ℕ → ℕ
u32_from_le a b c d = a + 256 * b + 65536 * c + 16777216 * d

unfoldable pub encode : Element → List ℕ
encode (single_point on q) = bit_or (bit_and (quality_bits q) 0xF0) (bool_to_u8 on) ∷ []
encode (single_point_time on q t) =
    bit_or (bit_and (quality_bits q) 0xF0) (bool_to_u8 on) ∷ Time.encode t
encode (float v q) = u32_to_le v ++ (quality_bits q ∷ [])
encode (float_time v q t) = u32_to_le v ++ (quality_bits q ∷ Time.encode t)
encode (end_of_init coi) = coi ∷ []
encode (single_command on select qualifier) =
    bit_or (bit_or (bool_to_u8 on) (bit_and qualifier 0x1F * 4)) (bool_to_u8 select * 128) ∷ []
encode (setpoint_float v select qualifier) =
    u32_to_le v ++ (bit_or (bit_and qualifier 0x7F) (bool_to_u8 select * 128) ∷ [])
encode (interrogation qoi) = qoi ∷ []
encode (clock_sync t) = Time.encode t

-- `raw` is the whole ASDU, so that a station can mirror it.
pub data AsduError : Type 0 where
  truncated : AsduError
  unsupported_type : (type_id : ℕ) (raw : List ℕ) → AsduError
  unsupported_cause : (raw : List ℕ) → AsduError

unfoldable pub f32_at : List ℕ → ℕ → Result AsduError ℕ
f32_at b i = do
  b0 ← index b i
  b1 ← index b (i + 1)
  b2 ← index b (i + 2)
  b3 ← index b (i + 3)
  ok (u32_from_le b0 b1 b2 b3)

-- `Cp56Time2a::decode(&b[i..])`, whose only error becomes `Truncated`.
unfoldable pub time_at : List ℕ → ℕ → Result AsduError Cp56Time2a
time_at b i =
    if leb i (length b)
    then (elim (Time.decode (drop i b)) [ ok t ↦ ok t | err _ ↦ err truncated | panic ↦ panic ])
    else panic

unfoldable pub decode : ℕ → List ℕ → Result AsduError Element
unfolding f32_at
decode id b =
    if id == 1
    then (do b0 ← index b 0; ok (single_point (has_bit b0 1) (quality_from_bits b0 false)))
    else if id == 30
    then (do
      b0 ← index b 0
      t ← time_at b 1
      ok (single_point_time (has_bit b0 1) (quality_from_bits b0 false) t))
    else if id == 13
    then (do v ← f32_at b 0; b4 ← index b 4; ok (float v (quality_from_bits b4 true)))
    else if id == 36
    then (do
      v ← f32_at b 0
      b4 ← index b 4
      t ← time_at b 5
      ok (float_time v (quality_from_bits b4 true) t))
    else if id == 70
    then (do b0 ← index b 0; ok (end_of_init b0))
    else if id == 45
    then (do
      b0 ← index b 0
      ok (single_command (has_bit b0 1) (has_bit b0 0x80) (bit_and (b0 / 4) 0x1F)))
    else if id == 50
    then (do
      v ← f32_at b 0
      b4 ← index b 4
      ok (setpoint_float v (has_bit b4 0x80) (bit_and b4 0x7F)))
    else if id == 100
    then (do b0 ← index b 0; ok (interrogation b0))
    else if id == 103
    then (do t ← time_at b 0; ok (clock_sync t))
    else panic
