-- ===== src/Iec104/Apci.antt =====
-- `crates/iec104/src/apci.rs` and the framing errors of `crates/iec104/src/lib.rs`: the transport
-- header of one APDU. A byte is a number below 256, a `u16` one below 65536, and a `Vec<u8>` or a
-- byte slice is a list of numbers.
pub mod Frames
pub mod Streams
use grid_edge_gateway.Prelude.{
  ℕ, ◌+◌, ◌-◌, ◌*◌, ◌/◌, ◌%◌, ◌<◌, ◌≤◌, bit_and, List, [], ◌∷◌, ◌++◌, Option, none, some, not, ◌&&◌,
  length, set, ltb, leb, ◌==◌, if◌then◌else◌, All, Result, ok, err, ◌>>=◌, index, slice, ok_or,
}

pub data Error : Type 0 where
  truncated : Error
  bad_start bad_length bad_control_field : ℕ → Error

abbrev pub start : ℕ
start = 0x68

abbrev pub max_length : ℕ
max_length = 253

abbrev pub seq_modulo : ℕ
seq_modulo = 32768

abbrev pub IsByte : ℕ → Type 0
IsByte b = b < 256

abbrev pub AreBytes : List ℕ → Type 0
AreBytes = All IsByte

pub data UFunction : Type 0 where
  start_dt_act start_dt_con stop_dt_act stop_dt_con test_fr_act test_fr_con : UFunction

unfoldable pub bits : UFunction → ℕ
bits start_dt_act = 0x07
bits start_dt_con = 0x0B
bits stop_dt_act = 0x13
bits stop_dt_con = 0x23
bits test_fr_act = 0x43
bits test_fr_con = 0x83

unfoldable pub from_bits : ℕ → Option UFunction
from_bits b =
    if b == 0x07
    then some start_dt_act
    else if b == 0x0B
    then some start_dt_con
    else if b == 0x13
    then some stop_dt_act
    else if b == 0x23
    then some stop_dt_con
    else if b == 0x43
    then some test_fr_act
    else if b == 0x83
    then some test_fr_con
    else none

pub data Apdu : Type 0 where
  i_frame : (ns nr : ℕ) (asdu : List ℕ) → Apdu
  s_frame : (nr : ℕ) → Apdu
  u_frame : UFunction → Apdu

-- `u16::to_le_bytes`
abbrev pub u16_to_le : ℕ → List ℕ
u16_to_le x = (x % 256) ∷ (x / 256) ∷ []

-- `u16::from_le_bytes`
abbrev pub u16_from_le : ℕ → ℕ → ℕ
u16_from_le a b = a + 256 * b

-- `x << 1` on a `u16`
abbrev pub shl_one : ℕ → ℕ
shl_one x = x * 2 % 65536

-- The octets behind the length octet.
unfoldable pub control_and_asdu : Apdu → List ℕ
unfolding bits
control_and_asdu (i_frame ns nr asdu) = u16_to_le (shl_one ns) ++ (u16_to_le (shl_one nr) ++ asdu)
control_and_asdu (s_frame nr) = 0x01 ∷ 0x00 ∷ u16_to_le (shl_one nr)
control_and_asdu (u_frame f) = bits f ∷ 0 ∷ 0 ∷ 0 ∷ []

-- The length octet is written as 0 first, and patched with the length as a `u8`. The debug
-- assertion that an ASDU fits one APDU is not compiled into a release build and is left out.
unfoldable pub encode : Apdu → List ℕ
unfolding control_and_asdu
encode a = let out = start ∷ 0 ∷ control_and_asdu a in set out 1 ((length out - 2) % 256)

-- The three formats, from the four control octets and the APDU length.
unfoldable pub parse_control : List ℕ → ℕ → Result Error Apdu
unfolding from_bits
parse_control buf len = do
  c ← slice buf 2 6
  c0 ← index c 0
  c1 ← index c 1
  c2 ← index c 2
  c3 ← index c 3
  if bit_and c0 0x01 == 0
      then (do
        asdu ← slice buf 6 (2 + len)
        ok (i_frame (u16_from_le c0 c1 / 2) (u16_from_le c2 c3 / 2) asdu))
      else if bit_and c0 0x03 == 0x01
      then (if not (len == 4) then err (bad_length len) else ok (s_frame (u16_from_le c2 c3 / 2)))
      else if not (len == 4)
      then err (bad_length len)
      else (do f ← ok_or (from_bits c0) (bad_control_field c0); ok (u_frame f))

unfoldable pub parse_length : List ℕ → Result Error (Option (Apdu × ℕ))
unfolding parse_control
parse_length buf = do
  len ← index buf 1
  if not (leb 4 len && leb len max_length)
      then err (bad_length len)
      else if ltb (length buf) (2 + len)
      then ok none
      else (do apdu ← parse_control buf len; ok (some (apdu, 2 + len)))

-- `none` asks for more bytes; a frame comes with the number of bytes it took.
unfoldable pub parse : List ℕ → Result Error (Option (Apdu × ℕ))
unfolding parse_length
parse buf = if ltb (length buf) 2 then ok none else (do
  first ← index buf 0
  if not (first == start) then err (bad_start first) else parse_length buf)

-- `to.wrapping_sub(from) % SEQ_MODULO`
unfoldable pub seq_distance : ℕ → ℕ → ℕ
seq_distance from to = (to + 65536 - from) % 65536 % seq_modulo

-- What the fields of an APDU hold that a peer may send: 15-bit sequence numbers and an ASDU that
-- fits the length octet.
abbrev pub IsApdu : Apdu → Type 0
IsApdu (i_frame ns nr asdu) =
    (ns < seq_modulo) × (nr < seq_modulo) × (length asdu + 4 ≤ max_length) × AreBytes asdu
IsApdu (s_frame nr) = nr < seq_modulo
IsApdu (u_frame f) = Unit {0}
