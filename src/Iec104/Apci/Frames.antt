-- ===== src/Iec104/Apci/Frames.antt =====
-- Encoding and parsing one APDU, `Apdu::encode` and `Apdu::parse`.
use grid_edge_gateway.Prelude.{
  ℕ, ◌-◌, ◌%◌, ◌≤◌, ◌≡◌, refl, ap, List, [], ◌∷◌, ◌++◌, none, some, length, ok, arith,
  length-append, take-append,
}
use grid_edge_gateway.Prelude.Bits.{bit_and-0x01}
use grid_edge_gateway.Iec104.Apci.{
  UFunction, Apdu, i_frame, s_frame, u_frame, encode, parse, IsApdu, start, max_length, AreBytes,
  shl_one, control_and_asdu, bits, from_bits, start_dt_act, start_dt_con, stop_dt_act, stop_dt_con,
  test_fr_act, test_fr_con,
}

pub from_bits-bits : (f : UFunction) → from_bits (bits f) ≡ some f
unfolding from_bits bits
from_bits-bits start_dt_act = refl
from_bits-bits start_dt_con = refl
from_bits-bits stop_dt_act = refl
from_bits-bits stop_dt_con = refl
from_bits-bits test_fr_act = refl
from_bits-bits test_fr_con = refl

parse-encode_i :
    (ns nr : ℕ) (asdu rest : List ℕ)
    → IsApdu (i_frame ns nr asdu)
    → parse (encode (i_frame ns nr asdu) ++ rest)
      ≡ ok (some (i_frame ns nr asdu, length (encode (i_frame ns nr asdu))))
unfolding parse encode
parse-encode_i ns nr asdu rest h = ground (
  arith,
  bit_and-0x01 (shl_one ns % 256),
  take-append (length asdu) asdu rest refl,
  length-append asdu rest,
)

-- A frame with fields that fit, put on the wire, parses back to itself, whatever follows it, with
-- all its bytes taken.
pub parse-encode :
    (a : Apdu) (rest : List ℕ)
    → IsApdu a
    → parse (encode a ++ rest) ≡ ok (some (a, length (encode a)))
unfolding parse encode
parse-encode (i_frame ns nr asdu) rest h = parse-encode_i ns nr asdu rest h
parse-encode (s_frame nr) rest h = ground arith
parse-encode (u_frame start_dt_act) rest h = ground arith
parse-encode (u_frame f) rest h = ground arith

pub length-encode : (a : Apdu) → 6 ≤ length (encode a)
unfolding encode
length-encode (i_frame ns nr asdu) = omega arith
length-encode (s_frame nr) = omega arith
length-encode (u_frame f) = omega arith

-- The octets of an encoded frame are bytes.
pub encode-AreBytes : (a : Apdu) → IsApdu a → AreBytes (encode a)
unfolding encode
encode-AreBytes (i_frame ns nr asdu) h = ground arith
encode-AreBytes (s_frame nr) h = ground arith
encode-AreBytes (u_frame start_dt_act) h = ground arith
encode-AreBytes (u_frame f) h = ground arith

-- The length octet is the number of octets behind it.
encode_header :
    (a : Apdu)
    → IsApdu a
    → (tail : List ℕ) × (encode a ≡ start ∷ (length (encode a) - 2) ∷ tail)
      × (4 ≤ length (encode a) - 2)
      × (length (encode a) - 2 ≤ max_length)
unfolding encode
encode_header (i_frame ns nr asdu) h =
    (control_and_asdu (i_frame ns nr asdu), ground arith, ground arith, ground arith)
encode_header (s_frame nr) h =
    (control_and_asdu (s_frame nr), ground arith, ground arith, ground arith)
encode_header (u_frame f) h =
    (control_and_asdu (u_frame f), ground arith, ground arith, ground arith)

-- A proper prefix of an encoded frame with fields that fit asks for more bytes.
parse_prefix :
    (a : Apdu) (front : List ℕ) (x : ℕ) (back : List ℕ)
    → IsApdu a
    → encode a ≡ front ++ (x ∷ back)
    → parse front ≡ ok none
unfolding parse
parse_prefix a [] x back h e = ground arith
parse_prefix a (b ∷ []) x back h e = ground arith
parse_prefix a (b ∷ c ∷ front) x back h e =
    let (tail, shape, lo, hi) = encode_header a h in
    ground (arith, ap length e, length-append front (x ∷ back))
