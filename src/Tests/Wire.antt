-- ===== src/Tests/Wire.antt =====
-- Frames, time tags and ASDUs of a short exchange with a control centre.
use grid_edge_gateway.Prelude.{
  ℕ, ◌≤◌, ◌<◌, ◌≡◌, ◌≢◌, refl, List, [], ◌∷◌, ◌++◌, some, none, true, false, ok, panic, length,
  arith, ◌↔◌, zero, bit_and,
}
use grid_edge_gateway.Prelude.Int.{pos}
use grid_edge_gateway.Prelude.Int
use grid_edge_gateway.Iec104.Apci.{
  Apdu, i_frame, s_frame, u_frame, start_dt_act, parse, seq_distance, seq_modulo, IsApdu, AreBytes,
}
use grid_edge_gateway.Iec104.Apci
use grid_edge_gateway.Iec104.Apci.Frames.{parse-encode}
use grid_edge_gateway.Iec104.Apci.Streams.{parse-IsApdu}
use grid_edge_gateway.Iec104.Time.{
  Cp56Time2a, civil_from_days, days_from_civil, from_unix_ms, to_unix_ms,
}
use grid_edge_gateway.Iec104.Time
use grid_edge_gateway.Iec104.Time.Wire.{IsTag, decode-encode_tag}
use grid_edge_gateway.Iec104.Time.Calendar.{days-civil, to-from_unix_ms}
use grid_edge_gateway.Iec104.Element.{
  Element, single_command, float_time, good_quality, type_id, size, Cause, activation,
  cause_from_u8, has_bit,
}
use grid_edge_gateway.Iec104.Element
use grid_edge_gateway.Iec104.Element.Codec.{decode-encode_element}
use grid_edge_gateway.Iec104.Asdu.{Asdu, InformationObject, IsAsdu, single, expected_length}
use grid_edge_gateway.Iec104.Asdu
use grid_edge_gateway.Iec104.Asdu.RoundTrip.{decode-encode_asdu}
use grid_edge_gateway.Iec104.Asdu.Total.{Typed, decode_complete, decode-eq-panic}

abbrev frame : Apdu
frame = i_frame 3 32767 (100 ∷ 1 ∷ 6 ∷ [])

frame-IsApdu : IsApdu frame
frame-IsApdu = omega arith

parse-encode_example :
    parse (Apci.encode frame ++ (0x68 ∷ [])) ≡ ok (some (frame, length (Apci.encode frame)))
parse-encode_example = parse-encode frame (0x68 ∷ []) frame-IsApdu

start_frame : Apci.encode (u_frame start_dt_act) ≡ 0x68 ∷ 4 ∷ (7 ∷ 0 ∷ 0 ∷ 0 ∷ [])
unfolding Apci.encode Apci.control_and_asdu Apci.bits
start_frame = refl

parse_start : parse (0x68 ∷ 4 ∷ (7 ∷ 0 ∷ 0 ∷ 0 ∷ [])) ≡ ok (some (u_frame start_dt_act, 6))
unfolding parse Apci.parse_length Apci.parse_control Apci.from_bits
parse_start = refl

parse-IsApdu_example : IsApdu (u_frame start_dt_act) × (6 ≤ 6) × (6 ≤ 255) × (6 ≤ 6)
parse-IsApdu_example =
    parse-IsApdu (0x68 ∷ 4 ∷ (7 ∷ 0 ∷ 0 ∷ 0 ∷ [])) (u_frame start_dt_act) 6 (omega arith)
      parse_start

abbrev tag : Cp56Time2a
tag = record {
  millisecond = 59999;
  minute = 59;
  hour = 23;
  day = 31;
  weekday = 2;
  month = 12;
  year = 26;
  invalid = false;
  summer_time = true;
}

tag-IsTag : IsTag tag
tag-IsTag = omega arith

decode-encode_tag_example : Time.decode (Time.encode tag ++ (1 ∷ [])) ≡ ok tag
decode-encode_tag_example = decode-encode_tag tag (1 ∷ []) tag-IsTag

abbrev octets : List ℕ
octets = 1 ∷ 2 ∷ 255 ∷ 255 ∷ 255 ∷ 255 ∷ 255 ∷ []

days-civil_example :
    let (y, m, d) = civil_from_days (pos 20454) in
    (1 ≤ m) × (m ≤ 12) × (1 ≤ d) × (d ≤ 31) × (days_from_civil y m d ≡ pos 20454)
days-civil_example = days-civil (pos 20454)

to-from_unix_ms_example : to_unix_ms (from_unix_ms (pos 1767225599999)) ≡ pos 1767225599999
unfolding civil_from_days Int.◌+ℤ◌ Int.◌*ℤ◌ Int.div_euclid Int.rem_euclid
to-from_unix_ms_example = to-from_unix_ms (pos 1767225599999) 25 refl (omega arith)

abbrev dim : Element
dim = single_command true false 0

decode-encode_element_example :
    Element.decode
      (type_id (float_time 1092616192 good_quality tag))
      (Element.encode (float_time 1092616192 good_quality tag))
    ≡ ok (float_time 1092616192 good_quality tag)
decode-encode_element_example =
    decode-encode_element (float_time 1092616192 good_quality tag) (omega arith, tag-IsTag)

dim-IsAsdu : IsAsdu (single activation 1 5001 dim)
unfolding single size type_id
dim-IsAsdu = ground arith

decode-encode_asdu_example :
    Asdu.decode (Asdu.encode (single activation 1 5001 dim) ++ [])
    ≡ ok (single activation 1 5001 dim)
decode-encode_asdu_example = decode-encode_asdu (single activation 1 5001 dim) [] dim-IsAsdu

decode_complete_example :
    (a : Asdu) × (Asdu.decode (45 ∷ 1 ∷ 6 ∷ 0 ∷ 1 ∷ 0 ∷ (137 ∷ 19 ∷ 0 ∷ 1 ∷ [])) ≡ ok a)
    × (a.id ≡ 45)
    × (a.cause ≡ activation)
    × (length a.objects ≡ bit_and 1 0x7F)
    × Typed 45 a.objects
unfolding size cause_from_u8
decode_complete_example =
    decode_complete 45 1 6 0 1 0 1 (137 ∷ 19 ∷ 0 ∷ 1 ∷ []) activation refl refl (omega arith)
      (ground arith) (omega arith)

decode-eq-panic_example : (Asdu.decode (45 ∷ 0 ∷ 6 ∷ 0 ∷ 1 ∷ 0 ∷ []) ≡ panic) ↔ (
    (zero ≡ 0)
    × (length {A = ℕ} [] < 3)
    × (size 45 ≢ none)
    × (cause_from_u8 (bit_and 6 0x3F) ≢ none))
decode-eq-panic_example = decode-eq-panic 45 0 6 0 1 0 [] (omega arith)
