-- ===== src/Iec104/Time/Wire.antt =====
-- The wire format of the time tag: `Cp56Time2a::encode` and `Cp56Time2a::decode`.
use grid_edge_gateway.Prelude.{
  ℕ, ◌+◌, ◌*◌, ◌/◌, ◌%◌, ◌<◌, ◌≤◌, ◌≡◌, refl, List, [], ◌∷◌, ◌++◌, Bool, true, false, length, ok,
  err, arith, bit_and, bit_or, if◌then◌else◌, ◌==◌, not,
}
use grid_edge_gateway.Prelude.Bits.{
  bit_and-0x07, bit_and-0x0f, bit_and-0x1f, bit_and-0x3f, bit_and-0x7f, bit_and-0x80, bit_or-0x80,
  bit_or_zero, bit_or_high,
}
use grid_edge_gateway.Iec104.Apci.{AreBytes, truncated}
use grid_edge_gateway.Iec104.Time.{Cp56Time2a, encode, decode}

-- Every field fits the bits that the tag has for it.
pub record IsTag (t : Cp56Time2a) : Type 0 where
  pub millisecond_fits : t.millisecond < 65536
  pub minute_fits : t.minute < 64
  pub hour_fits : t.hour < 32
  pub day_fits : t.day < 32
  pub weekday_fits : t.weekday < 8
  pub month_fits : t.month < 16
  pub year_fits : t.year < 128

minute_octet :
    (v : ℕ) (flag : Bool)
    → v < 64
    → bit_or (bit_and v 0x3F) (if flag then 0x80 else 0) ≡ v + (if flag then 128 else 0)
minute_octet v true h = ground (arith, bit_and-0x3f v, bit_or-0x80 v)
minute_octet v false h = ground (arith, bit_and-0x3f v, bit_or_zero v)

hour_octet :
    (v : ℕ) (flag : Bool)
    → v < 32
    → bit_or (bit_and v 0x1F) (if flag then 0x80 else 0) ≡ v + (if flag then 128 else 0)
hour_octet v true h = ground (arith, bit_and-0x1f v, bit_or-0x80 v)
hour_octet v false h = ground (arith, bit_and-0x1f v, bit_or_zero v)

day_octet :
    (d w : ℕ) → d < 32 → w < 8 → bit_or (bit_and d 0x1F) (bit_and w 0x07 * 32 % 256) ≡ d + w * 32
day_octet d w hd hw = ground (arith, bit_and-0x1f d, bit_and-0x07 w, bit_or_high (d + w * 32))

-- The octets, in plain arithmetic.
octets : Cp56Time2a → List ℕ
octets t =
    (t.millisecond % 256)
    ∷ (t.millisecond / 256)
    ∷ (t.minute + (if t.invalid then 128 else 0))
    ∷ (t.hour + (if t.summer_time then 128 else 0))
    ∷ (t.day + t.weekday * 32)
    ∷ t.month
    ∷ t.year
    ∷ []

encode-octets : (t : Cp56Time2a) → IsTag t → encode t ≡ octets t
unfolding encode octets
encode-octets t h = ground (
  arith,
  minute_octet t.minute t.invalid,
  hour_octet t.hour t.summer_time,
  day_octet t.day t.weekday,
  bit_and-0x0f t.month,
  bit_and-0x7f t.year,
)

pub length-encode : (t : Cp56Time2a) → length (encode t) ≡ 7
unfolding encode
length-encode t = refl

pub encode-AreBytes : (t : Cp56Time2a) → IsTag t → AreBytes (encode t)
unfolding octets
encode-AreBytes t h = rw (encode-octets t h) (ground arith)

flag_bit :
    (v : ℕ) (flag : Bool) → v < 128 → not (bit_and (v + (if flag then 128 else 0)) 0x80 == 0) ≡ flag
flag_bit v true h = ground (arith, bit_and-0x80 (v + 128))
flag_bit v false h = ground (arith, bit_and-0x80 (v + 0))

-- A tag whose fields fit is read back from its octets, whatever follows them.
pub decode-encode_tag :
    (t : Cp56Time2a) (rest : List ℕ) → IsTag t → decode (encode t ++ rest) ≡ ok t
unfolding decode octets
decode-encode_tag t rest h = rw (encode-octets t h) (
    ground (
      arith,
      bit_and-0x3f (t.minute + (if t.invalid then 128 else 0)),
      bit_and-0x1f (t.hour + (if t.summer_time then 128 else 0)),
      flag_bit t.minute t.invalid,
      flag_bit t.hour t.summer_time,
      bit_and-0x1f (t.day + t.weekday * 32),
      bit_and-0x0f t.month,
      bit_and-0x7f t.year,
    ))

decode_bytes :
    (b0 b1 b2 b3 b4 b5 b6 : ℕ) (rest : List ℕ)
    → AreBytes (b0 ∷ b1 ∷ b2 ∷ b3 ∷ b4 ∷ b5 ∷ b6 ∷ [])
    → (t : Cp56Time2a) × (decode (b0 ∷ b1 ∷ b2 ∷ b3 ∷ b4 ∷ b5 ∷ b6 ∷ rest) ≡ ok t) × IsTag t
unfolding decode
decode_bytes b0 b1 b2 b3 b4 b5 b6 rest h = (
  record {
    millisecond = b0 + 256 * b1;
    minute = bit_and b2 0x3F;
    invalid = not (bit_and b2 0x80 == 0);
    hour = bit_and b3 0x1F;
    summer_time = not (bit_and b3 0x80 == 0);
    day = bit_and b4 0x1F;
    weekday = b4 / 32;
    month = bit_and b5 0x0F;
    year = bit_and b6 0x7F;
  },
  ground arith,
  ground
      (arith, bit_and-0x3f b2, bit_and-0x1f b3, bit_and-0x1f b4, bit_and-0x0f b5, bit_and-0x7f b6),
)

-- Fewer than seven octets are refused.
pub decode_short : (b : List ℕ) → length b < 7 → decode b ≡ err truncated
unfolding decode
decode_short b h = ground arith

-- Seven or more bytes always give a tag, and its fields fit.
pub decode-IsTag_total :
    (b : List ℕ) → AreBytes b → 7 ≤ length b → (t : Cp56Time2a) × (decode b ≡ ok t) × IsTag t
decode-IsTag_total (b0 ∷ b1 ∷ b2 ∷ b3 ∷ b4 ∷ b5 ∷ b6 ∷ b) h n =
    decode_bytes b0 b1 b2 b3 b4 b5 b6 b (omega arith)
decode-IsTag_total b h n = absurd (omega arith)
