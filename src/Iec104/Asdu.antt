-- ===== src/Iec104/Asdu.antt =====
-- `crates/iec104/src/asdu.rs`, its second half: the application data unit.
pub mod RoundTrip
pub mod Total
use grid_edge_gateway.Prelude.{
  ℕ, zero, suc, ◌+◌, ◌*◌, ◌/◌, ◌%◌, ◌<◌, ◌≤◌, ◌≡◌, bit_and, bit_or, List, [], ◌∷◌, ◌++◌, Bool,
  false, ltb, length, set, get_elem?, All, ◌==◌, if◌then◌else◌, Option, none, some, Result, ok, err,
  ◌>>=◌, index, slice, ok_or,
}
use grid_edge_gateway.Iec104.Apci.{u16_to_le, u16_from_le}
use grid_edge_gateway.Iec104.Element.{
  Cause, cause_to_u8, cause_from_u8, Element, type_id, size, bool_to_u8, has_bit, u32_from_le,
  AsduError, truncated, unsupported_type, unsupported_cause,
}
use grid_edge_gateway.Iec104.Element
use grid_edge_gateway.Iec104.Element.Codec.{IsElement}

pub record InformationObject : Type 0 where
  pub ioa : ℕ
  pub element : Element

pub record Asdu : Type 0 where
  pub id : ℕ
  pub cause : Cause
  pub negative : Bool
  pub test : Bool
  pub originator : ℕ
  pub common_address : ℕ
  pub objects : List InformationObject

unfoldable pub single : Cause → ℕ → ℕ → Element → Asdu
single cause common_address ioa element = record {
  id = type_id element;
  cause = cause;
  negative = false;
  test = false;
  originator = 0;
  common_address = common_address;
  objects = record { ioa = ioa; element = element } ∷ [];
}

-- `ioa.to_le_bytes()[..3]` and the element.
unfoldable pub encode_object : InformationObject → List ℕ
encode_object o =
    (o.ioa % 256) ∷ (o.ioa / 256 % 256) ∷ (o.ioa / 65536 % 256) ∷ Element.encode o.element

unfoldable pub encode_objects : List InformationObject → List ℕ
encode_objects [] = []
encode_objects (o ∷ os) = encode_object o ++ encode_objects os

-- The debug assertion that all objects share the type is not compiled into a release build.
unfoldable pub encode : Asdu → List ℕ
encode a =
    a.id
    ∷ bit_and (length a.objects % 256) 0x7F
    ∷ bit_or (bit_or (cause_to_u8 a.cause) (bool_to_u8 a.negative * 64)) (bool_to_u8 a.test * 128)
    ∷ a.originator
    ∷ (u16_to_le a.common_address ++ encode_objects a.objects)

unfoldable pub ioa_at : List ℕ → ℕ → Result AsduError ℕ
ioa_at b i = do
  b0 ← index b i
  b1 ← index b (i + 1)
  b2 ← index b (i + 2)
  ok (u32_from_le b0 b1 b2 0)

-- The address of the object number `k` at `pos`, and where its element starts.
unfoldable pub address_at : List ℕ → Bool → ℕ → ℕ → ℕ → Result AsduError (ℕ × ℕ)
address_at b sequence first_ioa k pos =
    if sequence then ok (first_ioa + k, pos) else (do a ← ioa_at b pos; ok (a, pos + 3))

-- The loop over the objects; `n` of them are left.
unfoldable pub decode_objects :
    ℕ → ℕ → List ℕ → Bool → ℕ → ℕ → ℕ → ℕ → Result AsduError (List InformationObject)
decode_objects id size b sequence first_ioa k pos zero = ok []
decode_objects id size b sequence first_ioa k pos (suc n) = do
  (ioa, pos') ← address_at b sequence first_ioa k pos
  octets ← slice b pos' (pos' + size)
  element ← Element.decode id octets
  rest ← decode_objects id size b sequence first_ioa (k + 1) (pos' + size) n
  ok (record { ioa = ioa; element = element } ∷ rest)

-- The octets that an ASDU of `count` objects of `size` octets has.
abbrev pub expected_length : Bool → ℕ → ℕ → ℕ
expected_length sequence count size =
    if sequence then 6 + 3 + count * size else 6 + count * (3 + size)

-- The first address is read whether or not there is an object.
unfoldable pub decode_body : List ℕ → ℕ → ℕ → ℕ → Cause → Result AsduError Asdu
decode_body b b1 b2 size cause =
    let sequence = has_bit b1 0x80 in
    let count = bit_and b1 0x7F in
    if ltb (length b) (expected_length sequence count size) then err truncated else (do
      id ← index b 0
      first_ioa ← ioa_at b 6
      objects ← decode_objects id size b sequence first_ioa 0 (if sequence then 9 else 6) count
      b3 ← index b 3
      b4 ← index b 4
      b5 ← index b 5
      ok (record {
        id = id;
        cause = cause;
        negative = has_bit b2 0x40;
        test = has_bit b2 0x80;
        originator = b3;
        common_address = u16_from_le b4 b5;
        objects = objects;
      }))

unfoldable pub decode : List ℕ → Result AsduError Asdu
decode b = if ltb (length b) 6 then err truncated else (do
  id ← index b 0
  b1 ← index b 1
  element_size ← ok_or (size id) (unsupported_type id b)
  b2 ← index b 2
  cause ← ok_or (cause_from_u8 (bit_and b2 0x3F)) (unsupported_cause b)
  decode_body b b1 b2 element_size cause)

unfoldable pub mirror : Asdu → Cause → Bool → Asdu
mirror a cause negative = record a { cause = cause; negative = negative }

unfoldable pub mirror_raw : List ℕ → Cause → List ℕ
mirror_raw raw cause = elim (get_elem? raw 2) [
  | none ↦ raw
  | some b ↦ set raw 2 (bit_or (bit_or (bit_and b 0x80) 0x40) (cause_to_u8 cause))
]

-- What a sender may put into an ASDU: a type that is implemented, at least one object and at most
-- 127, all of that type, and fields that fit.
abbrev pub IsObject : ℕ → InformationObject → Type 0
IsObject id o = (type_id o.element ≡ id) × (o.ioa < 16777216) × IsElement o.element

pub record IsAsdu (a : Asdu) : Type 0 where
  pub id_fits : a.id < 256
  pub originator_fits : a.originator < 256
  pub common_address_fits : a.common_address < 65536
  pub some_object : 1 ≤ length a.objects
  pub few_objects : length a.objects ≤ 127
  pub objects_fit : All (IsObject a.id) a.objects
