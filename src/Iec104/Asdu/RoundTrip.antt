-- ===== src/Iec104/Asdu/RoundTrip.antt =====
-- `Asdu::decode` after `Asdu::encode`.
use grid_edge_gateway.Prelude.{
  ℕ, ◌+◌, ◌*◌, ◌/◌, ◌%◌, ◌<◌, ◌≤◌, ◌≡◌, refl, ap, ◌∙◌, sym, bit_and, bit_or, List, [], ◌∷◌, ◌++◌,
  Bool, false, append_assoc, length, All, some, ok, slice, arith, length-append, index-append_right,
  slice-append,
}
use grid_edge_gateway.Prelude.Bits.{bit_and-0x7f, bit_and-0x80}
use grid_edge_gateway.Iec104.Element.{
  Cause, periodic, cause_to_u8, cause_from_u8, Element, type_id, size, bool_to_u8, has_bit,
  u32_from_le, AsduError,
}
use grid_edge_gateway.Iec104.Element
use grid_edge_gateway.Iec104.Element.Codec.{IsElement, size-encode, cause-from-to, cause_to_u8-lt}
use grid_edge_gateway.Iec104.Element.Codec
use grid_edge_gateway.Iec104.Asdu.{
  InformationObject, Asdu, encode_object, encode_objects, encode, ioa_at, address_at,
  decode_objects, decode_body, decode, IsObject, IsAsdu,
}

ioa_at-append :
    (b pre tail : List ℕ) (pos i0 i1 i2 : ℕ)
    → b ≡ pre ++ (i0 ∷ i1 ∷ i2 ∷ tail)
    → pos ≡ length pre
    → ioa_at b pos ≡ ok (u32_from_le i0 i1 i2 0)
unfolding ioa_at
ioa_at-append b pre tail pos i0 i1 i2 e p =
    let rest = i0 ∷ i1 ∷ i2 ∷ tail in
    rw (
      e,
      index-append_right pos 0 pre rest (omega arith),
      index-append_right (pos + 1) 1 pre rest (omega arith),
      index-append_right (pos + 2) 2 pre rest (omega arith),
    )

slice_at :
    (b pre ys zs : List ℕ) (from to : ℕ)
    → b ≡ pre ++ (ys ++ zs)
    → from ≡ length pre
    → to ≡ from + length ys
    → slice {E = AsduError} b from to ≡ ok ys
slice_at b pre ys zs from to e p q = rw e (slice-append from to pre ys zs p q)

-- The three address octets stand before the element, the element before the other objects.
object_parts :
    (b pre rest : List ℕ) (o : InformationObject) (os : List InformationObject)
    → b ≡ pre ++ (encode_objects (o ∷ os) ++ rest)
    → let header : List ℕ = (o.ioa % 256) ∷ (o.ioa / 256 % 256) ∷ (o.ioa / 65536 % 256) ∷ [] in
      (b
        ≡ pre
          ++ ((o.ioa % 256)
              ∷ (o.ioa / 256 % 256)
              ∷ (o.ioa / 65536 % 256)
              ∷ (Element.encode o.element ++ (encode_objects os ++ rest))))
      × (b ≡ (pre ++ header) ++ (Element.encode o.element ++ (encode_objects os ++ rest)))
      × (b ≡ (pre ++ encode_object o) ++ (encode_objects os ++ rest))
unfolding encode_objects encode_object
object_parts b pre rest o os e =
    (e ∙ simp append_assoc, e ∙ simp append_assoc, e ∙ simp append_assoc)

element_length :
    (id n : ℕ) (e : Element) → size id ≡ some n → type_id e ≡ id → length (Element.encode e) ≡ n
element_length id n e s t = cc (size-encode e)

decode_typed :
    (id : ℕ) (e : Element)
    → type_id e ≡ id
    → IsElement e
    → Element.decode id (Element.encode e) ≡ ok e
decode_typed id e t h =
    ap (λ i. Element.decode i (Element.encode e)) (sym t) ∙ Codec.decode-encode_element e h

length-encode_object :
    (o : InformationObject) → length (encode_object o) ≡ 3 + length (Element.encode o.element)
unfolding encode_object
length-encode_object o = omega arith

address_of :
    (b pre rest : List ℕ) (first k pos : ℕ) (o : InformationObject) (os : List InformationObject)
    → o.ioa < 16777216
    → b ≡ pre ++ (encode_objects (o ∷ os) ++ rest)
    → pos ≡ length pre
    → address_at b false first k pos ≡ ok (o.ioa, pos + 3)
unfolding address_at
address_of b pre rest first k pos o os h e p =
    let tail = Element.encode o.element ++ (encode_objects os ++ rest) in
    rw
      (ioa_at-append b pre tail pos (o.ioa % 256) (o.ioa / 256 % 256) (o.ioa / 65536 % 256)
        (object_parts b pre rest o os e).0 p)
      (ground arith)

decode-encode_objects :
    (id n : ℕ) (b pre rest : List ℕ) (first k pos : ℕ) (os : List InformationObject)
    → size id ≡ some n
    → All (IsObject id) os
    → b ≡ pre ++ (encode_objects os ++ rest)
    → pos ≡ length pre
    → decode_objects id n b false first k pos (length os) ≡ ok os
unfolding decode_objects
decode-encode_objects id n b pre rest first k pos [] s h e p = refl
decode-encode_objects id n b pre rest first k pos (o ∷ os) s ((t, addr, fits), h) e p =
    let header : List ℕ = (o.ioa % 256) ∷ (o.ioa / 256 % 256) ∷ (o.ioa / 65536 % 256) ∷ [] in
    let enc = Element.encode o.element in
    let n_eq = element_length id n o.element s t in
    rw (
      address_of b pre rest first k pos o os addr e p,
      slice_at b (pre ++ header) enc (encode_objects os ++ rest) (pos + 3) (pos + 3 + n)
          (object_parts b pre rest o os e).1 (omega (arith, length-append pre header))
          (omega arith),
      decode_typed id o.element t fits,
      decode-encode_objects id n b (pre ++ encode_object o) rest first (k + 1) (pos + 3 + n) os s h
          (object_parts b pre rest o os e).2
          (omega (arith, length-append pre (encode_object o), length-encode_object o)),
    )

length-encode_objects :
    (id n : ℕ) (os : List InformationObject)
    → size id ≡ some n
    → All (IsObject id) os
    → length (encode_objects os) ≡ length os * (3 + n)
unfolding encode_objects
length-encode_objects id n [] s h = omega arith
length-encode_objects id n (o ∷ os) s ((t, addr, fits), h) = omega (
  arith,
  length-append (encode_object o) (encode_objects os),
  length-encode_object o,
  element_length id n o.element s t,
  length-encode_objects id n os s h,
)

-- The octet of the cause, with the flags for a negative answer and for a test.
cause_octet :
    (c : Cause) (negative test : Bool)
    → let b = bit_or (bit_or (cause_to_u8 c) (bool_to_u8 negative * 64)) (bool_to_u8 test * 128) in
      (cause_from_u8 (bit_and b 0x3F) ≡ some c)
      × (has_bit b 0x40 ≡ negative)
      × (has_bit b 0x80 ≡ test)
unfolding cause_from_u8 cause_to_u8
cause_octet periodic negative test = ground arith
cause_octet c negative test = ground arith

known_size :
    (id : ℕ) (os : List InformationObject)
    → 1 ≤ length os
    → All (IsObject id) os
    → (n : ℕ) × (size id ≡ some n)
known_size id [] h w = absurd (omega arith)
known_size id (o ∷ os) h ((t, _, _), w) =
    (length (Element.encode o.element), ap size (sym t) ∙ size-encode o.element)

first_address :
    (b pre rest : List ℕ) (pos : ℕ) (os : List InformationObject)
    → 1 ≤ length os
    → b ≡ pre ++ (encode_objects os ++ rest)
    → pos ≡ length pre
    → (v : ℕ) × (ioa_at b pos ≡ ok v)
first_address b pre rest pos [] h e p = absurd (omega arith)
first_address b pre rest pos (o ∷ os) h e p =
    let tail = Element.encode o.element ++ (encode_objects os ++ rest) in
    (
      u32_from_le (o.ioa % 256) (o.ioa / 256 % 256) (o.ioa / 65536 % 256) 0,
      ioa_at-append b pre tail pos (o.ioa % 256) (o.ioa / 256 % 256) (o.ioa / 65536 % 256)
          (object_parts b pre rest o os e).0 p,
    )

decode_body-encode :
    (a : Asdu) (rest : List ℕ) (n b2 : ℕ)
    → IsAsdu a
    → size a.id ≡ some n
    → has_bit b2 0x40 ≡ a.negative
    → has_bit b2 0x80 ≡ a.test
    → decode_body (encode a ++ rest) (length a.objects) b2 n a.cause ≡ ok a
unfolding decode_body encode
decode_body-encode a rest n b2 h s neg test =
    let b = encode a ++ rest in
    let header : List ℕ =
      a.id
      ∷ bit_and (length a.objects % 256) 0x7F
      ∷ bit_or (bit_or (cause_to_u8 a.cause) (bool_to_u8 a.negative * 64)) (bool_to_u8 a.test * 128)
      ∷ a.originator
      ∷ (a.common_address % 256)
      ∷ (a.common_address / 256)
      ∷ [] in
    let (first, first_eq) = first_address b header rest 6 a.objects h.some_object refl refl in
    ground (
      arith,
      bit_and-0x7f (length a.objects),
      bit_and-0x80 (length a.objects),
      length-append (encode_objects a.objects) rest,
      length-encode_objects a.id n a.objects s h.objects_fit,
      first_eq,
      decode-encode_objects a.id n b header rest first 0 6 a.objects s h.objects_fit refl refl,
    )

-- An ASDU of 1 to 127 objects of its own type, with fields that fit, is read back from its octets,
-- whatever follows them.
pub decode-encode_asdu : (a : Asdu) (rest : List ℕ) → IsAsdu a → decode (encode a ++ rest) ≡ ok a
unfolding decode encode
decode-encode_asdu a rest h =
    let octet =
      bit_or (bit_or (cause_to_u8 a.cause) (bool_to_u8 a.negative * 64))
        (bool_to_u8 a.test * 128) in
    let (n, known) = known_size a.id a.objects h.some_object h.objects_fit in
    let (cause_eq, negative_eq, test_eq) = cause_octet a.cause a.negative a.test in
    let count : bit_and (length a.objects % 256) 0x7F ≡ length a.objects =
      ground (arith, bit_and-0x7f (length a.objects)) in
    let body = decode_body-encode a rest n octet h known negative_eq test_eq in
    ground (arith, known, cause_eq, count, body)
