-- ===== src/Iec104/Apci/Streams.antt =====
-- What `Apdu::parse` guarantees on any input, and how its answer depends on later bytes.
use grid_edge_gateway.Prelude.{
  ℕ, suc, ◌+◌, ◌-◌, ◌%◌, ◌<◌, ◌≤◌, ◌≡◌, ◌≢◌, refl, sym, subst, List, [], ◌∷◌, ◌++◌, none, some,
  length, ok, panic, arith, length-append, take-append_le, All-take, length-take, take,
}
use grid_edge_gateway.Iec104.Apci.{
  Apdu, i_frame, parse, IsApdu, AreBytes, seq_modulo, max_length, seq_distance,
}

-- No input makes the parser index out of bounds.
pub parse-ne-panic : (b : List ℕ) → parse b ≢ panic
unfolding parse
parse-ne-panic [] e = cc
parse-ne-panic (b0 ∷ []) e = cc
parse-ne-panic (b0 ∷ b1 ∷ []) e = ground arith
parse-ne-panic (b0 ∷ b1 ∷ b2 ∷ []) e = ground arith
parse-ne-panic (b0 ∷ b1 ∷ b2 ∷ b3 ∷ []) e = ground arith
parse-ne-panic (b0 ∷ b1 ∷ b2 ∷ b3 ∷ b4 ∷ []) e = ground arith
parse-ne-panic (b0 ∷ b1 ∷ b2 ∷ b3 ∷ b4 ∷ b5 ∷ b) e = ground arith

parse_i_frame :
    (b0 b1 b2 b3 b4 b5 ns nr n : ℕ) (b asdu : List ℕ)
    → (b2 < 256) × (b3 < 256) × (b4 < 256) × (b5 < 256)
    → parse (b0 ∷ b1 ∷ b2 ∷ b3 ∷ b4 ∷ b5 ∷ b) ≡ ok (some (i_frame ns nr asdu, n))
    → (asdu ≡ take (2 + b1 - 6) b)
      × (ns < seq_modulo)
      × (nr < seq_modulo)
      × (length asdu + 4 ≤ max_length)
      × (6 ≤ n)
      × (n ≤ 255)
      × (n ≤ suc (suc (suc (suc (suc (suc (length b)))))))
unfolding parse
parse_i_frame b0 b1 b2 b3 b4 b5 ns nr n b asdu h e = ground (arith, length-take (2 + b1 - 6) b)

-- A frame that the parser returns has 15-bit sequence numbers and an ASDU of bytes that fits the
-- length octet, and took 6 to 255 of the bytes that are there.
pub parse-IsApdu :
    (b : List ℕ) (a : Apdu) (n : ℕ)
    → AreBytes b
    → parse b ≡ ok (some (a, n))
    → IsApdu a × (6 ≤ n) × (n ≤ 255) × (n ≤ length b)
unfolding parse
parse-IsApdu [] a n h e = cc
parse-IsApdu (b0 ∷ []) a n h e = cc
parse-IsApdu (b0 ∷ b1 ∷ []) a n h e = ground arith
parse-IsApdu (b0 ∷ b1 ∷ b2 ∷ []) a n h e = ground arith
parse-IsApdu (b0 ∷ b1 ∷ b2 ∷ b3 ∷ []) a n h e = ground arith
parse-IsApdu (b0 ∷ b1 ∷ b2 ∷ b3 ∷ b4 ∷ []) a n h e = ground arith
parse-IsApdu (b0 ∷ b1 ∷ b2 ∷ b3 ∷ b4 ∷ b5 ∷ b) (i_frame ns nr asdu) n h e =
    let (cut, ns_fits, nr_fits, fits, lo, hi, there) =
      parse_i_frame b0 b1 b2 b3 b4 b5 ns nr n b asdu (ground arith) e in
    (
      (ns_fits, nr_fits, fits, subst AreBytes (sym cut) (All-take _ (2 + b1 - 6) b h.1.1.1.1.1.1)),
      lo,
      hi,
      there,
    )
parse-IsApdu (b0 ∷ b1 ∷ b2 ∷ b3 ∷ b4 ∷ b5 ∷ b) a n h e = ground arith

-- More bytes change no answer but the request for them.
pub parse-append : (b more : List ℕ) → parse b ≢ ok none → parse (b ++ more) ≡ parse b
unfolding parse
parse-append [] more h = absurd (h refl)
parse-append (b0 ∷ []) more h = absurd (h refl)
parse-append (b0 ∷ b1 ∷ []) more h = ground arith
parse-append (b0 ∷ b1 ∷ b2 ∷ []) more h = ground arith
parse-append (b0 ∷ b1 ∷ b2 ∷ b3 ∷ []) more h = ground arith
parse-append (b0 ∷ b1 ∷ b2 ∷ b3 ∷ b4 ∷ []) more h = ground arith
parse-append (b0 ∷ b1 ∷ b2 ∷ b3 ∷ b4 ∷ b5 ∷ b) more h =
    ground (arith, length-append b more, take-append_le (2 + b1 - 6) b more)

-- Going `d` steps forward on the ring of 32768 sequence numbers is a distance of `d`, and the
-- distance of two sequence numbers is the way from the first to the second.
pub seq_distance_lem :
    (from to d : ℕ)
    → from < seq_modulo
    → to < seq_modulo
    → d < seq_modulo
    → (seq_distance from to ≡ d → to ≡ (from + d) % seq_modulo)
      × (to ≡ (from + d) % seq_modulo → seq_distance from to ≡ d)
unfolding seq_distance
seq_distance_lem from to d hf ht hd = (λ e. omega arith, λ e. omega arith)

-- A frame takes at least its header, and no more than there is.
pub parse_takes :
    (b : List ℕ) (a : Apdu) (n : ℕ) → parse b ≡ ok (some (a, n)) → (6 ≤ n) × (n ≤ length b)
unfolding parse
parse_takes [] a n e = cc
parse_takes (b0 ∷ []) a n e = cc
parse_takes (b0 ∷ b1 ∷ []) a n e = ground arith
parse_takes (b0 ∷ b1 ∷ b2 ∷ []) a n e = ground arith
parse_takes (b0 ∷ b1 ∷ b2 ∷ b3 ∷ []) a n e = ground arith
parse_takes (b0 ∷ b1 ∷ b2 ∷ b3 ∷ b4 ∷ []) a n e = ground arith
parse_takes (b0 ∷ b1 ∷ b2 ∷ b3 ∷ b4 ∷ b5 ∷ b) a n e = ground arith
