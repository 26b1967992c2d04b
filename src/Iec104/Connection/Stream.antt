-- ===== src/Iec104/Connection/Stream.antt =====
-- The frames of a stream reach the session in order, however the stream is cut into chunks.
use grid_edge_gateway.Prelude.{
  ℕ, zero, suc, ◌+◌, ◌≤◌, ◌<◌, ◌≡◌, refl, ap, subst, List, [], ◌∷◌, ◌++◌, Option, none, some, take,
  drop, Result, ok, err, panic, ◌>>=◌, length, arith, All, append_assoc, length-append, length-drop,
  drop-append, drop-append_le, take-append_le, take-append,
}
use grid_edge_gateway.Iec104.Apci.{Apdu, Error, AreBytes, IsApdu}
use grid_edge_gateway.Iec104.Apci
use grid_edge_gateway.Iec104.Apci.Frames.{parse-encode, length-encode}
use grid_edge_gateway.Iec104.Apci.Streams.{parse-append, parse_takes, parse-ne-panic}
use grid_edge_gateway.Iec104.Session.{Session, Step, on_apdu}
use grid_edge_gateway.Iec104.Connection.{
  Link, Ended, fed, take_frame, by_parse, parse_loop, parse_all, read_chunk,
}

pub encode_all : List Apdu → List ℕ
encode_all [] = []
encode_all (a ∷ frames) = Apci.encode a ++ encode_all frames

-- What is known of the answer of the parser: a frame leaves fewer bytes.
data Parsed (b : List ℕ) : Type 0 where
  whole : (a : Apdu) (n : ℕ) → Apci.parse b ≡ ok (some (a, n)) → 6 ≤ n → n ≤ length b → Parsed b
  more : Apci.parse b ≡ ok none → Parsed b
  bad : (e : Error) → Apci.parse b ≡ err e → Parsed b

parsed : (b : List ℕ) → Parsed b
parsed b = by (Apci.parse b) refl
  where
    by : (r : Result Error (Option (Apdu × ℕ))) → Apci.parse b ≡ r → Parsed b
    by (ok (some (a, n))) e = let (lo, hi) = parse_takes b a n e in whole a n e lo hi
    by (ok none) e = more e
    by (err x) e = bad x e
    by panic e = absurd (parse-ne-panic b e)

abbrev Stops : Result Ended Link → Type 0
Stops (ok l) = Apci.parse l.buf ≡ ok none
Stops (err e) = Unit {0}
Stops panic = Unit {0}

module _ (clock : ℕ → ℕ) where
  -- A session fed with frames one after the other.
  pub feed : Link → List Apdu → Result Ended Link
  feed l [] = ok l
  feed l (a ∷ frames) = do
    l' ←
        fed (record l { tapped = l.tapped ++ (Apci.encode a ∷ []) })
          (on_apdu l.session a (clock (length l.tapped)))
    feed l' frames

  -- A call on a fed link whose buffer is known.
  fed_then :
      (k : Link) (r : Step) (f g : Link → Result Ended Link)
      → ((s : Session) → f (record k { session = s }) ≡ g (record k { session = s }))
      → (fed k r >>= f) ≡ (fed k r >>= g)
  unfolding fed
  fed_then k (ok s) f g h = h s
  fed_then k (err x) f g h = refl
  fed_then k panic f g h = refl

  -- More fuel than bytes changes nothing.
  parse_loop_fuel :
      (f g : ℕ) (l : Link)
      → length l.buf < f
      → length l.buf < g
      → parse_loop clock f l ≡ parse_loop clock g l
  unfolding parse_loop by_parse take_frame
  parse_loop_fuel zero g l hf hg = absurd (omega arith)
  parse_loop_fuel (suc f) zero l hf hg = absurd (omega arith)
  parse_loop_fuel (suc f) (suc g) l hf hg = elim (parsed l.buf) [
    | more e ↦ rw e
    | bad x e ↦ rw e
    | whole a n e lo hi ↦ rw e (
        fed_then _ (on_apdu l.session a (clock (length l.tapped))) (parse_loop clock f)
          (parse_loop clock g)
          (λ s.
            parse_loop_fuel f g
              (record l {
                tapped = l.tapped ++ (take n l.buf ∷ []);
                buf = drop n l.buf;
                session = s;
              })
              (omega (arith, length-drop n l.buf)) (omega (arith, length-drop n l.buf))))
  ]

  fed-Stops :
      (k : Link) (r : Step) (f : Link → Result Ended Link)
      → ((s : Session) → Stops (f (record k { session = s })))
      → Stops (fed k r >>= f)
  unfolding fed
  fed-Stops k (ok s) f h = h s
  fed-Stops k (err x) f h = tt
  fed-Stops k panic f h = tt

  -- With more fuel than bytes the loop takes every frame that is complete.
  parse_loop-Stops : (f : ℕ) (l : Link) → length l.buf < f → Stops (parse_loop clock f l)
  unfolding parse_loop by_parse take_frame
  parse_loop-Stops zero l h = absurd (omega arith)
  parse_loop-Stops (suc f) l h = elim (parsed l.buf) [
    | more p ↦ rw p p
    | bad x p ↦ rw p tt
    | whole a n p lo hi ↦ rw p (
        fed-Stops _ (on_apdu l.session a (clock (length l.tapped))) (parse_loop clock f) (λ s.
          parse_loop-Stops f
            (record l { tapped = l.tapped ++ (take n l.buf ∷ []); buf = drop n l.buf; session = s })
            (omega (arith, length-drop n l.buf))))
  ]

  -- Where reading keeps the connection, what it leaves in the buffer is no complete frame: the fuel
  -- is enough.
  pub parse_all_stops : (l l' : Link) → parse_all clock l ≡ ok l' → Apci.parse l'.buf ≡ ok none
  unfolding parse_all
  parse_all_stops l l' e = subst Stops e (parse_loop-Stops (suc (length l.buf)) l (omega arith))

  fed_append :
      (k : Link) (b : List ℕ) (r : Step) (f h g : Link → Result Ended Link)
      → ((s : Session)
          → (f (record k { session = s }) >>= h) ≡ g (record k { session = s; buf = b }))
      → ((fed k r >>= f) >>= h) ≡ (fed (record k { buf = b }) r >>= g)
  unfolding fed
  fed_append k b (ok s) f h g e = e s
  fed_append k b (err x) f h g e = refl
  fed_append k b panic f h g e = refl

  parse_loop-append :
      (f g : ℕ) (l : Link) (chunk : List ℕ)
      → length l.buf < f
      → length l.buf + length chunk < g
      → (parse_loop clock f l >>= λ l'. read_chunk clock l' chunk)
        ≡ parse_loop clock g (record l { buf = l.buf ++ chunk })
  unfolding parse_loop by_parse take_frame
  parse_loop-append zero g l chunk hf hg = absurd (omega arith)
  parse_loop-append (suc f) zero l chunk hf hg = absurd (omega arith)
  parse_loop-append (suc f) (suc g) l chunk hf hg = elim (parsed l.buf) [
    | more p ↦ rw p (
        unfold read_chunk parse_all in
        parse_loop_fuel (suc (length (l.buf ++ chunk))) (suc g) (record l { buf = l.buf ++ chunk })
          (omega arith) (omega (arith, length-append l.buf chunk)))
    | bad x p ↦ rw (parse-append l.buf chunk (rw p (λ q. cc)), p)
    | whole a n p lo hi ↦
        let taken = record l { tapped = l.tapped ++ (take n l.buf ∷ []); buf = drop n l.buf } in
        rw
          (
            parse-append l.buf chunk (rw p (λ q. cc)),
            p,
            take-append_le n l.buf chunk hi,
            drop-append_le n l.buf chunk hi,
          )
          (fed_append taken (drop n l.buf ++ chunk) (on_apdu l.session a (clock (length l.tapped)))
            (parse_loop clock f) (λ l'. read_chunk clock l' chunk) (parse_loop clock g)
            (λ s.
              parse_loop-append f g (record taken { session = s }) chunk
                (omega (arith, length-drop n l.buf)) (omega (arith, length-drop n l.buf))))
  ]

  -- Reading two chunks one after the other is reading them at once: the same frames reach the
  -- session, the same bytes are left, and the same error ends the connection.
  pub read_chunk-append :
      (l : Link) (first second : List ℕ)
      → (read_chunk clock l first >>= λ l'. read_chunk clock l' second)
        ≡ read_chunk clock l (first ++ second)
  read_chunk-append l first second =
      unfold read_chunk parse_all in
      subst
        (λ b.
          (parse_loop clock (suc (length (l.buf ++ first))) (record l { buf = l.buf ++ first })
            >>= λ l'. read_chunk clock l' second)
          ≡ parse_loop clock (suc (length b)) (record l { buf = b }))
        (append_assoc l.buf first second)
        (parse_loop-append (suc (length (l.buf ++ first)))
          (suc (length ((l.buf ++ first) ++ second))) (record l { buf = l.buf ++ first }) second
          (omega arith) (omega (arith, length-append (l.buf ++ first) second)))

  fed_at :
      (k : Link) (b : List ℕ) (r : Step) (f g : Link → Result Ended Link)
      → ((s : Session) → f (record k { session = s }) ≡ g (record k { session = s; buf = b }))
      → (fed k r >>= f) ≡ (fed (record k { buf = b }) r >>= g)
  unfolding fed
  fed_at k b (ok s) f g e = e s
  fed_at k b (err x) f g e = refl
  fed_at k b panic f g e = refl

  -- The loop on the frames of a peer, with enough fuel.
  parse_loop-encode_all :
      (f : ℕ) (l : Link) (frames : List Apdu) (rest : List ℕ)
      → All IsApdu frames
      → Apci.parse rest ≡ ok none
      → length (encode_all frames ++ rest) < f
      → parse_loop clock f (record l { buf = encode_all frames ++ rest })
        ≡ feed (record l { buf = rest }) frames
  unfolding parse_loop by_parse take_frame encode_all feed
  parse_loop-encode_all zero l frames rest valid partial h = absurd (omega arith)
  parse_loop-encode_all (suc f) l [] rest valid partial h = rw partial refl
  parse_loop-encode_all (suc f) l (a ∷ frames) rest (p, valid) partial h =
      let later = encode_all frames ++ rest in
      let taken = record l { tapped = l.tapped ++ (Apci.encode a ∷ []); buf = later } in
      rw
        (
          append_assoc (Apci.encode a) (encode_all frames) rest,
          parse-encode a later p,
          take-append (length (Apci.encode a)) (Apci.encode a) later refl,
          drop-append (length (Apci.encode a)) (Apci.encode a) later refl,
        )
        (fed_at taken rest (on_apdu l.session a (clock (length l.tapped))) (parse_loop clock f)
          (λ l'. feed l' frames)
          (λ s.
            parse_loop-encode_all f (record taken { session = s }) frames rest valid partial
              (omega (
                arith,
                length-append (Apci.encode a) later,
                length-encode a,
                ap length (append_assoc (Apci.encode a) (encode_all frames) rest),
              ))))

  -- The frames that a peer sends, with fields that fit, reach the session one after the other, as
  -- the peer sent them, and the beginning of a further frame waits in the buffer.
  pub parse_all-encode_all :
      (l : Link) (frames : List Apdu) (rest : List ℕ)
      → All IsApdu frames
      → Apci.parse rest ≡ ok none
      → parse_all clock (record l { buf = encode_all frames ++ rest })
        ≡ feed (record l { buf = rest }) frames
  unfolding parse_all
  parse_all-encode_all l frames rest valid partial =
      parse_loop-encode_all (suc (length (encode_all frames ++ rest))) l frames rest valid partial
        (omega arith)
