-- ===== src/Iec104/Session/Flush.antt =====
-- `Session::flush` against a description without a loop: what it sends, and when it stops.
use grid_edge_gateway.Prelude.{
  ℕ, zero, suc, ◌+◌, ◌-◌, ◌%◌, ◌≤◌, ◌<◌, ◌≡◌, refl, sym, subst, ◌∙◌, ap, min, List, [], ◌∷◌, ◌++◌,
  true, false, ◌&&◌, ◌⊎◌, inl, inr, none, length, take, drop, drop_all, leb, ltb, ◌==◌,
  if◌then◌else◌, arith, append_assoc, append-nil, length-append, Bool-cases,
}
use grid_edge_gateway.Iec104.Apci.{i_frame, seq_modulo}
use grid_edge_gateway.Iec104.Apci
use grid_edge_gateway.Iec104.Session.{Session, Output, transmitted, send_front, flush_loop, flush}

-- The frames that carry the ASDUs, numbered from `ns` on.
pub i_frames : ℕ → ℕ → List (List ℕ) → List Output
i_frames ns nr [] = []
i_frames ns nr (asdu ∷ rest) =
    transmitted (Apci.encode (i_frame ns nr asdu)) ∷ i_frames ((ns + 1) % seq_modulo) nr rest

abbrev pub replicate : ℕ → ℕ → List ℕ
replicate zero t = []
replicate (suc n) t = t ∷ replicate n t

pub length-replicate : (n t : ℕ) → length (replicate n t) ≡ n
length-replicate zero t = refl
length-replicate (suc n) t = ap suc (length-replicate n t)

-- The number of ASDUs that may go out: none while stopped, else what the k window has room for.
abbrev pub sent_count : Session → ℕ
sent_count s = if s.is_started then min (s.k - length s.unacked) (length s.queue) else 0

abbrev after_front : Session → ℕ → List ℕ → List (List ℕ) → Session
after_front s now asdu rest = send_front s now asdu rest

-- A round of the loop: it stops where nothing may go out, or sends the front of the queue.
data Round (s : Session) (now fuel : ℕ) : Type 0 where
  stops : sent_count s ≡ 0 → flush_loop (suc fuel) s now ≡ s → Round s now fuel
  sends :
      (asdu : List ℕ) (rest : List (List ℕ))
      → s.queue ≡ asdu ∷ rest
      → s.is_started ≡ true
      → length s.unacked < s.k
      → sent_count s ≡ suc (sent_count (send_front s now asdu rest))
      → flush_loop (suc fuel) s now ≡ flush_loop fuel (send_front s now asdu rest) now
      → Round s now fuel

flush_loop-Round : (s : Session) (now fuel : ℕ) (q : List (List ℕ)) → s.queue ≡ q → Round s now fuel
unfolding flush_loop
flush_loop-Round s now fuel [] e = stops (ground arith) (ground arith)
flush_loop-Round s now fuel (asdu ∷ rest) e =
    elim (Bool-cases (s.is_started && ltb (length s.unacked) s.k)) [
      | inr idle ↦ stops (ground arith) (ground arith)
      | inl busy ↦
          sends asdu rest e (ground arith) (ground arith)
            (unfold send_front in ground (arith, length-append s.unacked (now ∷ []))) (ground arith)
    ]

-- What each round of the loop keeps, the whole loop keeps.
pub flush_keeps {ℓ} :
    (P : Session → Type ℓ) (now : ℕ)
    → ((s : Session) (asdu : List ℕ) (rest : List (List ℕ))
        → s.queue ≡ asdu ∷ rest
        → s.is_started ≡ true
        → length s.unacked < s.k
        → P s
        → P (send_front s now asdu rest))
    → (fuel : ℕ) (s : Session) → P s
    → P (flush_loop fuel s now)
flush_keeps P now keep zero s h = unfold flush_loop in h
flush_keeps P now keep (suc fuel) s h = elim (flush_loop-Round s now fuel s.queue refl) [
  | stops _ same ↦ subst P (sym same) h
  | sends asdu rest q on room _ next ↦
      subst P (sym next)
        (flush_keeps P now keep fuel (send_front s now asdu rest) (keep s asdu rest q on room h))
]

-- The session that `flush` leaves behind, given that it sends `n` ASDUs.
pub record Flushed (s : Session) (now n : ℕ) (s' : Session) : Type 0 where
  pub sends : s'.out ≡ s.out ++ i_frames s.send_seq s.recv_seq (take n s.queue)
  pub keeps_queue : s'.queue ≡ drop n s.queue
  pub numbers : s'.send_seq ≡ (if 0 == n then s.send_seq else (s.send_seq + n) % seq_modulo)
  pub awaits : s'.unacked ≡ s.unacked ++ replicate n now
  pub acknowledges : s'.last_acked_to_peer ≡ (if 0 == n then s.last_acked_to_peer else s.recv_seq)
  pub timer : s'.unacked_rx_since ≡ (if 0 == n then s.unacked_rx_since else none)
  pub rest :
      (s'.is_started ≡ s.is_started)
      × (s'.recv_seq ≡ s.recv_seq)
      × (s'.oldest_unacked_seq ≡ s.oldest_unacked_seq)
      × (s'.last_rx ≡ s.last_rx)
      × (s'.test_sent ≡ s.test_sent)
      × (s'.cfg ≡ s.cfg)

none_sent : (s : Session) (now : ℕ) → Flushed s now 0 s
unfolding i_frames
none_sent s now = record {
  sends = sym (append-nil s.out);
  keeps_queue = refl;
  numbers = refl;
  awaits = sym (append-nil s.unacked);
  acknowledges = refl;
  timer = refl;
  rest = (refl, refl, refl, refl, refl, refl);
}

one_more :
    (s : Session) (now n : ℕ) (asdu : List ℕ) (rest : List (List ℕ)) (s' : Session)
    → s.queue ≡ asdu ∷ rest
    → Flushed (send_front s now asdu rest) now n s'
    → Flushed s now (suc n) s'
unfolding i_frames send_front
one_more s now n asdu rest s' q h = record {
  sends =
      h.sends
      ∙ append_assoc s.out _ _
      ∙ ap (λ q. s.out ++ i_frames s.send_seq s.recv_seq (take (suc n) q)) (sym q);
  keeps_queue = h.keeps_queue ∙ ap (drop (suc n)) (sym q);
  numbers = ground (arith, h.numbers);
  awaits = h.awaits ∙ append_assoc s.unacked (now ∷ []) (replicate n now);
  acknowledges = ground (arith, h.acknowledges);
  timer = ground (arith, h.timer);
  rest = h.rest;
}

flush_loop-Flushed :
    (fuel : ℕ) (s : Session) (now : ℕ)
    → length s.queue ≤ fuel
    → Flushed s now (sent_count s) (flush_loop fuel s now)
flush_loop-Flushed zero s now h =
    let none_left : sent_count s ≡ 0 = ground arith in
    rw none_left (unfold flush_loop in none_sent s now)
flush_loop-Flushed (suc fuel) s now h = elim (flush_loop-Round s now fuel s.queue refl) [
  | stops count same ↦ rw (count, same) (none_sent s now)
  | sends asdu rest q on room count next ↦
      rw (count, next)
        (one_more s now (sent_count (send_front s now asdu rest)) asdu rest _ q (
          flush_loop-Flushed fuel (send_front s now asdu rest) now
            (unfold send_front in omega (arith, ap length q))))
]

-- `flush` sends exactly the ASDUs at the front of the queue that the k window has room for, and
-- none while data transfer is stopped: in order, with consecutive numbers, each with our N(R).
pub flush-Flushed : (s : Session) (now : ℕ) → Flushed s now (sent_count s) (flush s now)
unfolding flush
flush-Flushed s now = flush_loop-Flushed (length s.queue) s now (omega arith)

-- The fuel is enough: `flush` stops only where the loop's condition fails or the queue is empty.
pub flush_stops :
    (s : Session) (now : ℕ)
    → let s' = flush s now in (s'.is_started ≡ false) ⊎ (s'.k ≤ length s'.unacked) ⊎ (s'.queue ≡ [])
flush_stops s now =
    let f = flush-Flushed s now in
    let window = length-append s.unacked (replicate (sent_count s) now) in
    elim (Bool-cases s.is_started) [
      | inr off ↦ inl (f.rest.0 ∙ off)
      | inl on ↦ elim (Bool-cases (leb (length s.queue) (s.k - length s.unacked))) [
        | inl few ↦ inr (inr (f.keeps_queue ∙ drop_all (sent_count s) s.queue (ground arith)))
        | inr many ↦ inr (
            inl (
              rw (f.rest.5, f.awaits)
                (ground (arith, window, length-replicate (sent_count s) now))))
      ]
    ]
