-- ===== src/Iec104/Session/Timers.antt =====
-- The timers t1, t2 and t3: `Session::on_tick`.
use grid_edge_gateway.Prelude.{
  ℕ, ◌-◌, ◌≤◌, ◌<◌, ◌≡◌, refl, sym, ◌∙◌, [], ◌∷◌, ◌++◌, Bool, true, false, ◌⊎◌, inl, inr,
  if◌then◌else◌, leb, arith, Bool-cases, append_assoc, append-nil, ◌&&◌, ◌↔◌, ok, err,
}
use grid_edge_gateway.Iec104.Apci.{
  Apdu, i_frame, s_frame, u_frame, UFunction, start_dt_act, start_dt_con, stop_dt_act, stop_dt_con,
  test_fr_act, test_fr_con, seq_modulo, seq_distance, IsApdu,
}
use grid_edge_gateway.Iec104.Session.{
  Session, Step, on_tick, test_link, transmit_s, is_none, expired, front, ack_timeout, test_timeout,
  transmitted,
}
use grid_edge_gateway.Iec104.Session.Calls.{ensures_ok, tended, on_tick_lem}
use grid_edge_gateway.Iec104.Apci

-- Nothing is overdue at `now`: the oldest of our frames and our test are younger than t1, the peer
-- waits for an acknowledgement for less than t2, and an idle link of t3 has a test under way.
pub record IsTimely (s : Session) (now : ℕ) : Type 0 where
  pub frames : expired (front s.unacked) now s.t1 ≡ false
  pub test : expired s.test_sent now s.t1 ≡ false
  pub receipt : expired s.unacked_rx_since now s.t2 ≡ false
  pub idle : (is_none s.test_sent ≡ false) ⊎ (now - s.last_rx < s.t3)

tended-IsTimely :
    (s : Session) (now : ℕ)
    → 1 ≤ s.t1
    → expired (front s.unacked) now s.t1 ≡ false
    → expired s.test_sent now s.t1 ≡ false
    → IsTimely (tended s now) now
unfolding tended transmit_s test_link
tended-IsTimely s now t1_pos frames test = ground arith

-- A tick that keeps the connection leaves nothing overdue, where t1 is not zero.
pub on_tick-IsTimely :
    (s s' : Session) (now : ℕ) → 1 ≤ s.t1 → on_tick s now ≡ ok s' → IsTimely s' now
on_tick-IsTimely s s' now t1_pos e = elim (Bool-cases (expired (front s.unacked) now s.t1)) [
  | inl late ↦ cc (rw (on_tick_lem s now, late) at e)
  | inr frames ↦ elim (Bool-cases (expired s.test_sent now s.t1)) [
    | inl late ↦ cc (rw (on_tick_lem s now, frames, late) at e)
    | inr test ↦
        ensures_ok (λ s'. IsTimely s' now) (ok (tended s now)) s'
          (tended-IsTimely s now t1_pos frames test) (rw (on_tick_lem s now, frames, test) at e)
  ]
]

checks :
    (a b : Bool) (s s' : Session)
    → let r : Step =
        if a then err (ack_timeout, s) else if b then err (test_timeout, s) else ok s' in
      ((a ≡ true) ↔ (r ≡ err (ack_timeout, s)))
      × (((a ≡ false) × (b ≡ true)) ↔ (r ≡ err (test_timeout, s)))
checks true b s s' = ((λ _. refl, λ _. refl), (λ h. cc (h.0), λ e. cc))
checks false true s s' = ((λ h. cc, λ e. cc), (λ h. refl, λ e. (refl, refl)))
checks false false s s' = ((λ h. cc, λ e. cc), (λ h. cc (h.1), λ e. cc))

-- The two reasons for which a tick closes the connection.
pub on_tick_closes :
    (s : Session) (now : ℕ)
    → ((expired (front s.unacked) now s.t1 ≡ true) ↔ (on_tick s now ≡ err (ack_timeout, s)))
      × (((expired (front s.unacked) now s.t1 ≡ false) × (expired s.test_sent now s.t1 ≡ true))
          ↔ (on_tick s now ≡ err (test_timeout, s)))
on_tick_closes s now =
    rw (on_tick_lem s now)
      (checks (expired (front s.unacked) now s.t1) (expired s.test_sent now s.t1) s (tended s now))

test_link_sends :
    (s : Session) (now : ℕ)
    → (test_link s now).out
      ≡ s.out
        ++ (if is_none s.test_sent && leb s.t3 (now - s.last_rx)
            then transmitted (Apci.encode (u_frame test_fr_act)) ∷ []
            else [])
unfolding test_link
test_link_sends s now = elim (Bool-cases (is_none s.test_sent && leb s.t3 (now - s.last_rx))) [
  | inl due ↦ rw due
  | inr quiet ↦ rw quiet (sym (append-nil s.out))
]

-- What a tick sends: an acknowledgement where t2 is over, and a test where t3 is.
pub tended_sends :
    (s : Session) (now : ℕ)
    → (tended s now).out
      ≡ s.out
        ++ ((if expired s.unacked_rx_since now s.t2
              then transmitted (Apci.encode (s_frame s.recv_seq)) ∷ []
              else [])
            ++ (if is_none s.test_sent && leb s.t3 (now - s.last_rx)
                then transmitted (Apci.encode (u_frame test_fr_act)) ∷ []
                else []))
unfolding tended
tended_sends s now = elim (Bool-cases (expired s.unacked_rx_since now s.t2)) [
  | inl due ↦
      rw due (test_link_sends (transmit_s s) now ∙ unfold transmit_s in append_assoc s.out _ _)
  | inr quiet ↦ rw quiet (test_link_sends s now)
]
