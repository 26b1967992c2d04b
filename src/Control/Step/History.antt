-- ===== src/Control/Step/History.antt =====
-- Histories of a controller: cycles, guidance and the taking of reports.
use grid_edge_gateway.Prelude.{
  ℕ, ◌≡◌, ◌⊎◌, inl, inr, refl, sym, ◌∙◌, ap, subst, arith, Bool-cases, List, [], ◌∷◌, ◌++◌, Option,
  none, some, true, if◌then◌else◌,
}
use grid_edge_gateway.Prelude.Int.{pos}
use grid_edge_gateway.Prelude.Doubles.{Doubles, IsIeee, F64, ◌≼◌, max, is_finite}
use grid_edge_gateway.Prelude.Bounds.{max-ge}
use grid_edge_gateway.Control.Accounting.{Clock}
use grid_edge_gateway.Control.Report.{Printing, DimmingReport}
use grid_edge_gateway.Control.Compliance.{observe, take_reports, Recorder}
use grid_edge_gateway.Control.Compliance.Chain
use grid_edge_gateway.Control.Compliance.Chain.{IsChained, run-resume-IsChained}
use grid_edge_gateway.Control.Site.{SiteConfig, Readings, Guidance}
use grid_edge_gateway.Control.Controller.{
  Controller, new, set_guidance, with_report_chain, take_finished, floor_for, legal_floor_kw,
}
use grid_edge_gateway.Control.Step.{step, status, see, is_dimmed}
use grid_edge_gateway.Gateway.Points.{DsoCommands}

module _ ⦃d : Doubles⦄ where
  -- What the gateway does with its controller.
  pub data Event : Type 0 where
    cycle : Clock → DsoCommands d → Readings → Event
    reports_taken : Event
    guided : Option Guidance → Event

  module _ (p : Printing d) where
    -- The reports that have been handed over, and the controller.
    pub run : List Event → List DimmingReport × Controller → List DimmingReport × Controller
    run [] s = s
    run (cycle clock cmd r ∷ events) (taken, c) = run events (taken, (step p c clock cmd r).1)
    run (reports_taken ∷ events) (taken, c) =
        let (reports, c') = take_finished c in run events (taken ++ reports, c')
    run (guided guidance ∷ events) (taken, c) = run events (taken, set_guidance c guidance)

    -- The same history, as the recorder sees it.
    observed : List Event → Controller → List Chain.Event
    observed [] c = []
    observed (cycle clock cmd r ∷ events) c =
        let st = (step p c clock cmd r).0.1 in
        Chain.cycle clock.t_s (is_dimmed st.mode) st.emergency st.floor_kw st.steuve_grid_kw
          st.steuve_budget_kw
        ∷ observed events (step p c clock cmd r).1
    observed (reports_taken ∷ events) c = Chain.reports_taken ∷ observed events (take_finished c).1
    observed (guided guidance ∷ events) c = observed events (set_guidance c guidance)

    step-compliance :
        (c : Controller) (clock : Clock) (cmd : DsoCommands d) (r : Readings)
        → (step p c clock cmd r).1.compliance ≡ (
            let st = (step p c clock cmd r).0.1 in
            observe p c.compliance clock.t_s
              (is_dimmed st.mode)
              st.emergency
              st.floor_kw
              st.steuve_grid_kw
              st.steuve_budget_kw)
    unfolding step
    step-compliance c clock cmd r = refl

    run-observed :
        (events : List Event) (taken : List DimmingReport) (c : Controller)
        → let (taken', c') = run events (taken, c) in
          Chain.run p (observed events c) (taken, c.compliance) ≡ (taken', c'.compliance)
    unfolding run observed Chain.run take_finished take_reports set_guidance
    run-observed [] taken c = refl
    run-observed (cycle clock cmd r ∷ events) taken c =
        ap (λ recorder. Chain.run p (observed events (step p c clock cmd r).1) (taken, recorder))
          (sym (step-compliance c clock cmd r))
        ∙ run-observed events taken (step p c clock cmd r).1
    run-observed (reports_taken ∷ events) taken c =
        run-observed events (taken ++ c.compliance.finished) (take_finished c).1
    run-observed (guided guidance ∷ events) taken c =
        run-observed events taken (set_guidance c guidance)

    -- The reports of a controller that goes on from the number `n` and the digest `h`, whatever it then
    -- reads, is commanded and is told by a planner, and whenever its reports are taken: those
    -- that were taken and those that it still holds are numbered on from `n` modulo 2^32, each
    -- names the digest of the one before it (the first one `h`), each digest is that of the
    -- report's own text, and the controller goes on from the last.
    pub run-IsChained :
        (cfg : SiteConfig) (n : ℕ) (h : List ℕ) (events : List Event)
        → let (taken, c) = run events ([], with_report_chain (new cfg) n h) in
          IsChained p n h (taken ++ c.compliance.finished) c.compliance
    unfolding with_report_chain new
    run-IsChained cfg n h events =
        let c = with_report_chain (new cfg) n h in
        subst (λ (s : List DimmingReport × Recorder). IsChained p n h (s.0 ++ s.1.finished) s.1)
          (run-observed events [] c)
          (run-resume-IsChained p cfg.site_id cfg.compliance_grace_s (pos 0) n h
            (observed events c))

    -- What the configuration says stays.
    IsOf : SiteConfig → Controller → Type 0
    IsOf cfg c = (c.cfg ≡ cfg) × (c.floor_kw ≡ legal_floor_kw cfg cfg.policy.consumption)

    run-IsOf :
        (cfg : SiteConfig) (events : List Event) (taken : List DimmingReport) (c : Controller)
        → IsOf cfg c
        → IsOf cfg (run events (taken, c)).1
    unfolding run IsOf step take_finished set_guidance
    run-IsOf cfg [] taken c h = h
    run-IsOf cfg (cycle clock cmd r ∷ events) taken c h =
        run-IsOf cfg events taken (step p c clock cmd r).1 h
    run-IsOf cfg (reports_taken ∷ events) taken c h =
        run-IsOf cfg events (taken ++ (take_finished c).0) (take_finished c).1 h
    run-IsOf cfg (guided guidance ∷ events) taken c h =
        run-IsOf cfg events taken (set_guidance c guidance) h

    -- The floor of a command: the legal one, or a finite limit sent with it.
    pub IsFloor : F64 → DsoCommands d → F64 → Type 0
    IsFloor legal cmd floor_kw =
        ((legal ≼ floor_kw) ≡ true)
        × ((floor_kw ≡ legal) ⊎ (cmd.limit_kw ≡ some floor_kw) × (is_finite floor_kw ≡ true))

    module _ (ieee : IsIeee d) where
      max_either : (a b : F64) → (max a b ≡ b) ⊎ (max a b ≡ a)
      unfolding max
      max_either a b = ground arith

      max-IsFloor :
          (legal l : F64) (cmd : DsoCommands d)
          → cmd.limit_kw ≡ some l
          → (legal ≼ legal) ≡ true
          → is_finite l ≡ true
          → IsFloor legal cmd (max l legal)
      unfolding IsFloor
      max-IsFloor legal l cmd e n f = elim (max_either l legal) [
        | inl same ↦ (max-ge ieee l legal n, inl same)
        | inr same ↦ (max-ge ieee l legal n, inr (rw same e, rw same f))
      ]

      floor_for-some :
          (c : Controller) (cmd : DsoCommands d) (l : F64)
          → cmd.limit_kw ≡ some l
          → floor_for c cmd ≡ (if is_finite l then max l c.floor_kw else c.floor_kw)
      unfolding floor_for
      floor_for-some c cmd l e = rw (e, floor_for)

      floor_for-IsFloor :
          (c : Controller) (cmd : DsoCommands d) (limit_kw : Option F64)
          → cmd.limit_kw ≡ limit_kw
          → (c.floor_kw ≼ c.floor_kw) ≡ true
          → IsFloor c.floor_kw cmd (floor_for c cmd)
      unfolding floor_for IsFloor
      floor_for-IsFloor c cmd none e n = rw (e, floor_for) (n, inl refl)
      floor_for-IsFloor c cmd (some l) e n =
          subst (λ floor_kw. IsFloor c.floor_kw cmd floor_kw) (sym (floor_for-some c cmd l e))
            (elim (Bool-cases (is_finite l)) [
              | inl f ↦ rw f (max-IsFloor c.floor_kw l cmd e n f)
              | inr f ↦ rw f (n, inl refl)
            ])

      -- In every cycle of a controller, whatever came before, the floor that the status reports and the
      -- report of a dimming is held to is not below the legal minimum of the site, and is either that
      -- minimum or a finite limit sent with the command, where the minimum is a number.
      pub run-IsFloor :
          (cfg : SiteConfig) (events : List Event) (clock : Clock) (cmd : DsoCommands d)
          (r : Readings)
          → (let legal = legal_floor_kw cfg cfg.policy.consumption in legal ≼ legal) ≡ true
          → let c = (run events ([], new cfg)).1 in
            IsFloor
              (legal_floor_kw cfg cfg.policy.consumption)
              cmd
              (step p c clock cmd r).0.1.floor_kw
      unfolding IsOf new step status see
      run-IsFloor cfg events clock cmd r n =
          let c = (run events ([], new cfg)).1 in
          let (same, legal) = run-IsOf cfg events [] (new cfg) (refl, refl) in
          subst (λ floor_kw. IsFloor floor_kw cmd (floor_for c cmd)) legal
            (floor_for-IsFloor c cmd cmd.limit_kw refl
              (subst (λ floor_kw. (floor_kw ≼ floor_kw) ≡ true) (sym legal) n))
