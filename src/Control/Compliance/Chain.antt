-- ===== src/Control/Compliance/Chain.antt =====
-- The chain of the reports that `Recorder::observe` closes and `take_reports` hands over.
use grid_edge_gateway.Prelude.{
  ℕ, ◌+◌, ◌%◌, ◌≡◌, refl, sym, ap, subst, ◌∙◌, List, [], ◌∷◌, ◌++◌, Option, none, some, Bool, true,
  false, append_assoc, append-nil,
}
use grid_edge_gateway.Prelude.Int.{ℤ}
use grid_edge_gateway.Prelude.Doubles.{Doubles, F64}
use grid_edge_gateway.Control.Report.{
  Printing, DimmingReport, sha256_hex, body, header_lines, sample_line,
}
use grid_edge_gateway.Control.Compliance.{
  Open, Recorder, new_recorder, resume, observe, close, take_reports,
}

module _ ⦃d : Doubles⦄ where
  -- What the controller does with its recorder.
  pub data Event : Type 0 where
    cycle : F64 → Bool → Bool → F64 → Option F64 → Option F64 → Event
    reports_taken : Event

  module _ (p : Printing d) where
    -- A report that follows one with the number `n` and the digest `h`.
    pub IsNext : ℕ → List ℕ → DimmingReport → Type 0
    IsNext n h report =
        (report.seq ≡ (n + 1) % 4294967296)
        × (report.previous_sha256 ≡ h)
        × (report.sha256 ≡ sha256_hex p (body p report))

    pub IsChain : ℕ → List ℕ → List DimmingReport → Type 0
    unfolding IsNext
    IsChain n h [] = Unit
    IsChain n h (report ∷ reports) = IsNext n h report × IsChain report.seq report.sha256 reports

    -- The reports that have been handed over, and the recorder.
    unfoldable pub run : List Event → List DimmingReport × Recorder → List DimmingReport × Recorder
    run [] s = s
    run (cycle t_s dimmed emergency floor_kw grid_kw budget_kw ∷ events) (taken, r) =
        run events (taken, observe p r t_s dimmed emergency floor_kw grid_kw budget_kw)
    run (reports_taken ∷ events) (taken, r) =
        let (reports, r') = take_reports r in run events (taken ++ reports, r')

    -- The number and the digest of the last report are those that the recorder goes on from.
    pub EndsAt : ℕ → List ℕ → List DimmingReport → Recorder → Type 0
    EndsAt n h [] r = (r.seq ≡ n) × (r.last_sha256 ≡ h)
    EndsAt n h (report ∷ reports) r = EndsAt report.seq report.sha256 reports r

    pub IsChained : ℕ → List ℕ → List DimmingReport → Recorder → Type 0
    unfolding IsChain EndsAt
    IsChained n h reports r = IsChain n h reports × EndsAt n h reports r

    extend :
        (n : ℕ) (h : List ℕ) (reports : List DimmingReport) (r r' : Recorder)
        (report : DimmingReport)
        → IsChained n h reports r
        → IsNext r.seq r.last_sha256 report
        → r'.seq ≡ report.seq
        → r'.last_sha256 ≡ report.sha256
        → IsChained n h (reports ++ (report ∷ [])) r'
    unfolding IsChained IsNext IsChain EndsAt
    extend n h [] r r' report (c, (en, eh)) (l1, l2, l3) s t =
        (((l1 ∙ ap (λ k. (k + 1) % 4294967296) en, l2 ∙ eh, l3), tt), (s, t))
    extend n h (x ∷ reports) r r' report ((c, cs), e) l s t =
        let (c', e') = extend x.seq x.sha256 reports r r' report (cs, e) l s t in ((c, c'), e')

    close-IsNext :
        (r : Recorder) (o : Open) (end_s : F64) → IsNext r.seq r.last_sha256 (close p r o end_s).0
    unfolding close IsNext body header_lines sample_line
    close-IsNext r o end_s = (refl, refl, refl)

    keep :
        (n : ℕ) (h : List ℕ) (reports : List DimmingReport) (r r' : Recorder)
        → IsChained n h reports r
        → r'.seq ≡ r.seq
        → r'.last_sha256 ≡ r.last_sha256
        → IsChained n h reports r'
    unfolding IsChained IsChain EndsAt
    keep n h [] r r' (c, (en, eh)) s t = (tt, (s ∙ en, t ∙ eh))
    keep n h (x ∷ reports) r r' ((c, cs), e) s t =
        let (cs', e') = keep x.seq x.sha256 reports r r' (cs, e) s t in ((c, cs'), e')

    observe-IsChained :
        (n : ℕ) (h : List ℕ) (taken : List DimmingReport) (r : Recorder) (o : Option Open)
        (t_s : F64) (dimmed emergency : Bool) (floor_kw : F64) (grid_kw budget_kw : Option F64)
        → r.open_event ≡ o
        → IsChained n h (taken ++ r.finished) r
        → let r' = observe p r t_s dimmed emergency floor_kw grid_kw budget_kw in
          IsChained n h (taken ++ r'.finished) r'
    unfolding observe
    observe-IsChained n h taken r none t_s false emergency floor_kw grid_kw budget_kw e c =
        rw e (keep n h (taken ++ r.finished) r _ c refl refl)
    observe-IsChained n h taken r none t_s true emergency floor_kw grid_kw budget_kw e c =
        rw e (keep n h (taken ++ r.finished) r _ c refl refl)
    observe-IsChained n h taken r (some o) t_s true emergency floor_kw grid_kw budget_kw e c =
        rw e (keep n h (taken ++ r.finished) r _ c refl refl)
    observe-IsChained n h taken r (some o) t_s false emergency floor_kw grid_kw budget_kw e c =
        let r' =
          observe p (record r { open_event = some o }) t_s false emergency floor_kw grid_kw
            budget_kw in
        rw e (
          subst (λ l. IsChained n h l r') (append_assoc taken r.finished (_ ∷ []))
            (extend n h (taken ++ r.finished) r r' _ c
              (close-IsNext (record r { open_event = none }) o t_s) refl refl))

    run-IsChained :
        (n : ℕ) (h : List ℕ) (events : List Event) (taken : List DimmingReport) (r : Recorder)
        → IsChained n h (taken ++ r.finished) r
        → let (taken', r') = run events (taken, r) in IsChained n h (taken' ++ r'.finished) r'
    unfolding run take_reports
    run-IsChained n h [] taken r c = c
    run-IsChained n h (cycle t dimmed emergency floor_kw grid_kw budget_kw ∷ events) taken r c =
        run-IsChained n h events taken (observe p r t dimmed emergency floor_kw grid_kw budget_kw) (
          observe-IsChained n h taken r r.open_event t dimmed emergency floor_kw grid_kw budget_kw
            refl c)
    run-IsChained n h (reports_taken ∷ events) taken r c =
        run-IsChained n h events (taken ++ r.finished) (record r { finished = [] })
          (keep n h ((taken ++ r.finished) ++ []) r (record r { finished = [] })
            (subst (λ l. IsChained n h l r) (sym (append-nil (taken ++ r.finished))) c) refl refl)

    -- A recorder that goes on from the number `n` and the digest `h`, whatever is then observed of the
    -- site and whenever reports are taken: the reports that were taken and those that it
    -- still holds, in the order in which they were closed, are numbered on from `n` modulo 2^32, each
    -- names the digest of the one before it (the first one `h`), each digest is that of the report's own
    -- text, and the recorder keeps the number and the digest of the last.
    pub run-resume-IsChained :
        (site : List ℕ) (grace_s : F64) (epoch_ms : ℤ) (n : ℕ) (h : List ℕ) (events : List Event)
        → let (taken, r) = run events ([], resume (new_recorder site grace_s epoch_ms) n h) in
          IsChained n h (taken ++ r.finished) r
    unfolding IsChained IsChain EndsAt resume new_recorder
    run-resume-IsChained site grace_s epoch_ms n h events =
        run-IsChained n h events [] (resume (new_recorder site grace_s epoch_ms) n h)
          (tt, (refl, refl))
