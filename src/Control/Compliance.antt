-- ===== src/Control/Compliance.antt =====
-- `crates/control/src/compliance.rs`: the recorder of dimmings, which closes a report for each and
-- chains the reports by their digests.
pub mod Chain
pub mod Verdicts
use grid_edge_gateway.Prelude.{
  ℕ, suc, ◌+◌, ◌*◌, ◌%◌, ◌≡◌, List, [], ◌∷◌, ◌++◌, Option, none, some, Bool, true, false, ◌||◌, ltb,
  if◌then◌else◌, length,
}
use grid_edge_gateway.Prelude.Int.{ℤ}
use grid_edge_gateway.Prelude.Text.{codes}
use grid_edge_gateway.Prelude.Doubles.{Doubles, F64, lit, ◌⊕◌, ◌⊖◌, ◌≼◌, ◌≺◌, max}
use grid_edge_gateway.Control.Report.{
  Printing, Verdict, followed, exceeded, unverified, Sample, DimmingReport, tolerance_kw,
  sha256_hex, body,
}

abbrev pub genesis : List ℕ
genesis = codes "0000000000000000000000000000000000000000000000000000000000000000"

abbrev pub max_samples : ℕ
max_samples = 6 * 3600

module _ ⦃d : Doubles⦄ where
  pub record Open : Type 0 where
    pub start_s : F64
    pub floor_kw : F64
    pub emergency : Bool
    pub samples : List Sample
    pub dropped : ℕ
    pub last_kept_s : F64

  pub record Recorder : Type 0 where
    pub site : List ℕ
    pub grace_s : F64
    pub epoch_ms : ℤ
    pub open_event : Option Open
    pub seq : ℕ
    pub last_sha256 : List ℕ
    pub finished : List DimmingReport

  unfoldable pub new_recorder : List ℕ → F64 → ℤ → Recorder
  new_recorder site grace_s epoch_ms = record {
    site = site;
    grace_s = grace_s;
    epoch_ms = epoch_ms;
    open_event = none;
    seq = 0;
    last_sha256 = genesis;
    finished = [];
  }

  unfoldable pub resume : Recorder → ℕ → List ℕ → Recorder
  resume r seq last_sha256 = record r { seq = seq; last_sha256 = last_sha256 }

  unfoldable pub set_epoch : Recorder → ℤ → Recorder
  set_epoch r epoch_ms = record r { epoch_ms = epoch_ms }

  unfoldable pub take_reports : Recorder → List DimmingReport × Recorder
  take_reports r = (r.finished, record r { finished = [] })

  -- What the loop over the samples of an event adds up.
  pub record Tally : Type 0 where
    pub exceeded_s : F64
    pub unverified_s : F64
    pub max_after : Option F64

  abbrev max_with : Option F64 → F64 → F64
  max_with none v = v
  max_with (some m) v = max m v

  abbrev pub next_t : List Sample → F64 → F64
  next_t [] end_s = end_s
  next_t (n ∷ samples) end_s = n.t_s

  -- The time that a sample stands for, after the grace time.
  abbrev pub span_of : F64 → F64 → Sample → List Sample → F64
  span_of settle_until end_s s later = next_t later end_s ⊖ max s.t_s settle_until

  unfoldable pub tally_sample : F64 → F64 → Option F64 → Tally → Tally
  tally_sample floor_kw span (some v) t = record t {
    max_after = some (max_with t.max_after v);
    exceeded_s = if floor_kw ⊕ tolerance_kw ≺ v then t.exceeded_s ⊕ span else t.exceeded_s;
  }
  tally_sample floor_kw span none t = record t { unverified_s = t.unverified_s ⊕ span }

  unfoldable pub tally : F64 → F64 → F64 → List Sample → Tally → Tally
  tally floor_kw settle_until end_s [] t = t
  tally floor_kw settle_until end_s (s ∷ later) t =
      let span = span_of settle_until end_s s later in
      tally floor_kw settle_until end_s later
        (if span ≼ lit 0 1 then t else tally_sample floor_kw span s.steuve_grid_kw t)

  unfoldable pub verdict_of : Tally → ℕ → Verdict
  verdict_of t dropped =
      if lit 0 1 ≺ t.exceeded_s
      then exceeded
      else if (lit 0 1 ≺ t.unverified_s) || ltb 0 dropped
      then unverified
      else followed

  module _ (p : Printing d) where
    -- `Recorder::close`: the report of the event, and the recorder with its number counted up.
    unfoldable pub close : Recorder → Open → F64 → DimmingReport × Recorder
    unfolding tally verdict_of sha256_hex body
    close r o end_s =
        let seq = (r.seq + 1) % 4294967296 in
        let t =
          tally o.floor_kw (o.start_s ⊕ r.grace_s) end_s o.samples
            (record { exceeded_s = lit 0 1; unverified_s = lit 0 1; max_after = none }) in
        let report : DimmingReport = record {
          seq = seq;
          site = r.site;
          epoch_ms = r.epoch_ms;
          start_s = o.start_s;
          end_s = end_s;
          floor_kw = o.floor_kw;
          emergency = o.emergency;
          grace_s = r.grace_s;
          samples = o.samples;
          dropped = o.dropped;
          max_after_grace_kw = t.max_after;
          exceeded_s = t.exceeded_s;
          unverified_s = t.unverified_s;
          verdict = verdict_of t o.dropped;
          previous_sha256 = r.last_sha256;
          sha256 = [];
        } in
        (record report { sha256 = sha256_hex p (body p report) }, record r { seq = seq })

    unfoldable pub keep_sample : Open → Sample → Bool → Open
    keep_sample o s emergency =
        let o' = record o { emergency = o.emergency || emergency } in
        if lit 1 1 ⊖ lit 1 1000000000 ≼ s.t_s ⊖ o.last_kept_s
        then (if ltb (length o.samples) max_samples
            then record o' { samples = o.samples ++ (s ∷ []); last_kept_s = s.t_s }
            else record o' { dropped = suc o.dropped; last_kept_s = s.t_s })
        else o'

    -- `Recorder::observe` by the event that is open.
    unfoldable pub observe : Recorder → F64 → Bool → Bool → F64 → Option F64 → Option F64 → Recorder
    unfolding keep_sample close
    observe r t_s dimmed emergency floor_kw steuve_grid_kw budget_kw =
        let s : Sample = record {
          t_s = t_s;
          steuve_grid_kw = steuve_grid_kw;
          budget_kw = budget_kw;
        } in
        elim r.open_event [
          | none ↦
              if dimmed
              then record r {
                open_event = some (record {
                  start_s = t_s;
                  floor_kw = floor_kw;
                  emergency = emergency;
                  samples = s ∷ [];
                  dropped = 0;
                  last_kept_s = t_s;
                });
              }
              else r
          | some o ↦
              if dimmed
              then record r { open_event = some (keep_sample o s emergency) }
              else let (report, r') = close (record r { open_event = none }) o t_s in
                record r' { last_sha256 = report.sha256; finished = r'.finished ++ (report ∷ []) }
        ]
