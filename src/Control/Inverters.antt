-- ===== src/Control/Inverters.antt =====
-- The inverters that ignore their limit: that part of `Controller::step`.
use grid_edge_gateway.Prelude.{
  ℕ, ◌+◌, List, [], ◌∷◌, Option, none, some, Bool, false, not, ◌&&◌, ◌||◌, if◌then◌else◌, map,
}
use grid_edge_gateway.Prelude.Doubles.{
  Doubles, F64, lit, ◌⊕◌, ◌⊖◌, ◌⊗◌, ◌⊘◌, ◌≼◌, ◌≺◌, max, clamp, sum,
}
use grid_edge_gateway.Control.Site.{SiteConfig, InverterReading, Fallback, inverter_ignores_limit}

module _ ⦃d : Doubles⦄ where
  -- An inverter with the limit it was sent and the time since when it has been above it.
  pub record Watched : Type 0 where
    pub reading : InverterReading
    pub over_since : Option F64
    pub ignoring : Bool

  unfoldable pub is_over : SiteConfig → InverterReading → F64 → Bool
  is_over cfg inv sent =
      let tolerance_kw = max cfg.margin_kw (lit 2 100 ⊗ inv.rated_kw) in
      inv.online && (sent ≺ lit 100 1) && (inv.rated_kw ⊗ sent ⊘ lit 100 1 ⊕ tolerance_kw ≺ inv.kw)

  abbrev pub since_of : Option F64 → F64 → F64
  since_of none t_s = t_s
  since_of (some t) t_s = t

  unfoldable pub watch_one : SiteConfig → F64 → InverterReading → F64 → Option F64 → Watched
  unfolding is_over
  watch_one cfg t_s inv sent over_since =
      let since = since_of over_since t_s in
      if not (is_over cfg inv sent)
      then record { reading = inv; over_since = none; ignoring = false }
      else record {
        reading = inv;
        over_since = some since;
        ignoring = (lit 0 1 ≺ cfg.pv_follow_timeout_s) && (cfg.pv_follow_timeout_s ≼ t_s ⊖ since);
      }

  unfoldable pub watch :
      SiteConfig → F64 → List InverterReading → List F64 → List (Option F64) → List Watched
  unfolding watch_one
  watch cfg t_s [] sent over_since = []
  watch cfg t_s (inv ∷ inverters) [] over_since = []
  watch cfg t_s (inv ∷ inverters) (s ∷ sent) [] = []
  watch cfg t_s (inv ∷ inverters) (s ∷ sent) (o ∷ over_since) =
      watch_one cfg t_s inv s o ∷ watch cfg t_s inverters sent over_since

  abbrev pub ignored : ℕ → List Watched → List Fallback
  ignored i [] = []
  ignored i (w ∷ watched) =
      if w.ignoring
      then inverter_ignores_limit i ∷ ignored (i + 1) watched
      else ignored (i + 1) watched

  abbrev pub any_ignoring : List Watched → Bool
  any_ignoring [] = false
  any_ignoring (w ∷ watched) = w.ignoring || any_ignoring watched

  abbrev pub stuck : List Watched → List F64
  stuck [] = []
  stuck (w ∷ watched) = if w.ignoring then w.reading.kw ∷ stuck watched else stuck watched

  abbrev pub free : List Watched → List F64
  free [] = []
  free (w ∷ watched) =
      if not w.ignoring && w.reading.online then w.reading.rated_kw ∷ free watched else free watched

  -- The limit of those that follow theirs, where some do not.
  unfoldable pub free_pct : SiteConfig → F64 → List Watched → F64
  free_pct cfg pv_limit_pct watched =
      let target_kw = cfg.pv_installed_kw ⊗ pv_limit_pct ⊘ lit 100 1 in
      let free_rated = sum (free watched) in
      if lit 0 1 ≺ free_rated
      then clamp ((target_kw ⊖ sum (stuck watched)) ⊘ free_rated ⊗ lit 100 1) (lit 0 1) pv_limit_pct
      else pv_limit_pct

  unfoldable pub limit_inverters : SiteConfig → F64 → List Watched → List F64
  unfolding free_pct
  limit_inverters cfg pv_limit_pct watched =
      if (lit 100 1 ≼ pv_limit_pct) || not (any_ignoring watched)
      then map (λ (w : Watched). pv_limit_pct) watched
      else map
          (λ (w : Watched). if w.ignoring then pv_limit_pct else free_pct cfg pv_limit_pct watched)
          watched
