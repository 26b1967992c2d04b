-- ===== src/Control/Step/Limits.antt =====
-- The limits of feed-in that `Controller::step` sets.
use grid_edge_gateway.Prelude.{
  ◌≡◌, ◌⊎◌, ap, ◌∙◌, List, [], ◌∷◌, Option, none, some, Bool, true, false, not, ◌&&◌, ◌||◌, inl,
  inr, Bool-cases, if◌then◌else◌, arith, All, map,
}
use grid_edge_gateway.Prelude.Doubles.{
  Doubles, IsIeee, F64, lit, ◌⊕◌, ◌⊗◌, ◌≼◌, ◌≺◌, min, clamp, sum,
}
use grid_edge_gateway.Prelude.Bounds.{min-le, min-le_left, clamp_within}
use grid_edge_gateway.Control.Accounting.{Clock, Totals, roll}
use grid_edge_gateway.Control.Report.{Printing}
use grid_edge_gateway.Control.Site.{SiteConfig, plant_output, Readings}
use grid_edge_gateway.Control.Controller.{
  Controller, limit_feed_in, target_pv_pct, ramp_pv, cap_or_all,
}
use grid_edge_gateway.Control.Step.{step, see, decide, setpoints}
use grid_edge_gateway.Control.Inverters.{Watched, limit_inverters, free_pct, free, any_ignoring}
use grid_edge_gateway.Gateway.Points.{DsoCommands}

module _ ⦃d : Doubles⦄ where
  module _ (ieee : IsIeee d) where
    target-le :
        (cfg : SiteConfig) (feed allowed : F64) (grid_kw pv_kw : Option F64) (b c e : F64)
        → cfg.feed_in_reference ≡ plant_output
        → (feed ≼ feed) ≡ true
        → (target_pv_pct cfg feed allowed grid_kw pv_kw b c e ≼ feed) ≡ true
    unfolding target_pv_pct
    target-le cfg feed allowed (some g) (some pv) b c e h n = elim (Bool-cases (lit 100 1 ≼ feed)) [
      | inl all ↦ rw (target_pv_pct, all, all)
      | inr less ↦ rw (h, less) n
    ]
    target-le cfg feed allowed none pv b c e h n = ground (arith, n)
    target-le cfg feed allowed (some g) none b c e h n = ground (arith, n)

    ramp-le :
        (c : Controller) (dt target : F64)
        → (target ≼ target) ≡ true
        → (ramp_pv c dt target ≼ target) ≡ true
    unfolding ramp_pv
    ramp-le c dt target n = elim (Bool-cases (c.last_pv_pct ≺ target)) [
      | inl up ↦
          rw (ramp_pv, up) (min-le ieee (c.last_pv_pct ⊕ c.cfg.pv_ramp_pct_per_s ⊗ dt) target n)
      | inr down ↦ rw (ramp_pv, down, n)
    ]

    granted_of :
        (below emergency used enforced : Bool) (all asked : F64)
        → (emergency ≡ true) ⊎ (enforced ≡ false)
        → (if (below && not emergency && used) && enforced then all else asked) ≡ asked
    granted_of below emergency used enforced all asked x = ground arith

    -- The limit in force is the one asked for, down to the standing cap.
    limit_feed_in-eq :
        (cfg : SiteConfig) (cmd : DsoCommands d) (totals : Totals)
        → (lit 0 1 ≼ cmd.feed_in_limit_pct) ≡ true
        → (cmd.feed_in_limit_pct ≼ lit 100 1) ≡ true
        → (cmd.emergency ≡ true) ⊎ (cfg.policy.enforce_curtailment_budget ≡ false)
        → (limit_feed_in cfg cmd totals).feed_in_pct
          ≡ min cmd.feed_in_limit_pct (cap_or_all cfg.policy.static_feed_in_cap_pct)
    unfolding limit_feed_in
    limit_feed_in-eq cfg cmd totals h k x =
        ap (λ granted. min granted (cap_or_all cfg.policy.static_feed_in_cap_pct))
          (granted_of _ _ _ _ _ _ x
            ∙ clamp_within ieee cmd.feed_in_limit_pct (lit 0 1) (lit 100 1) h k)

    -- The plant's limit after the ramp is at most the limit in force.
    plant-le :
        (c : Controller) (dt feed allowed : F64) (grid_kw pv_kw : Option F64) (b ch e : F64)
        → c.cfg.feed_in_reference ≡ plant_output
        → (feed ≼ feed) ≡ true
        → (ramp_pv c dt (target_pv_pct c.cfg feed allowed grid_kw pv_kw b ch e) ≼ feed) ≡ true
    plant-le c dt feed allowed grid_kw pv_kw b ch e plant n =
        let t = target-le c.cfg feed allowed grid_kw pv_kw b ch e plant n in
        ieee.le_trans (ramp-le c dt _ (ieee.le_refl t).0) t

    not_above_self : (a : F64) → (a ≺ a) ≡ false
    not_above_self a = ground arith

    clamp-below : (a lo hi : F64) → (hi ≺ clamp a lo hi) ≡ false
    unfolding clamp
    clamp-below a lo hi = ground arith

    free_pct-below :
        (cfg : SiteConfig) (pct : F64) (watched : List Watched)
        → (pct ≺ free_pct cfg pct watched) ≡ false
    unfolding free_pct
    free_pct-below cfg pct watched = elim (Bool-cases (lit 0 1 ≺ sum (free watched))) [
      | inl e ↦ rw e (clamp-below _ (lit 0 1) pct)
      | inr e ↦ rw e (not_above_self pct)
    ]

    abbrev pub AllBelow : F64 → List F64 → Type 0
    AllBelow pct = All (λ sent. (pct ≺ sent) ≡ false)

    map-below :
        (pct : F64) (f : Watched → F64) (watched : List Watched)
        → ((w : Watched) → (pct ≺ f w) ≡ false)
        → AllBelow pct (map f watched)
    map-below pct f [] h = tt
    map-below pct f (w ∷ watched) h = (h w, map-below pct f watched h)

    one-below :
        (pct rest : F64) (ignoring : Bool)
        → (pct ≺ rest) ≡ false
        → (pct ≺ (if ignoring then pct else rest)) ≡ false
    one-below pct rest true h = not_above_self pct
    one-below pct rest false h = h

    limit_inverters-below :
        (cfg : SiteConfig) (pct : F64) (watched : List Watched)
        → AllBelow pct (limit_inverters cfg pct watched)
    unfolding limit_inverters
    limit_inverters-below cfg pct watched =
        elim (Bool-cases ((lit 100 1 ≼ pct) || not (any_ignoring watched))) [
          | inl e ↦ rw e (map-below pct _ watched (λ w. not_above_self pct))
          | inr e ↦ rw e (
              map-below pct _ watched
                (λ w. one-below pct _ w.ignoring (free_pct-below cfg pct watched)))
        ]

    module _ (p : Printing d) where
      -- Where the feed-in limit is measured at the plant, a cycle sets the plant's limit to at most the
      -- operator's limit, which lies from 0 to 100 per cent, and to at most the standing cap of the
      -- country, and no inverter is sent a limit above the plant's. This holds in an emergency, and
      -- wherever the country does not enforce a curtailment budget.
      pub step-feed_in :
          (c : Controller) (clock : Clock) (cmd : DsoCommands d) (r : Readings)
          → c.cfg.feed_in_reference ≡ plant_output
          → (lit 0 1 ≼ cmd.feed_in_limit_pct) ≡ true
          → (cmd.feed_in_limit_pct ≼ lit 100 1) ≡ true
          → (let cap = cap_or_all c.cfg.policy.static_feed_in_cap_pct in cap ≼ cap) ≡ true
          → (cmd.emergency ≡ true) ⊎ (c.cfg.policy.enforce_curtailment_budget ≡ false)
          → let sp = (step p c clock cmd r).0.0 in
            ((sp.pv_limit_pct ≼ cmd.feed_in_limit_pct) ≡ true)
            × ((sp.pv_limit_pct ≼ cap_or_all c.cfg.policy.static_feed_in_cap_pct) ≡ true)
            × AllBelow sp.pv_limit_pct sp.inverter_limit_pct
      unfolding step decide setpoints
      step-feed_in c clock cmd r plant h k cap x =
          let x' = decide c clock cmd r (see c clock.t_s cmd r) in
          let eq = limit_feed_in-eq c.cfg cmd (roll c.accounting clock).totals h k x in
          let asked = min-le_left ieee cmd.feed_in_limit_pct _ (ieee.le_refl h).1 in
          let capped = min-le ieee cmd.feed_in_limit_pct _ cap in
          let feed = (limit_feed_in c.cfg cmd (roll c.accounting clock).totals).feed_in_pct in
          let feed-le : (feed ≼ cmd.feed_in_limit_pct) ≡ true = rw eq asked in
          let feed-cap : (feed ≼ cap_or_all c.cfg.policy.static_feed_in_cap_pct) ≡ true =
            rw eq capped in
          let below = plant-le c _ feed _ _ _ _ _ _ plant (ieee.le_refl feed-le).0 in
          (
            ieee.le_trans below feed-le,
            ieee.le_trans below feed-cap,
            limit_inverters-below c.cfg _ x'.watched,
          )
