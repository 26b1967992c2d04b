-- ===== src/Control/Step/Modes.antt =====
-- When `Controller::step` dims a site, and to which floor.
use grid_edge_gateway.Prelude.{
  ℕ, ◌≡◌, ◌≢◌, refl, sym, [], ◌∷◌, Option, none, some, Bool, true, false, not, ◌&&◌, if◌then◌else◌,
  arith, ◌↔◌,
}
use std.Logic.{↔_trans}
use mathlib.Core.Bool.{true≢false}
use grid_edge_gateway.Prelude.Doubles.{Doubles, F64, lit, ◌⊗◌, ◌≼◌, ◌≺◌}
use grid_edge_gateway.Control.Accounting.{Clock, Totals, roll}
use grid_edge_gateway.Control.Report.{Printing}
use grid_edge_gateway.Control.Policy.{ConsumptionRule, de_14a, contract}
use grid_edge_gateway.Control.Site.{SiteConfig, dimmed, dim_day_limit_reached, Readings}
use grid_edge_gateway.Control.Controller.{Controller, floor_for, decide_dim, plan_budget, released}
use grid_edge_gateway.Control.Step.{step, see, decide, status}
use grid_edge_gateway.Gateway.Points.{DsoCommands}

module _ ⦃d : Doubles⦄ where
  -- A contract whose minutes of the day are used up refuses a command that is not an emergency.
  pub IsRefused : ConsumptionRule → DsoCommands d → Totals → Type 0
  IsRefused de_14a cmd totals = ⊥
  IsRefused (contract min_kw minutes) cmd totals =
      (cmd.emergency ≡ false)
      × ((lit 0 1 ≺ minutes) ≡ true)
      × ((minutes ⊗ lit 60 1 ≼ totals.dimmed_s_today) ≡ true)

  applies {ℓ} :
      {A : Type ℓ} (x y : A) (dim emergency limited used_up : Bool)
      → (let decided : Bool × A =
            if dim && not emergency && limited && used_up then (false, x) else (dim, y) in
          decided.0 ≡ true)
        ↔ ((dim ≡ true) × ¬ ((emergency ≡ false) × (limited ≡ true) × (used_up ≡ true)))
  applies x y false emergency limited used_up = (λ h. absurd (true≢false (sym h)), λ h. h.0)
  applies x y true true limited used_up = (λ h. (refl, λ r. true≢false r.0), λ h. refl)
  applies x y true false false used_up = (λ h. (refl, λ r. true≢false (sym r.1)), λ h. refl)
  applies x y true false true false = (λ h. (refl, λ r. true≢false (sym r.2)), λ h. refl)
  applies x y true false true true =
      (λ h. absurd (true≢false (sym h)), λ h. absurd (h.1 (refl, refl, refl)))

  decide_dim-true :
      (rule : ConsumptionRule) (cmd : DsoCommands d) (totals : Totals)
      → ((decide_dim rule cmd totals).0 ≡ true) ↔ ((cmd.dim ≡ true) × ¬ IsRefused rule cmd totals)
  unfolding decide_dim IsRefused
  decide_dim-true de_14a cmd totals = (λ h. (h, λ r. r), λ h. h.0)
  decide_dim-true (contract min_kw minutes) cmd totals =
      applies (dim_day_limit_reached ∷ []) [] cmd.dim cmd.emergency (lit 0 1 ≺ minutes)
        (minutes ⊗ lit 60 1 ≼ totals.dimmed_s_today)

  released-mode :
      (cfg : SiteConfig) (t_s : F64) (release : Option (F64 × F64)) (rng : ℕ)
      → (released cfg t_s release rng).mode ≢ dimmed
  unfolding released
  released-mode cfg t_s none rng h = ground arith
  released-mode cfg t_s (some (t0, from)) rng h = ground arith

  plan_budget-dimmed :
      (c : Controller) (t_s : F64) (dim : Bool) (floor_kw : F64) (surplus : Option F64)
      → ((plan_budget c t_s dim floor_kw surplus).mode ≡ dimmed) ↔ (dim ≡ true)
  unfolding plan_budget
  plan_budget-dimmed c t_s true floor_kw surplus = (λ h. refl, λ h. refl)
  plan_budget-dimmed c t_s false floor_kw surplus =
      (λ h. absurd (released-mode c.cfg t_s _ _ h), λ h. absurd (true≢false (sym h)))

  module _ (p : Printing d) where
    -- A cycle dims the site exactly where the commands demand it and no contract refuses it: the contract
    -- of the site has a daily limit, the minutes of the day counted after the clock has turned
    -- to this cycle, reach it, and the command is no emergency. Under §14a EnWG nothing is refused.
    pub step-mode :
        (c : Controller) (clock : Clock) (cmd : DsoCommands d) (r : Readings)
        → ((step p c clock cmd r).0.1.mode ≡ dimmed) ↔ (
            (cmd.dim ≡ true)
            × ¬ IsRefused c.cfg.policy.consumption cmd (roll c.accounting clock).totals)
    unfolding step status decide
    step-mode c clock cmd r =
        ↔_trans
          (plan_budget-dimmed c clock.t_s _ (floor_for c cmd) (see c clock.t_s cmd r).held_surplus)
          (decide_dim-true c.cfg.policy.consumption cmd (roll c.accounting clock).totals)
