-- ===== src/Control/Policy.antt =====
-- `crates/control/src/policy.rs`: what the grid operator may do, per country. The texts of the errors
-- are left out: an error says which check failed.
use grid_edge_gateway.Prelude.{
  ℕ, ◌-◌, List, Option, none, some, Bool, true, false, not, ◌&&◌, ◌||◌, leb, if◌then◌else◌, Result,
  ok, err, map,
}
use grid_edge_gateway.Prelude.Text.{codes, same}
use grid_edge_gateway.Prelude.Doubles.{Doubles, F64, lit, ◌≼◌, ◌≺◌}

pub data Jurisdiction : Type 0 where
  de at ch : Jurisdiction

-- A text is the list of its bytes.
unfoldable pub country_code : Jurisdiction → List ℕ
country_code de = codes "DE"
country_code at = codes "AT"
country_code ch = codes "CH"

abbrev to_ascii_uppercase : ℕ → ℕ
to_ascii_uppercase c = if leb b'a' c && leb c b'z' then c - 32 else c

unfoldable pub parse : List ℕ → Option Jurisdiction
parse s =
    let upper = map to_ascii_uppercase s in
    if same upper (codes "DE")
    then some de
    else if same upper (codes "AT")
    then some at
    else if same upper (codes "CH")
    then some ch
    else none

pub data PolicyError : Type 0 where
  static_cap_outside budget_outside contract_outside contract_in_de : PolicyError

module _ ⦃d : Doubles⦄ where
  pub data ConsumptionRule : Type 0 where
    de_14a : ConsumptionRule
    contract : (min_kw max_minutes_per_day : F64) → ConsumptionRule

  pub record Policy : Type 0 where
    pub jurisdiction : Jurisdiction
    pub consumption : ConsumptionRule
    pub static_feed_in_cap_pct : Option F64
    pub curtailment_budget_pct : Option F64
    pub enforce_curtailment_budget : Bool

  unfoldable pub for_country : Jurisdiction → Policy
  for_country de = record {
    jurisdiction = de;
    consumption = de_14a;
    static_feed_in_cap_pct = none;
    curtailment_budget_pct = none;
    enforce_curtailment_budget = false;
  }
  for_country at = record {
    jurisdiction = at;
    consumption = contract (lit 0 1) (lit 0 1);
    static_feed_in_cap_pct = some (lit 70 1);
    curtailment_budget_pct = none;
    enforce_curtailment_budget = false;
  }
  for_country ch = record {
    jurisdiction = ch;
    consumption = contract (lit 0 1) (lit 0 1);
    static_feed_in_cap_pct = none;
    curtailment_budget_pct = some (lit 3 1);
    enforce_curtailment_budget = true;
  }

  abbrev pub in_percent : F64 → Bool
  in_percent c = (lit 0 1 ≼ c) && (c ≼ lit 100 1)

  abbrev pub optional_in_percent : Option F64 → Bool
  optional_in_percent none = true
  optional_in_percent (some c) = in_percent c

  abbrev pub contract_allows : ConsumptionRule → Bool
  contract_allows de_14a = true
  contract_allows (contract min_kw minutes) =
      not ((min_kw ≺ lit 0 1) || (minutes ≺ lit 0 1) || (lit 1440 1 ≺ minutes))

  abbrev pub is_de : Jurisdiction → Bool
  is_de de = true
  is_de at = false
  is_de ch = false

  abbrev pub is_14a : ConsumptionRule → Bool
  is_14a de_14a = true
  is_14a (contract min_kw minutes) = false

  unfoldable pub validate : Policy → Result PolicyError (Unit {0})
  validate p =
      if not (optional_in_percent p.static_feed_in_cap_pct)
      then err static_cap_outside
      else if not (optional_in_percent p.curtailment_budget_pct)
      then err budget_outside
      else if not (contract_allows p.consumption)
      then err contract_outside
      else if is_de p.jurisdiction && not (is_14a p.consumption)
      then err contract_in_de
      else ok tt
