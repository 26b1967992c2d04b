-- ===== src/Control/Report.antt =====
-- The reports of `crates/control/src/compliance.rs` as texts. A text is a list of code points. SHA-256
-- (of the UTF-8 bytes of a text) and the printing of numbers are parameters.
pub mod Csv
use grid_edge_gateway.Prelude.{
  ℕ, zero, suc, ◌+◌, ◌-◌, ◌*◌, ◌/◌, ◌%◌, ◌≤◌, ◌≡◌, List, [], ◌∷◌, ◌++◌, map, Option, none, some,
  Bool, true, false, not, ◌&&◌, ◌||◌, ◌==◌, leb, ltb, if◌then◌else◌, length, take, drop,
}
use grid_edge_gateway.Prelude.Int.{ℤ, pos, ◌+ℤ◌, div_euclid, rem_euclid}
use grid_edge_gateway.Prelude.Text.{codes, same, is_prefix}
use grid_edge_gateway.Prelude.Doubles.{Doubles, F64, lit, ◌⊕◌, ◌⊖◌, ◌⊗◌, ◌≼◌}
use grid_edge_gateway.Iec104.Time.{civil_from_days}

-- What `sha2` and `format!` provide: the 32 bytes of the digest of a text, and a number printed with
-- a number of decimals, in decimal digits, and in at least a number of digits.
pub record Printing (d : Doubles) : Type 0 where
  pub sha256 : List ℕ → List ℕ
  pub fixed : ℕ → d.F64 → List ℕ
  pub decimal : ℕ → List ℕ
  pub padded : ℕ → ℤ → List ℕ

abbrev pub newline : ℕ
newline = 10

abbrev hex_digit : ℕ → ℕ
hex_digit n = if leb n 9 then 48 + n else 87 + n

-- `{b:02x}` of a byte.
abbrev pub hex : List ℕ → List ℕ
hex [] = []
hex (b ∷ bytes) = hex_digit (b / 16 % 16) ∷ (hex_digit (b % 16) ∷ hex bytes)

pub data Verdict : Type 0 where
  followed exceeded unverified : Verdict

unfoldable pub verdict_name : Verdict → List ℕ
verdict_name followed = codes "followed"
verdict_name exceeded = codes "exceeded"
verdict_name unverified = codes "unverified"

abbrev pub bool_name : Bool → List ℕ
bool_name true = codes "true"
bool_name false = codes "false"

-- A text as lines: each ends with a newline.
abbrev pub unlines : List (List ℕ) → List ℕ
unlines [] = []
unlines (l ∷ lines) = l ++ (newline ∷ unlines lines)

-- `trim_end_matches('\n')`
unfoldable pub trim_newlines : List ℕ → List ℕ
trim_newlines [] = []
trim_newlines (c ∷ s) = elim (trim_newlines s) [
  | [] ↦ if c == newline then [] else c ∷ []
  | x ∷ rest ↦ c ∷ (x ∷ rest)
]

-- `rfind('\n')`
unfoldable pub find_last_newline : List ℕ → Option ℕ
find_last_newline [] = none
find_last_newline (c ∷ s) = elim (find_last_newline s) [
  | some i ↦ some (suc i)
  | none ↦ if c == newline then some 0 else none
]

-- The code points of white space in Unicode, which `trim` takes off both ends.
abbrev pub is_white : ℕ → Bool
is_white c =
    (leb 9 c && leb c 13)
    || (c == 32)
    || (c == 133)
    || (c == 160)
    || (c == 5760)
    || (leb 8192 c && leb c 8202)
    || (c == 8232)
    || (c == 8233)
    || (c == 8239)
    || (c == 8287)
    || (c == 12288)

unfoldable pub trim_start : List ℕ → List ℕ
trim_start [] = []
trim_start (c ∷ s) = let rest = trim_start s in if is_white c then rest else c ∷ s

unfoldable pub trim_end : List ℕ → List ℕ
trim_end [] = []
trim_end (c ∷ s) = elim (trim_end s) [
  | [] ↦ if is_white c then [] else c ∷ []
  | x ∷ rest ↦ c ∷ (x ∷ rest)
]

abbrev pub digest_label : List ℕ
digest_label = codes "# sha256: "

module _ ⦃d : Doubles⦄ where
  abbrev pub tolerance_kw : F64
  tolerance_kw = lit 2 10

  pub record Sample : Type 0 where
    pub t_s : F64
    pub steuve_grid_kw : Option F64
    pub budget_kw : Option F64

  pub record DimmingReport : Type 0 where
    pub seq : ℕ
    pub site : List ℕ
    pub epoch_ms : ℤ
    pub start_s : F64
    pub end_s : F64
    pub floor_kw : F64
    pub emergency : Bool
    pub grace_s : F64
    pub samples : List Sample
    pub dropped : ℕ
    pub max_after_grace_kw : Option F64
    pub exceeded_s : F64
    pub unverified_s : F64
    pub verdict : Verdict
    pub previous_sha256 : List ℕ
    pub sha256 : List ℕ

  module _ (p : Printing d) where
    unfoldable pub sha256_hex : List ℕ → List ℕ
    sha256_hex text = hex (p.sha256 text)

    -- The date is that of `civil_from_days` of the time tags, which the source writes out again.
    unfoldable pub iso8601_utc : ℤ → List ℕ
    iso8601_utc unix_ms =
        let secs = div_euclid unix_ms 1000 in
        let (year, month, day) = civil_from_days (div_euclid secs 86400) in
        let sod = rem_euclid secs 86400 in
        let two = λ (n : ℕ). p.padded 2 (pos n) in
        p.padded 4 year
        ++ (codes "-"
            ++ (two month
                ++ (codes "-"
                    ++ (two day
                        ++ (codes "T"
                            ++ (two (sod / 3600)
                                ++ (codes ":"
                                    ++ (two (sod % 3600 / 60)
                                        ++ (codes ":" ++ (two (sod % 60) ++ codes "Z"))))))))))

    unfoldable pub time : DimmingReport → F64 → List ℕ
    time r t_s = iso8601_utc (r.epoch_ms +ℤ d.to_int (d.round (t_s ⊗ lit 1000 1)))

    abbrev fixed_or : List ℕ → Option F64 → List ℕ
    fixed_or unknown none = unknown
    fixed_or unknown (some v) = p.fixed 2 v

    abbrev within : F64 → Option F64 → List ℕ
    within floor_kw none = codes "unknown"
    within floor_kw (some v) = bool_name (v ≼ floor_kw ⊕ tolerance_kw)

    unfoldable pub sample_line : DimmingReport → Sample → List ℕ
    unfolding time
    sample_line r x =
        time r x.t_s
        ++ (codes ","
            ++ (p.fixed 0 (x.t_s ⊖ r.start_s)
                ++ (codes ","
                    ++ (fixed_or [] x.steuve_grid_kw
                        ++ (codes ","
                            ++ (p.fixed 2 r.floor_kw
                                ++ (codes ","
                                    ++ (fixed_or [] x.budget_kw
                                        ++ (codes "," ++ within r.floor_kw x.steuve_grid_kw)))))))))

    unfoldable pub header_lines : DimmingReport → List (List ℕ)
    unfolding time verdict_name
    header_lines r =
        codes "# Consumption reduction report (BK6-22-300 Anlage 1, 7.2)"
        ∷ (codes "# site: " ++ r.site)
        ∷ (codes "# report: " ++ p.decimal r.seq)
        ∷ (codes "# start: " ++ time r r.start_s)
        ∷ (codes "# end: " ++ time r r.end_s)
        ∷ (codes "# duration_s: " ++ p.fixed 0 (r.end_s ⊖ r.start_s))
        ∷ (codes "# floor_kw: " ++ p.fixed 2 r.floor_kw)
        ∷ (codes "# tolerance_kw: " ++ p.fixed 2 tolerance_kw)
        ∷ (codes "# grace_s: " ++ p.fixed 0 r.grace_s)
        ∷ (codes "# emergency: " ++ bool_name r.emergency)
        ∷ (codes "# max_after_grace_kw: " ++ fixed_or (codes "unknown") r.max_after_grace_kw)
        ∷ (codes "# exceeded_s: " ++ p.fixed 0 r.exceeded_s)
        ∷ (codes "# unverified_s: " ++ p.fixed 0 r.unverified_s)
        ∷ (codes "# samples_dropped: " ++ p.decimal r.dropped)
        ∷ (codes "# verdict: " ++ verdict_name r.verdict)
        ∷ (codes "# previous_sha256: " ++ r.previous_sha256)
        ∷ codes "time,elapsed_s,steuve_grid_kw,floor_kw,granted_kw,within_floor"
        ∷ []

    unfoldable pub body : DimmingReport → List ℕ
    unfolding header_lines sample_line
    body r = unlines (header_lines r ++ map (λ x. sample_line r x) r.samples)

    unfoldable pub to_csv : DimmingReport → List ℕ
    unfolding body
    to_csv r = body r ++ (codes "# sha256: " ++ (r.sha256 ++ (newline ∷ [])))

    -- `DimmingReport::verify_csv`
    unfoldable pub verify_csv : List ℕ → Bool
    unfolding sha256_hex trim_newlines find_last_newline trim_start trim_end
    verify_csv csv = elim (find_last_newline (trim_newlines csv)) [
      | none ↦ false
      | some at ↦
          let last = trim_end (trim_start (drop (suc at) csv)) in
          is_prefix digest_label last
          && same (sha256_hex (take (suc at) csv)) (drop (length digest_label) last)
    ]
