-- ===== src/Control/Report/Csv.antt =====
-- `DimmingReport::verify_csv` on what `DimmingReport::to_csv` writes.
use grid_edge_gateway.Prelude.{
  ℕ, suc, ◌≤◌, ◌≡◌, ◌≢◌, refl, sym, ap, subst, ◌∙◌, List, [], ◌∷◌, ◌++◌, map, none, some, true,
  false, length, take, drop, arith, All, append_assoc, take-append, drop-append, length-append,
  ne→==,
}
use grid_edge_gateway.Prelude.Text.{same_refl, is_prefix-append}
use grid_edge_gateway.Prelude.Doubles.{Doubles}
use grid_edge_gateway.Control.Report.{
  Printing, DimmingReport, newline, hex, unlines, sha256_hex, body, to_csv, verify_csv,
  trim_newlines, find_last_newline, trim_start, trim_end, digest_label, header_lines, sample_line,
  is_white,
}

-- A character that is neither white space nor a newline.
abbrev pub IsInk : ℕ → Type 0
IsInk c = (33 ≤ c) × (c ≤ 126)

pub hex-IsInk : (bytes : List ℕ) → All IsInk (hex bytes)
hex-IsInk [] = tt
hex-IsInk (b ∷ bytes) = ground (arith, hex-IsInk bytes)

trim_newlines_end : (s : List ℕ) → trim_newlines (s ++ (newline ∷ [])) ≡ trim_newlines s
unfolding trim_newlines
trim_newlines_end [] = refl
trim_newlines_end (c ∷ s) = rw (trim_newlines_end s)

trim_newlines_ink :
    (s : List ℕ) (c : ℕ) (t : List ℕ)
    → All IsInk (c ∷ t)
    → trim_newlines (s ++ (c ∷ t)) ≡ s ++ (c ∷ t)
unfolding trim_newlines
trim_newlines_ink [] c [] h = rw (ne→== c newline (omega arith))
trim_newlines_ink [] c (x ∷ t) h = rw (trim_newlines_ink [] x t h.1)
trim_newlines_ink (y ∷ []) c t h = rw (trim_newlines_ink [] c t h)
trim_newlines_ink (y ∷ (z ∷ s)) c t h = rw (trim_newlines_ink (z ∷ s) c t h)

find_last_newline_ink : (t : List ℕ) → All (λ c. c ≢ newline) t → find_last_newline t ≡ none
unfolding find_last_newline
find_last_newline_ink [] h = refl
find_last_newline_ink (c ∷ t) h = rw (find_last_newline_ink t h.1, ne→== c newline h.0)

find_last_newline-append :
    (s t : List ℕ)
    → All (λ c. c ≢ newline) t
    → find_last_newline (s ++ (newline ∷ t)) ≡ some (length s)
unfolding find_last_newline
find_last_newline-append [] t h = rw (find_last_newline_ink t h)
find_last_newline-append (c ∷ s) t h = rw (find_last_newline-append s t h)

white_ink : (c : ℕ) → IsInk c → is_white c ≡ false
white_ink c h = ground arith

trim_end-newline : (s : List ℕ) → trim_end (s ++ (newline ∷ [])) ≡ trim_end s
unfolding trim_end
trim_end-newline [] = refl
trim_end-newline (c ∷ s) = rw (trim_end-newline s)

trim_end_ink :
    (s : List ℕ) (c : ℕ) (t : List ℕ) → All IsInk (c ∷ t) → trim_end (s ++ (c ∷ t)) ≡ s ++ (c ∷ t)
unfolding trim_end
trim_end_ink [] c [] h = rw (white_ink c h.0)
trim_end_ink [] c (x ∷ t) h = rw (trim_end_ink [] x t h.1)
trim_end_ink (y ∷ []) c t h = rw (trim_end_ink [] c t h)
trim_end_ink (y ∷ (z ∷ s)) c t h = rw (trim_end_ink (z ∷ s) c t h)

unlines_end :
    (l : List ℕ) (lines : List (List ℕ))
    → (s : List ℕ) × (unlines (l ∷ lines) ≡ s ++ (newline ∷ []))
unlines_end l [] = (l, refl)
unlines_end l (m ∷ lines) =
    let (s, e) = unlines_end m lines in
    (
      l ++ (newline ∷ s),
      ap (λ r. l ++ (newline ∷ r)) e ∙ sym (append_assoc l (newline ∷ s) (newline ∷ [])),
    )

unlines_some :
    (lines : List (List ℕ))
    → 1 ≤ length lines
    → (s : List ℕ) × (unlines lines ≡ s ++ (newline ∷ []))
unlines_some [] h = absurd (omega arith)
unlines_some (l ∷ lines) h = unlines_end l lines

-- The last line of a report, before its newline.
ink-ne : (t : List ℕ) → All IsInk t → All (λ c. c ≢ newline) t
ink-ne [] h = tt
ink-ne (c ∷ t) h = (λ e. absurd (omega arith), ink-ne t h.1)

trim_start_ink : (c : ℕ) (s : List ℕ) → IsInk c → trim_start (c ∷ s) ≡ c ∷ s
unfolding trim_start
trim_start_ink c s h = rw (white_ink c h)

trim_newlines_text :
    (s t : List ℕ)
    → All IsInk t
    → 1 ≤ length t
    → trim_newlines (s ++ (t ++ (newline ∷ []))) ≡ s ++ t
trim_newlines_text s [] h l = absurd (omega arith)
trim_newlines_text s (x ∷ t) h l =
    ap trim_newlines (sym (append_assoc s (x ∷ t) (newline ∷ [])))
    ∙ (trim_newlines_end (s ++ (x ∷ t)) ∙ trim_newlines_ink s x t h)

-- The two ends of the white space: a line that starts with a number sign is not trimmed there.
trim_line :
    (c : ℕ) (s t : List ℕ)
    → IsInk c
    → All IsInk t
    → 1 ≤ length t
    → trim_end (trim_start (c ∷ (s ++ (t ++ (newline ∷ []))))) ≡ c ∷ (s ++ t)
trim_line c s [] h k l = absurd (omega arith)
trim_line c s (x ∷ t) h k l =
    ap trim_end (trim_start_ink c (s ++ ((x ∷ t) ++ (newline ∷ []))) h)
    ∙ (ap trim_end (ap (λ r. c ∷ r) (sym (append_assoc s (x ∷ t) (newline ∷ []))))
        ∙ (trim_end-newline (c ∷ (s ++ (x ∷ t))) ∙ trim_end_ink (c ∷ s) x t k))

-- What `verify_csv` finds in a text whose last line is the label and a digest.
abbrev text : List ℕ → List ℕ
text front = front ++ (newline ∷ [])

abbrev csv : List ℕ → List ℕ → List ℕ
csv front digest = text front ++ (digest_label ++ (digest ++ (newline ∷ [])))

module _ (front digest : List ℕ) (ink : All IsInk digest) (some_ink : 1 ≤ length digest) where
  trim_newlines-csv :
      trim_newlines (csv front digest) ≡ front ++ (newline ∷ (digest_label ++ digest))
  trim_newlines-csv =
      ap trim_newlines (sym (append_assoc (text front) digest_label (digest ++ (newline ∷ []))))
      ∙ (trim_newlines_text (text front ++ digest_label) digest ink some_ink
          ∙ (append_assoc (text front) digest_label digest
              ∙ append_assoc front (newline ∷ []) (digest_label ++ digest)))

  label-ne : All (λ c. c ≢ newline) (digest_label ++ digest)
  label-ne = ground (arith, ink-ne digest ink)

  find_csv : find_last_newline (trim_newlines (csv front digest)) ≡ some (length front)
  find_csv =
      ap find_last_newline trim_newlines-csv
      ∙ find_last_newline-append front (digest_label ++ digest) label-ne

  text-length : suc (length front) ≡ length (text front)
  text-length = omega (arith, length-append front (newline ∷ []))

  drop-csv :
      drop (suc (length front)) (csv front digest) ≡ digest_label ++ (digest ++ (newline ∷ []))
  drop-csv =
      drop-append (suc (length front)) (text front) (digest_label ++ (digest ++ (newline ∷ [])))
        text-length

  take-csv : take (suc (length front)) (csv front digest) ≡ text front
  take-csv =
      take-append (suc (length front)) (text front) (digest_label ++ (digest ++ (newline ∷ [])))
        text-length

  last_csv :
      trim_end (trim_start (drop (suc (length front)) (csv front digest))) ≡ digest_label ++ digest
  last_csv =
      ap (λ r. trim_end (trim_start r)) drop-csv
      ∙ trim_line 35 (drop 1 digest_label) digest (omega arith, omega arith) ink some_ink

module _ ⦃d : Doubles⦄ (p : Printing d) where
  verify_text :
      (front digest : List ℕ)
      → All IsInk digest
      → 1 ≤ length digest
      → sha256_hex p (text front) ≡ digest
      → verify_csv p (csv front digest) ≡ true
  unfolding verify_csv
  verify_text front digest ink some_ink e = rw (
    verify_csv,
    find_csv front digest ink some_ink,
    last_csv front digest ink some_ink,
    take-csv front digest ink some_ink,
    e,
    is_prefix-append digest_label digest,
    same_refl digest,
  )

  length-hex : (bytes : List ℕ) → length bytes ≡ 32 → 1 ≤ length (hex bytes)
  length-hex [] h = absurd (omega arith)
  length-hex (b ∷ bytes) h = omega arith

  pub body_end : (r : DimmingReport) → (front : List ℕ) × (body p r ≡ text front)
  unfolding body header_lines
  body_end r =
      unlines_some (header_lines p r ++ map (λ x. sample_line p r x) r.samples) (omega arith)

  -- What a report writes is accepted, if its digest is that of its body, whatever the texts and numbers in
  -- it are and whatever the functions that print and hash are, so long as a digest has 32 bytes.
  pub verify_csv-to_csv :
      (r : DimmingReport)
      → ((written : List ℕ) → length (p.sha256 written) ≡ 32)
      → r.sha256 ≡ sha256_hex p (body p r)
      → verify_csv p (to_csv p r) ≡ true
  unfolding to_csv sha256_hex
  verify_csv-to_csv r h e =
      let (front, be) = body_end r in
      let ink : All IsInk r.sha256 =
        subst (λ s. All IsInk s) (sym e) (hex-IsInk (p.sha256 (body p r))) in
      let some_ink : 1 ≤ length r.sha256 =
        subst (λ s. 1 ≤ length s) (sym e) (length-hex (p.sha256 (body p r)) (h (body p r))) in
      ap (λ b. verify_csv p (b ++ (digest_label ++ (r.sha256 ++ (newline ∷ []))))) be
      ∙ verify_text front r.sha256 ink some_ink (ap (λ b. sha256_hex p b) (sym be) ∙ sym e)
