-- ===== src/Gateway/Reports/Resume.antt =====
-- The chain of reports across a restart: `resume` after `write`.
use mathlib.Core.Path.{ap₂}
use grid_edge_gateway.Prelude.{
  ℕ, ◌*◌, ◌<◌, ◌≡◌, ◌≢◌, refl, sym, ◌∙◌, ap, subst, List, [], ◌∷◌, ◌++◌, some, true, false, ◌==◌,
  eq→==, ltb, length, arith, All, append_assoc, take-append, drop-append, ne→==, Bool-cases, ◌&&◌,
  inl, inr,
}
use grid_edge_gateway.Prelude.Int.{pos}
use grid_edge_gateway.Prelude.Text.{is_prefix-append}
use grid_edge_gateway.Prelude.Doubles.{Doubles}
use grid_edge_gateway.Control.Report.{
  Printing, DimmingReport, newline, digest_label, hex, sha256_hex, body, to_csv,
}
use grid_edge_gateway.Control.Report.Csv.{body_end, hex-IsInk, IsInk}
use grid_edge_gateway.Gateway.Reports.{
  File, ReportEntry, utf8_len, lookup, valid_name, comes_first, insert, list_reports, last, lines,
  strip_prefix, parse_u32, resume, without, file_name, write, number_in, or_zero, or_genesis,
  begins_newline,
}

-- A character within a line.
abbrev IsPlain : ℕ → Type 0
IsPlain c = (c ≢ newline) × (c ≢ 13)

lines_plain : (t : List ℕ) → All IsPlain t → lines (t ++ (newline ∷ [])) ≡ t ∷ []
unfolding lines
lines_plain [] h = refl
lines_plain (c ∷ t) ((n, r), h) = rw (lines_plain t h, ne→== c newline n, ne→== c 13 r)

-- The lines before a newline do not see what follows it.
lines-append :
    (front u : List ℕ)
    → (l : List ℕ) × (ls : List (List ℕ)) × (lines (front ++ (newline ∷ u)) ≡ l ∷ (ls ++ lines u))
unfolding lines
lines-append [] u = ([], [], refl)
lines-append (c ∷ front) u =
    let (l, ls, e) = lines-append front u in
    elim (Bool-cases (c == newline)) [
      | inl x ↦ ([], l ∷ ls, rw (x, e))
      | inr x ↦ elim (Bool-cases ((c == 13) && begins_newline (front ++ (newline ∷ u)))) [
        | inl y ↦ (l, ls, rw (x, y, e))
        | inr y ↦ (c ∷ l, ls, rw (x, y, e))
      ]
    ]

last-append {ℓ} : {A : Type ℓ} (x : A) (xs : List A) (y : A) → last (x ∷ (xs ++ (y ∷ []))) ≡ some y
last-append x [] y = refl
last-append x (z ∷ xs) y = last-append z xs y

-- A name that comes after those of all files, and the same of entries.
abbrev pub ComesAfter : List ℕ → List File → Type 0
ComesAfter name = All (λ f. comes_first name f.name ≡ false)

abbrev IsLast : List ℕ → List ReportEntry → Type 0
IsLast name = All (λ e. comes_first name e.file ≡ false)

insert-IsLast :
    (name : List ℕ) (e : ReportEntry) (entries : List ReportEntry)
    → comes_first name e.file ≡ false
    → IsLast name entries
    → IsLast name (insert e entries)
unfolding insert
insert-IsLast name e [] h k = (h, tt)
insert-IsLast name e (g ∷ entries) h (k, ks) = elim (Bool-cases (comes_first e.file g.file)) [
  | inl x ↦ rw x (h, (k, ks))
  | inr x ↦ rw x (k, insert-IsLast name e entries h ks)
]

list_reports-IsLast :
    (name : List ℕ) (dir : List File) → ComesAfter name dir → IsLast name (list_reports dir)
unfolding list_reports
list_reports-IsLast name [] h = tt
list_reports-IsLast name (f ∷ dir) (h, hs) = elim (Bool-cases (valid_name f.name)) [
  | inl e ↦ rw e (insert-IsLast name _ (list_reports dir) h (list_reports-IsLast name dir hs))
  | inr e ↦ rw e (list_reports-IsLast name dir hs)
]

insert-last :
    (e : ReportEntry) (entries : List ReportEntry)
    → IsLast e.file entries
    → insert e entries ≡ entries ++ (e ∷ [])
unfolding insert
insert-last e [] h = refl
insert-last e (g ∷ entries) (h, hs) = rw (h, insert-last e entries hs)

comes_first_self : (s : List ℕ) → comes_first s s ≡ true
comes_first_self [] = refl
comes_first_self (b ∷ s) =
    let equal : (b == b) ≡ true = eq→== b b refl in
    let less : ltb b b ≡ false = ground arith in rw (less, equal, comes_first_self s) refl

lookup_first : (f : File) (dir : List File) → lookup f.name (f ∷ dir) ≡ some f.text
lookup_first f dir = rw (comes_first_self f.name) refl

without-ComesAfter :
    (name : List ℕ) (dir : List File) → ComesAfter name dir → without name dir ≡ dir
without-ComesAfter name [] h = refl
without-ComesAfter name (f ∷ dir) (h, hs) = rw (h, without-ComesAfter name dir hs)

last_one {ℓ} : {A : Type ℓ} (xs : List A) (y : A) → last (xs ++ (y ∷ [])) ≡ some y
last_one [] y = refl
last_one (x ∷ xs) y = last-append x xs y

-- The last line of a text that ends with a newline.
last-lines :
    (front t : List ℕ)
    → All IsPlain t
    → last (lines (front ++ (newline ∷ (t ++ (newline ∷ []))))) ≡ some t
last-lines front t h =
    let (l, ls, e) = lines-append front (t ++ (newline ∷ [])) in
    ap last e ∙ (ap (λ rest. last (l ∷ (ls ++ rest))) (lines_plain t h) ∙ last-append l ls t)

label-IsPlain : (digest : List ℕ) → All IsPlain digest → All IsPlain (digest_label ++ digest)
label-IsPlain digest h = ground (arith, h)

ink-IsPlain : (t : List ℕ) → All IsInk t → All IsPlain t
ink-IsPlain [] h = tt
ink-IsPlain (c ∷ t) (k, h) =
    ((λ e. absurd (omega arith), λ e. absurd (omega arith)), ink-IsPlain t h)

strip_prefix-append : (prefix s : List ℕ) → strip_prefix prefix (prefix ++ s) ≡ some s
strip_prefix-append prefix s =
    rw (is_prefix-append prefix s, drop-append (length prefix) prefix s refl)

length-hex : (bytes : List ℕ) → length (hex bytes) ≡ 2 * length bytes
length-hex [] = refl
length-hex (b ∷ bytes) = omega (arith, length-hex bytes)

last-list_reports :
    (f : File) (dir : List File)
    → valid_name f.name ≡ true
    → ComesAfter f.name dir
    → last (list_reports (f ∷ dir)) ≡ some (record { file = f.name; bytes = utf8_len f.text })
unfolding list_reports
last-list_reports f dir v after =
    let e : ReportEntry = record { file = f.name; bytes = utf8_len f.text } in
    rw (v, insert-last e (list_reports dir) (list_reports-IsLast f.name dir after))
      (last_one (list_reports dir) e)

utf8_len-IsInk : (s : List ℕ) → All IsInk s → utf8_len s ≡ length s
utf8_len-IsInk [] h = refl
utf8_len-IsInk (c ∷ s) (k, h) =
    let ascii : ltb c 128 ≡ true = ground arith in rw (ascii, utf8_len-IsInk s h) (omega arith)

or_genesis_lem : (s : List ℕ) → All IsInk s → length s ≡ 64 → or_genesis (some s) ≡ s
or_genesis_lem s ink h = rw (utf8_len-IsInk s ink, h)

resume-cons :
    (f : File) (dir : List File) (l : List ℕ)
    → valid_name f.name ≡ true
    → ComesAfter f.name dir
    → last (lines f.text) ≡ some l
    → resume (f ∷ dir) ≡ (number_in f.name, or_genesis (strip_prefix digest_label l))
unfolding resume
resume-cons f dir l v after e = rw (last-list_reports f dir v after, lookup_first f dir, e, resume)

module _ ⦃d : Doubles⦄ (p : Printing d) where
  -- `{:04}` prints a number below 10000 with four digits, which read back as the number.
  abbrev pub IsPadding : Type 0
  IsPadding =
      (n : ℕ)
      → n < 10000
      → (length (p.padded 4 (pos n)) ≡ 4) × (parse_u32 (p.padded 4 (pos n)) ≡ some n)

  number_in-file_name :
      (r : DimmingReport) → IsPadding → r.seq < 10000 → number_in (file_name p r) ≡ r.seq
  unfolding file_name
  number_in-file_name r padding h =
      let (four, same) = padding r.seq h in
      ap (λ s. or_zero (parse_u32 s)) (take-append 4 (p.padded 4 (pos r.seq)) _ (sym four))
      ∙ ap or_zero same

  last-lines_csv :
      (r : DimmingReport)
      → r.sha256 ≡ sha256_hex p (body p r)
      → last (lines (to_csv p r)) ≡ some (digest_label ++ r.sha256)
  unfolding to_csv sha256_hex
  last-lines_csv r e =
      let (front, be) = body_end p r in
      let plain : All IsPlain r.sha256 =
        subst (λ s. All IsPlain s) (sym e) (ink-IsPlain _ (hex-IsInk (p.sha256 (body p r)))) in
      ap (λ b. last (lines (b ++ (digest_label ++ (r.sha256 ++ (newline ∷ [])))))) be
      ∙ (ap (λ s. last (lines s)) (append_assoc front (newline ∷ []) _)
          ∙ (ap (λ s. last (lines (front ++ (newline ∷ s))))
                (sym (append_assoc digest_label r.sha256 (newline ∷ [])))
              ∙ last-lines front (digest_label ++ r.sha256) (label-IsPlain r.sha256 plain)))

  digest-IsInk : (r : DimmingReport) → r.sha256 ≡ sha256_hex p (body p r) → All IsInk r.sha256
  unfolding sha256_hex
  digest-IsInk r e = subst (All IsInk) (sym e) (hex-IsInk (p.sha256 (body p r)))

  length-digest :
      (r : DimmingReport)
      → ((text : List ℕ) → length (p.sha256 text) ≡ 32)
      → r.sha256 ≡ sha256_hex p (body p r)
      → length r.sha256 ≡ 64
  unfolding sha256_hex
  length-digest r h e =
      ap length e ∙ (length-hex (p.sha256 (body p r)) ∙ ap (λ n. 2 * n) (h (body p r)))

  -- A controller that starts after a report has been written goes on from it: from its number and its
  -- digest. The report has the digest of its own text, a digest has 32 bytes, the number is
  -- below 10000, which four digits print, and the report's name is that of a report and
  -- comes after those of the other files.
  pub resume-write :
      (dir : List File) (r : DimmingReport)
      → IsPadding
      → ((text : List ℕ) → length (p.sha256 text) ≡ 32)
      → r.sha256 ≡ sha256_hex p (body p r)
      → r.seq < 10000
      → valid_name (file_name p r) ≡ true
      → ComesAfter (file_name p r) dir
      → resume (write p dir r) ≡ (r.seq, r.sha256)
  unfolding resume write
  resume-write dir r padding h e bound v after =
      let f : File = record { name = file_name p r; text = to_csv p r } in
      ap (λ files. resume (f ∷ files)) (without-ComesAfter (file_name p r) dir after)
      ∙ (resume-cons f dir (digest_label ++ r.sha256) v after (last-lines_csv r e)
          ∙ ap₂ (λ n s. (n, s)) (number_in-file_name r padding bound)
              (ap or_genesis (strip_prefix-append digest_label r.sha256)
                ∙ or_genesis_lem r.sha256 (digest-IsInk r e) (length-digest r h e)))
