-- ===== src/Gateway/Reports.antt =====
-- `crates/gateway/src/reports.rs`: the reports on disk, and where their chain goes on after a restart.
-- A directory is the list of its files, each with its name and its text, in any order, as the file
-- system keeps them; what that fails at (a file that cannot be read or written) is left out. A text is
-- the list of its characters.
pub mod Resume
use grid_edge_gateway.Prelude.{
  ℕ, ◌+◌, ◌-◌, ◌*◌, ◌≡◌, List, [], ◌∷◌, ◌++◌, map, Option, none, some, Bool, true, false, not, ◌&&◌,
  ◌||◌, ◌==◌, leb, ltb, if◌then◌else◌, length, take, drop,
}
use grid_edge_gateway.Prelude.Int.{pos}
use grid_edge_gateway.Prelude.Text.{codes, is_prefix}
use grid_edge_gateway.Prelude.Doubles.{Doubles}
use grid_edge_gateway.Control.Report.{Printing, DimmingReport, newline, digest_label, time, to_csv}
use grid_edge_gateway.Control.Compliance.{genesis}

abbrev pub is_alphanumeric : ℕ → Bool
is_alphanumeric b = (leb 48 b && leb b 57) || (leb 65 b && leb b 90) || (leb 97 b && leb b 122)

abbrev pub all_safe : List ℕ → Bool
all_safe [] = true
all_safe (b ∷ name) = (is_alphanumeric b || (b == 45) || (b == 46)) && all_safe name

-- `contains("..")`
abbrev pub has_two_dots : List ℕ → Bool
has_two_dots [] = false
has_two_dots (b ∷ name) = is_prefix (codes "..") (b ∷ name) || has_two_dots name

abbrev pub is_suffix : List ℕ → List ℕ → Bool
is_suffix suffix s =
    leb (length suffix) (length s) && is_prefix suffix (drop (length s - length suffix) s)

-- The bytes of a text in UTF-8, which `len` counts.
abbrev pub utf8_len : List ℕ → ℕ
utf8_len [] = 0
utf8_len (c ∷ s) =
    (if ltb c 128 then 1 else if ltb c 2048 then 2 else if ltb c 65536 then 3 else 4) + utf8_len s

unfoldable pub valid_name : List ℕ → Bool
valid_name name =
    is_prefix (codes "dimming-") name
    && (is_suffix (codes ".csv") name
        && (ltb (utf8_len name) 80 && (all_safe name && not (has_two_dots name))))

-- A file of the directory.
pub record File : Type 0 where
  pub name : List ℕ
  pub text : List ℕ

pub record ReportEntry : Type 0 where
  pub file : List ℕ
  pub bytes : ℕ

-- The order of texts: byte by byte, and a beginning comes first.
abbrev pub comes_first : List ℕ → List ℕ → Bool
comes_first [] t = true
comes_first (b ∷ s) [] = false
comes_first (b ∷ s) (c ∷ t) = ltb b c || ((b == c) && comes_first s t)

unfoldable pub insert : ReportEntry → List ReportEntry → List ReportEntry
insert e [] = e ∷ []
insert e (g ∷ entries) =
    let rest = insert e entries in if comes_first e.file g.file then e ∷ (g ∷ entries) else g ∷ rest

-- `list`: the files that are named like a report, sorted by name.
unfoldable pub list_reports : List File → List ReportEntry
unfolding insert valid_name
list_reports [] = []
list_reports (f ∷ dir) =
    let rest = list_reports dir in
    if valid_name f.name
    then insert (record { file = f.name; bytes = utf8_len f.text }) rest
    else rest

-- `read_to_string`
abbrev pub same_name : List ℕ → List ℕ → Bool
same_name a b = comes_first a b && comes_first b a

abbrev pub lookup : List ℕ → List File → Option (List ℕ)
lookup name [] = none
lookup name (f ∷ dir) =
    let rest = lookup name dir in if same_name name f.name then some f.text else rest

abbrev pub or_empty : Option (List ℕ) → List ℕ
or_empty none = []
or_empty (some text) = text

abbrev pub last {ℓ} : {A : Type ℓ} → List A → Option A
last [] = none
last (x ∷ []) = some x
last (x ∷ (y ∷ xs)) = last (y ∷ xs)

-- `str::lines`: a line ends with a newline or a carriage return and a newline.
abbrev pub prepend : ℕ → List (List ℕ) → List (List ℕ)
prepend c [] = (c ∷ []) ∷ []
prepend c (l ∷ lines) = (c ∷ l) ∷ lines

abbrev pub begins_newline : List ℕ → Bool
begins_newline [] = false
begins_newline (c ∷ s) = c == newline

unfoldable pub lines : List ℕ → List (List ℕ)
lines [] = []
lines (c ∷ s) =
    let rest = lines s in
    if c == newline
    then [] ∷ rest
    else if (c == 13) && begins_newline s
    then rest
    else prepend c rest

abbrev pub strip_prefix : List ℕ → List ℕ → Option (List ℕ)
strip_prefix prefix s = if is_prefix prefix s then some (drop (length prefix) s) else none

-- `parse::<u32>` of at most four characters: decimal digits, at least one, behind a plus sign or none.
abbrev is_digit : ℕ → Bool
is_digit c = leb 48 c && leb c 57

abbrev parse_digits : ℕ → List ℕ → Option ℕ
parse_digits n [] = some n
parse_digits n (c ∷ s) = if is_digit c then parse_digits (n * 10 + (c - 48)) s else none

unfoldable pub parse_u32 : List ℕ → Option ℕ
parse_u32 [] = none
parse_u32 (c ∷ []) = parse_digits 0 (c ∷ [])
parse_u32 (c ∷ (e ∷ s)) = if c == 43 then parse_digits 0 (e ∷ s) else parse_digits 0 (c ∷ (e ∷ s))

abbrev pub or_zero : Option ℕ → ℕ
or_zero none = 0
or_zero (some n) = n

-- `file.get(8..12)`, which is there for every name that is valid.
abbrev pub number_in : List ℕ → ℕ
number_in name = or_zero (parse_u32 (take 4 (drop 8 name)))

abbrev pub or_genesis : Option (List ℕ) → List ℕ
or_genesis none = genesis
or_genesis (some d) = if utf8_len d == 64 then d else genesis

abbrev digest_of_line : Option (List ℕ) → Option (List ℕ)
digest_of_line none = none
digest_of_line (some l) = strip_prefix digest_label l

-- The number and the digest that a new controller goes on from.
unfoldable pub resume : List File → ℕ × List ℕ
unfolding list_reports lines parse_u32
resume dir = elim (last (list_reports dir)) [
  | none ↦ (0, genesis)
  | some e ↦
      (number_in e.file, or_genesis (digest_of_line (last (lines (or_empty (lookup e.file dir))))))
]

-- `read`: the text of a report, if the name is one of a report.
unfoldable pub read : List File → List ℕ → Option (List ℕ)
unfolding valid_name
read dir name = if valid_name name then lookup name dir else none

abbrev pub without : List ℕ → List File → List File
without name [] = []
without name (f ∷ dir) =
    let rest = without name dir in if same_name name f.name then rest else f ∷ rest

module _ ⦃d : Doubles⦄ (p : Printing d) where
  -- `replace(':', "-")`
  abbrev pub dashed : List ℕ → List ℕ
  dashed s = map (λ c. if c == 58 then 45 else c) s

  unfoldable pub file_name : DimmingReport → List ℕ
  unfolding time
  file_name r =
      codes "dimming-"
      ++ (p.padded 4 (pos r.seq) ++ (codes "-" ++ (dashed (time p r r.start_s) ++ codes ".csv")))

  -- `write`: the file under its name is replaced.
  unfoldable pub write : List File → DimmingReport → List File
  write dir r = record { name = file_name r; text = to_csv p r } ∷ without (file_name r) dir
