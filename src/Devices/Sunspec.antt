-- ===== src/Devices/Sunspec.antt =====
-- `crates/devices/src/sunspec.rs`: the chain of models in a device's registers. A register is a number
-- below 2^16; an address wraps around there, as it does in a release build.
pub mod Chains
pub mod Texts
use grid_edge_gateway.Prelude.{
  ℕ, zero, suc, ◌+◌, ◌*◌, ◌/◌, ◌%◌, List, [], ◌∷◌, ◌++◌, Option, none, some, ◌==◌, if◌then◌else◌,
  length, get_elem?,
}

abbrev pub base : ℕ
base = 40000

-- "SunS"
abbrev pub marker : List ℕ
marker = 21365 ∷ 28243 ∷ []

abbrev pub end_id : ℕ
end_id = 65535

pub record ModelLocation : Type 0 where
  pub id : ℕ
  pub body : ℕ
  pub len : ℕ

-- The models, each behind its number and its length, and the end.
unfoldable pub chain : List (ℕ × List ℕ) → List ℕ
chain [] = end_id ∷ 0 ∷ []
chain ((id, body) ∷ models) = id ∷ length body % 65536 ∷ (body ++ chain models)

unfoldable pub build_image : List (ℕ × List ℕ) → List ℕ
unfolding chain
build_image models = marker ++ chain models

-- The header at `pos`: two registers, if both are there.
unfoldable pub header_at : List ℕ → ℕ → Option (ℕ × ℕ)
header_at regs pos = elim (get_elem? regs pos) [
  | none ↦ none
  | some id ↦ elim (get_elem? regs (pos + 1)) [ none ↦ none | some len ↦ some (id, len) ]
]

abbrev pub push_first : ModelLocation → Option (List ModelLocation) → Option (List ModelLocation)
push_first m none = none
push_first m (some models) = some (m ∷ models)

unfoldable pub locate_from : ℕ → List ℕ → ℕ → Option (List ModelLocation)
unfolding header_at
locate_from zero regs pos = none
locate_from (suc fuel) regs pos = elim (header_at regs pos) [
  | none ↦ none
  | some h ↦
      let rest = locate_from fuel regs (pos + (2 + h.1)) in
      if h.0 == end_id
      then some []
      else push_first (record { id = h.0; body = (base + 2 + pos % 65536 + 2) % 65536; len = h.1 })
          rest
]

-- Each round goes on by two registers or more, so that one round more than the registers is enough.
unfoldable pub locate_models : List ℕ → Option (List ModelLocation)
unfolding locate_from
locate_models after_marker = locate_from (suc (length after_marker)) after_marker 0

-- `put_string` fills the registers of a slice, two bytes in each.
abbrev pub byte_at : List ℕ → ℕ → ℕ
byte_at s i = elim (get_elem? s i) [ none ↦ 0 | some b ↦ b ]

abbrev pub put_from : ℕ → ℕ → List ℕ → List ℕ
put_from i zero s = []
put_from i (suc n) s = (byte_at s (2 * i) * 256 + byte_at s (2 * i + 1)) ∷ put_from (i + 1) n s

unfoldable pub put_string : ℕ → List ℕ → List ℕ
put_string n s = put_from 0 n s

abbrev pub to_be_bytes : List ℕ → List ℕ
to_be_bytes [] = []
to_be_bytes (r ∷ regs) = r / 256 ∷ r % 256 ∷ to_be_bytes regs

abbrev pub before_nul : List ℕ → List ℕ
before_nul [] = []
before_nul (b ∷ s) = if b == 0 then [] else b ∷ before_nul s

-- The bytes of the text; `from_utf8_lossy` keeps what is valid UTF-8.
unfoldable pub get_string : List ℕ → List ℕ
get_string regs = before_nul (to_be_bytes regs)
