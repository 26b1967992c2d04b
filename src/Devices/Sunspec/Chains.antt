-- ===== src/Devices/Sunspec/Chains.antt =====
-- The chain of models: what `build_image` lays out, `locate_models` finds.
use mathlib.Core.Path.{ap₂}
use grid_edge_gateway.Prelude.{
  ℕ, zero, suc, ◌+◌, ◌-◌, ◌≤◌, ◌<◌, ◌%◌, ◌≡◌, refl, sym, ap, ◌∙◌, subst, List, [], ◌∷◌, ◌++◌, map,
  append_assoc, none, some, false, ◌==◌, inl, inr, Option-cases, length, get_elem?, take, drop, All,
  length-append, take-append, get_elem?-append, get_elem?-none, drop-append, arith, ne→==,
}
use grid_edge_gateway.Devices.Sunspec.{
  ModelLocation, base, marker, end_id, chain, build_image, header_at, locate_from, push_first,
  locate_models,
}

header_at-both :
    (regs : List ℕ) (pos a b : ℕ)
    → get_elem? regs pos ≡ some a
    → get_elem? regs (pos + 1) ≡ some b
    → header_at regs pos ≡ some (a, b)
unfolding header_at
header_at-both regs pos a b e k = rw (e, k, header_at)

pub header_at-append :
    (front : List ℕ) (a b : ℕ) (rest : List ℕ)
    → header_at (front ++ (a ∷ (b ∷ rest))) (length front) ≡ some (a, b)
header_at-append front a b rest =
    header_at-both _ _ a b (get_elem?-append (length front) 0 front (a ∷ (b ∷ rest)) (omega arith))
      (get_elem?-append (length front + 1) 1 front (a ∷ (b ∷ rest)) (omega arith))

pub header_at-none : (regs : List ℕ) (pos : ℕ) → length regs ≤ pos → header_at regs pos ≡ none
unfolding header_at
header_at-none regs pos h = rw (get_elem?-none pos regs h, header_at)

-- A model that a chain can hold.
abbrev pub IsModel : ℕ × List ℕ → Type 0
IsModel m = (m.0 < end_id) × (length m.1 < 65536)

-- Where the models of a chain lie that begins at an address.
abbrev pub locations : ℕ → List (ℕ × List ℕ) → List ModelLocation
locations at [] = []
locations at ((id, body) ∷ models) =
    record { id = id; body = at + 2; len = length body } ∷ locations (at + 2 + length body) models

split_front :
    (front : List ℕ) (a b : ℕ) (body rest : List ℕ)
    → front ++ (a ∷ (b ∷ (body ++ rest))) ≡ (front ++ (a ∷ (b ∷ body))) ++ rest
split_front front a b body rest = sym (append_assoc front (a ∷ (b ∷ body)) rest)

length-front :
    (front : List ℕ) (a b : ℕ) (body : List ℕ)
    → length (front ++ (a ∷ (b ∷ body))) ≡ length front + (2 + length body)
length-front front a b body = omega (arith, length-append front (a ∷ (b ∷ body)))

pub locate_from-end :
    (fuel : ℕ) (regs : List ℕ) (pos b : ℕ)
    → header_at regs pos ≡ some (end_id, b)
    → locate_from (suc fuel) regs pos ≡ some []
unfolding locate_from
locate_from-end fuel regs pos b e = rw (e, locate_from)

pub locate_from-cons :
    (fuel : ℕ) (regs : List ℕ) (pos id len : ℕ)
    → header_at regs pos ≡ some (id, len)
    → (id == end_id) ≡ false
    → locate_from (suc fuel) regs pos
      ≡ push_first
          (record { id = id; body = (base + 2 + pos % 65536 + 2) % 65536; len = len })
          (locate_from fuel regs (pos + (2 + len)))
unfolding locate_from
locate_from-cons fuel regs pos id len e n = rw (e, n, locate_from)

locate_from-model :
    (fuel : ℕ) (regs : List ℕ) (pos id len : ℕ)
    → header_at regs pos ≡ some (id, len)
    → id < end_id
    → base + 2 + pos + 2 < 65536
    → locate_from (suc fuel) regs pos
      ≡ push_first
          (record { id = id; body = base + 2 + pos + 2; len = len })
          (locate_from fuel regs (pos + (2 + len)))
locate_from-model fuel regs pos id len e i bound =
    locate_from-cons fuel regs pos id len e (ne→== id end_id (λ x. absurd (omega arith)))
    ∙ ap
        (λ body.
          push_first (record { id = id; body = body; len = len })
            (locate_from fuel regs (pos + (2 + len))))
        (omega arith)

chain_long : (models : List (ℕ × List ℕ)) → 2 ≤ length (chain models)
unfolding chain
chain_long [] = omega arith
chain_long (m ∷ models) = omega arith

locate_from-chain :
    (fuel : ℕ) (front : List ℕ) (models : List (ℕ × List ℕ))
    → All IsModel models
    → base + 2 + length front + length (chain models) ≤ 65536
    → length (chain models) ≤ fuel
    → locate_from fuel (front ++ chain models) (length front)
      ≡ some (locations (base + 2 + length front) models)
unfolding chain
locate_from-chain zero front [] h bound k = absurd (omega arith)
locate_from-chain zero front (m ∷ models) h bound k = absurd (omega arith)
locate_from-chain (suc fuel) front [] h bound k =
    locate_from-end fuel _ _ 0 (header_at-append front end_id 0 [])
locate_from-chain (suc fuel) front ((id, body) ∷ models) ((i, l), h) bound k =
    let len : length body % 65536 ≡ length body = omega arith in
    let model : ModelLocation = record {
      id = id;
      body = base + 2 + length front + 2;
      len = length body;
    } in
    let behind = length-front front id (length body) body in
    let room = length-append body (chain models) in
    let ending = chain_long models in
    subst
      (λ n.
        locate_from (suc fuel) (front ++ (id ∷ (n ∷ (body ++ chain models)))) (length front)
        ≡ some (model ∷ locations (base + 2 + length front + 2 + length body) models))
      (sym len)
      (locate_from-model fuel _ _ id (length body)
          (header_at-append front id (length body) (body ++ chain models)) i (omega arith)
        ∙ ap (push_first model) (
            ap₂ (locate_from fuel) (split_front front id (length body) body (chain models))
              (sym behind)
            ∙ (locate_from-chain fuel (front ++ (id ∷ (length body ∷ body))) models h (omega arith)
                  (omega arith)
                ∙ ap (λ at. some (locations at models)) (omega arith))))

-- The registers of a model's body.
abbrev pub body_in : List ℕ → ModelLocation → List ℕ
body_in image m = take m.len (drop (m.body - base) image)

body_in-append :
    (front : List ℕ) (a b : ℕ) (body rest : List ℕ) (m : ModelLocation)
    → m.body ≡ base + length front + 2
    → m.len ≡ length body
    → body_in (front ++ (a ∷ (b ∷ (body ++ rest)))) m ≡ body
body_in-append front a b body rest m e k =
    let skip =
      drop-append (m.body - base) (front ++ (a ∷ (b ∷ []))) (body ++ rest)
        (omega (arith, length-append front (a ∷ (b ∷ [])))) in
    ap (λ image. take m.len (drop (m.body - base) image)) (split_front front a b [] (body ++ rest))
    ∙ (ap (take m.len) skip ∙ take-append m.len body rest k)

-- The bodies that lie behind a front are those of the models.
bodies :
    (front : List ℕ) (models : List (ℕ × List ℕ))
    → map (λ m. (m.id, body_in (front ++ chain models) m)) (locations (base + length front) models)
      ≡ models
unfolding chain
bodies front [] = refl
bodies front ((id, body) ∷ models) =
    let n = length body % 65536 in
    let behind = length-front front id n body in
    ap₂ (λ b rest. (id, b) ∷ rest)
      (body_in-append front id n body (chain models)
        (record { id = id; body = base + length front + 2; len = length body }) refl refl)
      (ap₂ (λ image at. map (λ m. (m.id, body_in image m)) (locations at models))
          (split_front front id n body (chain models)) (omega arith)
        ∙ bodies (front ++ (id ∷ (n ∷ body))) models)

-- Whoever walks the chain of a register image finds every model that the image was built from, in order,
-- under its number and with its registers. The number of a model is below that of the end mark, and
-- the image ends within the address space.
pub locate_models-build_image :
    (models : List (ℕ × List ℕ))
    → All IsModel models
    → base + length (build_image models) ≤ 65536
    → (found : List ModelLocation) × (locate_models (drop 2 (build_image models)) ≡ some found)
      × (map (λ m. (m.id, body_in (build_image models) m)) found ≡ models)
unfolding build_image locate_models
locate_models-build_image models h bound = (
  locations (base + 2) models,
  locate_from-chain (suc (length (chain models))) [] models h (omega arith) (omega arith),
  bodies marker models,
)

pub locate_from-none :
    (fuel : ℕ) (regs : List ℕ) (pos : ℕ)
    → header_at regs pos ≡ none
    → locate_from fuel regs pos ≡ none
unfolding locate_from
locate_from-none zero regs pos e = refl
locate_from-none (suc fuel) regs pos e = rw (e, locate_from)

locate_from-next :
    (f g : ℕ) (regs : List ℕ) (pos : ℕ)
    → ((n : ℕ) → locate_from f regs (pos + (2 + n)) ≡ locate_from g regs (pos + (2 + n)))
    → locate_from (suc f) regs pos ≡ locate_from (suc g) regs pos
unfolding locate_from
locate_from-next f g regs pos same = elim (Option-cases (header_at regs pos)) [
  | inl e ↦ locate_from-none (suc f) regs pos e ∙ sym (locate_from-none (suc g) regs pos e)
  | inr (h, e) ↦ rw (e, same h.1, locate_from)
]

-- Rounds beyond the last change nothing.
locate_from-more :
    (fuel more : ℕ) (regs : List ℕ) (pos : ℕ)
    → length regs < fuel + pos
    → locate_from (fuel + more) regs pos ≡ locate_from fuel regs pos
locate_from-more zero more regs pos h =
    let outside = header_at-none regs pos (omega arith) in
    locate_from-none (0 + more) regs pos outside ∙ sym (locate_from-none 0 regs pos outside)
locate_from-more (suc fuel) more regs pos h =
    ap (λ n. locate_from n regs pos) (omega arith)
    ∙ locate_from-next (fuel + more) fuel regs pos
        (λ n. locate_from-more fuel more regs (pos + (2 + n)) (omega arith))

-- The walk ends by itself in any registers, also where the chain is broken: with as many rounds as one
-- likes, beyond the number of registers, it gives what `locate_models` gives.
pub locate_models_stops :
    (fuel : ℕ) (regs : List ℕ) → length regs < fuel → locate_from fuel regs 0 ≡ locate_models regs
unfolding locate_models
locate_models_stops fuel regs h =
    ap (λ n. locate_from n regs 0) (omega arith)
    ∙ locate_from-more (suc (length regs)) (fuel - suc (length regs)) regs 0 (omega arith)
