-- ===== src/Iec104/Session/Deadlines.antt =====
-- When a tick closes the connection, after a history of calls in the order of time.
use grid_edge_gateway.Prelude.{ℕ, ◌-◌, ◌≤◌, ◌≡◌, List, [], ◌∷◌, All, some, ◌⊎◌}
use grid_edge_gateway.Iec104.Session.{Session}
use grid_edge_gateway.Iec104.Session.History.{Call}

-- The calls come in the order of time, none before `start`.
abbrev pub IsOrdered : ℕ → List (ℕ × Call) → Type 0
IsOrdered start [] = Unit {0}
IsOrdered start ((now, c) ∷ cs) = (start ≤ now) × IsOrdered now cs

-- Times from the oldest on, none after `end`.
abbrev IsAscending : ℕ → List ℕ → Type 0
IsAscending end [] = Unit {0}
IsAscending end (t ∷ times) = (t ≤ end) × All (λ u. t ≤ u) times × IsAscending end times

abbrev Ascends : ℕ → Session → Type 0
Ascends now s = IsAscending now s.unacked

-- Some time of the list lies as far back as the limit.
abbrev pub HasOverdue : ℕ → ℕ → List ℕ → Type 0
HasOverdue now limit [] = ⊥
HasOverdue now limit (t ∷ times) = (limit ≤ now - t) ⊎ HasOverdue now limit times

-- A test of ours that the peer has not confirmed was sent as long ago as t1.
abbrev pub HasOverdueTest : ℕ → Session → Type 0
HasOverdueTest now s = (t : ℕ) × (s.test_sent ≡ some t) × (s.t1 ≤ now - t)
