-- ===== src/Magicsock/Manager/Candidates.antt =====
-- No candidate is lost around the creation of the agent.
use over_mesh.Common.{ℕ, ◌≡◌, Bool, List, [], ◌∷◌, map, Option, none, some, nat_eq, lookup, select}
use over_mesh.Magicsock.Manager.{PeerConn, Manager, add_remote_candidate, handle_candidate}

-- The turns once the agent is there: `none` is a turn of the goroutine that adds what it took, and a
-- candidate one that arrives. At the end the goroutine adds what it has left.
abbrev pub merged : List (List ℕ) → List (Option (List ℕ)) → List (List ℕ)
merged taken [] = taken
merged taken (some raw ∷ turns) = raw ∷ merged taken turns
merged [] (none ∷ turns) = merged [] turns
merged (raw ∷ taken) (none ∷ turns) = raw ∷ merged taken turns

module _ (usable : List ℕ → Bool) where
  -- The candidates that arrive, in order.
  unfoldable pub handle_candidates : ℕ → ℕ → List (List ℕ) → Manager → Manager
  handle_candidates from session [] m = m
  handle_candidates from session (raw ∷ more) m =
      handle_candidates from session more (handle_candidate usable from session raw m)

  -- What is given to an agent.
  abbrev pub given : ℕ → List (List ℕ) → List (ℕ × List ℕ)
  given agent raws = map (λ raw. (agent, raw)) (select usable raws)

  -- A peer's entry, and what agents were given.
  abbrev Has : ℕ → PeerConn → List (ℕ × List ℕ) → Manager → Type 0
  Has id pc added m = (lookup id m.peers ≡ some pc) × (m.added ≡ added)

  abbrev pub add_rest : ℕ → List (List ℕ) → Manager → Manager
  add_rest agent [] m = m
  add_rest agent (raw ∷ taken) m = add_rest agent taken (add_remote_candidate usable agent raw m)

  unfoldable pub run : ℕ → ℕ → ℕ → List (List ℕ) → List (Option (List ℕ)) → Manager → Manager
  run id session agent taken [] m = add_rest agent taken m
  run id session agent taken (some raw ∷ turns) m =
      run id session agent taken turns (handle_candidate usable id session raw m)
  run id session agent [] (none ∷ turns) m = run id session agent [] turns m
  run id session agent (raw ∷ taken) (none ∷ turns) m =
      run id session agent taken turns (add_remote_candidate usable agent raw m)
