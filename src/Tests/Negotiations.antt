-- ===== src/Tests/Negotiations.antt =====
-- The negotiations of direct paths.
use over_mesh.Common.{Option, some, ℕ, ◌≡◌, refl, arith, Bool, true, List, [], ◌∷◌, none, nat_eq}
use over_mesh.Magicsock.Manager.{
  PeerConn, Manager, new_manager, set_peers, handle_offer, handle_candidate, attach, restart,
  close_manager,
}
use over_mesh.Magicsock.Manager.Reachable.{
  start, next, reconciles, offers, trickles, attaches, restarts, closes, IsSound, Reach-IsSound,
}
use over_mesh.Magicsock.Manager.Sessions.{handle_offer-handle_candidate}

abbrev accepts_all : List ℕ → Bool
accepts_all raw = true

abbrev clock : ℕ → ℕ
clock id = 100

abbrev online : List (ℕ × Bool)
online = (4, true) ∷ (9, true) ∷ []

abbrev met : Manager
met = set_peers clock online (new_manager 6)

abbrev waiting : Manager
waiting = handle_candidate accepts_all 9 100 (7 ∷ []) met

Reach-IsSound_example :
    IsSound (close_manager (restart clock (attach 9 100 1 (handle_offer 4 50 waiting)).1))
Reach-IsSound_example = Reach-IsSound {usable = accepts_all} {self = 6} (
    next
      (next
        (next
          (next (next (next start (reconciles clock online)) (trickles 9 100 (7 ∷ [])))
            (offers 4 50))
          (attaches 9 100 1))
        (restarts clock))
      closes)

abbrev unattached : PeerConn
unattached = record { session = 100; agent = none; pending_remote = [] }

abbrev early : List (List ℕ)
early = (7 ∷ []) ∷ (8 ∷ []) ∷ []

-- A candidate that arrives between the two that were kept.
abbrev turns : List (Option (List ℕ))
turns = none ∷ some (5 ∷ []) ∷ []

handle_offer-handle_candidate_example :
    (let offered_to = handle_offer 9 200 met in
      (handle_candidate accepts_all 9 100 (7 ∷ []) offered_to ≡ offered_to)
      × (handle_offer 9 100 offered_to ≡ offered_to)
      × (handle_offer 9 200 offered_to ≡ offered_to))
unfolding new_manager set_peers
handle_offer-handle_candidate_example =
    handle_offer-handle_candidate accepts_all 9 200 100 (7 ∷ []) met refl (omega arith)
