-- ===== src/Magicsock/Manager/Sessions.antt =====
-- Old sessions cannot disturb a newer one.
use over_mesh.Common.{
  ℕ, ◌≤◌, ◌<◌, ◌≡◌, refl, sym, Bool, true, false, List, [], Option, none, some, leb, nat_beq,
  nat_eq, if◌then◌else◌, lookup, beq_refl, arith, Bool-cases, inl, inr,
}
use over_mesh.Magicsock.Manager.{
  PeerConn, Manager, torn_down, respond, offered, handle_offer, handle_candidate,
}

-- The entry of a node has at least this session.
abbrev pub HasSession : ℕ → ℕ → Manager → Type 0
HasSession id session m = (pc : PeerConn) × (lookup id m.peers ≡ some pc) × (session ≤ pc.session)

respond-HasSession : (id session : ℕ) (m : Manager) → HasSession id session (respond id session m)
respond-HasSession id session m = (
  record { session = session; agent = none; pending_remote = [] },
  rw (beq_refl id) refl,
  omega arith,
)

offered-HasSession :
    (id session : ℕ) (o : Option PeerConn) (m : Manager)
    → o ≡ lookup id m.peers
    → HasSession id session (offered id session o m)
offered-HasSession id session none m here = respond-HasSession id session m
offered-HasSession id session (some pc) m here = elim (Bool-cases (leb session pc.session)) [
  | inl stale ↦ rw stale (pc, sym here, ground (arith, stale))
  | inr fresh ↦ rw fresh (respond-HasSession id session (torn_down id pc m))
]

running_offer :
    (shut : Bool) (id session : ℕ) (m : Manager)
    → shut ≡ false
    → HasSession id session (if shut then m else offered id session (lookup id m.peers) m)
running_offer true id session m running = cc
running_offer false id session m running = offered-HasSession id session (lookup id m.peers) m refl

handle_offer-HasSession :
    (id session : ℕ) (m : Manager)
    → m.closed ≡ false
    → HasSession id session (handle_offer id session m)
unfolding handle_offer
handle_offer-HasSession id session m running = running_offer m.closed id session m running

old_candidate :
    (usable : List ℕ → Bool) (id session old : ℕ) (raw : List ℕ) (m : Manager)
    → HasSession id session m
    → old < session
    → handle_candidate usable id old raw m ≡ m
unfolding handle_candidate
old_candidate usable id session old raw m (pc, here, newer) low =
    let other : nat_beq pc.session old ≡ false = ground arith in rw (here, other) refl

old_offer :
    (id session old : ℕ) (m : Manager)
    → HasSession id session m
    → old ≤ session
    → handle_offer id old m ≡ m
unfolding handle_offer
old_offer id session old m (pc, here, newer) low = elim (Bool-cases m.closed) [
  | inl shut ↦ rw shut refl
  | inr running ↦
      let stale : leb old pc.session ≡ true = ground arith in rw (running, here, stale) refl
]

-- After an offer of a session reached an open manager, a candidate of an older session changes nothing,
-- nor does an offer whose session is not newer.
pub handle_offer-handle_candidate :
    (usable : List ℕ → Bool) (id session old : ℕ) (raw : List ℕ) (m : Manager)
    → m.closed ≡ false
    → old < session
    → (let offered_to = handle_offer id session m in
        (handle_candidate usable id old raw offered_to ≡ offered_to)
        × (handle_offer id old offered_to ≡ offered_to)
        × (handle_offer id session offered_to ≡ offered_to))
handle_offer-handle_candidate usable id session old raw m running low =
    let has = handle_offer-HasSession id session m running in
    let m' = handle_offer id session m in
    (
      old_candidate usable id session old raw m' has low,
      old_offer id session old m' has (omega arith),
      old_offer id session session m' has (omega arith),
    )
