-- ===== src/Store/SetupKeys.antt =====
-- internal/store/store.go: the networks and the setup keys. Key texts are their bytes.
use over_mesh.Common.{
  ℕ, ◌+◌, ◌*◌, ◌≤◌, ◌≡◌, ◌≢◌, inl, inr, refl, Bool, true, false, not, ◌&&◌, List, [], ◌∷◌, ◌++◌,
  Option, none, some, Result, ok, err, ltb, nat_beq, bytes_beq, if◌then◌else◌, find, any, count,
  update, has_key, trim_space, find-update_found, arith, Option-cases,
}
use over_mesh.Net.{Prefix}

pub record Network : Type 0 where
  pub id : ℕ
  pub name : List ℕ
  pub v4_prefix : Prefix
  pub v6_prefix : Prefix

abbrev pub network_id : Network → ℕ
network_id n = n.id

-- `none` for `ErrNotFound`.
abbrev pub network_by_id : ℕ → List Network → Option Network
network_by_id id t = find (has_key network_id id) t

-- `expires_at` is in seconds, 0 for never.
pub record SetupKey : Type 0 where
  pub id : ℕ
  pub network : ℕ
  pub key : List ℕ
  pub reusable : Bool
  pub revoked : Bool
  pub expires_at : ℕ
  pub used_count : ℕ
  pub created_at : ℕ
  pub owner_user_id : ℕ

pub record SetupKeys : Type 0 where
  pub rows : List SetupKey
  pub next_id : ℕ

abbrev pub row_id : SetupKey → ℕ
row_id k = k.id

pub data KeyError : Type 0 where
  unknown revoked_key expired spent no_network : KeyError

-- `text` is the new key, "sk-" and the random bytes in hexadecimal; `none` when it is in use.
unfoldable pub new_setup_key :
    List ℕ → ℕ → Bool → ℕ → ℕ → ℕ → SetupKeys → Option SetupKey × SetupKeys
new_setup_key text network reusable expires_at owner now t =
    let k : SetupKey = record {
      id = t.next_id;
      network = network;
      key = text;
      reusable = reusable;
      revoked = false;
      expires_at = expires_at;
      used_count = 0;
      created_at = now;
      owner_user_id = owner;
    } in
    if any (λ r. bytes_beq r.key text) t.rows
    then (none, t)
    else (some k, record { rows = t.rows ++ k ∷ []; next_id = t.next_id + 1 })

abbrev pub revoke : SetupKey → SetupKey
revoke k = record k { revoked = true }

abbrev pub spend : SetupKey → SetupKey
spend k = record k { used_count = k.used_count + 1 }

-- Whether a row was changed, and the table.
unfoldable pub revoke_setup_key : ℕ → SetupKeys → Bool × SetupKeys
revoke_setup_key id t = (
  not (nat_beq (count (has_key row_id id) t.rows) 0),
  record t { rows = update (has_key row_id id) revoke t.rows },
)

-- The switch over the key: `now` is in nanoseconds.
abbrev pub refusal : ℕ → SetupKey → Option KeyError
refusal now k =
    if k.revoked
    then some revoked_key
    else if not (nat_beq k.expires_at 0) && ltb (k.expires_at * 1000000000) now
    then some expired
    else if not k.reusable && ltb 0 k.used_count
    then some spent
    else none

abbrev pub key_network : Option Network → ℕ → Result KeyError (Network × ℕ)
key_network none owner = err no_network
key_network (some nw) owner = ok (nw, owner)

abbrev pub use_key :
    List Network
    → SetupKey
    → Option KeyError
    → SetupKeys
    → Result KeyError (Network × ℕ) × SetupKeys
use_key networks k (some e) t = (err e, t)
use_key networks k none t = (
  key_network (network_by_id k.network networks) k.owner_user_id,
  record t { rows = update (has_key row_id k.id) spend t.rows },
)

abbrev pub use_found :
    List Network → ℕ → Option SetupKey → SetupKeys → Result KeyError (Network × ℕ) × SetupKeys
use_found networks now none t = (err unknown, t)
use_found networks now (some k) t = use_key networks k (refusal now k) t

abbrev pub find_key : List ℕ → SetupKeys → Option SetupKey
find_key text t = find (λ k. bytes_beq k.key (trim_space text)) t.rows

unfoldable pub use_setup_key :
    List Network → ℕ → List ℕ → SetupKeys → Result KeyError (Network × ℕ) × SetupKeys
use_setup_key networks now text t = use_found networks now (find_key text t) t

abbrev pub is_ok {ℓ κ} : {E : Type ℓ} {A : Type κ} → Result E A → ℕ
is_ok (ok a) = 1
is_ok (err e) = 0

-- The devices that join with one key text, at the given times.
unfoldable pub joins : List Network → List ℕ → List ℕ → SetupKeys → ℕ
joins networks text [] t = 0
joins networks text (now ∷ times) t =
    let (r, t') = use_setup_key networks now text t in is_ok r + joins networks text times t'

is_ok-le : (r : Result KeyError (Network × ℕ)) → is_ok r ≤ 1
is_ok-le (ok a) = omega arith
is_ok-le (err e) = omega arith

refused : (now : ℕ) (k : SetupKey) → k.reusable ≡ false → 1 ≤ k.used_count → refusal now k ≢ none
refused now k once used = ground arith

-- A single-use key that was used lets nobody join.
joins_spent :
    (networks : List Network) (text times : List ℕ) (t : SetupKeys) (k : SetupKey)
    → find_key text t ≡ some k
    → k.reusable ≡ false
    → 1 ≤ k.used_count
    → joins networks text times t ≡ 0
unfolding joins use_setup_key
joins_spent networks text [] t k e once used = refl
joins_spent networks text (now ∷ times) t k e once used =
    let rest = joins_spent networks text times t k e once used in
    elim (Option-cases (refusal now k)) [
      | inl r ↦ absurd (refused now k once used r)
      | inr (x, r) ↦ rw (e, r) (omega (arith, rest))
    ]

-- However often a single-use key is presented, at most one device joins with it.
pub joins_single_use :
    (networks : List Network) (text times : List ℕ) (t : SetupKeys) (k : SetupKey)
    → find_key text t ≡ some k
    → k.reusable ≡ false
    → joins networks text times t ≤ 1
unfolding joins use_setup_key
joins_single_use networks text [] t k e once = omega arith
joins_single_use networks text (now ∷ times) t k e once =
    let rest = joins_single_use networks text times t k e once in
    elim (Option-cases (refusal now k)) [
      | inl r ↦
          let t' : SetupKeys = record t { rows = update (has_key row_id k.id) spend t.rows } in
          let e' : find_key text t' ≡ some (spend k) =
            find-update_found row_id (λ q. bytes_beq q.key (trim_space text)) spend t.rows {t = k}
              (λ q. refl) e in
          let none_later = joins_spent networks text times t' (spend k) e' once (omega arith) in
          let one = is_ok-le (key_network (network_by_id k.network networks) k.owner_user_id) in
          rw (e, r) (omega (arith, none_later, one))
      | inr (x, r) ↦ rw (e, r) (omega (arith, rest))
    ]

-- Nobody joins with a key after it is revoked.
pub use_setup_key-revoke_setup_key :
    (networks : List Network) (now : ℕ) (text : List ℕ) (t : SetupKeys) (k : SetupKey)
    → find_key text t ≡ some k
    → use_setup_key networks now text (revoke_setup_key k.id t).1
      ≡ (err revoked_key, (revoke_setup_key k.id t).1)
unfolding use_setup_key revoke_setup_key
use_setup_key-revoke_setup_key networks now text t k e =
    rw
      (find-update_found row_id (λ r. bytes_beq r.key (trim_space text)) revoke t.rows {t = k}
        (λ r. refl) e)
      refl
