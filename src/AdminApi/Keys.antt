-- ===== src/AdminApi/Keys.antt =====
-- The setup keys' handlers of the admin API.
use over_mesh.Common.{
  ℕ, ◌+◌, ◌*◌, ◌≡◌, ◌≢◌, inl, inr, refl, ap, ◌∙◌, sym, Bool, true, false, not, ◌&&◌, String, str_eq,
  List, [], ◌∷◌, ◌++◌, Option, none, some, ltb, nat_beq, nat_beq_iff, if◌then◌else◌, find, of_some,
  has_key, find-update_other, Bool-cases, Option-cases,
}
use over_mesh.Store.Users.{User}
use over_mesh.Store.SetupKeys.{SetupKey, SetupKeys, row_id, new_setup_key, revoke_setup_key, revoke}
use over_mesh.AdminApi.{AuditEntry, PathId, not_a_number, negative, number}

pub record KeyApi : Type 0 where
  pub keys : SetupKeys
  pub audit : List AuditEntry

pub data KeyResponse : Type 0 where
  revoked_ok : KeyResponse
  created : SetupKey → KeyResponse
  refused : (status : ℕ) → KeyResponse

-- `none` for `ErrNotFound`.
abbrev pub setup_key_by_id : ℕ → SetupKeys → Option SetupKey
setup_key_by_id id t = find (has_key row_id id) t.rows

abbrev pub log_key : User → String → String → KeyApi → KeyApi
log_key u action detail s = record s {
  audit =
      s.audit ++ record { actor = u.username; action = action; target = []; detail = detail } ∷ [];
}

pub record KeyRequest : Type 0 where
  pub reusable : Bool
  pub expires_hours : ℕ

abbrev pub answer_key : User → Bool → Option SetupKey × SetupKeys → KeyApi → KeyResponse × KeyApi
answer_key u reusable (none, t) s = (refused 500, record s { keys = t })
answer_key u reusable (some k, t) s = (
  created k,
  log_key u "setupkey.create" (if reusable then "reusable=true" else "reusable=false")
      (record s { keys = t }),
)

-- An empty body counts as one with no fields. `text` is the random key, and `now` the time in seconds; hours below zero are read as 0.
unfoldable pub handle_create_setup_key :
    ℕ → List ℕ → ℕ → Option KeyRequest → User → KeyApi → KeyResponse × KeyApi
handle_create_setup_key network text now none u s = (refused 400, s)
handle_create_setup_key network text now (some req) u s =
    let exp = if ltb 0 req.expires_hours then now + req.expires_hours * 3600 else 0 in
    answer_key u req.reusable (new_setup_key text network req.reusable exp u.id now s.keys) s

abbrev pub after_revoke : User → Bool × SetupKeys → KeyApi → KeyResponse × KeyApi
after_revoke u (false, t) s = (refused 404, record s { keys = t })
after_revoke u (true, t) s = (revoked_ok, log_key u "setupkey.revoke" "" (record s { keys = t }))

abbrev pub revoke_found : User → ℕ → Option SetupKey → KeyApi → KeyResponse × KeyApi
revoke_found u id none s = (refused 404, s)
revoke_found u id (some k) s =
    if not (str_eq u.role "admin") && not (nat_beq k.owner_user_id u.id)
    then (refused 403, s)
    else after_revoke u (revoke_setup_key id s.keys) s

unfoldable pub handle_revoke_setup_key : PathId → User → KeyApi → KeyResponse × KeyApi
handle_revoke_setup_key not_a_number u s = (refused 400, s)
handle_revoke_setup_key negative u s = (refused 404, s)
handle_revoke_setup_key (number id) u s = revoke_found u id (setup_key_by_id id s.keys) s

after_revoke_keys :
    (u : User) (r : Bool × SetupKeys) (s : KeyApi) → (after_revoke u r s).1.keys ≡ r.1
after_revoke_keys u (true, t) s = refl
after_revoke_keys u (false, t) s = refl

-- A member's request to revoke a key leaves every key that is another account's as it was.
pub handle_revoke_setup_key-owner :
    (id : PathId) (u : User) (s : KeyApi) (j : ℕ) (k : SetupKey)
    → str_eq u.role "admin" ≡ false
    → setup_key_by_id j s.keys ≡ some k
    → k.owner_user_id ≢ u.id
    → setup_key_by_id j (handle_revoke_setup_key id u s).1.keys ≡ some k
unfolding handle_revoke_setup_key revoke_setup_key
handle_revoke_setup_key-owner not_a_number u s j k member e other = e
handle_revoke_setup_key-owner negative u s j k member e other = e
handle_revoke_setup_key-owner (number id) u s j k member e other =
    elim (Option-cases (setup_key_by_id id s.keys)) [
      | inl gone ↦ rw gone e
      | inr (q, here) ↦ elim (Bool-cases (nat_beq q.owner_user_id u.id)) [
        | inr foreign ↦ rw (here, member, foreign) e
        | inl own ↦
            let apart : id ≢ j = λ same. other (
              ap (λ (x : SetupKey). x.owner_user_id)
                (of_some (sym e ∙ ap (λ (i : ℕ). setup_key_by_id i s.keys) (sym same) ∙ here))
              ∙ (nat_beq_iff q.owner_user_id u.id).0 own) in
            rw (here, member, own, after_revoke_keys u (revoke_setup_key id s.keys) s)
              (find-update_other row_id id j revoke s.keys.rows {t = k} apart (λ r. refl) e)
      ]
    ]
