-- ===== src/AdminApi/Sessions.antt =====
-- Logins and the sessions that they start.
use over_mesh.Common.{
  ℕ, ◌+◌, ◌≤◌, ◌≡◌, ◌≢◌, ◌↔◌, inl, inr, refl, ap, ◌∙◌, Bool, true, false, ◌&&◌, String, str_eq,
  List, [], ◌∷◌, Option, none, some, ok, ltb, leb, bytes_eq, bytes_beq_iff, if◌then◌else◌,
  bytes_beq, ◌==◌, lookup, lookup-delete, arith, Bool-cases, Option-cases, Result-cases, beq_refl,
}
use over_mesh.Store.Users.{User, Users, UserError, Bcrypt, user_by_id, admin_count, check_password}
use over_mesh.Store.Users.Passwords.{HasPassword, check_password-HasPassword}
use over_mesh.AdminApi.{
  Api, Session, account, Credentials, PathId, Change, start_session, session_user, session_ttl,
  handle_login, login_name, handle_logout, gc_sessions, apply_change, handle_update_user, after_set,
  and_then, answer_state, demoting, change_role, change_disabled, change_password, not_a_number,
  negative, number,
}

-- A session that has not ended stays when the ended ones are removed.
lookup-gc_sessions :
    (token : List ℕ) (now : ℕ) (m : List (List ℕ × Session)) (e : Session)
    → lookup token m ≡ some e
    → now ≤ e.exp
    → lookup token (gc_sessions now m) ≡ some e
lookup-gc_sessions token now [] e h live = h
lookup-gc_sessions token now ((t, f) ∷ m) e h live =
    ground (arith, bytes_beq_iff t token, lookup-gc_sessions token now m e)

-- The token of a new session gives the session's account until it ends, and not after that.
start_session-session_user :
    (token : List ℕ) (now later : ℕ) (u : User) (s : Api)
    → session_user (some token) later (start_session (some token) now u s).1
      ≡ (if leb later (now + session_ttl) then some u else none)
unfolding session_user start_session
start_session-session_user token now later u s = rw (beq_refl token) (ground arith)

none_not_some : {A : Type 0} {a : A} → ◌≡◌ {A = Option A} none (some a) → ⊥
none_not_some e = cc

of_some : {A : Type 0} {a b : A} → some a ≡ some b → a ≡ b
of_some e = cc

-- The session behind a token that is accepted.
session_user-live :
    (token : List ℕ) (now : ℕ) (v : User) (s : Api)
    → session_user (some token) now s ≡ some v
    → (e : Session) × (lookup token s.sessions ≡ some e) × (now ≤ e.exp) × (e.user ≡ v)
unfolding session_user
session_user-live token now v s h = elim (Option-cases (lookup token s.sessions)) [
  | inl e ↦ absurd (none_not_some (rw e at h))
  | inr (x, e) ↦
      let h' : (if ltb x.exp now then none else some x.user) ≡ some v = rw e at h in
      elim (Bool-cases (ltb x.exp now)) [
        | inl c ↦ absurd (none_not_some (rw c at h'))
        | inr c ↦ (x, e, ground (arith, c), of_some (rw c at h'))
      ]
]

-- A new session does not end another that is still live.
pub start_session-others :
    (token other : List ℕ) (now : ℕ) (u v : User) (s : Api)
    → other ≢ token
    → session_user (some other) now s ≡ some v
    → session_user (some other) now (start_session (some token) now u s).1 ≡ some v
unfolding session_user start_session
start_session-others token other now u v s ne h =
    let (e, found, live, whose) = session_user-live other now v s h in
    let off : bytes_beq token other ≡ false = ground (arith, bytes_beq_iff token other, ne) in
    let kept = lookup-gc_sessions other now s.sessions e found live in
    let running : ltb e.exp now ≡ false = ground (arith, live) in
    rw (off, lookup-delete token other (gc_sessions now s.sessions), off, kept, running)
      (ap some whose)

answered_checked :
    (bc : Bcrypt) (token : List ℕ) (now : ℕ) (req : Credentials) (u : User) (s : Api)
    → ((handle_login bc (some token) now (some req) s).0 ≡ account u)
      ↔ (check_password bc (login_name req) req.password s.users ≡ ok u)
unfolding handle_login start_session
answered_checked bc token now req u s =
    elim (Result-cases (check_password bc (login_name req) req.password s.users)) [
      | inl (v, e) ↦ rw e ((λ h. cc), (λ h. cc))
      | inr (x, e) ↦ rw e ((λ h. cc), (λ h. cc))
    ]

-- When a token can be made, a login is answered with an account exactly when the normalized name, that
-- of the administrator if none was given, is the account's, the account is enabled, and the password
-- passes the comparison with its hash.
pub handle_login-account :
    (bc : Bcrypt) (token : List ℕ) (now : ℕ) (req : Credentials) (u : User) (s : Api)
    → ((handle_login bc (some token) now (some req) s).0 ≡ account u)
      ↔ HasPassword bc (login_name req) req.password s.users u
handle_login-account bc token now req u s =
    let answered = answered_checked bc token now req u s in
    let checked = check_password-HasPassword bc (login_name req) req.password s.users u in
    ((λ e. checked.0 (answered.0 e)), (λ h. answered.1 (checked.1 h)))

-- After a login with an account's password the token gives the account until the session ends.
handle_login-session_user :
    (bc : Bcrypt) (token : List ℕ) (now later : ℕ) (req : Credentials) (u : User) (s : Api)
    → check_password bc (login_name req) req.password s.users ≡ ok u
    → session_user (some token) later (handle_login bc (some token) now (some req) s).1
      ≡ (if leb later (now + session_ttl) then some u else none)
unfolding handle_login session_user start_session
handle_login-session_user bc token now later req u s h = rw (h, beq_refl token) (ground arith)

-- A logout ends the session of its token and no other.
pub handle_logout-session_user :
    (token other : List ℕ) (now : ℕ) (s : Api)
    → session_user (some other) now (handle_logout (some token) s).1
      ≡ (if token == other then none else session_user (some other) now s)
unfolding handle_logout session_user
handle_logout-session_user token other now s =
    rw (lookup-delete token other s.sessions) (ground arith)

after_set_sessions :
    (actor : List ℕ) (action : String) (target : List ℕ) (detail : String)
    (r : Option UserError × Users) (s : Api)
    → (after_set actor action target detail r s).1.sessions ≡ s.sessions
after_set_sessions actor action target detail (none, t) s = refl
after_set_sessions actor action target detail (some e, t) s = refl

and_then_sessions :
    (m : List (List ℕ × Session)) (r : Bool × Api) (next : Api → Bool × Api)
    → r.1.sessions ≡ m
    → ((s : Api) → (next s).1.sessions ≡ s.sessions)
    → (and_then r next).1.sessions ≡ m
and_then_sessions m (true, s) next e keeps = keeps s ∙ e
and_then_sessions m (false, s) next e keeps = e

change_role_sessions :
    (actor : List ℕ) (target : User) (id : ℕ) (role : Option String) (s : Api)
    → (change_role actor target id role s).1.sessions ≡ s.sessions
change_role_sessions actor target id none s = refl
change_role_sessions actor target id (some role) s = after_set_sessions actor _ _ _ _ s

change_disabled_sessions :
    (actor : List ℕ) (target : User) (id : ℕ) (d : Option Bool) (s : Api)
    → (change_disabled actor target id d s).1.sessions ≡ s.sessions
change_disabled_sessions actor target id none s = refl
change_disabled_sessions actor target id (some d) s = after_set_sessions actor _ _ _ _ s

change_password_sessions :
    (bc : Bcrypt) (actor : List ℕ) (target : User) (id : ℕ) (p : Option (List ℕ)) (s : Api)
    → (change_password bc actor target id p s).1.sessions ≡ s.sessions
change_password_sessions bc actor target id none s = refl
change_password_sessions bc actor target id (some p) s = after_set_sessions actor _ _ _ _ s

apply_change_sessions :
    (bc : Bcrypt) (actor : List ℕ) (target : User) (id : ℕ) (req : Change) (s : Api)
    → (apply_change bc actor target id req s).1.sessions ≡ s.sessions
unfolding apply_change
apply_change_sessions bc actor target id req s =
    and_then_sessions s.sessions _ _
      (and_then_sessions s.sessions (change_role actor target id req.role s) _
        (change_role_sessions actor target id req.role s)
        (change_disabled_sessions actor target id req.disabled))
      (change_password_sessions bc actor target id req.password)

handle_update_user_sessions :
    (bc : Bcrypt) (id : PathId) (body : Option Change) (actor : User) (s : Api)
    → (handle_update_user bc id body actor s).1.sessions ≡ s.sessions
unfolding handle_update_user
handle_update_user_sessions bc not_a_number body actor s = refl
handle_update_user_sessions bc negative none actor s = refl
handle_update_user_sessions bc negative (some req) actor s = refl
handle_update_user_sessions bc (number id) none actor s = refl
handle_update_user_sessions bc (number id) (some req) actor s =
    elim (Result-cases (user_by_id id s.users)) [
      | inr (x, e) ↦ rw e refl
      | inl (target, e) ↦
          elim (Bool-cases
            (str_eq target.role "admin" && demoting req && leb (admin_count s.users) 1)) [
              | inl c ↦ rw (e, c) refl
              | inr c ↦
                  rw (e, c, answer_state (apply_change bc actor.username target id req s))
                    (apply_change_sessions bc actor.username target id req s)
            ]
    ]

-- A change of an account, whatever it changes, leaves every session as it is: who was logged in
-- stays logged in, with the role that the account had at the login.
pub handle_update_user-session_user :
    (bc : Bcrypt) (id : PathId) (body : Option Change) (actor : User) (s : Api)
    (cookie : Option (List ℕ)) (now : ℕ)
    → session_user cookie now (handle_update_user bc id body actor s).1 ≡ session_user cookie now s
unfolding session_user
handle_update_user-session_user bc id body actor s none now = refl
handle_update_user-session_user bc id body actor s (some token) now =
    rw (handle_update_user_sessions bc id body actor s) refl
