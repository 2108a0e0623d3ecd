-- ===== src/AdminApi/Requests.antt =====
-- Any sequence of requests to the accounts' part of the API.
use over_mesh.Common.{
  ℕ, ◌≡◌, inl, inr, refl, ◌∙◌, Bool, true, false, String, str_eq, List, [], ◌∷◌, Option, none, some,
  Result, ok, err, ltb, if◌then◌else◌, length, count-append, any, bytes_beq, arith, Bool-cases,
  Option-cases, Result-cases, KeysDiffer-append, below-append,
}
use over_mesh.Store.Users.{
  User, UserRow, Users, UserError, Bcrypt, insert_user, create_user, normalize_username, is_role,
  row_id, is_admin, admin_count,
}
use over_mesh.AdminApi.{
  Api, Response, Creation, Change, Credentials, PathId, answer_create, start_session, session_user,
  signup_enabled, login_checked, signup_created, log_in, signed_up, handle_create_user,
  handle_update_user, handle_delete_user, handle_login, handle_signup, handle_logout, admin,
}
use over_mesh.AdminApi.Accounts.{HasAdmin, handle_update_user-HasAdmin, handle_delete_user-HasAdmin}

insert_user-HasAdmin :
    (username hash : List ℕ) (role : String) (now : ℕ) (t : Users)
    → HasAdmin t
    → HasAdmin (insert_user username hash role now t).1
unfolding insert_user admin_count
insert_user-HasAdmin username hash role now t h =
    let user : User = record {
      id = t.next_id;
      username = username;
      role = role;
      disabled = false;
      created_at = now;
    } in
    let row : UserRow = record { user = user; password_hash = hash } in
    elim (Bool-cases (any (λ r. bytes_beq r.username username) t.rows)) [
      | inl e ↦ rw e h
      | inr e ↦ rw e (record {
        keys = KeysDiffer-append row_id t.rows row h.keys h.low;
        low = below-append row_id t.next_id t.rows row h.low refl;
        some_admin = omega (arith, count-append is_admin t.rows (row ∷ []), h.some_admin);
      })
    ]

create_user-HasAdmin :
    (bc : Bcrypt) (now : ℕ) (name password : List ℕ) (role : String) (t : Users)
    → HasAdmin t
    → HasAdmin (create_user bc now name password role t).1
unfolding create_user
create_user-HasAdmin bc now name password role t h = elim (Result-cases (normalize_username name)) [
  | inr (x, e) ↦ rw e h
  | inl (n, e) ↦ elim (Bool-cases (is_role role)) [
    | inr c ↦ rw (e, c) h
    | inl c ↦ elim (Bool-cases (ltb (length password) 8)) [
      | inl d ↦ rw (e, c, d) h
      | inr d ↦ elim (Option-cases (bc.generate password)) [
        | inl f ↦ rw (e, c, d, f) h
        | inr (hash, f) ↦ rw (e, c, d, f) (insert_user-HasAdmin n hash role now t h)
      ]
    ]
  ]
]

-- A request with the time it is served at, its session cookie and what the random source gives.
pub data Action : Type 0 where
  create : Option Creation → Action
  change : PathId → Option Change → Action
  remove : PathId → Action
  login signup : Option Credentials → Action
  logout : Action

pub record Request : Type 0 where
  pub action : Action
  pub cookie : Option (List ℕ)
  pub now : ℕ
  pub token : Option (List ℕ)

serve_action : Bcrypt → Option (List ℕ) → ℕ → Option (List ℕ) → Action → Api → Response × Api
serve_action bc cookie now token (create body) s =
    admin (handle_create_user bc now body) cookie now s
serve_action bc cookie now token (change id body) s =
    admin (handle_update_user bc id body) cookie now s
serve_action bc cookie now token (remove id) s = admin (handle_delete_user id) cookie now s
serve_action bc cookie now token (login body) s = handle_login bc token now body s
serve_action bc cookie now token (signup body) s = handle_signup bc token now body s
serve_action bc cookie now token logout s = handle_logout cookie s

-- The routes of `Register` for these handlers, each behind its guard.
unfoldable pub serve : Bcrypt → Request → Api → Response × Api
unfolding serve_action
serve bc r s = serve_action bc r.cookie r.now r.token r.action s

unfoldable pub serve_all : Bcrypt → List Request → Api → Api
serve_all bc [] s = s
serve_all bc (r ∷ rs) s = serve_all bc rs (serve bc r s).1

admin-HasAdmin :
    (next : User → Api → Response × Api) (cookie : Option (List ℕ)) (now : ℕ) (s : Api)
    → ((u : User) → HasAdmin (next u s).1.users)
    → HasAdmin s.users
    → HasAdmin (admin next cookie now s).1.users
unfolding admin
admin-HasAdmin next cookie now s keeps h = elim (Option-cases (session_user cookie now s)) [
  | inl e ↦ rw (admin, e) h
  | inr (u, e) ↦ elim (Bool-cases (str_eq u.role "admin")) [
    | inl c ↦ rw (admin, e, c) (keeps u)
    | inr c ↦ rw (admin, e, c) h
  ]
]

answer_create_users :
    (actor : List ℕ) (r : Result UserError User × Users) (s : Api)
    → (answer_create actor r s).1.users ≡ r.1
answer_create_users actor (ok u, t) s = refl
answer_create_users actor (err e, t) s = refl

handle_create_user-HasAdmin :
    (bc : Bcrypt) (now : ℕ) (body : Option Creation) (actor : User) (s : Api)
    → HasAdmin s.users
    → HasAdmin (handle_create_user bc now body actor s).1.users
unfolding handle_create_user
handle_create_user-HasAdmin bc now none actor s h = h
handle_create_user-HasAdmin bc now (some req) actor s h =
    let role = if str_eq req.role "" then "member" else req.role in
    rw
      (answer_create_users actor.username
        (create_user bc now req.username req.password role s.users) s)
      (create_user-HasAdmin bc now req.username req.password role s.users h)

start_session_users :
    (token : Option (List ℕ)) (now : ℕ) (u : User) (s : Api)
    → (start_session token now u s).1.users ≡ s.users
unfolding start_session
start_session_users none now u s = refl
start_session_users (some token) now u s = refl

log_in_users : (r : Bool × Api) (u : User) → (log_in r u).1.users ≡ r.1.users
log_in_users (true, s) u = refl
log_in_users (false, s) u = refl

login_checked_users :
    (token : Option (List ℕ)) (now : ℕ) (name : List ℕ) (r : Result UserError User) (s : Api)
    → (login_checked token now name r s).1.users ≡ s.users
login_checked_users token now name (err e) s = refl
login_checked_users token now name (ok u) s =
    log_in_users (start_session token now u s) u ∙ start_session_users token now u s

signed_up_users : (r : Bool × Api) (u : User) → (signed_up r u).1.users ≡ r.1.users
signed_up_users (true, s) u = refl
signed_up_users (false, s) u = refl

signup_created_users :
    (token : Option (List ℕ)) (now : ℕ) (r : Result UserError User × Users) (s : Api)
    → (signup_created token now r s).1.users ≡ r.1
signup_created_users token now (err e, t) s = refl
signup_created_users token now (ok u, t) s = signed_up_users _ u ∙ start_session_users token now u _

handle_login-HasAdmin :
    (bc : Bcrypt) (token : Option (List ℕ)) (now : ℕ) (body : Option Credentials) (s : Api)
    → HasAdmin s.users
    → HasAdmin (handle_login bc token now body s).1.users
unfolding handle_login
handle_login-HasAdmin bc token now none s h = h
handle_login-HasAdmin bc token now (some req) s h = rw (login_checked_users token now _ _ s) h

handle_signup-HasAdmin :
    (bc : Bcrypt) (token : Option (List ℕ)) (now : ℕ) (body : Option Credentials) (s : Api)
    → HasAdmin s.users
    → HasAdmin (handle_signup bc token now body s).1.users
unfolding handle_signup
handle_signup-HasAdmin bc token now none s h = elim (Bool-cases (signup_enabled s)) [
  | inl e ↦ rw e h
  | inr e ↦ rw e h
]
handle_signup-HasAdmin bc token now (some req) s h = elim (Bool-cases (signup_enabled s)) [
  | inl e ↦
      rw
        (
          e,
          signup_created_users token now
              (create_user bc now req.username req.password "member" s.users) s,
        )
        (create_user-HasAdmin bc now req.username req.password "member" s.users h)
  | inr e ↦ rw e h
]

handle_logout-HasAdmin :
    (cookie : Option (List ℕ)) (s : Api)
    → HasAdmin s.users
    → HasAdmin (handle_logout cookie s).1.users
unfolding handle_logout
handle_logout-HasAdmin none s h = h
handle_logout-HasAdmin (some token) s h = h

serve-HasAdmin :
    (bc : Bcrypt) (r : Request) (s : Api) → HasAdmin s.users → HasAdmin (serve bc r s).1.users
unfolding serve
serve-HasAdmin bc r s h =
    elim r.action as (λ a. HasAdmin (serve_action bc r.cookie r.now r.token a s).1.users) [
      | create body ↦
          admin-HasAdmin (handle_create_user bc r.now body) r.cookie r.now s
            (λ u. handle_create_user-HasAdmin bc r.now body u s h) h
      | change id body ↦
          admin-HasAdmin (handle_update_user bc id body) r.cookie r.now s
            (λ u. handle_update_user-HasAdmin bc id body u s h) h
      | remove id ↦
          admin-HasAdmin (handle_delete_user id) r.cookie r.now s
            (λ u. handle_delete_user-HasAdmin id u s h) h
      | login body ↦ handle_login-HasAdmin bc r.token r.now body s h
      | signup body ↦ handle_signup-HasAdmin bc r.token r.now body s h
      | logout ↦ handle_logout-HasAdmin r.cookie s h
    ]

-- From a table with an enabled admin, and with account numbers that differ and are below the next
-- one, requests that are served one after another lead to such a table again.
pub serve_all-HasAdmin :
    (bc : Bcrypt) (rs : List Request) (s : Api)
    → HasAdmin s.users
    → HasAdmin (serve_all bc rs s).users
unfolding serve_all
serve_all-HasAdmin bc [] s h = h
serve_all-HasAdmin bc (r ∷ rs) s h =
    serve_all-HasAdmin bc rs (serve bc r s).1 (serve-HasAdmin bc r s h)
