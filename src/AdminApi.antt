-- ===== src/AdminApi.antt =====
-- internal/adminapi/adminapi.go: the accounts' part of the admin API. The server's state is the
-- accounts' table, the audit log and the sessions. SQL statements do not fail.
pub mod Accounts
pub mod Keys
pub mod Lockout
pub mod Requests
pub mod Sessions
use Prim.Native.String.{◌++◌ as str_append}
use over_mesh.Common.{
  ℕ, ◌+◌, ◌*◌, ◌≡◌, refl, Bool, true, false, not, ◌&&◌, ◌||◌, String, str_eq, List, [], ◌∷◌, ◌++◌,
  Option, none, some, Result, ok, err, ltb, leb, nat_beq, bytes_beq, bytes_eq, if◌then◌else◌,
  length, lookup, delete, insert,
}
use over_mesh.Store.Users.{
  User, Users, UserError, Bcrypt, create_user, user_by_id, check_password, set_user_role,
  set_user_disabled, set_user_password, delete_user, admin_count, admin_name,
}

-- Nanoseconds.
pub record Session : Type 0 where
  pub user : User
  pub exp : ℕ

pub record AuditEntry : Type 0 where
  pub actor : List ℕ
  pub action : String
  pub target : List ℕ
  pub detail : String

-- The sessions are a map from tokens, the newest audit entry is the last, and `signup` is the
-- setting `signup_enabled`.
pub record Api : Type 0 where
  pub users : Users
  pub audit : List AuditEntry
  pub sessions : List (List ℕ × Session)
  pub signup : Option String

pub data Response : Type 0 where
  done : Response
  account : User → Response
  failed : (status : ℕ) → Response

-- The number in the path: `strconv.ParseInt` refuses it, or no row has it since it is negative.
pub data PathId : Type 0 where
  not_a_number negative : PathId
  number : ℕ → PathId

-- 12 hours.
abbrev pub session_ttl : ℕ
session_ttl = 12 * 3600 * 1000000000

abbrev pub log_entry : List ℕ → String → List ℕ → String → Api → Api
log_entry actor action target detail s = record s {
  audit =
      s.audit ++ record { actor = actor; action = action; target = target; detail = detail } ∷ [];
}

abbrev pub with_users : Users → Api → Api
with_users t s = record s { users = t }

-- The bodies of requests. A field that JSON leaves out is empty, or `none` where it is a pointer.
pub record Credentials : Type 0 where
  pub username : List ℕ
  pub password : List ℕ

pub record Creation : Type 0 where
  pub username : List ℕ
  pub password : List ℕ
  pub role : String

pub record Change : Type 0 where
  pub role : Option String
  pub disabled : Option Bool
  pub password : Option (List ℕ)

abbrev pub answer_create : List ℕ → Result UserError User × Users → Api → Response × Api
answer_create actor (err e, t) s = (failed 400, with_users t s)
answer_create actor (ok u, t) s = (
  account u,
  log_entry actor "user.create" u.username (str_append "role=" u.role) (with_users t s),
)

unfoldable pub handle_create_user : Bcrypt → ℕ → Option Creation → User → Api → Response × Api
handle_create_user bc now none actor s = (failed 400, s)
handle_create_user bc now (some req) actor s =
    let role = if str_eq req.role "" then "member" else req.role in
    answer_create actor.username (create_user bc now req.username req.password role s.users) s

-- What follows an UPDATE: its error ends the request, and otherwise it is logged.
abbrev pub after_set :
    List ℕ → String → List ℕ → String → Option UserError × Users → Api → Bool × Api
after_set actor action target detail (some e, t) s = (false, with_users t s)
after_set actor action target detail (none, t) s =
    (true, log_entry actor action target detail (with_users t s))

-- The three steps of the handler: whether it goes on, and the state.
abbrev pub change_role : List ℕ → User → ℕ → Option String → Api → Bool × Api
change_role actor target id none s = (true, s)
change_role actor target id (some role) s =
    after_set actor "user.role" target.username (str_append "role=" role)
      (set_user_role id role s.users) s

abbrev pub change_disabled : List ℕ → User → ℕ → Option Bool → Api → Bool × Api
change_disabled actor target id none s = (true, s)
change_disabled actor target id (some d) s =
    let action = if d then "user.disable" else "user.enable" in
    after_set actor action target.username "" (set_user_disabled id d s.users) s

abbrev pub change_password : Bcrypt → List ℕ → User → ℕ → Option (List ℕ) → Api → Bool × Api
change_password bc actor target id none s = (true, s)
change_password bc actor target id (some p) s =
    after_set actor "user.password-reset" target.username "" (set_user_password bc id p s.users) s

abbrev pub and_then : Bool × Api → (Api → Bool × Api) → Bool × Api
and_then (true, s) next = next s
and_then (false, s) next = (false, s)

abbrev pub answer : Bool × Api → Response × Api
answer (true, s) = (done, s)
answer (false, s) = (failed 400, s)

pub answer_state : (r : Bool × Api) → (answer r).1 ≡ r.1
answer_state (true, s) = refl
answer_state (false, s) = refl

abbrev pub takes_admin : Option String → Bool
takes_admin none = false
takes_admin (some role) = not (str_eq role "admin")

abbrev pub disables : Option Bool → Bool
disables none = false
disables (some d) = d

abbrev pub demoting : Change → Bool
demoting req = takes_admin req.role || disables req.disabled

unfoldable pub apply_change : Bcrypt → List ℕ → User → ℕ → Change → Api → Bool × Api
apply_change bc actor target id req s =
    and_then
      (and_then (change_role actor target id req.role s)
        (change_disabled actor target id req.disabled))
      (change_password bc actor target id req.password)

update_target : Bcrypt → Change → List ℕ → ℕ → Result UserError User → Api → Response × Api
update_target bc req actor id (err e) s = (failed 404, s)
update_target bc req actor id (ok target) s =
    if str_eq target.role "admin" && demoting req && leb (admin_count s.users) 1
    then (failed 409, s)
    else answer (apply_change bc actor target id req s)

unfoldable pub handle_update_user : Bcrypt → PathId → Option Change → User → Api → Response × Api
unfolding update_target
handle_update_user bc not_a_number body actor s = (failed 400, s)
handle_update_user bc _ none actor s = (failed 400, s)
handle_update_user bc negative (some req) actor s = (failed 404, s)
handle_update_user bc (number id) (some req) actor s =
    update_target bc req actor.username id (user_by_id id s.users) s

abbrev pub after_delete : List ℕ → User → Option UserError × Users → Api → Response × Api
after_delete actor target (some e, t) s = (failed 500, with_users t s)
after_delete actor target (none, t) s =
    (done, log_entry actor "user.delete" target.username "" (with_users t s))

delete_target : List ℕ → ℕ → Result UserError User → Api → Response × Api
delete_target actor id (err e) s = (failed 404, s)
delete_target actor id (ok target) s =
    if str_eq target.role "admin" && leb (admin_count s.users) 1
    then (failed 409, s)
    else after_delete actor target (delete_user id s.users) s

unfoldable pub handle_delete_user : PathId → User → Api → Response × Api
unfolding delete_target
handle_delete_user not_a_number actor s = (failed 400, s)
handle_delete_user negative actor s = (failed 404, s)
handle_delete_user (number id) actor s = delete_target actor.username id (user_by_id id s.users) s

-- `gcSessionsLocked`
abbrev pub gc_sessions : ℕ → List (List ℕ × Session) → List (List ℕ × Session)
gc_sessions now [] = []
gc_sessions now ((t, e) ∷ m) =
    let rest = gc_sessions now m in if ltb e.exp now then rest else (t, e) ∷ rest

-- `token` is what `rand.Read` gave, if it gave anything.
unfoldable pub start_session : Option (List ℕ) → ℕ → User → Api → Bool × Api
start_session none now u s = (false, s)
start_session (some token) now u s = (
  true,
  record s {
    sessions =
        insert token (record { user = u; exp = now + session_ttl })
          (delete token (gc_sessions now s.sessions));
  },
)

unfoldable pub signup_enabled : Api → Bool
signup_enabled s = elim (s.signup) [ none ↦ false | some v ↦ str_eq v "1" ]

-- Old clients send only a password.
abbrev pub login_name : Credentials → List ℕ
login_name req = if nat_beq (length req.username) 0 then admin_name else req.username

abbrev pub log_in : Bool × Api → User → Response × Api
log_in (false, s) u = (failed 500, s)
log_in (true, s) u = (account u, log_entry u.username "login" [] "" s)

abbrev pub login_checked :
    Option (List ℕ) → ℕ → List ℕ → Result UserError User → Api → Response × Api
login_checked token now name (err e) s = (failed 401, log_entry name "login.failed" [] "" s)
login_checked token now name (ok u) s = log_in (start_session token now u s) u

unfoldable pub handle_login :
    Bcrypt → Option (List ℕ) → ℕ → Option Credentials → Api → Response × Api
handle_login bc token now none s = (failed 400, s)
handle_login bc token now (some req) s =
    let name = login_name req in
    login_checked token now name (check_password bc name req.password s.users) s

abbrev pub signed_up : Bool × Api → User → Response × Api
signed_up (false, s) u = (failed 500, s)
signed_up (true, s) u = (account u, s)

abbrev pub signup_created :
    Option (List ℕ) → ℕ → Result UserError User × Users → Api → Response × Api
signup_created token now (err e, t) s = (failed 400, with_users t s)
signup_created token now (ok u, t) s =
    signed_up
      (start_session token now u (log_entry u.username "user.signup" [] "" (with_users t s))) u

unfoldable pub handle_signup :
    Bcrypt → Option (List ℕ) → ℕ → Option Credentials → Api → Response × Api
handle_signup bc token now body s = if not (signup_enabled s) then (failed 404, s) else elim body [
  | none ↦ (failed 400, s)
  | some req ↦
      signup_created token now (create_user bc now req.username req.password "member" s.users) s
]

-- The cookie's value, if the request has the cookie.
unfoldable pub handle_logout : Option (List ℕ) → Api → Response × Api
handle_logout none s = (done, s)
handle_logout (some token) s = (done, record s { sessions = delete token s.sessions })

fresh_user : ℕ → Option Session → Option User
fresh_user now none = none
fresh_user now (some e) = if ltb e.exp now then none else some e.user

unfoldable pub session_user : Option (List ℕ) → ℕ → Api → Option User
unfolding fresh_user
session_user none now s = none
session_user (some token) now s = fresh_user now (lookup token s.sessions)

-- The guards `auth` and `admin` around a handler.
unfoldable pub auth : (User → Api → Response × Api) → Option (List ℕ) → ℕ → Api → Response × Api
auth next cookie now s = elim (session_user cookie now s) [
  | none ↦ (failed 401, s)
  | some u ↦ next u s
]

unfoldable pub admin : (User → Api → Response × Api) → Option (List ℕ) → ℕ → Api → Response × Api
admin next cookie now s = elim (session_user cookie now s) [
  | none ↦ (failed 401, s)
  | some u ↦ if not (str_eq u.role "admin") then (failed 403, s) else next u s
]
