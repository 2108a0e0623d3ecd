-- ===== src/Store/Users.antt =====
-- internal/store/users.go: the accounts.
pub mod Passwords
use over_mesh.Common.{
  ℕ, ◌+◌, Bool, true, false, not, ◌&&◌, ◌||◌, String, str_eq, List, [], ◌∷◌, ◌++◌, Option, none,
  some, Result, ok, err, ltb, leb, nat_beq, nat_eq, bytes_beq, if◌then◌else◌, length, any, find,
  select, is_lower_alnum, trim_space, to_lower, count, update, has_key,
}

pub record User : Type 0 where
  pub id : ℕ
  pub username : List ℕ
  pub role : String
  pub disabled : Bool
  pub created_at : ℕ

-- A row of the table holds the hash too, which never leaves the package.
pub record UserRow : Type 0 where
  pub user : User
  pub open user use *
  pub password_hash : List ℕ

pub record Users : Type 0 where
  pub rows : List UserRow
  pub next_id : ℕ

pub data UserError : Type 0 where
  bad_username bad_role short_password hash_failed taken not_found account_disabled : UserError
  wrong_password : UserError

-- golang.org/x/crypto/bcrypt. `generate` fails on passwords that are too long.
pub record Bcrypt : Type 0 where
  pub generate : List ℕ → Option (List ℕ)
  pub compare : List ℕ → List ℕ → Bool

abbrev pub row_id : UserRow → ℕ
row_id r = r.user.id

abbrev pub is_name_byte : ℕ → Bool
is_name_byte c = is_lower_alnum c || nat_beq c b'.' || nat_beq c b'_' || nat_beq c b'-'

abbrev all_bytes : (ℕ → Bool) → List ℕ → Bool
all_bytes p [] = true
all_bytes p (c ∷ cs) = p c && all_bytes p cs

-- `^[a-z0-9][a-z0-9._-]{0,31}$`
username_matches : List ℕ → Bool
username_matches [] = false
username_matches (c ∷ cs) = is_lower_alnum c && all_bytes is_name_byte cs && leb (length cs) 31

unfoldable pub normalize_username : List ℕ → Result UserError (List ℕ)
unfolding username_matches
normalize_username u =
    let name = to_lower (trim_space u) in
    if not (username_matches name) then err bad_username else ok name

abbrev pub is_role : String → Bool
is_role role = str_eq role "admin" || str_eq role "member"

-- The row that an INSERT adds, if no row has the username.
unfoldable pub insert_user : List ℕ → List ℕ → String → ℕ → Users → Result UserError User × Users
insert_user username hash role now t =
    let user : User = record {
      id = t.next_id;
      username = username;
      role = role;
      disabled = false;
      created_at = now;
    } in
    if any (λ r. bytes_beq r.username username) t.rows then (err taken, t) else (
      ok user,
      record {
        rows = t.rows ++ record { user = user; password_hash = hash } ∷ [];
        next_id = t.next_id + 1;
      },
    )

insert_hashed : List ℕ → Option (List ℕ) → String → ℕ → Users → Result UserError User × Users
insert_hashed username none role now t = (err hash_failed, t)
insert_hashed username (some hash) role now t = insert_user username hash role now t

create_normalized :
    Bcrypt → ℕ → Result UserError (List ℕ) → List ℕ → String → Users → Result UserError User × Users
create_normalized bc now (err e) password role t = (err e, t)
create_normalized bc now (ok username) password role t =
    if not (is_role role)
    then (err bad_role, t)
    else if ltb (length password) 8
    then (err short_password, t)
    else insert_hashed username (bc.generate password) role now t

unfoldable pub create_user :
    Bcrypt → ℕ → List ℕ → List ℕ → String → Users → Result UserError User × Users
unfolding create_normalized insert_hashed
create_user bc now username password role t =
    create_normalized bc now (normalize_username username) password role t

-- The legacy migration's insert: no check on the name, the role or the hash.
abbrev pub create_user_with_hash :
    ℕ → List ℕ → List ℕ → String → Users → Result UserError User × Users
create_user_with_hash now username hash role t = insert_user username hash role now t

abbrev found : Option UserRow → Result UserError User
found none = err not_found
found (some r) = ok r.user

unfoldable pub user_by_name : List ℕ → Users → Result UserError User
user_by_name username t = found (find (λ r. bytes_beq r.username username) t.rows)

unfoldable pub user_by_id : ℕ → Users → Result UserError User
user_by_id id t = found (find (has_key row_id id) t.rows)

check_row : Bcrypt → List ℕ → Option UserRow → Result UserError User
check_row bc password none = err not_found
check_row bc password (some r) =
    if r.disabled
    then err account_disabled
    else if not (bc.compare r.password_hash password)
    then err wrong_password
    else ok r.user

check_normalized : Bcrypt → List ℕ → Result UserError (List ℕ) → Users → Result UserError User
check_normalized bc password (err e) t = err e
check_normalized bc password (ok username) t =
    check_row bc password (find (λ r. bytes_beq r.username username) t.rows)

unfoldable pub check_password : Bcrypt → List ℕ → List ℕ → Users → Result UserError User
unfolding check_normalized check_row
check_password bc username password t = check_normalized bc password (normalize_username username) t

abbrev pub update_row : ℕ → (UserRow → UserRow) → Users → Users
update_row id f t = record t { rows = update (has_key row_id id) f t.rows }

-- `RowsAffected` of an UPDATE or DELETE by id.
abbrev pub affected : ℕ → Users → ℕ
affected id t = count (has_key row_id id) t.rows

abbrev pub with_disabled : Bool → UserRow → UserRow
with_disabled d r = record r { user = record r.user { disabled = d } }

abbrev pub with_role : String → UserRow → UserRow
with_role role r = record r { user = record r.user { role = role } }

abbrev pub with_hash : List ℕ → UserRow → UserRow
with_hash h r = record r { password_hash = h }

abbrev pub no_rows : ℕ → Users → Option UserError
no_rows id t = if nat_beq (affected id t) 0 then some not_found else none

-- The setters return their error, `none` for nil.
unfoldable pub set_user_disabled : ℕ → Bool → Users → Option UserError × Users
set_user_disabled id disabled t = (no_rows id t, update_row id (with_disabled disabled) t)

unfoldable pub set_user_role : ℕ → String → Users → Option UserError × Users
set_user_role id role t =
    if not (is_role role)
    then (some bad_role, t)
    else (no_rows id t, update_row id (with_role role) t)

set_hash : ℕ → Option (List ℕ) → Users → Option UserError × Users
set_hash id none t = (some hash_failed, t)
set_hash id (some hash) t = (no_rows id t, update_row id (with_hash hash) t)

unfoldable pub set_user_password : Bcrypt → ℕ → List ℕ → Users → Option UserError × Users
unfolding set_hash
set_user_password bc id password t =
    if ltb (length password) 8
    then (some short_password, t)
    else set_hash id (bc.generate password) t

unfoldable pub delete_user : ℕ → Users → Option UserError × Users
delete_user id t =
    (no_rows id t, record t { rows = select (λ r. not (has_key row_id id r)) t.rows })

abbrev pub is_admin : UserRow → Bool
is_admin r = str_eq r.role "admin" && not r.disabled

unfoldable pub admin_count : Users → ℕ
admin_count t = count is_admin t.rows

error_of : Result UserError User × Users → Option UserError × Users
error_of (ok u, t) = (none, t)
error_of (err e, t) = (some e, t)

-- b"admin"
abbrev pub admin_name : List ℕ
admin_name = b'a' ∷ b'd' ∷ b'm' ∷ b'i' ∷ b'n' ∷ []

reset_admin : Bcrypt → ℕ → List ℕ → Result UserError User → Users → Option UserError × Users
reset_admin bc now password (ok u) t = set_user_password bc u.id password t
reset_admin bc now password (err e) t = error_of (create_user bc now admin_name password "admin" t)

-- Whether a generated password is needed, the error and the new table. An empty text is no password
-- and no hash.
unfoldable pub ensure_admin_user :
    Bcrypt → ℕ → List ℕ → List ℕ → Users → Bool × Option UserError × Users
unfolding reset_admin error_of
ensure_admin_user bc now explicit_password legacy_hash t =
    if not (nat_beq (length explicit_password) 0)
    then (let (e, t') = reset_admin bc now explicit_password (user_by_name admin_name t) t in
        (false, e, t'))
    else if ltb 0 (admin_count t)
    then (false, none, t)
    else if not (nat_beq (length legacy_hash) 0)
    then (let (e, t') = error_of (create_user_with_hash now admin_name legacy_hash "admin" t) in
        (false, e, t'))
    else (true, none, t)
