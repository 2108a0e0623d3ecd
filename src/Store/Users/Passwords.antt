-- ===== src/Store/Users/Passwords.antt =====
-- A new account and the password check.
use over_mesh.Common.{
  Option, none, ap, not, if◌then◌else◌, ◌↔◌, ℕ, ◌≡◌, inl, inr, refl, Bool, true, false, String,
  List, [], ◌∷◌, ◌++◌, some, Result, ok, err, ltb, bytes_beq, bytes_beq_iff, length, any, find,
  Bool-cases, Option-cases, Result-cases, arith,
}
use over_mesh.Store.Users.{
  User, UserRow, Users, UserError, Bcrypt, normalize_username, is_role, insert_user, create_user,
  check_password, check_row, check_normalized, account_disabled, wrong_password,
}

find-append_new :
    (p : UserRow → Bool) (rows : List UserRow) (row : UserRow)
    → any p rows ≡ false
    → p row ≡ true
    → find p (rows ++ row ∷ []) ≡ some row
find-append_new p [] row none_yet here = rw here refl
find-append_new p (r ∷ rows) row none_yet here =
    let miss : p r ≡ false = ground (arith, none_yet) in
    let rest : any p rows ≡ false = ground (arith, none_yet) in
    rw miss (find-append_new p rows row rest here)

ok_same : {a b : User} → ◌≡◌ {A = Result UserError User} (ok a) (ok b) → a ≡ b
ok_same e = cc

not_ok : {x : UserError} {u : User} → ◌≡◌ {A = Result UserError User} (err x) (ok u) → ⊥
not_ok e = cc

-- The row of an account that was created is the one that its name is looked up to.
insert_user-found :
    (name hash : List ℕ) (role : String) (now : ℕ) (t : Users) (u : User)
    → (insert_user name hash role now t).0 ≡ ok u
    → find (λ r. bytes_beq r.username name) (insert_user name hash role now t).1.rows
        ≡ some (record { user = u; password_hash = hash })
      × (u.disabled ≡ false)
unfolding insert_user
insert_user-found name hash role now t u e =
    let new : User = record {
      id = t.next_id;
      username = name;
      role = role;
      disabled = false;
      created_at = now;
    } in
    elim (Bool-cases (any (λ r. bytes_beq r.username name) t.rows)) [
      | inl taken ↦ absurd (not_ok (rw taken at e))
      | inr free ↦
          let same : new ≡ u = ok_same (rw free at e) in
          let here : bytes_beq name name ≡ true = (bytes_beq_iff name name).1 refl in
          rw (free, ← same)
            (
              find-append_new (λ r. bytes_beq r.username name) t.rows
                  (record { user = new; password_hash = hash }) free here,
              refl,
            )
    ]

-- An account that was created, with a hash that its password is compared equal to, is the one that
-- the check of that name and password gives.
pub check_password-create_user :
    (bc : Bcrypt) (now : ℕ) (name password : List ℕ) (role : String) (t : Users) (u : User)
    → ((hash : List ℕ) → bc.generate password ≡ some hash → bc.compare hash password ≡ true)
    → (create_user bc now name password role t).0 ≡ ok u
    → check_password bc name password (create_user bc now name password role t).1 ≡ ok u
unfolding create_user check_password
check_password-create_user bc now name password role t u law e =
    elim (Result-cases (normalize_username name)) [
      | inr (x, f) ↦ absurd (not_ok (rw f at e))
      | inl (n, f) ↦ elim (Bool-cases (is_role role)) [
        | inr c ↦ absurd (not_ok (rw (f, c) at e))
        | inl c ↦ elim (Bool-cases (ltb (length password) 8)) [
          | inl d ↦ absurd (not_ok (rw (f, c, d) at e))
          | inr d ↦ elim (Option-cases (bc.generate password)) [
            | inl g ↦ absurd (not_ok (rw (f, c, d, g) at e))
            | inr (hash, g) ↦
                let made : (insert_user n hash role now t).0 ≡ ok u = rw (f, c, d, g) at e in
                let (row, enabled) = insert_user-found n hash role now t u made in
                rw (f, c, d, g, row, enabled, law hash g) refl
          ]
        ]
      ]
    ]

-- What a login asks of an account: its normalized name, that it is enabled, and its password.
pub record HasPassword (bc : Bcrypt) (name password : List ℕ) (t : Users) (u : User) : Type 0 where
  pub normal : List ℕ
  pub is_normal : normalize_username name ≡ ok normal
  pub row : UserRow
  pub found : find (λ r. bytes_beq r.username normal) t.rows ≡ some row
  pub enabled : row.disabled ≡ false
  pub matches : bc.compare row.password_hash password ≡ true
  pub whose : row.user ≡ u

row_answer-ok :
    (off right : Bool) (v u : User)
    → (if off then err account_disabled else if not right then err wrong_password else ok v) ≡ ok u
    → (off ≡ false) × (right ≡ true) × (v ≡ u)
row_answer-ok true right v u e = cc
row_answer-ok false false v u e = cc
row_answer-ok false true v u e = (refl, refl, cc)

ok-row_answer :
    (off right : Bool) (v u : User)
    → off ≡ false
    → right ≡ true
    → v ≡ u
    → (if off then err account_disabled else if not right then err wrong_password else ok v) ≡ ok u
ok-row_answer true right v u on r e = cc
ok-row_answer false false v u on r e = cc
ok-row_answer false true v u on r e = ap ok e

check_row-ok :
    (bc : Bcrypt) (password : List ℕ) (o : Option UserRow) {u : User}
    → check_row bc password o ≡ ok u
    → (r : UserRow) × (o ≡ some r)
      × (r.disabled ≡ false)
      × (bc.compare r.password_hash password ≡ true)
      × (r.user ≡ u)
unfolding check_row
check_row-ok bc password none e = cc
check_row-ok bc password (some r) {u} e =
    let (on, right, whose) =
      row_answer-ok r.disabled (bc.compare r.password_hash password) r.user u e in
    (r, refl, on, right, whose)

check_normalized-HasPassword :
    (bc : Bcrypt) (name password : List ℕ) (t : Users) {u : User} (r : Result UserError (List ℕ))
    → normalize_username name ≡ r
    → check_normalized bc password r t ≡ ok u
    → HasPassword bc name password t u
unfolding check_normalized
check_normalized-HasPassword bc name password t (err x) is e = cc
check_normalized-HasPassword bc name password t (ok normal) is e =
    let (row, found, on, right, whose) =
      check_row-ok bc password (find (λ r. bytes_beq r.username normal) t.rows) e in
    record {
      normal = normal;
      is_normal = is;
      row = row;
      found = found;
      enabled = on;
      matches = right;
      whose = whose;
    }

-- The check gives an account exactly when the account has the name and the password and is enabled.
pub check_password-HasPassword :
    (bc : Bcrypt) (name password : List ℕ) (t : Users) (u : User)
    → (check_password bc name password t ≡ ok u) ↔ HasPassword bc name password t u
unfolding check_password check_normalized check_row
check_password-HasPassword bc name password t u = (
  (λ e. check_normalized-HasPassword bc name password t (normalize_username name) refl e),
  (λ h.
      let passes =
        ok-row_answer h.row.disabled (bc.compare h.row.password_hash password) h.row.user u
          h.enabled h.matches h.whose in
      rw (h.is_normal, h.found) passes),
)
