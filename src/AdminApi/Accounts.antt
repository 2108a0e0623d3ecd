-- ===== src/AdminApi/Accounts.antt =====
-- The accounts' handlers: what each does to the number of enabled admins.
use over_mesh.Common.{
  ℕ, ◌+◌, ◌≤◌, ◌<◌, ◌≡◌, inl, inr, refl, Bool, true, false, not, ◌&&◌, ◌||◌, String, str_eq, List,
  Option, none, some, ltb, leb, length, find, count, has_key, flag, KeysDiffer, KeysDiffer-update,
  count-update, count-delete, find-update, All, KeysDiffer-select, below-update, below-select,
  arith, Bool-cases, Option-cases,
}
use over_mesh.Store.Users.{
  User, UserRow, Users, UserError, Bcrypt, user_by_id, set_user_role, set_user_disabled,
  set_user_password, delete_user, admin_count, row_id, is_admin, update_row, with_role,
  with_disabled, with_hash,
}
use over_mesh.AdminApi.{
  Api, PathId, not_a_number, negative, number, Change, change_role, change_disabled,
  change_password, and_then, after_set, after_delete, answer_state, takes_admin, disables, demoting,
  apply_change, handle_update_user, handle_delete_user,
}

-- During a change of the account `id`: its row is there, an enabled admin is there, and when the
-- change may take the account's own rights (`b`), another enabled admin is there.
record Guarded (b : Bool) (id : ℕ) (t : Users) : Type 0 where
  row : UserRow
  keys : KeysDiffer row_id t.rows
  low : All (λ r. row_id r < t.next_id) t.rows
  here : find (has_key row_id id) t.rows ≡ some row
  left : 1 ≤ count is_admin t.rows
  others : b ≡ true → 1 + flag (is_admin row) ≤ count is_admin t.rows

update-Guarded :
    (b : Bool) (id : ℕ) (f : UserRow → UserRow) (t : Users)
    → ((r : UserRow) → row_id (f r) ≡ row_id r)
    → (b ≡ false → (r : UserRow) → flag (is_admin r) ≤ flag (is_admin (f r)))
    → Guarded b id t
    → Guarded b id (update_row id f t)
update-Guarded b id f t same keeps g =
    let total = count-update row_id is_admin id f t.rows {t = g.row} g.keys g.here in
    record {
      row = f g.row;
      keys = KeysDiffer-update row_id id f t.rows same g.keys;
      low = below-update row_id t.next_id id f t.rows same g.low;
      here = find-update row_id id f t.rows {t = g.row} same g.here;
      left = elim (Bool-cases b) [
        | inl e ↦ omega (arith, total, g.others e)
        | inr e ↦ omega (arith, total, g.left, keeps e g.row)
      ];
      others = λ e. omega (arith, total, g.others e);
    }

set_user_role-Guarded :
    (b : Bool) (id : ℕ) (role : String) (t : Users)
    → (b ≡ false → str_eq role "admin" ≡ true)
    → Guarded b id t
    → Guarded b id (set_user_role id role t).1
unfolding set_user_role
set_user_role-Guarded b id role t ok_role g =
    elim (Bool-cases (str_eq role "admin" || str_eq role "member")) [
      | inl e ↦
          rw e (
            update-Guarded b id (with_role role) t (λ r. refl) (λ n r. ground (arith, ok_role n)) g)
      | inr e ↦ rw e g
    ]

set_user_disabled-Guarded :
    (b : Bool) (id : ℕ) (d : Bool) (t : Users)
    → (b ≡ false → d ≡ false)
    → Guarded b id t
    → Guarded b id (set_user_disabled id d t).1
unfolding set_user_disabled
set_user_disabled-Guarded b id d t ok_d g =
    update-Guarded b id (with_disabled d) t (λ r. refl) (λ n r. ground (arith, ok_d n)) g

set_user_password-Guarded :
    (b : Bool) (bc : Bcrypt) (id : ℕ) (p : List ℕ) (t : Users)
    → Guarded b id t
    → Guarded b id (set_user_password bc id p t).1
unfolding set_user_password
set_user_password-Guarded b bc id p t g = elim (Bool-cases (ltb (length p) 8)) [
  | inl e ↦ rw e g
  | inr e ↦ elim (Option-cases (bc.generate p)) [
    | inl f ↦ rw (e, f) g
    | inr (h, f) ↦
        rw (e, f) (update-Guarded b id (with_hash h) t (λ r. refl) (λ n r. omega arith) g)
  ]
]

after_set_users :
    (actor : List ℕ) (action : String) (target : List ℕ) (detail : String)
    (r : Option UserError × Users) (s : Api)
    → (after_set actor action target detail r s).1.users ≡ r.1
after_set_users actor action target detail (none, t) s = refl
after_set_users actor action target detail (some e, t) s = refl

change_role-Guarded :
    (b : Bool) (actor : List ℕ) (target : User) (id : ℕ) (role : Option String) (s : Api)
    → (b ≡ false → takes_admin role ≡ false)
    → Guarded b id s.users
    → Guarded b id (change_role actor target id role s).1.users
change_role-Guarded b actor target id none s keeps g = g
change_role-Guarded b actor target id (some role) s keeps g =
    rw (after_set_users actor "user.role" target.username _ (set_user_role id role s.users) s)
      (set_user_role-Guarded b id role s.users (λ n. ground (arith, keeps n)) g)

change_disabled-Guarded :
    (b : Bool) (actor : List ℕ) (target : User) (id : ℕ) (d : Option Bool) (s : Api)
    → (b ≡ false → disables d ≡ false)
    → Guarded b id s.users
    → Guarded b id (change_disabled actor target id d s).1.users
change_disabled-Guarded b actor target id none s keeps g = g
change_disabled-Guarded b actor target id (some d) s keeps g =
    rw (after_set_users actor _ target.username "" (set_user_disabled id d s.users) s)
      (set_user_disabled-Guarded b id d s.users keeps g)

change_password-Guarded :
    (b : Bool) (bc : Bcrypt) (actor : List ℕ) (target : User) (id : ℕ) (p : Option (List ℕ))
    (s : Api)
    → Guarded b id s.users
    → Guarded b id (change_password bc actor target id p s).1.users
change_password-Guarded b bc actor target id none s g = g
change_password-Guarded b bc actor target id (some p) s g =
    rw
      (after_set_users actor "user.password-reset" target.username ""
        (set_user_password bc id p s.users) s)
      (set_user_password-Guarded b bc id p s.users g)

and_then-Guarded :
    (b : Bool) (id : ℕ) (r : Bool × Api) (next : Api → Bool × Api)
    → Guarded b id r.1.users
    → ((s : Api) → Guarded b id s.users → Guarded b id (next s).1.users)
    → Guarded b id (and_then r next).1.users
and_then-Guarded b id (true, s) next g step = step s g
and_then-Guarded b id (false, s) next g step = g

apply_change-Guarded :
    (bc : Bcrypt) (actor : List ℕ) (target : User) (id : ℕ) (req : Change) (s : Api)
    → Guarded (demoting req) id s.users
    → Guarded (demoting req) id (apply_change bc actor target id req s).1.users
unfolding apply_change
apply_change-Guarded bc actor target id req s g =
    let b = demoting req in
    let r1 = change_role actor target id req.role s in
    let g1 : Guarded b id r1.1.users =
      change_role-Guarded b actor target id req.role s (λ e. ground arith) g in
    let g2 : Guarded b id (and_then r1 (change_disabled actor target id req.disabled)).1.users =
      and_then-Guarded b id r1 (change_disabled actor target id req.disabled) g1
        (λ u h. change_disabled-Guarded b actor target id req.disabled u (λ e. ground arith) h) in
    and_then-Guarded b id _ (change_password bc actor target id req.password) g2
      (λ u h. change_password-Guarded b bc actor target id req.password u h)

-- The rows' numbers differ and are below the next one, and an enabled admin is there.
pub record HasAdmin (t : Users) : Type 0 where
  pub keys : KeysDiffer row_id t.rows
  pub low : All (λ r. row_id r < t.next_id) t.rows
  pub some_admin : 1 ≤ admin_count t

-- What the guard of the handler gives, once it has let the request through.
guard-Guarded :
    (id : ℕ) (req : Change) (t : Users) (r : UserRow)
    → HasAdmin t
    → find (has_key row_id id) t.rows ≡ some r
    → (str_eq r.role "admin" && demoting req && leb (admin_count t) 1) ≡ false
    → Guarded (demoting req) id t
unfolding admin_count
guard-Guarded id req t r h e guard = record {
  row = r;
  keys = h.keys;
  low = h.low;
  here = e;
  left = h.some_admin;
  others = λ d. ground (arith, h.some_admin);
}

-- An account's change leaves an enabled admin, whatever the request asks for and wherever it stops.
pub handle_update_user-HasAdmin :
    (bc : Bcrypt) (id : PathId) (body : Option Change) (actor : User) (s : Api)
    → HasAdmin s.users
    → HasAdmin (handle_update_user bc id body actor s).1.users
unfolding handle_update_user user_by_id admin_count
handle_update_user-HasAdmin bc not_a_number body actor s h = h
handle_update_user-HasAdmin bc negative none actor s h = h
handle_update_user-HasAdmin bc negative (some req) actor s h = h
handle_update_user-HasAdmin bc (number id) none actor s h = h
handle_update_user-HasAdmin bc (number id) (some req) actor s h =
    elim (Option-cases (find (has_key row_id id) s.users.rows)) [
      | inl e ↦ rw e h
      | inr (r, e) ↦
          elim (Bool-cases (str_eq r.role "admin" && demoting req && leb (admin_count s.users) 1)) [
            | inl c ↦ rw (e, c) h
            | inr c ↦
                let g =
                  apply_change-Guarded bc actor.username r.user id req s
                    (guard-Guarded id req s.users r h e c) in
                rw (e, c, answer_state (apply_change bc actor.username r.user id req s))
                  (record { keys = g.keys; low = g.low; some_admin = g.left })
          ]
    ]

after_delete_users :
    (actor : List ℕ) (target : User) (r : Option UserError × Users) (s : Api)
    → (after_delete actor target r s).1.users ≡ r.1
after_delete_users actor target (none, t) s = refl
after_delete_users actor target (some e, t) s = refl

-- Without the row, an enabled admin is left when the row is no admin's or two were there.
removed_row :
    (id : ℕ) (t : Users) (r : UserRow)
    → HasAdmin t
    → find (has_key row_id id) t.rows ≡ some r
    → (str_eq r.role "admin" ≡ true → leb (admin_count t) 1 ≡ false)
    → HasAdmin (delete_user id t).1
unfolding delete_user admin_count
removed_row id t r h e guard = record {
  keys = KeysDiffer-select row_id (λ q. not (has_key row_id id q)) t.rows h.keys;
  low = below-select row_id t.next_id (λ q. not (has_key row_id id q)) t.rows h.low;
  some_admin =
      ground (arith, h.some_admin, guard, count-delete row_id is_admin id t.rows {t = r} h.keys e);
}

-- Deleting an account leaves an enabled admin.
pub handle_delete_user-HasAdmin :
    (id : PathId) (actor : User) (s : Api)
    → HasAdmin s.users
    → HasAdmin (handle_delete_user id actor s).1.users
unfolding handle_delete_user user_by_id delete_user admin_count
handle_delete_user-HasAdmin not_a_number actor s h = h
handle_delete_user-HasAdmin negative actor s h = h
handle_delete_user-HasAdmin (number id) actor s h =
    elim (Option-cases (find (has_key row_id id) s.users.rows)) [
      | inl e ↦ rw e h
      | inr (r, e) ↦ elim (Bool-cases (str_eq r.role "admin" && leb (admin_count s.users) 1)) [
        | inl c ↦ rw (e, c) h
        | inr c ↦
            rw (e, c, after_delete_users actor.username r.user (delete_user id s.users) s)
              (removed_row id s.users r h e (λ a. ground (arith, c)))
      ]
    ]
