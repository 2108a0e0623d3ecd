-- ===== src/AdminApi/Lockout.antt =====
-- The guard on the last admin reads the count and changes the account in separate statements.
use over_mesh.Common.{
  ℕ, ◌+◌, ◌≤◌, ◌≡◌, ◌≢◌, refl, Bool, true, false, ◌&&◌, str_eq, List, [], ◌∷◌, none, some, leb,
  nat_beq, find, has_key, KeysDiffer, KeysDiffer-update, count, count-update, find-update_other,
  flag, arith,
}
use over_mesh.Store.Users.{
  User, UserRow, Users, Bcrypt, row_id, is_admin, admin_count, with_role, set_user_role, update_row,
  user_by_id,
}
use over_mesh.AdminApi.{
  Api, done, Change, answer, demoting, apply_change, handle_update_user, number,
}

-- A request that makes an account a member.
abbrev pub demotion : Change
demotion = record { role = some "member"; disabled = none; password = none }

answer-true : (r : Bool × Api) → r.0 ≡ true → (answer r).0 ≡ done
answer-true (true, s) e = refl
answer-true (false, s) e = cc

found-affected :
    (id : ℕ) (rows : List UserRow) {r : UserRow}
    → find (has_key row_id id) rows ≡ some r
    → 1 ≤ count (has_key row_id id) rows
found-affected id [] e = cc
found-affected id (x ∷ rows) {r} e = ground (arith, found-affected id rows {r = r})

-- The change of an account that is there succeeds and is the UPDATE.
apply_change-demotion :
    (bc : Bcrypt) (actor : List ℕ) (target : User) (id : ℕ) (s : Api) {r : UserRow}
    → find (has_key row_id id) s.users.rows ≡ some r
    → ((apply_change bc actor target id demotion s).0 ≡ true)
      × ((apply_change bc actor target id demotion s).1.users
          ≡ update_row id (with_role "member") s.users)
unfolding apply_change set_user_role
apply_change-demotion bc actor target id s {r} e =
    let n : nat_beq (count (has_key row_id id) s.users.rows) 0 ≡ false =
      ground (arith, found-affected id s.users.rows {r = r} e) in
    rw n (refl, refl)

demotion_passes :
    (bc : Bcrypt) (id : ℕ) (actor : User) (s : Api) (r : UserRow)
    → find (has_key row_id id) s.users.rows ≡ some r
    → admin_count s.users ≡ 2
    → (handle_update_user bc (number id) (some demotion) actor s).0 ≡ done
unfolding handle_update_user user_by_id
demotion_passes bc id actor s r e two =
    let guard : (str_eq r.role "admin" && demoting demotion && leb (admin_count s.users) 1)
        ≡ false =
      rw two (ground arith) in
    let c = (apply_change-demotion bc actor.username r.user id s {r = r} e).0 in
    rw (e, guard) (answer-true (apply_change bc actor.username r.user id demotion s) c)

demoted_count :
    (id : ℕ) (t : Users) (r : UserRow)
    → KeysDiffer row_id t.rows
    → find (has_key row_id id) t.rows ≡ some r
    → is_admin r ≡ true
    → admin_count (update_row id (with_role "member") t) + 1 ≡ admin_count t
unfolding admin_count
demoted_count id t r keys e a =
    let c = count-update row_id is_admin id (with_role "member") t.rows {t = r} keys e in
    let one : flag (is_admin r) ≡ 1 = rw a refl in omega (arith, c, one)

-- Two demotions of different admins whose guards both read the table before either writes: each is
-- let through, and when the two were the only admins, none is left.
pub demotions_interleaved :
    (bc : Bcrypt) (i j : ℕ) (actor : User) (s : Api) (r q : UserRow)
    → KeysDiffer row_id s.users.rows
    → find (has_key row_id i) s.users.rows ≡ some r
    → find (has_key row_id j) s.users.rows ≡ some q
    → i ≢ j
    → is_admin r ≡ true
    → is_admin q ≡ true
    → admin_count s.users ≡ 2
    → (handle_update_user bc (number i) (some demotion) actor s).0 ≡ done
      × (handle_update_user bc (number j) (some demotion) actor s).0 ≡ done
      × admin_count
          (apply_change bc actor.username q.user j demotion
            (apply_change bc actor.username r.user i demotion s).1).1.users
        ≡ 0
demotions_interleaved bc i j actor s r q keys here there ne ar aq two =
    let t1 = update_row i (with_role "member") s.users in
    let s1 = (apply_change bc actor.username r.user i demotion s).1 in
    let e1 : s1.users ≡ t1 = (apply_change-demotion bc actor.username r.user i s {r = r} here).1 in
    let there1 : find (has_key row_id j) t1.rows ≡ some q =
      find-update_other row_id i j (with_role "member") s.users.rows {t = q} ne (λ x. refl) there in
    let there2 : find (has_key row_id j) s1.users.rows ≡ some q = rw e1 there1 in
    let e2 = (apply_change-demotion bc actor.username q.user j s1 {r = q} there2).1 in
    let c1 = demoted_count i s.users r keys here ar in
    let c2 =
      demoted_count j t1 q
        (KeysDiffer-update row_id i (with_role "member") s.users.rows (λ x. refl) keys) there1 aq in
    (
      demotion_passes bc i actor s r here two,
      demotion_passes bc j actor s q there two,
      rw (e2, e1) (omega (arith, c1, c2, two)),
    )
