-- ===== src/Store/Acl.antt =====
-- internal/store/acl.go: the access rules. JSON columns are read as they were written.
use over_mesh.Common.{
  ℕ, ◌+◌, ◌≡◌, inl, inr, refl, ap, Bool, true, false, not, ◌||◌, String, str_eq, List, [], ◌∷◌,
  ◌++◌, leb, nat_beq, if◌then◌else◌, select, any, length, arith, Bool-cases, ◌≢◌,
}

pub record AclRule : Type 0 where
  pub id : ℕ
  pub action : String
  pub src_ids : List ℕ
  pub dst_ids : List ℕ
  pub protocol : String
  pub ports : List (List ℕ)

pub record AclRow : Type 0 where
  pub network_id : ℕ
  pub position : ℕ
  pub rule : AclRule

pub record AclTable : Type 0 where
  pub rows : List AclRow
  pub next_id : ℕ

abbrev pub in_network : ℕ → AclRow → Bool
in_network network r = nat_beq r.network_id network

-- `ORDER BY position`
abbrev pub put_row : AclRow → List AclRow → List AclRow
put_row r [] = r ∷ []
put_row r (q ∷ rows) =
    let rest = put_row r rows in if leb r.position q.position then r ∷ q ∷ rows else q ∷ rest

abbrev pub by_position : List AclRow → List AclRow
by_position [] = []
by_position (r ∷ rows) = put_row r (by_position rows)

abbrev rules_of : List AclRow → List AclRule
rules_of [] = []
rules_of (r ∷ rows) = r.rule ∷ rules_of rows

unfoldable pub acl : ℕ → AclTable → List AclRule
acl network t = rules_of (by_position (select (in_network network) t.rows))

abbrev pub is_action : String → Bool
is_action a = str_eq a "allow" || str_eq a "deny"

abbrev pub is_protocol : String → Bool
is_protocol p = str_eq p "" || str_eq p "tcp" || str_eq p "udp" || str_eq p "icmp"

-- The INSERTs, with the positions from `i` and the numbers from `next` on.
abbrev pub numbered : ℕ → ℕ → ℕ → List AclRule → List AclRow
numbered network i next [] = []
numbered network i next (r ∷ rules) =
    record { network_id = network; position = i; rule = record r { id = next } }
    ∷ numbered network (i + 1) (next + 1) rules

-- Whether the rules were accepted, and the table. The transaction commits all of it or nothing.
unfoldable pub set_acl : ℕ → List AclRule → AclTable → Bool × AclTable
set_acl network rules t =
    if any (λ r. not (is_action r.action) || not (is_protocol r.protocol)) rules
    then (false, t)
    else (
      true,
      record {
        rows =
            select (λ r. not (in_network network r)) t.rows ++ numbered network 0 t.next_id rules;
        next_id = t.next_id + length rules;
      },
    )

-- The rules with the numbers that the table gives them.
abbrev pub renumbered : ℕ → List AclRule → List AclRule
renumbered next [] = []
renumbered next (r ∷ rules) = record r { id = next } ∷ renumbered (next + 1) rules

by_position-numbered :
    (network i next : ℕ) (rules : List AclRule)
    → by_position (numbered network i next rules) ≡ numbered network i next rules
by_position-numbered network i next [] = refl
by_position-numbered network i next (r ∷ []) = refl
by_position-numbered network i next (r ∷ q ∷ rules) =
    rw (by_position-numbered network (i + 1) (next + 1) (q ∷ rules)) (ground arith)

rules_of-numbered :
    (network i next : ℕ) (rules : List AclRule)
    → rules_of (numbered network i next rules) ≡ renumbered next rules
rules_of-numbered network i next [] = refl
rules_of-numbered network i next (r ∷ rules) =
    ap (◌∷◌ (record r { id = next })) (rules_of-numbered network (i + 1) (next + 1) rules)

select-append :
    (p : AclRow → Bool) (xs ys : List AclRow) → select p (xs ++ ys) ≡ select p xs ++ select p ys
select-append p [] ys = refl
select-append p (x ∷ xs) ys = ground (arith, select-append p xs ys)

select-none :
    (network : ℕ) (xs : List AclRow)
    → select (in_network network) (select (λ r. not (in_network network r)) xs) ≡ []
select-none network [] = refl
select-none network (x ∷ xs) = ground (arith, select-none network xs)

select-other :
    (network other : ℕ) (xs : List AclRow)
    → other ≢ network
    → select (in_network other) (select (λ r. not (in_network network r)) xs)
      ≡ select (in_network other) xs
select-other network other [] ne = refl
select-other network other (x ∷ xs) ne = ground (arith, select-other network other xs ne)

select-numbered :
    (network i next : ℕ) (rules : List AclRule)
    → select (in_network network) (numbered network i next rules) ≡ numbered network i next rules
select-numbered network i next [] = refl
select-numbered network i next (r ∷ rules) =
    ground (arith, select-numbered network (i + 1) (next + 1) rules)

select-numbered_other :
    (network other i next : ℕ) (rules : List AclRule)
    → other ≢ network
    → select (in_network other) (numbered network i next rules) ≡ []
select-numbered_other network other i next [] ne = refl
select-numbered_other network other i next (r ∷ rules) ne =
    ground (arith, select-numbered_other network other (i + 1) (next + 1) rules ne)

append_nil : (xs : List AclRow) → xs ++ [] ≡ xs
append_nil [] = refl
append_nil (x ∷ xs) = ap (◌∷◌ x) (append_nil xs)

-- After a save the network's rules are the given ones, in their order and with new numbers, or what
-- they were when the save is refused. The other networks' rules stay either way.
pub acl-set_acl :
    (network other : ℕ) (rules : List AclRule) (t : AclTable)
    → other ≢ network
    → (acl network (set_acl network rules t).1
        ≡ (if (set_acl network rules t).0 then renumbered t.next_id rules else acl network t))
      × (acl other (set_acl network rules t).1 ≡ acl other t)
unfolding acl set_acl
acl-set_acl network other rules t ne =
    let new = numbered network 0 t.next_id rules in
    let old = select (λ r. not (in_network network r)) t.rows in
    elim (Bool-cases (any (λ r. not (is_action r.action) || not (is_protocol r.protocol)) rules)) [
      | inl e ↦ rw e (refl, refl)
      | inr e ↦
          rw
            (
              e,
              select-append (in_network network) old new,
              select-none network t.rows,
              select-numbered network 0 t.next_id rules,
              by_position-numbered network 0 t.next_id rules,
              select-append (in_network other) old new,
              select-other network other t.rows ne,
              select-numbered_other network other 0 t.next_id rules ne,
              append_nil (select (in_network other) t.rows),
            )
            (rules_of-numbered network 0 t.next_id rules, refl)
    ]
