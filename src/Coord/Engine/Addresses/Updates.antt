-- ===== src/Coord/Engine/Addresses/Updates.antt =====
-- How changes of one row keep names and addresses apart.
use over_mesh.Common.{
  ℕ, ◌<◌, ◌≡◌, ◌≢◌, ◌⊎◌, refl, sym, ap, ◌∙◌, true, List, nat_beq, nat_beq_iff, nat_eq, bytes_eq,
  if◌then◌else◌, All, All-both, All-update, Pairwise, Pairwise-update, update, has_key, contains,
  arith, Bool-cases, inl, inr,
}
use over_mesh.Net.{unmap, addr_eq}
use over_mesh.Ipam.{Allocator}
use over_mesh.Store.Nodes.{Node, Nodes, row_id, update_node}
use over_mesh.Coord.Engine.Addresses.{Apart, Apart-sym, Apart-Like, Like, Covers, IsSound}

-- A change of a row that keeps its number, network and address.
pub record Keeps (f : Node → Node) : Type 0 where
  pub id : (n : Node) → (f n).id ≡ n.id
  pub network : (n : Node) → (f n).network_id ≡ n.network_id
  pub ipv4 : (n : Node) → (f n).ipv4 ≡ n.ipv4

Covers-update :
    {f : Node → Node} (id network : ℕ) (a : Allocator) (rows : List Node)
    → Keeps f
    → Covers network a rows
    → Covers network a (update (has_key row_id id) f rows)
Covers-update {f} id network a rows keeps h =
    All-update (λ n. n.network_id ≡ network → contains a.used n.ipv4 ≡ true)
      (λ n. n.network_id ≡ network → contains a.used n.ipv4 ≡ true) (has_key row_id id) f rows
      (λ n g. elim (Bool-cases (nat_beq n.id id)) [
        | inl here ↦ rw (here, keeps.network n, keeps.ipv4 n) g
        | inr there ↦ rw there g
      ])
      h

-- A row of number `id` may change as `f` says if that keeps the rows apart.
pub update-IsSound :
    {t : Nodes} {ipams : List (ℕ × Allocator)} {f : Node → Node} (id : ℕ)
    → Keeps f
    → Pairwise Apart (update (has_key row_id id) f t.rows)
    → IsSound t ipams
    → IsSound (update_node id f t) ipams
update-IsSound {t} {ipams} {f} id keeps apart v = record {
  apart = apart;
  low =
      All-update (λ n. n.id < t.next_id) (λ n. n.id < t.next_id) (has_key row_id id) f t.rows
        (λ n g. elim (Bool-cases (nat_beq n.id id)) [
          | inl here ↦ rw (here, keeps.id n) g
          | inr there ↦ rw there g
        ])
        v.low;
  plain =
      All-update (λ n. unmap n.ipv4 ≡ n.ipv4) (λ n. unmap n.ipv4 ≡ n.ipv4) (has_key row_id id) f
        t.rows
        (λ n g. elim (Bool-cases (nat_beq n.id id)) [
          | inl here ↦ rw (here, keeps.ipv4 n) g
          | inr there ↦ rw there g
        ])
        v.plain;
  covers = λ network a e.
      let (valid, covered) = v.covers network a e in
      (valid, Covers-update id network a t.rows keeps covered);
}

-- A change that keeps the name, too, keeps the rows apart.
pub quiet-IsSound :
    {t : Nodes} {ipams : List (ℕ × Allocator)} {f : Node → Node} (id : ℕ)
    → Keeps f
    → ((n : Node) → (f n).hostname ≡ n.hostname)
    → IsSound t ipams
    → IsSound (update_node id f t) ipams
quiet-IsSound {t} {ipams} {f} id keeps name v =
    update-IsSound id keeps
      (Pairwise-update Apart (λ n. n.id < t.next_id) (has_key row_id id) f t.rows
        (λ n m _ _ a.
          Apart-Like n (if has_key row_id id n then f n else n) m
            (if has_key row_id id m then f m else m) (like n) (like m) a)
        v.low v.apart)
      v
  where
    like : (n : Node) → Like n (if has_key row_id id n then f n else n)
    like n = elim (Bool-cases (nat_beq n.id id)) [
      | inl here ↦
          rw here (sym (keeps.id n), sym (keeps.network n), sym (name n), sym (keeps.ipv4 n))
      | inr there ↦ rw there (refl, refl, refl, refl)
    ]

-- The row of a device may get a name that no other device of its network has.
pub rename-IsSound :
    {t : Nodes} {ipams : List (ℕ × Allocator)} {f : Node → Node} (n : Node) (name : List ℕ)
    → Keeps f
    → ((m : Node) → (f m).hostname ≡ name)
    → All (λ m. (m ≡ n) ⊎ Apart m n) t.rows
    → All (λ m. m.id ≢ n.id → m.network_id ≡ n.network_id → m.hostname ≢ name) t.rows
    → IsSound t ipams
    → IsSound (update_node n.id f t) ipams
rename-IsSound {t} {ipams} {f} n name keeps named only free v =
    update-IsSound n.id keeps
      (Pairwise-update Apart
        (λ m.
          ((m ≡ n) ⊎ Apart m n) × (m.id ≢ n.id → m.network_id ≡ n.network_id → m.hostname ≢ name))
        (has_key row_id n.id) f t.rows (λ x y p q a. changed x y p q a)
        (All-both (λ m. (m ≡ n) ⊎ Apart m n)
          (λ m. m.id ≢ n.id → m.network_id ≡ n.network_id → m.hostname ≢ name) t.rows only free)
        v.apart)
      v
  where
    Known : Node → Type 0
    Known m =
        ((m ≡ n) ⊎ Apart m n) × (m.id ≢ n.id → m.network_id ≡ n.network_id → m.hostname ≢ name)

    network_of : (m : Node) → Known m → m.id ≡ n.id → m.network_id ≡ n.network_id
    network_of m (inl same, free_m) e = ap (λ (x : Node). x.network_id) same
    network_of m (inr apart, free_m) e = absurd (apart.0 e)

    one : (x y : Node) → Known x → Known y → x.id ≡ n.id → y.id ≢ n.id → Apart x y → Apart (f x) y
    one x y p q is off a = (
      (λ e. a.0 (sym (keeps.id x) ∙ e)),
      (λ e.
          let net : x.network_id ≡ y.network_id = sym (keeps.network x) ∙ e ∙ refl in
          (
            (λ h. q.1 off (sym net ∙ network_of x p is) (sym h ∙ named x)),
            (λ h. (a.1 net).1 (sym (keeps.ipv4 x) ∙ h)),
          )),
    )

    changed :
        (x y : Node)
        → Known x
        → Known y
        → Apart x y
        → Apart
            (if has_key row_id n.id x then f x else x)
            (if has_key row_id n.id y then f y else y)
    changed x y p q a = elim (Bool-cases (nat_beq x.id n.id)) [
      | inl here ↦ elim (Bool-cases (nat_beq y.id n.id)) [
        | inl here' ↦
            absurd (a.0 ((nat_beq_iff x.id n.id).0 here ∙ sym ((nat_beq_iff y.id n.id).0 here')))
        | inr there' ↦
            rw (here, there')
              (one x y p q ((nat_beq_iff x.id n.id).0 here) (λ e. ground (arith, there', e)) a)
      ]
      | inr there ↦ elim (Bool-cases (nat_beq y.id n.id)) [
        | inl here' ↦
            rw (there, here')
              (Apart-sym (f y) x (
                one y x q p ((nat_beq_iff y.id n.id).0 here') (λ e. ground (arith, there, e))
                  (Apart-sym x y a)))
        | inr there' ↦ rw (there, there') a
      ]
    ]
