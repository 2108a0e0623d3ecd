-- ===== src/Ipam/V6.antt =====
-- `AllocateV6For`: the address of a node, from the node's number.
use native.Mathlib.Nat.{mul-div_left, mul_assoc}
use over_mesh.Common.{
  ℕ, zero, suc, ◌+◌, ◌-◌, ◌*◌, ◌/◌, ◌%◌, ◌^◌, ◌≤◌, ◌<◌, ◌≡◌, ◌≢◌, ap, sym, ◌∙◌, true, arith, ok,
}
use over_mesh.Net.{v6, prefix_contains, pow_pos, pow_add, same_block_iff}
use over_mesh.Ipam.{Allocator, byte_length, copy_low, allocate_v6_for}

-- The IPv6 prefix is `c * 2 ^ (128 - n)`/`n`, with no bit set below the first `n`.
pub record HasV6 (c n : ℕ) (a : Allocator) : Type 0 where
  pub prefix_is : a.v6_prefix ≡ record { addr = v6 (c * 2 ^ (128 - n)); bits = n }
  pub width : n ≤ 128

byte_length-le : (fuel n : ℕ) → byte_length fuel n ≤ fuel
unfolding byte_length
byte_length-le zero n = omega arith
byte_length-le (suc fuel) n = ground (arith, byte_length-le fuel (n / 256))

-- The bytes that are overwritten are zero in a base that is a multiple of `2 ^ h`.
copy_low_aligned : (c h k id : ℕ) → 8 * k ≤ h → copy_low (c * 2 ^ h) k id ≡ c * 2 ^ h + id
unfolding copy_low
copy_low_aligned c h k id fits =
    let split : h ≡ (h - 8 * k) + 8 * k = omega arith in
    let e : c * 2 ^ h ≡ c * 2 ^ (h - 8 * k) * 2 ^ (8 * k) =
      ap (λ (t : ℕ). c * 2 ^ t) split
      ∙ ap (λ (t : ℕ). c * t) (pow_add (h - 8 * k) (8 * k))
      ∙ sym (mul_assoc c (2 ^ (h - 8 * k)) (2 ^ (8 * k))) in
    rw (e, mul-div_left (c * 2 ^ (h - 8 * k)) (pow_pos (8 * k)))

prefix_contains_v6 :
    (c n id : ℕ)
    → n ≤ 128
    → id < 2 ^ (128 - n)
    → prefix_contains
        (record { addr = v6 (c * 2 ^ (128 - n)); bits = n })
        (v6 (c * 2 ^ (128 - n) + id))
      ≡ true
prefix_contains_v6 c n id width small =
    ground (arith, same_block_iff (c * 2 ^ (128 - n) + id) c (128 - n))

id_fits : (n id : ℕ) → n ≤ 64 → id < 2 ^ 64 → id < 2 ^ (128 - n)
id_fits n id short small =
    let split : 128 - n ≡ 64 - n + 64 = omega arith in
    rw (split, pow_add) (omega (arith, pow_pos (64 - n)))

-- In a prefix of at most 64 bits every node number from 1 to 2^64 - 1 gets the prefix's first
-- address plus that number.
allocate_v6_for_lem :
    {c n : ℕ} {a : Allocator} (id : ℕ)
    → HasV6 c n a
    → n ≤ 64
    → 0 < id
    → id < 2 ^ 64
    → allocate_v6_for a id ≡ ok (v6 (c * 2 ^ (128 - n) + id))
unfolding allocate_v6_for
allocate_v6_for_lem {c} {n} {a} id has short pos small =
    simp
      (
        has.prefix_is,
        copy_low_aligned c (128 - n) (byte_length 8 id) id (omega (arith, byte_length-le 8 id)),
        prefix_contains_v6 c n id has.width (id_fits n id short small),
      )
      (ground arith)

-- In a prefix of at most 64 bits, different node numbers get different addresses.
pub allocate_v6_for-injective :
    {c n : ℕ} {a : Allocator} (id id' : ℕ)
    → HasV6 c n a
    → n ≤ 64
    → 0 < id
    → id < 2 ^ 64
    → 0 < id'
    → id' < 2 ^ 64
    → id ≢ id'
    → allocate_v6_for a id ≢ allocate_v6_for a id'
allocate_v6_for-injective id id' has short pos small pos' small' ne =
    rw (allocate_v6_for_lem id has short pos small, allocate_v6_for_lem id' has short pos' small')
      (λ same. ne (ground arith))

-- In a prefix of 112 bits whose last byte is not zero, a node number of two bytes and the number
-- with that byte in front of it get the same address.
pub allocate_v6_for_collides :
    {c : ℕ} {a : Allocator} (id : ℕ)
    → HasV6 c 112 a
    → 0 < c % 256
    → 256 ≤ id
    → id < 2 ^ 16
    → (allocate_v6_for a id ≡ ok (v6 (c * 2 ^ 16 + id)))
      × (allocate_v6_for a (c % 256 * 2 ^ 16 + id) ≡ ok (v6 (c * 2 ^ 16 + id)))
unfolding allocate_v6_for byte_length copy_low
allocate_v6_for_collides {c} {a} id has byte lo hi =
    (simp has.prefix_is (ground arith), simp has.prefix_is (ground arith))
