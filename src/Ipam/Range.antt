-- ===== src/Ipam/Range.antt =====
-- Where the addresses of a masked IPv4 prefix lie, as numbers.
use native.Mathlib.Nat.{pow-suc}
use over_mesh.Common.{
  ℕ, zero, suc, ◌+◌, ◌-◌, ◌*◌, ◌^◌, ◌≤◌, ◌<◌, ◌≡◌, ◌↔◌, ap, true, ◌||◌, arith, nat_eq, nat_beq,
  if◌then◌else◌, ltb,
}
use over_mesh.Net.{v4, addr_eq, prefix_contains, pow_pos, div_block, same_block_iff}
use over_mesh.Ipam.{Allocator, set_bit, set_bits, last_addr, advance, is_reserved_v4}

-- Setting the low `n` bits of a multiple of `2 ^ n` adds `2 ^ n - 1`.
pub set_bits-masked : (n c : ℕ) → set_bits n (c * 2 ^ n) + 1 ≡ c * 2 ^ n + 2 ^ n
unfolding set_bits set_bit
set_bits-masked zero c = omega arith
set_bits-masked (suc n) c =
    let p = pow-suc 2 n in
    let regroup : c * 2 ^ suc n ≡ 2 * c * 2 ^ n = omega (arith, ap (λ (t : ℕ). c * t) p) in
    let low = set_bits-masked n (2 * c) in
    let top =
      (div_block (set_bits n (2 * c * 2 ^ n)) (2 * c) (2 ^ n) (pow_pos n)).1
        (omega (arith, low, pow_pos n), omega (arith, low, pow_pos n)) in
    rw regroup (ground arith)

-- The allocator over the prefix `b * 2 ^ h`/`32 - h`, with the next candidate at `n`.
pub record At (b h n : ℕ) (a : Allocator) : Type 0 where
  pub prefix_is : a.v4_prefix ≡ record { addr = v4 (b * 2 ^ h); bits = 32 - h }
  pub fits : b * 2 ^ h + 2 ^ h ≤ 2 ^ 32
  pub width : h ≤ 32
  pub roomy : 2 ≤ h
  pub next_is : a.next ≡ v4 n
  pub above : b * 2 ^ h < n
  pub below : n < b * 2 ^ h + 2 ^ h

-- The candidate after `n`: past the last address, the first one after the network address.
abbrev pub wrap_next : ℕ → ℕ → ℕ → ℕ
wrap_next b h n = if ltb (n + 1) (b * 2 ^ h + 2 ^ h) then n + 1 else b * 2 ^ h + 1

module _ {b h n : ℕ} {a : Allocator} (at : At b h n a) where
  pub prefix_contains-At :
      (x : ℕ)
      → (prefix_contains a.v4_prefix (v4 x) ≡ true) ↔ ((b * 2 ^ h ≤ x) × (x < b * 2 ^ h + 2 ^ h))
  prefix_contains-At x =
      let e : 32 - (32 - h) ≡ h = omega (arith, at.width) in
      rw at.prefix_is (rw e (ground (arith, same_block_iff x b h)))

  pub advance-At : advance a (v4 n) ≡ v4 (wrap_next b h n)
  unfolding advance
  advance-At = rw at.prefix_is (
      ground (
        arith,
        rw at.prefix_is at (prefix_contains-At (n + 1)),
        at.fits,
        at.above,
        at.below,
        pow_pos h,
      ))

  pub is_reserved_v4-At :
      (x : ℕ)
      → is_reserved_v4 a (v4 x) ≡ (nat_beq x (b * 2 ^ h) || nat_beq (x + 1) (b * 2 ^ h + 2 ^ h))
  unfolding is_reserved_v4 last_addr
  is_reserved_v4-At x =
      let e : 32 - (32 - h) ≡ h = omega (arith, at.width) in
      rw at.prefix_is (rw e (ground (arith, set_bits-masked h b)))
