-- ===== src/Net.antt =====
-- The parts of Go's net/netip that the program computes with. An address is its number, with the
-- family that the number belongs to; zones are not modelled, since no overlay address has one.
use over_mesh.Common.{
  ℕ, ◌+◌, ◌-◌, ◌*◌, ◌/◌, ◌%◌, ◌^◌, ◌≤◌, ◌<◌, ◌≡◌, ◌↔◌, Bool, true, false, ◌&&◌, arith, leb, nat_beq,
  Comparable, if◌then◌else◌, zero, suc, ap, ◌≢◌, refl,
}
use native.Mathlib.Nat.{
  zero-add, pow-suc, div-mul-le_self, lt-div-mul-add, div-eq_of_lt-le, mul-div_left,
}

-- `no_addr` is the zero `netip.Addr`, which is not valid.
pub data Addr : Type 0 where
  no_addr : Addr
  v4 v6 : ℕ → Addr

abbrev pub addr_beq : Addr → Addr → Bool
addr_beq no_addr no_addr = true
addr_beq (v4 a) (v4 b) = nat_beq a b
addr_beq (v6 a) (v6 b) = nat_beq a b
addr_beq _ _ = false

pub addr_beq_iff : (a b : Addr) → (addr_beq a b ≡ true) ↔ (a ≡ b)
addr_beq_iff no_addr no_addr = ground arith
addr_beq_iff _ _ = ground arith

instance abbrev pub addr_eq : Comparable Addr
addr_eq = record { same = addr_beq; same_iff = addr_beq_iff }

-- `Addr.Is4`, `Addr.Is6`
abbrev pub is4 : Addr → Bool
is4 (v4 _) = true
is4 _ = false

abbrev pub is6 : Addr → Bool
is6 (v6 _) = true
is6 _ = false

-- `Addr.Is4In6`: the 96 bits above the IPv4 address are ::ffff:0:0.
abbrev pub is4_in6 : Addr → Bool
is4_in6 (v6 a) = nat_beq (a / 2 ^ 32) 0xffff
is4_in6 _ = false

-- `Addr.Unmap`
abbrev pub unmap : Addr → Addr
unmap (v6 a) = if nat_beq (a / 2 ^ 32) 0xffff then v4 (a % 2 ^ 32) else v6 a
unmap a = a

-- `Addr.Next`: the zero address past the last one.
abbrev pub next_addr : Addr → Addr
next_addr no_addr = no_addr
next_addr (v4 a) = if leb (2 ^ 32) (a + 1) then no_addr else v4 (a + 1)
next_addr (v6 a) = if leb (2 ^ 128) (a + 1) then no_addr else v6 (a + 1)

-- `netip.Prefix`, not the zero one.
pub record Prefix : Type 0 where
  pub addr : Addr
  pub bits : ℕ

-- The first number of the block of `2 ^ h` numbers that holds `a`.
abbrev pub block_start : ℕ → ℕ → ℕ
block_start a h = a / 2 ^ h * 2 ^ h

abbrev pub same_block : ℕ → ℕ → ℕ → Bool
same_block a b h = nat_beq (a / 2 ^ h) (b / 2 ^ h)

abbrev pub masked_addr : Addr → ℕ → Addr
masked_addr no_addr n = no_addr
masked_addr (v4 a) n = v4 (block_start a (32 - n))
masked_addr (v6 a) n = v6 (block_start a (128 - n))

-- `Prefix.Masked`
abbrev pub masked : Prefix → Prefix
masked p = record p { addr = masked_addr p.addr p.bits }

abbrev pub block_holds : Addr → ℕ → Addr → Bool
block_holds (v4 b) n (v4 a) = leb n 32 && same_block a b (32 - n)
block_holds (v6 b) n (v6 a) = leb n 128 && same_block a b (128 - n)
block_holds _ n _ = false

-- `Prefix.Contains`: the families are equal, and so are the first `bits` bits.
abbrev pub prefix_contains : Prefix → Addr → Bool
prefix_contains p a = block_holds p.addr p.bits a

-- The one address of a `/32` or a `/128`.
abbrev pub host_prefix : Addr → Prefix
host_prefix (v4 a) = record { addr = v4 a; bits = 32 }
host_prefix (v6 a) = record { addr = v6 a; bits = 128 }
host_prefix no_addr = record { addr = no_addr; bits = 0 }

pub pow_pos : (h : ℕ) → 0 < 2 ^ h
pow_pos zero = omega arith
pow_pos (suc h) = omega (arith, pow_pos h, pow-suc 2 h)

pub div_block : (a b s : ℕ) → 0 < s → (a / s ≡ b) ↔ ((b * s ≤ a) × (a < b * s + s))
div_block a b s h = (
  λ e. (
    omega (arith, div-mul-le_self a s, ap (λ (t : ℕ). t * s) e),
    omega (arith, lt-div-mul-add {a = a} h, ap (λ (t : ℕ). t * s) e),
  ),
  λ r. div-eq_of_lt-le s r.0 (omega (arith, r.1)),
)

-- A block of `2 ^ h` numbers holds the numbers from its start on, as many as its size.
pub same_block_iff :
    (a b h : ℕ) → (same_block a (b * 2 ^ h) h ≡ true) ↔ ((b * 2 ^ h ≤ a) × (a < b * 2 ^ h + 2 ^ h))
same_block_iff a b h = ground (arith, div_block a b (2 ^ h) (pow_pos h), mul-div_left b (pow_pos h))

-- A host prefix contains one address, its own.
pub host_prefix-contains :
    (a b : Addr) → a ≢ no_addr → prefix_contains (host_prefix a) b ≡ addr_beq a b
host_prefix-contains no_addr b h = absurd (h refl)
host_prefix-contains (v4 a) no_addr h = refl
host_prefix-contains (v4 a) (v4 b) h = ground arith
host_prefix-contains _ b h = ground arith

pub pow_add : (d h : ℕ) → 2 ^ (d + h) ≡ 2 ^ d * 2 ^ h
pow_add zero h = rw zero-add (omega arith)
pow_add (suc d) h =
    let e : suc d + h ≡ suc (d + h) = omega arith in
    rw (e, pow-suc, pow-suc, pow_add d h) (omega arith)
