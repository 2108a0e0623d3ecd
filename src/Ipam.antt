-- ===== src/Ipam.antt =====
-- internal/ipam/ipam.go: the allocator of overlay addresses. A method that changes the allocator
-- returns the new one; the mutex makes each method one step.
mod Range
pub mod Allocate
pub mod Fresh
pub mod V6
use over_mesh.Common.{
  ℕ, zero, suc, ◌+◌, ◌-◌, ◌*◌, ◌/◌, ◌%◌, ◌^◌, Bool, true, not, ◌&&◌, ◌||◌, Option, none, some, List,
  [], ◌∷◌, Result, ok, err, ltb, ◌==◌, nat_eq, if◌then◌else◌, contains, remove,
}
use over_mesh.Net.{
  Addr, no_addr, v4, v6, addr_eq, is4, is6, is4_in6, unmap, next_addr, Prefix, masked,
  prefix_contains,
}

pub data Error : Type 0 where
  not_v4 not_v6 too_small exhausted zero_node_id overflows : Error

pub record Allocator : Type 0 where
  pub v4_prefix : Prefix
  pub v6_prefix : Prefix
  pub used : List Addr
  pub next : Addr

-- 100.96.0.0/11
abbrev pub default_v4_prefix : Prefix
default_v4_prefix = record { addr = v4 (100 * 2 ^ 24 + 96 * 2 ^ 16); bits = 11 }

-- fdab:3f19::/48
abbrev pub default_v6_prefix : Prefix
default_v6_prefix = record { addr = v6 (0xfdab3f19 * 2 ^ 96); bits = 48 }

-- `none` is the zero prefix, the only one for which `IsValid` fails.
abbrev pub or_default : Option Prefix → Prefix → Prefix
or_default none d = d
or_default (some p) d = p

new_over : Prefix → Prefix → Result Error Allocator
new_over p4 p6 =
    if not (is4 p4.addr)
    then err not_v4
    else if not (is6 p6.addr) || is4_in6 p6.addr
    then err not_v6
    else if ltb 30 p4.bits
    then err too_small
    else ok (record {
      v4_prefix = masked p4;
      v6_prefix = masked p6;
      used = [];
      next = next_addr (masked p4).addr;
    })

unfoldable pub new : Option Prefix → Option Prefix → Result Error Allocator
unfolding new_over
new p4 p6 = new_over (or_default p4 default_v4_prefix) (or_default p6 default_v6_prefix)

unfoldable pub mark_used : List Addr → Allocator → Allocator
mark_used [] a = a
mark_used (ad ∷ addrs) a = mark_used addrs (record a { used = unmap ad ∷ a.used })

-- `b[3-i/8] |= 1 << (i % 8)` on the four bytes of the number
pub set_bit : ℕ → ℕ → ℕ
set_bit b i = if (b / 2 ^ i) % 2 == 0 then b + 2 ^ i else b

pub set_bits : ℕ → ℕ → ℕ
set_bits zero b = b
set_bits (suc i) b = set_bit (set_bits i b) i

-- `As4` is called on IPv4 prefixes only.
abbrev last_in : Addr → ℕ → Addr
last_in (v4 b) host_bits = v4 (set_bits host_bits b)
last_in a host_bits = a

last_addr : Prefix → Addr
last_addr p = last_in p.addr (32 - p.bits)

pub advance : Allocator → Addr → Addr
advance a c =
    let n = next_addr c in
    if not (prefix_contains a.v4_prefix n) then next_addr a.v4_prefix.addr else n

pub is_reserved_v4 : Allocator → Addr → Bool
is_reserved_v4 a c = if c == a.v4_prefix.addr then true else c == last_addr a.v4_prefix

-- The loop of `AllocateV4`, on fuel: `none` means that the fuel ran out.
pub allocate_loop : ℕ → Addr → Allocator → Option (Result Error Addr × Allocator)
allocate_loop zero start a = none
allocate_loop (suc fuel) start a =
    let c = a.next in
    let stepped = record a { next = advance a c } in
    let rest = allocate_loop fuel start stepped in
    if not (contains a.used c) && not (is_reserved_v4 a c)
    then some (ok c, record stepped { used = c ∷ a.used })
    else if stepped.next == start
    then some (err exhausted, stepped)
    else rest

-- As much fuel as the prefix has addresses.
unfoldable pub allocate_v4 : Allocator → Option (Result Error Addr × Allocator)
unfolding allocate_loop advance is_reserved_v4 last_addr set_bits set_bit
allocate_v4 a = allocate_loop (2 ^ (32 - a.v4_prefix.bits)) a.next a

-- The number of bytes of `big.Int.Bytes` on a `uint64`: big-endian, with no leading zero.
pub byte_length : ℕ → ℕ → ℕ
byte_length zero n = 0
byte_length (suc fuel) n = let rest = byte_length fuel (n / 256) in if n == 0 then 0 else rest + 1

-- `copy(base[16-len(id):], id)` on the number of the sixteen bytes
pub copy_low : ℕ → ℕ → ℕ → ℕ
copy_low base len id = base / 2 ^ (8 * len) * 2 ^ (8 * len) + id

-- `As16` of an IPv6 address is its number.
abbrev as16 : Addr → ℕ
as16 (v6 a) = a
as16 (v4 a) = 0xffff * 2 ^ 32 + a
as16 no_addr = 0

unfoldable pub allocate_v6_for : Allocator → ℕ → Result Error Addr
allocate_v6_for a node_id =
    if node_id == 0
    then err zero_node_id
    else let addr = v6 (copy_low (as16 a.v6_prefix.addr) (byte_length 8 node_id) node_id) in
      if not (prefix_contains a.v6_prefix addr) then err overflows else ok addr

unfoldable pub release : Addr → Allocator → Allocator
release addr a = record a { used = remove a.used (unmap addr) }
