-- ===== src/Ipam/Fresh.antt =====
-- The methods of the allocator together: validity, and which addresses they give out.
use over_mesh.Common.{
  ℕ, ◌+◌, ◌-◌, ◌*◌, ◌/◌, ◌^◌, ◌≤◌, ◌<◌, ◌≡◌, ◌≢◌, refl, ap, ◌∙◌, false, ◌||◌, arith, contains,
  contains-remove, remove, ◌∷◌, [], List, map, Result, ok, err, Option, none, some,
}
use native.Mathlib.Nat.{div-mul-le_self, mul-le-mul_right}
use over_mesh.Net.{
  Addr, v4, v6, unmap, masked, next_addr, addr_eq, addr_beq_iff, pow_pos, pow_add, Prefix,
}
use over_mesh.Ipam.{Allocator, Error, new, mark_used, release, allocate_v4}
use over_mesh.Ipam.Range.{wrap_next}
use over_mesh.Ipam.Allocate.{four_le_pow, IsValid, IsUsable, IsFull, Outcome, allocate_v4-Outcome}

block_fits_at : (q k s : ℕ) → q * s < k * s → 2 ^ 32 ≡ k * s → 0 < s → q * s + s ≤ 2 ^ 32
block_fits_at q k s lt e pos =
    let k' : q + 1 ≤ k = grind arith in omega (arith, mul-le-mul_right s k', e)

-- A block of a prefix ends inside the 32-bit numbers.
block_fits :
    (x n : ℕ) → x < 2 ^ 32 → n ≤ 32 → x / 2 ^ (32 - n) * 2 ^ (32 - n) + 2 ^ (32 - n) ≤ 2 ^ 32
block_fits x n small h =
    let s = 2 ^ (32 - n) in
    let split : 32 ≡ n + (32 - n) = omega arith in
    let e : 2 ^ 32 ≡ 2 ^ n * s = ap (λ (t : ℕ). 2 ^ t) split ∙ pow_add n (32 - n) in
    block_fits_at (x / s) (2 ^ n) s (omega (arith, div-mul-le_self x s, e)) e (pow_pos (32 - n))

masked-IsValid :
    (x n : ℕ) (p : Prefix)
    → x < 2 ^ 32
    → n ≤ 30
    → IsValid (record {
      v4_prefix = masked (record { addr = v4 x; bits = n });
      v6_prefix = p;
      used = [];
      next = next_addr (masked (record { addr = v4 x; bits = n })).addr;
    })
masked-IsValid x n p small h =
    let bits_is : n ≡ 32 - (32 - n) = omega arith in
    let fits = block_fits x n small (omega arith) in
    let four = four_le_pow (32 - n) (omega arith) in
    record {
      b = x / 2 ^ (32 - n);
      h = 32 - n;
      n = x / 2 ^ (32 - n) * 2 ^ (32 - n) + 1;
      at = record {
        prefix_is =
            ap (λ (t : ℕ). record { addr = v4 (x / 2 ^ (32 - n) * 2 ^ (32 - n)); bits = t })
              bits_is;
        fits = fits;
        width = omega arith;
        roomy = omega arith;
        next_is = ground (arith, fits, four);
        above = omega arith;
        below = omega (arith, four);
      };
    }

-- What `New` returns on an IPv4 prefix of at most 30 bits, which it accepts, is valid.
pub new-IsValid :
    (x n y m : ℕ) {a : Allocator}
    → x < 2 ^ 32
    → new (some (record { addr = v4 x; bits = n })) (some (record { addr = v6 y; bits = m })) ≡ ok a
    → IsValid a
unfolding new
new-IsValid x n y m {a} small e =
    let p = masked (record { addr = v6 y; bits = m }) in
    let (few, is) = accepted in rw is (masked-IsValid x n p small few)
  where
    accepted :
        (n ≤ 30)
        × (a ≡ record {
          v4_prefix = masked (record { addr = v4 x; bits = n });
          v6_prefix = masked (record { addr = v6 y; bits = m });
          used = [];
          next = next_addr (masked (record { addr = v4 x; bits = n })).addr;
        })
    accepted = ground arith

used-IsValid : {a : Allocator} (used : List Addr) → IsValid a → IsValid (record a { used = used })
used-IsValid used v = record {
  b = v.b;
  h = v.h;
  n = v.n;
  at = record {
    prefix_is = v.at.prefix_is;
    fits = v.at.fits;
    width = v.at.width;
    roomy = v.at.roomy;
    next_is = v.at.next_is;
    above = v.at.above;
    below = v.at.below;
  };
}

next-IsValid :
    {a : Allocator} (used : List Addr) (m : ℕ) (v : IsValid a)
    → v.b * 2 ^ v.h < m
    → m < v.b * 2 ^ v.h + 2 ^ v.h
    → IsValid (record a { used = used; next = v4 m })
next-IsValid used m v lo hi = record {
  b = v.b;
  h = v.h;
  n = m;
  at = record {
    prefix_is = v.at.prefix_is;
    fits = v.at.fits;
    width = v.at.width;
    roomy = v.at.roomy;
    next_is = refl;
    above = lo;
    below = hi;
  };
}

pub mark_used-IsValid :
    (addrs : List Addr) {a : Allocator} → IsValid a → IsValid (mark_used addrs a)
unfolding mark_used
mark_used-IsValid [] v = v
mark_used-IsValid (ad ∷ addrs) v = mark_used-IsValid addrs (used-IsValid _ v)

pub release-IsValid : (addr : Addr) {a : Allocator} → IsValid a → IsValid (release addr a)
unfolding release
release-IsValid addr v = used-IsValid _ v

Outcome-IsValid :
    {a : Allocator} (v : IsValid a) (r : Result Error Addr) (a' : Allocator)
    → Outcome v.b v.h (IsUsable v.b v.h) a (some (r, a'))
    → IsValid a'
Outcome-IsValid v (ok c) a' (x, is, usable, free, rest) =
    rw rest (next-IsValid _ (wrap_next v.b v.h x) v (ground arith) (ground arith))
Outcome-IsValid v (err e) a' (m, is, all, rest, lo, hi) = rw rest (next-IsValid _ m v lo hi)

pub allocate_v4-IsValid :
    {a a' : Allocator} {r : Result Error Addr}
    → IsValid a
    → allocate_v4 a ≡ some (r, a')
    → IsValid a'
allocate_v4-IsValid {a} {a'} {r} v e = Outcome-IsValid v r a' (rw e at (allocate_v4-Outcome v))

-- What was marked is in use, and so is what was in use before, and nothing else.
pub mark_used-contains :
    (addrs : List Addr) (a : Allocator) (c : Addr)
    → contains (mark_used addrs a).used c ≡ (contains (map unmap addrs) c || contains a.used c)
unfolding mark_used
mark_used-contains [] a c = refl
mark_used-contains (ad ∷ addrs) a c =
    ground (arith, mark_used-contains addrs (record a { used = unmap ad ∷ a.used }) c)

-- An address that was recorded by `MarkUsed` is never handed out.
allocate_v4-mark_used :
    (addrs : List Addr) {a a' : Allocator} {c : Addr}
    → IsValid a
    → allocate_v4 (mark_used addrs a) ≡ some (ok c, a')
    → contains (map unmap addrs) c ≡ false
allocate_v4-mark_used addrs {a} {a'} {c} v e =
    let (x, is, usable, free, rest) = rw e at (allocate_v4-Outcome (mark_used-IsValid addrs v)) in
    ground (arith, mark_used-contains addrs a c)

-- Two allocations in a row return different addresses.
allocate_v4-allocate_v4 :
    {a a' a'' : Allocator} {c c' : Addr}
    → IsValid a
    → allocate_v4 a ≡ some (ok c, a')
    → allocate_v4 a' ≡ some (ok c', a'')
    → c ≢ c'
allocate_v4-allocate_v4 {a} {a'} {a''} {c} {c'} v e e' =
    let (x, is, usable, free, rest) = rw e at (allocate_v4-Outcome v) in
    let (x', is', usable', free', rest') =
      rw e' at (allocate_v4-Outcome (allocate_v4-IsValid v e)) in
    λ same. ground (arith, addr_beq_iff c c', rest, free')

Outcome-succeeds :
    (b h : ℕ) (a : Allocator) (x : ℕ) (o : Option (Result Error Addr × Allocator))
    → Outcome b h (IsUsable b h) a o
    → IsUsable b h x
    → contains a.used (v4 x) ≡ false
    → (c : Addr) × (a' : Allocator) × (o ≡ some (ok c, a'))
Outcome-succeeds b h a x none out usable free = absurd out
Outcome-succeeds b h a x (some (ok c, a')) out usable free = (c, a', refl)
Outcome-succeeds b h a x (some (err e, a')) out usable free = cc (out.2 x usable usable)

-- While a usable address is not in use, an allocation succeeds.
allocate_v4_succeeds :
    {a : Allocator} (v : IsValid a) (x : ℕ)
    → IsUsable v.b v.h x
    → contains a.used (v4 x) ≡ false
    → (c : Addr) × (a' : Allocator) × (allocate_v4 a ≡ some (ok c, a'))
allocate_v4_succeeds {a} v x usable free =
    Outcome-succeeds v.b v.h a x _ (allocate_v4-Outcome v) usable free

Outcome-release :
    (b h : ℕ) (a : Allocator) (x : ℕ) (o : Option (Result Error Addr × Allocator))
    → Outcome b h (IsUsable b h) (record a { used = remove a.used (v4 x) }) o
    → IsUsable b h x
    → IsFull b h a
    → (a' : Allocator) × (o ≡ some (ok (v4 x), a'))
Outcome-release b h a x none out usable full = absurd out
Outcome-release b h a x (some (ok c, a')) (y, is, u, free, rest) usable full =
    (a', ground (arith, full y u, contains-remove a.used (v4 x) (v4 y), free, is))
Outcome-release b h a x (some (err e, a')) out usable full =
    ground (arith, out.2 x usable usable, contains-remove a.used (v4 x) (v4 x))

-- In a full allocator, an allocation after the release of a usable address returns that address.
allocate_v4-release :
    {a : Allocator} (v : IsValid a) (x : ℕ)
    → IsUsable v.b v.h x
    → IsFull v.b v.h a
    → (a' : Allocator) × (allocate_v4 (release (v4 x) a) ≡ some (ok (v4 x), a'))
unfolding release release-IsValid used-IsValid
allocate_v4-release {a} v x usable full =
    Outcome-release v.b v.h a x _ (allocate_v4-Outcome (release-IsValid (v4 x) v)) usable full
