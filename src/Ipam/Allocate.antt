-- ===== src/Ipam/Allocate.antt =====
-- `AllocateV4`: what the loop returns, on the fuel that the prefix's size gives.
use native.Mathlib.Nat.{pow-suc}
use over_mesh.Common.{
  ℕ, zero, suc, ◌+◌, ◌-◌, ◌*◌, ◌^◌, ◌≤◌, ◌<◌, ◌≡◌, refl, true, false, ◌||◌, not, ◌&&◌, arith,
  nat_beq, if◌then◌else◌, Bool-cases, inl, inr, ◌⊎◌, contains, ◌∷◌, Result, ok, err, Option, none,
  some,
}
use over_mesh.Net.{Addr, v4, addr_eq, pow_pos}
use over_mesh.Ipam.{Allocator, Error, exhausted, allocate_loop, allocate_v4}
use over_mesh.Ipam.Range.{At, wrap_next, advance-At, is_reserved_v4-At}

-- Well formed: over a masked IPv4 prefix of at least four addresses, the next candidate inside it.
pub record IsValid (a : Allocator) : Type 0 where
  pub b : ℕ
  pub h : ℕ
  pub n : ℕ
  pub at : At b h n a

-- `x` is among the `d` candidates from `n` on, in a cycle of `k`.
abbrev pub Visited : ℕ → ℕ → ℕ → ℕ → Type 0
Visited k n d x = ((n ≤ x) × (x < n + d)) ⊎ (x + k < n + d)

-- The address `x` of the prefix is neither the network's nor the broadcast address.
abbrev pub IsUsable : ℕ → ℕ → ℕ → Type 0
IsUsable b h x = (b * 2 ^ h < x) × (x + 1 < b * 2 ^ h + 2 ^ h)

pub four_le_pow : (h : ℕ) → 2 ≤ h → 4 ≤ 2 ^ h
four_le_pow zero r = absurd (omega arith)
four_le_pow (suc zero) r = absurd (omega arith)
four_le_pow (suc (suc h)) r = omega (arith, pow_pos h, pow-suc 2 h, pow-suc 2 (suc h))

-- What the loop returns from `a`, when `Seen` are the candidates that it goes through.
abbrev pub Outcome :
    ℕ → ℕ → (ℕ → Type 0) → Allocator → Option (Result Error Addr × Allocator) → Type 0
Outcome b h Seen a none = ⊥
Outcome b h Seen a (some (ok c, a')) =
    (x : ℕ) × (c ≡ v4 x)
    × IsUsable b h x
    × (contains a.used c ≡ false)
    × (a' ≡ record a { used = c ∷ a.used; next = v4 (wrap_next b h x) })
Outcome b h Seen a (some (err e, a')) =
    (m : ℕ) × (e ≡ exhausted)
    × ((x : ℕ) → Seen x → IsUsable b h x → contains a.used (v4 x) ≡ true)
    × (a' ≡ record a { next = v4 m })
    × (b * 2 ^ h < m)
    × (m < b * 2 ^ h + 2 ^ h)

Visited-next :
    (b h n d x : ℕ)
    → b * 2 ^ h < n
    → n < b * 2 ^ h + 2 ^ h
    → 0 < d
    → IsUsable b h x
    → Visited (2 ^ h - 1) n d x
    → (x ≡ n) ⊎ Visited (2 ^ h - 1) (wrap_next b h n) (d - 1) x
Visited-next b h n d x lo hi pos usable seen = ground arith

module _ {b h n : ℕ} {a : Allocator} (at : At b h n a) where
  abbrev stepped : Allocator
  stepped = record a { next = v4 (wrap_next b h n) }

  allocate_loop_step :
      (fuel s : ℕ)
      → allocate_loop (suc fuel) (v4 s) a ≡ (
          if not (contains a.used (v4 n))
            && not (nat_beq n (b * 2 ^ h) || nat_beq (n + 1) (b * 2 ^ h + 2 ^ h))
          then some (ok (v4 n), record stepped { used = v4 n ∷ a.used })
          else if nat_beq (wrap_next b h n) s
          then some (err exhausted, stepped)
          else allocate_loop fuel (v4 s) stepped)
  unfolding allocate_loop
  allocate_loop_step fuel s = simp (at.next_is, advance-At at, is_reserved_v4-At at)

  At-stepped : At b h (wrap_next b h n) stepped
  At-stepped = record {
    prefix_is = at.prefix_is;
    fits = at.fits;
    width = at.width;
    roomy = at.roomy;
    next_is = refl;
    above = ground (arith, at.above);
    below = ground (arith, at.above, at.below, four_le_pow h at.roomy);
  }

  -- Where `n` is no free usable address, what the loop finds from the next candidate on is what it
  -- finds from `n` on.
  Outcome-skip :
      (d : ℕ) (o : Option (Result Error Addr × Allocator))
      → 0 < d
      → (IsUsable b h n → contains a.used (v4 n) ≡ true)
      → Outcome b h (Visited (2 ^ h - 1) (wrap_next b h n) (d - 1)) stepped o
      → Outcome b h (Visited (2 ^ h - 1) n d) a o
  Outcome-skip d none pos taken out = out
  Outcome-skip d (some (ok c, a')) pos taken out = out
  Outcome-skip d (some (err e, a')) pos taken (m, is, all, rest, lo, hi) = (
    m,
    is,
    (λ x seen usable. elim (Visited-next b h n d x at.above at.below pos usable seen) [
      | inl same ↦ rw same (taken (rw same at usable))
      | inr later ↦ all x later usable
    ]),
    rest,
    lo,
    hi,
  )

  -- Where `n` is not returned, the loop ends if it is back at `s`, and goes on otherwise.
  Outcome-next :
      (s d : ℕ) (o : Option (Result Error Addr × Allocator))
      → 0 < d
      → d + 1 ≤ 2 ^ h
      → (n + d ≡ s) ⊎ (n + d + 1 ≡ s + 2 ^ h)
      → b * 2 ^ h < s
      → s < b * 2 ^ h + 2 ^ h
      → (IsUsable b h n → contains a.used (v4 n) ≡ true)
      → (nat_beq (wrap_next b h n) s ≡ false
          → Outcome b h (Visited (2 ^ h - 1) (wrap_next b h n) (d - 1)) stepped o)
      → Outcome b h
          (Visited (2 ^ h - 1) n d)
          a
          (if nat_beq (wrap_next b h n) s then some (err exhausted, stepped) else o)
  Outcome-next s d o pos short dist lo hi taken later =
      Outcome-skip d _ pos taken (elim (Bool-cases (nat_beq (wrap_next b h n) s)) [
        | inl back ↦ rw back (
          wrap_next b h n,
          refl,
          (λ x seen u. absurd (ground (arith, at.above, at.below))),
          refl,
          At-stepped.above,
          At-stepped.below,
        )
        | inr on ↦ rw on (later on)
      ])

  distance_next :
      (s d : ℕ)
      → 0 < d
      → (n + d ≡ s) ⊎ (n + d + 1 ≡ s + 2 ^ h)
      → b * 2 ^ h < s
      → s < b * 2 ^ h + 2 ^ h
      → nat_beq (wrap_next b h n) s ≡ false
      → (0 < d - 1)
        × ((wrap_next b h n + (d - 1) ≡ s) ⊎ (wrap_next b h n + (d - 1) + 1 ≡ s + 2 ^ h))
  distance_next s d pos dist lo hi on = ground (arith, at.above, at.below)

allocate_loop-Outcome :
    (b h s fuel d n : ℕ) (a : Allocator) (at : At b h n a)
    → b * 2 ^ h < s
    → s < b * 2 ^ h + 2 ^ h
    → 0 < d
    → d ≤ fuel
    → d + 1 ≤ 2 ^ h
    → (n + d ≡ s) ⊎ (n + d + 1 ≡ s + 2 ^ h)
    → Outcome b h (Visited (2 ^ h - 1) n d) a (allocate_loop fuel (v4 s) a)
allocate_loop-Outcome b h s zero d n a at lo hi pos enough short dist = absurd (omega arith)
allocate_loop-Outcome b h s (suc fuel) d n a at lo hi pos enough short dist =
    let go = λ (taken : IsUsable b h n → contains a.used (v4 n) ≡ true).
      Outcome-next at s d (allocate_loop fuel (v4 s) (stepped at)) pos short dist lo hi taken (λ on.
        let (pos', dist') = distance_next at s d pos dist lo hi on in
        allocate_loop-Outcome b h s fuel (d - 1) (wrap_next b h n) (stepped at) (At-stepped at) lo
          hi pos' (omega arith) (omega arith) dist') in
    rw (allocate_loop_step at fuel s) (elim (Bool-cases (contains a.used (v4 n))) [
      | inl used ↦ rw used (go (λ _. used))
      | inr free ↦
          rw free
            (elim (Bool-cases (nat_beq n (b * 2 ^ h) || nat_beq (n + 1) (b * 2 ^ h + 2 ^ h))) [
              | inl reserved ↦ rw reserved (go (λ u. absurd (ground arith)))
              | inr usable ↦ rw usable (n, refl, ground (arith, at.above, at.below), free, refl)
            ])
    ])

-- Every usable address of the prefix is in use.
abbrev pub IsFull : ℕ → ℕ → Allocator → Type 0
IsFull b h a = (x : ℕ) → IsUsable b h x → contains a.used (v4 x) ≡ true

Outcome-Seen :
    (b h : ℕ) (Seen Seen' : ℕ → Type 0) (a : Allocator)
    → ((x : ℕ) → IsUsable b h x → Seen' x → Seen x)
    → (o : Option (Result Error Addr × Allocator)) → Outcome b h Seen a o
    → Outcome b h Seen' a o
Outcome-Seen b h Seen Seen' a sub none out = out
Outcome-Seen b h Seen Seen' a sub (some (ok c, a')) out = out
Outcome-Seen b h Seen Seen' a sub (some (err e, a')) (m, is, all, rest, lo, hi) =
    (m, is, (λ x seen usable. all x (sub x usable seen) usable), rest, lo, hi)

-- The whole cycle: from any candidate on, `2 ^ h - 1` steps see every usable address.
pub allocate_v4_cycle :
    (b h n : ℕ) (a : Allocator) (at : At b h n a) → Outcome b h (IsUsable b h) a (allocate_v4 a)
unfolding allocate_v4
allocate_v4_cycle b h n a at =
    let e : 32 - (32 - h) ≡ h = omega (arith, at.width) in
    let four = four_le_pow h at.roomy in
    simp (at.prefix_is, at.next_is, e)
      (Outcome-Seen b h (Visited (2 ^ h - 1) n (2 ^ h - 1)) (IsUsable b h) a
        (λ x u _. ground (arith, at.above, at.below)) _
        (allocate_loop-Outcome b h n (2 ^ h) (2 ^ h - 1) n a at at.above at.below
          (omega (arith, four)) (omega arith) (omega (arith, four)) (inr (omega (arith, four)))))

-- For a valid allocator the search ends. If it returns an address, that address is usable, was not
-- in use, and is the only one newly in use, and but for the next candidate nothing else changes. If
-- it reports exhaustion, every usable address of the prefix is in use, and but for the next
-- candidate nothing changes.
pub allocate_v4-Outcome :
    {a : Allocator} (v : IsValid a) → Outcome v.b v.h (IsUsable v.b v.h) a (allocate_v4 a)
allocate_v4-Outcome {a} v = allocate_v4_cycle v.b v.h v.n a v.at
