-- ===== src/Tests/Addresses.antt =====
-- The allocator over the prefix 0.0.0.4/30, whose usable addresses are 5 and 6.
use over_mesh.Common.{ℕ, ◌+◌, ◌*◌, ◌^◌, ◌≡◌, ◌≢◌, refl, arith, ok, List, [], ◌∷◌}
use over_mesh.Net.{v4, v6, addr_eq, Addr, Prefix}
use over_mesh.Ipam.{Allocator, allocate_v4, allocate_v6_for}
use over_mesh.Ipam.Allocate.{IsValid, IsUsable, IsFull, Outcome, allocate_v4-Outcome}
use over_mesh.Ipam.V6.{HasV6, allocate_v6_for-injective, allocate_v6_for_collides}

abbrev ula : Prefix
ula = record { addr = v6 (0xfdab3f190000 * 2 ^ 80); bits = 48 }

abbrev small : List Addr → ℕ → Allocator
small used next = record {
  v4_prefix = record { addr = v4 4; bits = 30 };
  v6_prefix = ula;
  used = used;
  next = v4 next;
}

abbrev small_at_5 : IsValid (small [] 5)
small_at_5 = record {
  b = 1;
  h = 2;
  n = 5;
  at = record {
    prefix_is = refl;
    fits = omega arith;
    width = omega arith;
    roomy = omega arith;
    next_is = refl;
    above = omega arith;
    below = omega arith;
  };
}

abbrev small_full : IsValid (small (v4 5 ∷ v4 6 ∷ []) 6)
small_full = record {
  b = 1;
  h = 2;
  n = 6;
  at = record {
    prefix_is = refl;
    fits = omega arith;
    width = omega arith;
    roomy = omega arith;
    next_is = refl;
    above = omega arith;
    below = omega arith;
  };
}

small-IsFull : IsFull 1 2 (small (v4 5 ∷ v4 6 ∷ []) 6)
small-IsFull x u = ground arith

allocate_v4-Outcome_example : Outcome 1 2 (IsUsable 1 2) (small [] 5) (allocate_v4 (small [] 5))
allocate_v4-Outcome_example = allocate_v4-Outcome small_at_5

ula-HasV6 : HasV6 0xfdab3f190000 48 (small [] 5)
ula-HasV6 = record { prefix_is = refl; width = omega arith }

allocate_v6_for-injective_example :
    allocate_v6_for (small [] 5) 7 ≢ allocate_v6_for (small [] 5) 300
allocate_v6_for-injective_example =
    allocate_v6_for-injective 7 300 ula-HasV6 (omega arith) (omega arith) (omega arith)
      (omega arith) (omega arith) (omega arith)

-- A prefix of 112 bits that ends in the byte 1.
abbrev narrow : Allocator
narrow = record (small [] 5) { v6_prefix = record { addr = v6 (0xfd01 * 2 ^ 16); bits = 112 } }

narrow-HasV6 : HasV6 0xfd01 112 narrow
narrow-HasV6 = record { prefix_is = refl; width = omega arith }

allocate_v6_for_collides_example :
    (allocate_v6_for narrow 300 ≡ ok (v6 (0xfd01 * 2 ^ 16 + 300)))
    × (allocate_v6_for narrow (1 * 2 ^ 16 + 300) ≡ ok (v6 (0xfd01 * 2 ^ 16 + 300)))
allocate_v6_for_collides_example =
    allocate_v6_for_collides 300 narrow-HasV6 (omega arith) (omega arith) (omega arith)
