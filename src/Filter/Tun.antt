-- ===== src/Filter/Tun.antt =====
-- internal/wgengine/filtertun.go: the filter in front of the device that packets are written to.
use over_mesh.Common.{
  ℕ, ◌+◌, ◌≡◌, refl, Bool, List, [], ◌∷◌, arith, nat_beq, if◌then◌else◌, length, drop, select,
  Option, some, none,
}
use over_mesh.Filter.{Filter, allows_packet}

-- The filter's test of a buffer whose packet starts at `offset`.
abbrev pub passes : Filter → ℕ → List ℕ → Bool
passes f offset buf = allows_packet (some f) (drop offset buf)

-- The loop of `Write`: what is kept, in order, and how many were dropped.
unfoldable pub split_bufs : Filter → ℕ → List (List ℕ) → List (List ℕ) × ℕ
split_bufs f offset [] = ([], 0)
split_bufs f offset (buf ∷ bufs) =
    let (kept, dropped) = split_bufs f offset bufs in
    if passes f offset buf then (buf ∷ kept, dropped) else (kept, dropped + 1)

-- `Device.Write` is the tun driver's: how many packets it wrote, and its error. The result holds what
-- was handed to the device, `none` where it was not called.
pub record Written (E : Type 0) : Type 0 where
  pub count : ℕ
  pub error : Option E
  pub handed : Option (List (List ℕ))

module _ {E : Type 0} (device_write : List (List ℕ) → ℕ → ℕ × Option E) where
  unfoldable pub write : Option Filter → List (List ℕ) → ℕ → Written E
  write none bufs offset =
      let (n, e) = device_write bufs offset in record { count = n; error = e; handed = some bufs }
  write (some f) bufs offset =
      let (kept, dropped) = split_bufs f offset bufs in
      if nat_beq (length kept) 0
      then record { count = length bufs; error = none; handed = none }
      else let (n, e) = device_write kept offset in
        record { count = n + dropped; error = e; handed = some kept }

split_bufs_lem :
    (f : Filter) (offset : ℕ) (bufs : List (List ℕ))
    → ((split_bufs f offset bufs).0 ≡ select (passes f offset) bufs)
      × (length (split_bufs f offset bufs).0 + (split_bufs f offset bufs).1 ≡ length bufs)
unfolding split_bufs
split_bufs_lem f offset [] = (refl, omega arith)
split_bufs_lem f offset (buf ∷ bufs) = ground (arith, split_bufs_lem f offset bufs)

-- With a filter, the device is handed the packets that the filter allows, in order, or is not called
-- if there are none; and if the device writes all that it is handed, the call reports the whole
-- batch as written, with no error.
write-select :
    {E : Type 0} (device_write : List (List ℕ) → ℕ → ℕ × Option E) (f : Filter)
    (bufs : List (List ℕ)) (offset : ℕ)
    → ((bs : List (List ℕ)) → device_write bs offset ≡ (length bs, none))
    → write device_write (some f) bufs offset ≡ record {
      count = length bufs;
      error = none;
      handed =
          (if nat_beq (length (select (passes f offset) bufs)) 0
            then none
            else some (select (passes f offset) bufs));
    }
unfolding write
write-select {E} device_write f bufs offset full =
    ground (arith, split_bufs_lem f offset bufs, full (select (passes f offset) bufs))
