-- ===== src/Key/Clamp.antt =====
-- The private keys that are made, and their texts in the state file.
use over_mesh.Common.{
  ℕ, zero, suc, ◌%◌, ◌≤◌, ◌<◌, ◌≡◌, refl, ap, ◌∙◌, true, List, [], ◌∷◌, some, nat_beq, length,
  get_or, arith,
}
use over_mesh.Key.{encode_hex, priv_from_hex, at_index, and_248, and_127, or_64, new_clamped}
use over_mesh.Key.Texts.{Bytes, IsKey, decode_hex-encode_hex}

length-at_index : (i : ℕ) (f : ℕ → ℕ) (bs : List ℕ) → length (at_index i f bs) ≡ length bs
length-at_index i f [] = refl
length-at_index zero f (b ∷ bs) = refl
length-at_index (suc i) f (b ∷ bs) = ap suc (length-at_index i f bs)

at_index-Bytes :
    (i : ℕ) (f : ℕ → ℕ) (bs : List ℕ)
    → ((b : ℕ) → b < 256 → f b < 256)
    → Bytes bs
    → Bytes (at_index i f bs)
at_index-Bytes i f [] keeps h = tt
at_index-Bytes zero f (b ∷ bs) keeps h = (keeps b h.0, h.1)
at_index-Bytes (suc i) f (b ∷ bs) keeps h = (h.0, at_index-Bytes i f bs keeps h.1)

get_or-at_index :
    (i : ℕ) (f : ℕ → ℕ) (bs : List ℕ)
    → i < length bs
    → get_or (at_index i f bs) i 0 ≡ f (get_or bs i 0)
get_or-at_index i f [] h = absurd (omega arith)
get_or-at_index zero f (b ∷ bs) h = refl
get_or-at_index (suc i) f (b ∷ bs) h = get_or-at_index i f bs (omega (arith, h))

get_or-at_index_other :
    (i j : ℕ) (f : ℕ → ℕ) (bs : List ℕ) → i < j → get_or (at_index j f bs) i 0 ≡ get_or bs i 0
get_or-at_index_other i j f [] h = refl
get_or-at_index_other i zero f (b ∷ bs) h = absurd (omega arith)
get_or-at_index_other zero (suc j) f (b ∷ bs) h = refl
get_or-at_index_other (suc i) (suc j) f (b ∷ bs) h =
    get_or-at_index_other i j f bs (omega (arith, h))

-- A key clamped as RFC 7748 asks: the low three bits are clear, the highest is clear and the next set.
pub record IsClamped (k : List ℕ) : Type 0 where
  pub key : IsKey k
  pub low : get_or k 0 0 % 8 ≡ 0
  pub high : (64 ≤ get_or k 31 0) × (get_or k 31 0 < 128)

or_64-and_127 : (b : ℕ) → (64 ≤ or_64 (and_127 b)) × (or_64 (and_127 b) < 128)
or_64-and_127 b = ground arith

pub new_clamped-IsClamped : (random : List ℕ) → IsKey random → IsClamped (new_clamped random)
unfolding new_clamped
new_clamped-IsClamped random r =
    let one = at_index 0 and_248 random in
    let two = at_index 31 and_127 one in
    let size_one : length one ≡ 32 = length-at_index 0 and_248 random ∙ r.size in
    let size_two : length two ≡ 32 = length-at_index 31 and_127 one ∙ size_one in
    record {
      key = record {
        size = length-at_index 31 or_64 two ∙ size_two;
        bytes =
            at_index-Bytes 31 or_64 two (λ b h. ground arith)
              (at_index-Bytes 31 and_127 one (λ b h. omega arith)
                (at_index-Bytes 0 and_248 random (λ b h. omega arith) r.bytes));
      };
      low =
          rw
            (
              get_or-at_index_other 0 31 or_64 two (omega arith),
              get_or-at_index_other 0 31 and_127 one (omega arith),
              get_or-at_index 0 and_248 random (omega (arith, r.size)),
            )
            (omega arith);
      high =
          rw
            (
              get_or-at_index 31 or_64 two (omega (arith, size_two)),
              get_or-at_index 31 and_127 one (omega (arith, size_one)),
            )
            (or_64-and_127 (get_or one 31 0));
    }

-- A key made from any 32 random bytes is clamped, and is what the state file gives back.
pub priv_from_hex-new_clamped :
    (random : List ℕ)
    → IsKey random
    → IsClamped (new_clamped random)
      × (priv_from_hex (encode_hex (new_clamped random)) ≡ some (new_clamped random))
unfolding priv_from_hex
priv_from_hex-new_clamped random r =
    let c = new_clamped-IsClamped random r in
    let size : nat_beq (length (new_clamped random)) 32 ≡ true = rw c.key.size refl in
    (c, rw (decode_hex-encode_hex (new_clamped random) c.key.bytes, size) refl)
