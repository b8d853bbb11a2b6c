-- ===== src/StateKeys/Grants.antt =====
-- What a set of declared keys grants after keys were added.
use Prim.Native.Nat.{bit_and, bit_or}
use haven_claw.Prelude.{
  ℕ, zero, suc, ◌-◌, ◌<◌, ◌≡◌, refl, Bool, true, false, ◌&&◌, arith, nat_beq, ◌==◌,
  bytes_comparable, length, if◌then◌else◌, bytes_beq_iff,
}
use haven_claw.Dict.{lookup-insert}
use haven_claw.Bytes.{Bytes}
use haven_claw.Keys.{valid}
use haven_claw.StateKeys.{Permissions, Keys, has, permission_of, add, keys_has}

-- How many numbers under a bound fail a test.
failures : (ℕ → Bool) → ℕ → ℕ
failures test zero = 0
failures test (suc last) =
    let earlier = failures test last in if test last then earlier else suc earlier

no_failures : (test : ℕ → Bool) (bound n : ℕ) → n < bound → failures test bound ≡ 0 → test n ≡ true
unfolding failures
no_failures test zero n lt none_fails = absurd (omega arith)
no_failures test (suc last) n lt none_fails = ground (arith, no_failures test last n)

-- The union of two permission bytes grants both.
abbrev grants_both : ℕ → ℕ → Bool
grants_both p q = nat_beq (p - bit_and p (bit_or p q)) 0 && nat_beq (q - bit_and q (bit_or p q)) 0

union_table : failures (λ p. nat_beq (failures (grants_both p) 256) 0) 256 ≡ 0
unfolding failures
union_table = refl

module _ (p q : ℕ) (hp : p < 256) (hq : q < 256) where
  has-bit_or : (has (bit_or p q) p ≡ true) × (has (bit_or p q) q ≡ true)
  unfolding has
  has-bit_or =
      let row = no_failures (λ r. nat_beq (failures (grants_both r) 256) 0) 256 p hp union_table in
      let cell = no_failures (grants_both p) 256 q hq (ground (arith, row)) in ground (arith, cell)

-- After Add of a well-formed key, with the old and the new permission each a byte, the key grants
-- both what was added and what it granted before, and every other key grants what it did.
pub add-keys_has :
    (k : Keys) (key : Bytes) (perm : Permissions)
    → valid key ≡ true
    → permission_of k key < 256
    → perm < 256
    → ((add k key perm).1 ≡ true)
      × (keys_has (add k key perm).0 key perm ≡ true)
      × (keys_has (add k key perm).0 key (permission_of k key) ≡ true)
      × ((j : Bytes) (r : Permissions)
          → (key == j) ≡ false
          → keys_has (add k key perm).0 j r ≡ keys_has k j r)
unfolding add keys_has
add-keys_has k key perm v hk hp =
    let both = has-bit_or (permission_of k key) perm hk hp in
    (
      ground arith,
      ground (
        arith,
        both,
        lookup-insert key key (bit_or (permission_of k key) perm) k,
        bytes_beq_iff key key,
      ),
      ground (
        arith,
        both,
        lookup-insert key key (bit_or (permission_of k key) perm) k,
        bytes_beq_iff key key,
      ),
      λ j r ne. ground (arith, lookup-insert key j (bit_or (permission_of k key) perm) k),
    )

-- Add refuses a key that is too short for a chunk suffix, and changes nothing.
pub add-invalid :
    (k : Keys) (key : Bytes) (perm : Permissions) → length key < 2 → add k key perm ≡ (k, false)
unfolding add valid
add-invalid k key perm h = ground arith
