-- ===== src/Bytes/Laws.antt =====
-- Round trips of big-endian words, alone and inside a slice.
use native.Mathlib.Nat.{pow-suc}
use haven_claw.Prelude.{
  ℕ, zero, suc, ◌+◌, ◌*◌, ◌/◌, ◌%◌, ◌^◌, ◌≤◌, ◌<◌, ◌≡◌, refl, ap, sym, ◌∙◌, ◌⊎◌, inl, inr, [], ◌∷◌,
  ◌++◌, arith, length, take, drop, replicate, length-append, length-take, length-drop,
}
pub use haven_claw.Bytes.Slices.{drop-nil}
use haven_claw.Bytes.Slices.{slice_before, slice_after, slice_here}
unfoldable pub use haven_claw.Bytes.Slices.{Bytes, to_be, from_be, slice, splice}

pub length-to_be : (n v : ℕ) → length (to_be n v) ≡ n
unfolding to_be
length-to_be zero v = refl
length-to_be (suc n) v =
    omega (arith, length-append (to_be n (v / 256)) (v % 256 ∷ []), length-to_be n (v / 256))

from_be-append :
    (acc : ℕ) (xs : Bytes) (b : ℕ) → from_be acc (xs ++ b ∷ []) ≡ from_be acc xs * 256 + b
unfolding from_be
from_be-append acc [] b = refl
from_be-append acc (x ∷ xs) b = from_be-append (acc * 256 + x) xs b

from_be-to_be_acc : (n v acc : ℕ) → v < 256 ^ n → from_be acc (to_be n v) ≡ acc * 256 ^ n + v
unfolding to_be from_be
from_be-to_be_acc zero v acc h = omega arith
from_be-to_be_acc (suc n) v acc h =
    let fits : v / 256 < 256 ^ n = omega (arith, pow-suc 256 n) in
    rw (from_be-append acc (to_be n (v / 256)) (v % 256), from_be-to_be_acc n (v / 256) acc fits)
      (rw (pow-suc 256 n) (omega arith))

-- A word that fits comes back from its bytes.
pub from_be-to_be : (n v : ℕ) → v < 256 ^ n → from_be 0 (to_be n v) ≡ v
from_be-to_be n v h = omega (arith, from_be-to_be_acc n v 0 h)

pub length-splice :
    (s : ℕ) (v b : Bytes) → s + length v ≤ length b → length (splice s v b) ≡ length b
length-splice s v b h = omega (
  arith,
  length-append (take s b) (v ++ drop (length v) (drop s b)),
  length-append v (drop (length v) (drop s b)),
  length-take s b,
  length-drop s b,
  length-drop (length v) (drop s b),
)

-- binary.BigEndian.Uint64(b[start:])
unfoldable pub uint64_at : ℕ → Bytes → ℕ
uint64_at start b = from_be 0 (slice start 8 b)

-- binary.BigEndian.PutUint64(b[start:], v)
unfoldable pub put_uint64 : ℕ → ℕ → Bytes → Bytes
put_uint64 start v b = splice start (to_be 8 v) b

pub length-put_uint64 :
    (s v : ℕ) (b : Bytes) → s + 8 ≤ length b → length (put_uint64 s v b) ≡ length b
unfolding put_uint64
length-put_uint64 s v b h = length-splice s (to_be 8 v) b (omega (arith, length-to_be 8 v))

pub slice-put_uint64 :
    (s v : ℕ) (b : Bytes) (o n : ℕ)
    → s + 8 ≤ length b
    → (o + n ≤ s) ⊎ (s + 8 ≤ o)
    → slice o n (put_uint64 s v b) ≡ slice o n b
unfolding put_uint64
slice-put_uint64 s v b o n h (inl p) =
    slice_before b (to_be 8 v ++ drop (length (to_be 8 v)) (drop s b)) o n s p (omega arith)
slice-put_uint64 s v b o n h (inr p) =
    ap (take n) (slice_after b (to_be 8 v) s o (omega (arith, length-to_be 8 v)) (omega arith))

pub uint64_at-put_uint64 :
    (s v : ℕ) (b : Bytes) → v < 2 ^ 64 → s + 8 ≤ length b → uint64_at s (put_uint64 s v b) ≡ v
unfolding uint64_at put_uint64 to_be
uint64_at-put_uint64 s v b h p =
    ap (from_be 0) (slice_here b (to_be 8 v) (drop 8 (drop s b)) s (omega arith))
    ∙ from_be-to_be 8 v (omega arith)

pub uint64_at-put_other :
    (s v : ℕ) (b : Bytes) (o : ℕ)
    → s + 8 ≤ length b
    → (o + 8 ≤ s) ⊎ (s + 8 ≤ o)
    → uint64_at o (put_uint64 s v b) ≡ uint64_at o b
unfolding uint64_at
uint64_at-put_other s v b o h p = ap (from_be 0) (slice-put_uint64 s v b o 8 h p)

pub slice-splice_self :
    (s n : ℕ) (v b : Bytes) → length v ≡ n → s ≤ length b → slice s n (splice s v b) ≡ v
slice-splice_self s n v b e h =
    ap (λ k. take k (drop s (splice s v b))) (sym e)
    ∙ slice_here b v (drop (length v) (drop s b)) s h

pub slice-splice :
    (s : ℕ) (v b : Bytes) (o n : ℕ)
    → s ≤ length b
    → (o + n ≤ s) ⊎ (s + length v ≤ o)
    → slice o n (splice s v b) ≡ slice o n b
slice-splice s v b o n h (inl p) = slice_before b (v ++ drop (length v) (drop s b)) o n s p h
slice-splice s v b o n h (inr p) = ap (take n) (slice_after b v s o p h)

pub uint64_at-splice :
    (s : ℕ) (v b : Bytes) (o : ℕ)
    → s ≤ length b
    → (o + 8 ≤ s) ⊎ (s + length v ≤ o)
    → uint64_at o (splice s v b) ≡ uint64_at o b
unfolding uint64_at
uint64_at-splice s v b o h p = ap (from_be 0) (slice-splice s v b o 8 h p)

-- A slice of zeros reads as 0.
pub zeros-slice : (k o n : ℕ) → from_be 0 (take n (drop o (replicate k 0))) ≡ 0
unfolding from_be
zeros-slice k zero zero = refl
zeros-slice zero zero (suc n) = refl
zeros-slice (suc k) zero (suc n) = zeros-slice k zero n
zeros-slice zero (suc o) zero = refl
zeros-slice zero (suc o) (suc n) = refl
zeros-slice (suc k) (suc o) n = zeros-slice k o n
