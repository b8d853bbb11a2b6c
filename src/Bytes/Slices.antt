-- ===== src/Bytes/Slices.antt =====
-- Byte slices, big-endian words at an offset, and the laws of cutting a slice.
use haven_claw.Prelude.{
  ℕ, zero, suc, ◌+◌, ◌*◌, ◌/◌, ◌%◌, ◌≤◌, ◌≡◌, refl, ap, List, [], ◌∷◌, ◌++◌, arith, length, take,
  drop,
}

abbrev pub Bytes : Type 0
Bytes = List ℕ

-- The `n` bytes of `v`, the most significant first.
unfoldable pub to_be : ℕ → ℕ → Bytes
to_be zero v = []
to_be (suc n) v = to_be n (v / 256) ++ v % 256 ∷ []

unfoldable pub from_be : ℕ → Bytes → ℕ
from_be acc [] = acc
from_be acc (b ∷ bs) = from_be (acc * 256 + b) bs

-- b[start : start + n]
abbrev pub slice : ℕ → ℕ → Bytes → Bytes
slice start n b = take n (drop start b)

-- copy(b[start : start + len(v)], v)
abbrev pub splice : ℕ → Bytes → Bytes → Bytes
splice start v b = take start b ++ (v ++ drop (length v) (drop start b))

module _ {ℓ} {A : Type ℓ} where
  pub drop-nil : (n : ℕ) → drop {A = A} n [] ≡ []
  drop-nil zero = refl
  drop-nil (suc n) = refl

  pub take-before :
      (b rest : List A) (n s : ℕ) → n ≤ s → s ≤ length b → take n (take s b ++ rest) ≡ take n b
  take-before b rest zero s p q = refl
  take-before [] rest (suc n) zero p q = absurd (omega arith)
  take-before [] rest (suc n) (suc s) p q = absurd (omega arith)
  take-before (x ∷ b) rest (suc n) zero p q = absurd (omega arith)
  take-before (x ∷ b) rest (suc n) (suc s) p q =
      ap (λ l. x ∷ l) (take-before b rest n s (omega arith) (omega arith))

  pub slice_before :
      (b rest : List A) (o n s : ℕ)
      → o + n ≤ s
      → s ≤ length b
      → take n (drop o (take s b ++ rest)) ≡ take n (drop o b)
  slice_before b rest zero n s p q = take-before b rest n s (omega arith) q
  slice_before [] rest (suc o) n zero p q = absurd (omega arith)
  slice_before [] rest (suc o) n (suc s) p q = absurd (omega arith)
  slice_before (x ∷ b) rest (suc o) n zero p q = absurd (omega arith)
  slice_before (x ∷ b) rest (suc o) n (suc s) p q =
      slice_before b rest o n s (omega arith) (omega arith)

  drop-over : (v b : List A) (o : ℕ) → length v ≤ o → drop o (v ++ drop (length v) b) ≡ drop o b
  drop-over [] b o p = refl
  drop-over (y ∷ v) b zero p = absurd (omega arith)
  drop-over (y ∷ v) [] (suc o) p =
      let shorter : drop o (v ++ drop (length v) []) ≡ drop o [] = drop-over v [] o (omega arith) in
      rw (drop-nil (length v), drop-nil o) at shorter
  drop-over (y ∷ v) (x ∷ b) (suc o) p = drop-over v b o (omega arith)

  pub slice_after :
      (b v : List A) (s o : ℕ)
      → s + length v ≤ o
      → s ≤ length b
      → drop o (take s b ++ (v ++ drop (length v) (drop s b))) ≡ drop o b
  slice_after b v zero o p q = drop-over v b o (omega arith)
  slice_after [] v (suc s) o p q = absurd (omega arith)
  slice_after (x ∷ b) v (suc s) zero p q = absurd (omega arith)
  slice_after (x ∷ b) v (suc s) (suc o) p q = slice_after b v s o (omega arith) (omega arith)

  pub slice_here :
      (b v rest : List A) (s : ℕ)
      → s ≤ length b
      → take (length v) (drop s (take s b ++ (v ++ rest))) ≡ v
  slice_here b [] rest zero q = refl
  slice_here b (y ∷ v) rest zero q = ap (λ l. y ∷ l) (slice_here b v rest zero q)
  slice_here [] v rest (suc s) q = absurd (omega arith)
  slice_here (x ∷ b) v rest (suc s) q = slice_here b v rest s (omega arith)
