-- ===== src/Dict.antt =====
-- Go's maps, as association lists of which the first entry for a key counts.
-- `insert` and `delete` keep one entry to a key.
use haven_claw.Prelude.{
  ◌≡◌, Option, none, some, List, [], ◌∷◌, arith, Comparable, ◌==◌, if◌then◌else◌,
}

abbrev pub Dict {ℓ κ} : Type ℓ → Type κ → Type (ℓ ⊔ κ)
Dict K V = List (K × V)

module _ {ℓ κ} {K : Type ℓ} {V : Type κ} ⦃e : Comparable K⦄ where
  -- v, ok := m[k]
  unfoldable pub lookup : K → Dict K V → Option V
  lookup k [] = none
  lookup k ((j, v) ∷ m) = if j == k then some v else lookup k m

  -- delete(m, k)
  unfoldable pub delete : K → Dict K V → Dict K V
  delete k [] = []
  delete k ((j, v) ∷ m) = let rest = delete k m in if j == k then rest else (j, v) ∷ rest

  -- m[k] = v
  unfoldable pub insert : K → V → Dict K V → Dict K V
  unfolding delete
  insert k v m = (k, v) ∷ delete k m

  -- for k, v := range src { dst[k] = v }, in some order
  unfoldable pub copy_into : Dict K V → Dict K V → Dict K V
  unfolding insert
  copy_into dst [] = dst
  copy_into dst ((k, v) ∷ src) = insert k v (copy_into dst src)

  pub lookup-delete :
      (k j : K) (m : Dict K V) → lookup j (delete k m) ≡ (if k == j then none else lookup j m)
  unfolding lookup delete
  lookup-delete k j [] = ground arith
  lookup-delete k j ((i, v) ∷ m) =
      ground (arith, lookup-delete k j m, e.same_iff i k, e.same_iff i j, e.same_iff k j)

  pub lookup-insert :
      (k j : K) (v : V) (m : Dict K V)
      → lookup j (insert k v m) ≡ (if k == j then some v else lookup j m)
  unfolding lookup insert
  lookup-insert k j v m = ground (arith, lookup-delete k j m)

  pub lookup-copy_into :
      (j : K) (dst src : Dict K V)
      → lookup j (copy_into dst src) ≡ elim (lookup j src) [ some v ↦ some v | none ↦ lookup j dst ]
  unfolding lookup copy_into
  lookup-copy_into j dst [] = ground arith
  lookup-copy_into j dst ((k, v) ∷ src) =
      ground (arith, lookup-insert k j v (copy_into dst src), lookup-copy_into j dst src)

pub ruleset dict_laws = (lookup-delete, lookup-insert, lookup-copy_into)
