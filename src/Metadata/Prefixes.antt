-- ===== src/Metadata/Prefixes.antt =====
-- Where HasConflictingPrefixes finds no conflict, the keys under two prefixes are different.
use haven_claw.Prelude.{
  ℕ, ◌≡◌, ◌≢◌, refl, ap, true, false, ◌||◌, List, [], ◌∷◌, ◌++◌, arith, nat_beq_iff,
}
use haven_claw.Bytes.{Bytes}
use haven_claw.Metadata.{
  MetadataManager, has_prefix, conflicts_with, conflict_loop, has_conflicting_prefixes,
}

-- Of two prefixes of one key, one is a prefix of the other.
common_key : (p q a b : Bytes) → p ++ a ≡ q ++ b → (has_prefix q p || has_prefix p q) ≡ true
common_key [] [] a b e = refl
common_key [] (y ∷ q) a b e = refl
common_key (x ∷ p) [] a b e = refl
common_key (x ∷ p) (y ∷ q) a b e =
    ground (arith, common_key p q a b (ap tail e), nat_beq_iff x y, nat_beq_iff y x, ap (head 0) e)
  where
    tail : Bytes → Bytes
    tail [] = []
    tail (z ∷ zs) = zs

    head : ℕ → Bytes → ℕ
    head d [] = d
    head d (z ∷ zs) = z

snoc : (vs ws : List Bytes) (p x : Bytes) → (vs ++ p ∷ ws) ++ x ∷ [] ≡ vs ++ p ∷ (ws ++ x ∷ [])
snoc [] ws p x = refl
snoc (v ∷ vs) ws p x = ap (λ l. v ∷ l) (snoc vs ws p x)

module _ (p q : Bytes) where
  verified_apart :
      (vs ws : List Bytes)
      → conflicts_with q (vs ++ p ∷ ws) ≡ false
      → (has_prefix q p || has_prefix p q) ≡ false
  unfolding conflicts_with
  verified_apart [] ws h = ground arith
  verified_apart (v ∷ vs) ws h = verified_apart vs ws (ground arith)

  later_apart :
      (between after vs ws : List Bytes)
      → conflict_loop (between ++ q ∷ after) (vs ++ p ∷ ws) ≡ false
      → (has_prefix q p || has_prefix p q) ≡ false
  unfolding conflict_loop
  later_apart [] after vs ws h = verified_apart vs ws (ground arith)
  later_apart (x ∷ between) after vs ws h =
      later_apart between after vs (ws ++ x ∷ []) (rw (← snoc vs ws p x) (ground arith))

  both_apart :
      (before between after vs : List Bytes)
      → conflict_loop (before ++ p ∷ (between ++ q ∷ after)) vs ≡ false
      → (has_prefix q p || has_prefix p q) ≡ false
  unfolding conflict_loop
  both_apart [] between after vs h = later_apart between after vs [] (ground arith)
  both_apart (x ∷ before) between after vs h =
      both_apart before between after (vs ++ x ∷ []) (ground arith)

-- Where HasConflictingPrefixes returns false, no key begins with two of the prefixes, those of the
-- manager and of the VM together, at different places of the list.
pub has_conflicting_prefixes-apart :
    (m : MetadataManager) (vm before between after : List Bytes) (p q a b : Bytes)
    → has_conflicting_prefixes m vm ≡ false
    → m.height_prefix ∷ m.fee_prefix ∷ m.timestamp_prefix ∷ vm
      ≡ before ++ p ∷ (between ++ q ∷ after)
    → p ++ a ≢ q ++ b
unfolding has_conflicting_prefixes
has_conflicting_prefixes-apart m vm before between after p q a b h e same =
    let apart = both_apart p q before between after [] (rw (← e) h) in
    absurd (ground (arith, apart, common_key p q a b same))
