-- ===== src/Metadata.antt =====
-- hypersdk/state/metadata/state_manager.go: the prefixes of the chain's own keys in the state.
pub mod Prefixes
use haven_claw.Prelude.{
  ℕ, ◌≡◌, ◌↔◌, ◌⊎◌, refl, sym, ap, ◌∙◌, Bool, true, false, ◌&&◌, ◌||◌, List, [], ◌∷◌, ◌++◌, arith,
  nat_beq, nat_beq_iff, Bool-cases, inl, inr,
}
use haven_claw.Bytes.{Bytes}

pub record MetadataManager : Type 0 where
  pub height_prefix : Bytes
  pub fee_prefix : Bytes
  pub timestamp_prefix : Bytes

unfoldable pub new_default_manager : MetadataManager
new_default_manager = record {
  height_prefix = 0 ∷ [];
  fee_prefix = 2 ∷ [];
  timestamp_prefix = 1 ∷ [];
}

-- bytes.HasPrefix(s, prefix)
abbrev pub has_prefix : Bytes → Bytes → Bool
has_prefix s [] = true
has_prefix [] (y ∷ prefix) = false
has_prefix (x ∷ s) (y ∷ prefix) = nat_beq x y && has_prefix s prefix

-- The inner loop of HasConflictingPrefixes.
unfoldable pub conflicts_with : Bytes → List Bytes → Bool
conflicts_with p [] = false
conflicts_with p (vp ∷ verified) = (has_prefix p vp || has_prefix vp p) || conflicts_with p verified

-- The outer loop, with the prefixes that it has verified.
unfoldable pub conflict_loop : List Bytes → List Bytes → Bool
conflict_loop [] verified = false
conflict_loop (p ∷ prefixes) verified =
    conflicts_with p verified || conflict_loop prefixes (verified ++ p ∷ [])

unfoldable pub has_conflicting_prefixes : MetadataManager → List Bytes → Bool
has_conflicting_prefixes m vm_prefixes =
    conflict_loop (m.height_prefix ∷ m.fee_prefix ∷ m.timestamp_prefix ∷ vm_prefixes) []
