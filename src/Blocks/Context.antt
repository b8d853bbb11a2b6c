-- ===== src/Blocks/Context.antt =====
-- What writeBlockContext writes is what createBlockContext of the next block reads.
use haven_claw.Prelude.{
  ◌≡◌, ◌≢◌, refl, sym, ap, ◌∙◌, false, Option, none, some, inl, inr, [], ◌∷◌, arith, ◌==◌,
  bytes_comparable, bytes_beq_iff, Bool-cases,
}
use haven_claw.Bytes.{Bytes, to_be}
use haven_claw.Keys.{encode_chunks}
use haven_claw.TState.{Error, ok}
use haven_claw.Mutable.{Mutable, IsStore, Readable, SameElsewhere}
use haven_claw.Metadata.{MetadataManager, has_conflicting_prefixes}
use haven_claw.Metadata.Prefixes.{has_conflicting_prefixes-apart}
use haven_claw.Blocks.{
  BlockContext, BlockError, height_key, timestamp_key, fee_key, inserted, and_insert,
  write_block_context,
}

-- The three keys are different.
abbrev pub Apart : MetadataManager → Type 0
Apart md =
    ((height_key md.height_prefix == timestamp_key md.timestamp_prefix) ≡ false)
    × ((height_key md.height_prefix == fee_key md.fee_prefix) ≡ false)
    × ((timestamp_key md.timestamp_prefix == fee_key md.fee_prefix) ≡ false)

not-beq : (a b : Bytes) → a ≢ b → (a == b) ≡ false
not-beq a b ne = elim (Bool-cases (a == b)) [
  | inl same ↦ absurd (ne ((bytes_beq_iff a b).0 same))
  | inr other ↦ other
]

other : (a b : Bytes) → (b == a) ≡ false → (a == b) ≡ false
other a b ne = ground (arith, ne, bytes_beq_iff a b, bytes_beq_iff b a)

prefixes-Apart : (md : MetadataManager) → has_conflicting_prefixes md [] ≡ false → Apart md
unfolding encode_chunks
prefixes-Apart md h = (
  not-beq _ _ (
      has_conflicting_prefixes-apart md [] [] (md.fee_prefix ∷ []) [] md.height_prefix
        md.timestamp_prefix (to_be 2 1) (to_be 2 1) h refl),
  not-beq _ _ (
      has_conflicting_prefixes-apart md [] [] [] (md.timestamp_prefix ∷ []) md.height_prefix
        md.fee_prefix (to_be 2 1) (to_be 2 8) h refl),
  not-beq _ _ (λ same.
      has_conflicting_prefixes-apart md [] (md.height_prefix ∷ []) [] [] md.fee_prefix
        md.timestamp_prefix (to_be 2 8) (to_be 2 1) h refl (sym same)),
)

inserted-done :
    {S : Type 0} (r : S × Option Error)
    → (inserted r).1 ≡ none
    → (r.1 ≡ none) × ((inserted r).0 ≡ r.0)
inserted-done (s, none) done = (refl, refl)
inserted-done (s, some e) done = absurd (ground (arith, done))

module _ {S : Type 0} (mu : Mutable S) (law : IsStore mu) where
  and_insert-done :
      (k v : Bytes) (s : S) (e : Option BlockError) → (and_insert mu k v (s, e)).1 ≡ none → e ≡ none
  and_insert-done k v s none done = refl
  and_insert-done k v s (some x) done = absurd (ground (arith, done))

  -- What stands after an insertion that gave no error, and what gave none before it.
  and_insert-gets :
      (k v : Bytes) (s : S) (e : Option BlockError)
      → Readable mu s k
      → (and_insert mu k v (s, e)).1 ≡ none
      → (mu.get_value (and_insert mu k v (s, e)).0 k ≡ ok v)
        × SameElsewhere mu s (and_insert mu k v (s, e)).0 k
  and_insert-gets k v s (some x) readable done = absurd (ground (arith, done))
  and_insert-gets k v s none readable done =
      let (fine, same) = inserted-done (mu.insert s k v) done in
      (
        ap (λ t. mu.get_value t k) same ∙ law.insert_same s k v readable fine,
        λ j ne. ap (λ t. mu.get_value t j) same ∙ law.insert_other s k v fine j ne,
      )

  same_Readable :
      (s t : S) (k : Bytes)
      → mu.get_value t k ≡ mu.get_value s k
      → Readable mu s k
      → Readable mu t k
  same_Readable s t k same (inl (past, e)) = inl (past, same ∙ e)
  same_Readable s t k same (inr e) = inr (same ∙ e)

  -- What each of the keys holds after the three insertions
  pub write_block_context-gets :
      (md : MetadataManager) (c : BlockContext) (s : S)
      → has_conflicting_prefixes md [] ≡ false
      → Readable mu s (height_key md.height_prefix)
      → Readable mu s (timestamp_key md.timestamp_prefix)
      → Readable mu s (fee_key md.fee_prefix)
      → (write_block_context mu md c s).1 ≡ none
      → (mu.get_value (write_block_context mu md c s).0 (height_key md.height_prefix)
          ≡ ok (to_be 8 c.height))
        × (mu.get_value (write_block_context mu md c s).0 (timestamp_key md.timestamp_prefix)
            ≡ ok (to_be 8 c.timestamp))
        × (mu.get_value (write_block_context mu md c s).0 (fee_key md.fee_prefix)
            ≡ ok c.fee_manager)
  unfolding write_block_context
  write_block_context-gets md c s clean rh rt rf done =
      let hk = height_key md.height_prefix in
      let tk = timestamp_key md.timestamp_prefix in
      let fk = fee_key md.fee_prefix in
      let (ht, hf, tf) = prefixes-Apart md clean in
      let one = and_insert mu hk (to_be 8 c.height) (s, none) in
      let two = and_insert mu tk (to_be 8 c.timestamp) one in
      let two_done = and_insert-done fk c.fee_manager two.0 two.1 done in
      let one_done = and_insert-done tk (to_be 8 c.timestamp) one.0 one.1 two_done in
      let (height_there, height_rest) = and_insert-gets hk (to_be 8 c.height) s none rh one_done in
      let rt1 = same_Readable s one.0 tk (height_rest tk ht) rt in
      let (time_there, time_rest) =
        and_insert-gets tk (to_be 8 c.timestamp) one.0 one.1 rt1 two_done in
      let rf1 = same_Readable s one.0 fk (height_rest fk hf) rf in
      let rf2 = same_Readable one.0 two.0 fk (time_rest fk tf) rf1 in
      let (fee_there, fee_rest) = and_insert-gets fk c.fee_manager two.0 two.1 rf2 done in
      (
        fee_rest hk (other fk hk hf) ∙ time_rest hk (other tk hk ht) ∙ height_there,
        fee_rest tk (other fk tk tf) ∙ time_there,
        fee_there,
      )
