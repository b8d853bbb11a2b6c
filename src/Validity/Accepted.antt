-- ===== src/Validity/Accepted.antt =====
-- What the window holds after blocks are accepted.
use haven_claw.Prelude.{
  ℕ, ◌≤◌, ◌≡◌, ◌≢◌, refl, Bool, true, false, Bool-cases, ◌||◌, Option, none, some, List, [], ◌∷◌,
  nat_beq, nat_beq_iff, arith, inl, inr,
}
use haven_claw.Sets.{IdSet}
use haven_claw.Emap.{Item}
use haven_claw.Emap.Laws.{Expiries, Tracks, added, all_added, add_items-Tracks, is_some}
use haven_claw.Emap.Eviction.{kept, set_min-Evicts}
use haven_claw.Validity.{Block, TimeValidityWindow, accept, accept_all}

module _ {S : Type 0} ⦃sets : IdSet S⦄ where
  accept-Tracks :
      (blk : Block) (v : TimeValidityWindow S) (m : Expiries)
      → Tracks m v.seen
      → Tracks (all_added blk.containers (kept blk.timestamp m)) (accept blk v).seen
  unfolding accept
  accept-Tracks blk v m t =
      add_items-Tracks blk.containers (kept blk.timestamp m) _
        (set_min-Evicts blk.timestamp m v.seen t).0

-- An item's id stands for its expiry, as a hash of it does.
abbrev pub AllHashed : (ℕ → ℕ) → List Item → Type 0
AllHashed exp [] = Unit
AllHashed exp (x ∷ xs) = (x.expiry ≡ exp x.id) × AllHashed exp xs

abbrev pub Knows : (ℕ → ℕ) → Expiries → Type 0
Knows exp m = (j u : ℕ) → m j ≡ some u → u ≡ exp j

abbrev pub occurs : ℕ → List Item → Bool
occurs id [] = false
occurs id (x ∷ xs) = nat_beq id x.id || occurs id xs

-- Blocks accepted later do not expire the id.
abbrev pub NotAfter : ℕ → List Block → Type 0
NotAfter t [] = Unit
NotAfter t (b ∷ bs) = (b.timestamp ≤ t) × NotAfter t bs

module _ (exp : ℕ → ℕ) where
  kept-Knows : (t : ℕ) (m : Expiries) → Knows exp m → Knows exp (kept t m)
  kept-Knows t m k j u h = ground (arith, k j u)

  added-Knows :
      (x : Item) (m : Expiries)
      → x.expiry ≡ exp x.id
      → Knows exp m
      → Knows exp (added x.id x.expiry m)
  added-Knows x m e k = elim (Bool-cases (nat_beq x.expiry 0 || is_some (m x.id))) [
    | inl pass ↦ rw pass k
    | inr new ↦ rw new (λ j u h. ground (arith, k j u, nat_beq_iff x.id j))
  ]

  added-keeps :
      (x : Item) (m : Expiries) (id : ℕ)
      → m id ≡ some (exp id)
      → added x.id x.expiry m id ≡ some (exp id)
  added-keeps x m id h = ground (arith, h, nat_beq_iff x.id id)

  added-enters :
      (x : Item) (m : Expiries)
      → x.expiry ≡ exp x.id
      → Knows exp m
      → exp x.id ≢ 0
      → added x.id x.expiry m x.id ≡ some (exp x.id)
  added-enters x m e k ne = go (m x.id) refl
    where
      go : (o : Option ℕ) → m x.id ≡ o → added x.id x.expiry m x.id ≡ some (exp x.id)
      go none h = ground (arith, h)
      go (some u) h = ground (arith, h, k x.id u h)

  all_added-Knows :
      (xs : List Item) (m : Expiries) → AllHashed exp xs → Knows exp m → Knows exp (all_added xs m)
  all_added-Knows [] m h k = k
  all_added-Knows (x ∷ xs) m h k =
      all_added-Knows xs (added x.id x.expiry m) h.1 (added-Knows x m h.0 k)

  all_added-keeps :
      (xs : List Item) (m : Expiries) (id : ℕ)
      → m id ≡ some (exp id)
      → all_added xs m id ≡ some (exp id)
  all_added-keeps [] m id h = h
  all_added-keeps (x ∷ xs) m id h =
      all_added-keeps xs (added x.id x.expiry m) id (added-keeps x m id h)

  all_added-enters :
      (xs : List Item) (m : Expiries) (id : ℕ)
      → AllHashed exp xs
      → Knows exp m
      → exp id ≢ 0
      → occurs id xs ≡ true
      → all_added xs m id ≡ some (exp id)
  all_added-enters [] m id h k ne o = absurd (ground arith)
  all_added-enters (x ∷ xs) m id h k ne o = elim (Bool-cases (nat_beq id x.id)) [
    | inl here ↦
        let same : id ≡ x.id = ground arith in
        all_added-keeps xs (added x.id x.expiry m) id
          (rw same (added-enters x m h.0 k (rw same at ne)))
    | inr other ↦
        all_added-enters xs (added x.id x.expiry m) id h.1 (added-Knows x m h.0 k) ne (ground arith)
  ]

  module _ {S : Type 0} ⦃sets : IdSet S⦄ where
    accept_all-keeps :
        (bs : List Block) (v : TimeValidityWindow S) (m : Expiries) (id : ℕ)
        → Tracks m v.seen
        → m id ≡ some (exp id)
        → NotAfter (exp id) bs
        → sets.contains (accept_all bs v).seen.seen id ≡ true
    unfolding accept_all
    accept_all-keeps [] v m id t h late = ground (arith, t.seen_iff id, h)
    accept_all-keeps (b ∷ bs) v m id t h late =
        accept_all-keeps bs (accept b v) (all_added b.containers (kept b.timestamp m)) id
          (accept-Tracks b v m t)
          (all_added-keeps b.containers (kept b.timestamp m) id (ground (arith, h, late.0))) late.1

    -- A container of an accepted block is among the ids seen, as long as no block that is accepted
    -- after it is later than its expiry.
    pub accept_all-remembers :
        (b : Block) (bs : List Block) (v : TimeValidityWindow S) (m : Expiries) (id : ℕ)
        → Tracks m v.seen
        → Knows exp m
        → AllHashed exp b.containers
        → occurs id b.containers ≡ true
        → exp id ≢ 0
        → NotAfter (exp id) bs
        → sets.contains (accept_all (b ∷ bs) v).seen.seen id ≡ true
    unfolding accept_all
    accept_all-remembers b bs v m id t k h o ne late =
        accept_all-keeps bs (accept b v) (all_added b.containers (kept b.timestamp m)) id
          (accept-Tracks b v m t)
          (all_added-enters b.containers (kept b.timestamp m) id h (kept-Knows b.timestamp m k) ne
            o)
          late
