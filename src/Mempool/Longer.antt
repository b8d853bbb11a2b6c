-- ===== src/Mempool/Longer.antt =====
-- The queue of the mempool with one item more, at either end.
use haven_claw.Prelude.{
  ℕ, ◌+◌, ◌≡◌, refl, Bool, true, false, Option, none, some, List, [], ◌∷◌, ◌++◌, nat_beq,
  nat_beq_iff, if◌then◌else◌, arith, length, length-append, ◌==◌, bytes_comparable,
}
use haven_claw.Bytes.{Bytes}
use haven_claw.Eheap.Expiry.{find, find-append, AllDistinct, AllDistinct-append}
use haven_claw.Mempool.{Item, get_id}
use haven_claw.Mempool.Queue.{total, one_if, count, total-append, count-append}

-- The item with an id, where one is queued
abbrev pub queued : List Item → ℕ → Option Item
queued q id = find get_id id q

-- A queue with one item more, at either end
abbrev pub longer : Item → Bool → List Item → List Item
longer x front q = if front then x ∷ q else q ++ x ∷ []

module _ (x : Item) (q : List Item) where
  pub length-longer : (front : Bool) → length (longer x front q) ≡ length q + 1
  length-longer true = omega arith
  length-longer false = length-append q (x ∷ [])

  pub total-longer : (front : Bool) → total (longer x front q) ≡ total q + x.size
  total-longer true = omega arith
  total-longer false = omega (arith, total-append q (x ∷ []))

  pub count-longer :
      (front : Bool) (s : Bytes) → count s (longer x front q) ≡ count s q + one_if (x.sponsor == s)
  count-longer true s = omega arith
  count-longer false s = omega (arith, count-append s q (x ∷ []))

  pub find-longer :
      (front : Bool) (id : ℕ)
      → queued q x.id ≡ none
      → queued (longer x front q) id ≡ (if nat_beq x.id id then some x else queued q id)
  find-longer true id e = refl
  find-longer false id e = ground (arith, find-append get_id id q (x ∷ []), nat_beq_iff x.id id)

  pub longer-AllDistinct :
      (front : Bool)
      → AllDistinct get_id q
      → queued q x.id ≡ none
      → AllDistinct get_id (longer x front q)
  longer-AllDistinct true d e = (e, d)
  longer-AllDistinct false d e = AllDistinct-append get_id q x d e
