-- ===== src/Heap/Laws.antt =====
-- The operations of a min-heap, as a map from ids to entries with a least value.
use haven_claw.Prelude.{
  ℕ, ◌+◌, ◌-◌, ◌≤◌, ◌<◌, ◌≡◌, ◌≢◌, refl, ◌∙◌, true, false, Option, none, some, arith, nat_beq,
  if◌then◌else◌,
}
use haven_claw.Dict
use haven_claw.Heap.{Entry, Heap, new, len, get, has, pointer, val_at, append_entry, push, first}
use haven_claw.Heap.Slots.{content, content_of, place, val_in, val_at-content, IsIndexed}
use haven_claw.Heap.Ends.{
  not_placed, kind-append_entry, len-append_entry, content-append_entry, pointer-append_entry,
  append_entry-IsIndexed,
}
use haven_claw.Heap.Order.{parent, IsOrdered, root_least}
use haven_claw.Heap.Sift.{Rising, up-IsOrdered}

module _ {ℓ} {I : Type ℓ} where
  pub record IsHeap (h : Heap I) : Type ℓ where
    pub min : h.is_min_heap ≡ true
    pub indexed : IsIndexed h
    pub ordered : IsOrdered (len h) h

  val_at-append_entry :
      (e : Entry I) (h : Heap I) (k : ℕ)
      → has h e.id ≡ false
      → IsIndexed h
      → k < len h
      → val_at (append_entry e h) k ≡ val_at h k
  val_at-append_entry e h k fresh v hk = ground (
    arith,
    val_at-content (append_entry e h) k,
    val_at-content h k,
    pointer-append_entry e h fresh k (omega arith),
    content-append_entry e h fresh (pointer h k),
    not_placed e h fresh,
    v.at_place k hk,
  )

  appended-Rising :
      (e : Entry I) (h : Heap I) (n : ℕ)
      → has h e.id ≡ false
      → IsHeap h
      → n ≡ len h + 1
      → Rising n (append_entry e h) (n - 1)
  appended-Rising e h n fresh v size =
      let at = λ (k : ℕ). val_at-append_entry e h k fresh v.indexed in
      record {
        others = λ c p q ne. ground (arith, at c, at (parent c), v.ordered c);
        across = λ c p q same pos. absurd (omega (arith, same));
      }

  -- Push of an entry whose id is new, with the length as its index, onto a well-formed min-heap gives
  -- a well-formed min-heap with one entry more: that entry, and all the others as they were. A heap
  -- is well-formed where the entries know their places and none is less than its parent.
  pub push-IsHeap :
      (e : Entry I) (h : Heap I)
      → IsHeap h
      → has h e.id ≡ false
      → e.index ≡ len h
      → IsHeap (push e h)
        × (len (push e h) ≡ len h + 1)
        × ((id : ℕ)
            → content (push e h) id
              ≡ (if nat_beq e.id id then some (e.id, e.item, e.val) else content h id))
  unfolding push
  push-IsHeap e h v fresh last =
      let g = append_entry e h in
      let size : len g ≡ len h + 1 = len-append_entry e h fresh in
      let kind = kind-append_entry e h fresh ∙ v.min in
      let rising : Rising (len g) g (len g - 1) = appended-Rising e h (len g) fresh v size in
      let (sorted, moved) =
        up-IsOrdered (len g) (len g - 1) (len g) g (omega (arith, size)) (omega (arith, size))
          (omega arith) kind (append_entry-IsIndexed e h fresh v.indexed last) rising in
      (
        record { min = moved.kind ∙ kind; indexed = moved.indexed; ordered = rw moved.size sorted },
        moved.size ∙ size,
        λ id. moved.same id ∙ content-append_entry e h fresh id,
      )

  pub new-IsHeap : IsHeap (new {I = I} true)
  unfolding new place get Dict.lookup
  new-IsHeap = record {
    min = refl;
    indexed = record { at_place = λ k p. absurd (omega arith); placed = λ id k p. ground arith };
    ordered = λ c p q. absurd (omega arith);
  }

  unplaced : (h : Heap I) (id : ℕ) → place h id ≡ none → content h id ≡ none
  unfolding place content
  unplaced h id e = ground arith

  pub empty_content : (h : Heap I) (id : ℕ) → IsHeap h → len h ≡ 0 → content h id ≡ none
  empty_content h id v e = go (place h id) refl
    where
      go : (p : Option ℕ) → place h id ≡ p → content h id ≡ none
      go none p = unplaced h id p
      go (some k) p = absurd (omega (arith, (v.indexed.placed id k p).0))

  pub first-empty : (h : Heap I) → first h ≡ none → IsHeap h → len h ≡ 0
  unfolding first place
  first-empty h e v = ground (arith, v.indexed.at_place 0)

  pub first-some :
      (h : Heap I) (b : Entry I)
      → first h ≡ some b
      → (0 < len h) × (content h (pointer h 0) ≡ some (b.id, b.item, b.val)) × (val_at h 0 ≡ b.val)
  unfolding first val_at content
  first-some h b e = ground arith

  -- The first entry is one of the heap's, and none has a lesser value.
  pub first-least :
      (h : Heap I)
      → IsHeap h
      → 0 < len h
      → (content_of (first h) ≡ content h (pointer h 0))
        × (first h ≢ none)
        × ((id : ℕ) → content h id ≢ none → val_at h 0 ≤ val_in (content h id))
  unfolding first place content
  first-least h v pos =
      let full : nat_beq (len h) 0 ≡ false = ground arith in
      rw full (
        refl,
        λ e. ground (arith, v.indexed.at_place 0, e),
        λ id there. go id there (place h id) refl,
      )
    where
      go :
          (id : ℕ)
          → content h id ≢ none
          → (p : Option ℕ) → place h id ≡ p
          → val_at h 0 ≤ val_in (content h id)
      go id there none e = absurd (there (unplaced h id e))
      go id there (some k) e =
          ground
            (arith, v.indexed.placed id k e, root_least (len h) h k v.ordered, val_at-content h k)
