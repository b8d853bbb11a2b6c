-- ===== src/Heap/Ends.antt =====
-- What the Push and the Pop of innerHeap do at the end of the list.
use haven_claw.Prelude.{
  ℕ, ◌+◌, ◌-◌, ◌≤◌, ◌<◌, ◌≡◌, refl, false, none, some, [], ◌∷◌, arith, nat_beq, nat_comparable,
  if◌then◌else◌, length-append, length-take, get_or-append_left, get_or-append_next, get_or-take,
}
use haven_claw.Dict.{lookup-insert, lookup-delete}
use haven_claw.Heap.{Entry, Heap, len, get, has, pointer, append_entry, drop_last}
use haven_claw.Heap.Slots.{place, content, IsIndexed}

module _ {ℓ} {I : Type ℓ} where
  module _ (e : Entry I) (h : Heap I) (fresh : has h e.id ≡ false) where
    pub len-append_entry : len (append_entry e h) ≡ len h + 1
    unfolding append_entry
    len-append_entry = rw fresh (length-append h.items (e.id ∷ []))

    pub content-append_entry :
        (id : ℕ)
        → content (append_entry e h) id
          ≡ (if nat_beq e.id id then some (e.id, e.item, e.val) else content h id)
    unfolding append_entry content get
    content-append_entry id = ground (arith, lookup-insert e.id id e h.lookup)

    place-append_entry :
        (id : ℕ)
        → place (append_entry e h) id ≡ (if nat_beq e.id id then some e.index else place h id)
    unfolding append_entry place get
    place-append_entry id = ground (arith, lookup-insert e.id id e h.lookup)

    pub pointer-append_entry :
        (k : ℕ)
        → k ≤ len h
        → pointer (append_entry e h) k ≡ (if nat_beq k (len h) then e.id else pointer h k)
    unfolding append_entry
    pointer-append_entry k hk =
        ground
          (arith, get_or-append_next h.items e.id k 0, get_or-append_left h.items (e.id ∷ []) k 0)

    pub not_placed : place h e.id ≡ none
    unfolding has place
    not_placed = ground arith

    pub kind-append_entry : (append_entry e h).is_min_heap ≡ h.is_min_heap
    unfolding append_entry
    kind-append_entry = rw fresh refl

    pub append_entry-IsIndexed : IsIndexed h → e.index ≡ len h → IsIndexed (append_entry e h)
    append_entry-IsIndexed v last = record {
      at_place = λ k hk. ground (
        arith,
        not_placed,
        len-append_entry,
        pointer-append_entry k,
        place-append_entry (pointer (append_entry e h) k),
        v.at_place k,
      );
      placed = λ id k p.
          ground
            (arith, len-append_entry, pointer-append_entry k, place-append_entry id, v.placed id k);
    }

  module _ (h : Heap I) (some_left : 0 < len h) where
    pub len-drop_last : len (drop_last h).1 ≡ len h - 1
    unfolding drop_last
    len-drop_last = omega (arith, length-take (len h - 1) h.items)

    pub content-drop_last :
        (id : ℕ)
        → content (drop_last h).1 id
          ≡ (if nat_beq (pointer h (len h - 1)) id then none else content h id)
    unfolding drop_last content
    content-drop_last id = ground (arith, lookup-delete (pointer h (len h - 1)) id h.lookup)

    place-drop_last :
        (id : ℕ)
        → place (drop_last h).1 id
          ≡ (if nat_beq (pointer h (len h - 1)) id then none else place h id)
    unfolding drop_last place
    place-drop_last id = ground (arith, lookup-delete (pointer h (len h - 1)) id h.lookup)

    pub pointer-drop_last : (k : ℕ) → k < len h - 1 → pointer (drop_last h).1 k ≡ pointer h k
    unfolding drop_last
    pointer-drop_last k hk = get_or-take (len h - 1) h.items k 0 hk

    pub drop_last-IsIndexed : IsIndexed h → IsIndexed (drop_last h).1
    drop_last-IsIndexed v = record {
      at_place = λ k hk. ground (
        arith,
        len-drop_last,
        pointer-drop_last k,
        place-drop_last (pointer (drop_last h).1 k),
        v.at_place k,
        v.at_place (len h - 1),
      );
      placed = λ id k p. ground (
        arith,
        len-drop_last,
        pointer-drop_last k,
        place-drop_last id,
        v.placed id k,
        v.at_place (len h - 1),
      );
    }
