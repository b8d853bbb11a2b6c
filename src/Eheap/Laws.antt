-- ===== src/Eheap/Laws.antt =====
-- An expiry heap as a map from ids to items.
use haven_claw.Prelude.{
  ℕ, ◌+◌, ◌-◌, ◌<◌, ◌≤◌, ◌≡◌, ◌≢◌, refl, sym, ◌∙◌, false, Option-cases, Option, none, some, nat_beq,
  nat_beq_iff, if◌then◌else◌, arith, inl, inr,
}
use haven_claw.Dict
use haven_claw.Heap
use haven_claw.Heap.{Heap, Entry}
use haven_claw.Heap.Slots.{content, place}
use haven_claw.Heap.Laws.{
  IsHeap, new-IsHeap, push-IsHeap, first-some, first-least, empty_content, first-empty,
}
use haven_claw.Heap.Removal.{Taken, remove-Taken}
use haven_claw.Eheap.{new_eheap, peek_min, remove_id, add}

pub remove_id-absent {ℓ} :
    {I : Type ℓ} (id : ℕ) (h : Heap I) → (remove_id id h).0 ≡ none → (remove_id id h).1 ≡ h
unfolding remove_id
remove_id-absent id h e = elim (Option-cases (Heap.get h id)) [
  | inl absent ↦ rw (absent, remove_id) refl
  | inr (b, there) ↦ absurd (ground (arith, there))
]

module _ {ℓ} {I : Type ℓ} (get_id get_expiry : I → ℕ) where
  abbrev pub entry_of : Option I → Option (ℕ × I × ℕ)
  entry_of none = none
  entry_of (some x) = some (get_id x, x, get_expiry x)

  -- h has the items of m, each under its id.
  pub record Holds (m : ℕ → Option I) (h : Heap I) : Type ℓ where
    pub heap : IsHeap h
    pub entries : (id : ℕ) → content h id ≡ entry_of (m id)
    pub own_id : (id : ℕ) (x : I) → m id ≡ some x → get_id x ≡ id

  pub new_eheap-Holds : Holds (λ id. none) new_eheap
  unfolding new_eheap content Heap.get Heap.new Dict.lookup
  new_eheap-Holds = record {
    heap = new-IsHeap;
    entries = λ id. refl;
    own_id = λ id x e. absurd (ground arith);
  }

  module _ (m : ℕ → Option I) (h : Heap I) (v : Holds m h) where
    unknown : (id : ℕ) → m id ≡ none → Heap.has h id ≡ false
    unfolding Heap.has content
    unknown id e = ground (arith, v.entries id, e)

    pub add-Holds :
        (x : I)
        → m (get_id x) ≡ none
        → Holds (λ id. if nat_beq (get_id x) id then some x else m id) (add get_id get_expiry x h)
          × (Heap.len (add get_id get_expiry x h) ≡ Heap.len h + 1)
    unfolding add
    add-Holds x new =
        let (heap, size, there) =
          push-IsHeap (record { id = get_id x; val = get_expiry x; item = x; index = Heap.len h }) h
            v.heap (unknown (get_id x) new) refl in
        (
          record {
            heap = heap;
            entries = λ id. ground (arith, there id, v.entries id);
            own_id = λ id y e. ground (arith, v.own_id id y, nat_beq_iff (get_id x) id, e);
          },
          size,
        )

    entry_of-some : (c : ℕ × I × ℕ) (o : Option I) → some c ≡ entry_of o → o ≡ some c.1
    entry_of-some c none e = absurd (ground arith)
    entry_of-some c (some x) e = ground arith

    entry_of-none : (o : Option I) → none ≡ entry_of o → o ≡ none
    entry_of-none none e = refl
    entry_of-none (some x) e = absurd (ground arith)

    found :
        (id : ℕ) (e : Entry I)
        → Heap.get h id ≡ some e
        → (m id ≡ some e.item) × (e.index < Heap.len h) × (Heap.pointer h e.index ≡ id)
    unfolding content place
    found id e there =
        let (inside, at) = v.heap.indexed.placed id e.index (rw there refl) in
        (
          entry_of-some (e.id, e.item, e.val) (m id) (sym (rw there refl) ∙ v.entries id),
          inside,
          at,
        )

    not_found : (id : ℕ) → Heap.get h id ≡ none → m id ≡ none
    unfolding content
    not_found id absent = entry_of-none (m id) (sym (rw absent refl) ∙ v.entries id)

    -- h without the entry id
    taken-Holds :
        (id : ℕ) (r : Option (Entry I) × Heap I)
        → Taken id h r
        → Holds (λ j. if nat_beq id j then none else m j) r.1
    taken-Holds id r t = record {
      heap = t.is_heap;
      entries = λ j. ground (arith, t.left j, v.entries j);
      own_id = λ j x e. ground (arith, v.own_id j x, e);
    }

    pub remove_id-Holds :
        (id : ℕ)
        → ((remove_id id h).0 ≡ m id)
          × Holds (λ j. if nat_beq id j then none else m j) (remove_id id h).1
          × ((m id ≢ none) → Heap.len (remove_id id h).1 ≡ Heap.len h - 1)
    unfolding remove_id
    remove_id-Holds id = elim (Option-cases (Heap.get h id)) [
      | inl absent ↦
          let nothing = not_found id absent in
          rw (absent, remove_id)
            (
              sym nothing,
              record {
                heap = v.heap;
                entries = λ j. ground (arith, v.entries j, nothing, nat_beq_iff id j);
                own_id = λ j x e. ground (arith, v.own_id j x, e);
              },
              λ ne. absurd (ne nothing),
            )
      | inr (e, there) ↦
          let (item, inside, at) = found id e there in
          let taken = rw at at (remove-Taken h e.index v.heap inside) in
          rw (there, remove_id)
            (sym item, taken-Holds id (Heap.remove e.index h) taken, λ ne. taken.size)
    ]

    pub peek_min-none : peek_min h ≡ none → (Heap.len h ≡ 0) × ((id : ℕ) → m id ≡ none)
    unfolding peek_min
    peek_min-none e =
        let empty : Heap.len h ≡ 0 = first-empty h (ground arith) v.heap in
        (empty, λ id. entry_of-none (m id) (sym (empty_content h id v.heap empty) ∙ v.entries id))

    -- The first item is one of m, and none expires before it.
    pub peek_min-least :
        (b : Entry I)
        → Heap.first h ≡ some b
        → (0 < Heap.len h)
          × (m (get_id b.item) ≡ some b.item)
          × ((id : ℕ) (y : I) → m id ≡ some y → get_expiry b.item ≤ get_expiry y)
    peek_min-least b e =
        let (some_left, at, val) = first-some h b e in
        let first =
          entry_of-some (b.id, b.item, b.val) (m (Heap.pointer h 0))
            (sym at ∙ v.entries (Heap.pointer h 0)) in
        let own = v.own_id (Heap.pointer h 0) b.item first in
        (
          some_left,
          rw own first,
          λ id y there. ground (
            arith,
            (first-least h v.heap some_left).2 id,
            v.entries id,
            there,
            first,
            at,
            v.entries (Heap.pointer h 0),
            val,
          ),
        )
