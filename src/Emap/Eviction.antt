-- ===== src/Emap/Eviction.antt =====
-- SetMin evicts the ids that expire before a time, and no other.
use haven_claw.Prelude.{
  ℕ, zero, suc, ◌+◌, ◌≤◌, ◌<◌, ◌≡◌, refl, ap, fun_ext, Bool, false, Bool-cases, Option, none, some,
  Option-cases, inl, inr, List, [], ◌++◌, ◌||◌, nat_comparable, nat_beq, nat_beq_iff, ltb, leb,
  if◌then◌else◌, arith,
}
use haven_claw.Dict
use haven_claw.Dict.{Dict, lookup-insert, lookup-delete}
use haven_claw.Sets.{IdSet, member, member-append, contains-remove_all}
use haven_claw.Heap
use haven_claw.Heap.{Heap, Entry}
use haven_claw.Heap.Slots.{content}
use haven_claw.Heap.Laws.{empty_content, first-empty, first-some, first-least}
use haven_claw.Heap.Removal.{Taken, pop-Taken}
use haven_claw.Emap.{Emap, bucket_items, items_of, evict_first, set_min_loop, set_min}
use haven_claw.Emap.Laws.{Expiries, is_at, head_of, bucket_at, Tracks}

abbrev pub is_before : Option ℕ → ℕ → Bool
is_before none t = false
is_before (some u) t = ltb u t

-- m without the ids at the time u
abbrev without : ℕ → Expiries → Expiries
without u m j = if is_at (m j) u then none else m j

-- m without the ids before the time t
abbrev pub kept : ℕ → Expiries → Expiries
kept t m j = if is_before (m j) t then none else m j

module _ {S : Type 0} ⦃sets : IdSet S⦄ (m : Expiries) (e : Emap S) (v : Tracks m e) where
  -- One round of SetMin, for the first entry of the heap
  module _ (b : Entry ℕ) (found : Heap.first e.bh ≡ some b) where
    abbrev p : ℕ
    p = Heap.pointer e.bh 0

    taken : Taken p e.bh (Heap.pop e.bh)
    taken = pop-Taken e.bh v.heap (first-some e.bh b found).0

    at_front :
        (content e.bh p ≡ some (p, b.val, b.val)) × (b.item ≡ b.val) × (head_of e b.val ≡ some p)
    at_front = ground (arith, (first-some e.bh b found).1, v.queued p (b.id, b.item, b.val))

    gone : items_of b e ≡ bucket_at e b.val
    unfolding items_of bucket_at
    gone = ap (λ t. bucket_items (Dict.lookup t e.times)) at_front.1

    head_of-evict_first :
        (u : ℕ) → head_of (evict_first b e) u ≡ (if nat_beq b.val u then none else head_of e u)
    unfolding head_of evict_first
    head_of-evict_first u = ground (arith, lookup-delete b.val u e.times)

    bucket_at-evict_first :
        (u : ℕ) → bucket_at (evict_first b e) u ≡ (if nat_beq b.val u then [] else bucket_at e u)
    unfolding bucket_at evict_first
    bucket_at-evict_first u = ground (arith, lookup-delete b.val u e.times)

    evict_first-Tracks : Tracks (without b.val m) (evict_first b e)
    unfolding evict_first
    evict_first-Tracks = record {
      heap = taken.is_heap;
      seen_iff = λ j.
          ground (
            arith,
            contains-remove_all (items_of b e) e.seen j,
            gone,
            v.held j b.val,
            v.seen_iff j,
          );
      held = λ j u.
          ground (arith, bucket_at-evict_first u, v.held j u, v.held j b.val, nat_beq_iff b.val u);
      queued = λ j c h. ground (
        arith,
        taken.left j,
        v.queued j c,
        head_of-evict_first c.2,
        at_front,
        nat_beq_iff p j,
        nat_beq_iff b.val c.2,
      );
      listed = λ j u h. ground (
        arith,
        taken.left j,
        v.listed j u,
        head_of-evict_first u,
        at_front,
        nat_beq_iff p j,
        nat_beq_iff b.val u,
      );
      filled =
          λ u h. ground (arith, lookup-delete b.val u e.times, head_of-evict_first u, v.filled u);
    }

  -- The heap's first time is the least of m.
  least_time : (j u : ℕ) → m j ≡ some u → (0 < Heap.len e.bh) × (Heap.val_at e.bh 0 ≤ u)
  unfolding head_of bucket_at
  least_time j u h = elim (Option-cases (head_of e u)) [
    | inl unheaded ↦ absurd (ground (arith, v.held j u, v.filled u unheaded))
    | inr (i, there) ↦
        let here = v.listed i u there in
        let some_left : 0 < Heap.len e.bh = ground (arith, empty_content e.bh i v.heap) in
        let least = (first-least e.bh v.heap some_left).2 i (ground arith) in
        (some_left, ground arith)
  ]

kept-same : (t : ℕ) (o : Option ℕ) → ((u : ℕ) → o ≡ some u → t ≤ u) → is_before o t ≡ false
kept-same t none h = refl
kept-same t (some x) h = ground (arith, h x refl)

kept-without : (t u : ℕ) (m : Expiries) → u < t → kept t (without u m) ≡ kept t m
kept-without t u m h = fun_ext (λ j. at (m j))
  where
    at :
        (o : Option ℕ)
        → (if is_before (if is_at o u then none else o) t
            then none
            else (if is_at o u then none else o))
          ≡ (if is_before o t then none else o)
    at none = refl
    at (some x) = ground arith

module _ {S : Type 0} ⦃sets : IdSet S⦄ where
  abbrev pub Evicts : ℕ → List ℕ → Expiries → List ℕ × Emap S → Type 0
  Evicts t evicted m r =
      Tracks (kept t m) r.1 × ((j : ℕ) → member j r.0 ≡ (member j evicted || is_before (m j) t))

  nothing_before :
      (t : ℕ) (evicted : List ℕ) (m : Expiries) (e : Emap S)
      → Tracks m e
      → ((j u : ℕ) → m j ≡ some u → t ≤ u)
      → Evicts t evicted m (evicted, e)
  nothing_before t evicted m e v h =
      let at = λ (j : ℕ). kept-same t (m j) (h j) in
      let same : kept t m ≡ m = fun_ext (λ j. rw (at j) refl) in
      (rw same v, λ j. ground (arith, at j))

  set_min_loop-Evicts :
      (fuel t : ℕ) (evicted : List ℕ) (m : Expiries) (e : Emap S)
      → Tracks m e
      → Heap.len e.bh < fuel
      → Evicts t evicted m (set_min_loop fuel t evicted e)
  unfolding set_min_loop evict_first
  set_min_loop-Evicts zero t evicted m e v f = absurd (omega arith)
  set_min_loop-Evicts (suc fuel) t evicted m e v f = elim (Option-cases (Heap.first e.bh)) [
    | inl empty ↦
        rw (empty, set_min_loop)
          (nothing_before t evicted m e v (λ j u h.
            absurd (omega (arith, first-empty e.bh empty v.heap, least_time m e v j u h))))
    | inr (b, found) ↦ elim (Bool-cases (leb t b.val)) [
      | inl late ↦
          rw (found, late, set_min_loop)
            (nothing_before t evicted m e v
              (λ j u h. ground (arith, (first-some e.bh b found).2, (least_time m e v j u h).1)))
      | inr early ↦
          let smaller = (taken m e v b found).size in
          let (tracks, listed) =
            set_min_loop-Evicts fuel t (evicted ++ items_of b e) (without b.val m) (evict_first b e)
              (evict_first-Tracks m e v b found)
              (omega (arith, smaller, (first-some e.bh b found).0)) in
          rw (found, early, set_min_loop)
            (
              rw (← kept-without t b.val m (ground arith)) tracks,
              λ j. ground (
                arith,
                listed j,
                member-append j evicted (items_of b e),
                gone m e v b found,
                v.held j b.val,
              ),
            )
    ]
  ]

  -- SetMin of an emap that holds the ids of a map m evicts exactly the ids of m with times before t,
  -- and holds all the others after it. The rounds, one for each bucket and one to stop, are enough.
  pub set_min-Evicts :
      (t : ℕ) (m : Expiries) (e : Emap S) → Tracks m e → Evicts t [] m (set_min t e)
  unfolding set_min
  set_min-Evicts t m e v = set_min_loop-Evicts (Heap.len e.bh + 1) t [] m e v (omega arith)
