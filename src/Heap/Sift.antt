-- ===== src/Heap/Sift.antt =====
-- The loops of container/heap: up and down put one misplaced entry where it belongs.
use haven_claw.Prelude.{
  ℕ, zero, suc, ◌+◌, ◌*◌, ◌≤◌, ◌<◌, ◌≡◌, ◌≢◌, refl, ◌∙◌, true, false, not, ◌||◌, ◌&&◌, Bool-cases,
  inl, inr, ◌⊎◌, arith, nat_beq, ltb, leb,
}
use haven_claw.Heap.{Heap, len, val_at, less, swap, pointer, up, down, next_child}
use haven_claw.Heap.Slots.{content, IsIndexed, content-swap, pointer-swap, len-swap, swap-IsIndexed}
use haven_claw.Heap.Order.{parent, IsOrdered, val_at-swap, less-min}

module _ {ℓ} {I : Type ℓ} where
  -- What moving the first n entries leaves as it was.
  pub record Moved (n : ℕ) (h g : Heap I) : Type ℓ where
    pub size : len g ≡ len h
    pub kind : g.is_min_heap ≡ h.is_min_heap
    pub same : (id : ℕ) → content g id ≡ content h id
    pub tail : (k : ℕ) → n ≤ k → pointer g k ≡ pointer h k
    pub indexed : IsIndexed g

  pub stays : (n : ℕ) (h : Heap I) → IsIndexed h → Moved n h h
  stays n h v = record {
    size = refl;
    kind = refl;
    same = λ id. refl;
    tail = λ k p. refl;
    indexed = v;
  }

  pub swap-Moved :
      (n i j : ℕ) (h : Heap I) → IsIndexed h → n ≤ len h → i < n → j < n → Moved n h (swap i j h)
  swap-Moved n i j h v hn hi hj = record {
    size = len-swap i j h;
    kind = swapped_kind;
    same = content-swap i j h;
    tail = λ k p. ground (arith, pointer-swap i j h k (omega arith) (omega arith));
    indexed = swap-IsIndexed i j h v (omega arith) (omega arith);
  }
    where
      swapped_kind : (swap i j h).is_min_heap ≡ h.is_min_heap
      swapped_kind = unfold swap in refl

  pub Moved-trans : {n : ℕ} {h g f : Heap I} → Moved n h g → Moved n g f → Moved n h f
  Moved-trans a b = record {
    size = b.size ∙ a.size;
    kind = b.kind ∙ a.kind;
    same = λ id. b.same id ∙ a.same id;
    tail = λ k p. b.tail k p ∙ a.tail k p;
    indexed = b.indexed;
  }

  -- Only the entry at j may be less than its parent.
  pub record Rising (n : ℕ) (h : Heap I) (j : ℕ) : Type 0 where
    pub others : (c : ℕ) → 0 < c → c < n → c ≢ j → val_at h (parent c) ≤ val_at h c
    pub across : (c : ℕ) → 0 < c → c < n → parent c ≡ j → 0 < j → val_at h (parent j) ≤ val_at h c

  pub ordered-Rising : (n : ℕ) (h : Heap I) (j : ℕ) → j < n → IsOrdered n h → Rising n h j
  ordered-Rising n h j hj o = record {
    others = λ c p q ne. o c p q;
    across = λ c p q e pos. ground (arith, o c, o j);
  }

  swap-Rising :
      (n j : ℕ) (h : Heap I)
      → n ≤ len h
      → j < n
      → 0 < j
      → val_at h j < val_at h (parent j)
      → Rising n h j
      → Rising n (swap (parent j) j h) (parent j)
  swap-Rising n j h hn hj pos below r =
      let at = λ (k : ℕ). val_at-swap (parent j) j h k (omega arith) (omega arith) in
      record {
        others = λ c p q ne. ground (arith, at c, at (parent c), r.others c, r.across c);
        across = λ c p q e pos'.
            ground (arith, at c, at (parent (parent j)), r.others c, r.others (parent j));
      }

  pub up-IsOrdered :
      (fuel j n : ℕ) (h : Heap I)
      → j < fuel
      → j < n
      → n ≤ len h
      → h.is_min_heap ≡ true
      → IsIndexed h
      → Rising n h j
      → IsOrdered n (up fuel j h) × Moved n h (up fuel j h)
  unfolding up
  up-IsOrdered zero j n h f hj hn m v r = absurd (omega arith)
  up-IsOrdered (suc fuel) j n h f hj hn m v r =
      elim (Bool-cases (nat_beq (parent j) j || not (less h j (parent j)))) [
        | inl stop ↦
            rw (stop, up)
              (λ c p q. ground (arith, less-min h j (parent j) m, r.others c), stays n h v)
        | inr rise ↦
            let facts : (0 < j) × (val_at h j < val_at h (parent j)) =
              ground (arith, less-min h j (parent j) m) in
            let step = swap-Moved n (parent j) j h v hn (omega arith) hj in
            let (sorted, moved) =
              up-IsOrdered fuel (parent j) n (swap (parent j) j h) (omega arith) (omega arith)
                (omega (arith, step.size)) (step.kind ∙ m) step.indexed
                (swap-Rising n j h hn hj facts.0 facts.1 r) in
            rw (rise, up) (sorted, Moved-trans step moved)
      ]

  -- Only the children of i may be less than it.
  pub record Sinking (n : ℕ) (h : Heap I) (i : ℕ) : Type 0 where
    pub others : (c : ℕ) → 0 < c → c < n → c ≢ i → parent c ≢ i → val_at h (parent c) ≤ val_at h c
    pub across : (c : ℕ) → 0 < c → c < n → parent c ≡ i → 0 < i → val_at h (parent i) ≤ val_at h c

  abbrev Least : ℕ → Heap I → ℕ → ℕ → Type 0
  Least n h i m =
      (m < n)
      × (i < m)
      × (parent m ≡ i)
      × ((c : ℕ) → 0 < c → c < n → parent c ≡ i → val_at h m ≤ val_at h c)

  next_child-Least :
      (i n : ℕ) (h : Heap I) → h.is_min_heap ≡ true → 2 * i + 1 < n → Least n h i (next_child i n h)
  unfolding next_child
  next_child-Least i n h m p =
      let left = less-min h (2 * i + 2) (2 * i + 1) m in
      elim (Bool-cases (ltb (2 * i + 2) n && less h (2 * i + 2) (2 * i + 1))) [
        | inl e ↦ rw e (
          ground arith,
          omega arith,
          omega arith,
          λ c q r t.
              let which : (c ≡ 2 * i + 1) ⊎ (c ≡ 2 * i + 2) = omega arith in ground (arith, left),
        )
        | inr e ↦ rw e (
          omega arith,
          omega arith,
          omega arith,
          λ c q r t.
              let which : (c ≡ 2 * i + 1) ⊎ (c ≡ 2 * i + 2) = omega arith in ground (arith, left),
        )
      ]

  swap-Sinking :
      (n i m : ℕ) (h : Heap I)
      → n ≤ len h
      → Least n h i m
      → val_at h m < val_at h i
      → Sinking n h i
      → Sinking n (swap i m h) m
        × (val_at (swap i m h) i ≤ val_at (swap i m h) m)
        × (0 < i → val_at (swap i m h) (parent i) ≤ val_at (swap i m h) i)
  swap-Sinking n i m h hn least below s =
      let (inside, under, child, smallest) = least in
      let at = λ (k : ℕ). val_at-swap i m h k (omega arith) (omega arith) in
      (
        record {
          others = λ c p q ne ne2.
              ground (arith, at c, at (parent c), s.others c, s.across c, s.across m, smallest c);
          across = λ c p q e pos. ground (arith, at c, at (parent m), s.others c, s.across c);
        },
        ground (arith, at i, at m),
        λ pos. ground (arith, at i, at (parent i), s.across m),
      )

  -- With i in order below its parent, down leaves all in order.
  pub down-IsOrdered :
      (fuel i n : ℕ) (h : Heap I)
      → n ≤ fuel + i
      → n ≤ len h
      → h.is_min_heap ≡ true
      → IsIndexed h
      → Sinking n h i
      → (0 < i → val_at h (parent i) ≤ val_at h i)
      → IsOrdered n (down fuel i n h).0 × Moved n h (down fuel i n h).0 × (i ≤ (down fuel i n h).1)
  unfolding down
  down-IsOrdered zero i n h f hn m v s above =
      (λ c p q. ground (arith, s.others c, above), stays n h v, omega arith)
  down-IsOrdered (suc fuel) i n h f hn m v s above = elim (Bool-cases (leb n (2 * i + 1))) [
    | inl leaf ↦
        rw (leaf, down) (λ c p q. ground (arith, s.others c, above), stays n h v, omega arith)
    | inr inner ↦
        let least = next_child-Least i n h m (ground (arith, inner)) in
        let c = next_child i n h in
        elim (Bool-cases (less h c i)) [
          | inr done ↦
              rw (inner, done, down)
                (
                  λ k p q. ground (
                    arith,
                    s.others k,
                    above,
                    least.3 k,
                    less-min h (next_child i n h) i m,
                    done,
                  ),
                  stays n h v,
                  omega arith,
                )
          | inl sink ↦
              let step = swap-Moved n i c h v hn (omega (arith, least.0, least.1)) least.0 in
              let (next, ordered, up_there) =
                swap-Sinking n i c h hn least
                  (ground (arith, less-min h (next_child i n h) i m, sink)) s in
              let (sorted, moved, later) =
                down-IsOrdered fuel c n (swap i c h) (omega (arith, least.1))
                  (omega (arith, step.size)) (step.kind ∙ m) step.indexed next
                  (λ pos. rw least.2 ordered) in
              rw (inner, sink, down) (sorted, Moved-trans step moved, omega (arith, least.1, later))
        ]
  ]

  -- With no child less than i, down moves nothing.
  pub down_stays :
      (fuel i n : ℕ) (h : Heap I)
      → h.is_min_heap ≡ true
      → ((c : ℕ) → 0 < c → c < n → parent c ≡ i → val_at h i ≤ val_at h c)
      → down fuel i n h ≡ (h, i)
  unfolding down
  down_stays zero i n h m below = refl
  down_stays (suc fuel) i n h m below = elim (Bool-cases (leb n (2 * i + 1))) [
    | inl leaf ↦ rw (leaf, down) refl
    | inr inner ↦
        let least = next_child-Least i n h m (ground (arith, inner)) in
        let still : less h (next_child i n h) i ≡ false = ground (
          arith,
          less-min h (next_child i n h) i m,
          below (next_child i n h) (omega (arith, least.1)) least.0 least.2,
        ) in
        rw (inner, still, down) refl
  ]
