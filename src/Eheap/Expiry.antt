-- ===== src/Eheap/Expiry.antt =====
-- SetMin of an expiry heap removes the items that expire before a time, and no other.
use haven_claw.Prelude.{
  ℕ, zero, suc, ◌+◌, ◌-◌, ◌<◌, ◌≤◌, ◌≡◌, refl, fun_ext, Bool, true, false, Bool-cases, Option-cases,
  Option, none, some, List, [], ◌∷◌, ◌++◌, ltb, nat_beq, nat_beq_iff, if◌then◌else◌, arith, inl,
  inr, ◌⊎◌, length, length-append,
}
use haven_claw.Heap
use haven_claw.Heap.{Heap, Entry}
use haven_claw.Eheap.{peek_min, pop_min, set_min_loop, set_min}
use haven_claw.Eheap.Laws.{Holds, remove_id-Holds, peek_min-none, peek_min-least}

module _ {ℓ} {I : Type ℓ} where
  -- The first item of a list with an id
  abbrev pub find : (I → ℕ) → ℕ → List I → Option I
  find get_id id [] = none
  find get_id id (x ∷ xs) = if nat_beq (get_id x) id then some x else find get_id id xs

  abbrev pub or_else : Option I → Option I → Option I
  or_else none o = o
  or_else (some x) o = some x

  pub find-append :
      (get_id : I → ℕ) (id : ℕ) (xs ys : List I)
      → find get_id id (xs ++ ys) ≡ or_else (find get_id id xs) (find get_id id ys)
  find-append get_id id [] ys = refl
  find-append get_id id (x ∷ xs) ys = ground (arith, find-append get_id id xs ys)

  abbrev pub AllDistinct : (I → ℕ) → List I → Type ℓ
  AllDistinct get_id [] = Unit
  AllDistinct get_id (x ∷ xs) = (find get_id (get_id x) xs ≡ none) × AllDistinct get_id xs

module _ {ℓ} {I : Type ℓ} (get_id : I → ℕ) where
  pub AllDistinct-append :
      (xs : List I) (x : I)
      → AllDistinct get_id xs
      → find get_id (get_id x) xs ≡ none
      → AllDistinct get_id (xs ++ x ∷ [])
  AllDistinct-append [] x d e = (refl, tt)
  AllDistinct-append (y ∷ ys) x d e = (
    ground (
      arith,
      find-append get_id (get_id y) ys (x ∷ []),
      d.0,
      nat_beq_iff (get_id x) (get_id y),
      nat_beq_iff (get_id y) (get_id x),
    ),
    AllDistinct-append ys x d.1 (ground (arith, e)),
  )

module _ {ℓ} {I : Type ℓ} (get_id get_expiry : I → ℕ) where
  abbrev pub is_expired : ℕ → Option I → Bool
  is_expired t none = false
  is_expired t (some x) = ltb (get_expiry x) t

  abbrev pub expired : ℕ → Option I → Option I
  expired t o = if is_expired t o then o else none

  abbrev pub unexpired : ℕ → Option I → Option I
  unexpired t o = if is_expired t o then none else o

  pop_min-Holds :
      (m : ℕ → Option I) (h : Heap I) (b : Entry I)
      → Holds get_id get_expiry m h
      → Heap.first h ≡ some b
      → Holds get_id get_expiry
          (λ j. if nat_beq (get_id b.item) j then none else m j)
          (pop_min get_id get_expiry h).1
        × (Heap.len (pop_min get_id get_expiry h).1 ≡ Heap.len h - 1)
  unfolding pop_min
  pop_min-Holds m h b v there =
      let (some_left, at, least) = peek_min-least get_id get_expiry m h v b there in
      let (item, holds, size) = remove_id-Holds get_id get_expiry m h v (get_id b.item) in
      rw (there, pop_min) (holds, size (λ e. ground (arith, at, e)))

  -- The items removed so far are none of m.
  abbrev pub Apart : List I → (ℕ → Option I) → Type ℓ
  Apart removed m =
      AllDistinct get_id removed × ((j : ℕ) → (m j ≡ none) ⊎ (find get_id j removed ≡ none))

  -- What SetMin gives for the items of m, after those removed so far
  pub record Expires (t : ℕ) (removed : List I) (m : ℕ → Option I) (h : Heap I)
      (r : List I × Heap I) : Type ℓ where
    pub left : Holds get_id get_expiry (λ j. unexpired t (m j)) r.1
    pub taken : (j : ℕ) → find get_id j r.0 ≡ or_else (find get_id j removed) (expired t (m j))
    pub distinct : AllDistinct get_id r.0
    pub number : length r.0 + Heap.len r.1 ≡ length removed + Heap.len h

  none_before :
      (t : ℕ) (removed : List I) (m : ℕ → Option I) (h : Heap I)
      → Holds get_id get_expiry m h
      → Apart removed m
      → ((j : ℕ) (x : I) → m j ≡ some x → t ≤ get_expiry x)
      → Expires t removed m h (removed, h)
  none_before t removed m h v apart late = record {
    left = rw same v;
    taken = λ j. ground (arith, at j (m j) refl);
    distinct = apart.0;
    number = refl;
  }
    where
      at : (j : ℕ) (o : Option I) → m j ≡ o → is_expired t (m j) ≡ false
      at j none e = ground (arith, e)
      at j (some x) e = ground (arith, e, late j x e)

      same : (λ j. unexpired t (m j)) ≡ m
      same = fun_ext (λ j. rw (at j (m j) refl) refl)

  -- m without its least item, at the id i
  without : ℕ → (ℕ → Option I) → ℕ → Option I
  without i m j = if nat_beq i j then none else m j

  unexpired-without :
      (t : ℕ) (x : I) (m : ℕ → Option I)
      → m (get_id x) ≡ some x
      → ltb (get_expiry x) t ≡ true
      → ◌≡◌ {A = ℕ → Option I} (λ j. unexpired t (without (get_id x) m j)) (λ j. unexpired t (m j))
  unfolding without
  unexpired-without t x m at early =
      fun_ext (λ j. ground (arith, at, early, nat_beq_iff (get_id x) j))

  set_min_loop-Expires :
      (fuel t : ℕ) (removed : List I) (m : ℕ → Option I) (h : Heap I)
      → Holds get_id get_expiry m h
      → Apart removed m
      → Heap.len h < fuel
      → Expires t removed m h (set_min_loop get_id get_expiry fuel t removed h)
  unfolding set_min_loop peek_min without
  set_min_loop-Expires zero t removed m h v apart f = absurd (omega arith)
  set_min_loop-Expires (suc fuel) t removed m h v apart f = elim (Option-cases (Heap.first h)) [
    | inl empty ↦
        rw (empty, set_min_loop, peek_min)
          (none_before t removed m h v apart (λ j x e. absurd (
            ground
              (arith, e, (peek_min-none get_id get_expiry m h v (rw (empty, peek_min) refl)).1 j))))
    | inr (b, there) ↦
        let (some_left, at, least) = peek_min-least get_id get_expiry m h v b there in
        elim (Bool-cases (ltb (get_expiry b.item) t)) [
          | inr late ↦
              rw (there, late, set_min_loop, peek_min)
                (none_before t removed m h v apart (λ j x e. ground (arith, least j x e)))
          | inl early ↦
              let (holds, size) = pop_min-Holds m h b v there in
              let unseen : find get_id (get_id b.item) removed ≡ none =
                ground (arith, apart.1 (get_id b.item), at) in
              let rest =
                set_min_loop-Expires fuel t (removed ++ b.item ∷ []) (without (get_id b.item) m)
                  (pop_min get_id get_expiry h).1 holds
                  (
                    AllDistinct-append get_id removed b.item apart.0 unseen,
                    λ j. ground (
                      arith,
                      apart.1 j,
                      find-append get_id j removed (b.item ∷ []),
                      nat_beq_iff (get_id b.item) j,
                    ),
                  )
                  (omega (arith, size, some_left)) in
              rw (there, early, set_min_loop, peek_min)
                record {
                  left = rw (← unexpired-without t b.item m at early) rest.left;
                  taken = λ j. ground (
                    arith,
                    rest.taken j,
                    find-append get_id j removed (b.item ∷ []),
                    apart.1 j,
                    at,
                    early,
                    nat_beq_iff (get_id b.item) j,
                  );
                  distinct = rest.distinct;
                  number =
                      omega
                        (arith, rest.number, size, length-append removed (b.item ∷ []), some_left);
                }
        ]
  ]

  -- Each round removes an item: with a round for each and one more, the loop comes to its end.
  pub set_min-Expires :
      (t : ℕ) (m : ℕ → Option I) (h : Heap I)
      → Holds get_id get_expiry m h
      → Expires t [] m h (set_min get_id get_expiry t h)
  unfolding set_min
  set_min-Expires t m h v =
      set_min_loop-Expires (Heap.len h + 1) t [] m h v (tt, λ j. inr refl) (omega arith)
