-- ===== src/Emap/Laws.antt =====
-- An emap is a map from the ids it has seen to their expiry times: add enters an id that is new.
use haven_claw.Prelude.{
  ℕ, ◌+◌, ◌≡◌, ◌≢◌, refl, sym, ◌∙◌, Bool, true, false, Bool-cases, Option, none, some, Option-cases,
  inl, inr, List, [], ◌∷◌, ◌++◌, ◌||◌, nat_comparable, nat_beq, nat_beq_iff, if◌then◌else◌, arith,
}
use haven_claw.Dict
use haven_claw.Dict.{Dict, lookup-insert, lookup-delete}
use haven_claw.Sets.{IdSet, member, member-append}
use haven_claw.Heap
use haven_claw.Heap.{Heap, Entry}
use haven_claw.Heap.Slots.{content}
use haven_claw.Heap.Laws.{IsHeap, new-IsHeap, push-IsHeap}
use haven_claw.Emap.{Item, Bucket, Emap, bucket_items, new_emap, put_in_bucket, add, add_items}

-- The ids of an emap with their expiry times, as a function.
abbrev pub Expiries : Type 0
Expiries = ℕ → Option ℕ

abbrev pub is_some : Option ℕ → Bool
is_some none = false
is_some (some t) = true

abbrev pub is_at : Option ℕ → ℕ → Bool
is_at none t = false
is_at (some u) t = nat_beq u t

abbrev pub head_id : Option Bucket → Option ℕ
head_id none = none
head_id (some b) = elim b.items [ [] ↦ none | id ∷ _ ↦ some id ]

-- The first id of the bucket for the time t
unfoldable pub head_of : {S : Type 0} → Emap S → ℕ → Option ℕ
head_of e t = head_id (Dict.lookup t e.times)

-- The ids of the bucket for the time t
unfoldable pub bucket_at : {S : Type 0} → Emap S → ℕ → List ℕ
bucket_at e t = bucket_items (Dict.lookup t e.times)

-- m with the id at the time t
abbrev pub entered : ℕ → ℕ → Expiries → Expiries
entered id t m j = if nat_beq id j then some t else m j

-- What add does: a zero time and a known id are passed over.
abbrev pub added : ℕ → ℕ → Expiries → Expiries
added id t m = if nat_beq t 0 || is_some (m id) then m else entered id t m

abbrev pub all_added : List Item → Expiries → Expiries
all_added [] m = m
all_added (x ∷ xs) m = all_added xs (added x.id x.expiry m)

-- b with one more id
abbrev extended : Bucket → ℕ → Bucket
extended b id = record b { items = b.items ++ id ∷ [] }

head_id-extended :
    (b : Bucket) (id : ℕ)
    → head_id (some b) ≢ none
    → head_id (some (extended b id)) ≡ head_id (some b)
head_id-extended b id = go b.items
  where
    first : List ℕ → Option ℕ
    first is = elim is [ [] ↦ none | id ∷ _ ↦ some id ]

    go : (is : List ℕ) → first is ≢ none → first (is ++ id ∷ []) ≡ first is
    go [] h = absurd (h refl)
    go (i ∷ is) h = refl

module _ {S : Type 0} ⦃sets : IdSet S⦄ where
  -- e holds the ids of m: in seen, and each in the bucket of its time. A bucket is in the heap
  -- under its first id.
  pub record Tracks (m : Expiries) (e : Emap S) : Type 0 where
    pub heap : IsHeap e.bh
    pub seen_iff : (id : ℕ) → sets.contains e.seen id ≡ is_some (m id)
    pub held : (id t : ℕ) → member id (bucket_at e t) ≡ is_at (m id) t
    pub queued :
        (id : ℕ) (c : ℕ × ℕ × ℕ)
        → content e.bh id ≡ some c
        → (c ≡ (id, c.2, c.2)) × (head_of e c.2 ≡ some id)
    pub listed : (id t : ℕ) → head_of e t ≡ some id → content e.bh id ≡ some (id, t, t)
    pub filled : (t : ℕ) → head_of e t ≡ none → Dict.lookup t e.times ≡ none

  pub new_emap-Tracks : Tracks (λ id. none) new_emap
  unfolding new_emap head_of bucket_at content Heap.get Heap.new Dict.lookup
  new_emap-Tracks = record {
    heap = new-IsHeap;
    seen_iff = λ id. sets.contains-empty_set id;
    held = λ id t. refl;
    queued = λ id c e. ground arith;
    listed = λ id t e. ground arith;
    filled = λ t e. refl;
  }

  pub head_member :
      (e : Emap S) (id t : ℕ) → head_of e t ≡ some id → member id (bucket_at e t) ≡ true
  unfolding head_of bucket_at
  head_member e id t = go (Dict.lookup t e.times)
    where
      go : (o : Option Bucket) → head_id o ≡ some id → member id (bucket_items o) ≡ true
      go none h = ground arith
      go (some b) h = items b.items h
        where
          items :
              (is : List ℕ) → elim is [ [] ↦ none | i ∷ _ ↦ some i ] ≡ some id → member id is ≡ true
          items [] h = ground arith
          items (i ∷ is) h = ground (arith, nat_beq_iff i id)

  -- add to a bucket that is there
  module _ (id t : ℕ) (m : Expiries) (e : Emap S) (v : Tracks m e) (new : m id ≡ none) where
    module _ (b : Bucket) (there : Dict.lookup t e.times ≡ some b) where
      abbrev longer : Emap S
      longer = record e { seen = sets.add e.seen id; times = Dict.insert t (extended b id) e.times }

      head_of-longer : (u : ℕ) → head_of longer u ≡ head_of e u
      unfolding head_of
      head_of-longer u = ground (
        arith,
        lookup-insert t u (extended b id) e.times,
        head_id-extended b id (λ h. ground (arith, v.filled t, there)),
        there,
        nat_beq_iff t u,
      )

      bucket_at-longer :
          (u : ℕ)
          → bucket_at longer u ≡ (if nat_beq t u then bucket_at e t ++ id ∷ [] else bucket_at e u)
      unfolding bucket_at
      bucket_at-longer u = ground (arith, lookup-insert t u (extended b id) e.times, there)

      longer-Tracks : Tracks (entered id t m) longer
      longer-Tracks = record {
        heap = v.heap;
        seen_iff = λ j. ground (arith, sets.contains-add e.seen id j, v.seen_iff j);
        held = λ j u. ground (
          arith,
          bucket_at-longer u,
          member-append j (bucket_at e t) (id ∷ []),
          v.held j u,
          v.held j t,
          new,
        );
        queued = λ j c h. ground (arith, v.queued j c h, head_of-longer c.2);
        listed = λ j u h. ground (arith, v.listed j u, head_of-longer u);
        filled = λ u h. ground (
          arith,
          v.filled u,
          v.filled t,
          head_of-longer u,
          lookup-insert t u (extended b id) e.times,
          there,
          nat_beq_iff t u,
        );
      }

    -- add to a new bucket
    module _ (absent : Dict.lookup t e.times ≡ none) where
      abbrev entry : Entry ℕ
      entry = record { id = id; item = t; val = t; index = Heap.len e.bh }

      abbrev more : Emap S
      more = record {
        seen = sets.add e.seen id;
        times = Dict.insert t (record { t = t; items = id ∷ [] }) e.times;
        bh = Heap.push entry e.bh;
      }

      unqueued : (c : Option (ℕ × ℕ × ℕ)) → content e.bh id ≡ c → c ≡ none
      unqueued none h = refl
      unqueued (some c) h =
          ground (arith, v.queued id c h, head_member e id c.2, v.held id c.2, new)

      fresh : Heap.has e.bh id ≡ false
      unfolding Heap.has content
      fresh = ground (arith, unqueued (content e.bh id) refl)

      abbrev pushed :
          IsHeap more.bh
          × (Heap.len more.bh ≡ Heap.len e.bh + 1)
          × ((j : ℕ)
              → content more.bh j ≡ (if nat_beq id j then some (id, t, t) else content e.bh j))
      pushed = push-IsHeap entry e.bh v.heap fresh refl

      head_of-more : (u : ℕ) → head_of more u ≡ (if nat_beq t u then some id else head_of e u)
      unfolding head_of
      head_of-more u = ground (arith, lookup-insert t u (record { t = t; items = id ∷ [] }) e.times)

      bucket_at-more : (u : ℕ) → bucket_at more u ≡ (if nat_beq t u then id ∷ [] else bucket_at e u)
      unfolding bucket_at
      bucket_at-more u =
          ground (arith, lookup-insert t u (record { t = t; items = id ∷ [] }) e.times)

      empty : bucket_at e t ≡ []
      unfolding bucket_at
      empty = rw absent refl

      unheaded : head_of e t ≡ none
      unfolding head_of
      unheaded = rw absent refl

      more-Tracks : Tracks (entered id t m) more
      more-Tracks = record {
        heap = pushed.0;
        seen_iff = λ j. ground (arith, sets.contains-add e.seen id j, v.seen_iff j);
        held = λ j u. ground (arith, bucket_at-more u, empty, v.held j u, v.held j t, new);
        queued = λ j c h. ground (
          arith,
          pushed.2 j,
          v.queued j c,
          head_of-more c.2,
          unheaded,
          nat_beq_iff id j,
          nat_beq_iff t c.2,
        );
        listed = λ j u h. ground (
          arith,
          pushed.2 j,
          head_of-more u,
          v.listed j u,
          unqueued (content e.bh id) refl,
          nat_beq_iff t u,
        );
        filled = λ u h. ground (
          arith,
          v.filled u,
          head_of-more u,
          lookup-insert t u (record { t = t; items = id ∷ [] }) e.times,
        );
      }

    put_in_bucket-Tracks :
        Tracks (entered id t m) (put_in_bucket id t (record e { seen = sets.add e.seen id }))
    unfolding put_in_bucket
    put_in_bucket-Tracks = elim (Option-cases (Dict.lookup t e.times)) [
      | inl absent ↦ rw (absent, put_in_bucket) (more-Tracks absent)
      | inr (b, there) ↦ rw (there, put_in_bucket) (longer-Tracks b there)
    ]

  -- An emap that holds the ids of a map m with their times, each in the bucket of its time, holds after
  -- add those of m with the id at the time given: where the time is zero, or m has the id, those of m.
  pub add-Tracks :
      (id t : ℕ) (m : Expiries) (e : Emap S) → Tracks m e → Tracks (added id t m) (add id t e)
  unfolding add
  add-Tracks id t m e v = elim (Bool-cases (nat_beq t 0)) [
    | inl zero_time ↦ rw zero_time v
    | inr e0 ↦ elim (Bool-cases (sets.contains e.seen id)) [
      | inl known ↦ rw (e0, known, sym (v.seen_iff id) ∙ known) v
      | inr unknown ↦
          rw (e0, unknown, sym (v.seen_iff id) ∙ unknown)
            (put_in_bucket-Tracks id t m e v (ground (arith, v.seen_iff id, unknown)))
    ]
  ]

  pub add_items-Tracks :
      (xs : List Item) (m : Expiries) (e : Emap S)
      → Tracks m e
      → Tracks (all_added xs m) (add_items xs e)
  unfolding add_items
  add_items-Tracks [] m e v = v
  add_items-Tracks (x ∷ xs) m e v =
      add_items-Tracks xs (added x.id x.expiry m) (add x.id x.expiry e)
        (add-Tracks x.id x.expiry m e v)
