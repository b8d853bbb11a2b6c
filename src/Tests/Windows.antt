-- ===== src/Tests/Windows.antt =====
-- Tests of the heaps by expiry, of the emap and of the validity window.
use haven_claw.Prelude.{
  ℕ, Bool, Bool-cases, inl, inr, ap, ◌<◌, reverse, ◌+◌, ◌≤◌, ◌≡◌, ◌≢◌, refl, true, false, Option,
  none, some, List, [], ◌∷◌, nat_beq, nat_comparable, if◌then◌else◌, arith,
}
use haven_claw.Dict
use haven_claw.Heap
use haven_claw.Heap.{Heap, Entry}
use haven_claw.Heap.Slots.{content}
use haven_claw.Heap.Laws.{IsHeap, new-IsHeap, push-IsHeap}
use haven_claw.Heap.Removal.{Taken, remove-Taken}
use haven_claw.Emap.{
  Emap, new_emap, add, set_min, set_min_loop, put_in_bucket, evict_first, items_of, add_items,
  contains_from,
}
use haven_claw.Emap.Laws.{added, new_emap-Tracks, add-Tracks}
use haven_claw.Emap.Eviction.{Evicts, set_min-Evicts}
use haven_claw.Validity.{
  Block, TimeValidityWindow, accept_all, verify_expiry_replay_protection, verified,
  duplicate_container,
}
use haven_claw.Validity.{
  accept, populate, repeats_within, verdict_of, is_repeat, is_repeat_loop, unfinished,
  calculate_oldest_allowed,
}
use haven_claw.Validity.Marks.{any_hit}
use haven_claw.Validity.Walk.{walk, Answers, seen_by, is_repeat_loop-Answers}
use haven_claw.Validity.Replay.{IsChain, Ancestry, AllDistinct, known_in, verified-NoRepeat}
use haven_claw.Validity.Ends.{is_repeat-Ends}
use haven_claw.Validity.Backfill.{Filled, populate-Filled}
use haven_claw.Tests.IdLists.{list_set}

abbrev first_entry : Entry ℕ
first_entry = record { id = 4; item = 40; val = 9; index = 0 }

abbrev second_entry : Entry ℕ
second_entry = record { id = 5; item = 50; val = 3; index = 1 }

abbrev heap1 : Heap ℕ
heap1 = Heap.push first_entry (Heap.new true)

abbrev heap2 : Heap ℕ
heap2 = Heap.push second_entry heap1

heap1-IsHeap : IsHeap heap1
unfolding Heap.has Dict.lookup Heap.new
heap1-IsHeap = (push-IsHeap first_entry (Heap.new true) new-IsHeap refl refl).0

push-IsHeap_example :
    IsHeap heap2
    × (Heap.len heap2 ≡ Heap.len heap1 + 1)
    × ((id : ℕ) → content heap2 id ≡ (if nat_beq 5 id then some (5, 50, 3) else content heap1 id))
unfolding Heap.has Dict.lookup Heap.push Heap.up Heap.append_entry Heap.new Dict.insert
push-IsHeap_example = push-IsHeap second_entry heap1 heap1-IsHeap refl refl

remove-Taken_example : Taken (Heap.pointer heap2 1) heap2 (Heap.remove 1 heap2)
unfolding Heap.push Heap.up Heap.append_entry Heap.has Dict.lookup Heap.new Dict.insert Heap.less
    Heap.val_at Heap.swap
remove-Taken_example = remove-Taken heap2 1 push-IsHeap_example.0 (omega arith)

abbrev emap1 : Emap (List ℕ)
emap1 = add 7 20 new_emap

set_min-Evicts_example : Evicts 30 [] (added 7 20 (λ id. none)) (set_min 30 emap1)
set_min-Evicts_example =
    set_min-Evicts 30 (added 7 20 (λ id. none)) emap1
      (add-Tracks 7 20 (λ id. none) new_emap new_emap-Tracks)

evicted_seven : (set_min 30 emap1).0 ≡ 7 ∷ []
unfolding set_min set_min_loop add new_emap put_in_bucket evict_first items_of Heap.pop
    Heap.drop_last Heap.down Heap.less Heap.next_child Heap.swap Heap.val_at Heap.push Heap.up
    Heap.append_entry Heap.has Heap.new Heap.first Heap.get Dict.lookup Dict.insert Dict.delete
evicted_seven = refl

-- A chain of one block after genesis, which is accepted, and a block to verify.
abbrev accepted_block : Block
accepted_block = record {
  id = 1;
  parent = 0;
  timestamp = 10;
  height = 1;
  containers = record { id = 7; expiry = 20 } ∷ [];
  contains = λ id. nat_beq 7 id;
}

abbrev next_block : Block
next_block = record {
  id = 2;
  parent = 1;
  timestamp = 12;
  height = 2;
  containers = record { id = 8; expiry = 30 } ∷ [];
  contains = λ id. nat_beq 8 id;
}

abbrev index1 : ℕ → Option Block
index1 i = if nat_beq i 1 then some accepted_block else none

abbrev expiry_of : ℕ → ℕ
expiry_of id = if nat_beq id 7 then 20 else 30

abbrev window0 : TimeValidityWindow (List ℕ)
window0 = record { seen = new_emap; last_accepted_block_height = 0 }

abbrev window1 : TimeValidityWindow (List ℕ)
window1 = accept_all (accepted_block ∷ []) window0

index1-IsChain : IsChain index1
index1-IsChain = record {
  lower = λ i a b at e. absurd (ground (arith, at, e));
  earlier = λ i a b at e. absurd (ground (arith, at, e));
}

next_block_verified :
    verify_expiry_replay_protection (List ℕ) index1 (λ t. 100) window1 next_block ≡ verified
unfolding verify_expiry_replay_protection accept_all accept repeats_within verdict_of is_repeat
    is_repeat_loop calculate_oldest_allowed contains_from add_items add set_min set_min_loop
    new_emap put_in_bucket Heap.push Heap.up Heap.append_entry Heap.has Heap.new Heap.first Heap.get
    Dict.lookup Dict.insert Dict.delete
next_block_verified = refl

again_duplicate :
    verify_expiry_replay_protection
      (List ℕ)
      index1
      (λ t. 100)
      window1
      (record next_block { containers = accepted_block.containers })
    ≡ duplicate_container
unfolding verify_expiry_replay_protection accept_all accept repeats_within verdict_of is_repeat
    is_repeat_loop calculate_oldest_allowed contains_from add_items add set_min set_min_loop
    new_emap put_in_bucket Heap.push Heap.up Heap.append_entry Heap.has Heap.new Heap.first Heap.get
    Dict.lookup Dict.insert Dict.delete
again_duplicate = refl

verified-NoRepeat_example :
    AllDistinct next_block.containers
    × (Ancestry index1 accepted_block accepted_block
        → calculate_oldest_allowed (λ t. 100) 12 ≤ 10
        → any_hit (known_in window1 accepted_block) next_block.containers ≡ false)
unfolding accept_all accept
verified-NoRepeat_example =
    verified-NoRepeat (List ℕ) index1 (λ t. 100) window1 next_block accepted_block accepted_block
      index1-IsChain (omega arith) refl next_block_verified

is_repeat-Ends_example :
    is_repeat {B = List ℕ} index1 window0 accepted_block 0 next_block.containers false ≢ unfinished
is_repeat-Ends_example =
    is_repeat-Ends (List ℕ) index1 index1-IsChain window0 0 next_block.containers false 1
      accepted_block refl

is_repeat_loop-Answers_example :
    Answers {B = List ℕ}
      (seen_by window0)
      next_block.containers
      []
      (walk index1 0 0 2 accepted_block)
      (is_repeat_loop index1 2 window0 0 next_block.containers false accepted_block [])
is_repeat_loop-Answers_example =
    is_repeat_loop-Answers {B = List ℕ} index1 window0 0 next_block.containers 2 accepted_block []

-- Genesis below the accepted block: the window is full where the walk comes to it.
abbrev genesis : Block
genesis = record {
  id = 0;
  parent = 9;
  timestamp = 5;
  height = 0;
  containers = [];
  contains = λ id. false;
}

abbrev index2 : ℕ → Option Block
index2 i = if nat_beq i 1 then some accepted_block else (if nat_beq i 0 then some genesis else none)

or_accepted : Option Block → Block
or_accepted (some a) = a
or_accepted none = accepted_block

lies_below :
    (i : ℕ) (a b : Block)
    → index2 i ≡ some a
    → index2 a.parent ≡ some b
    → (b.height < a.height) × (b.timestamp ≤ a.timestamp)
unfolding or_accepted
lies_below i a b at e = elim (Bool-cases (nat_beq i 1)) [
  | inl one ↦
      let is_it : accepted_block ≡ a = ap or_accepted (rw one at at) in
      let below : genesis ≡ b = ap or_accepted (rw (← is_it) at e) in
      rw (← is_it, ← below) (omega arith, omega arith)
  | inr other ↦ elim (Bool-cases (nat_beq i 0)) [
    | inl none_left ↦
        let is_it : genesis ≡ a = ap or_accepted (rw (other, none_left) at at) in
        absurd (ground (arith, (rw (← is_it) at e)))
    | inr nowhere ↦ absurd (ground (arith, other, nowhere, at))
  ]
]

index2-IsChain : IsChain index2
index2-IsChain = record {
  lower = λ i a b at e. (lies_below i a b at e).0;
  earlier = λ i a b at e. (lies_below i a b at e).1;
}

abbrev populated : (List Block × Bool) × TimeValidityWindow (List ℕ)
populated = populate index2 (λ t. 8) accepted_block window0

populate-Filled_example :
    Filled index2
      (calculate_oldest_allowed (λ t. 8) 10)
      accepted_block
      (reverse populated.0.0)
      populated.0.1
    × (populated.1 ≡ accept_all populated.0.0 window0)
populate-Filled_example =
    populate-Filled index2 (λ t. 8) index2-IsChain 1 accepted_block window0 refl
