-- ===== src/Mempool/Queue.antt =====
-- The queue of the mempool, its total size, and the numbers of items that the sponsors own.
use haven_claw.Prelude.{
  ℕ, ◌+◌, ◌-◌, ◌<◌, ◌≡◌, ◌≢◌, Bool, Bool-cases, Option-cases, none, some, List, [], ◌∷◌, ◌++◌,
  nat_beq, nat_beq_iff, if◌then◌else◌, arith, inl, inr, length, ◌==◌, bytes_comparable,
  bytes_beq_iff,
}
use haven_claw.Dict
use haven_claw.Dict.{Dict, lookup-insert, lookup-delete}
use haven_claw.Bytes.{Bytes}
use haven_claw.Eheap.Expiry.{find, AllDistinct}
use haven_claw.Mempool.{Item, get_id, owned_by, remove_from_owned, remove_elem}

abbrev pub total : List Item → ℕ
total [] = 0
total (x ∷ xs) = x.size + total xs

abbrev pub one_if : Bool → ℕ
one_if b = if b then 1 else 0

abbrev pub count : Bytes → List Item → ℕ
count s [] = 0
count s (x ∷ xs) = one_if (x.sponsor == s) + count s xs

-- The accounts of the mempool agree with its queue.
pub record Accounts (q : List Item) (owned : Dict Bytes ℕ) (pending : ℕ) : Type 0 where
  pub distinct : AllDistinct get_id q
  pub sizes : pending ≡ total q
  pub counts : (s : Bytes) → owned_by s owned ≡ count s q
  pub positive : (s : Bytes) → Dict.lookup s owned ≢ some 0

pub find-own : (id : ℕ) (q : List Item) (x : Item) → find get_id id q ≡ some x → x.id ≡ id
find-own id [] x e = absurd (ground arith)
find-own id (y ∷ ys) x e = ground (arith, find-own id ys x, nat_beq_iff y.id id)

pub total-append : (xs ys : List Item) → total (xs ++ ys) ≡ total xs + total ys
total-append [] ys = omega arith
total-append (x ∷ xs) ys = omega (arith, total-append xs ys)

pub count-append : (s : Bytes) (xs ys : List Item) → count s (xs ++ ys) ≡ count s xs + count s ys
count-append s [] ys = omega arith
count-append s (x ∷ xs) ys = omega (arith, count-append s xs ys)

module _ (id : ℕ) (x : Item) where
  pub total-remove_elem :
      (q : List Item) → find get_id id q ≡ some x → total (remove_elem id q) + x.size ≡ total q
  unfolding remove_elem
  total-remove_elem [] e = absurd (ground arith)
  total-remove_elem (y ∷ ys) e = ground (arith, total-remove_elem ys)

  pub count-remove_elem :
      (s : Bytes) (q : List Item)
      → find get_id id q ≡ some x
      → count s (remove_elem id q) + one_if (x.sponsor == s) ≡ count s q
  unfolding remove_elem
  count-remove_elem s [] e = absurd (ground arith)
  count-remove_elem s (y ∷ ys) e = ground (arith, count-remove_elem s ys)

  pub length-remove_elem :
      (q : List Item) → find get_id id q ≡ some x → length (remove_elem id q) + 1 ≡ length q
  unfolding remove_elem
  length-remove_elem [] e = absurd (ground arith)
  length-remove_elem (y ∷ ys) e = ground (arith, length-remove_elem ys)

pub find-remove_elem :
    (id j : ℕ) (q : List Item)
    → AllDistinct get_id q
    → find get_id j (remove_elem id q) ≡ (if nat_beq id j then none else find get_id j q)
unfolding remove_elem
find-remove_elem id j [] d = ground arith
find-remove_elem id j (x ∷ xs) d = ground (
  arith,
  find-remove_elem id j xs d.1,
  d.0,
  nat_beq_iff x.id id,
  nat_beq_iff x.id j,
  nat_beq_iff id j,
)

pub remove_elem-AllDistinct :
    (id : ℕ) (q : List Item) → AllDistinct get_id q → AllDistinct get_id (remove_elem id q)
unfolding remove_elem
remove_elem-AllDistinct id [] d = tt
remove_elem-AllDistinct id (x ∷ xs) d = elim (Bool-cases (nat_beq x.id id)) [
  | inl e ↦ rw (e, remove_elem) d.1
  | inr ne ↦
      rw (ne, remove_elem)
        (ground (arith, find-remove_elem id x.id xs d.1, d.0), remove_elem-AllDistinct id xs d.1)
]

-- removeFromOwned, for a sponsor who owns something
owned_by-remove :
    (x : Item) (owned : Dict Bytes ℕ) (s : Bytes)
    → 0 < owned_by x.sponsor owned
    → Dict.lookup s (remove_from_owned x owned) ≡ (
        if x.sponsor == s
        then (if nat_beq (owned_by x.sponsor owned) 1
            then none
            else some (owned_by x.sponsor owned - 1))
        else Dict.lookup s owned)
unfolding remove_from_owned owned_by
owned_by-remove x owned s pos = elim (Option-cases (Dict.lookup x.sponsor owned)) [
  | inl absent ↦ absurd (ground (arith, absent))
  | inr (n, there) ↦ elim (Bool-cases (nat_beq n 1)) [
    | inl last ↦ ground (arith, there, last, lookup-delete x.sponsor s owned)
    | inr more ↦ ground (arith, there, more, lookup-insert x.sponsor s (n - 1) owned)
  ]
]

pub discount-Accounts :
    (id : ℕ) (x : Item) (q : List Item) (owned : Dict Bytes ℕ) (pending : ℕ)
    → Accounts q owned pending
    → find get_id id q ≡ some x
    → Accounts (remove_elem id q) (remove_from_owned x owned) (pending - x.size)
unfolding owned_by
discount-Accounts id x q owned pending a e =
    let owns : 0 < owned_by x.sponsor owned = ground (
      arith,
      a.counts x.sponsor,
      count-remove_elem id x x.sponsor q e,
      bytes_beq_iff x.sponsor x.sponsor,
    ) in
    record {
      distinct = remove_elem-AllDistinct id q a.distinct;
      sizes = omega (arith, a.sizes, total-remove_elem id x q e);
      counts = λ s. ground (
        arith,
        owned_by-remove x owned s owns,
        a.counts s,
        a.counts x.sponsor,
        count-remove_elem id x s q e,
        bytes_beq_iff x.sponsor s,
      );
      positive = λ s p. ground (arith, owned_by-remove x owned s owns, a.positive s);
    }
