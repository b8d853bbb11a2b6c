-- ===== src/Fees/Largest/Compact.antt =====
-- The loop that takes marked entries out of the slice cuts it at the first of them.
use haven_claw.Prelude.{
  ℕ, zero, suc, ◌+◌, ◌-◌, ◌<◌, ◌≤◌, ◌≡◌, refl, ap, ◌∙◌, true, some, List, [], ◌∷◌, arith, nat_beq,
  ltb, if◌then◌else◌, get_or, set, length, take, drop, Bool-cases, inl, inr,
}
use haven_claw.Fees.Largest.{compact_loop, compact}

-- How many entries stand before the first marked one.
abbrev pub run : ℕ → List ℕ → ℕ
run mark [] = 0
run mark (x ∷ l) = if nat_beq x mark then 0 else suc (run mark l)

run-le : (mark : ℕ) (l : List ℕ) → run mark l ≤ length l
run-le mark [] = omega arith
run-le mark (x ∷ l) = ground (arith, run-le mark l)

set-get_or : (l : List ℕ) (i : ℕ) → set l i (get_or l i 0) ≡ l
set-get_or [] i = refl
set-get_or (x ∷ l) zero = refl
set-get_or (x ∷ l) (suc i) = ap (λ t. x ∷ t) (set-get_or l i)

run-drop :
    (mark : ℕ) (l : List ℕ) (i : ℕ)
    → i < length l
    → run mark (drop i l)
      ≡ (if nat_beq (get_or l i 0) mark then 0 else suc (run mark (drop (suc i) l)))
run-drop mark [] i h = absurd (omega arith)
run-drop mark (x ∷ l) zero h = refl
run-drop mark (x ∷ l) (suc i) h = run-drop mark l i (omega arith)

run-drop_end : (mark : ℕ) (l : List ℕ) (i : ℕ) → length l ≤ i → run mark (drop i l) ≡ 0
run-drop_end mark [] zero h = refl
run-drop_end mark [] (suc i) h = refl
run-drop_end mark (x ∷ l) zero h = absurd (omega arith)
run-drop_end mark (x ∷ l) (suc i) h = run-drop_end mark l i (omega arith)

-- At a marked entry the loop stays, and counts up to the end.
compact_loop-stays :
    (fuel mark i j : ℕ) (out : List ℕ)
    → get_or out i 0 ≡ mark
    → i + j ≤ length out
    → length out - (i + j) < fuel
    → compact_loop fuel mark i j out ≡ some (out, length out - i)
unfolding compact_loop
compact_loop-stays zero mark i j out e h f = absurd (omega arith)
compact_loop-stays (suc fuel) mark i j out e h f = elim (Bool-cases (ltb i (length out - j))) [
  | inr over ↦ let last : j ≡ length out - i = ground arith in ground arith
  | inl more ↦
      let here : nat_beq (get_or out i 0) mark ≡ true = ground arith in
      rw (more, here, compact_loop)
        (compact_loop-stays fuel mark i (j + 1) out e (ground arith) (ground arith))
]

compact_loop-run :
    (fuel mark i : ℕ) (out : List ℕ)
    → i ≤ length out
    → length out - i < fuel
    → compact_loop fuel mark i 0 out ≡ some (out, length out - (i + run mark (drop i out)))
unfolding compact_loop
compact_loop-run zero mark i out h f = absurd (omega arith)
compact_loop-run (suc fuel) mark i out h f = elim (Bool-cases (ltb i (length out - 0))) [
  | inr over ↦ ground (arith, run-drop_end mark out i)
  | inl more ↦
      let inside : i < length out = ground arith in
      let step = run-drop mark out i inside in
      elim (Bool-cases (nat_beq (get_or out i 0) mark)) [
        | inl marked ↦
            rw (more, marked, compact_loop)
              (compact_loop-stays fuel mark i (0 + 1) out (ground arith) (omega arith) (omega arith)
                ∙ ground (arith, step))
        | inr plain ↦
            let same : i + 0 ≡ i = omega arith in
            let one : i + 1 ≡ suc i = omega arith in
            rw (more, plain, compact_loop, same, set-get_or out i, one)
              (compact_loop-run fuel mark (suc i) out (omega arith) (omega arith)
                ∙ ground (arith, step))
      ]
]

-- The loop ends within its rounds, and leaves exactly the entries before the first marked one:
-- the entries behind it are lost, marked or not.
pub compact-prefix : (mark : ℕ) (out : List ℕ) → compact mark out ≡ some (take (run mark out) out)
unfolding compact
compact-prefix mark out =
    let kept : length out - (length out - (0 + run mark out)) ≡ run mark out =
      omega (arith, run-le mark out) in
    rw (compact_loop-run (length out + 1) mark 0 out (omega arith) (omega arith), compact, kept)
      refl
