-- ===== src/Transactions/Units.antt =====
-- Units charges the exact totals, and the check of a timestamp is an interval.
use haven_claw.Prelude.{
  ℕ, ◌+◌, ◌*◌, ◌%◌, ◌^◌, ◌≤◌, ◌<◌, ◌≡◌, ◌↔◌, refl, ◌&&◌, Option, none, some, List, [], ◌∷◌,
  Option-cases, inl, inr, arith, leb, if◌then◌else◌,
}
use haven_claw.Prelude.Words.{max_uint64}
use haven_claw.SafeMath.{SafeMath, IsChecked}
use haven_claw.Keys.{max_chunks}
use haven_claw.StateKeys.{Keys}
use haven_claw.Operator.{Uint64Operator, new_uint64_operator, mul_add, value}
use haven_claw.Operator as Operator
use haven_claw.Operator.Tracks.{Tracks, new-Tracks, add-Tracks, mul_add-Tracks, value-Tracks}
use haven_claw.Fees.Dimensions.{Dimensions}
use haven_claw.Transactions.{
  verify_timestamp, units_overflow, ChainRules, Action, BalanceHandler, Transaction, Outcome, done,
  refused, KeyCosts, no_costs, compute_loop, key_round, key_loop, state_keys, units,
}

-- For uint64 that are not negative as int64, no sum of which overflows, VerifyTimestamp accepts
-- exactly the multiples of the divisor from the execution's time to the end of the window.
pub verify_timestamp_iff :
    (container execution divisor window : ℕ)
    → container < 2 ^ 63
    → execution + window < 2 ^ 63
    → (verify_timestamp container execution divisor window ≡ none)
      ↔ ((container % divisor ≡ 0) × (execution ≤ container) × (container ≤ execution + window))
unfolding verify_timestamp
verify_timestamp_iff container execution divisor window hc he = ground arith

-- What the keys cost: a charge for each, and one for each of its chunks.
abbrev pub total_cost : ℕ → ℕ → List ℕ → ℕ
total_cost per_key per_chunk [] = 0
total_cost per_key per_chunk (c ∷ cs) = (per_key + c * per_chunk) + total_cost per_key per_chunk cs

-- The chunks that the suffixes of the keys declare.
abbrev pub declared_chunks : Keys → Option (List ℕ)
declared_chunks [] = some []
declared_chunks ((k, _) ∷ keys) = elim (max_chunks k) [
  | none ↦ none
  | some c ↦ elim (declared_chunks keys) [ none ↦ none | some cs ↦ some (c ∷ cs) ]
]

abbrev pub total_compute : ChainRules → List Action → ℕ
total_compute r [] = 0
total_compute r (a ∷ actions) = a.compute_units r + total_compute r actions

module _ (m : SafeMath) (law : IsChecked m) (r : ChainRules) where
  pub zero_right : (n : ℕ) → n + 0 ≡ n
  zero_right n = omega arith

  pub shift : (a k p rest : ℕ) → a + (k + p + rest) ≡ a + k + p + rest
  shift a k p rest = omega arith

  pub compute_loop-Tracks :
      (actions : List Action) (o : Uint64Operator) (total : ℕ)
      → Tracks o total
      → Tracks (compute_loop m r actions o) (total + total_compute r actions)
  unfolding compute_loop
  compute_loop-Tracks [] o total h = rw (zero_right total) h
  compute_loop-Tracks (a ∷ actions) o total h =
      let shift : total + (a.compute_units r + total_compute r actions)
          ≡ total + a.compute_units r + total_compute r actions =
        omega arith in
      rw shift (
        compute_loop-Tracks actions (Operator.add m o (a.compute_units r))
          (total + a.compute_units r) (add-Tracks m law o total h (a.compute_units r)))

  -- The three operators track three totals.
  abbrev pub TracksAll : KeyCosts → ℕ → ℕ → ℕ → Type 0
  TracksAll o a b c = Tracks o.reads a × Tracks o.allocates b × Tracks o.writes c

  key_loop-Tracks :
      (keys : Keys) (cs : List ℕ) (o : KeyCosts) (a b c : ℕ)
      → declared_chunks keys ≡ some cs
      → TracksAll o a b c
      → (p : KeyCosts) × (key_loop m r keys o ≡ some p)
        × TracksAll p
            (a + total_cost r.storage_key_read_units r.storage_value_read_units cs)
            (b + total_cost r.storage_key_allocate_units r.storage_value_allocate_units cs)
            (c + total_cost r.storage_key_write_units r.storage_value_write_units cs)
  unfolding key_loop key_round
  key_loop-Tracks [] [] o a b c h t =
      (o, refl, (rw (zero_right a) t.0, rw (zero_right b) t.1, rw (zero_right c) t.2))
  key_loop-Tracks [] (x ∷ cs) o a b c h t = absurd (ground arith)
  key_loop-Tracks ((k, _) ∷ keys) cs o a b c h t = elim (Option-cases (max_chunks k)) [
    | inl bad ↦ absurd (ground arith)
    | inr (n, e) ↦ elim (Option-cases (declared_chunks keys)) [
      | inl bad ↦ absurd (ground arith)
      | inr (ns, d) ↦
          let same : cs ≡ n ∷ ns = ground arith in
          rw (same, e, key_loop)
            (let (p, run, (x, y, z)) =
                key_loop-Tracks keys ns (key_round m r n o)
                  (a + r.storage_key_read_units + n * r.storage_value_read_units)
                  (b + r.storage_key_allocate_units + n * r.storage_value_allocate_units)
                  (c + r.storage_key_write_units + n * r.storage_value_write_units) d
                  (
                    mul_add-Tracks m law _ _ (add-Tracks m law o.reads a t.0 _) n _,
                    mul_add-Tracks m law _ _ (add-Tracks m law o.allocates b t.1 _) n _,
                    mul_add-Tracks m law _ _ (add-Tracks m law o.writes c t.2 _) n _,
                  ) in
              (
                p,
                run,
                (
                  rw (shift a _ (n * _) _) x,
                  rw (shift b _ (n * _) _) y,
                  rw (shift c _ (n * _) _) z,
                ),
              ))
    ]
  ]

-- The totals that Units charges: all fit, or there is an error.
abbrev pub exact_units : ChainRules → Transaction → List ℕ → Outcome Dimensions
exact_units r t cs =
    let compute : ℕ = r.base_compute_units + total_compute r t.actions + t.auth.compute_units r in
    let reads : ℕ = total_cost r.storage_key_read_units r.storage_value_read_units cs in
    let allocates : ℕ = total_cost r.storage_key_allocate_units r.storage_value_allocate_units cs in
    let writes : ℕ = total_cost r.storage_key_write_units r.storage_value_write_units cs in
    if leb compute max_uint64
      && leb reads max_uint64
      && leb allocates max_uint64
      && leb writes max_uint64
    then done (t.size ∷ compute ∷ reads ∷ allocates ∷ writes ∷ [])
    else refused units_overflow

module _ (m : SafeMath) (law : IsChecked m) (ids : ℕ → ℕ → ℕ) (bh : BalanceHandler)
    (t : Transaction) (r : ChainRules) where
  -- Units, where the state keys have suffixes and the base units are a uint64, gives the size
  -- of the transaction and the exact sums of the compute units and of what the keys and their
  -- chunks cost to read, allocate and write, if all of them fit a uint64; if one does not, it
  -- gives the error for that.
  pub units-exact :
      (keys : Keys) (cs : List ℕ)
      → r.base_compute_units ≤ max_uint64
      → state_keys m ids bh t ≡ some keys
      → declared_chunks keys ≡ some cs
      → units m ids bh t r ≡ exact_units r t cs
  unfolding units
  units-exact keys cs base known suffixes =
      let zero_tracked : Tracks (new_uint64_operator 0) 0 = new-Tracks 0 (omega arith) in
      let (p, run, (x, y, z)) =
        key_loop-Tracks m law r keys cs no_costs 0 0 0 suffixes
          (zero_tracked, zero_tracked, zero_tracked) in
      let summed = value-Tracks _ _ (
        add-Tracks m law _ _
          (compute_loop-Tracks m law r t.actions (new_uint64_operator r.base_compute_units)
            r.base_compute_units (new-Tracks r.base_compute_units base))
          (t.auth.compute_units r)) in
      ground (
        arith,
        summed,
        known,
        run,
        value-Tracks p.reads _ x,
        value-Tracks p.allocates _ y,
        value-Tracks p.writes _ z,
      )
