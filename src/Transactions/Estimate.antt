-- ===== src/Transactions/Estimate.antt =====
-- EstimateUnits of hypersdk/chain/transaction.go. Action.Bytes, of which the size counts, is a
-- parameter.
use haven_claw.Prelude.{
  ℕ, ◌+◌, ◌%◌, ◌*◌, ◌<◌, ◌≤◌, ◌≡◌, refl, ◌∙◌, ap, Option, none, some, List, [], ◌∷◌, ◌++◌, length,
  arith, leb, ◌&&◌, if◌then◌else◌, Option-cases, inl, inr,
}
use haven_claw.Prelude.Words.{u64_mod, max_uint64}
use haven_claw.Bytes.{Bytes}
use haven_claw.SafeMath.{SafeMath, IsChecked}
use haven_claw.StateKeys.{chunk_sizes}
use haven_claw.Operator.{Uint64Operator, new_uint64_operator, value}
use haven_claw.Operator as Operator
use haven_claw.Operator.Tracks.{Tracks, new-Tracks, add-Tracks, mul_add-Tracks, value-Tracks}
use haven_claw.Fees.Dimensions.{Dimensions}
use haven_claw.Transactions.{
  invalid_key, units_overflow, ChainRules, Action, Outcome, done, refused, KeyCosts, no_costs,
  compute_loop, key_round, dimensions_of,
}
use haven_claw.Transactions.Units.{
  total_cost, total_compute, compute_loop-Tracks, TracksAll, shift, zero_right,
}

-- AuthFactory: Address and MaxUnits
pub record AuthFactory : Type 0 where
  pub address : Bytes
  pub bandwidth : ℕ
  pub compute : ℕ

-- MaxBaseSize: the lengths of MaxVarintLen, Uint64Len, ids.IDLen, and four times MaxVarintLen
abbrev pub max_base_size : ℕ
max_base_size = 10 + 8 + 32 + 10 + 3 * 10

-- Of the loop over the actions: the bandwidth, and the chunks of the keys.
module _ (action_bytes : Action → Bytes) (create_action_id : ℕ → ℕ → ℕ) (actor : Bytes) where
  unfoldable pub estimate_loop : List Action → ℕ → ℕ → List ℕ → Option (ℕ × List ℕ)
  estimate_loop [] i bandwidth max_chunks = some (bandwidth, max_chunks)
  estimate_loop (a ∷ actions) i bandwidth max_chunks =
      elim (chunk_sizes (a.state_keys actor (create_action_id 0 (i % 256)))) [
        | none ↦ none
        | some sizes ↦
            estimate_loop actions (i + 1) ((bandwidth + length (action_bytes a)) % u64_mod)
              (max_chunks ++ sizes)
      ]

module _ (m : SafeMath) where
  -- The loop over the chunks of all keys
  unfoldable pub cost_loop : ChainRules → List ℕ → KeyCosts → KeyCosts
  cost_loop r [] o = o
  cost_loop r (chunks ∷ max_chunks) o = cost_loop r max_chunks (key_round m r chunks o)

  -- EstimateUnits from where the loop over the actions ended
  abbrev pub estimated :
      ChainRules → List ℕ → Uint64Operator → AuthFactory → Option (ℕ × List ℕ) → Outcome Dimensions
  estimated r sponsor o f none = refused invalid_key
  estimated r sponsor o f (some (bandwidth, max_chunks)) =
      let costs : KeyCosts = cost_loop r (max_chunks ++ sponsor) no_costs in
      dimensions_of ((bandwidth + f.bandwidth) % u64_mod) (value (Operator.add m o f.compute))
        (value costs.reads) (value costs.allocates) (value costs.writes)

  module _ (action_bytes : Action → Bytes) (create_action_id : ℕ → ℕ → ℕ) where
    -- The chunks of the sponsor's keys are GetSponsorStateKeysMaxChunks of the rules.
    unfoldable pub estimate_units :
        ChainRules → List ℕ → List Action → AuthFactory → Outcome Dimensions
    estimate_units r sponsor actions f =
        estimated r sponsor (compute_loop m r actions (new_uint64_operator r.base_compute_units)) f
          (estimate_loop action_bytes create_action_id f.address actions 0 (max_base_size + 1) [])

module _ (m : SafeMath) (law : IsChecked m) (r : ChainRules) where
  cost_loop-Tracks :
      (cs : List ℕ) (o : KeyCosts) (a b c : ℕ)
      → TracksAll m law r o a b c
      → TracksAll m law r
          (cost_loop m r cs o)
          (a + total_cost r.storage_key_read_units r.storage_value_read_units cs)
          (b + total_cost r.storage_key_allocate_units r.storage_value_allocate_units cs)
          (c + total_cost r.storage_key_write_units r.storage_value_write_units cs)
  unfolding cost_loop key_round
  cost_loop-Tracks [] o a b c t =
      (rw (zero_right m law r a) t.0, rw (zero_right m law r b) t.1, rw (zero_right m law r c) t.2)
  cost_loop-Tracks (n ∷ cs) o a b c t =
      let (x, y, z) =
        cost_loop-Tracks cs (key_round m r n o)
          (a + r.storage_key_read_units + n * r.storage_value_read_units)
          (b + r.storage_key_allocate_units + n * r.storage_value_allocate_units)
          (c + r.storage_key_write_units + n * r.storage_value_write_units)
          (
            mul_add-Tracks m law _ _ (add-Tracks m law o.reads a t.0 _) n _,
            mul_add-Tracks m law _ _ (add-Tracks m law o.allocates b t.1 _) n _,
            mul_add-Tracks m law _ _ (add-Tracks m law o.writes c t.2 _) n _,
          ) in
      (
        rw (shift m law r a _ (n * _) _) x,
        rw (shift m law r b _ (n * _) _) y,
        rw (shift m law r c _ (n * _) _) z,
      )

-- The chunks of the keys of all actions, those of a key that several use counted again.
abbrev pub all_chunks : (ℕ → ℕ) → Bytes → List Action → ℕ → Option (List ℕ)
all_chunks id actor [] i = some []
all_chunks id actor (a ∷ actions) i = elim (chunk_sizes (a.state_keys actor (id (i % 256)))) [
  | none ↦ none
  | some sizes ↦ elim (all_chunks id actor actions (i + 1)) [
    | none ↦ none
    | some rest ↦ some (sizes ++ rest)
  ]
]

abbrev pub total_bytes : (Action → Bytes) → List Action → ℕ
total_bytes action_bytes [] = 0
total_bytes action_bytes (a ∷ actions) = length (action_bytes a) + total_bytes action_bytes actions

append_nil : (xs : List ℕ) → xs ++ [] ≡ xs
append_nil [] = refl
append_nil (x ∷ xs) = ap (λ l. x ∷ l) (append_nil xs)

append_assoc : (xs ys zs : List ℕ) → (xs ++ ys) ++ zs ≡ xs ++ (ys ++ zs)
append_assoc [] ys zs = refl
append_assoc (x ∷ xs) ys zs = ap (λ l. x ∷ l) (append_assoc xs ys zs)

wraps : (a b c : ℕ) → ((a + b) % u64_mod + c) % u64_mod ≡ (a + (b + c)) % u64_mod
wraps a b c = omega arith

module _ (action_bytes : Action → Bytes) (ids : ℕ → ℕ → ℕ) (actor : Bytes) where
  estimate_loop-all :
      (actions : List Action) (i bandwidth : ℕ) (acc cs : List ℕ)
      → all_chunks (ids 0) actor actions i ≡ some cs
      → bandwidth < u64_mod
      → estimate_loop action_bytes ids actor actions i bandwidth acc
        ≡ some ((bandwidth + total_bytes action_bytes actions) % u64_mod, acc ++ cs)
  unfolding estimate_loop
  estimate_loop-all [] i bandwidth acc cs known small =
      let ends : cs ≡ [] = ground (arith, known) in
      rw (ends, append_nil acc) (ap (λ n. some (n, acc)) (omega arith))
  estimate_loop-all (a ∷ actions) i bandwidth acc cs known small =
      elim (Option-cases (chunk_sizes (a.state_keys actor (ids 0 (i % 256))))) [
        | inl bad ↦ absurd (ground (arith, bad, known))
        | inr (sizes, e) ↦ elim (Option-cases (all_chunks (ids 0) actor actions (i + 1))) [
          | inl bad ↦ absurd (ground (arith, bad, e, known))
          | inr (rest, f) ↦
              let joined : cs ≡ sizes ++ rest = ground (arith, e, f, known) in
              let size = length (action_bytes a) in
              let total = total_bytes action_bytes actions in
              rw (joined, e, estimate_loop)
                (estimate_loop-all actions (i + 1) ((bandwidth + size) % u64_mod) (acc ++ sizes)
                    rest f (omega arith)
                  ∙ ap (λ n. some (n, (acc ++ sizes) ++ rest)) (wraps bandwidth size total)
                  ∙ ap (λ l. some ((bandwidth + (size + total)) % u64_mod, l))
                      (append_assoc acc sizes rest))
        ]
      ]

-- The estimate, where all totals fit; the error otherwise.
abbrev pub exact_estimate :
    (Action → Bytes) → ChainRules → List Action → AuthFactory → List ℕ → Outcome Dimensions
exact_estimate action_bytes r actions f cs =
    let compute : ℕ = r.base_compute_units + total_compute r actions + f.compute in
    let reads : ℕ = total_cost r.storage_key_read_units r.storage_value_read_units cs in
    let allocates : ℕ = total_cost r.storage_key_allocate_units r.storage_value_allocate_units cs in
    let writes : ℕ = total_cost r.storage_key_write_units r.storage_value_write_units cs in
    if leb compute max_uint64
      && leb reads max_uint64
      && leb allocates max_uint64
      && leb writes max_uint64
    then done (
        (max_base_size + 1 + total_bytes action_bytes actions + f.bandwidth) % u64_mod
        ∷ compute
        ∷ reads
        ∷ allocates
        ∷ writes
        ∷ [])
    else refused units_overflow

module _ (m : SafeMath) (law : IsChecked m) (action_bytes : Action → Bytes) (ids : ℕ → ℕ → ℕ)
    (r : ChainRules) (actions : List Action) (f : AuthFactory) where
  -- EstimateUnits, where the keys of the actions have suffixes and the base units are a uint64, gives
  -- the sum of the sizes, and the exact sums of the compute units and of what the keys of each action
  -- and those of the sponsor cost to read, allocate and write by their chunks, if all of them fit a
  -- uint64; if one does not, it gives the error for that.
  pub estimate_units-exact :
      (sponsor cs : List ℕ)
      → r.base_compute_units ≤ max_uint64
      → all_chunks (ids 0) f.address actions 0 ≡ some cs
      → estimate_units m action_bytes ids r sponsor actions f
        ≡ exact_estimate action_bytes r actions f (cs ++ sponsor)
  unfolding estimate_units
  estimate_units-exact sponsor cs start known =
      let zero_tracked : Tracks (new_uint64_operator 0) 0 = new-Tracks 0 (omega arith) in
      let costs = cost_loop m r (cs ++ sponsor) no_costs in
      let (x, y, z) =
        cost_loop-Tracks m law r (cs ++ sponsor) no_costs 0 0 0
          (zero_tracked, zero_tracked, zero_tracked) in
      let summed = value-Tracks _ _ (
        add-Tracks m law _ _
          (compute_loop-Tracks m law r actions (new_uint64_operator r.base_compute_units)
            r.base_compute_units (new-Tracks r.base_compute_units start))
          f.compute) in
      rw
        (estimate_loop-all action_bytes ids f.address actions 0 (max_base_size + 1) [] cs known
          (omega arith))
        (ground (
          arith,
          summed,
          value-Tracks costs.reads _ x,
          value-Tracks costs.allocates _ y,
          value-Tracks costs.writes _ z,
          wraps 0 (max_base_size + 1 + total_bytes action_bytes actions) f.bandwidth,
        ))
