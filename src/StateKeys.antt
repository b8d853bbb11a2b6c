-- ===== src/StateKeys.antt =====
-- hypersdk/state/keys.go: permissions as a byte of flags, the keys that a transaction declares, and
-- the scopes that grant access. A `Keys` map without an entry for a key grants the permission 0.
pub mod Grants
use Prim.Native.Nat.{bit_and, bit_or}
use haven_claw.Prelude.{
  ℕ, ◌+◌, ◌-◌, Bool, true, false, Option, none, some, List, [], ◌∷◌, ◌++◌, nat_beq, if◌then◌else◌,
  length, replicate, map, bytes_comparable,
}
use haven_claw.Dict.{Dict, lookup, insert}
use haven_claw.Bytes.{Bytes}
use haven_claw.Keys.{valid, decode_chunks}

abbrev pub Permissions : Type 0
Permissions = ℕ

abbrev pub none_perm : Permissions
none_perm = 0

abbrev pub read : Permissions
read = 1

abbrev pub allocate : Permissions
allocate = 3

abbrev pub write : Permissions
write = 5

abbrev pub all : Permissions
all = 7

-- require &^ p == 0
unfoldable pub has : Permissions → Permissions → Bool
has p require = nat_beq (require - bit_and require p) 0

abbrev pub Keys : Type 0
Keys = Dict Bytes Permissions

-- k[key], the zero value for a key that is not there
unfoldable pub permission_of : Keys → Bytes → Permissions
permission_of k key = elim (lookup key k) [ none ↦ 0 | some p ↦ p ]

unfoldable pub add : Keys → Bytes → Permissions → Keys × Bool
unfolding permission_of
add k key permission =
    if valid key then (insert key (bit_or (permission_of k key) permission) k, true) else (k, false)

unfoldable pub keys_has : Keys → Bytes → Permissions → Bool
unfolding permission_of
keys_has k key permission = has (permission_of k key) permission

-- The chunk counts of all the keys, or none if one of them has no suffix.
unfoldable pub chunk_sizes : Keys → Option (List ℕ)
chunk_sizes [] = some []
chunk_sizes ((key, _) ∷ k) = elim (decode_chunks key) [
  | none ↦ none
  | some chunk ↦ elim (chunk_sizes k) [ none ↦ none | some chunks ↦ some (chunk ∷ chunks) ]
]

-- `make` gives `len(k)` empty strings, and `append` puts the keys behind them.
unfoldable pub without_permissions : Keys → List Bytes
without_permissions k = replicate (length k) [] ++ map (λ entry. entry.0) k

-- SimulatedKeys records what it is asked for, and grants it.
unfoldable pub simulated_has : Keys → Bytes → Permissions → Keys × Bool
unfolding add
simulated_has d key perm = ((add d key perm).0, true)

-- state.Scope: one method, which the views of state consult.
abbrev pub Scope : Type 0
Scope = Bytes → Permissions → Bool

abbrev pub complete_permissions : Scope
complete_permissions key perm = true
