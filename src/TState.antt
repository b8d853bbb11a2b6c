-- ===== src/TState.antt =====
-- hypersdk/state/tstate: the temporary state that a block's transactions write, and the views
-- through which single transactions write it. Errors and the parent state stand here, the views in
-- View, and what is proved of them in the modules below View.
pub mod View
use haven_claw.Prelude.{ℕ, Option, none, some, List, [], length, bytes_comparable}
use haven_claw.Dict.{Dict, lookup}
use haven_claw.Bytes.{Bytes}

-- ErrInvalidKeyOrPermission, ErrInvalidKeyValue, database.ErrNotFound, and any other error of the
-- storage below.
pub data Error : Type 0 where
  invalid_key_or_permission : Error
  invalid_key_value : Error
  not_found : Error
  storage_error : ℕ → Error

pub data Result {ℓ} (A : Type ℓ) : Type ℓ where
  ok : A → Result A
  err : Error → Result A

-- state.Immutable: the storage that the views read through.
abbrev pub Immutable : Type 0
Immutable = Bytes → Result Bytes

-- A changed key maps to its new value, or to `none` if it was removed (maybe.Nothing).
pub record TState : Type 0 where
  pub ops : ℕ
  pub changed_keys : Dict Bytes (Option Bytes)

unfoldable pub new : TState
new = record { ops = 0; changed_keys = [] }

-- `none`: not changed; `some none`: removed; `some (some v)`: changed to `v`.
unfoldable pub get_changed_value : TState → Bytes → Option (Option Bytes)
get_changed_value ts key = lookup key ts.changed_keys

unfoldable pub pending_changes : TState → ℕ
pending_changes ts = length ts.changed_keys

unfoldable pub op_index : TState → ℕ
op_index ts = ts.ops
