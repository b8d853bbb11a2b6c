-- ===== src/TState/View/Commit.antt =====
-- Commit hands exactly what the view reads to the views that come after it.
use haven_claw.Prelude.{◌≡◌, ◌⊎◌, none, arith, bytes_comparable}
use haven_claw.Dict.{lookup, copy_into, lookup-copy_into}
use haven_claw.Bytes.{Bytes}
use haven_claw.StateKeys.{Scope}
use haven_claw.TState.{TState, get_changed_value}
use haven_claw.TState.View.{View, new_view, read_below, read_value, commit}

-- A new view on the parent state after Commit, over the same storage, reads of every key what the
-- committed view read of it.
pub commit-reads :
    (ts : TState) (v : View) (scope : Scope) (key : Bytes)
    → read_value (commit ts v) (new_view scope v.storage) key ≡ read_value ts v key
unfolding commit new_view read_value read_below get_changed_value lookup
commit-reads ts v scope key = ground (arith, lookup-copy_into key ts.changed_keys v.pending)

-- Two views that changed no key in common may commit in either order: the parent state maps every
-- key to the same change.
pub commit-commit :
    (ts : TState) (v w : View)
    → ((k : Bytes) → (lookup k v.pending ≡ none) ⊎ (lookup k w.pending ≡ none))
    → (k : Bytes)
    → get_changed_value (commit (commit ts v) w) k ≡ get_changed_value (commit (commit ts w) v) k
unfolding commit get_changed_value
commit-commit ts v w apart k = ground (
  arith,
  apart k,
  lookup-copy_into k (copy_into ts.changed_keys v.pending) w.pending,
  lookup-copy_into k (copy_into ts.changed_keys w.pending) v.pending,
  lookup-copy_into k ts.changed_keys v.pending,
  lookup-copy_into k ts.changed_keys w.pending,
)
