-- ===== src/Mutable.antt =====
-- hypersdk/state's interface Mutable, which actions and balance handlers write through. The views
-- of TState implement it (Mutable.Views); a client takes it with the laws IsStore.
pub mod Views
pub mod Plain
use haven_claw.Prelude.{◌≡◌, ◌⊎◌, false, Option, none, ◌==◌, bytes_comparable}
use haven_claw.Bytes.{Bytes}
use haven_claw.TState.{Error, not_found, Result, ok, err}

-- Insert and Remove give the state after them, also where they fail.
pub record Mutable (S : Type 0) : Type 0 where
  pub get_value : S → Bytes → Result Bytes
  pub insert : S → Bytes → Bytes → S × Option Error
  pub remove : S → Bytes → S × Option Error

-- The key may be read: GetValue gives its value, or says that there is none.
abbrev pub Readable : {S : Type 0} → Mutable S → S → Bytes → Type 0
Readable m s k = ((past : Bytes) × (m.get_value s k ≡ ok past)) ⊎ (m.get_value s k ≡ err not_found)

abbrev pub SameElsewhere : {S : Type 0} → Mutable S → S → S → Bytes → Type 0
SameElsewhere m s t k = (j : Bytes) → (k == j) ≡ false → m.get_value t j ≡ m.get_value s j

pub record IsStore {S : Type 0} (m : Mutable S) : Type 0 where
  pub insert_same :
      (s : S) (k v : Bytes)
      → Readable m s k
      → (m.insert s k v).1 ≡ none
      → m.get_value (m.insert s k v).0 k ≡ ok v
  pub insert_other :
      (s : S) (k v : Bytes) → (m.insert s k v).1 ≡ none → SameElsewhere m s (m.insert s k v).0 k
  pub remove_other :
      (s : S) (k : Bytes) → (m.remove s k).1 ≡ none → SameElsewhere m s (m.remove s k).0 k

-- The key, where it may be read, is absent once it is removed without an error.
abbrev pub Removes : {S : Type 0} → Mutable S → S → Bytes → Type 0
Removes m s k =
    Readable m s k → (m.remove s k).1 ≡ none → m.get_value (m.remove s k).0 k ≡ err not_found
