-- ===== src/Database.antt =====
-- avalanchego's database, which the repository calls: an interface with the laws of its batches, and
-- its packing of a number.
use haven_claw.Prelude.{
  ℕ, ◌<◌, ◌^◌, Option, none, some, List, [], ◌∷◌, if◌then◌else◌, ◌==◌, bytes_comparable, ◌≡◌,
}
use haven_claw.Bytes.{Bytes, to_be}
use haven_claw.TState.{Error, not_found, Result, ok, err}

pub data BatchOp : Type 0 where
  put : Bytes → Bytes → BatchOp
  delete : Bytes → BatchOp

-- database.Database, with a batch as the list of its operations. `refuses` is the error of Put and
-- Delete of a batch, and `write` the one of Write with the database after it.
pub record Database (D : Type 0) : Type 0 where
  pub get : D → Bytes → Result Bytes
  pub refuses : BatchOp → Option Error
  pub write : D → List BatchOp → D × Option Error

-- What a key holds after the operations of a batch, the first of which is done first.
unfoldable pub applied : List BatchOp → Bytes → Result Bytes → Result Bytes
applied [] key r = r
applied (put k v ∷ ops) key r = applied ops key (if k == key then ok v else r)
applied (delete k ∷ ops) key r = applied ops key (if k == key then err not_found else r)

-- A batch is written as a whole, or not at all.
pub record IsAtomic {D : Type 0} (db : Database D) : Type 0 where
  pub write_lem :
      (d : D) (ops : List BatchOp) (key : Bytes)
      → (db.write d ops).1 ≡ none
      → db.get (db.write d ops).0 key ≡ applied ops key (db.get d key)
  pub write_failed :
      (d : D) (ops : List BatchOp) (key : Bytes) (e : Error)
      → (db.write d ops).1 ≡ some e
      → db.get (db.write d ops).0 key ≡ db.get d key

-- What Put and Delete of a batch return for these operations, joined
unfoldable pub refused : {D : Type 0} → Database D → List BatchOp → Option Error
refused db [] = none
refused db (op ∷ ops) = elim (db.refuses op) [ some e ↦ some e | none ↦ refused db ops ]

-- database.ParseUInt64 reads the eight bytes of a number.
abbrev pub IsParser : (Bytes → Result ℕ) → Type 0
IsParser parse = (n : ℕ) → n < 2 ^ 64 → parse (to_be 8 n) ≡ ok n
