-- ===== src/ChainIndex.antt =====
-- hypersdk/chainindex/chain_index.go: the accepted blocks on disk, by height and by id, of which those
-- in a window are kept. The database, the parser of blocks and database.ParseUInt64 are parameters.
-- Metrics, and the compaction that runs aside, change no block and are left out. Go panics on a stored
-- id of fewer than 32 bytes and on a key of the iterator of fewer than 9, which only other writers of
-- the database could leave: the model takes such an id as it is, and missing bytes of a height for none.
pub mod Layout
pub mod Accepted
pub mod Cleanup
use haven_claw.Prelude.{
  ℕ, ◌-◌, Bool, true, false, ◌||◌, Option, none, some, List, [], ◌∷◌, ◌++◌, nat_beq, leb,
  if◌then◌else◌,
}
use haven_claw.Prelude.Words.{sub_wrap}
use haven_claw.Bytes.{Bytes, to_be, uint64_at}
use haven_claw.TState.{Error, not_found, Result, ok, err}
use haven_claw.Database.{BatchOp, put, delete, Database, refused}

-- Config. The compaction is not modelled, but New tests its frequency.
pub record Config : Type 0 where
  pub accepted_block_window : ℕ
  pub block_compaction_frequency : ℕ

-- Block: GetID, GetHeight and GetBytes.
pub record Block : Type 0 where
  pub id : Bytes
  pub height : ℕ
  pub bytes : Bytes

-- The errors of New
pub data StartError : Type 0 where
  compaction_frequency_zero : StartError
  cleanup_failed : Error → StartError

abbrev pub last_accepted_key : Bytes
last_accepted_key = 3 ∷ []

abbrev pub prefix_block_key : ℕ → Bytes
prefix_block_key height = 0 ∷ to_be 8 height

abbrev pub prefix_block_id_height_key : Bytes → Bytes
prefix_block_id_height_key id = 1 ∷ id

abbrev pub prefix_block_height_id_key : ℕ → Bytes
prefix_block_height_id_key height = 2 ∷ to_be 8 height

abbrev pub extract_block_height_from_key : Bytes → ℕ
extract_block_height_from_key key = uint64_at 1 key

-- writeBlock, as operations of a batch
abbrev pub write_block : Block → List BatchOp
write_block blk =
    put (prefix_block_id_height_key blk.id) (to_be 8 blk.height)
    ∷ put (prefix_block_height_id_key blk.height) blk.id
    ∷ put (prefix_block_key blk.height) blk.bytes
    ∷ []

-- The deletion of the block with an id at a height
abbrev pub delete_block : ℕ → Bytes → List BatchOp
delete_block height id =
    delete (prefix_block_key height)
    ∷ delete (prefix_block_id_height_key id)
    ∷ delete (prefix_block_height_id_key height)
    ∷ []

-- The heights that the loop of cleanupOnStartup deletes, of the keys that the iterator gives: below
-- the threshold, and not genesis.
unfoldable pub deleted_heights : ℕ → List Bytes → List ℕ
deleted_heights threshold [] = []
deleted_heights threshold (key ∷ keys) =
    let rest = deleted_heights threshold keys in
    if leb threshold (extract_block_height_from_key key)
    then []
    else (if nat_beq (extract_block_height_from_key key) 0
        then rest
        else extract_block_height_from_key key ∷ rest)

-- Whether no block leaves the window: genesis is never deleted.
abbrev pub keeps_all : ℕ → ℕ → Bool
keeps_all window height =
    nat_beq window 0 || nat_beq (sub_wrap height window) 0 || leb height (sub_wrap height window)

module _ {D : Type 0} (db : Database D) where
  -- A batch is filled, which may be refused, and then written.
  abbrev pub write_batch : D → List BatchOp → D × Option Error
  write_batch d ops = elim (refused db ops) [ some e ↦ (d, some e) | none ↦ db.write d ops ]

  unfoldable pub get_block_id_at_height : D → ℕ → Result Bytes
  get_block_id_at_height d height = db.get d (prefix_block_height_id_key height)

  unfoldable pub update_last_accepted : Config → D → Block → D × Option Error
  update_last_accepted config d blk =
      let ops : List BatchOp = put last_accepted_key (to_be 8 blk.height) ∷ write_block blk in
      let expiry_height : ℕ = sub_wrap blk.height config.accepted_block_window in
      elim (refused db ops) [
        | some e ↦ (d, some e)
        | none ↦ elim (keeps_all config.accepted_block_window blk.height) [
          | true ↦ db.write d ops
          | false ↦ elim (get_block_id_at_height d expiry_height) [
            | err e ↦ (d, some e)
            | ok id ↦ elim (refused db (delete_block expiry_height id)) [
              | some e ↦ (d, some e)
              | none ↦ db.write d (ops ++ delete_block expiry_height id)
            ]
          ]
        ]
      ]

  unfoldable pub save_historical : D → Block → D × Option Error
  save_historical d blk = write_batch d (write_block blk)

  -- The batch of these deletions, or the error of reading an id or filling the batch
  unfoldable pub deletions : D → List ℕ → Result (List BatchOp)
  deletions d [] = ok []
  deletions d (height ∷ heights) =
      let rest = deletions d heights in
      elim (get_block_id_at_height d height) [
        | err e ↦ err e
        | ok id ↦ elim (refused db (delete_block height id)) [
          | some e ↦ err e
          | none ↦ elim rest [ err e ↦ err e | ok ops ↦ ok (delete_block height id ++ ops) ]
        ]
      ]

-- What an error or a value of the database becomes
abbrev pub then_parse : {A : Type 0} → (Bytes → Result A) → Result Bytes → Result A
then_parse parse (ok b) = parse b
then_parse parse (err e) = err e

module _ {D P : Type 0} (db : Database D) (parse_block : Bytes → Result P) where
  unfoldable pub get_block_by_height : D → ℕ → Result P
  get_block_by_height d height = then_parse parse_block (db.get d (prefix_block_key height))

-- The end of the cleanup: the deletions are written where none of them, and not the iterator, failed.
module _ {D : Type 0} (db : Database D) where
  abbrev pub committed : D → Result (List BatchOp) → Option Error → D × Option Error
  committed d (err e) iterated = (d, some e)
  committed d (ok ops) (some e) = (d, some e)
  committed d (ok ops) none = db.write d ops

-- The iterator over the keys with a prefix: the keys, and its error.
module _ {D : Type 0} (db : Database D)
    (keys_with_prefix : D → Bytes → List Bytes × Option Error) where
  unfoldable pub cleanup_below : ℕ → D → D × Option Error
  cleanup_below threshold d =
      committed db d (deletions db d (deleted_heights threshold (keys_with_prefix d (2 ∷ [])).0))
        (keys_with_prefix d (2 ∷ [])).1

module _ {D : Type 0} (db : Database D) (parse_uint64 : Bytes → Result ℕ) where
  unfoldable pub get_last_accepted_height : D → Result ℕ
  get_last_accepted_height d = then_parse parse_uint64 (db.get d last_accepted_key)

  unfoldable pub get_block_id_height : D → Bytes → Result ℕ
  get_block_id_height d id = then_parse parse_uint64 (db.get d (prefix_block_id_height_key id))

  module _ {P : Type 0} (parse_block : Bytes → Result P) where
    unfoldable pub get_block : D → Bytes → Result P
    get_block d id = elim (get_block_id_height d id) [
      | err e ↦ err e
      | ok height ↦ get_block_by_height db parse_block d height
    ]

  module _ (keys_with_prefix : D → Bytes → List Bytes × Option Error) where
    -- The height of the last accepted block, zero where there is none
    abbrev pub or_zero : Result ℕ → Result ℕ
    or_zero (ok height) = ok height
    or_zero (err not_found) = ok 0
    or_zero (err e) = err e

    unfoldable pub cleanup_on_startup : Config → D → D × Option Error
    cleanup_on_startup config d = elim (or_zero (get_last_accepted_height d)) [
      | err e ↦ (d, some e)
      | ok height ↦
          if nat_beq config.accepted_block_window 0 || leb height config.accepted_block_window
          then (d, none)
          else cleanup_below db keys_with_prefix (height - config.accepted_block_window) d
    ]

    unfoldable pub new_chain_index : Config → D → D × Option StartError
    new_chain_index config d = elim (nat_beq config.block_compaction_frequency 0) [
      | true ↦ (d, some compaction_frequency_zero)
      | false ↦ elim (cleanup_on_startup config d).1 [
        | none ↦ ((cleanup_on_startup config d).0, none)
        | some e ↦ ((cleanup_on_startup config d).0, some (cleanup_failed e))
      ]
    ]
