-- ===== src/Keys.antt =====
-- hypersdk/keys/keys.go: state keys carry the number of chunks of their values in their last two
-- bytes. The pair (uint16, bool) of a result is an Option: `false` comes with 0 only.
pub mod Chunks
use haven_claw.Prelude.{
  ℕ, zero, suc, ◌+◌, ◌-◌, ◌/◌, ◌%◌, ◌^◌, Bool, true, false, Option, none, some, ◌++◌, ltb, leb,
  nat_beq, if◌then◌else◌, length,
}
use haven_claw.Prelude.Words.{max_uint16}
use haven_claw.Bytes.{Bytes, to_be, from_be, slice}

abbrev pub chunk_size : ℕ
chunk_size = 64

unfoldable pub valid : Bytes → Bool
valid key = leb 2 (length key)

unfoldable pub max_chunks : Bytes → Option ℕ
max_chunks key =
    if ltb (length key) 2 then none else some (from_be 0 (slice (length key - 2) 2 key))

unfoldable pub num_chunks_of_len : ℕ → Option ℕ
num_chunks_of_len value_len =
    if nat_beq value_len 0
    then some 0
    else let raw = value_len / chunk_size + 1 in if ltb max_uint16 raw then none else some raw

unfoldable pub num_chunks : Bytes → Option ℕ
unfolding num_chunks_of_len
num_chunks value = num_chunks_of_len (length value)

unfoldable pub verify : ℕ → ℕ → Bytes → Bool
unfolding max_chunks
verify max_key_size max_value_chunks key =
    if ltb max_key_size (length key % 2 ^ 32)
    then false
    else elim (max_chunks key) [ none ↦ false | some chunks ↦ leb chunks max_value_chunks ]

unfoldable pub verify_value : Bytes → Bytes → Bool
unfolding num_chunks max_chunks
verify_value key value = elim (num_chunks value) [
  | none ↦ false
  | some value_chunks ↦ elim (max_chunks key) [
    | none ↦ false
    | some key_chunks ↦ leb value_chunks key_chunks
  ]
]

unfoldable pub encode : Bytes → ℕ → Option Bytes
unfolding num_chunks_of_len
encode key max_size = elim (num_chunks_of_len max_size) [
  | none ↦ none
  | some chunks ↦ some (key ++ to_be 2 chunks)
]

unfoldable pub encode_chunks : Bytes → ℕ → Bytes
encode_chunks key chunks = key ++ to_be 2 chunks

unfoldable pub decode_chunks : Bytes → Option ℕ
decode_chunks key =
    if ltb (length key) 2 then none else some (from_be 0 (slice (length key - 2) 2 key))
