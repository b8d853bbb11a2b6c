-- ===== src/Tests/Keys.antt =====
-- Tests of keys/keys.go and state/keys.go.
use haven_claw.Prelude.{
  ◌≡◌, ◌<◌, refl, true, false, some, [], ◌∷◌, ◌++◌, arith, ◌==◌, bytes_comparable,
}
use haven_claw.Dict.{lookup}
use haven_claw.Bytes.{Bytes, from_be, to_be}
use haven_claw.Keys.{
  valid, max_chunks, num_chunks_of_len, verify, encode, encode_chunks, decode_chunks,
}
use haven_claw.Keys.Chunks.{max_chunks-encode_chunks}
use haven_claw.StateKeys.{
  Keys, Permissions, keys_has, read, allocate, write, all, has, permission_of, add, chunk_sizes,
  without_permissions, simulated_has,
}
use haven_claw.StateKeys.Grants.{add-keys_has}

abbrev name : Bytes
name = b'b' ∷ b'a' ∷ []

encode_runs : encode name 65 ≡ some (b'b' ∷ b'a' ∷ 0 ∷ 2 ∷ [])
unfolding encode to_be
encode_runs = refl

-- 64 bytes already count as two chunks.
chunks_run : (num_chunks_of_len 63 ≡ some 1) × (num_chunks_of_len 64 ≡ some 2)
unfolding num_chunks_of_len
chunks_run = (refl, refl)

verify_runs : (verify 4 2 (name ++ 0 ∷ 2 ∷ []) ≡ true) × (verify 3 2 (name ++ 0 ∷ 2 ∷ []) ≡ false)
unfolding verify from_be
verify_runs = (refl, refl)

max_chunks-encode_chunks_example :
    (max_chunks (encode_chunks name 300) ≡ some 300)
    × (decode_chunks (encode_chunks name 300) ≡ some 300)
    × (valid (encode_chunks name 300) ≡ true)
max_chunks-encode_chunks_example = max_chunks-encode_chunks name 300 (omega arith)

abbrev declared : Keys
declared = (name, read) ∷ []

add_runs : (add declared name allocate).0 ≡ (name, allocate) ∷ []
unfolding add lookup haven_claw.Dict.insert haven_claw.Dict.delete valid
add_runs = refl

has_runs : (has write read ≡ true) × (has read write ≡ false) × (has all allocate ≡ true)
unfolding has
has_runs = (refl, refl, refl)

simulated_runs : simulated_has declared name write ≡ ((name, write) ∷ [], true)
unfolding simulated_has lookup haven_claw.Dict.insert haven_claw.Dict.delete valid
simulated_runs = refl

chunk_sizes_run : chunk_sizes ((b'x' ∷ 1 ∷ 2 ∷ [], read) ∷ []) ≡ some (258 ∷ [])
unfolding chunk_sizes decode_chunks from_be
chunk_sizes_run = refl

listing_run : without_permissions declared ≡ [] ∷ name ∷ []
unfolding without_permissions
listing_run = refl

abbrev suffixed : Bytes
suffixed = b'x' ∷ 1 ∷ 2 ∷ []

abbrev granted : Keys
granted = (suffixed, read) ∷ []

read_is_byte : permission_of granted suffixed < 256
unfolding permission_of lookup
read_is_byte = omega arith

add-keys_has_example :
    ((add granted suffixed allocate).1 ≡ true)
    × (keys_has (add granted suffixed allocate).0 suffixed allocate ≡ true)
    × (keys_has (add granted suffixed allocate).0 suffixed (permission_of granted suffixed) ≡ true)
    × ((j : Bytes) (r : Permissions)
        → (suffixed == j) ≡ false
        → keys_has (add granted suffixed allocate).0 j r ≡ keys_has granted j r)
unfolding valid
add-keys_has_example = add-keys_has granted suffixed allocate refl read_is_byte (omega arith)
