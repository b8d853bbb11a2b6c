-- ===== src/Keys/Chunks.antt =====
-- What the chunk suffix of a key promises about the values that the key admits.
use haven_claw.Prelude.{
  ℕ, ◌+◌, ◌-◌, ◌/◌, ◌^◌, ◌≤◌, ◌<◌, ◌≡◌, ap, true, none, some, ◌++◌, arith, leb, false, inl, inr,
  nat_beq, Option-cases, if◌then◌else◌, length, take, length-append, drop-append,
}
use haven_claw.Bytes.{Bytes, to_be, from_be, slice, length-to_be, from_be-to_be}
use haven_claw.Keys.{
  valid, max_chunks, num_chunks_of_len, num_chunks, verify_value, encode, encode_chunks,
  decode_chunks,
}

-- MaxChunks and DecodeChunks read back the chunk count that EncodeChunks appends to a key, for
-- every uint16 count, and the encoded key is Valid.
pub max_chunks-encode_chunks :
    (key : Bytes) (chunks : ℕ)
    → chunks < 2 ^ 16
    → (max_chunks (encode_chunks key chunks) ≡ some chunks)
      × (decode_chunks (encode_chunks key chunks) ≡ some chunks)
      × (valid (encode_chunks key chunks) ≡ true)
unfolding max_chunks decode_chunks encode_chunks valid to_be
max_chunks-encode_chunks key chunks h =
    let size : length (key ++ to_be 2 chunks) ≡ length key + 2 =
      omega (arith, length-append key (to_be 2 chunks), length-to_be 2 chunks) in
    let suffix : slice (length (key ++ to_be 2 chunks) - 2) 2 (key ++ to_be 2 chunks)
        ≡ to_be 2 chunks =
      ap (take 2) (drop-append key (to_be 2 chunks) _ (omega arith)) in
    let back : from_be 0 (to_be 2 chunks) ≡ chunks = from_be-to_be 2 chunks h in
    ground (arith, suffix, back, size)

abbrev chunks_needed : ℕ → ℕ
chunks_needed n = if nat_beq n 0 then 0 else n / 64 + 1

num_chunks_of_len_mono :
    (n m c : ℕ)
    → n ≤ m
    → num_chunks_of_len m ≡ some c
    → (num_chunks_of_len n ≡ some (chunks_needed n)) × (chunks_needed n ≤ c) × (c < 2 ^ 16)
unfolding num_chunks_of_len
num_chunks_of_len_mono n m c p h = ground arith

-- A key made by Encode for values of at most `max_size` bytes admits every such value.
pub verify_value-encode :
    (key : Bytes) (max_size : ℕ) (k value : Bytes)
    → encode key max_size ≡ some k
    → length value ≤ max_size
    → verify_value k value ≡ true
unfolding encode verify_value encode_chunks num_chunks
verify_value-encode key max_size k value h p = elim (Option-cases (num_chunks_of_len max_size)) [
  | inl e ↦ ground arith
  | inr (c, e) ↦
      ground
        (arith, num_chunks_of_len_mono (length value) max_size c, max_chunks-encode_chunks key c)
]

-- An encoded key admits exactly the values whose chunks its suffix counts.
pub verify_value-encode_chunks :
    (key value : Bytes) (chunks : ℕ)
    → chunks < 2 ^ 16
    → verify_value (encode_chunks key chunks) value
      ≡ elim (num_chunks value) [ none ↦ false | some needed ↦ leb needed chunks ]
unfolding verify_value
verify_value-encode_chunks key value chunks h = ground (arith, max_chunks-encode_chunks key chunks)
