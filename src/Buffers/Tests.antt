-- ===== src/Buffers/Tests.antt =====
-- The operations on sequences of ranges at a short sequence.
use cloudstorageapi.Prelude.{◌+◌, ◌≡◌, ◌≤◌, ◌<◌, ◌%◌, [], ◌∷◌, arith, length, drop}
use cloudstorageapi.Buffers.{
  ConstBufferSequence, bytes, total_bytes, pop_front_bytes, round_up_to_quantum,
}
use cloudstorageapi.Buffers.Bytes.{
  total_bytes-length, bytes-pop_front_bytes, round_up_to_quantum-IsLeast,
}

abbrev ranges : ConstBufferSequence
ranges = (1 ∷ 2 ∷ []) ∷ [] ∷ (3 ∷ 4 ∷ 5 ∷ []) ∷ []

total_bytes-length_example : total_bytes ranges ≡ length (bytes ranges)
total_bytes-length_example = total_bytes-length ranges

bytes-pop_front_bytes_example : bytes (pop_front_bytes ranges 3) ≡ drop 3 (bytes ranges)
bytes-pop_front_bytes_example = bytes-pop_front_bytes ranges 3

round_up_to_quantum-IsLeast_example :
    (10 ≤ round_up_to_quantum 10 4)
    × (round_up_to_quantum 10 4 % 4 ≡ 0)
    × (round_up_to_quantum 10 4 < 10 + 4)
round_up_to_quantum-IsLeast_example = round_up_to_quantum-IsLeast 10 4 (omega arith) (omega arith)
