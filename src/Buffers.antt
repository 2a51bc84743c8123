-- ===== src/Buffers.antt =====
-- Sequences of memory ranges (include/cloudstorageapi/internal/const_buffer.h and
-- src/const_buffer.cpp) and the rounding of src/utils.cpp. A range is the list of its bytes.
pub mod Bytes
mod Tests
use cloudstorageapi.Prelude.{
  ℕ, zero, suc, ◌+◌, ◌-◌, ◌*◌, ◌/◌, ◌%◌, ◌^◌, List, [], ◌∷◌, ◌++◌, ltb, leb, ◌==◌, if◌then◌else◌,
  length, drop,
}

abbrev pub ConstBuffer : Type 0
ConstBuffer = List ℕ

abbrev pub ConstBufferSequence : Type 0
ConstBufferSequence = List ConstBuffer

-- The fold of `TotalBytes` from its start value.
total_from : ℕ → ConstBufferSequence → ℕ
total_from acc [] = acc
total_from acc (b ∷ bs) = total_from (acc + length b) bs

-- `TotalBytes`. The ranges lie in memory, so the sum does not wrap.
unfoldable pub total_bytes : ConstBufferSequence → ℕ
unfolding total_from
total_bytes s = total_from 0 s

-- What `PopFrontBytes` leaves of the sequence at the iterator, with `count` bytes still to go.
front_trimmed : ConstBuffer → ConstBufferSequence → ℕ → ConstBufferSequence
front_trimmed b bs count = if ltb 0 count then drop count b ∷ bs else b ∷ bs

-- `PopFrontBytes`: skip the ranges that are removed whole, then shorten the next one.
unfoldable pub pop_front_bytes : ConstBufferSequence → ℕ → ConstBufferSequence
unfolding front_trimmed
pop_front_bytes [] count = []
pop_front_bytes (b ∷ bs) count =
    let rest = pop_front_bytes bs (count - length b) in
    if leb (length b) count then rest else front_trimmed b bs count

-- The bytes of a sequence, in order.
abbrev pub bytes : ConstBufferSequence → List ℕ
bytes [] = []
bytes (b ∷ bs) = b ++ bytes bs

-- `RoundUpToQuantum`: the product of two `std::size_t` wraps. (C++ has no result at a quantum of
-- zero.)
unfoldable pub round_up_to_quantum : ℕ → ℕ → ℕ
round_up_to_quantum max_chunk_size quantum_size =
    if max_chunk_size % quantum_size == 0
    then max_chunk_size
    else ((max_chunk_size / quantum_size + 1) * quantum_size) % 2 ^ 64
