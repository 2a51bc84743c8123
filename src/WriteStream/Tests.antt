-- ===== src/WriteStream/Tests.antt =====
-- The theorems on the stream at concrete calls.
use cloudstorageapi.Prelude.{
  ℕ, ◌+◌, ◌≡◌, ◌<◌, ◌%◌, refl, none, some, List, [], ◌∷◌, ◌++◌, arith, length, take, drop, true,
}
use cloudstorageapi.Status.{value}
use cloudstorageapi.Buffers.{
  ConstBufferSequence, bytes, pop_front_bytes, total_bytes, round_up_to_quantum,
}
use cloudstorageapi.WriteStream.{
  live, closed, Streambuf, make_streambuf, flush_round_chunk, flush, flush_final, close,
  after_chunk, auto_flush_final, is_open, is_open_held, trim_back, xsputn, sputc, sync, overflow,
}
use cloudstorageapi.WriteStream.Trim.{Trims, trim_back-Trims}
use cloudstorageapi.WriteStream.Accepted.{flush_round_chunk-sends}
use cloudstorageapi.WriteStream.Whole.{Call, write, put, synchronize, performs, stream-stores}
use cloudstorageapi.WriteStream.Failure.{Untouched, performs-Untouched, overflow-overruns}
use cloudstorageapi.Fixtures.{sink, downed, going_on, held, sink-Delivering}

abbrev calls : List Call
calls = write (1 ∷ 2 ∷ 3 ∷ []) ∷ put 4 ∷ put 5 ∷ write (6 ∷ 7 ∷ 8 ∷ 9 ∷ 10 ∷ []) ∷ synchronize ∷ []

-- The stream after these calls: an even number of bytes is sent at a time.
abbrev waiting : Streambuf (List ℕ)
waiting = record {
  inner = 0 ∷ 1 ∷ 2 ∷ 3 ∷ 4 ∷ 5 ∷ 6 ∷ 7 ∷ 8 ∷ 9 ∷ 10 ∷ [];
  held = live;
  put_area = [];
  area_size = 4;
  buffer_size = 4;
  max_buffer_size = 4;
  auto_finalize = true;
  last_response = value going_on;
}

performed : performs (sink 2) calls (make_streambuf (sink 2) (0 ∷ []) 3 true) ≡ (true, waiting)
unfolding make_streambuf xsputn sputc sync overflow flush flush_round_chunk after_chunk is_open
    is_open_held trim_back pop_front_bytes total_bytes round_up_to_quantum
performed = refl

-- The stream once it is closed.
abbrev finished : Streambuf (List ℕ)
finished = record waiting { held = closed; area_size = 0; buffer_size = 1 }

ended : close (sink 2) waiting ≡ (value going_on, finished)
unfolding close flush_final is_open is_open_held
ended = refl

stream-stores_example :
    held finished.inner ≡ held (0 ∷ []) ++ (1 ∷ 2 ∷ 3 ∷ 4 ∷ 5 ∷ 6 ∷ 7 ∷ 8 ∷ 9 ∷ 10 ∷ [])
unfolding is_open is_open_held
stream-stores_example =
    stream-stores (sink 2) held (sink-Delivering 2) (0 ∷ []) 3 true calls waiting finished going_on
      refl (omega arith) (omega arith) (omega arith) performed refl ended

trim_back-Trims_example : Trims 2 ((4 ∷ []) ∷ (1 ∷ 2 ∷ 3 ∷ []) ∷ []) (0, (1 ∷ 2 ∷ []) ∷ [])
unfolding trim_back
trim_back-Trims_example = trim_back-Trims 2 ((4 ∷ []) ∷ (1 ∷ 2 ∷ 3 ∷ []) ∷ []) (omega arith)

flush_round_chunk-sends_example :
    (payload : ConstBufferSequence) × (bytes payload
      ≡ take (length (bytes payload)) (1 ∷ 2 ∷ 3 ∷ []))
    × (length (bytes payload) % 2 ≡ 0)
    × (3 < length (bytes payload) + 2)
    × (flush_round_chunk (sink 2) ((1 ∷ 2 ∷ 3 ∷ []) ∷ []) waiting
        ≡ after_chunk
            (sink 2)
            11
            (11 + length (bytes payload))
            (drop (length (bytes payload)) (1 ∷ 2 ∷ 3 ∷ []))
            ((sink 2).upload_chunk payload waiting.inner)
            waiting)
flush_round_chunk-sends_example =
    flush_round_chunk-sends (sink 2) ((1 ∷ 2 ∷ 3 ∷ []) ∷ []) waiting (omega arith)

performs-Untouched_example :
    Untouched (sink 2) finished (performs (sink 2) calls finished).1
    × Untouched (sink 2) finished (close (sink 2) (performs (sink 2) calls finished).1).1
    × Untouched (sink 2) finished (auto_flush_final (sink 2) (performs (sink 2) calls finished).1)
unfolding is_open is_open_held
performs-Untouched_example = performs-Untouched (sink 2) calls finished refl

abbrev full : Streambuf (List ℕ)
full = record waiting { put_area = 1 ∷ 2 ∷ 3 ∷ 4 ∷ [] }

overflow-overruns_example :
    ((overflow (downed 2) (some 5) full).0 ≡ none)
    × ((overflow (downed 2) (some 5) full).1.area_size
        < length (overflow (downed 2) (some 5) full).1.put_area)
unfolding is_open is_open_held
overflow-overruns_example =
    overflow-overruns (downed 2) 5 full refl refl refl (omega arith) (λ p. refl)
