-- ===== src/Fixtures.antt =====
-- Surroundings and sessions for the tests of several components.
use cloudstorageapi.Prelude.{
  ℕ, ◌+◌, ◌≡◌, refl, false, none, List, ◌++◌, length, take, take_all, dec_lt, min, arith, ◌∙◌, ap,
  sym,
}
use cloudstorageapi.Status.{Status, value, failure, unavailable}
use cloudstorageapi.Policy.{World, BackoffPolicy}
use cloudstorageapi.Policy.Delays.{DrawsBetween}
use cloudstorageapi.Buffers.{bytes}
use cloudstorageapi.Upload.{ResumableUploadResponse, in_progress, Session}
use cloudstorageapi.Upload.Contract.{Committing, Quiet}
use cloudstorageapi.WriteStream.Accepted.{Delivering}

-- A clock that stands still, sleeps that change nothing, and the largest of each draw.
abbrev pub still : {W : Type 0} → World W
still = record { now = λ w. (0, w); sleep_for = λ d w. w; draw = λ lo hi w. (hi, w) }

abbrev pub still-DrawsBetween : {W : Type 0} → DrawsBetween {W = W} still
still-DrawsBetween lo hi w h = (h, omega arith)

abbrev pub brief : BackoffPolicy
brief = record {
  initial_delay = 1000;
  current_delay_range = 2000;
  maximum_delay = 5000;
  scale = λ d. d + d;
}

abbrev pub going_on : ResumableUploadResponse
going_on = record {
  upload_session_url = "u";
  last_committed_byte = 0;
  payload = none;
  upload_state = in_progress;
  annotations = "";
}

-- A server that stores the first bytes of a chunk, `most` at most; its state is what it holds.
abbrev pub server : ℕ → ℕ → Session (List ℕ)
server most quantum = record {
  upload_chunk = λ b s. (value going_on, s ++ take most (bytes b));
  upload_final_chunk = λ b n s. (value going_on, s ++ take most (bytes b));
  reset_session = λ s. (value going_on, s);
  next_expected_byte = length;
  session_id = λ s. "u";
  file_chunk_size_quantum = λ s. quantum;
  is_done = λ s. false;
  last_response = λ s. value going_on;
}

abbrev pub held : List ℕ → List ℕ
held s = s

take-min : (n : ℕ) (xs : List ℕ) → take n xs ≡ take (min n (length xs)) xs
take-min n xs = elim (dec_lt n (length xs)) [
  | yes p ↦ ap (λ k. take k xs) (omega arith)
  | no p ↦ take_all n xs (omega arith) ∙ sym (take_all (min n (length xs)) xs (omega arith))
]

pub server-Committing : (most quantum : ℕ) → Committing (server most quantum) held
server-Committing most quantum = record {
  on_chunk = λ b s h. (
    min most (length (bytes b)),
    omega arith,
    ap (λ t. s ++ t) (take-min most (bytes b)),
    (λ p. refl, λ p. absurd cc),
  );
  on_final = λ b n s h. (
    min most (length (bytes b)),
    omega arith,
    ap (λ t. s ++ t) (take-min most (bytes b)),
    (λ p. refl, λ p. absurd cc),
  );
  on_reset = λ s. (refl, refl);
}

pub still-Quiet : (most quantum : ℕ) → Quiet still (server most quantum) held
still-Quiet most quantum = record {
  stored-now = λ s. refl;
  stored-sleep = λ d s. refl;
  stored-draw = λ lo hi s. refl;
  next-now = λ s. refl;
  next-sleep = λ d s. refl;
  next-draw = λ lo hi s. refl;
}

-- A server that stores all of a chunk.
abbrev pub sink : ℕ → Session (List ℕ)
sink quantum = record (server 0 quantum) {
  upload_chunk = λ b s. (value going_on, s ++ bytes b);
  upload_final_chunk = λ b n s. (value going_on, s ++ bytes b);
}

pub sink-Delivering : (quantum : ℕ) → Delivering (sink quantum) held
sink-Delivering quantum = record {
  on_chunk = λ b s h. (refl, refl, refl);
  on_final = λ b n s h. (refl, refl, refl);
}

abbrev pub down : Status
down = record { code = unavailable; message = "down" }

-- A server that is down.
abbrev pub downed : ℕ → Session (List ℕ)
downed quantum = record (server 0 quantum) {
  upload_chunk = λ b s. (failure down, s);
  upload_final_chunk = λ b n s. (failure down, s);
}
