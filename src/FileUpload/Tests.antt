-- ===== src/FileUpload/Tests.antt =====
-- Uploads of a small file.
use cloudstorageapi.Prelude.{
  ℕ, ◌≡◌, refl, ap, sym, ◌∙◌, pos, true, false, Option, none, some, List, [], ◌∷◌, ◌++◌, arith,
  length, take, drop,
}
use cloudstorageapi.Status.{StatusOrVal, value, failure}
use cloudstorageapi.Metadata.{FileMetadata}
use cloudstorageapi.Buffers.{bytes, round_up_to_quantum}
use cloudstorageapi.Upload.{ResumableUploadResponse, done, Session}
use cloudstorageapi.WriteStream.Accepted.{Delivering}
use cloudstorageapi.Fixtures.{sink, held, going_on}
use cloudstorageapi.FileUpload.{
  returns, Uploader, UploadRequest, after_upload, upload_stream_round, upload_stream_loop,
  upload_with_session, upload_stream_resumable, resumable_opened, resumable_sized,
  upload_file_resumable, upload_file_impl,
}
use cloudstorageapi.FileUpload.Stored.{Ends}
use cloudstorageapi.FileUpload.Files.{Storing, Unchanging, upload_file_impl-stores}
use cloudstorageapi.FileUpload.Limit.{upload_with_session-overruns}

abbrev metadata : FileMetadata
metadata = record {
  common = record {
    cloud_id = "i";
    name = "n";
    parent_id = "p";
    size = pos 0;
    ctime = pos 0;
    mtime = pos 0;
    atime = pos 0;
  };
  mimetype = none;
  downloadable = true;
}

abbrev complete : ResumableUploadResponse
complete = record going_on { payload = some metadata; upload_state = done }

-- A server that stores all, and tells the metadata at the end.
abbrev vault : Session (List ℕ)
vault = record (sink 2) { upload_final_chunk = λ b n s. (value complete, s ++ bytes b) }

vault-Delivering : Delivering vault held
vault-Delivering = record {
  on_chunk = λ b s h. (refl, refl, refl);
  on_final = λ b n s h. (refl, refl, refl);
}

abbrev whole : List ℕ
whole = 1 ∷ 2 ∷ 3 ∷ 4 ∷ 5 ∷ 6 ∷ 7 ∷ 8 ∷ 9 ∷ []

abbrev uploader : ℕ → Uploader (List ℕ)
uploader simple = record {
  is_regular_file = λ f s. true;
  file_size = λ f s. some 9;
  size_error = "gone";
  open_file = λ f s. some whole;
  create_session = λ q s. (value tt, 3 ∷ 4 ∷ []);
  session = vault;
  insert_file = λ q payload s. (value metadata, payload);
  upload_buffer_size = 3;
  maximum_simple_upload_size = simple;
  file_chunk_quantum = 2;
}

abbrev from_third : Option ℕ → UploadRequest
from_third limit = record {
  folder_id = "f";
  name = "n";
  shown = λ n. "r";
  upload_from_offset = some 2;
  upload_limit = limit;
  upload_content_length = none;
}

abbrev content : List ℕ
content = 3 ∷ 4 ∷ 5 ∷ 6 ∷ 7 ∷ 8 ∷ 9 ∷ []

uploader-Storing : (n : ℕ) → Storing (uploader n) held content
uploader-Storing n = record {
  delivering = vault-Delivering;
  no_payload = λ b s s' r h. ap (λ x. payload_in x.0) (sym h);
  on_create = λ q s s' h. (refl, sym (ap (λ x. x.1) h) ∙ ap (λ x. take (length x.1) content) h);
  on_insert = λ q payload s s' m h. sym (ap (λ x. x.1) h);
}
  where
    payload_in : StatusOrVal ResumableUploadResponse → Option FileMetadata
    payload_in (value r) = r.payload
    payload_in (failure e) = none

-- The server has two bytes of the part already.
resumed :
    upload_file_impl (uploader 5) 20 true "a" (from_third none) []
    ≡ some (returns (value metadata), content)
unfolding upload_file_impl upload_file_resumable resumable_sized resumable_opened
    upload_stream_resumable upload_with_session upload_stream_loop upload_stream_round after_upload
    round_up_to_quantum
resumed = refl

file-Unchanging :
    (n : ℕ)
    → Unchanging (uploader n) held content (uploader-Storing n) "a" (from_third none) whole []
file-Unchanging n = record {
  regular = refl;
  sized = refl;
  opens = refl;
  from = omega arith;
  part = refl;
  limitless = refl;
}

upload_file_impl-stores_example :
    Ends held content (upload_file_impl (uploader 5) 20 false "a" (from_third none) [])
upload_file_impl-stores_example =
    upload_file_impl-stores (uploader 5) held content (uploader-Storing 5) (omega arith)
      (omega arith) (omega arith) 20 false "a" (from_third none) whole [] (omega arith)
      (file-Unchanging 5)

-- A limit of three, on a server that holds two bytes: it gets four more.
limited :
    upload_with_session
      (uploader 5)
      5
      (record { rest = content; eof = false })
      (from_third (some 3))
      (3 ∷ 4 ∷ [])
    ≡ some (returns (value metadata), 3 ∷ 4 ∷ 5 ∷ 6 ∷ 7 ∷ 8 ∷ [])
unfolding upload_with_session upload_stream_loop upload_stream_round after_upload
    round_up_to_quantum
limited = refl

upload_with_session-overruns_example : Ends held ((3 ∷ 4 ∷ []) ++ take 4 (drop 2 content)) (
    upload_with_session
      (uploader 5)
      5
      (record { rest = content; eof = false })
      (from_third (some 3))
      (3 ∷ 4 ∷ []))
unfolding round_up_to_quantum
upload_with_session-overruns_example =
    upload_with_session-overruns (uploader 5) held vault-Delivering 4 3 3
      (record { rest = content; eof = false }) (from_third (some 3)) (3 ∷ 4 ∷ []) refl refl refl
      refl (omega arith) (omega arith)
