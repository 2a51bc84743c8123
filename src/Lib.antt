-- ===== src/Lib.antt =====
-- A verification library of the cloud storage client: the statuses and the retry machinery that
-- every call goes through, and the resumable uploads and streams that are built on them.
--
-- The parts and how they interact. A call of the client returns a `StatusOrVal`. `MakeCall` of
-- src/transport/retry_client.cpp repeats a call as long as its retry policy allows, and sleeps as
-- long as its backoff policy says. A resumable upload session sends the chunks of a file;
-- `RetryResumableUploadSession` wraps another session and repeats and resets it under the same
-- policies. `FileWriteStreambuf` collects the bytes of an output stream, and hands them to a session
-- in chunks whose size is a multiple of the quantum. `FileReadStreambuf` gives the bytes of a source,
-- and `RetryObjectReadSource` is a source that replaces one that failed.
--
-- The files.
--   Prelude: numbers, tests, lists and texts that the other modules share.
--   Status: include/cloudstorageapi/status.h, status_or_val.h, src/status.cpp, and the permanent
--     failures of include/cloudstorageapi/retry_policy.h.
--   Http: include/cloudstorageapi/internal/http_response.h and src/transport/http_response.cpp.
--   Buffers: include/cloudstorageapi/internal/const_buffer.h, src/const_buffer.cpp, and
--     `RoundUpToQuantum` of src/utils.cpp.
--   Boundary: `GenerateMessageBoundary` of include/cloudstorageapi/internal/utils.h.
--   Policy: retry_policy_internal.h, backoff_policy_internal.h and its source. `World` is the clock,
--     the sleep and the random numbers, as operations on a state.
--   Retry: `MakeCall` of src/transport/retry_client.cpp, over any call and any state.
--   RetryClient: the methods of src/transport/retry_client.cpp, over any raw client.
--   Metadata: the metadata of files, as far as responses carry them.
--   Upload: the session interface as a record of operations, the responses and the session that
--     always fails. Upload.Contract says what a client relies on in a session.
--     Upload.RetrySession: src/transport/retry_resumable_upload_session.cpp. Upload.CurlSession:
--     src/transport/curl_resumable_upload_session.cpp, over any client.
--   WriteStream: src/file_write_streambuf.cpp.
--   Paging: include/cloudstorageapi/internal/pagination_range.h and stream_range.h.
--   ReadSource: src/retry_object_read_source.cpp and the range of
--     `ReadFileRangeRequest` in src/transport/file_requests.cpp.
--   ReadStream: src/file_read_streambuf.cpp, over any source; ReadStream.Resumed puts it over the
--     retrying source.
--   Download: src/transport/curl_download_request.cpp, over a libcurl whose documented behaviour is
--     Download.Contract.
--   FileUpload: the uploads of files in include/cloudstorageapi/cloud_storage_client.h and
--     src/cloud_storage_client.cpp.
--   FileDownload: the downloads of files in src/cloud_storage_client.cpp, over
--     src/file_read_stream.cpp.
--   GoogleDrive: the resumable uploads of src/transport/clients/curl_googledrive_client.cpp, the range
--     headers of src/transport/clients/google_utils.cpp, and the response to an upload in
--     include/cloudstorageapi/internal/clients/google_response_parser.h. GoogleDrive.Follows makes it
--     the client that Upload.CurlSession relies on.
--   Rfc3339: src/rfc3339_time.cpp, with the calendar of the C library, and its `sscanf` in
--     Rfc3339.Scan.
--   HandlePool: `PooledCurlHandleFactory` of src/transport/curl_handle_factory.cpp.
--   Fixtures, and the modules Tests: surroundings, sessions and concrete runs.
--
-- Conventions. A byte is a number and a memory range is the list of its bytes. Stateful code takes
-- its state and returns it. A session is a record of functions on one state, which stands for the
-- session and what it talks to. Sizes of memory do not wrap, except in
-- `RoundUpToQuantum`, whose product can exceed them; the subtraction of byte counts in
-- `UploadGenericChunk`, on `uint64_t`, wraps, and is written so. The offset of the process's zone at a
-- local date is a parameter. A delay is a number of microseconds,
-- and its product with the scaling factor, a `double`, is a parameter. A function that throws has an
-- outcome for that.
--
-- Loops. `MakeCall`, the loops of `RetryResumableUploadSession` and that of `Read` run on fuel, which
-- counts rounds, and `none` says that it ran out. Under a counting policy a round that goes on uses up
-- a failure, so that one or two rounds more than the failures allowed are enough; a short write uses
-- up a byte at least, unless the server stores nothing and reports success, and the rounds of an
-- upload are bounded by the failures and the bytes together. The loop of `GenerateMessageBoundary`
-- makes its candidate longer in each round, and ends when it is longer than the message.
--
-- The loop of an upload from a stream needs a round for each byte at most, and two more, and that of a
-- download into a file one more. The loops of
-- a transfer run on fuel, which is enough if it is more than the calls of libcurl that are
-- still to come.
--
-- Not modelled: libcurl (the pool of its handles and the downloads take it as a parameter) and the
-- requests that are not downloads, the files of credentials, JSON, logging, and most requests of the one
-- provider.
pub mod Prelude
pub mod Status
pub mod Http
pub mod Buffers
pub mod Boundary
pub mod Policy
pub mod Retry
pub mod Metadata
pub mod Upload
pub mod WriteStream
pub mod Paging
pub mod ReadSource
pub mod HandlePool
pub mod ReadStream
pub mod Download
pub mod FileDownload
pub mod FileUpload
pub mod RetryClient
pub mod Rfc3339
pub mod GoogleDrive
pub mod Fixtures
