-- ===== src/Download/Contract.antt =====
-- What the request relies on in libcurl.
use cloudstorageapi.Prelude.{ℕ, ◌≡◌, ◌≢◌, ◌⊎◌, ◌≤◌, ◌<◌, Bool, some, List}
use cloudstorageapi.Status.{Status}
use cloudstorageapi.Download.{call_multi_perform, DownloadRequest, OnWrite, Libcurl}
use cloudstorageapi.Download.Flow.{Delivers}

-- libcurl as it is documented. `remaining` is the part of the body that it has not handed over;
-- only the calls that take a callback hand over bytes. `work` bounds the calls that are still to
-- come until the transfer is done: while handles are running, or messages are left, each call of
-- `curl_multi_perform` and `curl_multi_info_read` uses some of it up.
pub record Transferring {E : Type 0} (curl : Libcurl E) (remaining : E → List ℕ) (work : E → ℕ)
    : Type 0 where
  pub on_pause :
      (f : OnWrite) (e : E) (d : DownloadRequest)
      → Delivers f d (remaining e) (curl.easy_pause f e d).2 (remaining (curl.easy_pause f e d).3)
  pub on_perform :
      (f : OnWrite) (e : E) (d : DownloadRequest)
      → Delivers f d
          (remaining e)
          (curl.multi_perform f e d).3
          (remaining (curl.multi_perform f e d).4)
  pub same_callbacks : (e : E) → remaining (curl.set_callbacks e) ≡ remaining e
  pub same_info : (e : E) → remaining (curl.info_read e).1 ≡ remaining e
  pub same_remove : (e : E) → remaining (curl.multi_remove_handle e).1 ≡ remaining e
  pub same_wait : (e : E) → remaining (curl.multi_wait e).2 ≡ remaining e
  pub same_sleep : (n : ℕ) (e : E) → remaining (curl.sleep_for n e) ≡ remaining e
  pub pause_work :
      (f : OnWrite) (e : E) (d : DownloadRequest) → work (curl.easy_pause f e d).3 ≤ work e
  pub perform_work_le :
      (f : OnWrite) (e : E) (d : DownloadRequest) → work (curl.multi_perform f e d).4 ≤ work e
  pub perform_again :
      (f : OnWrite) (e : E) (d : DownloadRequest)
      → ((curl.multi_perform f e d).0 ≡ call_multi_perform) ⊎ ((curl.multi_perform f e d).1 ≢ 0)
      → work (curl.multi_perform f e d).4 < work e
  pub callbacks_work : (e : E) → work (curl.set_callbacks e) ≤ work e
  pub info_work :
      (e e' : E) (m : Bool × Status) → curl.info_read e ≡ (some m, e') → work e' < work e
  pub info_none : (e : E) → work (curl.info_read e).1 ≤ work e
  pub remove_work : (e : E) → work (curl.multi_remove_handle e).1 ≤ work e
  pub wait_work : (e : E) → work (curl.multi_wait e).2 ≤ work e
  pub cleanup_work : (e : E) → work (curl.cleanup_handles e) ≤ work e
  pub sleep_work : (n : ℕ) (e : E) → work (curl.sleep_for n e) ≤ work e
