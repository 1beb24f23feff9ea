-- ===== src/Http.antt =====
-- The REST handlers of src/server/http.rs, `transcribe` and `transcribe_stream`. A session triplet is of
-- any type `T`; the audio decoder, the offline diarizer, the wait for a triplet and the fate of a
-- blocking task are given from outside. The histograms of times are left out.
pub mod Sse
pub mod Complete
pub mod Returned
mod Tests
use monnok_gigastt.Base.{
  ℕ, ◌+◌, ◌⊎◌, inl, inr, Bool, ltb, if◌then◌else◌, Option, none, some, List, [], ◌∷◌, length,
}
use monnok_gigastt.Words.{WordInfo}
use monnok_gigastt.Decode.{is_empty}
use monnok_gigastt.Pool.{Waiter, PoolInner}
use monnok_gigastt.Pool.Guard.{reservation_checkin}
use monnok_gigastt.Stream.{Engine, InferenceError, TranscribeResult, transcribe_samples}
use monnok_gigastt.Protocol.{RuntimeLimits, pool_retry_after_ms, pool_retry_after_secs}
use monnok_gigastt.Session.{Task, finishes, panics, is_lost}

pub data StatusCode : Type 0 where
  bad_request payload_too_large service_unavailable unprocessable_entity internal_server_error :
      StatusCode

pub data ApiCode : Type 0 where
  empty_body body_too_large timeout pool_closed transcription_error invalid_audio internal : ApiCode

-- The text of an error follows from its code.
pub record ApiError : Type 0 where
  pub status : StatusCode
  pub code : ApiCode
  pub retry_after_secs : Option ℕ
  pub retry_after_ms : Option ℕ

abbrev pub api_error : StatusCode → ApiCode → ApiError
api_error status code = record {
  status = status;
  code = code;
  retry_after_secs = none;
  retry_after_ms = none;
}

unfoldable pub api_timeout_error : RuntimeLimits → ApiError
api_timeout_error limits = record {
  status = service_unavailable;
  code = timeout;
  retry_after_secs = some (pool_retry_after_secs limits);
  retry_after_ms = some (pool_retry_after_ms limits);
}

abbrev pub api_pool_closed_error : ApiError
api_pool_closed_error = api_error service_unavailable pool_closed

-- How the wait for a session triplet ends. A handler that is dropped during it is a task of the pool
-- that gives up.
pub data Wait (T : Type 0) : Type 0 where
  checked_out : T → Wait T
  wait_closed : Wait T
  wait_timed_out : Wait T

-- What a request leaves behind: the pool and the counter of timeouts.
pub record Service (T : Type 0) : Type 0 where
  pub pool : PoolInner T
  pub pool_timeouts : ℕ

abbrev pub checked_in : {T : Type 0} → (Waiter → Bool) → Service T → T → Service T
checked_in alive w t = record w { pool = (reservation_checkin alive w.pool t).0 }

-- The wait, and `f` with a triplet.
abbrev pub with_triplet :
    {T A : Type 0}
    → RuntimeLimits
    → Service T
    → Wait T
    → (T → (ApiError ⊎ A) × Service T)
    → (ApiError ⊎ A) × Service T
with_triplet limits w (checked_out t) f = f t
with_triplet limits w wait_closed f = (inl api_pool_closed_error, w)
with_triplet limits w wait_timed_out f =
    (inl (api_timeout_error limits), record w { pool_timeouts = w.pool_timeouts + 1 })

-- The tests of the body before anything else.
abbrev pub checked_body :
    {T A : Type 0}
    → RuntimeLimits
    → List ℕ
    → Service T
    → (ApiError ⊎ A) × Service T
    → (ApiError ⊎ A) × Service T
checked_body limits body w r =
    if is_empty body
    then (inl (api_error bad_request empty_body), w)
    else if ltb limits.body_limit_bytes (length body)
    then (inl (api_error payload_too_large body_too_large), w)
    else r

abbrev pub result_of : InferenceError ⊎ TranscribeResult → Option TranscribeResult
result_of (inl er) = none
result_of (inr r) = some r

module _ {R D : Type 0} (e : Engine R D) (offline : List ℕ → List WordInfo → List WordInfo)
    (decode_audio : List ℕ → Option (List ℕ)) where
  abbrev pub with_samples : Option (List ℕ) → Option TranscribeResult
  with_samples none = none
  with_samples (some samples) = result_of (transcribe_samples e offline samples)

  -- All errors are the same to the handler.
  unfoldable pub transcribe_bytes_shared : List ℕ → Option TranscribeResult
  transcribe_bytes_shared body = with_samples (decode_audio body)

-- How the wait for the blocking task ends: with the task, or since the handler's future is dropped, as
-- it is when the client goes away.
pub data Fate : Type 0 where
  ended : Task → Fate
  dropped : Fate

-- A handler that is dropped answers nothing.
pub data Reply : Type 0 where
  json : TranscribeResult → Reply
  no_reply : Reply

abbrev pub answered : Option TranscribeResult → ApiError ⊎ Reply
answered none = inl (api_error unprocessable_entity transcription_error)
answered (some r) = inr (json r)

-- A triplet that comes back to a handler that is no more is dropped with the task's result.
abbrev pub after_task :
    {T : Type 0}
    → (Waiter → Bool)
    → Fate
    → Option TranscribeResult
    → Service T
    → T
    → (ApiError ⊎ Reply) × Service T
after_task alive (ended finishes) r w t = (answered r, checked_in alive w t)
after_task alive (ended panics) r w t = (answered none, checked_in alive w t)
after_task alive (ended is_lost) r w t = (inl (api_error internal_server_error internal), w)
after_task alive dropped r w t = (inr no_reply, w)

module _ {R D T : Type 0} (e : Engine R D) (offline : List ℕ → List WordInfo → List WordInfo)
    (decode_audio : List ℕ → Option (List ℕ)) (limits : RuntimeLimits) (alive : Waiter → Bool) where
  unfoldable pub transcribe : List ℕ → Wait T → Fate → Service T → (ApiError ⊎ Reply) × Service T
  transcribe body wait fate w = checked_body limits body w (
      with_triplet limits w wait
        (λ t. after_task alive fate (transcribe_bytes_shared e offline decode_audio body) w t))
