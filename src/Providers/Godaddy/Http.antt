-- ===== src/Providers/Godaddy/Http.antt =====
-- providers/godaddy/godaddy.go, `do`: a request through the rate limiter, sent again after a network
-- error, a 429 and a 5xx.
pub mod Retries
pub mod Answers
use dns_entree.Base.{
  ℕ, zero, suc, ◌*◌, ◌%◌, ◌^◌, ℤ, ◌==◌, ◌||◌, Bool, List, Option, none, some, if◌then◌else◌, leb,
  ltb,
}
use dns_entree.Text.{Bytes}
use dns_entree.Template.Signature.{atoi}
use dns_entree.Record.Errors.{Error, Result, ok, err}

pub record GodaddyRecord : Type 0 where
  pub typ : Bytes
  pub name : Bytes
  pub data_of : Bytes
  pub ttl : ℤ

-- The URL and, for a PUT, the records of its body.
pub data HttpRequest : Type 0 where
  get_request delete_request : Bytes → HttpRequest
  put_request : Bytes → List GodaddyRecord → HttpRequest

-- The status, the header `Retry-After`, and the records that the body decodes to.
pub record Reply : Type 0 where
  pub status : ℕ
  pub retry_after : Bytes
  pub body : Result (List GodaddyRecord)

-- The limiter, the HTTP client with the errors of the network, and the sleep in nanoseconds. Every
-- URL parses.
pub record Client (S : Type 0) : Type 0 where
  pub base_url : Bytes
  pub max_retries : ℕ
  pub wait : S → Option Error × S
  pub send : HttpRequest → S → Result Reply × S
  pub sleep : ℕ → S → S

-- What a duration of Go's int64 sleeps: one that has wrapped to a negative number, nothing.
unfoldable pub as_sleep : ℕ → ℕ
as_sleep n = let d = n % 2 ^ 64 in if ltb d (2 ^ 63) then d else 0

abbrev pub second : ℕ
second = 1000000000

unfoldable pub backoff_duration : ℕ → ℕ
unfolding as_sleep
backoff_duration attempt = as_sleep (500000000 * 2 ^ attempt)

unfoldable pub or_backoff : ℕ → Option ℤ → ℕ
unfolding as_sleep backoff_duration
or_backoff attempt (some (ℤ.pos secs)) = as_sleep (secs * second)
or_backoff attempt _ = backoff_duration attempt

unfoldable pub pause : ℕ → Reply → ℕ
unfolding atoi or_backoff
pause attempt r = or_backoff attempt (atoi r.retry_after)

unfoldable pub is_retryable : Reply → Bool
is_retryable r = leb 500 r.status || (r.status == 429)

module _ {S : Type 0} (client : Client S) (req : HttpRequest) where
  abbrev pub after_limit : Option Error × S → (S → Result Reply × S) → Result Reply × S
  after_limit (some e, s) next = (err e, s)
  after_limit (none, s) next = next s

  unfoldable pub after_send : ℕ → Result Reply × S → (ℕ → S → Result Reply × S) → Result Reply × S
  unfolding backoff_duration is_retryable pause
  after_send attempt (err e, s) again = again (backoff_duration attempt) s
  after_send attempt (ok r, s) again =
      if is_retryable r then again (pause attempt r) s else (ok r, s)

  -- The last attempt's outcome is returned as it is.
  unfoldable pub attempt_from : (left attempt : ℕ) → S → Result Reply × S
  unfolding after_send
  attempt_from zero attempt s = after_limit (client.wait s) (client.send req)
  attempt_from (suc left) attempt s = after_limit (client.wait s) (λ t.
      after_send attempt (client.send req t)
        (λ ns u. attempt_from left (suc attempt) (client.sleep ns u)))

  unfoldable pub do_request : S → Result Reply × S
  unfolding attempt_from
  do_request s = attempt_from client.max_retries 0 s
