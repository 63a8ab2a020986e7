-- ===== src/Providers/Godaddy/Http/Retries.antt =====
-- providers/godaddy/godaddy.go, `do`: which attempts are made, and what is returned.
use dns_entree.Base.{
  ℕ, zero, suc, ◌+◌, ◌≡◌, refl, true, false, Option, none, some, arith, Bool-cases, inl, inr,
}
use dns_entree.Record.Errors.{Error, Result, ok, err}
use dns_entree.Providers.Godaddy.Http.{
  HttpRequest, Reply, Client, backoff_duration, pause, is_retryable, after_limit, after_send,
  attempt_from, do_request,
}

module _ {S : Type 0} (client : Client S) (req : HttpRequest) where
  -- One attempt that is made again: the limiter lets it pass, and it ends in an error or in a reply
  -- that is no answer.
  pub data Fails (attempt : ℕ) (s : S) : S → Type 0 where
    broken :
        {t u : S} (e : Error)
        → client.wait s ≡ (none, t)
        → client.send req t ≡ (err e, u)
        → Fails attempt s (client.sleep (backoff_duration attempt) u)
    put_off :
        {t u : S} (r : Reply)
        → client.wait s ≡ (none, t)
        → client.send req t ≡ (ok r, u)
        → is_retryable r ≡ true
        → Fails attempt s (client.sleep (pause attempt r) u)

  -- `Tries a n s t`: from `s`, the attempts number `a` to `a + n - 1` are made again, up to `t`.
  pub data Tries : ℕ → ℕ → S → S → Type 0 where
    start : {a : ℕ} {s : S} → Tries a 0 s s
    again : {a n : ℕ} {s t u : S} → Fails a s t → Tries (suc a) n t u → Tries a (suc n) s u

  -- How the attempt ends that is not made again, `left` attempts being left after it.
  pub data Ends (left : ℕ) (s : S) : Result Reply × S → Type 0 where
    refused : {e : Error} {t : S} → client.wait s ≡ (some e, t) → Ends left s (err e, t)
    answered :
        {r : Reply} {t u : S}
        → client.wait s ≡ (none, t)
        → client.send req t ≡ (ok r, u)
        → is_retryable r ≡ false
        → Ends left s (ok r, u)
    exhausted : {t : S} → left ≡ 0 → client.wait s ≡ (none, t) → Ends left s (client.send req t)

  pub record IsRun (left attempt : ℕ) (s : S) (o : Result Reply × S) : Type 0 where
    pub tries : ℕ
    pub unused : ℕ
    pub within : tries + unused ≡ left
    pub last : S
    pub before : Tries attempt tries s last
    pub ends : Ends unused last o

  one_more :
      {left attempt : ℕ} {s t : S} {o : Result Reply × S}
      → Fails attempt s t
      → IsRun left (suc attempt) t o
      → IsRun (suc left) attempt s o
  one_more f p = record {
    tries = suc p.tries;
    unused = p.unused;
    within = omega (arith, p.within);
    last = p.last;
    before = again f p.before;
    ends = p.ends;
  }

  at_once :
      {left attempt : ℕ} {s : S} {o : Result Reply × S} → Ends left s o → IsRun left attempt s o
  at_once {left} {attempt} {s} e = record {
    tries = 0;
    unused = left;
    within = omega arith;
    last = s;
    before = start;
    ends = e;
  }

  attempt_from-IsRun :
      (left attempt : ℕ) (s : S) → IsRun left attempt s (attempt_from client req left attempt s)
  unfolding attempt_from
  attempt_from-IsRun zero attempt s = waited (client.wait s) refl
    where
      waited :
          (w : Option Error × S)
          → client.wait s ≡ w
          → IsRun 0 attempt s (after_limit client req w (client.send req))
      waited (some e, t) h = at_once (refused h)
      waited (none, t) h = at_once (exhausted refl h)
  attempt_from-IsRun (suc left) attempt s =
      waited (client.wait s) refl (attempt_from-IsRun left (suc attempt))
    where
      go : ℕ → S → Result Reply × S
      go ns u = attempt_from client req left (suc attempt) (client.sleep ns u)

      sent :
          (t : S) (o : Result Reply × S)
          → client.wait s ≡ (none, t)
          → client.send req t ≡ o
          → ((u : S) → IsRun left (suc attempt) u (attempt_from client req left (suc attempt) u))
          → IsRun (suc left) attempt s (after_send client req attempt o go)
      sent t (err e, u) w h ih =
          one_more (broken e w h) (ih (client.sleep (backoff_duration attempt) u))
      sent t (ok r, u) w h ih = elim (Bool-cases (is_retryable r)) [
        | inl y ↦ rw y (one_more (put_off r w h y) (ih (client.sleep (pause attempt r) u)))
        | inr n ↦ rw n (at_once (answered w h n))
      ]

      waited :
          (w : Option Error × S)
          → client.wait s ≡ w
          → ((u : S) → IsRun left (suc attempt) u (attempt_from client req left (suc attempt) u))
          → IsRun
              (suc left)
              attempt
              s
              (after_limit client req w (λ t. after_send client req attempt (client.send req t) go))
      waited (some e, t) h ih = at_once (refused h)
      waited (none, t) h ih = sent t (client.send req t) h refl ih

  -- Every run is some failed attempts, at most `max_retries` of them, and the one that ends it.
  pub do_request-IsRun : (s : S) → IsRun client.max_retries 0 s (do_request client req s)
  unfolding do_request
  do_request-IsRun s = attempt_from-IsRun client.max_retries 0 s
