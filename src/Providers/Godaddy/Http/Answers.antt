-- ===== src/Providers/Godaddy/Http/Answers.antt =====
-- providers/godaddy/godaddy.go, `do`: when an answer ends the attempts.
use dns_entree.Base.{ℕ, zero, suc, ◌+◌, ◌≡◌, ap, ◌∙◌, false, none, arith}
use dns_entree.Record.Errors.{ok}
use dns_entree.Providers.Godaddy.Http.{
  HttpRequest, Reply, Client, is_retryable, after_send, attempt_from, do_request,
}
use dns_entree.Providers.Godaddy.Http.Retries.{Fails, broken, put_off, Tries, start, again}

module _ {S : Type 0} (client : Client S) (req : HttpRequest) where
  attempt_from-Fails :
      {a : ℕ} {s t : S} (left : ℕ)
      → Fails client req a s t
      → attempt_from client req (suc left) a s ≡ attempt_from client req left (suc a) t
  unfolding attempt_from after_send
  attempt_from-Fails left (broken e w h) = rw (w, h)
  attempt_from-Fails left (put_off r w h y) = rw (w, h, y)

  attempt_from-Tries :
      {a n : ℕ} {s t : S} (total left : ℕ)
      → total ≡ n + left
      → Tries client req a n s t
      → (b : ℕ) × (attempt_from client req total a s ≡ attempt_from client req left b t)
  attempt_from-Tries {a} {n} {s} total left e start =
      (a, ap (λ k. attempt_from client req k a s) (omega (arith, e)))
  attempt_from-Tries zero left e (again {n = m} f p) = none_left m e
    where
      none_left : {A : Type 0} (m : ℕ) → 0 ≡ suc m + left → A
      none_left m h = ground arith
  attempt_from-Tries (suc k) left e (again {n = m} f p) =
      let rest = attempt_from-Tries k left (omega (arith, e)) p in
      (rest.0, attempt_from-Fails k f ∙ rest.1)

  attempt_from-answered :
      {r : Reply} {s t u : S} (left a : ℕ)
      → client.wait s ≡ (none, t)
      → client.send req t ≡ (ok r, u)
      → is_retryable r ≡ false
      → attempt_from client req left a s ≡ (ok r, u)
  unfolding attempt_from after_send
  attempt_from-answered zero a w h n = rw (w, h)
  attempt_from-answered (suc left) a w h n = rw (w, h, n)

  -- Where some attempts, at most `max_retries`, end in an error, a 429 or a 5xx, and the limiter then
  -- lets one pass that gets another reply, the request returns that reply and sends nothing more.
  pub do_request-answers :
      {r : Reply} {s t u v : S} (n left : ℕ)
      → Tries client req 0 n s t
      → client.max_retries ≡ n + left
      → client.wait t ≡ (none, u)
      → client.send req u ≡ (ok r, v)
      → is_retryable r ≡ false
      → do_request client req s ≡ (ok r, v)
  unfolding do_request
  do_request-answers n left p e w h a =
      let rest = attempt_from-Tries client.max_retries left e p in
      rest.1 ∙ attempt_from-answered left rest.0 w h a
