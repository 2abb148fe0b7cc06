-- ===== src/Retry.antt =====
-- `retryTransientDatabaseOperation` (src/lib/transient-database-retry.ts): an operation that fails in a
-- passing way is run again. `transient` is `isTransientDatabaseError`, a match on the error's chain; an
-- attempt of the operation is a function of its number.
use crm_mcd.Prelude.{
  ℕ, zero, suc, ◌≡◌, ◌∙◌, refl, ◌+◌, ◌-◌, ◌*◌, ◌^◌, ◌≤◌, ◌<◌, min, Bool, true, ◌||◌, Option, none,
  some, List, [], ◌∷◌, ltb, Result, ok, err, ◌>>=◌, if◌then◌else◌, length, All, arith, Bool-cases,
  inl, inr,
}

-- `boundedInteger`.
unfoldable pub bounded_integer : {E : Type 0} → E → Option ℕ → ℕ → ℕ → ℕ → Result E ℕ
bounded_integer e none fallback low high = ok fallback
bounded_integer e (some n) fallback low high = if ltb n low || ltb high n then err e else ok n

pub record RetryOptions : Type 0 where
  pub max_attempts : Option ℕ
  pub initial_delay_ms : Option ℕ
  pub max_delay_ms : Option ℕ

pub data RetryError (E : Type 0) : Type 0 where
  invalid_option : RetryError E
  thrown : E → RetryError E
  exhausted : ℕ → E → RetryError E

-- What a run did: how it ended, the numbers of the attempts, and the delays between them.
pub record Run (E A : Type 0) : Type 0 where
  pub result : Result (RetryError E) (A × ℕ)
  pub attempts : List ℕ
  pub delays : List ℕ

abbrev pub backoff : ℕ → ℕ → ℕ → ℕ
backoff initial longest attempt = min (initial * 2 ^ (attempt - 1)) longest

module _ {E A : Type 0} (transient : E → Bool) (operation : ℕ → Result E A)
    (initial longest : ℕ) where
  abbrev first_failed : ℕ → E → Run E A
  first_failed attempt e = record {
    result = err (RetryError.thrown e);
    attempts = attempt ∷ [];
    delays = [];
  }

  -- The last attempt, and an attempt that others may follow.
  unfoldable pub last_attempt : ℕ → Result E A → Run E A
  last_attempt attempt (ok a) = record {
    result = ok (a, attempt);
    attempts = attempt ∷ [];
    delays = [];
  }
  last_attempt attempt (err e) =
      if transient e
      then record {
        result = err (RetryError.exhausted attempt e);
        attempts = attempt ∷ [];
        delays = [];
      }
      else first_failed attempt e

  unfoldable pub next_attempt : ℕ → Result E A → Run E A → Run E A
  next_attempt attempt (ok a) rest = record {
    result = ok (a, attempt);
    attempts = attempt ∷ [];
    delays = [];
  }
  next_attempt attempt (err e) rest =
      if transient e
      then record {
        result = rest.result;
        attempts = attempt ∷ rest.attempts;
        delays = backoff initial longest attempt ∷ rest.delays;
      }
      else first_failed attempt e

  -- The loop from one attempt on, with the number of attempts that are left after it.
  unfoldable pub retry_from : ℕ → ℕ → Run E A
  unfolding last_attempt next_attempt
  retry_from zero attempt = last_attempt attempt (operation attempt)
  retry_from (suc left) attempt =
      next_attempt attempt (operation attempt) (retry_from left (suc attempt))

  -- Attempts and delays of a run that may make `n` attempts.
  IsBounded : ℕ → Run E A → Type 0
  IsBounded n r =
      (length r.attempts ≤ n)
      × (length r.attempts ≡ length r.delays + 1)
      × All (λ d. d ≤ longest) r.delays

  last_attempt-IsBounded : (attempt : ℕ) (o : Result E A) → IsBounded 1 (last_attempt attempt o)
  unfolding last_attempt IsBounded
  last_attempt-IsBounded attempt (ok a) = (omega arith, refl, tt)
  last_attempt-IsBounded attempt (err e) = elim (Bool-cases (transient e)) [
    | inl t ↦ rw t (omega arith, refl, tt)
    | inr t ↦ rw t (omega arith, refl, tt)
  ]

  next_attempt-IsBounded :
      (n attempt : ℕ) (o : Result E A) (rest : Run E A)
      → IsBounded n rest
      → IsBounded (suc n) (next_attempt attempt o rest)
  unfolding next_attempt IsBounded
  next_attempt-IsBounded n attempt (ok a) rest h = (omega arith, refl, tt)
  next_attempt-IsBounded n attempt (err e) rest (few, paired, short) =
      elim (Bool-cases (transient e)) [
        | inl t ↦ rw t (omega arith, omega arith, (omega arith, short))
        | inr t ↦ rw t (omega arith, refl, tt)
      ]

  retry_from-IsBounded : (left attempt : ℕ) → IsBounded (suc left) (retry_from left attempt)
  unfolding retry_from
  retry_from-IsBounded zero attempt = last_attempt-IsBounded attempt (operation attempt)
  retry_from-IsBounded (suc left) attempt =
      next_attempt-IsBounded (suc left) attempt (operation attempt) (retry_from left (suc attempt))
        (retry_from-IsBounded left (suc attempt))

  -- An attempt fails, in a passing way.
  unfoldable pub FailsTransiently : ℕ → Type 0
  FailsTransiently n = (e : E) × (operation n ≡ err e) × (transient e ≡ true)

  last_attempt-ok :
      (n : ℕ) (a : A) → operation n ≡ ok a → (last_attempt n (operation n)).result ≡ ok (a, n)
  unfolding last_attempt
  last_attempt-ok n a done = rw done refl

  next_attempt-ok :
      (n : ℕ) (a : A) (rest : Run E A)
      → operation n ≡ ok a
      → (next_attempt n (operation n) rest).result ≡ ok (a, n)
  unfolding next_attempt
  next_attempt-ok n a rest done = rw done refl

  next_attempt-failed :
      (n : ℕ) (rest : Run E A)
      → FailsTransiently n
      → (next_attempt n (operation n) rest).result ≡ rest.result
  unfolding next_attempt FailsTransiently
  next_attempt-failed n rest (e, failed, passing) = rw failed (rw passing refl)

  retry_from-succeeds :
      (k left attempt m : ℕ) (a : A)
      → k + attempt ≡ m
      → k ≤ left
      → ((n : ℕ) → attempt ≤ n → n < m → FailsTransiently n)
      → operation m ≡ ok a
      → (retry_from left attempt).result ≡ ok (a, m)
  unfolding retry_from
  retry_from-succeeds zero zero attempt m a at h fails done =
      let here : m ≡ attempt = omega arith in rw here (last_attempt-ok attempt a (rw here at done))
  retry_from-succeeds zero (suc left) attempt m a at h fails done =
      let here : m ≡ attempt = omega arith in
      rw here (next_attempt-ok attempt a (retry_from left (suc attempt)) (rw here at done))
  retry_from-succeeds (suc k) zero attempt m a at h fails done = absurd (omega arith)
  retry_from-succeeds (suc k) (suc left) attempt m a at h fails done =
      next_attempt-failed attempt (retry_from left (suc attempt))
        (fails attempt (omega arith) (omega arith))
      ∙ retry_from-succeeds k left (suc attempt) m a (omega arith) (omega arith)
          (λ n low high. fails n (omega arith) (omega arith)) done

module _ {E A : Type 0} (transient : E → Bool) (operation : ℕ → Result E A) where
  unfoldable pub retry_options : RetryOptions → Result (RetryError E) (ℕ × ℕ × ℕ)
  unfolding bounded_integer
  retry_options o = do
    most ← bounded_integer RetryError.invalid_option o.max_attempts 3 1 5
    initial ← bounded_integer RetryError.invalid_option o.initial_delay_ms 250 0 5000
    longest ← bounded_integer RetryError.invalid_option o.max_delay_ms 1000 0 10000
    ok (most, initial, longest)

  unfoldable pub retry_transient_database_operation : RetryOptions → Run E A
  unfolding retry_from retry_options
  retry_transient_database_operation o = elim (retry_options o) [
    | ok (most, initial, longest) ↦ retry_from transient operation initial longest (most - 1) 1
    | err e ↦ record { result = err e; attempts = []; delays = [] }
  ]

  retry_options-bounds :
      (o : RetryOptions) {most initial longest : ℕ}
      → retry_options o ≡ ok (most, initial, longest)
      → (1 ≤ most) × (most ≤ 5) × (longest ≤ 10000)
  unfolding retry_options bounded_integer
  retry_options-bounds o h = ground arith

  retry_runs :
      (o : RetryOptions) {most initial longest : ℕ}
      → retry_options o ≡ ok (most, initial, longest)
      → retry_transient_database_operation o
        ≡ retry_from transient operation initial longest (most - 1) 1
  unfolding retry_transient_database_operation
  retry_runs o h = rw (h, retry_transient_database_operation) refl

  -- With options in range the operation is attempted between one and `maxAttempts` times, never more than
  -- five, with one delay between two attempts and none longer than `maxDelayMs`, however it fails.
  pub retry_is_bounded :
      (o : RetryOptions) {most initial longest : ℕ}
      → retry_options o ≡ ok (most, initial, longest)
      → (length (retry_transient_database_operation o).attempts ≤ most)
        × (most ≤ 5)
        × (length (retry_transient_database_operation o).attempts
            ≡ length (retry_transient_database_operation o).delays + 1)
        × All (λ d. d ≤ longest) (retry_transient_database_operation o).delays
  unfolding IsBounded
  retry_is_bounded o {most} {initial} {longest} h =
      let (low, high, cap) = retry_options-bounds o h in
      let (few, paired, short) =
        retry_from-IsBounded transient operation initial longest (most - 1) 1 in
      rw (retry_runs o h) (omega arith, high, paired, short)

  -- With options in range, if an attempt within the limit succeeds and every one before it fails in a
  -- passing way, the run ends with the result of that attempt and its number.
  pub retry_recovers :
      (o : RetryOptions) {most initial longest : ℕ} (m : ℕ) (a : A)
      → retry_options o ≡ ok (most, initial, longest)
      → 1 ≤ m
      → m ≤ most
      → ((n : ℕ) → 1 ≤ n → n < m → FailsTransiently transient operation initial longest n)
      → operation m ≡ ok a
      → (retry_transient_database_operation o).result ≡ ok (a, m)
  retry_recovers o {most} {initial} {longest} m a h low high fails done = rw (retry_runs o h) (
      retry_from-succeeds transient operation initial longest (m - 1) (most - 1) 1 m a (omega arith)
        (omega arith) fails done)
