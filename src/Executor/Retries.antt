-- ===== src/Executor/Retries.antt =====
-- What the loop over attempts of src/protocol/executor.rs amounts to.
use mathlib.Core.List.{append-nil, append_assoc}
use earl.Prelude.{
  ℕ, zero, suc, ◌+◌, ◌*◌, ◌-◌, ◌%◌, ◌^◌, if◌then◌else◌, ◌<◌, ◌≤◌, Bool, true, false, ◌&&◌, ◌≡◌,
  refl, ◌∙◌, ap, inl, inr, Bool-cases, Option, none, some, List, [], ◌∷◌, ◌++◌, ltb, ◌==◌, any,
  Result, ok, err, arith,
}
use earl.Http.{RawExecutionResult, Sent}
use earl.Executor.{
  ExecuteError, ExecutionResult, Run, retry, done, backoff, judge, execute_from, execute_attempts,
}

add-zero : (n : ℕ) → n + 0 ≡ n
add-zero n = omega arith

shift : (n k : ℕ) → n + suc k ≡ n + 1 + k
shift n k = omega arith

factor_lem :
    (attempt : ℕ)
    → 1 ≤ attempt
    → attempt < 2 ^ 32
    → (if ltb attempt 1 then 1 else attempt) % 2 ^ 32 ≡ attempt
factor_lem attempt low high = ground arith

module _ (attempts : ℕ) (retry_backoff : ℕ) (retry_on_status : List ℕ)
    (run : ℕ → List Sent → List Sent × Result ExecuteError RawExecutionResult)
    (finish : RawExecutionResult → Result ExecuteError ExecutionResult) where
  -- An outcome that is tried again: an error or a status of the list, before the last attempt.
  abbrev pub wants_retry : ℕ → Result ExecuteError RawExecutionResult → Bool
  wants_retry attempt (ok raw) = any (λ s. s == raw.status) retry_on_status && ltb attempt attempts
  wants_retry attempt (err e) = ltb attempt attempts

  -- What becomes of an outcome that is not tried again.
  abbrev pub final : Result ExecuteError RawExecutionResult → Result ExecuteError ExecutionResult
  final (ok raw) = finish raw
  final (err e) = err e

  -- The requests and the outcome of the attempt that comes `k` attempts after this one.
  abbrev pub nth_attempt : ℕ → ℕ → List Sent → List Sent × Result ExecuteError RawExecutionResult
  nth_attempt zero attempt sent = run attempt sent
  nth_attempt (suc k) attempt sent = nth_attempt k (attempt + 1) (run attempt sent).0

  -- This attempt and the next ones, `k` in all, are tried again.
  abbrev pub AllRetried : ℕ → ℕ → List Sent → Type 0
  AllRetried zero attempt sent = Unit
  AllRetried (suc k) attempt sent =
      (wants_retry attempt (run attempt sent).1 ≡ true)
      × AllRetried k (attempt + 1) (run attempt sent).0

  -- The wait after an attempt: its number times the base, up to the longest duration.
  abbrev pub wait_after : ℕ → ℕ
  wait_after attempt =
      if ltb (retry_backoff * attempt) (2 ^ 64 * 1000)
      then retry_backoff * attempt
      else 2 ^ 64 * 1000 - 1

  -- The waits after this attempt and the next ones, `k` in all.
  abbrev pub waits : ℕ → ℕ → List ℕ
  waits zero attempt = []
  waits (suc k) attempt = wait_after attempt ∷ waits k (attempt + 1)

  backoff-wait_after :
      (attempt : ℕ)
      → 1 ≤ attempt
      → attempt < 2 ^ 32
      → backoff retry_backoff attempt ≡ wait_after attempt
  unfolding backoff
  backoff-wait_after attempt low high = rw (factor_lem attempt low high) refl

  judge-done :
      (attempt : ℕ) (last_err : Option ExecuteError)
      (outcome : Result ExecuteError RawExecutionResult)
      → wants_retry attempt outcome ≡ false
      → judge attempts retry_backoff retry_on_status run finish attempt last_err outcome
        ≡ done (final outcome)
  unfolding judge
  judge-done attempt last_err (ok raw) h = rw h refl
  judge-done attempt last_err (err e) h = ground arith

  judge-retry :
      (attempt : ℕ) (last_err : Option ExecuteError)
      (outcome : Result ExecuteError RawExecutionResult)
      → wants_retry attempt outcome ≡ true
      → (last_err' : Option ExecuteError) × (judge attempts retry_backoff retry_on_status run finish
            attempt last_err outcome
          ≡ retry last_err')
        × (attempt < attempts)
  unfolding judge
  judge-retry attempt last_err (ok raw) h = (last_err, rw h refl, ground arith)
  judge-retry attempt last_err (err e) h = (some e, ground arith, ground arith)

  -- The loop ends with the first attempt that is not to be tried again.
  abbrev pub EndsAt : ℕ → ℕ → ℕ → List Sent → List ℕ → Run → Type 0
  EndsAt k rounds attempt sent sleeps r =
      (k < rounds)
      × AllRetried k attempt sent
      × (wants_retry (attempt + k) (nth_attempt k attempt sent).1 ≡ false)
      × (r ≡ record {
        sent = (nth_attempt k attempt sent).0;
        sleeps = sleeps ++ waits k attempt;
        result = final (nth_attempt k attempt sent).1;
      })

  execute_from-EndsAt :
      (rounds attempt : ℕ) (last_err : Option ExecuteError) (sent : List Sent) (sleeps : List ℕ)
      → attempt + rounds ≡ attempts + 1
      → 1 ≤ attempt
      → attempt ≤ attempts
      → attempts < 2 ^ 32
      → (k : ℕ) × EndsAt k rounds attempt sent sleeps (
          execute_from attempts retry_backoff retry_on_status run finish rounds attempt last_err
            sent sleeps)
  unfolding execute_from
  execute_from-EndsAt zero attempt last_err sent sleeps h low le small = absurd (omega arith)
  execute_from-EndsAt (suc rounds) attempt last_err sent sleeps h low le small =
      elim (Bool-cases (wants_retry attempt (run attempt sent).1)) [
        | inr final_one ↦ (
          zero,
          (
            omega arith,
            tt,
            rw (add-zero attempt) final_one,
            rw
                (
                  judge-done attempt last_err (run attempt sent).1 final_one,
                  execute_from,
                  append-nil sleeps,
                )
                refl,
          ),
        )
        | inl again ↦
            (let (last_err', judged, more) =
                judge-retry attempt last_err (run attempt sent).1 again in
              let (k, (below, retried, stops, ends)) =
                execute_from-EndsAt rounds (attempt + 1) last_err' (run attempt sent).0
                  (sleeps ++ backoff retry_backoff attempt ∷ []) (omega arith) (omega arith)
                  (omega arith) small in
              (
                suc k,
                (
                  omega arith,
                  (again, retried),
                  rw (shift attempt k) stops,
                  rw (judged, execute_from)
                      (ends
                        ∙ ap
                            (λ w. record {
                              sent = (nth_attempt k (attempt + 1) (run attempt sent).0).0;
                              sleeps = w;
                              result = final (nth_attempt k (attempt + 1) (run attempt sent).0).1;
                            })
                            (append_assoc sleeps (backoff retry_backoff attempt ∷ [])
                                (waits k (attempt + 1))
                              ∙ ap (λ b. sleeps ++ b ∷ waits k (attempt + 1))
                                  (backoff-wait_after attempt low (omega arith)))),
                ),
              ))
      ]

  -- With at least one attempt and fewer than 2 ^ 32, the loop over attempts always ends with an
  -- attempt: the first that neither fails nor gives a status to retry on, or else the last one that is
  -- allowed. What that attempt gave is the result, and the wait after the n-th attempt was n times the
  -- base, in milliseconds, and at most the longest duration.
  pub execute_attempts-EndsAt :
      0 < attempts
      → attempts < 2 ^ 32
      → (k : ℕ) × EndsAt k attempts 1 [] []
          (execute_attempts attempts retry_backoff retry_on_status run finish)
  unfolding execute_attempts
  execute_attempts-EndsAt h small =
      execute_from-EndsAt attempts 1 none [] [] (omega arith) (omega arith) (omega arith) small
