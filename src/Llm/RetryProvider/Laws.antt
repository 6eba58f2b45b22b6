-- ===== src/Llm/RetryProvider/Laws.antt =====
-- How often the provider tries, and what it answers (pkg/llm/retry.go).
use issue_tracker.Prelude.{
  ℕ, zero, suc, ◌+◌, ◌≤◌, ◌<◌, ◌≡◌, ◌≢◌, ◌⊎◌, inl, inr, refl, ap, ◌∙◌, true, Option, none, some,
  String, List, [], ◌∷◌, arith, Option-cases,
}
use issue_tracker.Prelude.Keys.{nat_eq, string_eq}
use issue_tracker.Llm.Errors.{Error, Info, as_llm, is_retryable}
use issue_tracker.Llm.RetryProvider.{
  RetryPolicy, RetryProvider, new_retry_provider, Reply, answered, refused, Run, response, failed,
  exhausted, Next, stop, again, next_by, Report, loop, generate,
}

Reply-cases :
    (x : Reply) → ((text : String) × (x ≡ answered text)) ⊎ ((err : Error) × (x ≡ refused err))
Reply-cases (answered text) = inl (text, refl)
Reply-cases (refused err) = inr (err, refl)

abbrev Round : Type 0
Round = ℕ × (ℕ × ℕ)

Next-cases : (x : Next) → (x ≡ stop) ⊎ ((o : Round) × (x ≡ again o.0 o.1.0 o.1.1))
Next-cases stop = inl refl
Next-cases (again r n d) = inr ((r, (n, d)), refl)

-- Another round counts one attempt more, and keeps both counts below their policies' limits.
next_by-again :
    (p : RetryProvider) (rate network draw : ℕ) (i : Option Info) (r n d : ℕ)
    → next_by p rate network draw i ≡ again r n d
    → rate < p.rate_limit_p.max_attempts
    → network < p.network_p.max_attempts
    → (r + n ≡ rate + network + 1)
      × (r < p.rate_limit_p.max_attempts)
      × (n < p.network_p.max_attempts)
unfolding next_by
next_by-again p rate network draw none r n d e l m = ground arith
next_by-again p rate network draw (some i) r n d e l m = ground arith

module _ (p : RetryProvider) (run : Run) where
  abbrev limit : ℕ
  limit = p.rate_limit_p.max_attempts + p.network_p.max_attempts

  -- The report of the rounds after `calls` calls.
  abbrev Ends : ℕ → Report → Type 0
  Ends calls r = (r.result ≢ exhausted) × (calls < r.calls) × (r.calls + 1 ≤ limit)

  Ends-later : (calls : ℕ) (r : Report) → Ends (suc calls) r → Ends calls r
  Ends-later calls r (a, b, c) = (a, omega arith, omega arith)

  not_exhausted : (err : Error) → failed err ≢ exhausted
  not_exhausted err e = ground arith

  loop-Ends :
      (left calls rate network : ℕ) (waits : List ℕ) (last : Option Error)
      → rate + network ≡ calls
      → calls + left ≡ limit
      → rate < p.rate_limit_p.max_attempts
      → network < p.network_p.max_attempts
      → Ends calls (loop p run left calls rate network waits last)
  unfolding loop
  loop-Ends zero calls rate network waits last s t l m = ground arith
  loop-Ends (suc left) calls rate network waits last s t l m =
      elim (Reply-cases (run.inner calls)) [
        | inl (text, e) ↦ rw (e, loop) ((λ q. ground arith), omega arith, omega arith)
        | inr (err, e) ↦ elim (Next-cases (next_by p rate network (run.draw calls) (as_llm err))) [
          | inl ends ↦ rw (e, ends, loop) ((λ q. ground arith), omega arith, omega arith)
          | inr ((r, (n, d)), more) ↦ elim (Option-cases (run.interrupted calls)) [
            | inr (done, stopped) ↦
                rw (e, more, stopped, loop) ((λ q. ground arith), omega arith, omega arith)
            | inl waited ↦
                let (sum, below, under) =
                  next_by-again p rate network (run.draw calls) (as_llm err) r n d more l m in
                rw (e, more, waited, loop)
                  (Ends-later calls (loop p run left (suc calls) r n (d ∷ waits) (some err)) (
                    loop-Ends left (suc calls) r n (d ∷ waits) (some err) (omega arith)
                      (omega arith) below under))
          ]
        ]
      ]

-- Both policies of a provider that was made allow an attempt.
attempts-new :
    (rate network : RetryPolicy)
    → let p = new_retry_provider rate network in
      (0 < p.rate_limit_p.max_attempts) × (0 < p.network_p.max_attempts)
unfolding new_retry_provider
attempts-new rate network = ground arith

-- A call ends after at least one call of the provider inside, and after fewer of them than both
-- policies' attempts together, whatever the provider inside replies; and the last return of the
-- loop's function, that no error was captured, is never reached.
pub generate_ends :
    (rate network : RetryPolicy) (run : Run)
    → let p = new_retry_provider rate network in
      let r = generate p run in
      (r.result ≢ exhausted)
      × (0 < r.calls)
      × (r.calls + 1 ≤ p.rate_limit_p.max_attempts + p.network_p.max_attempts)
unfolding generate
generate_ends rate network run =
    let p = new_retry_provider rate network in
    let (l, m) = attempts-new rate network in
    loop-Ends p run (p.rate_limit_p.max_attempts + p.network_p.max_attempts) 0 0 0 [] none
      (omega arith) (omega arith) l m

abbrev pub FailsRetryably : Run → ℕ → Type 0
FailsRetryably run k =
    (err : Error) × ((run.inner k ≡ refused err) × (is_retryable (some err) ≡ true))

next_by-retryable :
    (p : RetryProvider) (rate network draw : ℕ) (i : Option Info) (info : Info)
    → i ≡ some info
    → info.retryable ≡ true
    → rate + 1 < p.rate_limit_p.max_attempts
    → network + 1 < p.network_p.max_attempts
    → next_by p rate network draw i ≢ stop
unfolding next_by
next_by-retryable p rate network draw i info e t l m q = ground arith

retryable-info :
    (err : Error)
    → is_retryable (some err) ≡ true
    → (info : Info) × ((as_llm err ≡ some info) × (info.retryable ≡ true))
unfolding is_retryable
retryable-info err t = elim (Option-cases (as_llm err)) [
  | inl e ↦ ground arith
  | inr (info, e) ↦ (info, (e, ground arith))
]

module _ (p : RetryProvider) (run : Run) (n : ℕ) (text : String) where
  abbrev Recovered : Report → Type 0
  Recovered r = (r.result ≡ response text) × (r.calls ≡ n + 1)

  loop-Recovered :
      (ahead left calls rate network : ℕ) (waits : List ℕ) (last : Option Error)
      → calls + ahead ≡ n
      → ahead < left
      → rate + network ≡ calls
      → n < p.rate_limit_p.max_attempts
      → n < p.network_p.max_attempts
      → ((k : ℕ) → k < n → FailsRetryably run k)
      → ((k : ℕ) → run.interrupted k ≡ none)
      → run.inner n ≡ answered text
      → Recovered (loop p run left calls rate network waits last)
  unfolding loop
  loop-Recovered ahead zero calls rate network waits last s a c l m bad waited good = ground arith
  loop-Recovered zero (suc left) calls rate network waits last s a c l m bad waited good =
      let here : run.inner calls ≡ answered text = ap run.inner (omega arith) ∙ good in
      rw (here, loop) (refl, omega arith)
  loop-Recovered (suc ahead) (suc left) calls rate network waits last s a c l m bad waited good =
      let (err, (e, t)) = bad calls (omega arith) in
      let (info, (found, retry)) = retryable-info err t in
      elim (Next-cases (next_by p rate network (run.draw calls) (as_llm err))) [
        | inl ends ↦ ground (
          arith,
          ends,
          next_by-retryable p rate network (run.draw calls) (as_llm err) info found retry
              (omega arith) (omega arith),
        )
        | inr ((r, (o, d)), more) ↦
            let (sum, below, under) =
              next_by-again p rate network (run.draw calls) (as_llm err) r o d more (omega arith)
                (omega arith) in
            rw (e, more, waited calls, loop)
              (loop-Recovered ahead left (suc calls) r o (d ∷ waits) (some err) (omega arith)
                (omega arith) (omega arith) l m bad waited good)
      ]

-- If the provider inside answers after `n` retryable errors, fewer than each policy allows attempts, and
-- the context does not end in a wait, then the call answers what it answered, after `n + 1` calls.
generate_recovers :
    (p : RetryProvider) (run : Run) (n : ℕ) (text : String)
    → n < p.rate_limit_p.max_attempts
    → n < p.network_p.max_attempts
    → ((k : ℕ) → k < n → FailsRetryably run k)
    → ((k : ℕ) → run.interrupted k ≡ none)
    → run.inner n ≡ answered text
    → let r = generate p run in (r.result ≡ response text) × (r.calls ≡ n + 1)
unfolding generate
generate_recovers p run n text l m bad waited good =
    loop-Recovered p run n text n (p.rate_limit_p.max_attempts + p.network_p.max_attempts) 0 0 0 []
      none (omega arith) (omega arith) (omega arith) l m bad waited good
