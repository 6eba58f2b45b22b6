-- ===== src/Llm/Chain/Walk.antt =====
-- How a call of the chain ends (pkg/llm/chain/chain.go).
use issue_tracker.Prelude.{
  ℕ, suc, ◌+◌, ◌≡◌, inl, inr, refl, ap, subst, ◌∙◌, true, false, Option, none, some, String, List,
  [], ◌∷◌, ◌++◌, map, length, if◌then◌else◌, arith, All, Bool-cases,
}
use issue_tracker.Llm.Errors.{Error, llm_of}
use issue_tracker.Llm.RetryProvider.{Reply, answered, refused}
use issue_tracker.Llm.Chain.{
  Provider, chain_info, should_delegate, Result, response, failed, Report, also, exhausted,
  captured, next, turn, walk, generate,
}

-- A provider that refuses with an error that goes on to the next.
abbrev pub Delegates : Provider → Type 0
Delegates h = (err : Error) × (h.reply ≡ refused err) × (should_delegate err ≡ true)

abbrev names : List Provider → List String
names handlers = map (λ (h : Provider). h.name) handlers

-- Why a call ended at a provider with `after` behind it: a response, an error that does not go on, the end
-- of the context after `n` calls, or the end of the chain.
pub data Ends (cancelled : ℕ → Option Error) (n : ℕ) (h : Provider) (after : List Provider)
    (result : Result) : Type 0 where
  responds :
      (text : String)
      → h.reply ≡ answered text
      → result ≡ response text
      → Ends cancelled n h after result
  stops :
      (err : Error)
      → h.reply ≡ refused err
      → should_delegate err ≡ false
      → result ≡ failed err
      → Ends cancelled n h after result
  interrupted :
      (cause : Error)
      → Delegates h
      → cancelled n ≡ some cause
      → result
        ≡ failed (llm_of (chain_info "network" "context canceled during chain execution") cause)
      → Ends cancelled n h after result
  runs_out :
      (err : Error)
      → h.reply ≡ refused err
      → should_delegate err ≡ true
      → after ≡ []
      → cancelled n ≡ none
      → result ≡ failed err
      → Ends cancelled n h after result

-- The provider at which a call ended, after those that it tried before.
pub record Course (cancelled : ℕ → Option Error) (n : ℕ) (handlers : List Provider) (rep : Report)
    : Type 0 where
  pub before : List Provider
  pub last : Provider
  pub after : List Provider
  pub order : handlers ≡ before ++ last ∷ after
  pub called : rep.called ≡ names before ++ last.name ∷ []
  pub delegated : All Delegates before
  pub ended : Ends cancelled (n + suc (length before)) last after rep.result

first :
    (cancelled : ℕ → Option Error) (n : ℕ) (h : Provider) (after : List Provider) (rep : Report)
    → rep.called ≡ h.name ∷ []
    → Ends cancelled (suc n) h after rep.result
    → Course cancelled n (h ∷ after) rep
first cancelled n h after rep e ended = record {
  before = [];
  last = h;
  after = after;
  order = refl;
  called = e;
  delegated = tt;
  ended = subst (λ (k : ℕ). Ends cancelled k h after rep.result) (omega arith) ended;
}

Course-cons :
    (cancelled : ℕ → Option Error) (n : ℕ) (h : Provider) (handlers : List Provider) (rep : Report)
    → Delegates h
    → Course cancelled (suc n) handlers rep
    → Course cancelled n (h ∷ handlers) (also h.name rep)
unfolding also
Course-cons cancelled n h handlers rep d c = record {
  before = h ∷ c.before;
  last = c.last;
  after = c.after;
  order = ap (λ (l : List Provider). h ∷ l) c.order;
  called = ap (λ (l : List String). h.name ∷ l) c.called;
  delegated = (d, c.delegated);
  ended = subst (λ (k : ℕ). Ends cancelled k c.last c.after rep.result) (omega arith) c.ended;
}

next-Course :
    (cancelled : ℕ → Option Error) (n : ℕ) (h : Provider) (handlers : List Provider) (rest : Report)
    (stopped : Option Error)
    → cancelled (suc n) ≡ stopped
    → Delegates h
    → (cancelled (suc n) ≡ none → Course cancelled n (h ∷ handlers) (also h.name rest))
    → Course cancelled n (h ∷ handlers) (next h.name stopped rest)
unfolding next
next-Course cancelled n h handlers rest none e d more = more e
next-Course cancelled n h handlers rest (some cause) e d more =
    first cancelled n h handlers (next h.name (some cause) rest) refl (interrupted cause d e refl)

turn-Course :
    (cancelled : ℕ → Option Error) (n : ℕ) (h : Provider) (handlers : List Provider) (rest : Report)
    (reply : Reply)
    → h.reply ≡ reply
    → (Delegates h
        → cancelled (suc n) ≡ none
        → Course cancelled n (h ∷ handlers) (also h.name rest))
    → Course cancelled n (h ∷ handlers) (turn h.name reply (cancelled (suc n)) rest)
unfolding turn
turn-Course cancelled n h handlers rest (answered text) e more =
    first cancelled n h handlers (record { result = response text; called = h.name ∷ [] }) refl
      (responds text e refl)
turn-Course cancelled n h handlers rest (refused err) e more =
    elim (Bool-cases (should_delegate err)) [
      | inl on ↦
          rw (on, if◌then◌else◌)
            (next-Course cancelled n h handlers rest (cancelled (suc n)) refl (err, e, on)
              (more (err, e, on)))
      | inr off ↦
          rw (off, if◌then◌else◌)
            (first cancelled n h handlers (record { result = failed err; called = h.name ∷ [] })
              refl (stops err e off refl))
    ]

out :
    (cancelled : ℕ → Option Error) (n : ℕ) (h : Provider) (prior : Option Error)
    → Delegates h
    → cancelled (suc n) ≡ none
    → Ends cancelled
        (suc n)
        h
        []
        (also h.name (walk cancelled (suc n) (captured prior h.reply) [])).result
unfolding walk also
out cancelled n h prior (err, e, on) calm =
    runs_out err e on refl calm
      (ap (λ (x : Reply). exhausted (captured prior x)) e ∙ unfold exhausted captured in refl)

walk-Course :
    (cancelled : ℕ → Option Error) (n : ℕ) (prior : Option Error) (h : Provider)
    (handlers : List Provider)
    → Course cancelled n (h ∷ handlers) (walk cancelled n prior (h ∷ handlers))
unfolding walk
walk-Course cancelled n prior h [] =
    turn-Course cancelled n h [] (walk cancelled (suc n) (captured prior h.reply) []) h.reply refl
      (λ d calm.
        first cancelled n h [] (also h.name (walk cancelled (suc n) (captured prior h.reply) []))
          (unfold also in refl) (out cancelled n h prior d calm))
walk-Course cancelled n prior h (g ∷ handlers) =
    turn-Course cancelled n h (g ∷ handlers)
      (walk cancelled (suc n) (captured prior h.reply) (g ∷ handlers)) h.reply refl
      (λ d calm.
        Course-cons cancelled n h (g ∷ handlers)
          (walk cancelled (suc n) (captured prior h.reply) (g ∷ handlers)) d
          (walk-Course cancelled (suc n) (captured prior h.reply) g handlers))

-- How a call of a chain ends, where it has providers and its context is not over before. The providers are
-- called in their order up to the one at which the call ends, none after it, and all before it refused
-- with an error that goes on. It ends with that provider's response; or with its error, where that does not
-- go on or no provider is left; or with an error of the network, where the context is over after it.
pub generate-Course :
    (cancelled : ℕ → Option Error) (h : Provider) (handlers : List Provider)
    → cancelled 0 ≡ none
    → Course cancelled 0 (h ∷ handlers) (generate cancelled (h ∷ handlers))
unfolding generate
generate-Course cancelled h handlers calm = rw (calm) (walk-Course cancelled 0 none h handlers)
