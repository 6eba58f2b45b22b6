-- ===== src/Llm/Chain/Tests.antt =====
-- Calls of chains (pkg/llm/chain, pkg/llm/policy).
use mathlib.Core.List.{Perm}
use issue_tracker.Prelude.{
  ℕ, ◌≡◌, ◌⊎◌, refl, true, Option, none, some, String, [], ◌∷◌, if◌then◌else◌, ◌==◌, All,
}
use issue_tracker.Prelude.Keys.{string_eq}
use issue_tracker.Llm.Errors.{Error, llm, as_llm}
use issue_tracker.Llm.RetryProvider.{answered, refused}
use issue_tracker.Llm.Chain.{
  Provider, response, walk, generate, ordered, Capabilities, stable_sort, cheapest_first,
  policy_generate, by_name, fixed_order, should_delegate, turn, next, captured, also,
}
use issue_tracker.Llm.Chain.Walk.{Delegates, Course, generate-Course}
use issue_tracker.Llm.Chain.Select.{IsSorted, AsCheap, less_of, policy_generate-cheapest}

abbrev limited : Provider
limited = record {
  name = "gemini";
  reply = refused (
      llm (record { code = "rate_limit"; provider = "gemini"; message = "429"; retryable = true }));
}

abbrev fine : Provider
fine = record { name = "openai"; reply = answered "ok" }

abbrev never_cancelled : ℕ → Option Error
never_cancelled n = none

delegated :
    generate never_cancelled (limited ∷ fine ∷ [])
    ≡ record { result = response "ok"; called = "gemini" ∷ "openai" ∷ [] }
unfolding generate walk turn next captured also should_delegate as_llm
delegated = refl

generate-Course_example :
    Course never_cancelled 0 (limited ∷ fine ∷ []) (generate never_cancelled (limited ∷ fine ∷ []))
generate-Course_example = generate-Course never_cancelled limited (fine ∷ []) refl

-- The dear one stands first, and is tried second.
abbrev prices : String → Option Capabilities
prices name =
    if name == "openai"
    then some (record { cost_input_per_1m = 5; cost_output_per_1m = 15 })
    else some (record { cost_input_per_1m = 1; cost_output_per_1m = 2 })

policy_generate-cheapest_example :
    let all = stable_sort (less_of (some prices)) (fine ∷ limited ∷ []) in
    Perm all (fine ∷ limited ∷ [])
    × IsSorted (less_of (some prices)) all
    × ((course : Course never_cancelled 0 all (
          policy_generate none never_cancelled
            (some (cheapest_first (some prices)))
            (fine ∷ limited ∷ [])))
        × All
            (λ (x : Provider). Delegates x ⊎ AsCheap (some prices) course.last x)
            (fine ∷ limited ∷ []))
policy_generate-cheapest_example =
    policy_generate-cheapest never_cancelled (some prices) fine (limited ∷ []) refl

by_last : fixed_order ("openai" ∷ "claude" ∷ []) (limited ∷ fine ∷ []) ≡ ordered (fine ∷ [])
unfolding fixed_order by_name
by_last = refl
