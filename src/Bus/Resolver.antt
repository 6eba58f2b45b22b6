-- ===== src/Bus/Resolver.antt =====
-- internal/bus/resolver.go and override_resolver.go: the chain of resolvers that gives a job its
-- priority. A resolver may read the clock, so both its methods take a time. The host of a URL, by the
-- library's net/url, is a parameter, and so are the conditions of rules.

mod Laws
mod Tests
use issue_tracker.Prelude.{
  ℕ, Bool, true, false, ◌||◌, Option, none, some, String, List, [], ◌∷◌, ltb, if◌then◌else◌, ◌==◌,
  AssocList, lookup,
}
use issue_tracker.Prelude.Keys.{nat_eq, string_eq}
use issue_tracker.Bus.Messages.{CrawlJob, priority_high, priority_normal, priority_low}

-- `ChainablePriorityResolver`.
pub record Chainable : Type 0 where
  pub can_resolve : ℕ → CrawlJob → Bool
  pub resolve : ℕ → CrawlJob → ℕ

unfoldable pub is_priority : ℕ → Bool
is_priority p = p == priority_high || (p == priority_normal || p == priority_low)

unfoldable pub explicit_priority_resolver : Chainable
unfolding is_priority
explicit_priority_resolver = record {
  can_resolve = λ now job. is_priority job.priority;
  resolve = λ now job. if is_priority job.priority then job.priority else priority_normal;
}

unfoldable pub found : Option ℕ → Bool
found none = false
found (some p) = true

unfoldable pub or_else : ℕ → Option ℕ → ℕ
or_else fallback none = fallback
or_else fallback (some p) = p

unfoldable pub source_priority_resolver : AssocList String ℕ → ℕ → Chainable
source_priority_resolver rules fallback = record {
  can_resolve = λ now job. found (lookup job.crawler_name rules);
  resolve = λ now job. or_else fallback (lookup job.crawler_name rules);
}

-- `HostOverride`; an `until` of 0 has no end.
pub record HostOverride : Type 0 where
  pub priority : ℕ
  pub until : ℕ

unfoldable pub active : HostOverride → ℕ → Bool
active o now = o.until == 0 || ltb now o.until

active_only : Option HostOverride → ℕ → Option ℕ
active_only none now = none
active_only (some o) now = if active o now then some o.priority else none

-- `lookup` of the override that is in force.
unfoldable pub override : AssocList String HostOverride → String → ℕ → Option ℕ
unfolding active_only
override overrides host now = if host == "" then none else active_only (lookup host overrides) now

unfoldable pub override_priority_resolver :
    (String → String) → AssocList String HostOverride → Chainable
override_priority_resolver host_of overrides = record {
  can_resolve = λ now job. found (override overrides (host_of job.url) now);
  resolve = λ now job. or_else priority_normal (override overrides (host_of job.url) now);
}

unfoldable pub default_priority_resolver : ℕ → Chainable
default_priority_resolver p = record { can_resolve = λ now job. true; resolve = λ now job. p }

-- `CompositeResolver.Resolve` with its chain and the terminal resolver. `asked_at` and `resolved_at` are
-- the readings of the clock in the two methods of the resolver that decides.
unfoldable pub composite_resolve : List Chainable → Chainable → ℕ → ℕ → CrawlJob → ℕ
composite_resolve [] terminal asked_at resolved_at job = terminal.resolve resolved_at job
composite_resolve (r ∷ chain) terminal asked_at resolved_at job =
    let rest = composite_resolve chain terminal asked_at resolved_at job in
    if r.can_resolve asked_at job then r.resolve resolved_at job else rest
