-- ===== src/Bus/Resolver/Laws.antt =====
-- Which resolver decides (internal/bus/resolver.go), and where the job goes.
use issue_tracker.Prelude.{
  ℕ, ◌≤◌, ◌<◌, ◌≡◌, ◌≢◌, true, false, Option, some, String, List, [], ◌∷◌, ◌++◌, ==_iff, arith,
  AssocList, lookup, All,
}
use issue_tracker.Prelude.Keys.{nat_eq, string_eq}
use issue_tracker.Bus.Messages.{CrawlJob, Message, build_message, crawl_topic}
use issue_tracker.Bus.Resolver.{
  Chainable, is_priority, explicit_priority_resolver, HostOverride, active, override, found,
  or_else, override_priority_resolver, composite_resolve,
}

-- The first resolver of the chain that can decide does, whatever comes behind it.
composite_resolve-first :
    (before : List Chainable) (r : Chainable) (behind : List Chainable) (terminal : Chainable)
    (t u : ℕ) (job : CrawlJob)
    → All (λ (c : Chainable). c.can_resolve t job ≡ false) before
    → r.can_resolve t job ≡ true
    → composite_resolve (before ++ r ∷ behind) terminal t u job ≡ r.resolve u job
unfolding composite_resolve
composite_resolve-first [] r behind terminal t u job none_can can = ground arith
composite_resolve-first (c ∷ before) r behind terminal t u job (cannot, none_can) can =
    ground (arith, cannot, composite_resolve-first before r behind terminal t u job none_can can)

-- Behind the explicit resolver a job that states one of the three priorities keeps it, whatever the rest
-- of the chain: its message, if it can be marshalled, has that priority and goes to its topic.
build_message-explicit :
    (chain : List Chainable) (terminal : Chainable) (t u : ℕ) (marshal : CrawlJob → Option String)
    (job : CrawlJob) (msg : Message)
    → is_priority job.priority ≡ true
    → build_message
        (some (composite_resolve (explicit_priority_resolver ∷ chain) terminal t u))
        marshal
        job
      ≡ some msg
    → (msg.priority ≡ job.priority) × (msg.topic ≡ crawl_topic job.priority)
unfolding build_message composite_resolve explicit_priority_resolver
build_message-explicit chain terminal t u marshal job msg stated sent = ground arith

-- An override of a host that has an end holds until its end and not from then on: before it at both
-- readings of the clock it decides the priority of the host's jobs; from its end on the chain behind it
-- does.
composite_resolve-override :
    (host_of : String → String) (overrides : AssocList String HostOverride) (o : HostOverride)
    (chain : List Chainable) (terminal : Chainable) (t u : ℕ) (job : CrawlJob)
    → host_of job.url ≢ ""
    → lookup (host_of job.url) overrides ≡ some o
    → t ≤ u
    → 0 < o.until
    → (u < o.until
        → composite_resolve (override_priority_resolver host_of overrides ∷ chain) terminal t u job
          ≡ o.priority)
      × (o.until ≤ t
          → composite_resolve
              (override_priority_resolver host_of overrides ∷ chain)
              terminal
              t
              u
              job
            ≡ composite_resolve chain terminal t u job)
unfolding composite_resolve override_priority_resolver override active found or_else
composite_resolve-override host_of overrides o chain terminal t u job hosted listed order ends = (
  λ h. ground (arith, ==_iff (host_of job.url) ""),
  λ h. ground (arith, ==_iff (host_of job.url) ""),
)
