-- ===== src/Bus/Resolver/Tests.antt =====
-- Runs of the chain of resolvers (internal/bus/resolver.go).
use issue_tracker.Prelude.{lookup, ◌≡◌, refl, [], ◌∷◌}
use issue_tracker.Prelude.Keys.{string_eq}
use issue_tracker.Bus.Messages.{article, CrawlJob}
use issue_tracker.Bus.Resolver.{
  Chainable, HostOverride, explicit_priority_resolver, source_priority_resolver,
  override_priority_resolver, found, override, active, or_else, default_priority_resolver,
  composite_resolve,
}

abbrev job : CrawlJob
job = record {
  id = "1";
  crawler_name = "naver";
  url = "n.news.naver.com";
  target_type = article;
  priority = 0;
  scheduled_at = 0;
  timeout = 30;
  retry_count = 0;
  max_retries = 3;
}

abbrev low_until_50 : HostOverride
low_until_50 = record { priority = 3; until = 50 }

abbrev sources : Chainable
sources = source_priority_resolver (("naver", 1) ∷ []) 2

abbrev overriding : Chainable
overriding = override_priority_resolver (λ url. url) (("n.news.naver.com", low_until_50) ∷ [])

abbrev normal : Chainable
normal = default_priority_resolver 2

-- The override decides until its end, and then the source.
overridden :
    composite_resolve (explicit_priority_resolver ∷ overriding ∷ sources ∷ []) normal 10 10 job ≡ 3
unfolding composite_resolve explicit_priority_resolver override_priority_resolver
    source_priority_resolver found override lookup active or_else
overridden = refl

after_its_end :
    composite_resolve (explicit_priority_resolver ∷ overriding ∷ sources ∷ []) normal 60 60 job ≡ 1
unfolding composite_resolve explicit_priority_resolver override_priority_resolver
    source_priority_resolver found override lookup active or_else
after_its_end = refl
