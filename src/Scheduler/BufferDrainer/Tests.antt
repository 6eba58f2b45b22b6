-- ===== src/Scheduler/BufferDrainer/Tests.antt =====
-- Cycles of the drainer over lists in memory (internal/scheduler/buffer_drainer.go).
use issue_tracker.Prelude.{
  ℕ, ◌+◌, ◌≤◌, ◌≡◌, ◌⊎◌, inl, inr, refl, sym, subst, false, none, some, String, List, [], ◌∷◌,
  if◌then◌else◌, ◌==◌, length, Member, AssocList, lookup,
}
use issue_tracker.Prelude.Keys.{string_eq}
use issue_tracker.Redis.{done}
use issue_tracker.Redis.Lists.Memory.{lists, items_of, lists-IsLists}
use issue_tracker.Bus.Messages.{CrawlJob, TargetType, Message}
use issue_tracker.Scheduler.BufferDrainer.{BufferDrainer, Faults, decoded, dispatch, drain_once}
use issue_tracker.Scheduler.BufferDrainer.Drained.{drain_once-Oldest}
use issue_tracker.Scheduler.BufferDrainer.Loss.{Decodes, SafeOrPopped, drain_once-Safe}
use issue_tracker.Scheduler.BufferDrainer.Shift.{dispatch-shifts}

abbrev message : Message
message = record {
  topic = "issuetracker.crawl.low";
  key = "job";
  value = "job bytes";
  crawler = "yna";
  priority = 3;
}

abbrev job : CrawlJob
job = record {
  id = "job";
  crawler_name = "yna";
  url = "https://a/1";
  target_type = TargetType.article;
  priority = 3;
  scheduled_at = 0;
  timeout = 30;
  retry_count = 0;
  max_retries = 3;
}

-- One text is damaged.
abbrev drainer : BufferDrainer
drainer = record {
  decode = λ p. if p == "damaged" then none else some message;
  unmarshal_job = λ bytes. some job;
  retry_scheduler = some (λ j. false);
  target_backlog = 3000;
  drain_batch = 100;
  max_len = 0;
}

abbrev down : Faults
down = record {
  backlog = some 2999;
  len = false;
  drain = done;
  publish = λ msgs. false;
  reenqueue = none;
}

abbrev store : AssocList String (List String)
store = ("low", "b" ∷ "a" ∷ []) ∷ []

store-Decodes : (q : String) → Member q ("b" ∷ "a" ∷ []) → Decodes drainer q
store-Decodes q (inl e) = subst (Decodes drainer) (sym e) (message, refl, refl)
store-Decodes q (inr (inl e)) = subst (Decodes drainer) (sym e) (message, refl, refl)
store-Decodes q (inr (inr e)) = elim e [ ]

drain_once-Oldest_example :
    ((drain_once lists drainer down "low" store).published ≡ [])
    ⊎ ((backlog : ℕ) × (n : ℕ) × (down.backlog ≡ some backlog)
        × (backlog + n ≤ 3000)
        × (n ≤ 100)
        × (length (drain_once lists drainer down "low" store).published ≤ n)
        × ((drain_once lists drainer down "low" store).published
            ≡ decoded drainer (lists.rpop "low" n store).1)
        × ((drain_once lists drainer down "low" store).store ≡ (lists.rpop "low" n store).0))
drain_once-Oldest_example = drain_once-Oldest lists drainer down "low" store lists-IsLists

drain_once-Safe_example :
    SafeOrPopped lists drainer "low" down "a" store (drain_once lists drainer down "low" store)
unfolding lists items_of lookup
drain_once-Safe_example =
    drain_once-Safe lists drainer down "low" "a" store lists-IsLists refl refl refl store-Decodes
      (inr (inl refl))

dispatch-shifts_example :
    dispatch drainer (λ j. false) (decoded drainer ("damaged" ∷ "a" ∷ [])) ("damaged" ∷ "a" ∷ [])
    ≡ ([], "damaged" ∷ [])
dispatch-shifts_example =
    dispatch-shifts drainer (λ j. false) "damaged" ("a" ∷ []) refl ((message, refl), tt) (λ j. refl)
