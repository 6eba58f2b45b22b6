-- ===== src/Scheduler/BufferDrainer/Shift.antt =====
-- Which payloads a cycle puts back (internal/scheduler/buffer_drainer.go, dispatchToRetry).
use issue_tracker.Prelude.{
  ◌≡◌, refl, Bool, false, Option, none, some, String, List, [], ◌∷◌, if◌then◌else◌, All,
}
use issue_tracker.Prelude.Keys.{nat_eq, string_eq}
use issue_tracker.Bus.Messages.{CrawlJob, Message}
use issue_tracker.Scheduler.BufferDrainer.{
  BufferDrainer, cons_decoded, decoded, failed_at, behind, dispatch_job, dispatch,
}

-- All elements but the last, of a list with a first one.
abbrev pub front : String → List String → List String
front x [] = []
front x (y ∷ ys) = x ∷ front y ys

dispatch_job-refused :
    (retry : CrawlJob → Bool) (first : String) (ps : List String) (o : Option CrawlJob)
    (failed : List String)
    → ((job : CrawlJob) → retry job ≡ false)
    → dispatch_job retry (first ∷ ps) o ([], failed) ≡ ([], first ∷ failed)
unfolding dispatch_job failed_at
dispatch_job-refused retry first ps none failed refused = refl
dispatch_job-refused retry first ps (some job) failed refused = rw (refused job, if◌then◌else◌) refl

shifted :
    (d : BufferDrainer) (retry : CrawlJob → Bool)
    → ((job : CrawlJob) → retry job ≡ false)
    → (first : String) (ps : List String)
    → All (λ (p : String). (msg : Message) × (d.decode p ≡ some msg)) ps
    → dispatch d retry (decoded d ps) (first ∷ ps) ≡ ([], front first ps)
unfolding dispatch decoded cons_decoded behind
shifted d retry refused first [] good = refl
shifted d retry refused first (p ∷ ps) ((msg, e), good) =
    rw (e, shifted d retry refused p ps good)
      (dispatch_job-refused retry first (p ∷ ps) (d.unmarshal_job msg.value) (front p ps) refused)

-- Where a payload that cannot be decoded was drained before others that can, and the retry scheduler refuses
-- all of their jobs, `dispatchToRetry` with the messages and payloads of `drainOnce` puts back the damaged
-- payload and all of the others but the last: each message is paired with the payload before its own, and
-- the last payload is lost.
pub dispatch-shifts :
    (d : BufferDrainer) (retry : CrawlJob → Bool) (damaged : String) (ps : List String)
    → d.decode damaged ≡ none
    → All (λ (p : String). (msg : Message) × (d.decode p ≡ some msg)) ps
    → ((job : CrawlJob) → retry job ≡ false)
    → dispatch d retry (decoded d (damaged ∷ ps)) (damaged ∷ ps) ≡ ([], front damaged ps)
unfolding decoded cons_decoded
dispatch-shifts d retry damaged ps broken good refused =
    rw (broken) (shifted d retry refused damaged ps good)
