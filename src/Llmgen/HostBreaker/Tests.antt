-- ===== src/Llmgen/HostBreaker/Tests.antt =====
-- The host breaker (internal/processor/parser/rule/llmgen/breaker.go) at concrete inputs.
use issue_tracker.Prelude.{[]}
use issue_tracker.Prelude.Keys.{pair_eq, string_eq}
use issue_tracker.Llmgen.HostBreaker.{HostKey, HostBreaker}

abbrev cnn : HostKey
cnn = ("cnn.com", "article")

abbrev quiet : HostBreaker
quiet = record { cfg = record { failure_threshold = 2; cooldown_duration = 100 }; st = [] }
