-- ===== src/Bus/Chain/Guarded.antt =====
-- Publishing under the pipeline guard (internal/bus/chain.go with internal/locks/pipeline_guard.go).
use issue_tracker.Prelude.{String, List}
use issue_tracker.Prelude.Texts.{bytes_eq}
use issue_tracker.Redis.Expiring.{Expiring}
use issue_tracker.Bus.SeenCache.{SeenCache}
use issue_tracker.Bus.Messages.{TargetType}
use issue_tracker.Bus.Chain.{Publisher, Turn, State, acquired, gated, normalized}

-- The URLs that pass the normalizer and the gate.
abbrev pub passing : {M : Type 0} → Publisher M → List String → List String
passing p urls = gated p.gate (normalized p.normalizer urls)

-- The URLs that get a job: those that pass the normalizer, the gate and the guard.
abbrev pub chained :
    {M : Type 0} → Publisher M → Turn → State M → TargetType → List String → List String
chained p turn s t urls = (acquired p turn s t (passing p urls)).1
