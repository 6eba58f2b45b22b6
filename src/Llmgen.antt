-- ===== src/Llmgen.antt =====
-- internal/processor/parser/rule/llmgen: what holds back the calls of the rule generator.
pub mod HostBreaker
pub mod CallBudget
