-- ===== src/Scoring/Bounds.antt =====
-- What a score says (internal/scoring/score.go).
use native.Mathlib.Nat.{mul-le-mul_left, le-div_iff_mul-le, div-le_of_le-mul}
use issue_tracker.Prelude.{
  ℕ, ◌+◌, ◌*◌, ◌/◌, ◌≤◌, ◌<◌, ◌≡◌, ◌⊎◌, inl, inr, refl, none, some, ltb, if◌then◌else◌, ◌==◌, arith,
  Bool-cases,
}
use issue_tracker.Prelude.Keys.{nat_eq}
use issue_tracker.Scoring.{one, Weights, min_sample_count, HostSignals, clamp01, score}

abbrev pub total : Weights → ℕ
total w = w.freshness + w.impact + w.host_trust

abbrev raw : HostSignals → Weights → ℕ
raw s w =
    w.freshness * clamp01 s.freshness
    + w.impact * clamp01 s.impact
    + w.host_trust * clamp01 s.host_trust

-- All three signals, as they count, lie between two numbers.
abbrev pub Between : ℕ → ℕ → HostSignals → Type 0
Between lo hi s =
    ((lo ≤ clamp01 s.freshness) × (clamp01 s.freshness ≤ hi))
    × ((lo ≤ clamp01 s.impact) × (clamp01 s.impact ≤ hi))
    × ((lo ≤ clamp01 s.host_trust) × (clamp01 s.host_trust ≤ hi))

clamp01-le : (v : ℕ) → (clamp01 v ≤ one) × (clamp01 v ≤ v)
unfolding clamp01
clamp01-le v = (ground arith, ground arith)

le-clamp01 : (lo v : ℕ) → lo ≤ one → lo ≤ v → lo ≤ clamp01 v
unfolding clamp01
le-clamp01 lo v h k = ground (arith, h, k)

raw-le :
    (lo hi : ℕ) (s : HostSignals) (w : Weights)
    → Between lo hi s
    → (lo * total w ≤ raw s w) × (raw s w ≤ total w * hi)
raw-le lo hi s w ((f, f'), (i, i'), (t, t')) = (
  omega (
    arith,
    mul-le-mul_left w.freshness f,
    mul-le-mul_left w.impact i,
    mul-le-mul_left w.host_trust t,
  ),
  omega (
    arith,
    mul-le-mul_left w.freshness f',
    mul-le-mul_left w.impact i',
    mul-le-mul_left w.host_trust t',
  ),
)

-- The quotient of a sum of weighted signals lies where they do.
mean-le :
    (lo hi : ℕ) (s : HostSignals) (w : Weights)
    → 0 < total w
    → Between lo hi s
    → (lo ≤ raw s w / total w) × (raw s w / total w ≤ hi)
mean-le lo hi s w weighted b =
    let (low, high) = raw-le lo hi s w b in
    ((le-div_iff_mul-le weighted).1 low, div-le_of_le-mul (total w) high)

-- A host has a score exactly if there are at least twenty samples and some weight. The score is not above
-- one, and wherever its three signals, cut off at one, lie, it lies between the least and the greatest.
pub score-Between :
    (lo hi : ℕ) (s : HostSignals) (w : Weights)
    → Between lo hi s
    → ((score s w ≡ none) × ((s.sample_count < min_sample_count) ⊎ (total w ≡ 0)))
      ⊎ ((v : ℕ) × (score s w ≡ some v)
          × (min_sample_count ≤ s.sample_count)
          × (0 < total w)
          × (lo ≤ v)
          × (v ≤ hi)
          × (v ≤ one))
unfolding score
score-Between lo hi s w b = elim (Bool-cases (ltb s.sample_count min_sample_count)) [
  | inl few ↦ rw (few, if◌then◌else◌) (inl (refl, inl (ground (arith, few))))
  | inr enough ↦ elim (Bool-cases (total w == 0)) [
    | inl none_given ↦
        rw (enough, none_given, if◌then◌else◌) (inl (refl, inr (ground (arith, none_given))))
    | inr given ↦
        let weighted : 0 < total w = ground (arith, given) in
        let (low, high) = mean-le lo hi s w weighted b in
        let mean = raw s w / total w in
        let ((f, f'), i, t) = b in
        rw (enough, given, if◌then◌else◌)
          (inr (
            clamp01 mean,
            refl,
            ground (arith, enough),
            weighted,
            le-clamp01 lo mean (omega (arith, f, clamp01-le s.freshness)) low,
            omega (arith, clamp01-le mean, high),
            (clamp01-le mean).0,
          ))
  ]
]
