-- ===== src/Redis/Framing.antt =====
-- A writing of lists of texts as one text, which stands for JSON where a codec is needed.
use issue_tracker.Prelude.{ℕ, zero, suc, ◌≡◌, refl, ap, ◌∙◌, List, [], ◌∷◌, Bytes, AssocList}

unfoldable pub frame : Bytes → Bytes → Bytes
frame [] rest = 0 ∷ rest
frame (b ∷ bs) rest = suc b ∷ frame bs rest

unfoldable pub join : List Bytes → Bytes
join [] = []
join (t ∷ ts) = frame t (join ts)

grow : ℕ → List Bytes → List Bytes
grow b [] = (b ∷ []) ∷ []
grow b (t ∷ ts) = (b ∷ t) ∷ ts

unfoldable pub split : Bytes → List Bytes
unfolding grow
split [] = []
split (zero ∷ rest) = [] ∷ split rest
split (suc b ∷ rest) = grow b (split rest)

split-frame : (t rest : Bytes) → split (frame t rest) ≡ t ∷ split rest
unfolding split frame
split-frame [] rest = refl
split-frame (b ∷ t) rest = ap (grow b) (split-frame t rest)

pub split-join : (ts : List Bytes) → split (join ts) ≡ ts
unfolding join
split-join [] = unfold split in refl
split-join (t ∷ ts) = split-frame t (join ts) ∙ ap (λ (l : List Bytes). t ∷ l) (split-join ts)

unfoldable pub flat : AssocList Bytes Bytes → List Bytes
flat [] = []
flat ((k, v) ∷ rest) = k ∷ v ∷ flat rest

unfoldable pub pairs : List Bytes → AssocList Bytes Bytes
pairs [] = []
pairs (k ∷ []) = []
pairs (k ∷ v ∷ rest) = (k, v) ∷ pairs rest

pub pairs-flat : (m : AssocList Bytes Bytes) → pairs (flat m) ≡ m
unfolding pairs flat
pairs-flat [] = refl
pairs-flat ((k, v) ∷ m) = ap (λ (l : AssocList Bytes Bytes). (k, v) ∷ l) (pairs-flat m)
