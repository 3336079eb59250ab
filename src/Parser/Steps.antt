-- ===== src/Parser/Steps.antt =====
-- What the parser has done when a run ends.
use ledger_babylon_app.Common.{
  ℕ, zero, suc, ◌+◌, ◌≤◌, ◌≡◌, refl, subst, some, get_elem?, arith, List, [], ◌∷◌, length, drop,
  length-drop,
}
use ledger_babylon_app.Parser.{
  Buffers, Step, StepResult, finished, needs_more, failed, continue_with, steps_from, parser_run,
}

-- The steps from one to another, each of which has finished.
pub data Passed {S : Type 0} (fs : List (Step S)) : ℕ → S → Buffers → ℕ → S → Buffers → Type 0 where
  none_passed : {cur : ℕ} {s : S} {bs : Buffers} → Passed fs cur s bs cur s bs
  step_passed :
      {cur now : ℕ} {s s' t : S} {bs bs' ct : Buffers} {f : Step S}
      → get_elem? fs cur ≡ some f
      → f s bs ≡ (finished, s', bs')
      → Passed fs (cur + 1) s' bs' now t ct
      → Passed fs cur s bs now t ct

-- How a run ends in the step `now`, which is reached with the state `t` and the buffers `ct`: behind
-- the last step, with nothing done there; or in a step that gave the result of the run.
abbrev pub IsEnd :
    {S : Type 0} → List (Step S) → ℕ → S → Buffers → StepResult → S → Buffers → Type 0
IsEnd fs now t ct finished s bs = (now ≡ length fs) × (t ≡ s) × (ct ≡ bs)
IsEnd {S} fs now t ct needs_more s bs =
    (f : Step S) × (get_elem? fs now ≡ some f) × (f t ct ≡ (needs_more, s, bs))
IsEnd {S} fs now t ct (failed n) s bs =
    (f : Step S) × (get_elem? fs now ≡ some f) × (f t ct ≡ (failed n, s, bs))

abbrev pub IsRun :
    {S : Type 0} → List (Step S) → ℕ → S → Buffers → StepResult × ℕ × S × Buffers → Type 0
IsRun {S} fs cur s bs (r, now, s', bs') =
    (t : S) × (ct : Buffers) × Passed fs cur s bs now t ct × IsEnd fs now t ct r s' bs'

continue_with-IsRun :
    {S : Type 0} (fs : List (Step S)) (f : Step S) (cur : ℕ) (s : S) (bs : Buffers)
    (after : S → Buffers → StepResult × ℕ × S × Buffers) (x : StepResult × S × Buffers)
    → get_elem? fs cur ≡ some f
    → f s bs ≡ x
    → ((s' : S) (bs' : Buffers) → IsRun fs (cur + 1) s' bs' (after s' bs'))
    → IsRun fs cur s bs (continue_with x cur after)
unfolding continue_with
continue_with-IsRun fs f cur s bs after (finished, s', bs') at e rest =
    let (t, ct, passed, end) = rest s' bs' in (t, ct, step_passed at e passed, end)
continue_with-IsRun fs f cur s bs after (needs_more, s', bs') at e rest =
    (s, bs, none_passed, (f, at, e))
continue_with-IsRun fs f cur s bs after (failed n, s', bs') at e rest =
    (s, bs, none_passed, (f, at, e))

get_elem?-drop :
    {S : Type 0} (fs : List (Step S)) (cur : ℕ) {f : Step S} {rest : List (Step S)}
    → drop cur fs ≡ f ∷ rest
    → (get_elem? fs cur ≡ some f) × (drop (suc cur) fs ≡ rest)
get_elem?-drop [] zero e = cc
get_elem?-drop [] (suc cur) e = cc
get_elem?-drop (g ∷ fs) zero e = (cc, cc)
get_elem?-drop (g ∷ fs) (suc cur) e = get_elem?-drop fs cur e

steps_from-IsRun :
    {S : Type 0} (fs rest : List (Step S)) (cur : ℕ) (s : S) (bs : Buffers)
    → drop cur fs ≡ rest
    → cur + length rest ≡ length fs
    → IsRun fs cur s bs (steps_from rest cur s bs)
unfolding steps_from
steps_from-IsRun fs [] cur s bs e count = (s, bs, none_passed, (omega arith, refl, refl))
steps_from-IsRun fs (f ∷ rest) cur s bs e count =
    let (at, below) = get_elem?-drop fs cur e in
    let next : suc cur ≡ cur + 1 = omega arith in
    continue_with-IsRun fs f cur s bs (λ s' bs'. steps_from rest (cur + 1) s' bs') (f s bs) at refl
      (λ s' bs'.
        steps_from-IsRun fs rest (cur + 1) s' bs' (subst (λ k. drop k fs ≡ rest) next below)
          (omega arith))

-- A run from a step that exists, or from the end, does the steps in order, each on the state and the
-- buffers that the one before it left, as long as they finish. It has finished if all of them have,
-- and then stands behind the last one; else it stands at the first step that needs more or fails, with
-- the result, the state and the buffers of that step.
pub parser_run-IsRun :
    {S : Type 0} (fs : List (Step S)) (cur : ℕ) (s : S) (bs : Buffers)
    → cur ≤ length fs
    → IsRun fs cur s bs (parser_run fs cur s bs)
unfolding parser_run
parser_run-IsRun fs cur s bs h =
    steps_from-IsRun fs (drop cur fs) cur s bs refl (omega (arith, length-drop cur fs))
