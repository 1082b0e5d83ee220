-- ===== src/Wizard/Finished.antt =====
-- What was done, and well, when the steps of an installation end without an error.
use myzerossl.Prelude.{
  ◌≡◌, ◌⊎◌, inl, inr, refl, sym, List, [], ◌∷◌, ◌++◌, Option, none, All, Exists, arith,
  Option-cases,
}
use mathlib.Core.Path.{subst}
use myzerossl.Text.{Text}
use myzerossl.Wizard.Plan.{
  Action, Step, required, ignored, or_required, or_ignored, attempt, perform,
}

module _ {A : Type 0} (P : A → Type 0) where
  pub Exists-left : (a b : List A) → Exists P a → Exists P (a ++ b)
  Exists-left [] b h = absurd h
  Exists-left (x ∷ a) b (inl h) = inl h
  Exists-left (x ∷ a) b (inr h) = inr (Exists-left a b h)

  pub Exists-right : (a b : List A) → Exists P b → Exists P (a ++ b)
  Exists-right [] b h = h
  Exists-right (x ∷ a) b h = inr (Exists-right a b h)

  pub all_parts : (a b : List A) → All P (a ++ b) → All P a × All P b
  all_parts [] b h = (tt, h)
  all_parts (x ∷ a) b (hx, h) = let (left, right) = all_parts a b h in ((hx, left), right)

module _ (outcome : Action → Option Text) where
  -- The action was performed, and it did not fail.
  abbrev pub IsDone : List Action → Action → Type 0
  IsDone log a = Exists (λ b. b ≡ a) log × (outcome a ≡ none)

  -- The action of a required step, or one of the two, was done.
  abbrev pub Finished : List Action → Step → Type 0
  Finished log (required a) = IsDone log a
  Finished log (ignored a) = Unit
  Finished log (or_required a b) = IsDone log a ⊎ IsDone log b
  Finished log (or_ignored a b) = Unit

  IsDone-more :
      (log more : List Action) (a : Action)
      → IsDone log a
      → IsDone (log ++ more) a × IsDone (more ++ log) a
  IsDone-more log more a (seen, fine) = (
    (Exists-left (λ b. b ≡ a) log more seen, fine),
    (Exists-right (λ b. b ≡ a) more log seen, fine),
  )

  finished_left : (log more : List Action) (s : Step) → Finished log s → Finished (log ++ more) s
  finished_left log more (required a) h = (IsDone-more log more a h).0
  finished_left log more (ignored a) h = tt
  finished_left log more (or_required a b) (inl h) = inl (IsDone-more log more a h).0
  finished_left log more (or_required a b) (inr h) = inr (IsDone-more log more b h).0
  finished_left log more (or_ignored a b) h = tt

  finished_right : (log more : List Action) (s : Step) → Finished log s → Finished (more ++ log) s
  finished_right log more (required a) h = (IsDone-more log more a h).1
  finished_right log more (ignored a) h = tt
  finished_right log more (or_required a b) (inl h) = inl (IsDone-more log more a h).1
  finished_right log more (or_required a b) (inr h) = inr (IsDone-more log more b h).1
  finished_right log more (or_ignored a b) h = tt

  pub all_left :
      (log more : List Action) (steps : List Step)
      → All (Finished log) steps
      → All (Finished (log ++ more)) steps
  all_left log more [] h = tt
  all_left log more (s ∷ steps) (hs, h) = (finished_left log more s hs, all_left log more steps h)

  all_right :
      (log more : List Action) (steps : List Step)
      → All (Finished log) steps
      → All (Finished (more ++ log)) steps
  all_right log more [] h = tt
  all_right log more (s ∷ steps) (hs, h) =
      (finished_right log more s hs, all_right log more steps h)

  attempt-Finished :
      (s : Step) → (attempt outcome s).error ≡ none → Finished (attempt outcome s).log s
  unfolding attempt
  attempt-Finished (required a) e = (inl refl, e)
  attempt-Finished (ignored a) e = tt
  attempt-Finished (or_required a b) e = elim (Option-cases (outcome a)) [
    | inl n ↦
        let log : (attempt outcome (or_required a b)).log ≡ a ∷ [] = ground arith in
        subst (λ l. Finished l (or_required a b)) (sym log) (inl (inl refl, n))
    | inr (m, f) ↦
        let log : (attempt outcome (or_required a b)).log ≡ a ∷ b ∷ [] = ground arith in
        let fine : outcome b ≡ none = ground arith in
        subst (λ l. Finished l (or_required a b)) (sym log) (inr (inr (inl refl), fine))
  ]
  attempt-Finished (or_ignored a b) e = tt

  pub perform-Finished :
      (steps : List Step)
      → (perform outcome steps).error ≡ none
      → All (Finished (perform outcome steps).log) steps
  unfolding perform
  perform-Finished [] e = tt
  perform-Finished (s ∷ steps) e =
      let first = attempt outcome s in
      let rest = perform outcome steps in
      elim (Option-cases first.error) [
        | inl n ↦
            let log : (perform outcome (s ∷ steps)).log ≡ first.log ++ rest.log = ground arith in
            let ends : rest.error ≡ none = ground arith in
            subst (λ l. All (Finished l) (s ∷ steps)) (sym log)
              (
                finished_left first.log rest.log s (attempt-Finished s n),
                all_right rest.log first.log steps (perform-Finished steps ends),
              )
        | inr (m, f) ↦ absurd (ground arith)
      ]
