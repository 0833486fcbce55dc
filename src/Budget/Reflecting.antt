-- ===== src/Budget/Reflecting.antt =====
-- The reflect counter and the guard against failing reflects, over a run of any length.
use diff_graph.Base.{
  Bool, Bool-cases, List, String, [], any, ap, arith, count_if, false, if◌then◌else◌, inl, inr, leb,
  refl, str_eq, suc, true, zero, ℕ, ◌&&◌, ◌++◌, ◌+◌, ◌==◌, ◌||◌, ◌∙◌, ◌∷◌, ◌≡◌, ◌≤◌,
}
use diff_graph.Budget.Reflect.{
  FailedReflectGuard, Outcome, count_step, is_reflection, is_work, new_guard, note, note_all,
}

-- `on_step_done` of the counter for the steps of a run, oldest first.
abbrev pub count_steps : ℕ → List (List Outcome) → ℕ
count_steps counter [] = counter
count_steps counter (step ∷ steps) = count_steps (count_step counter step) steps

abbrev pub work_in : List (List Outcome) → ℕ
work_in [] = 0
work_in (step ∷ steps) = count_if is_work step + work_in steps

abbrev pub has_reflection : List Outcome → Bool
has_reflection step = any is_reflection step

count_steps_work :
    (counter : ℕ) (steps : List (List Outcome))
    → any has_reflection steps ≡ false
    → count_steps counter steps ≡ counter + work_in steps
unfolding count_step
count_steps_work counter [] h = omega arith
count_steps_work counter (step ∷ steps) h =
    let rest = count_steps_work (count_step counter step) steps (ground arith) in
    ground (arith, rest)

-- After any run, if its last step with a successful reflect is `last`, the counter holds the calls to
-- other tools than reflect and done in that step and the steps after it.
pub count_steps_since :
    (counter : ℕ) (before : List (List Outcome)) (last : List Outcome) (after : List (List Outcome))
    → has_reflection last ≡ true
    → any has_reflection after ≡ false
    → count_steps counter (before ++ last ∷ after) ≡ count_if is_work last + work_in after
unfolding count_step
count_steps_since counter [] last after h k =
    let rest = count_steps_work (count_step counter last) after k in ground (arith, rest)
count_steps_since counter (step ∷ before) last after h k =
    count_steps_since (count_step counter step) before last after h k

-- The error flags of the reflects among the outcomes.
abbrev pub reflect_errors : List Outcome → List Bool
reflect_errors [] = []
reflect_errors (o ∷ outcomes) =
    if str_eq o.0 "reflect" then o.1 ∷ reflect_errors outcomes else reflect_errors outcomes

abbrev pub starts_with : ℕ → List Bool → Bool
starts_with zero flags = true
starts_with (suc n) [] = false
starts_with (suc n) (b ∷ flags) = b && starts_with n flags

-- Some n flags in a row are true.
abbrev pub has_streak : ℕ → List Bool → Bool
has_streak n [] = n == 0
has_streak n (b ∷ flags) = starts_with n (b ∷ flags) || has_streak n flags

starts_with_le :
    (m n : ℕ) (flags : List Bool) → m ≤ n → starts_with n flags ≡ true → starts_with m flags ≡ true
starts_with_le zero n flags h k = refl
starts_with_le (suc m) zero flags h k = ground arith
starts_with_le (suc m) (suc n) [] h k = ground arith
starts_with_le (suc m) (suc n) (b ∷ flags) h k =
    let rest = starts_with_le m n flags (omega arith) in ground arith

starts-streak : (n : ℕ) (flags : List Bool) → starts_with n flags ≡ true → has_streak n flags ≡ true
starts-streak zero [] h = refl
starts-streak (suc n) [] h = ground arith
starts-streak n (b ∷ flags) h = ground arith

note_all-latched :
    (g : FailedReflectGuard) (outcomes : List Outcome)
    → g.latched ≡ true
    → (note_all g outcomes).latched ≡ true
unfolding note_all note
note_all-latched g [] h = h
note_all-latched g (o ∷ outcomes) h = note_all-latched (note g o) outcomes (ground arith)

streak_fail :
    (m n : ℕ) (flags : List Bool) (l : Bool)
    → m ≤ n
    → (l || starts_with m flags || has_streak (suc n) flags)
      ≡ (l || starts_with (suc m) (true ∷ flags) || has_streak (suc n) (true ∷ flags))
streak_fail m n flags l h = let le = starts_with_le m n flags h in ground arith

streak_reset :
    (m n : ℕ) (flags : List Bool) (l : Bool)
    → (l || starts_with (suc n) flags || has_streak (suc n) flags)
      ≡ (l || starts_with (suc m) (false ∷ flags) || has_streak (suc n) (false ∷ flags))
streak_reset m n flags l = let streak = starts-streak (suc n) flags in ground arith

note_other :
    (g : FailedReflectGuard) (name : String) (error : Bool)
    → str_eq name "reflect" ≡ false
    → note g (name, error) ≡ g
unfolding note
note_other g name error e = rw e refl

note_success :
    (g : FailedReflectGuard) (name : String)
    → str_eq name "reflect" ≡ true
    → note g (name, false) ≡ record g { consecutive_failed = 0 }
unfolding note
note_success g name e = rw e refl

abbrev failed : FailedReflectGuard → FailedReflectGuard
failed g = record g {
  consecutive_failed = suc g.consecutive_failed;
  latched = g.latched || leb g.threshold (suc g.consecutive_failed);
}

note_failure :
    (g : FailedReflectGuard) (name : String)
    → str_eq name "reflect" ≡ true
    → note g (name, true) ≡ failed g
unfolding note
note_failure g name e = rw e refl

streak_lem :
    (m n : ℕ) (g : FailedReflectGuard) (outcomes : List Outcome)
    → g.threshold ≡ suc n
    → m + g.consecutive_failed ≡ n
    → (note_all g outcomes).latched ≡ (
        g.latched
        || starts_with (suc m) (reflect_errors outcomes)
        || has_streak (suc n) (reflect_errors outcomes))
unfolding note_all note
streak_lem m n g [] h k = ground arith
streak_lem m n g ((name, false) ∷ outcomes) h k = elim (Bool-cases (str_eq name "reflect")) [
  | inr e ↦ rw e (
      ap (λ x. (note_all x outcomes).latched) (note_other g name false e)
      ∙ streak_lem m n g outcomes h k)
  | inl e ↦ rw e (
      ap (λ x. (note_all x outcomes).latched) (note_success g name e)
      ∙ streak_lem n n (record g { consecutive_failed = 0 }) outcomes h (omega arith)
      ∙ streak_reset m n (reflect_errors outcomes) g.latched)
]
streak_lem zero n g ((name, true) ∷ outcomes) h k = elim (Bool-cases (str_eq name "reflect")) [
  | inr e ↦ rw e (
      ap (λ x. (note_all x outcomes).latched) (note_other g name true e)
      ∙ streak_lem zero n g outcomes h k)
  | inl e ↦ rw e (
      ap (λ x. (note_all x outcomes).latched) (note_failure g name e)
      ∙ note_all-latched (failed g) outcomes (ground arith)
      ∙ ground arith)
]
streak_lem (suc m) n g ((name, true) ∷ outcomes) h k = elim (Bool-cases (str_eq name "reflect")) [
  | inr e ↦ rw e (
      ap (λ x. (note_all x outcomes).latched) (note_other g name true e)
      ∙ streak_lem (suc m) n g outcomes h k)
  | inl e ↦
      let rest = streak_lem m n (failed g) outcomes h (omega arith) in
      let fail = streak_fail (suc m) n (reflect_errors outcomes) g.latched (omega arith) in
      let once : (failed g).latched ≡ g.latched = ground arith in
      rw e (
        ap (λ x. (note_all x outcomes).latched) (note_failure g name e)
        ∙ rest
        ∙ ap
            (λ l.
              l
              || starts_with (suc m) (reflect_errors outcomes)
              || has_streak (suc n) (reflect_errors outcomes))
            once
        ∙ fail)
]

-- For a threshold of at least 1, the guard has latched after a run exactly if some `threshold` reflects in a
-- row failed: calls of other tools between them do not count, a successful reflect ends the row, and
-- nothing undoes the latch.
pub guard_latched :
    (n : ℕ) (outcomes : List Outcome)
    → (note_all (new_guard (suc n)) outcomes).latched ≡ has_streak (suc n) (reflect_errors outcomes)
unfolding new_guard
guard_latched n outcomes =
    let streak = starts-streak (suc n) (reflect_errors outcomes) in
    streak_lem n n (new_guard (suc n)) outcomes refl (omega arith) ∙ ground arith
