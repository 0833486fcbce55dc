-- ===== src/Base/Kept.antt =====
-- What holds of the elements that a search, a filter or a map goes through.
use diff_graph.Base.Lists.{All, any, keep_if}
use diff_graph.Base.Tests.{Bool-cases}
use mathlib.Core.Bool.{Bool, true}
use mathlib.Core.List.{List, [], map, ◌∷◌}
use mathlib.Core.Logic.{inl, inr}
use mathlib.Core.Path.{◌≡◌}
use native.Mathlib.Omega.{arith}

pub any_mono {ℓ} :
    {A : Type ℓ} (p q : A → Bool)
    → ((x : A) → p x ≡ true → q x ≡ true)
    → (xs : List A) → any p xs ≡ true
    → any q xs ≡ true
any_mono p q f [] h = h
any_mono p q f (x ∷ xs) h = ground (arith, f x, any_mono p q f xs)

module _ {ℓ κ} {A : Type ℓ} (P : A → Type κ) where
  pub All_of_keep_if :
      (p : A → Bool) (xs : List A) → All P (keep_if p xs) → All (λ x. p x ≡ true → P x) xs
  All_of_keep_if p [] h = tt
  All_of_keep_if p (x ∷ xs) h = elim (Bool-cases (p x)) [
    | inl e ↦
        let both : All P (x ∷ keep_if p xs) = rw e at h in (λ _. both.0, All_of_keep_if p xs both.1)
    | inr e ↦ (λ k. cc, All_of_keep_if p xs (rw e at h))
  ]

  pub All_keep_if :
      (p : A → Bool) (xs : List A) → All (λ x. p x ≡ true → P x) xs → All P (keep_if p xs)
  All_keep_if p [] h = tt
  All_keep_if p (x ∷ xs) h = elim (Bool-cases (p x)) [
    | inl e ↦ rw e (h.0 e, All_keep_if p xs h.1)
    | inr e ↦ rw e (All_keep_if p xs h.1)
  ]

module _ {ℓ μ κ} {A : Type ℓ} {B : Type μ} (Q : B → Type κ) where
  pub All_of_map : (f : A → B) (xs : List A) → All Q (map f xs) → All (λ x. Q (f x)) xs
  All_of_map f [] h = tt
  All_of_map f (x ∷ xs) h = (h.0, All_of_map f xs h.1)

  pub All_map_of : (f : A → B) (xs : List A) → All (λ x. Q (f x)) xs → All Q (map f xs)
  All_map_of f [] h = tt
  All_map_of f (x ∷ xs) h = (h.0, All_map_of f xs h.1)
