-- ===== src/Base/Lists.antt =====
-- Lists measured by native numbers, Boolean searches of lists, and predicates on all elements.
use Prim.Native.Nat.{suc, zero, ℕ, ◌+◌, ◌-◌, ◌≤◌}
use diff_graph.Base.Tests.{if◌then◌else◌}
use mathlib.Core.Bool.{Bool, false, ◌&&◌, ◌||◌}
use mathlib.Core.List.{List, Mem, [], map, mem-cons_of_mem, mem-cons_self, ◌++◌, ◌∷◌}
use mathlib.Core.Path.{ap, refl, ◌∙◌, ◌≡◌}
use native.Mathlib.Omega.{arith}

module _ {ℓ} {A : Type ℓ} where
  abbrev pub length : List A → ℕ
  length [] = 0
  length (x ∷ xs) = suc (length xs)

  -- Python's `any(p(x) for x in xs)`.
  abbrev pub any : (A → Bool) → List A → Bool
  any p [] = false
  any p (x ∷ xs) = p x || any p xs

  -- `[x for x in xs if p(x)]`; the library's `filter` takes a decision procedure.
  abbrev pub keep_if : (A → Bool) → List A → List A
  keep_if p [] = []
  keep_if p (x ∷ xs) = if p x then x ∷ keep_if p xs else keep_if p xs

  -- `sum(1 for x in xs if p(x))`.
  abbrev pub count_if : (A → Bool) → List A → ℕ
  count_if p [] = 0
  count_if p (x ∷ xs) = (if p x then 1 else 0) + count_if p xs

  -- `xs[:n]` and `xs[n:]`.
  abbrev pub take : ℕ → List A → List A
  take zero xs = []
  take (suc n) [] = []
  take (suc n) (x ∷ xs) = x ∷ take n xs

  abbrev pub drop : ℕ → List A → List A
  drop zero xs = xs
  drop (suc n) [] = []
  drop (suc n) (x ∷ xs) = drop n xs

  -- `xs[:-n]` and `xs[-n:]`, for a positive `n`.
  abbrev pub all_but_last : ℕ → List A → List A
  all_but_last n xs = take (length xs - n) xs

  abbrev pub last : ℕ → List A → List A
  last n xs = drop (length xs - n) xs

  pub length-append : (xs ys : List A) → length (xs ++ ys) ≡ length xs + length ys
  length-append [] ys = omega arith
  length-append (x ∷ xs) ys = omega (arith, length-append xs ys)

  pub length-drop : (n : ℕ) (xs : List A) → length (drop n xs) ≡ length xs - n
  length-drop zero xs = omega arith
  length-drop (suc n) [] = omega arith
  length-drop (suc n) (x ∷ xs) = omega (arith, length-drop n xs)

  -- Dropping a whole list and more drops from what follows it.
  pub drop_past : (n k : ℕ) (xs ys : List A) → n ≡ length xs + k → drop n (xs ++ ys) ≡ drop k ys
  drop_past n k [] ys e = let same : n ≡ k = omega (arith, e) in ap (λ i. drop i ys) same
  drop_past zero k (x ∷ xs) ys e = absurd (omega (arith, e))
  drop_past (suc n) k (x ∷ xs) ys e = drop_past n k xs ys (omega (arith, e))

  pub last_of_append : (n : ℕ) (xs ys : List A) → n ≤ length ys → last n (xs ++ ys) ≡ last n ys
  last_of_append n xs ys h =
      drop_past (length (xs ++ ys) - n) (length ys - n) xs ys
        (omega (arith, h, length-append xs ys))

  pub last_whole : (n : ℕ) (xs : List A) → length xs ≤ n → last n xs ≡ xs
  last_whole n xs h = let none : length xs - n ≡ 0 = omega (arith, h) in rw none refl

  pub length-last : (n : ℕ) (xs : List A) → n ≤ length xs → length (last n xs) ≡ n
  length-last n xs h = omega (arith, h, length-drop (length xs - n) xs)

  pub last-last : (n : ℕ) (xs : List A) → last n (last n xs) ≡ last n xs
  last-last n xs =
      let none : length (last n xs) - n ≡ 0 = omega (arith, length-drop (length xs - n) xs) in
      rw none refl

  pub last_zero : (xs : List A) → last 0 xs ≡ []
  last_zero [] = refl
  last_zero (x ∷ xs) =
      let more : 0 ≤ length xs = omega arith in last_of_append 0 (x ∷ []) xs more ∙ last_zero xs

  pub length-snoc : (xs : List A) (x : A) → length (xs ++ x ∷ []) ≡ length xs + 1
  length-snoc xs x = omega (arith, length-append xs (x ∷ []))

  pub any-append : (p : A → Bool) (xs ys : List A) → any p (xs ++ ys) ≡ (any p xs || any p ys)
  any-append p [] ys = refl
  any-append p (x ∷ xs) ys = ground (arith, any-append p xs ys)

  pub count_if-append :
      (p : A → Bool) (xs ys : List A) → count_if p (xs ++ ys) ≡ count_if p xs + count_if p ys
  count_if-append p [] ys = omega arith
  count_if-append p (x ∷ xs) ys = omega (arith, count_if-append p xs ys)

  pub count_if-keep_if :
      (p q : A → Bool) (xs : List A) → count_if q (keep_if p xs) ≡ count_if (λ x. p x && q x) xs
  count_if-keep_if p q [] = refl
  count_if-keep_if p q (x ∷ xs) = ground (arith, count_if-keep_if p q xs)

-- A predicate of every element, as a tuple that the tactics read and build.
abbrev pub All {ℓ κ} : {A : Type ℓ} → (A → Type κ) → List A → Type κ
All P [] = Unit
All P (x ∷ xs) = P x × All P xs

module _ {ℓ κ} {A : Type ℓ} where
  pub All-append : (P : A → Type κ) (xs ys : List A) → All P xs → All P ys → All P (xs ++ ys)
  All-append P [] ys hx hy = hy
  All-append P (x ∷ xs) ys hx hy = (hx.0, All-append P xs ys hx.1 hy)

  pub All_map : {P Q : A → Type κ} (xs : List A) → ((x : A) → P x → Q x) → All P xs → All Q xs
  All_map [] f h = tt
  All_map (x ∷ xs) f h = (f x h.0, All_map xs f h.1)

  pub All_zip : (P Q : A → Type κ) (xs : List A) → All P xs → All Q xs → All (λ x. P x × Q x) xs
  All_zip P Q [] h k = tt
  All_zip P Q (x ∷ xs) h k = ((h.0, k.0), All_zip P Q xs h.1 k.1)

  pub All_of_mem : {P : A → Type κ} (xs : List A) → ((x : A) → Mem x xs → P x) → All P xs
  All_of_mem [] f = tt
  All_of_mem (x ∷ xs) f = (f x mem-cons_self, All_of_mem xs (λ y m. f y (mem-cons_of_mem x m)))

  pub All_of : {P : A → Type κ} → ((x : A) → P x) → (xs : List A) → All P xs
  All_of f [] = tt
  All_of f (x ∷ xs) = (f x, All_of f xs)

module _ {ℓ κ} {A : Type ℓ} {B : Type κ} where
  pub length-map : (f : A → B) (xs : List A) → length (map f xs) ≡ length xs
  length-map f [] = refl
  length-map f (x ∷ xs) = ap suc (length-map f xs)
