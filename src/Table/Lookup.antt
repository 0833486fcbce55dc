-- ===== src/Table/Lookup.antt =====
-- The row that `find?` of Table.antt finds, before and after an update.
use diff_graph.Base.{
  All, Bool, Bool-cases, List, [], ap, arith, false, if◌then◌else◌, inl, inr, none, refl, some,
  true, ◌∷◌, ◌≡◌,
}
use diff_graph.Table.{any_row, find?, update}
use mathlib.Core.List.{Memᴰ}
use mathlib.Core.Path.{subst, sym}
use mathlib.Core.Option

module _ {ℓ} {Row : Type ℓ} where
  pub find?_holds : (p : Row → Bool) (rs : List Row) (r : Row) → find? p rs ≡ some r → p r ≡ true
  unfolding find?
  find?_holds p [] r h = cc
  find?_holds p (x ∷ rs) r h = ground (arith, find?_holds p rs r)

  -- The row that is found has what every row has.
  pub find?_of_all {κ} :
      (P : Row → Type κ) (p : Row → Bool) (rs : List Row) (r : Row)
      → All P rs
      → find? p rs ≡ some r
      → P r
  unfolding find?
  find?_of_all P p [] r all h = cc
  find?_of_all P p (x ∷ rs) r all h = elim (Bool-cases (p x)) [
    | inl e ↦ let same : x ≡ r = ground (arith, e) in subst P same all.0
    | inr e ↦ find?_of_all P p rs r all.1 (rw e at h)
  ]

  pub find?-none : (p : Row → Bool) (rs : List Row) → any_row p rs ≡ false → find? p rs ≡ none
  unfolding find? any_row
  find?-none p [] h = refl
  find?-none p (x ∷ rs) h = ground (arith, find?-none p rs)

  -- `find?` by a test that only the listed row passes finds that row.
  pub find?_only :
      (p : Row → Bool) (rs : List Row) (r : Row)
      → Memᴰ r rs
      → p r ≡ true
      → All (λ x. p x ≡ true → x ≡ r) rs
      → find? p rs ≡ some r
  unfolding find?
  find?_only p [] r m h only = elim m [ ]
  find?_only p (x ∷ rs) r (Memᴰ.head e) h only =
      let hit : p x ≡ true = subst (λ y. p y ≡ true) e h in rw hit (ap some (sym e))
  find?_only p (x ∷ rs) r (Memᴰ.tail m) h only = elim (Bool-cases (p x)) [
    | inl e ↦ rw e (ap some (only.0 e))
    | inr e ↦ rw e (find?_only p rs r m h only.1)
  ]

  -- An updated row is found by a test that the update keeps.
  pub find?-update :
      (p q : Row → Bool) (f : Row → Row) (rs : List Row)
      → ((r : Row) → p (f r) ≡ p r)
      → ((r : Row) → p r ≡ true → q r ≡ true)
      → find? p (update q f rs) ≡ Option.map f (find? p rs)
  unfolding find? update
  find?-update p q f [] same hit = refl
  find?-update p q f (x ∷ rs) same hit = elim (Bool-cases (p x)) [
    | inl e ↦ rw (hit x e) (rw (same x) (rw e refl))
    | inr e ↦ elim (Bool-cases (q x)) [
      | inl k ↦ rw k (rw (same x) (rw e (find?-update p q f rs same hit)))
      | inr k ↦ rw k (rw e (find?-update p q f rs same hit))
    ]
  ]

  -- The same for one row, where the update reaches it and the test finds no other.
  pub find?-update_at :
      (p q : Row → Bool) (f : Row → Row) (rs : List Row) (r : Row)
      → Memᴰ r rs
      → p r ≡ true
      → q r ≡ true
      → ((x : Row) → p (f x) ≡ p x)
      → All (λ x. p x ≡ true → x ≡ r) rs
      → find? p (update q f rs) ≡ some (f r)
  unfolding find? update
  find?-update_at p q f [] r m hit reach same only = elim m [ ]
  find?-update_at p q f (x ∷ rs) r (Memᴰ.head e) hit reach same only =
      subst (λ y. find? p (update q f (y ∷ rs)) ≡ some (f r)) e
        (rw reach (rw (same r) (rw hit refl)))
  find?-update_at p q f (x ∷ rs) r (Memᴰ.tail m) hit reach same only = elim (Bool-cases (p x)) [
    | inl e ↦
        subst (λ y. find? p (update q f (y ∷ rs)) ≡ some (f r)) (sym (only.0 e))
          (rw reach (rw (same r) (rw hit refl)))
    | inr e ↦ elim (Bool-cases (q x)) [
      | inl k ↦ rw k (rw (same x) (rw e (find?-update_at p q f rs r m hit reach same only.1)))
      | inr k ↦ rw k (rw e (find?-update_at p q f rs r m hit reach same only.1))
    ]
  ]

  -- A row read back after an update, by a test that the update keeps.
  pub read_back :
      (p q : Row → Bool) (f : Row → Row) (rs : List Row) (r : Row)
      → ((x : Row) → p (f x) ≡ p x)
      → find? p rs ≡ some r
      → find? p (update q f rs) ≡ some (if q r then f r else r)
  unfolding find? update
  read_back p q f [] r same h = cc
  read_back p q f (x ∷ rs) r same h = elim (Bool-cases (p x)) [
    | inl e ↦
        let here : x ≡ r = ground (arith, h, e) in
        subst (λ y. find? p (update q f (x ∷ rs)) ≡ some (if q y then f y else y)) here
          (elim (Bool-cases (q x)) [
            | inl k ↦ rw k (rw (same x) (rw e refl))
            | inr k ↦ rw k (rw e refl)
          ])
    | inr e ↦
        let rest = read_back p q f rs r same (rw e at h) in
        elim (Bool-cases (q x)) [
          | inl k ↦ rw k (rw (same x) (rw e rest))
          | inr k ↦ rw k (rw e rest)
        ]
  ]
