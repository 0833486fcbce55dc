-- ===== src/Table/Choice.antt =====
-- The row that `first_by` of Table.antt chooses.
use diff_graph.Base.{
  All, All_map, Bool, Bool-cases, List, Option, Option-cases, [], arith, false, inl, inr, none,
  refl, some, true, ◌∙◌, ◌∷◌, ◌≡◌,
}
use diff_graph.Table.{earlier, first_by}
use mathlib.Core.List.{Memᴰ}

module _ {ℓ} {Row : Type ℓ} where
  pub first_by_holds :
      (before : Row → Row → Bool) (p : Row → Bool) (rs : List Row) (r : Row)
      → first_by before p rs ≡ some r
      → p r ≡ true
  unfolding first_by
  first_by_holds before p [] r h = cc
  first_by_holds before p (x ∷ rs) r h = elim (Option-cases (first_by before p rs)) [
    | inl e ↦ ground (arith, e)
    | inr (b, e) ↦ ground (arith, e, first_by_holds before p rs b)
  ]

  pub first_by-none :
      (before : Row → Row → Bool) (p : Row → Bool) (rs : List Row)
      → first_by before p rs ≡ none
      → All (λ x. p x ≡ false) rs
  unfolding first_by
  first_by-none before p [] h = tt
  first_by-none before p (x ∷ rs) h = elim (Bool-cases (p x)) [
    | inl e ↦ absurd (earlier_some before x (first_by before p rs) (rw (← h) (rw e refl)))
    | inr e ↦ (e, first_by-none before p rs (rw e at h))
  ]
    where
      earlier_some :
          (before : Row → Row → Bool) (x : Row) (o : Option Row) → earlier before x o ≡ none → ⊥
      earlier_some before x none q = cc
      earlier_some before x (some b) q = ground arith

  pub first_by_empty :
      (before : Row → Row → Bool) (p : Row → Bool) (rs : List Row)
      → All (λ x. p x ≡ false) rs
      → first_by before p rs ≡ none
  unfolding first_by
  first_by_empty before p [] h = refl
  first_by_empty before p (x ∷ rs) h = rw h.0 (first_by_empty before p rs h.1)

  -- The row of `ORDER BY … LIMIT 1` has no row before it, if `before` is a weak order.
  pub first_by_least :
      (before : Row → Row → Bool)
      → ((a b : Row) → before a b ≡ true → before b a ≡ false)
      → ((a b c : Row) → before a b ≡ false → before b c ≡ false → before a c ≡ false)
      → (p : Row → Bool) (rs : List Row) (r : Row) → first_by before p rs ≡ some r
      → All (λ x. p x ≡ true → before x r ≡ false) rs
  unfolding first_by
  first_by_least before asym trans p [] r h = tt
  first_by_least before asym trans p (x ∷ rs) r h = elim (Bool-cases (p x)) [
    | inr e ↦ (λ q. cc, first_by_least before asym trans p rs r (rw e at h))
    | inl e ↦ elim (Option-cases (first_by before p rs)) [
      | inl empty ↦
          let same : some x ≡ some r = rw (e, empty) at h in
          let fresh : before x r ≡ false = ground (arith, asym x r) in
          (λ _. fresh, All_map rs (λ y miss hit. cc) (first_by-none before p rs empty))
      | inr (b, found) ↦ elim (Bool-cases (before b x)) [
        | inl old ↦
            let same : some b ≡ some r = rw (e, found, old) at h in
            (λ _. ground (arith, asym b x), first_by_least before asym trans p rs r (found ∙ same))
        | inr new ↦
            let same : some x ≡ some r = rw (e, found, new) at h in
            (
              λ _. ground (arith, asym x r),
              All_map rs (λ y least hit. ground (arith, trans y b x, least hit))
                  (first_by_least before asym trans p rs b found),
            )
      ]
    ]
  ]

  pub mem-first_by :
      (before : Row → Row → Bool) (p : Row → Bool) (rs : List Row) (r : Row)
      → first_by before p rs ≡ some r
      → Memᴰ r rs
  unfolding first_by
  mem-first_by before p [] r h = cc
  mem-first_by before p (x ∷ rs) r h = elim (Bool-cases (p x)) [
    | inr e ↦ Memᴰ.tail (mem-first_by before p rs r (rw e at h))
    | inl e ↦ elim (Option-cases (first_by before p rs)) [
      | inl empty ↦ let same : some x ≡ some r = rw (e, empty) at h in Memᴰ.head (cc)
      | inr (b, found) ↦ elim (Bool-cases (before b x)) [
        | inl old ↦
            let same : some b ≡ some r = rw (e, found, old) at h in
            Memᴰ.tail (mem-first_by before p rs r (found ∙ same))
        | inr new ↦ let same : some x ≡ some r = rw (e, found, new) at h in Memᴰ.head (cc)
      ]
    ]
  ]
