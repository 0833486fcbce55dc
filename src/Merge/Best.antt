-- ===== src/Merge/Best.antt =====
-- The branch of the best confidence.
use diff_graph.Base.{
  All, Bool-cases, List, Memᴰ, [], ap, arith, if◌then◌else◌, inl, inr, ltb, refl, subst, sym, ℕ,
  ◌∷◌, ◌≡◌, ◌≤◌,
}
use diff_graph.Merge.{BranchResult, best_confidence_merge, best_of, rank_of}

-- A result of a rank that none of the results and not the first one exceeds.
abbrev IsBest : BranchResult → List BranchResult → BranchResult → Type 0
IsBest best results out =
    (rank_of best.confidence ≤ rank_of out.confidence)
    × All (λ r. rank_of r.confidence ≤ rank_of out.confidence) results

best_of-IsBest :
    (results : List BranchResult) (best : BranchResult) (best_conf : ℕ)
    → best_conf ≡ rank_of best.confidence
    → IsBest best results (best_of best best_conf results)
best_of-IsBest [] best best_conf e = (omega arith, tt)
best_of-IsBest (r ∷ results) best best_conf e =
    let next = best_of r (rank_of r.confidence) results in
    let same = best_of best best_conf results in
    elim (Bool-cases (ltb best_conf (rank_of r.confidence))) [
      | inl less ↦
          let (first, rest) = best_of-IsBest results r (rank_of r.confidence) refl in
          let up : rank_of best.confidence ≤ rank_of r.confidence = ground (arith, e) in
          subst (IsBest best (r ∷ results)) (sym (ap (λ b. if b then next else same) less))
            (omega (arith, up, first), (first, rest))
      | inr more ↦
          let (first, rest) = best_of-IsBest results best best_conf e in
          let up : rank_of r.confidence ≤ rank_of best.confidence = ground (arith, e) in
          subst (IsBest best (r ∷ results)) (sym (ap (λ b. if b then next else same) more))
            (first, (omega (arith, up, first), rest))
    ]

best_of-Mem :
    (results : List BranchResult) (best : BranchResult) (best_conf : ℕ)
    → Memᴰ (best_of best best_conf results) (best ∷ results)
best_of-Mem [] best best_conf = Memᴰ.head refl
best_of-Mem (r ∷ results) best best_conf =
    let next = best_of r (rank_of r.confidence) results in
    let same = best_of best best_conf results in
    elim (Bool-cases (ltb best_conf (rank_of r.confidence))) [
      | inl less ↦
          subst (λ x. Memᴰ x (best ∷ r ∷ results)) (sym (ap (λ b. if b then next else same) less))
            (Memᴰ.tail (best_of-Mem results r (rank_of r.confidence)))
      | inr more ↦
          subst (λ x. Memᴰ x (best ∷ r ∷ results)) (sym (ap (λ b. if b then next else same) more))
            (skip (best_of-Mem results best best_conf))
    ]
  where
    skip : {x : BranchResult} → Memᴰ x (best ∷ results) → Memᴰ x (best ∷ r ∷ results)
    skip (Memᴰ.head e) = Memᴰ.head e
    skip (Memᴰ.tail h) = Memᴰ.tail (Memᴰ.tail h)

start_rank :
    (r : BranchResult) (results : List BranchResult)
    → best_of r 0 (r ∷ results) ≡ best_of r (rank_of r.confidence) results
start_rank r results = elim (Bool-cases (ltb 0 (rank_of r.confidence))) [
  | inl less ↦ rw less refl
  | inr least ↦
      let zero : 0 ≡ rank_of r.confidence = ground arith in
      rw least (ap (λ c. best_of r c results) zero)
]

-- The merge by confidence of at least one result is the output of one of them, and no other one has a higher
-- confidence.
pub best_confidence_merge_lem :
    (r : BranchResult) (results : List BranchResult)
    → (best : BranchResult) × (best_confidence_merge (r ∷ results) ≡ best.output)
      × Memᴰ best (r ∷ results)
      × All (λ x. rank_of x.confidence ≤ rank_of best.confidence) (r ∷ results)
best_confidence_merge_lem r results =
    let best = best_of r (rank_of r.confidence) results in
    (
      best,
      ap (λ b. b.output) (start_rank r results),
      best_of-Mem results r (rank_of r.confidence),
      best_of-IsBest results r (rank_of r.confidence) refl,
    )
