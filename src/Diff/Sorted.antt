-- ===== src/Diff/Sorted.antt =====
-- The sorted numbers of the lines that changed: what `insert_line` adds and keeps.
use diff_graph.Base.{
  ==_iff, All, All_map, Bool, Bool-cases, List, Memᴰ, [], arith, false, if◌then◌else◌, inl, inr,
  ltb, refl, true, ℕ, ◌<◌, ◌==◌, ◌∷◌, ◌≡◌, ◌⊎◌,
}
use diff_graph.Diff.Hunks.{insert_line}

abbrev pub Ascending : List ℕ → Type 0
Ascending [] = Unit
Ascending (n ∷ lines) = All (λ m. n < m) lines × Ascending lines

Mem_cons : {m k : ℕ} {lines : List ℕ} → Memᴰ m (k ∷ lines) → (m ≡ k) ⊎ Memᴰ m lines
Mem_cons (Memᴰ.head e) = inl e
Mem_cons (Memᴰ.tail h) = inr h

pub insert_line-Mem :
    (n m : ℕ) (lines : List ℕ) → Memᴰ m (insert_line n lines) → (m ≡ n) ⊎ Memᴰ m lines
insert_line-Mem n m [] h = Mem_cons h
insert_line-Mem n m (k ∷ lines) h = elim (Bool-cases (ltb n k)) [
  | inl less ↦ Mem_cons (rw less at h)
  | inr more ↦ elim (Bool-cases (n == k)) [
    | inl same ↦ inr (rw (more, same) at h)
    | inr other ↦ elim (Mem_cons (rw (more, other) at h)) [
      | inl e ↦ inr (Memᴰ.head e)
      | inr later ↦ elim (insert_line-Mem n m lines later) [
        | inl e ↦ inl e
        | inr there ↦ inr (Memᴰ.tail there)
      ]
    ]
  ]
]

pub insert_line_here : (n : ℕ) (lines : List ℕ) → Memᴰ n (insert_line n lines)
insert_line_here n [] = Memᴰ.head refl
insert_line_here n (k ∷ lines) = elim (Bool-cases (ltb n k)) [
  | inl less ↦ rw less (Memᴰ.head refl)
  | inr more ↦ elim (Bool-cases (n == k)) [
    | inl same ↦ rw (more, same) (Memᴰ.head ((==_iff n k).0 same))
    | inr other ↦ rw (more, other) (Memᴰ.tail (insert_line_here n lines))
  ]
]

pub insert_line_there : (n m : ℕ) (lines : List ℕ) → Memᴰ m lines → Memᴰ m (insert_line n lines)
insert_line_there n m [] h = elim h [ ]
insert_line_there n m (k ∷ lines) h = elim (Bool-cases (ltb n k)) [
  | inl less ↦ rw less (Memᴰ.tail h)
  | inr more ↦ elim (Bool-cases (n == k)) [
    | inl same ↦ rw (more, same) h
    | inr other ↦ elim (Mem_cons h) [
      | inl e ↦ rw (more, other) (Memᴰ.head e)
      | inr later ↦ rw (more, other) (Memᴰ.tail (insert_line_there n m lines later))
    ]
  ]
]

insert_line-All :
    (k n : ℕ) (lines : List ℕ)
    → k < n
    → All (λ m. k < m) lines
    → All (λ m. k < m) (insert_line n lines)
insert_line-All k n [] h all = (h, tt)
insert_line-All k n (m ∷ lines) h all = ground (arith, insert_line-All k n lines h all.1)

pub insert_line-Ascending :
    (n : ℕ) (lines : List ℕ) → Ascending lines → Ascending (insert_line n lines)
insert_line-Ascending n [] h = (tt, tt)
insert_line-Ascending n (m ∷ lines) h = elim (Bool-cases (ltb n m)) [
  | inl less ↦
      let first : n < m = ground arith in
      rw less ((first, All_map lines (λ k le. omega (arith, first, le)) h.0), h)
  | inr more ↦ elim (Bool-cases (n == m)) [
    | inl same ↦ rw (more, same) h
    | inr other ↦
        let first : m < n = ground (arith, ==_iff n m) in
        rw (more, other) (insert_line-All m n lines first h.0, insert_line-Ascending n lines h.1)
  ]
]

pub insert_if-Ascending :
    (b : Bool) (n : ℕ) (lines : List ℕ)
    → Ascending lines
    → Ascending (if b then insert_line n lines else lines)
insert_if-Ascending true n lines h = insert_line-Ascending n lines h
insert_if-Ascending false n lines h = h
