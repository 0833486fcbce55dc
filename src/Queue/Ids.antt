-- ===== src/Queue/Ids.antt =====
-- Task ids: AUTOINCREMENT gives each row of qa_tasks an id of its own.
use diff_graph.Base.{
  All, All_map, Bool, Bool-cases, List, [], arith, inl, inr, map, some, true, ℕ, ◌++◌, ◌+◌, ◌∷◌,
  ◌≡◌, ◌≤◌,
}
use diff_graph.Queue.Rows.{Task}
use diff_graph.Table.{find?}
use diff_graph.Table.Laws.{All_at}
use diff_graph.Table.Lookup.{find?_holds, find?_of_all}
use mathlib.Core.List.{Memᴰ}
use mathlib.Core.Path.{ap, sym}

abbrev pub ids : List Task → List ℕ
ids tasks = map (λ t. t.id) tasks

-- The numbers ascend, from `lo` on and below `hi`.
abbrev pub Ascends : ℕ → ℕ → List ℕ → Type 0
Ascends lo hi [] = lo ≤ hi
Ascends lo hi (i ∷ is) = (lo ≤ i) × Ascends (i + 1) hi is

pub Ascends-le : (lo hi : ℕ) (is : List ℕ) → Ascends lo hi is → lo ≤ hi
Ascends-le lo hi [] h = h
Ascends-le lo hi (i ∷ is) h = omega (arith, Ascends-le (i + 1) hi is h.1)

pub Ascends-snoc :
    (lo hi : ℕ) (rows : List Task) (t : Task)
    → t.id ≡ hi
    → Ascends lo hi (ids rows)
    → Ascends lo (hi + 1) (ids (rows ++ t ∷ []))
Ascends-snoc lo hi [] t e h = (omega arith, omega arith)
Ascends-snoc lo hi (r ∷ rows) t e h = (h.0, Ascends-snoc (r.id + 1) hi rows t e h.1)

pub above : (lo hi : ℕ) (rows : List Task) → Ascends lo hi (ids rows) → All (λ r. lo ≤ r.id) rows
above lo hi [] h = tt
above lo hi (r ∷ rows) h = (h.0, All_map rows (λ x le. omega arith) (above (r.id + 1) hi rows h.1))

-- The row that `find?` returns by a test that includes the id is the only one with that id.
pub find?_unique :
    (lo hi : ℕ) (p : Task → Bool) (id : ℕ) (rows : List Task) (t : Task)
    → ((r : Task) → p r ≡ true → r.id ≡ id)
    → Ascends lo hi (ids rows)
    → find? p rows ≡ some t
    → All (λ r. r.id ≡ id → r ≡ t) rows
unfolding find?
find?_unique lo hi p id [] t has asc h = tt
find?_unique lo hi p id (r ∷ rows) t has asc h = elim (Bool-cases (p r)) [
  | inl e ↦
      let same : r ≡ t = ground (arith, e) in
      let id_r : r.id ≡ id = has r e in
      (λ _. same, All_map rows (λ x le q. absurd (omega arith)) (above (r.id + 1) hi rows asc.1))
  | inr e ↦
      let later : find? p rows ≡ some t = rw e at h in
      let gap : r.id + 1 ≤ t.id =
        find?_of_all (λ x. r.id + 1 ≤ x.id) p rows t (above (r.id + 1) hi rows asc.1) later in
      let id_t : t.id ≡ id = has t (find?_holds p rows t later) in
      (λ q. absurd (omega arith), find?_unique (r.id + 1) hi p id rows t has asc.1 later)
]

-- The only row with the id of a listed row is that row.
pub unique_of_mem :
    (lo hi : ℕ) (rows : List Task) (t : Task)
    → Ascends lo hi (ids rows)
    → Memᴰ t rows
    → All (λ r. r.id ≡ t.id → r ≡ t) rows
unique_of_mem lo hi [] t asc m = elim m [ ]
unique_of_mem lo hi (r ∷ rows) t asc (Memᴰ.head e) = (
  λ _. sym e,
  All_map rows (λ x le q. absurd (omega (arith, ap (λ (y : Task). y.id) e)))
      (above (r.id + 1) hi rows asc.1),
)
unique_of_mem lo hi (r ∷ rows) t asc (Memᴰ.tail m) = (
  λ q.
      absurd
        (omega (arith, All_at (λ x. r.id + 1 ≤ x.id) rows t (above (r.id + 1) hi rows asc.1) m)),
  unique_of_mem (r.id + 1) hi rows t asc.1 m,
)
