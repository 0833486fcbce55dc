-- ===== src/Queue/Progress.antt =====
-- A worker that keeps polling takes every task that is ready for it.
use diff_graph.Base.{
  ==_iff, All_map, Bool, List, Memᴰ, Option, Option-cases, String, [], ap, arith, count_if, false,
  inl, inr, is_some, length, none, refl, some, subst, suc, sym, true, zero, ℕ, ◌+◌, ◌==◌, ◌∷◌, ◌≡◌,
  ◌≤◌,
}
use diff_graph.Queue.Ids.{Ascends, above, ids}
use diff_graph.Queue.Invariant.{IsValid}
use diff_graph.Queue.Lease.{claim, is_eligible, lease}
use diff_graph.Queue.Leasing.{lease-none, lease_claims}
use diff_graph.Queue.Rows.{Db, Task, has_id, seconds}
use diff_graph.Queue.Steps.{Step, Step-IsValid}
use diff_graph.Table.{any_row, update}
use diff_graph.Table.Laws.{All_at, any_row_none, update_none}

module _ (p : Task → Bool) (f : Task → Task) where
  -- The row with an id, which passes a test before the update and not after it, is one row.
  count_if-update_one :
      (lo hi : ℕ) (rows : List Task) (row : Task)
      → Ascends lo hi (ids rows)
      → Memᴰ row rows
      → p row ≡ true
      → p (f row) ≡ false
      → count_if p rows ≡ 1 + count_if p (update (has_id row.id) f rows)
  unfolding update
  count_if-update_one lo hi [] row asc m h k = elim m [ ]
  count_if-update_one lo hi (r ∷ rows) row asc (Memᴰ.head e) h k =
      subst (λ x. count_if p (r ∷ rows) ≡ 1 + count_if p (update (has_id x.id) f (r ∷ rows)))
        (sym e) (first (subst (λ x. p x ≡ true) e h) (subst (λ x. p (f x) ≡ false) e k))
    where
      apart : (x : Task) → r.id + 1 ≤ x.id → has_id r.id x ≡ false
      apart x le = ground arith

      first :
          p r ≡ true
          → p (f r) ≡ false
          → count_if p (r ∷ rows) ≡ 1 + count_if p (update (has_id r.id) f (r ∷ rows))
      first h k =
          let same : update (has_id r.id) f rows ≡ rows = update_none (has_id r.id) f rows (
            any_row_none (has_id r.id) rows
              (All_map rows (λ x le. apart x le) (above (r.id + 1) hi rows asc.1))) in
          rw (same, h)
            (let own : (r.id == r.id) ≡ true = (==_iff r.id r.id).1 refl in
              rw (own, k) (omega arith))
  count_if-update_one lo hi (r ∷ rows) row asc (Memᴰ.tail m) h k =
      let rest = count_if-update_one (r.id + 1) hi rows row asc.1 m h k in
      let le : r.id + 1 ≤ row.id =
        All_at (λ x. r.id + 1 ≤ x.id) rows row (above (r.id + 1) hi rows asc.1) m in
      let other : (r.id == row.id) ≡ false = ground arith in rw other (omega (arith, rest))

abbrev polled : Option Task → List Task × Db → Db → List Task × Db
polled none rest after = ([], after)
polled (some t) rest after = (t ∷ rest.0, rest.1)

-- A worker's polls of `lease`, all at one instant, until one returns nothing; `polls` bounds them.
abbrev pub poll : String → String → ℕ → ℕ → ℕ → Db → List Task × Db
poll queue worker n now zero db = ([], db)
poll queue worker n now (suc polls) db =
    let leased = lease queue worker n now db in
    polled leased.0 (poll queue worker n now polls leased.1) leased.1

lease_counts :
    (queue worker : String) (n now : ℕ) (db after : Db) (t : Task)
    → IsValid db
    → lease queue worker n now db ≡ (some t, after)
    → count_if (is_eligible queue now) db.tasks ≡ 1 + count_if (is_eligible queue now) after.tasks
lease_counts queue worker n now db after t v e =
    let (row, c) = lease_claims queue worker n now db after t v e in
    rw c.tasks (
      count_if-update_one (is_eligible queue now) (claim worker (now + seconds n) now) 1
        db.next_task db.tasks row v.ascending c.listed c.eligible (refl))

-- If a worker polls at one instant, with no other call in between, at least as often as tasks are ready for its queue,
-- it gets every one of them: it leases as many tasks as were eligible, and then none is.
pub poll_drains :
    (queue worker : String) (n now polls : ℕ) (db : Db)
    → IsValid db
    → count_if (is_eligible queue now) db.tasks ≤ polls
    → (length (poll queue worker n now polls db).0 ≡ count_if (is_eligible queue now) db.tasks)
      × (count_if (is_eligible queue now) (poll queue worker n now polls db).1.tasks ≡ 0)
unfolding any_row
poll_drains queue worker n now zero db v h = (omega arith, omega arith)
poll_drains queue worker n now (suc polls) db v h = elim (lease-none queue worker n now db v) [
  | inr (empty, same) ↦
      let zero : count_if (is_eligible queue now) db.tasks ≡ 0 = ground (arith, empty) in
      rw same (sym zero, zero)
  | inl (full, got) ↦ elim (Option-cases (lease queue worker n now db).0) [
    | inl e ↦ let never : is_some {A = Task} none ≡ true = rw e at got in cc never
    | inr (t, e) ↦
        let after = (lease queue worker n now db).1 in
        let drop = lease_counts queue worker n now db after t v (ap (λ o. (o, after)) e) in
        let rest =
          poll_drains queue worker n now polls after
            (Step-IsValid (Step.leases queue worker n now) v) (omega (arith, drop)) in
        let all = poll queue worker n now polls after in
        let one : poll queue worker n now (suc polls) db ≡ (t ∷ all.0, all.1) =
          ap (λ o. polled o all after) e in
        rw one (omega (arith, drop, rest), rest.1)
  ]
]
