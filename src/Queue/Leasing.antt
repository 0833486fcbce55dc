-- ===== src/Queue/Leasing.antt =====
-- What `lease` hands out.
use diff_graph.Base.{
  ==_iff, All, All_map, Memᴰ, Option, Option-cases, String, ap, arith, false, inl, inr, is_some,
  none, refl, some, sym, true, ℕ, ◌+◌, ◌∙◌, ◌≡◌, ◌⊎◌,
}
use diff_graph.Queue.Ids.{unique_of_mem}
use diff_graph.Queue.Invariant.{IsValid}
use diff_graph.Queue.Lease.{claim, is_eligible, lease, precedes}
use diff_graph.Queue.Rows.{Db, Task, has_id, seconds}
use diff_graph.Table.{any_row, find?, first_by, update}
use diff_graph.Table.Choice.{
  first_by-none, first_by_empty, first_by_holds, first_by_least, mem-first_by,
}
use diff_graph.Table.Laws.{any_row_none, any_row_of_mem}
use diff_graph.Table.Lookup.{find?-update, find?_only}
use mathlib.Core.Option

precedes_asym : (a b : Task) → precedes a b ≡ true → precedes b a ≡ false
precedes_asym a b h = ground arith

precedes_trans : (a b c : Task) → precedes a b ≡ false → precedes b c ≡ false → precedes a c ≡ false
precedes_trans a b c h k = ground arith

-- The row of which `t` is the new state, and what `lease` has changed.
pub record Claimed (queue worker : String) (n now : ℕ) (db db' : Db) (t row : Task) : Type 0 where
  pub listed : Memᴰ row db.tasks
  pub eligible : is_eligible queue now row ≡ true
  pub least :
      All (λ other. is_eligible queue now other ≡ true → precedes other row ≡ false) db.tasks
  pub claimed : t ≡ claim worker (now + seconds n) now row
  pub tasks : db'.tasks ≡ update (has_id row.id) (claim worker (now + seconds n) now) db.tasks

-- The row with the id of a listed row, read back after the claim.
claimed_row :
    (worker : String) (n now : ℕ) (db : Db) (row : Task)
    → IsValid db
    → Memᴰ row db.tasks
    → find? (has_id row.id) (update (has_id row.id) (claim worker (now + seconds n) now) db.tasks)
      ≡ some (claim worker (now + seconds n) now row)
claimed_row worker n now db row v listed =
    find?-update (has_id row.id) (has_id row.id) (claim worker (now + seconds n) now) db.tasks
      (λ r. refl) (λ r h. h)
    ∙ ap (Option.map (claim worker (now + seconds n) now)) (
        find?_only (has_id row.id) db.tasks row listed ((==_iff row.id row.id).1 refl) (
          All_map db.tasks (λ r same hit. same ((==_iff r.id row.id).0 hit))
            (unique_of_mem 1 db.next_task db.tasks row v.ascending listed)))

-- In a valid database, a task that `lease` returns was queued for that queue, an agent task and due;
-- no eligible task has a smaller priority, or the same priority and an earlier enqueueing; the task
-- now has the worker as owner and expires after the lease; and no row with another id has changed.
pub lease_claims :
    (queue worker : String) (n now : ℕ) (db db' : Db) (t : Task)
    → IsValid db
    → lease queue worker n now db ≡ (some t, db')
    → (row : Task) × Claimed queue worker n now db db' t row
unfolding lease
lease_claims queue worker n now db db' t v e =
    elim (Option-cases (first_by precedes (is_eligible queue now) db.tasks)) [
      | inl none_left ↦
          let never : ◌≡◌ {A = Option Task × Db} (none, db) (some t, db') =
            rw (none_left, lease) at e in
          cc
      | inr (row, found) ↦
          let listed = mem-first_by precedes (is_eligible queue now) db.tasks row found in
          let rows = update (has_id row.id) (claim worker (now + seconds n) now) db.tasks in
          let q : ◌≡◌ {A = Option Task × Db}
              (find? (has_id row.id) rows, record db { tasks = rows }) (some t, db') =
            rw (found, lease) at e in
          (
            row,
            record {
              listed = listed;
              eligible = first_by_holds precedes (is_eligible queue now) db.tasks row found;
              least =
                  first_by_least precedes precedes_asym precedes_trans (is_eligible queue now)
                    db.tasks row found;
              claimed =
                  cc (
                    ap (λ (x : Option Task × Db). x.0) q,
                    claimed_row worker n now db row v listed,
                  );
              tasks = ap (λ (x : Option Task × Db). x.1.tasks) (sym q);
            },
          )
    ]

lease-none_lem :
    (queue worker : String) (n now : ℕ) (db : Db)
    → IsValid db
    → ((lease queue worker n now db).0 ≡ none → All (λ t. is_eligible queue now t ≡ false) db.tasks)
      × (All (λ t. is_eligible queue now t ≡ false) db.tasks
          → lease queue worker n now db ≡ (none, db))
unfolding lease
lease-none_lem queue worker n now db v = (
  λ e. elim (Option-cases (first_by precedes (is_eligible queue now) db.tasks)) [
    | inl empty ↦ first_by-none precedes (is_eligible queue now) db.tasks empty
    | inr (row, found) ↦
        let listed = mem-first_by precedes (is_eligible queue now) db.tasks row found in
        let got : find? (has_id row.id)
              (update (has_id row.id) (claim worker (now + seconds n) now) db.tasks)
            ≡ none =
          rw (found, lease) at e in
        cc (claimed_row worker n now db row v listed)
  ],
  λ none_eligible.
      rw (first_by_empty precedes (is_eligible queue now) db.tasks none_eligible, lease),
)

-- In a valid database, either some task is eligible, and `lease` returns one; or none is, and `lease`
-- returns nothing and changes nothing.
pub lease-none :
    (queue worker : String) (n now : ℕ) (db : Db)
    → IsValid db
    → ((any_row (is_eligible queue now) db.tasks ≡ true)
        × (is_some (lease queue worker n now db).0 ≡ true))
      ⊎ ((any_row (is_eligible queue now) db.tasks ≡ false)
          × (lease queue worker n now db ≡ (none, db)))
lease-none queue worker n now db v =
    let both = lease-none_lem queue worker n now db v in
    elim (Option-cases (lease queue worker n now db).0) [
      | inl e ↦ inr (any_row_none (is_eligible queue now) db.tasks (both.0 e), both.1 (both.0 e))
      | inr (t, e) ↦
          let rest = (lease queue worker n now db).1 in
          let claims = lease_claims queue worker n now db rest t v (ap (λ o. (o, rest)) e) in
          let row = claims.0 in
          inl (
            any_row_of_mem (is_eligible queue now) db.tasks row claims.1.listed claims.1.eligible,
            rw e refl,
          )
    ]
