-- ===== src/Table.antt =====
-- SQL statements over a table, a list of rows in the order of their row ids: quality_api/queue.py
-- and quality_api/pools.py reach their data only through such statements.
pub mod Laws
pub mod Choice
pub mod Lookup
use diff_graph.Base.{
  Bool, List, Option, [], count_if, if◌then◌else◌, keep_if, ltb, none, not, some, ℕ, ◌∷◌,
}

module _ {ℓ} {Row : Type ℓ} where
  -- `UPDATE … SET f WHERE p`.
  unfoldable pub update : (Row → Bool) → (Row → Row) → List Row → List Row
  update p f [] = []
  update p f (r ∷ rs) = (if p r then f r else r) ∷ update p f rs

  -- `cur.rowcount > 0` after that statement.
  unfoldable pub any_row : (Row → Bool) → List Row → Bool
  any_row p rs = ltb 0 (count_if p rs)

  -- `DELETE … WHERE p`.
  unfoldable pub delete : (Row → Bool) → List Row → List Row
  delete p rs = keep_if (λ r. not (p r)) rs

  -- `SELECT … WHERE p` and `fetchone`.
  unfoldable pub find? : (Row → Bool) → List Row → Option Row
  find? p [] = none
  find? p (r ∷ rs) = if p r then some r else find? p rs

  -- `SELECT … WHERE p ORDER BY … LIMIT 1`: the row that no other precedes; among equals the one
  -- with the lowest row id.
  abbrev pub earlier : (Row → Row → Bool) → Row → Option Row → Option Row
  earlier before r none = some r
  earlier before r (some best) = if before best r then some best else some r

  unfoldable pub first_by : (Row → Row → Bool) → (Row → Bool) → List Row → Option Row
  first_by before p [] = none
  first_by before p (r ∷ rs) =
      if p r then earlier before r (first_by before p rs) else first_by before p rs
