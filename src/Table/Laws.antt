-- ===== src/Table/Laws.antt =====
-- What UPDATE and DELETE of Table.antt do to the rows.
use diff_graph.Base.{
  All, Bool, Bool-cases, List, [], any, arith, false, inl, inr, map, refl, true, ◌∷◌, ◌≡◌,
}
use diff_graph.Table.{any_row, delete, update}
use mathlib.Core.List.{Memᴰ}
use mathlib.Core.Path.{subst, sym}

module _ {ℓ} {Row : Type ℓ} where
  -- What the rows have before the update gives what they have after it, changed or not.
  pub All-update {κ} :
      {P Q : Row → Type κ} (p : Row → Bool) (f : Row → Row) (rs : List Row)
      → ((r : Row) → p r ≡ true → P r → Q (f r))
      → ((r : Row) → p r ≡ false → P r → Q r)
      → All P rs
      → All Q (update p f rs)
  unfolding update
  All-update p f [] hit miss h = tt
  All-update p f (r ∷ rs) hit miss h = (
    elim (Bool-cases (p r)) [ inl e ↦ rw e (hit r e h.0) | inr e ↦ rw e (miss r e h.0) ],
    All-update p f rs hit miss h.1,
  )

  -- A test that held of some row still does, where the update keeps it.
  pub any_row-update :
      (q p : Row → Bool) (f : Row → Row) (rs : List Row)
      → All (λ r. q r ≡ true → p r ≡ true → q (f r) ≡ true) rs
      → any_row q rs ≡ true
      → any_row q (update p f rs) ≡ true
  unfolding update any_row
  any_row-update q p f [] keep h = cc
  any_row-update q p f (r ∷ rs) keep h = ground (arith, keep.0, any_row-update q p f rs keep.1)

  -- A column that the update does not set is unchanged, row by row.
  pub map-update {κ} :
      {A : Type κ} (column : Row → A) (p : Row → Bool) (f : Row → Row) (rs : List Row)
      → ((r : Row) → column (f r) ≡ column r)
      → map column (update p f rs) ≡ map column rs
  unfolding update
  map-update column p f [] same = refl
  map-update column p f (r ∷ rs) same = elim (Bool-cases (p r)) [
    | inl e ↦ rw e (rw (same r, map-update column p f rs same))
    | inr e ↦ rw e (rw (map-update column p f rs same))
  ]

  -- With no row to change, the statement changes nothing.
  pub update_none :
      (p : Row → Bool) (f : Row → Row) (rs : List Row) → any_row p rs ≡ false → update p f rs ≡ rs
  unfolding update any_row
  update_none p f [] h = refl
  update_none p f (r ∷ rs) h = ground (arith, update_none p f rs)

  pub All-delete {κ} :
      (P : Row → Type κ) (p : Row → Bool) (rs : List Row) → All P rs → All P (delete p rs)
  unfolding delete
  All-delete P p [] h = tt
  All-delete P p (r ∷ rs) h = elim (Bool-cases (p r)) [
    | inl e ↦ rw e (All-delete P p rs h.1)
    | inr e ↦ rw e (h.0, All-delete P p rs h.1)
  ]

  -- A listed row has what every row has.
  pub All_at {κ} : (P : Row → Type κ) (rs : List Row) (r : Row) → All P rs → Memᴰ r rs → P r
  All_at P [] r all m = elim m [ ]
  All_at P (x ∷ rs) r all (Memᴰ.head e) = subst P (sym e) all.0
  All_at P (x ∷ rs) r all (Memᴰ.tail m) = All_at P rs r all.1 m

  pub any_row_witness :
      (p : Row → Bool) (rs : List Row) → any_row p rs ≡ true → (r : Row) × (p r ≡ true) × Memᴰ r rs
  unfolding any_row
  any_row_witness p [] h = cc
  any_row_witness p (x ∷ rs) h = elim (Bool-cases (p x)) [
    | inl e ↦ (x, e, Memᴰ.head refl)
    | inr e ↦ let (r, q, m) = any_row_witness p rs (ground (arith, h, e)) in (r, q, Memᴰ.tail m)
  ]

  pub any_row_of_mem :
      (p : Row → Bool) (rs : List Row) (r : Row) → Memᴰ r rs → p r ≡ true → any_row p rs ≡ true
  unfolding any_row
  any_row_of_mem p [] r m h = elim m [ ]
  any_row_of_mem p (x ∷ rs) r (Memᴰ.head e) h =
      let hit : p x ≡ true = subst (λ y. p y ≡ true) e h in ground (arith, hit)
  any_row_of_mem p (x ∷ rs) r (Memᴰ.tail m) h = ground (arith, any_row_of_mem p rs r m h)

  -- Every row fails the test exactly when the statement has no row.
  pub any_row_none :
      (p : Row → Bool) (rs : List Row) → All (λ r. p r ≡ false) rs → any_row p rs ≡ false
  unfolding any_row
  any_row_none p [] h = refl
  any_row_none p (x ∷ rs) h = ground (arith, h.0, any_row_none p rs h.1)

  -- A row that is left after a deletion failed the test.
  pub any-delete :
      (p q : Row → Bool) (rs : List Row) → any p rs ≡ false → any p (delete q rs) ≡ false
  unfolding delete
  any-delete p q [] h = refl
  any-delete p q (r ∷ rs) h = ground (arith, any-delete p q rs)
