-- ===== src/Merge/Union.antt =====
-- The union of outputs that are lists: each title once, and none is lost.
use diff_graph.Base.{
  All, Bool, Bool-cases, List, String, [], any-append, ap, arith, eq_iff, false, inl, inr, map,
  refl, str_eq, subst, sym, true, ◌++◌, ◌||◌, ◌∙◌, ◌∷◌, ◌≡◌,
}
use diff_graph.Merge.{
  BranchResult, Item, Merging, Output, add_item, add_items, add_output, add_results, dict_output,
  is_seen, list_output, no_output, nothing_merged, other_output, union_merge,
}
use mathlib.Core.List.{map-append}

-- No title stands twice.
abbrev pub Distinct : List String → Type 0
Distinct [] = Unit
Distinct (t ∷ titles) = (is_seen t titles ≡ false) × Distinct titles

abbrev pub titles_of : List Item → List String
titles_of items = map (λ i. i.title) items

-- An output that has items of a list and nothing else.
abbrev pub is_list : Output → Bool
is_list no_output = true
is_list (list_output items) = true
is_list (dict_output whole fields) = false
is_list (other_output whole) = false

abbrev pub items_of : Output → List Item
items_of (list_output items) = items
items_of _ = []

is_seen_sym : (s t : String) → str_eq s t ≡ str_eq t s
is_seen_sym s t = ground (arith, eq_iff s t, eq_iff t s)

is_seen-append :
    (title : String) (xs ys : List String)
    → is_seen title (xs ++ ys) ≡ (is_seen title xs || is_seen title ys)
is_seen-append title xs ys = any-append (λ t. str_eq t title) xs ys

Distinct-snoc :
    (titles : List String) (t : String)
    → is_seen t titles ≡ false
    → Distinct titles
    → Distinct (titles ++ t ∷ [])
Distinct-snoc [] t h d = (refl, tt)
Distinct-snoc (s ∷ titles) t h d = (
  ground (arith, is_seen-append s titles (t ∷ []), is_seen_sym s t, h, d.0),
  Distinct-snoc titles t (ground (arith, h)) d.1,
)

-- What the loops keep: the titles seen are those of the items, each once.
abbrev IsMerged : Merging → Type 0
IsMerged m = (titles_of m.all_items ≡ m.seen_titles) × Distinct m.seen_titles

add_item-IsMerged : (m : Merging) (item : Item) → IsMerged m → IsMerged (add_item m item)
add_item-IsMerged m item (same, d) = elim (Bool-cases (is_seen item.title m.seen_titles)) [
  | inl seen ↦ rw seen (same, d)
  | inr fresh ↦ rw fresh (
    map-append (λ i. i.title) m.all_items (item ∷ []) ∙ ap (λ l. l ++ item.title ∷ []) same,
    Distinct-snoc m.seen_titles item.title fresh d,
  )
]

add_item-is_seen :
    (m : Merging) (item : Item) (title : String)
    → (is_seen title m.seen_titles || str_eq item.title title) ≡ true
    → is_seen title (add_item m item).seen_titles ≡ true
add_item-is_seen m item title h = elim (Bool-cases (is_seen item.title m.seen_titles)) [
  | inl seen ↦ rw seen (elim (Bool-cases (str_eq item.title title)) [
    | inl same ↦ subst (λ k. is_seen k m.seen_titles ≡ true) ((eq_iff item.title title).0 same) seen
    | inr other ↦ ground (arith, h, other)
  ])
  | inr fresh ↦ rw fresh (ground (arith, h, is_seen-append title m.seen_titles (item.title ∷ [])))
]

add_items-IsMerged : (items : List Item) (m : Merging) → IsMerged m → IsMerged (add_items m items)
add_items-IsMerged [] m h = h
add_items-IsMerged (i ∷ items) m h =
    add_items-IsMerged items (add_item m i) (add_item-IsMerged m i h)

add_items-is_seen :
    (items : List Item) (m : Merging) (title : String)
    → is_seen title m.seen_titles ≡ true
    → is_seen title (add_items m items).seen_titles ≡ true
add_items-is_seen [] m title h = h
add_items-is_seen (i ∷ items) m title h =
    add_items-is_seen items (add_item m i) title (add_item-is_seen m i title (ground (arith, h)))

add_items_all :
    (items : List Item) (m : Merging)
    → All (λ i. is_seen i.title (add_items m items).seen_titles ≡ true) items
add_items_all [] m = tt
add_items_all (i ∷ items) m =
    let here : is_seen i.title (add_item m i).seen_titles ≡ true =
      add_item-is_seen m i i.title (ground (arith, eq_iff i.title i.title)) in
    (add_items-is_seen items (add_item m i) i.title here, add_items_all items (add_item m i))

-- An output that is a list adds its items.
add_output_items :
    (output : Output) (m : Merging)
    → is_list output ≡ true
    → add_output m output ≡ add_items m (items_of output)
add_output_items no_output m h = refl
add_output_items (list_output items) m h = refl
add_output_items (dict_output whole fields) m h = cc h
add_output_items (other_output whole) m h = cc h

abbrev pub all_items_of : List BranchResult → List Item
all_items_of [] = []
all_items_of (r ∷ results) = items_of r.output ++ all_items_of results

add_items-append :
    (xs ys : List Item) (m : Merging) → add_items m (xs ++ ys) ≡ add_items (add_items m xs) ys
add_items-append [] ys m = refl
add_items-append (x ∷ xs) ys m = add_items-append xs ys (add_item m x)

add_results_items :
    (results : List BranchResult) (m : Merging)
    → All (λ r. is_list r.output ≡ true) results
    → add_results m results ≡ add_items m (all_items_of results)
add_results_items [] m h = refl
add_results_items (r ∷ results) m h =
    ap (λ n. add_results n results) (add_output_items r.output m h.0)
    ∙ add_results_items results (add_items m (items_of r.output)) h.1
    ∙ sym (add_items-append (items_of r.output) (all_items_of results) m)

-- Where every output is a list or nothing, the union has no title twice, and has the title of every item of
-- every output.
pub union_merge-Distinct :
    (results : List BranchResult)
    → All (λ r. is_list r.output ≡ true) results
    → Distinct (titles_of (union_merge results))
      × All (λ i. is_seen i.title (titles_of (union_merge results)) ≡ true) (all_items_of results)
union_merge-Distinct results h =
    let same = add_results_items results nothing_merged h in
    let merged = add_items nothing_merged (all_items_of results) in
    let (titles, distinct) = add_items-IsMerged (all_items_of results) nothing_merged (refl, tt) in
    let all = add_items_all (all_items_of results) nothing_merged in
    subst
      (λ m.
        Distinct (titles_of m.all_items)
        × All (λ i. is_seen i.title (titles_of m.all_items) ≡ true) (all_items_of results))
      (sym same)
      (subst (λ l. Distinct l × All (λ i. is_seen i.title l ≡ true) (all_items_of results))
        (sym titles) (distinct, all))
