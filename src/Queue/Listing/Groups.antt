-- ===== src/Queue/Listing/Groups.antt =====
-- What the grouped statement of `progress` counts.
use diff_graph.Base.{
  Bool, Bool-cases, List, String, [], any, ap, arith, count_if, eq_iff, false, if◌then◌else◌, inl,
  inr, refl, str_eq, true, ℕ, ◌&&◌, ◌+◌, ◌||◌, ◌∙◌, ◌∷◌, ◌≡◌,
}
use diff_graph.Queue.Listing.{Group, add_to_group, group_rows, is_group, kind_text, state_text}
use diff_graph.Queue.Rows.{Task}

-- The sum over the groups that a test takes.
abbrev pub sum_of : (String → String → Bool) → List Group → ℕ
sum_of q [] = 0
sum_of q (g ∷ gs) = (if q g.kind g.state then g.n else 0) + sum_of q gs

abbrev pub of_row : (String → String → Bool) → Task → Bool
of_row q t = q (kind_text t.kind) (state_text t.state)

pub same_group :
    (kind state : String) (g : Group)
    → is_group kind state g ≡ true
    → (g.kind ≡ kind) × (g.state ≡ state)
same_group kind state g h =
    (ground (arith, h, eq_iff g.kind kind), ground (arith, h, eq_iff g.state state))

pub sum_of-add_to_group :
    (q : String → String → Bool) (kind state : String) (gs : List Group)
    → sum_of q (add_to_group kind state gs) ≡ sum_of q gs + (if q kind state then 1 else 0)
unfolding add_to_group
sum_of-add_to_group q kind state [] = omega arith
sum_of-add_to_group q kind state (g ∷ gs) = elim (Bool-cases (is_group kind state g)) [
  | inl e ↦
      let (k, s) = same_group kind state g e in
      let same : q g.kind g.state ≡ q kind state = ap (λ i. q i g.state) k ∙ ap (q kind) s in
      rw e (ground (arith, same))
  | inr e ↦ rw e (omega (arith, sum_of-add_to_group q kind state gs))
]

pub sum_of-group_rows :
    (q : String → String → Bool) (ts : List Task) (gs : List Group)
    → sum_of q (group_rows ts gs) ≡ sum_of q gs + count_if (of_row q) ts
unfolding group_rows
sum_of-group_rows q [] gs = omega arith
sum_of-group_rows q (t ∷ ts) gs =
    let rest = sum_of-group_rows q ts (add_to_group (kind_text t.kind) (state_text t.state) gs) in
    omega (arith, rest, sum_of-add_to_group q (kind_text t.kind) (state_text t.state) gs)

-- No two groups of one kind and state.
abbrev pub IsDistinct : List Group → Type 0
IsDistinct [] = Unit
IsDistinct (g ∷ gs) = (any (is_group g.kind g.state) gs ≡ false) × IsDistinct gs

pub any-add_to_group :
    (k s kind state : String) (gs : List Group)
    → any (is_group k s) (add_to_group kind state gs)
      ≡ ((str_eq kind k && str_eq state s) || any (is_group k s) gs)
unfolding add_to_group
any-add_to_group k s kind state [] = ground arith
any-add_to_group k s kind state (g ∷ gs) = elim (Bool-cases (is_group kind state g)) [
  | inl e ↦
      let (same_kind, same_state) = same_group kind state g e in
      let same : is_group k s g ≡ (str_eq kind k && str_eq state s) =
        ap (λ i. str_eq i k && str_eq g.state s) same_kind
        ∙ ap (λ i. str_eq kind k && str_eq i s) same_state in
      rw e (ground (arith, same))
  | inr e ↦ rw e (ground (arith, any-add_to_group k s kind state gs))
]

pub add_to_group-IsDistinct :
    (kind state : String) (gs : List Group)
    → IsDistinct gs
    → IsDistinct (add_to_group kind state gs)
unfolding add_to_group
add_to_group-IsDistinct kind state [] d = (refl, tt)
add_to_group-IsDistinct kind state (g ∷ gs) d = elim (Bool-cases (is_group kind state g)) [
  | inl e ↦ rw e d
  | inr e ↦
      let apart = any-add_to_group g.kind g.state kind state gs in
      let other : (str_eq kind g.kind && str_eq state g.state) ≡ false = ground (
        arith,
        e,
        eq_iff kind g.kind,
        eq_iff g.kind kind,
        eq_iff state g.state,
        eq_iff g.state state,
      ) in
      rw e (ground (arith, apart, other, d.0), add_to_group-IsDistinct kind state gs d.1)
]

pub group_rows-IsDistinct :
    (ts : List Task) (gs : List Group) → IsDistinct gs → IsDistinct (group_rows ts gs)
unfolding group_rows
group_rows-IsDistinct [] gs d = d
group_rows-IsDistinct (t ∷ ts) gs d =
    group_rows-IsDistinct ts _
      (add_to_group-IsDistinct (kind_text t.kind) (state_text t.state) gs d)
