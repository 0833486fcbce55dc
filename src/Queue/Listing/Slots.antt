-- ===== src/Queue/Listing/Slots.antt =====
-- The dictionaries that `progress` fills from the groups.
use diff_graph.Base.{
  All, Bool-cases, List, String, [], any, ap, arith, eq_iff, false, if◌then◌else◌, inl, inr, none,
  refl, some, str_eq, sym, true, ℕ, ◌&&◌, ◌+◌, ◌∙◌, ◌∷◌, ◌≡◌,
}
use diff_graph.Dict.{get?, set_key}
use diff_graph.Dict.Laws.{get-set_key}
use diff_graph.Queue.Listing.{
  Counters, Group, collect_groups, is_group, or_no_counters, or_zero, sum_values,
}
use diff_graph.Queue.Listing.Groups.{IsDistinct, sum_of}

pub sum_values-set_key :
    (k : String) (n : ℕ) (d : Counters)
    → sum_values (set_key k (or_zero (get? k d) + n) d) ≡ sum_values d + n
unfolding sum_values set_key get?
sum_values-set_key k n [] = omega arith
sum_values-set_key k n ((j, m) ∷ d) = elim (Bool-cases (str_eq j k)) [
  | inl e ↦ rw e (omega arith)
  | inr e ↦
      let rest = sum_values-set_key k n d in
      let value : or_zero (get? k ((j, m) ∷ d)) + n ≡ or_zero (get? k d) + n = rw e refl in
      ap (λ v. sum_values (set_key k v ((j, m) ∷ d))) value ∙ rw e (omega (arith, rest))
]

pub sum_values-set_new :
    (k : String) (n : ℕ) (d : Counters)
    → get? k d ≡ none
    → sum_values (set_key k n d) ≡ sum_values d + n
sum_values-set_new k n d new =
    let same : or_zero (get? k d) + n ≡ n = rw new (omega arith) in
    ap (λ m. sum_values (set_key k m d)) (sym same) ∙ sum_values-set_key k n d

-- `out` adds up the groups by their states.
pub collect_groups_out :
    (gs : List Group) (out : Counters) (by_kind : List (String × Counters)) (s : String)
    → (or_zero (get? s (collect_groups gs out by_kind).0)
        ≡ or_zero (get? s out) + sum_of (λ k t. str_eq t s) gs)
      × (sum_values (collect_groups gs out by_kind).0 ≡ sum_values out + sum_of (λ k t. true) gs)
unfolding collect_groups
collect_groups_out [] out by_kind s = (omega arith, omega arith)
collect_groups_out (g ∷ gs) out by_kind s =
    let out' = set_key g.state (or_zero (get? g.state out) + g.n) out in
    let (counted, summed) =
      collect_groups_out gs out'
        (set_key g.kind (set_key g.state g.n (or_no_counters (get? g.kind by_kind))) by_kind) s in
    let put = get-set_key g.state s (or_zero (get? g.state out) + g.n) out in
    (
      elim (Bool-cases (str_eq g.state s)) [
        | inl e ↦
            let same : or_zero (get? g.state out) ≡ or_zero (get? s out) =
              ap (λ i. or_zero (get? i out)) ((eq_iff g.state s).0 e) in
            ground (arith, e, counted, put, same)
        | inr e ↦ ground (arith, e, counted, put)
      ],
      omega (arith, summed, sum_values-set_key g.state g.n out),
    )

abbrev pub slot_of : String → List (String × Counters) → Counters
slot_of k by_kind = or_no_counters (get? k by_kind)

-- No slot has an entry for a group that is still to come.
abbrev pub IsFresh : List (String × Counters) → List Group → Type 0
IsFresh by_kind gs = All (λ g. get? g.state (slot_of g.kind by_kind) ≡ none) gs

abbrev pub absorb : Group → List (String × Counters) → List (String × Counters)
absorb g by_kind = set_key g.kind (set_key g.state g.n (slot_of g.kind by_kind)) by_kind

pub slot_of-absorb :
    (g : Group) (by_kind : List (String × Counters)) (k : String)
    → slot_of k (absorb g by_kind) ≡ (
        if str_eq g.kind k then set_key g.state g.n (slot_of g.kind by_kind) else slot_of k by_kind)
slot_of-absorb g by_kind k =
    let put = get-set_key g.kind k (set_key g.state g.n (slot_of g.kind by_kind)) by_kind in
    elim (Bool-cases (str_eq g.kind k)) [ inl e ↦ rw (put, e) refl | inr e ↦ rw (put, e) refl ]

pub absorb_fresh :
    (g h : Group) (by_kind : List (String × Counters))
    → is_group g.kind g.state h ≡ false
    → get? h.state (slot_of h.kind by_kind) ≡ none
    → get? h.state (slot_of h.kind (absorb g by_kind)) ≡ none
absorb_fresh g h by_kind apart fresh =
    let put = slot_of-absorb g by_kind h.kind in
    elim (Bool-cases (str_eq g.kind h.kind)) [
      | inl e ↦
          let same : slot_of g.kind by_kind ≡ slot_of h.kind by_kind =
            ap (λ i. slot_of i by_kind) ((eq_iff g.kind h.kind).0 e) in
          let state = get-set_key g.state h.state g.n (slot_of g.kind by_kind) in
          let other : str_eq g.state h.state ≡ false = ground (
            arith,
            apart,
            e,
            eq_iff g.kind h.kind,
            eq_iff h.kind g.kind,
            eq_iff h.state g.state,
            eq_iff g.state h.state,
          ) in
          rw (put, e) (state ∙ rw (other, same) fresh)
      | inr e ↦ rw (put, e) fresh
    ]

pub absorb-IsFresh :
    (g : Group) (by_kind : List (String × Counters)) (gs : List Group)
    → any (is_group g.kind g.state) gs ≡ false
    → IsFresh by_kind gs
    → IsFresh (absorb g by_kind) gs
absorb-IsFresh g by_kind [] apart fresh = tt
absorb-IsFresh g by_kind (h ∷ gs) apart fresh = (
  absorb_fresh g h by_kind (ground (arith, apart)) fresh.0,
  absorb-IsFresh g by_kind gs (ground (arith, apart)) fresh.1,
)

-- The slots hold the groups.
pub collect_groups_slots :
    (gs : List Group) (out : Counters) (by_kind : List (String × Counters)) (k s : String)
    → IsDistinct gs
    → IsFresh by_kind gs
    → (or_zero (get? s (slot_of k (collect_groups gs out by_kind).1))
        ≡ or_zero (get? s (slot_of k by_kind)) + sum_of (λ i t. str_eq i k && str_eq t s) gs)
      × (sum_values (slot_of k (collect_groups gs out by_kind).1)
          ≡ sum_values (slot_of k by_kind) + sum_of (λ i t. str_eq i k) gs)
unfolding collect_groups
collect_groups_slots [] out by_kind k s distinct fresh = (omega arith, omega arith)
collect_groups_slots (g ∷ gs) out by_kind k s distinct fresh =
    let (counted, summed) =
      collect_groups_slots gs (set_key g.state (or_zero (get? g.state out) + g.n) out)
        (absorb g by_kind) k s distinct.1 (absorb-IsFresh g by_kind gs distinct.0 fresh.1) in
    let put = slot_of-absorb g by_kind k in
    elim (Bool-cases (str_eq g.kind k)) [
      | inr e ↦
          let kept : slot_of k (absorb g by_kind) ≡ slot_of k by_kind = put ∙ rw e refl in
          let a = ap (λ d. or_zero (get? s d)) kept in
          let b = ap sum_values kept in
          (ground (arith, counted, a, e), ground (arith, summed, b, e))
      | inl e ↦
          let same : slot_of g.kind by_kind ≡ slot_of k by_kind =
            ap (λ i. slot_of i by_kind) ((eq_iff g.kind k).0 e) in
          let new : get? g.state (slot_of k by_kind) ≡ none =
            ap (get? g.state) (sym same) ∙ fresh.0 in
          let grown : slot_of k (absorb g by_kind) ≡ set_key g.state g.n (slot_of k by_kind) =
            put ∙ rw (e, same) refl in
          let a =
            ap (λ d. or_zero (get? s d)) grown
            ∙ ap or_zero (get-set_key g.state s g.n (slot_of k by_kind)) in
          let b = ap sum_values grown ∙ sum_values-set_new g.state g.n (slot_of k by_kind) new in
          (slot_entry k s g gs by_kind e new counted a, ground (arith, summed, b, e))
    ]
  where
    slot_entry :
        (k s : String) (g : Group) (gs : List Group) (by_kind : List (String × Counters))
        → {x : ℕ} → {y : ℕ} → str_eq g.kind k ≡ true
        → get? g.state (slot_of k by_kind) ≡ none
        → x ≡ y + sum_of (λ i t. str_eq i k && str_eq t s) gs
        → y ≡ or_zero (if str_eq g.state s then some g.n else get? s (slot_of k by_kind))
        → x
          ≡ or_zero (get? s (slot_of k by_kind)) + sum_of (λ i t. str_eq i k && str_eq t s) (g ∷ gs)
    slot_entry k s g gs by_kind e new counted a = elim (Bool-cases (str_eq g.state s)) [
      | inl f ↦
          let absent : get? s (slot_of k by_kind) ≡ none =
            ap (λ i. get? i (slot_of k by_kind)) (sym ((eq_iff g.state s).0 f)) ∙ new in
          let none_yet : or_zero (get? s (slot_of k by_kind)) ≡ 0 = ap or_zero absent in
          let now_there : or_zero
                (if str_eq g.state s then some g.n else get? s (slot_of k by_kind))
              ≡ g.n =
            rw f refl in
          ground (arith, e, f, none_yet, now_there, counted, a)
      | inr f ↦
          let kept : or_zero (if str_eq g.state s then some g.n else get? s (slot_of k by_kind))
              ≡ or_zero (get? s (slot_of k by_kind)) =
            rw f refl in
          ground (arith, e, f, kept, counted, a)
    ]
