-- ===== src/Queue/Cells.antt =====
-- The rounds of `PlanStore.create` (quality_api/queue.py), and what a task says of the round that it is for.
use diff_graph.Base.{
  ==_iff, Bool, Bool-cases, List, Memᴰ, String, [], any, any-append, ap, arith, eq_iff, false, inl,
  inr, map, max, refl, str_eq, subst, suc, sym, true, zero, ℕ, ◌++◌, ◌+◌, ◌<>◌, ◌<◌, ◌==◌, ◌||◌,
  ◌↔◌, ◌∙◌, ◌∷◌, ◌≡◌, ◌≤◌, ◌⊎◌,
}
use diff_graph.Queue.Enqueue.{add_uri, add_uris, plan_uri, queue_uri, resource_uris}
use diff_graph.Queue.Plans.{Cell, attempts, cells, lineages_or_blank, loop, tagged}
use diff_graph.Queue.Rows.{PlanSpec, Task, TaskSpec}
use text.Mathlib.TextLemmas.{append-eq-nil_iff}

module _ {A : Type 0} where
  Mem-append : (b : A) (xs ys : List A) → Memᴰ b (xs ++ ys) → Memᴰ b xs ⊎ Memᴰ b ys
  Mem-append b [] ys m = inr m
  Mem-append b (x ∷ xs) ys (Memᴰ.head e) = inl (Memᴰ.head e)
  Mem-append b (x ∷ xs) ys (Memᴰ.tail m) = elim (Mem-append b xs ys m) [
    | inl l ↦ inl (Memᴰ.tail l)
    | inr r ↦ inr r
  ]

  Mem-append_left : (b : A) (xs ys : List A) → Memᴰ b xs → Memᴰ b (xs ++ ys)
  Mem-append_left b [] ys m = elim m [ ]
  Mem-append_left b (x ∷ xs) ys (Memᴰ.head e) = Memᴰ.head e
  Mem-append_left b (x ∷ xs) ys (Memᴰ.tail m) = Memᴰ.tail (Mem-append_left b xs ys m)

  Mem-append_right : (b : A) (xs ys : List A) → Memᴰ b ys → Memᴰ b (xs ++ ys)
  Mem-append_right b [] ys m = m
  Mem-append_right b (x ∷ xs) ys m = Memᴰ.tail (Mem-append_right b xs ys m)

module _ {A B : Type 0} where
  Mem-loop :
      (f : A → List B) (xs : List A) (b : B)
      → Memᴰ b (loop f xs)
      → (a : A) × Memᴰ a xs × Memᴰ b (f a)
  unfolding loop
  Mem-loop f [] b m = elim m [ ]
  Mem-loop f (x ∷ xs) b m = elim (Mem-append b (f x) (loop f xs) m) [
    | inl l ↦ (x, Memᴰ.head refl, l)
    | inr r ↦ let (a, there, own) = Mem-loop f xs b r in (a, Memᴰ.tail there, own)
  ]

  loop-Mem :
      (f : A → List B) (xs : List A) (a : A) (b : B) → Memᴰ a xs → Memᴰ b (f a) → Memᴰ b (loop f xs)
  unfolding loop
  loop-Mem f [] a b m own = elim m [ ]
  loop-Mem f (x ∷ xs) a b (Memᴰ.head e) own =
      Mem-append_left b (f x) (loop f xs) (subst (λ y. Memᴰ b (f y)) e own)
  loop-Mem f (x ∷ xs) a b (Memᴰ.tail m) own =
      Mem-append_right b (f x) (loop f xs) (loop-Mem f xs a b m own)

  Mem-map : (f : A → B) (xs : List A) (b : B) → Memᴰ b (map f xs) → (a : A) × Memᴰ a xs × (b ≡ f a)
  Mem-map f [] b m = elim m [ ]
  Mem-map f (x ∷ xs) b (Memᴰ.head e) = (x, Memᴰ.head refl, e)
  Mem-map f (x ∷ xs) b (Memᴰ.tail m) =
      let (a, there, same) = Mem-map f xs b m in (a, Memᴰ.tail there, same)

  map-Mem : (f : A → B) (xs : List A) (a : A) → Memᴰ a xs → Memᴰ (f a) (map f xs)
  map-Mem f [] a m = elim m [ ]
  map-Mem f (x ∷ xs) a (Memᴰ.head e) = Memᴰ.head (ap f e)
  map-Mem f (x ∷ xs) a (Memᴰ.tail m) = Memᴰ.tail (map-Mem f xs a m)

Mem-attempts : (first n i : ℕ) → Memᴰ i (attempts first n) → (first ≤ i) × (i < first + n)
unfolding attempts
Mem-attempts first zero i m = elim m [ ]
Mem-attempts first (suc n) i (Memᴰ.head e) = (omega (arith, e), omega (arith, e))
Mem-attempts first (suc n) i (Memᴰ.tail m) =
    let (low, high) = Mem-attempts (first + 1) n i m in (omega (arith, low), omega (arith, high))

attempts-Mem : (first n i : ℕ) → first ≤ i → i < first + n → Memᴰ i (attempts first n)
unfolding attempts
attempts-Mem first zero i low high = absurd (omega (arith, low, high))
attempts-Mem first (suc n) i low high = elim (Bool-cases (first == i)) [
  | inl e ↦ Memᴰ.head (sym ((==_iff first i).0 e))
  | inr e ↦
      let more : first + 1 ≤ i = ground (arith, e, low) in
      Memᴰ.tail (attempts-Mem (first + 1) n i more (omega (arith, high)))
]

-- A round of a plan: one of its lineages, or the empty one where it has none, one of its providers, one of its
-- scenarios, and an attempt.
abbrev pub IsRound : PlanSpec → Cell → Type 0
IsRound spec c =
    Memᴰ c.lineage (lineages_or_blank spec.lineages)
    × Memᴰ c.queue spec.providers
    × Memᴰ c.scenario spec.scenarios
    × (1 ≤ c.attempt_n)
    × (c.attempt_n ≤ max 1 spec.attempts_min)

pub cells-Mem : (spec : PlanSpec) (c : Cell) → Memᴰ c (cells spec) ↔ IsRound spec c
unfolding cells
cells-Mem spec c = (
  λ m.
      let (l, in_lineages, ml) = Mem-loop _ (lineages_or_blank spec.lineages) c m in
      let (q, in_providers, mq) = Mem-loop _ spec.providers c ml in
      let (s, in_scenarios, ms) = Mem-loop _ spec.scenarios c mq in
      let (n, in_attempts, e) = Mem-map _ (attempts 1 (max 1 spec.attempts_min)) c ms in
      let (low, high) = Mem-attempts 1 (max 1 spec.attempts_min) n in_attempts in
      let same : c.attempt_n ≡ n = ap (λ x. x.attempt_n) e in
      (
        subst (λ x. Memᴰ x (lineages_or_blank spec.lineages)) (sym (ap (λ x. x.lineage) e))
            in_lineages,
        subst (λ x. Memᴰ x spec.providers) (sym (ap (λ x. x.queue) e)) in_providers,
        subst (λ x. Memᴰ x spec.scenarios) (sym (ap (λ x. x.scenario) e)) in_scenarios,
        omega (arith, low, same),
        omega (arith, high, same),
      ),
  λ (in_lineages, in_providers, in_scenarios, low, high).
      loop-Mem _ (lineages_or_blank spec.lineages) c.lineage c in_lineages (
        loop-Mem _ spec.providers c.queue c in_providers (
          loop-Mem _ spec.scenarios c.scenario c in_scenarios (
            map-Mem _ (attempts 1 (max 1 spec.attempts_min)) c.attempt_n
              (attempts-Mem 1 (max 1 spec.attempts_min) c.attempt_n low (omega (arith, high)))))),
)

add_uri_keeps :
    (p : String → Bool) (uris : List String) (u : String)
    → any p uris ≡ true
    → any p (add_uri uris u) ≡ true
unfolding add_uri
add_uri_keeps p uris u h = ground (arith, h, any-append p uris (u ∷ []))

add_uris_keeps :
    (p : String → Bool) (us uris : List String)
    → any p uris ≡ true
    → any p (add_uris uris us) ≡ true
unfolding add_uris
add_uris_keeps p [] uris h = h
add_uris_keeps p (u ∷ us) uris h = add_uris_keeps p us (add_uri uris u) (add_uri_keeps p uris u h)

add_uri_here :
    (u : String) (uris : List String) → str_eq u "" ≡ false → any (str_eq u) (add_uri uris u) ≡ true
unfolding add_uri
add_uri_here u uris h =
    let own : str_eq u u ≡ true = (eq_iff u u).1 refl in
    ground (arith, h, own, any-append (str_eq u) uris (u ∷ []))

add_uris_here :
    (u : String) (us uris : List String)
    → str_eq u "" ≡ false
    → any (str_eq u) us ≡ true
    → any (str_eq u) (add_uris uris us) ≡ true
unfolding add_uris
add_uris_here u [] uris h m = cc m
add_uris_here u (x ∷ us) uris h m = elim (Bool-cases (str_eq u x)) [
  | inl e ↦ add_uris_keeps (str_eq u) us (add_uri uris x) (
      subst (λ y. any (str_eq u) (add_uri uris y) ≡ true) ((eq_iff u x).0 e)
        (add_uri_here u uris h))
  | inr e ↦ add_uris_here u us (add_uri uris x) h (ground (arith, e, m))
]

resource_uris_here :
    (u : String) (spec : TaskSpec)
    → str_eq u "" ≡ false
    → any (str_eq u) spec.resources ≡ true
    → any (str_eq u) (resource_uris spec) ≡ true
unfolding resource_uris plan_uri queue_uri
resource_uris_here u spec h m =
    add_uris_keeps (str_eq u) (plan_uri spec.plan_id)
      (add_uris (add_uris (add_uris [] spec.resources) spec.payload.resources)
        (queue_uri spec.queue))
      (add_uris_keeps (str_eq u) (queue_uri spec.queue)
        (add_uris (add_uris [] spec.resources) spec.payload.resources)
        (add_uris_keeps (str_eq u) spec.payload.resources (add_uris [] spec.resources)
          (add_uris_here u spec.resources [] h m)))

-- The task has the tag, unless what it tags is empty.
abbrev HasTag : String → String → List String → Type 0
HasTag prefix text uris = (str_eq text "" || any (str_eq (prefix <> text)) uris) ≡ true

tag_filled : (prefix text : String) → str_eq text "" ≡ false → str_eq (prefix <> text) "" ≡ false
tag_filled prefix text h = elim (Bool-cases (str_eq (prefix <> text) "")) [
  | inl e ↦
      let empty = (append-eq-nil_iff.0 ((eq_iff (prefix <> text) "").0 e)).1 in
      let no : true ≡ false = sym ((eq_iff text "").1 empty) ∙ h in cc no
  | inr e ↦ e
]

HasTag-resource_uris :
    (prefix text : String) (spec : TaskSpec)
    → HasTag prefix text spec.resources
    → HasTag prefix text (resource_uris spec)
HasTag-resource_uris prefix text spec h = elim (Bool-cases (str_eq text "")) [
  | inl e ↦ rw e refl
  | inr e ↦ rw e (resource_uris_here (prefix <> text) spec (tag_filled prefix text e) (rw e at h))
]

HasTag-tagged : (prefix text : String) → HasTag prefix text (tagged prefix text)
HasTag-tagged prefix text =
    let own : str_eq (prefix <> text) (prefix <> text) ≡ true = (eq_iff _ _).1 refl in
    ground (arith, own)

HasTag-append :
    (prefix text : String) (xs ys : List String)
    → HasTag prefix text xs ⊎ HasTag prefix text ys
    → HasTag prefix text (xs ++ ys)
HasTag-append prefix text xs ys (inl h) =
    ground (arith, h, any-append (str_eq (prefix <> text)) xs ys)
HasTag-append prefix text xs ys (inr h) =
    ground (arith, h, any-append (str_eq (prefix <> text)) xs ys)

-- A task is for a round: its queue and its attempt, and the tags of the scenario and of the lineage.
abbrev pub IsFor : Cell → Task → Type 0
IsFor c t =
    (t.queue ≡ c.queue)
    × (t.attempt_n ≡ c.attempt_n)
    × HasTag "scenario://" c.scenario t.resources
    × HasTag "lineage://" c.lineage t.resources

pub tagged_round :
    (c : Cell) (spec : TaskSpec)
    → spec.resources ≡ tagged "scenario://" c.scenario ++ tagged "lineage://" c.lineage
    → HasTag "scenario://" c.scenario (resource_uris spec)
      × HasTag "lineage://" c.lineage (resource_uris spec)
tagged_round c spec e = (
  HasTag-resource_uris "scenario://" c.scenario spec (
      subst (HasTag "scenario://" c.scenario) (sym e) (
        HasTag-append "scenario://" c.scenario (tagged "scenario://" c.scenario)
          (tagged "lineage://" c.lineage) (inl (HasTag-tagged "scenario://" c.scenario)))),
  HasTag-resource_uris "lineage://" c.lineage spec (
      subst (HasTag "lineage://" c.lineage) (sym e) (
        HasTag-append "lineage://" c.lineage (tagged "scenario://" c.scenario)
          (tagged "lineage://" c.lineage) (inr (HasTag-tagged "lineage://" c.lineage)))),
)
