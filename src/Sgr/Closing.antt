-- ===== src/Sgr/Closing.antt =====
-- What the parts of a reflection close (orchestra/sgr.py, `_process_resolved` and `_process_remaining`).
use diff_graph.Base.{
  All, Bool, Bool-cases, List, String, [], ap, arith, eq_iff, false, if◌then◌else◌, inl, inr, not,
  refl, str_eq, subst, sym, true, ℕ, ◌&&◌, ◌||◌, ◌∙◌, ◌∷◌, ◌≡◌, ◌⊎◌,
}
use diff_graph.Floats.{Float}
use diff_graph.Sgr.{Question, RemainingQuestion, Resolved, ResolvedQuestion, SgrTracker}
use diff_graph.Sgr.Questions.{
  delete_question, find_by_text, is_blank, is_listed, is_open, is_resolved, or_empty, put_resolved,
}
use diff_graph.Sgr.Recording.{
  drop_one, drop_unlisted, process_one, process_resolved, put_question, put_questions, resolve,
}

same_id : (a b id : String) → str_eq a b ≡ true → str_eq a id ≡ str_eq b id
same_id a b id e = ap (λ k. str_eq k id) ((eq_iff a b).0 e)

-- A question that is deleted is not open, and the others stay.
is_open-delete :
    (key id : String) (questions : List Question)
    → is_open (delete_question key questions) id ≡ (is_open questions id && not (str_eq key id))
is_open-delete key id [] = refl
is_open-delete key id (q ∷ questions) = elim (Bool-cases (str_eq q.id key)) [
  | inl e ↦ rw e (ground (arith, same_id q.id key id e, is_open-delete key id questions))
  | inr e ↦ elim (Bool-cases (str_eq q.id id)) [
    | inl here ↦
        let apart : str_eq key id ≡ false = differ q.id e here in rw e (ground (arith, here, apart))
    | inr there ↦ rw e (ground (arith, there, is_open-delete key id questions))
  ]
]
  where
    differ : (a : String) → str_eq a key ≡ false → str_eq a id ≡ true → str_eq key id ≡ false
    differ a e here = elim (Bool-cases (str_eq key id)) [
      | inl k ↦
          let both : a ≡ key = (eq_iff a id).0 here ∙ sym ((eq_iff key id).0 k) in
          let no : true ≡ false = sym ((eq_iff a key).1 both) ∙ e in cc no
      | inr k ↦ k
    ]

-- Resolving a question leaves the others as they are.
is_resolved-put :
    (r : Resolved) (id : String) (resolved : List Resolved)
    → str_eq r.id id ≡ false
    → is_resolved (put_resolved r resolved) id ≡ is_resolved resolved id
is_resolved-put r id [] e = ground (arith, e)
is_resolved-put r id (x ∷ resolved) e = elim (Bool-cases (str_eq x.id r.id)) [
  | inl same ↦ rw same (ground (arith, e, same_id x.id r.id id same))
  | inr other ↦ rw other (ground (arith, is_resolved-put r id resolved e))
]

-- What a part of a reflection does to a question: it opens none, and one that it leaves open it has not resolved.
abbrev pub Closes : String → SgrTracker → SgrTracker → Type 0
Closes id s t =
    (is_open t.questions id ≡ false)
    ⊎ ((is_open s.questions id ≡ true) × (is_resolved t.resolved id ≡ is_resolved s.resolved id))

Closes-refl : (id : String) (s : SgrTracker) → Closes id s s
Closes-refl id s = elim (Bool-cases (is_open s.questions id)) [
  | inl e ↦ inr (e, refl)
  | inr e ↦ inl e
]

Closes-trans : (id : String) (s t u : SgrTracker) → Closes id s t → Closes id t u → Closes id s u
Closes-trans id s t u h (inl closed) = inl closed
Closes-trans id s t u (inl gone) (inr (open_now, same)) =
    let no : true ≡ false = sym open_now ∙ gone in absurd (ground (arith, no))
Closes-trans id s t u (inr (open_first, same)) (inr (open_now, same')) =
    inr (open_first, same' ∙ same)

pub still_closed :
    (id : String) (s t : SgrTracker)
    → Closes id s t
    → is_open s.questions id ≡ false
    → is_open t.questions id ≡ false
still_closed id s t (inl closed) h = closed
still_closed id s t (inr (open_first, same)) h =
    let no : true ≡ false = sym open_first ∙ h in absurd (ground (arith, no))

pub or_left : {a : Bool} (b : Bool) → a ≡ true → (a || b) ≡ true
or_left b h = ground (arith, h)

pub or_right : (a : Bool) {b : Bool} → b ≡ true → (a || b) ≡ true
or_right a h = ground (arith, h)

or_closed : (a : Bool) {c : Bool} → c ≡ false → (a || not c) ≡ true
or_closed a h = ground (arith, h)

pub blank_of : (a : Bool) {c : Bool} → c ≡ true → (a || not c) ≡ true → a ≡ true
blank_of a h k = ground (arith, h, k)

module _ (F : Float) (words : String → List String) where
  resolve_here :
      (key resolution summary : String) (step : ℕ) (t : SgrTracker)
      → is_open (resolve F words key resolution summary step t).questions key ≡ false
  resolve_here key resolution summary step t =
      let own : str_eq key key ≡ true = (eq_iff key key).1 refl in
      ground (arith, is_open-delete key key t.questions, own)

  resolve-Closes :
      (key resolution summary : String) (step : ℕ) (t : SgrTracker) (id : String)
      → Closes id t (resolve F words key resolution summary step t)
  resolve-Closes key resolution summary step t id = elim (Bool-cases (str_eq key id)) [
    | inl e ↦ inl (ground (arith, is_open-delete key id t.questions, e))
    | inr e ↦ elim (Bool-cases (is_open t.questions id)) [
      | inl o ↦ inr (o, is_resolved-put _ id t.resolved e)
      | inr o ↦ inl (ground (arith, is_open-delete key id t.questions, o))
    ]
  ]

  if-Closes :
      (id : String) (b : Bool) (s x y : SgrTracker)
      → Closes id s x
      → Closes id s y
      → Closes id s (if b then x else y)
  if-Closes id true s x y h k = h
  if-Closes id false s x y h k = k

  process_one-Closes :
      (r : ResolvedQuestion) (step : ℕ) (t : SgrTracker) (id : String)
      → Closes id t (process_one F words r step t)
  process_one-Closes r step t id =
      let found = or_empty (find_by_text F words r.question t.questions) in
      if-Closes id (not (is_blank r.id) && is_open t.questions r.id) t _ _
        (resolve-Closes r.id r.resolution r.summary step t id)
        (if-Closes id (not (is_blank r.question)) t _ _
          (if-Closes id (not (is_blank found) && is_open t.questions found) t _ _
            (resolve-Closes found r.resolution r.summary step t id) (Closes-refl id t))
          (Closes-refl id t))

  pub process_resolved-Closes :
      (resolved : List ResolvedQuestion) (step : ℕ) (t : SgrTracker) (id : String)
      → Closes id t (process_resolved F words resolved step t)
  process_resolved-Closes [] step t id = Closes-refl id t
  process_resolved-Closes (r ∷ resolved) step t id =
      let one = process_one F words r step t in
      Closes-trans id t one (process_resolved F words resolved step one)
        (process_one-Closes r step t id) (process_resolved-Closes resolved step one id)

  -- A question that a reflection resolves by its id is not open behind it.
  process_one_here :
      (r : ResolvedQuestion) (step : ℕ) (t : SgrTracker)
      → (is_blank r.id || not (is_open (process_one F words r step t).questions r.id)) ≡ true
  process_one_here r step t = elim (Bool-cases (is_blank r.id)) [
    | inl blank ↦ or_left _ blank
    | inr named ↦ elim (Bool-cases (is_open t.questions r.id)) [
      | inl o ↦
          let gone : is_open (process_one F words r step t).questions r.id ≡ false =
            rw (named, o) (resolve_here r.id r.resolution r.summary step t) in
          or_closed (is_blank r.id) gone
      | inr o ↦
          or_closed (is_blank r.id) (
            still_closed r.id t (process_one F words r step t) (process_one-Closes r step t r.id) o)
    ]
  ]

  pub process_resolved_here :
      (resolved : List ResolvedQuestion) (step : ℕ) (t : SgrTracker)
      → All
          (λ r.
            (is_blank r.id
              || not (is_open (process_resolved F words resolved step t).questions r.id))
            ≡ true)
          resolved
  process_resolved_here [] step t = tt
  process_resolved_here (r ∷ resolved) step t =
      let one = process_one F words r step t in
      let here = process_one_here r step t in
      (
        elim (Bool-cases (is_open one.questions r.id)) [
          | inl o ↦
              let blank : is_blank r.id ≡ true = blank_of (is_blank r.id) o here in or_left _ blank
          | inr o ↦ or_closed (is_blank r.id) (
              still_closed r.id one (process_resolved F words resolved step one)
                (process_resolved-Closes resolved step one r.id) o)
        ],
        process_resolved_here resolved step one,
      )

  module _ (remaining : List RemainingQuestion) (step : ℕ) where
    drop_one-Closes :
        (q : Question) (t : SgrTracker) (id : String)
        → Closes id t (drop_one F words remaining q step t)
    drop_one-Closes q t id =
        if-Closes id (is_listed remaining q.id || is_resolved t.resolved q.id) t _ _
          (Closes-refl id t) (resolve-Closes q.id "dropped" "(implicit)" step t id)

    pub drop_unlisted-Closes :
        (keys : List Question) (t : SgrTracker) (id : String)
        → Closes id t (drop_unlisted F words remaining keys step t)
    drop_unlisted-Closes [] t id = Closes-refl id t
    drop_unlisted-Closes (q ∷ keys) t id =
        let one = drop_one F words remaining q step t in
        Closes-trans id t one (drop_unlisted F words remaining keys step one)
          (drop_one-Closes q t id) (drop_unlisted-Closes keys one id)

    -- The loop drops each key that is neither listed nor resolved.
    drop_unlisted_key :
        (keys : List Question) (t : SgrTracker) (id : String)
        → is_open keys id ≡ true
        → is_listed remaining id ≡ false
        → is_resolved t.resolved id ≡ false
        → is_open (drop_unlisted F words remaining keys step t).questions id ≡ false
    drop_unlisted_key [] t id m l r = cc m
    drop_unlisted_key (q ∷ keys) t id m l r =
        let one = drop_one F words remaining q step t in
        let later = drop_unlisted-Closes keys one id in
        elim (Bool-cases (str_eq q.id id)) [
          | inl e ↦
              let gone : is_open one.questions id ≡ false =
                subst (λ k. is_open (drop_one F words remaining q step t).questions k ≡ false)
                  ((eq_iff q.id id).0 e) (own q t (listed_as q id e l) (resolved_as q t id e r)) in
              still_closed id one (drop_unlisted F words remaining keys step one) later gone
          | inr e ↦ elim (drop_one-Closes q t id) [
            | inl gone ↦
                still_closed id one (drop_unlisted F words remaining keys step one) later gone
            | inr (open_first, same) ↦
                drop_unlisted_key keys one id (ground (arith, e, m)) l (same ∙ r)
          ]
        ]
      where
        listed_as :
            (q : Question) (id : String)
            → str_eq q.id id ≡ true
            → is_listed remaining id ≡ false
            → is_listed remaining q.id ≡ false
        listed_as q id e l =
            subst (λ k. is_listed remaining k ≡ false) (sym ((eq_iff q.id id).0 e)) l

        resolved_as :
            (q : Question) (t : SgrTracker) (id : String)
            → str_eq q.id id ≡ true
            → is_resolved t.resolved id ≡ false
            → is_resolved t.resolved q.id ≡ false
        resolved_as q t id e r =
            subst (λ k. is_resolved t.resolved k ≡ false) (sym ((eq_iff q.id id).0 e)) r

        own :
            (q : Question) (t : SgrTracker)
            → is_listed remaining q.id ≡ false
            → is_resolved t.resolved q.id ≡ false
            → is_open (drop_one F words remaining q step t).questions q.id ≡ false
        own q t l r = rw (l, r) (resolve_here q.id "dropped" "(implicit)" step t)

    -- What is open behind the loop without being listed was open and resolved before it.
    pub drop_unlisted_open :
        (t : SgrTracker) (id : String)
        → is_listed remaining id ≡ false
        → is_open (drop_unlisted F words remaining t.questions step t).questions id ≡ true
        → (is_open t.questions id ≡ true) × (is_resolved t.resolved id ≡ true)
    drop_unlisted_open t id l o = elim (Bool-cases (is_open t.questions id)) [
      | inr closed ↦
          let gone =
            still_closed id t (drop_unlisted F words remaining t.questions step t)
              (drop_unlisted-Closes t.questions t id) closed in
          let no : true ≡ false = sym o ∙ gone in absurd (ground (arith, no))
      | inl was ↦ elim (Bool-cases (is_resolved t.resolved id)) [
        | inl done ↦ (was, done)
        | inr fresh ↦
            let gone = drop_unlisted_key t.questions t id was l fresh in
            let no : true ≡ false = sym o ∙ gone in absurd (ground (arith, no))
      ]
    ]

  is_open-put_question :
      (step : ℕ) (q : RemainingQuestion) (questions : List Question) (id : String)
      → is_open (put_question F words step q questions) id
        ≡ (is_open questions id || str_eq q.id id)
  is_open-put_question step q [] id = ground arith
  is_open-put_question step q (x ∷ questions) id = elim (Bool-cases (str_eq x.id q.id)) [
    | inl same ↦ rw same (ground (arith, same_id x.id q.id id same))
    | inr other ↦ rw other (ground (arith, is_open-put_question step q questions id))
  ]

  pub is_open-put_questions :
      (step : ℕ) (remaining : List RemainingQuestion) (questions : List Question) (id : String)
      → is_open (put_questions F words step remaining questions) id
        ≡ (is_open questions id || is_listed remaining id)
  is_open-put_questions step [] questions id = ground arith
  is_open-put_questions step (q ∷ remaining) questions id =
      let next = put_question F words step q questions in
      let one = is_open-put_question step q questions id in
      let rest = is_open-put_questions step remaining next id in ground (arith, one, rest)
