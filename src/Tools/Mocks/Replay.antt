-- ===== src/Tools/Mocks/Replay.antt =====
-- A run of calls on mocked tools, and what each tool's entries promise about it.
use diff_graph.Base.{
  Bool-cases, List, Option, String, [], any, any-append, ap, arith, drop, eq_iff, false,
  if◌then◌else◌, inl, inr, length, length-append, none, refl, some, str_eq, subst, suc, sym, zero,
  ℕ, ◌++◌, ◌+◌, ◌==◌, ◌∙◌, ◌∷◌, ◌≡◌, ◌≤◌,
}
use diff_graph.Dict.{get?, set_key}
use diff_graph.Dict.Laws.{get-set_key}
use diff_graph.Json.{Json}
use diff_graph.Tools.{Libraries}
use diff_graph.Tools.Mocks.{
  Consumed, MockEntry, ToolMocks, add_index, consume, consume_by, consume_ordinal, exhausted,
  get_elem?, gives, put_consumed, raises, take_entry,
}
use diff_graph.Tools.Semantic.{Judge, SemanticConfig, or_default}

-- The answers that `n` calls get from the entries that are left: one entry after the other, a sticky one for
-- ever, and after the last the error.
abbrev pub replay : Consumed → List MockEntry → ℕ → List Consumed
replay over entries zero = []
replay over [] (suc n) = over ∷ replay over [] n
replay over (e ∷ entries) (suc n) =
    gives e ∷ replay over (if e.sticky then e ∷ entries else entries) n

-- The first indices, in the order in which a run uses them up.
abbrev pub upto : ℕ → List ℕ
upto zero = []
upto (suc c) = upto c ++ c ∷ []

length-upto : (c : ℕ) → length (upto c) ≡ c
length-upto zero = refl
length-upto (suc c) = omega (arith, length-append (upto c) (c ∷ []), length-upto c)

upto_fresh : (c i : ℕ) → c ≤ i → any (λ j. j == i) (upto c) ≡ false
upto_fresh zero i h = refl
upto_fresh (suc c) i h =
    any-append (λ j. j == i) (upto c) (c ∷ [])
    ∙ (let rest = upto_fresh c i (omega (arith, h)) in ground (arith, rest, h))

add-upto : (c : ℕ) → add_index c (upto c) ≡ upto (suc c)
add-upto c = ap (λ b. if b then upto c else upto c ++ c ∷ []) (upto_fresh c c (omega arith))

module _ {ℓ} {A : Type ℓ} where
  get_elem-none : (n : ℕ) (xs : List A) → get_elem? n xs ≡ none → drop n xs ≡ []
  unfolding get_elem?
  get_elem-none zero [] h = refl
  get_elem-none (suc n) [] h = refl
  get_elem-none zero (x ∷ xs) h = cc
  get_elem-none (suc n) (x ∷ xs) h = get_elem-none n xs h

  get_elem-some :
      (n : ℕ) (xs : List A) (x : A) → get_elem? n xs ≡ some x → drop n xs ≡ x ∷ drop (suc n) xs
  unfolding get_elem?
  get_elem-some zero [] y h = cc
  get_elem-some (suc n) [] y h = cc
  get_elem-some zero (x ∷ xs) y h = let same : x ≡ y = cc in ap (λ z. z ∷ xs) same
  get_elem-some (suc n) (x ∷ xs) y h = get_elem-some n xs y h

  get_elem_end : (n : ℕ) (xs : List A) → get_elem? n xs ≡ none → n ≤ length xs → n ≡ length xs
  unfolding get_elem?
  get_elem_end zero [] h k = refl
  get_elem_end (suc n) [] h k = omega arith
  get_elem_end zero (x ∷ xs) h k = cc
  get_elem_end (suc n) (x ∷ xs) h k = ap suc (get_elem_end n xs h (omega arith))

  get_elem_in : (n : ℕ) (xs : List A) (x : A) → get_elem? n xs ≡ some x → suc n ≤ length xs
  unfolding get_elem?
  get_elem_in zero [] y h = cc
  get_elem_in (suc n) [] y h = cc
  get_elem_in zero (x ∷ xs) y h = omega arith
  get_elem_in (suc n) (x ∷ xs) y h = omega (arith, get_elem_in n xs y h)

module _ (judge : Judge) (libs : Libraries) where
  -- A run of calls, and the answers that the calls of one tool get.
  unfoldable pub answers : String → List (String × Json) → ToolMocks judge → List Consumed
  answers name [] mocks = []
  answers name ((tool, args) ∷ calls) mocks =
      let (answer, after) = consume judge libs tool args mocks in
      let later = answers name calls after in if str_eq tool name then answer ∷ later else later

  abbrev pub calls_of : String → List (String × Json) → ℕ
  calls_of name [] = 0
  calls_of name ((tool, args) ∷ calls) =
      if str_eq tool name then suc (calls_of name calls) else calls_of name calls

  -- A tool with ordinal entries of which `c` are used up.
  pub record IsAt (name : String) (e : MockEntry) (entries : List MockEntry) (c : ℕ)
      (mocks : ToolMocks judge) : Type 0 where
    pub listed : get? name mocks.by_tool ≡ some (e ∷ entries)
    pub ordinal : get? name mocks.semantic_by_tool ≡ none
    pub used : or_default judge [] (get? name mocks.consumed) ≡ upto c
    pub in_range : c ≤ length (e ∷ entries)

  module _ (name : String) (e : MockEntry) (entries : List MockEntry) where
    abbrev over : Consumed
    over = raises (exhausted name (length (e ∷ entries) + 1) (length (e ∷ entries)))

    put-IsAt :
        (c c' : ℕ) (mocks : ToolMocks judge)
        → c' ≤ length (e ∷ entries)
        → IsAt name e entries c mocks
        → IsAt name e entries c' (put_consumed judge name (upto c') mocks)
    put-IsAt c c' mocks h at =
        let found : get? name (set_key name (upto c') mocks.consumed) ≡ some (upto c') =
          ground (arith, eq_iff name name, get-set_key name name (upto c') mocks.consumed) in
        record {
          listed = at.listed;
          ordinal = at.ordinal;
          used = ap (or_default judge []) found;
          in_range = h;
        }

    put_other :
        (tool : String) (c : ℕ) (indices : List ℕ) (mocks : ToolMocks judge)
        → str_eq tool name ≡ false
        → IsAt name e entries c mocks
        → IsAt name e entries c (put_consumed judge tool indices mocks)
    put_other tool c indices mocks h at =
        let same : get? name (set_key tool indices mocks.consumed) ≡ get? name mocks.consumed =
          ground (arith, h, get-set_key tool name indices mocks.consumed) in
        record {
          listed = at.listed;
          ordinal = at.ordinal;
          used = ap (or_default judge []) same ∙ at.used;
          in_range = at.in_range;
        }

    take_other :
        (tool : String) (c : ℕ) (es : List MockEntry) (indices : List ℕ) (o : Option MockEntry)
        (mocks : ToolMocks judge)
        → str_eq tool name ≡ false
        → IsAt name e entries c mocks
        → IsAt name e entries c (take_entry judge tool es indices o mocks).1
    take_other tool c es indices none mocks h at = put_other tool c indices mocks h at
    take_other tool c es indices (some x) mocks h at =
        put_other tool c (if x.sticky then indices else add_index (length indices) indices) mocks h
          at

    ordinal_other :
        (tool : String) (c : ℕ) (o : Option (List MockEntry)) (mocks : ToolMocks judge)
        → str_eq tool name ≡ false
        → IsAt name e entries c mocks
        → IsAt name e entries c (consume_ordinal judge tool o mocks).1
    ordinal_other tool c none mocks h at = at
    ordinal_other tool c (some []) mocks h at = at
    ordinal_other tool c (some (x ∷ es)) mocks h at =
        let indices = or_default judge [] (get? tool mocks.consumed) in
        take_other tool c (x ∷ es) indices (get_elem? (length indices) (x ∷ es)) mocks h at

    by_other :
        (tool : String) (args : Json) (c : ℕ) (o : Option (SemanticConfig judge))
        (mocks : ToolMocks judge)
        → str_eq tool name ≡ false
        → IsAt name e entries c mocks
        → IsAt name e entries c (consume_by judge libs tool args o mocks).1
    by_other tool args c (some cfg) mocks h at = at
    by_other tool args c none mocks h at = ordinal_other tool c (get? tool mocks.by_tool) mocks h at

    consume_other :
        (tool : String) (args : Json) (c : ℕ) (mocks : ToolMocks judge)
        → str_eq tool name ≡ false
        → IsAt name e entries c mocks
        → IsAt name e entries c (consume judge libs tool args mocks).1
    unfolding consume
    consume_other tool args c mocks h at =
        by_other tool args c (get? tool mocks.semantic_by_tool) mocks h at

    consume-take :
        (args : Json) (c : ℕ) (mocks : ToolMocks judge)
        → IsAt name e entries c mocks
        → consume judge libs name args mocks
          ≡ take_entry judge name (e ∷ entries) (upto c) (get_elem? c (e ∷ entries)) mocks
    unfolding consume
    consume-take args c mocks at = rw (at.ordinal, at.listed, at.used, length-upto c) refl

    -- The answer to a call and what is left, against one step of `replay`.
    abbrev Goes : ℕ → Consumed × ToolMocks judge → Type 0
    Goes c (answer, after) =
        (c' : ℕ) × IsAt name e entries c' after
        × ((n : ℕ)
            → (answer ∷ replay over (drop c' (e ∷ entries)) n)
              ≡ replay over (drop c (e ∷ entries)) (suc n))

    take-Goes :
        (c : ℕ) (o : Option MockEntry) (mocks : ToolMocks judge)
        → get_elem? c (e ∷ entries) ≡ o
        → IsAt name e entries c mocks
        → Goes c (take_entry judge name (e ∷ entries) (upto c) o mocks)
    take-Goes c none mocks h at =
        let done = get_elem-none c (e ∷ entries) h in
        let count : c ≡ length (e ∷ entries) = get_elem_end c (e ∷ entries) h at.in_range in
        (
          c,
          put-IsAt c c mocks at.in_range at,
          λ n.
              let said : raises (exhausted name (length (upto c) + 1) (length (e ∷ entries)))
                  ≡ over =
                ap (λ k. raises (exhausted name (k + 1) (length (e ∷ entries))))
                  (length-upto c ∙ count) in
              subst
                (λ d.
                  (raises (exhausted name (length (upto c) + 1) (length (e ∷ entries)))
                    ∷ replay over d n)
                  ≡ replay over d (suc n))
                (sym done) (ap (λ z. z ∷ replay over [] n) said),
        )
    take-Goes c (some x) mocks h at =
        let rest = drop (suc c) (e ∷ entries) in
        let split : drop c (e ∷ entries) ≡ x ∷ rest = get_elem-some c (e ∷ entries) x h in
        elim (Bool-cases x.sticky) [
          | inl stays ↦ (
            c,
            subst
                (λ b. IsAt name e entries c (
                  put_consumed judge name
                    (if b then upto c else add_index (length (upto c)) (upto c)) mocks))
                (sym stays) (put-IsAt c c mocks at.in_range at),
            λ n.
                subst (λ z. (gives x ∷ replay over z n) ≡ replay over z (suc n)) (sym split)
                  (ap (λ b. gives x ∷ replay over (if b then x ∷ rest else rest) n) (sym stays)),
          )
          | inr moves ↦
              let next : upto (suc c) ≡ add_index (length (upto c)) (upto c) =
                sym (add-upto c) ∙ ap (λ i. add_index i (upto c)) (sym (length-upto c)) in
              (
                suc c,
                subst
                    (λ b. IsAt name e entries (suc c) (
                      put_consumed judge name
                        (if b then upto c else add_index (length (upto c)) (upto c)) mocks))
                    (sym moves)
                    (subst (λ u. IsAt name e entries (suc c) (put_consumed judge name u mocks)) next
                      (put-IsAt c (suc c) mocks (get_elem_in c (e ∷ entries) x h) at)),
                λ n.
                    subst (λ z. (gives x ∷ replay over rest n) ≡ replay over z (suc n)) (sym split)
                      (ap (λ b. gives x ∷ replay over (if b then x ∷ rest else rest) n)
                        (sym moves)),
              )
        ]

    answers_from :
        (calls : List (String × Json)) (c : ℕ) (mocks : ToolMocks judge)
        → IsAt name e entries c mocks
        → answers name calls mocks ≡ replay over (drop c (e ∷ entries)) (calls_of name calls)
    unfolding answers
    answers_from [] c mocks at = refl
    answers_from ((tool, args) ∷ calls) c mocks at = elim (Bool-cases (str_eq tool name)) [
      | inl same ↦
          let here : consume judge libs tool args mocks ≡ consume judge libs name args mocks =
            ap (λ t. consume judge libs t args mocks) ((eq_iff tool name).0 same) in
          let r = take_entry judge name (e ∷ entries) (upto c) (get_elem? c (e ∷ entries)) mocks in
          let taken : consume judge libs tool args mocks ≡ r =
            here ∙ consume-take args c mocks at in
          let (c', after, step) = take-Goes c (get_elem? c (e ∷ entries)) mocks refl at in
          rw (same, taken)
            (ap (λ later. r.0 ∷ later) (answers_from calls c' r.1 after)
              ∙ step (calls_of name calls))
      | inr other ↦ rw other (
          answers_from calls c (consume judge libs tool args mocks).1
            (consume_other tool args c mocks other at))
    ]

  -- However the calls of the tools are mixed, a tool with ordinal entries that is called for the first time answers its
  -- calls with its entries in their order, a sticky one for ever, and after the last with the error.
  pub answers-replay :
      (name : String) (e : MockEntry) (entries : List MockEntry) (calls : List (String × Json))
      (mocks : ToolMocks judge)
      → get? name mocks.by_tool ≡ some (e ∷ entries)
      → get? name mocks.semantic_by_tool ≡ none
      → get? name mocks.consumed ≡ none
      → answers name calls mocks
        ≡ replay
            (raises (exhausted name (length (e ∷ entries) + 1) (length (e ∷ entries))))
            (e ∷ entries)
            (calls_of name calls)
  answers-replay name e entries calls mocks listed ordinal fresh =
      answers_from name e entries calls 0 mocks (record {
        listed = listed;
        ordinal = ordinal;
        used = ap (or_default judge []) fresh;
        in_range = omega arith;
      })
