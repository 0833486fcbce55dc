-- ===== src/Condense/Recent.antt =====
-- What a condensed history keeps of the old one.
use diff_graph.Base.{
  Bool-cases, List, [], ap, arith, if◌then◌else◌, inl, inr, last, last-last, last_of_append,
  last_whole, last_zero, leb, length, length-last, ltb, refl, suc, sym, zero, ℕ, ◌++◌, ◌+◌, ◌∙◌,
  ◌∷◌, ◌≡◌, ◌≤◌,
}
use diff_graph.Condense.{
  CondensationConfig, CondensationStrategy, Summarise, condense, condense_by, condense_hybrid,
  drop_from, drop_results, drop_tool_results, hybrid, llm_summary, should_condense, slide_window,
  sliding_window, split_system, summarise_history,
}
use diff_graph.Messages.{Message}
use diff_graph.Sgr.{SgrEntry}
use mathlib.Core.List.{append-nil}

split_append :
    (messages : List Message) → (split_system messages).0 ++ (split_system messages).1 ≡ messages
split_append [] = refl
split_append (m ∷ messages) = ground arith

pub length_body : (messages : List Message) → length messages ≤ 1 + length (split_system messages).1
length_body [] = omega arith
length_body (m ∷ messages) = ground arith

whole :
    (messages : List Message)
    → (split_system messages).0 ++ [] ++ (split_system messages).1 ≡ messages
whole messages = rw append-nil (split_append messages)

-- The last messages of the body are those of the history, if the body has as many.
last_body :
    (n : ℕ) (messages : List Message)
    → n ≤ length (split_system messages).1
    → last n messages ≡ last n (split_system messages).1
last_body n messages h =
    let (system, body) = split_system messages in
    ap (last n) (sym (split_append messages)) ∙ last_of_append n system body h

recent_or : (n : ℕ) (body : List Message) → (if ltb 0 n then last n body else []) ≡ last n body
recent_or zero body = sym (last_zero body)
recent_or (suc n) body = ground arith

-- Whatever stands in front of the recent messages, the end stays.
last_recent :
    (n : ℕ) (front : List Message) (messages : List Message)
    → n ≤ length (split_system messages).1
    → last n (front ++ last n (split_system messages).1) ≡ last n messages
last_recent n front messages h =
    let body = (split_system messages).1 in
    let long : n ≤ length (last n body) = omega (arith, length-last n body h) in
    last_of_append n front (last n body) long ∙ last-last n body ∙ sym (last_body n messages h)

pub drop_from-length :
    (keep size i : ℕ) (messages : List Message)
    → length (drop_from keep size i messages) ≡ length messages
drop_from-length keep size i [] = refl
drop_from-length keep size i (m ∷ messages) =
    omega (arith, drop_from-length keep size (i + 1) messages)

-- From the index where the last messages begin, the loop changes none.
drop_from_end :
    (keep size i : ℕ) (messages : List Message)
    → size ≤ i + keep
    → drop_from keep size i messages ≡ messages
drop_from_end keep size i [] h = refl
drop_from_end keep size i (m ∷ messages) h =
    ground (arith, drop_from_end keep size (i + 1) messages (omega (arith, h)))

drop_from-last :
    (keep size i : ℕ) (messages : List Message)
    → size ≡ i + length messages
    → last keep (drop_from keep size i messages) ≡ last keep messages
drop_from-last keep size i [] h = refl
drop_from-last keep size i (m ∷ messages) h = elim (Bool-cases (leb size (i + keep))) [
  | inl end ↦ ap (last keep) (drop_from_end keep size i (m ∷ messages) (ground arith))
  | inr more ↦
      let rest = drop_from keep size (i + 1) messages in
      let same = drop_from-length keep size (i + 1) messages in
      last_of_append keep (_ ∷ []) rest (ground (arith, same))
      ∙ drop_from-last keep size (i + 1) messages (omega (arith, h))
      ∙ sym (last_of_append keep (m ∷ []) messages (ground arith))
]

module _ (config : CondensationConfig) (entries : List SgrEntry) (llm : Summarise) where
  summarise_history-last :
      (messages : List Message)
      → last config.preserve_last (summarise_history config entries llm messages)
        ≡ last config.preserve_last messages
  summarise_history-last messages =
      let (system, body) = split_system messages in
      let k = config.preserve_last in
      elim (Bool-cases (leb (length messages) (k + 1))) [
        | inl short ↦ rw short refl
        | inr long ↦
            rw (long, recent_or k body)
              (last_recent k _ messages (ground (arith, length_body messages)))
      ]

  slide_window-last :
      (messages : List Message)
      → last config.preserve_last (slide_window config entries messages)
        ≡ last config.preserve_last messages
  slide_window-last messages =
      let (system, body) = split_system messages in
      let k = config.preserve_last in
      elim (Bool-cases (ltb 0 k)) [
        | inr none ↦ rw none (ap (last k) (whole messages))
        | inl some ↦ elim (Bool-cases (ltb k (length body))) [
          | inl long ↦ rw (some, long) (last_recent k _ messages (ground arith))
          | inr short ↦
              rw (some, short)
                (let all : last k body ≡ body = last_whole k body (ground arith) in
                  rw all (ap (last k) (whole messages)))
        ]
      ]

  drop_results-last :
      (messages : List Message)
      → last config.preserve_last (drop_results config messages)
        ≡ last config.preserve_last messages
  drop_results-last messages =
      drop_from-last config.preserve_last (length messages) 0 messages (omega arith)

  condense_hybrid-last :
      (messages : List Message)
      → last config.preserve_last (condense_hybrid config entries llm messages)
        ≡ last config.preserve_last messages
  condense_hybrid-last messages =
      let dropped = drop_results config messages in
      let first = drop_results-last messages in
      elim (Bool-cases (should_condense dropped config.trigger)) [
        | inl long ↦ rw long (summarise_history-last dropped ∙ first)
        | inr short ↦ rw short first
      ]

  condense_by-last :
      (s : CondensationStrategy) (messages : List Message)
      → last config.preserve_last (condense_by s config entries llm messages)
        ≡ last config.preserve_last messages
  condense_by-last llm_summary messages = summarise_history-last messages
  condense_by-last sliding_window messages = slide_window-last messages
  condense_by-last drop_tool_results messages = drop_results-last messages
  condense_by-last hybrid messages = condense_hybrid-last messages

  -- Whatever the strategy and whatever the model answers, the last `preserve_last` messages of a history
  -- are the last messages of the condensed one, unchanged.
  pub condense-last :
      (messages : List Message)
      → last config.preserve_last (condense config entries llm messages)
        ≡ last config.preserve_last messages
  condense-last messages = condense_by-last config.strategy messages
