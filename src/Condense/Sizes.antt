-- ===== src/Condense/Sizes.antt =====
-- How long a condensed history is, and how it begins.
use diff_graph.Base.{
  Bool-cases, List, [], all_but_last, ap, arith, inl, inr, last, last_whole, leb, length,
  length-append, length-last, ltb, refl, true, ◌++◌, ◌+◌, ◌<◌, ◌∙◌, ◌∷◌, ◌≡◌, ◌≤◌, ◌⊎◌,
}
use diff_graph.Condense.{
  CondensationConfig, CondensationStrategy, Summarise, condense, condense_by, drop_results,
  drop_tool_results, header_for, hybrid, llm_summary, should_condense, slide_window, sliding_window,
  split_system, summarise_history,
}
use diff_graph.Condense.Recent.{drop_from-length, length_body}
use diff_graph.Messages.{Message, has_role}
use diff_graph.Sgr.{SgrEntry}

module _ (config : CondensationConfig) (entries : List SgrEntry) (llm : Summarise) where
  system_short :
      (messages : List Message)
      → length (split_system messages).0 + length (split_system messages).1 ≡ length messages
  system_short [] = omega arith
  system_short (m ∷ messages) = ground arith

  length-header : (dropped : List Message) → length (header_for config entries dropped) ≤ 1
  length-header [] = omega arith
  length-header (m ∷ dropped) = omega arith

  length-join : (a b c : List Message) → length (a ++ b ++ c) ≡ length a + length b + length c
  length-join a b c = omega (arith, length-append (a ++ b) c, length-append a b)

  length-summarise :
      (messages : List Message)
      → 0 < config.preserve_last
      → (length (summarise_history config entries llm messages) ≤ length messages)
        × (length (summarise_history config entries llm messages) ≤ config.preserve_last + 2)
  length-summarise messages h =
      let (system, body) = split_system messages in
      let k = config.preserve_last in
      let some : ltb 0 k ≡ true = ground arith in
      let parts = system_short messages in
      let most = length_body messages in
      elim (Bool-cases (leb (length messages) (k + 1))) [
        | inl short ↦ rw short (ground arith)
        | inr long ↦
            let enough : k ≤ length body = ground (arith, most) in
            rw (long, some, length-join system (_ ∷ []) (last k body), length-last k body enough)
              (ground (arith, parts, most))
      ]

  length-slide :
      (messages : List Message)
      → 0 < config.preserve_last
      → (length (slide_window config entries messages) ≤ length messages)
        × (length (slide_window config entries messages) ≤ config.preserve_last + 2)
  length-slide messages h =
      let (system, body) = split_system messages in
      let k = config.preserve_last in
      let some : ltb 0 k ≡ true = ground arith in
      let parts = system_short messages in
      let most = length_body messages in
      elim (Bool-cases (ltb k (length body))) [
        | inl long ↦
            let header = header_for config entries (all_but_last k body) in
            let enough : k ≤ length body = ground arith in
            rw (some, long, length-join system header (last k body), length-last k body enough)
              (ground (arith, parts, most, length-header (all_but_last k body)))
        | inr short ↦
            rw (some, short, length-join system [] (last k body), last_whole k body (ground arith))
              (ground (arith, parts, most))
      ]

  length-drop_results :
      (messages : List Message) → length (drop_results config messages) ≡ length messages
  length-drop_results messages = drop_from-length config.preserve_last (length messages) 0 messages

  length-condense_by :
      (s : CondensationStrategy) (messages : List Message)
      → 0 < config.preserve_last
      → (length (condense_by s config entries llm messages) ≤ length messages)
        × ((s ≡ drop_tool_results)
            ⊎ (s ≡ hybrid)
            ⊎ (length (condense_by s config entries llm messages) ≤ config.preserve_last + 2))
  length-condense_by llm_summary messages h =
      let (a, b) = length-summarise messages h in (a, inr (inr b))
  length-condense_by sliding_window messages h =
      let (a, b) = length-slide messages h in (a, inr (inr b))
  length-condense_by drop_tool_results messages h =
      (omega (arith, length-drop_results messages), inl refl)
  length-condense_by hybrid messages h =
      let dropped = drop_results config messages in
      let same = length-drop_results messages in
      elim (Bool-cases (should_condense dropped config.trigger)) [
        | inl long ↦ rw long (omega (arith, same, (length-summarise dropped h).0), inr (inl refl))
        | inr short ↦ rw short (omega (arith, same), inr (inl refl))
      ]

  -- A strategy that keeps at least one message never makes a history longer. The summary and the sliding
  -- window leave at most the system message, one message for the old ones, and those kept.
  pub length-condense :
      (messages : List Message)
      → 0 < config.preserve_last
      → (length (condense config entries llm messages) ≤ length messages)
        × ((config.strategy ≡ drop_tool_results)
            ⊎ (config.strategy ≡ hybrid)
            ⊎ (length (condense config entries llm messages) ≤ config.preserve_last + 2))
  length-condense messages h = length-condense_by config.strategy messages h

  summarise-system :
      (m : Message) (messages : List Message)
      → has_role "system" m ≡ true
      → (rest : List Message) × (summarise_history config entries llm (m ∷ messages) ≡ m ∷ rest)
  summarise-system m messages h =
      elim (Bool-cases (leb (length (m ∷ messages)) (config.preserve_last + 1))) [
        | inl short ↦ rw short (messages, refl)
        | inr long ↦ rw (long, h) (_, refl)
      ]

  drop-system :
      (m : Message) (messages : List Message)
      → has_role "system" m ≡ true
      → (rest : List Message) × (drop_results config (m ∷ messages) ≡ m ∷ rest)
  drop-system m messages h = rw h (_, refl)

  condense_by_system :
      (s : CondensationStrategy) (m : Message) (messages : List Message)
      → has_role "system" m ≡ true
      → (rest : List Message) × (condense_by s config entries llm (m ∷ messages) ≡ m ∷ rest)
  condense_by_system llm_summary m messages h = summarise-system m messages h
  condense_by_system sliding_window m messages h = rw h (_, refl)
  condense_by_system drop_tool_results m messages h = drop-system m messages h
  condense_by_system hybrid m messages h =
      let dropped = drop_results config (m ∷ messages) in
      let (rest, first) = drop-system m messages h in
      let (after, again) = summarise-system m rest h in
      elim (Bool-cases (should_condense dropped config.trigger)) [
        | inl long ↦ rw long (after, ap (summarise_history config entries llm) first ∙ again)
        | inr short ↦ rw short (rest, first)
      ]

  -- A history that begins with the system message still does after condensation, whatever the strategy.
  pub condense_system :
      (m : Message) (messages : List Message)
      → has_role "system" m ≡ true
      → (rest : List Message) × (condense config entries llm (m ∷ messages) ≡ m ∷ rest)
  condense_system m messages h = condense_by_system config.strategy m messages h
