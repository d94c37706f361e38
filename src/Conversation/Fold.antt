-- ===== src/Conversation/Fold.antt =====
-- Where src/proactive_agent/agent.py cuts a history, and what its memory note is to the next reader.
use proactive_agent.Prelude.{
  ℕ, zero, suc, ◌+◌, ◌-◌, ◌≤◌, ◌<◌, ◌≡◌, ◌≢◌, refl, select, true, false, Option, none, some, List,
  [], ◌∷◌, ◌++◌, leb, ◌==◌, length, take, drop, Bool-cases, Option-cases, inl, inr, arith,
}
use proactive_agent.Text.{Text}
use proactive_agent.Conversation.Parts.{all_parts}
use proactive_agent.Conversation.Stripped.{is_not_claude_thinking, all_parts-strip_claude_thinking}
use proactive_agent.Conversation.{
  Message, note_before, starts_at, first_start, last_start, or_before, fold_boundary, fold_at,
  memory_note_pair, leading_note_pair, is_summary_only, compact_agent_history, purge_agent_history,
}

-- No turn starts at the indices from `low` on and before `high`.
abbrev pub IsQuiet : List Message → ℕ → ℕ → Type 0
IsQuiet history low high = (i : ℕ) → low ≤ i → i < high → starts_at i history ≡ false

IsQuiet-from :
    (history : List Message) (low high : ℕ)
    → starts_at low history ≡ false
    → IsQuiet history (low + 1) high
    → IsQuiet history low high
IsQuiet-from history low high h rest i below above = elim (Bool-cases (i == low)) [
  | inl same_index ↦ let e : i ≡ low = ground arith in rw e h
  | inr other ↦ rest i (ground arith) above
]

IsQuiet-to :
    (history : List Message) (low high : ℕ)
    → starts_at high history ≡ false
    → IsQuiet history low high
    → IsQuiet history low (suc high)
IsQuiet-to history low high h rest i below above = elim (Bool-cases (i == high)) [
  | inl same_index ↦ let e : i ≡ high = ground arith in rw e h
  | inr other ↦ rest i below (ground arith)
]

data IsFirst (history : List Message) (index count : ℕ) : Option ℕ → Type 0 where
  found :
      (i : ℕ)
      → index ≤ i
      → i < index + count
      → starts_at i history ≡ true
      → IsQuiet history index i
      → IsFirst history index count (some i)
  nowhere : IsQuiet history index (index + count) → IsFirst history index count none

first_start-IsFirst :
    (count index : ℕ) (history : List Message)
    → IsFirst history index count (first_start count index history)
unfolding first_start
first_start-IsFirst zero index history = nowhere (λ i low high. absurd (omega arith))
first_start-IsFirst (suc count) index history = elim (Bool-cases (starts_at index history)) [
  | inl here ↦
      rw here (found index (omega arith) (omega arith) here (λ i low high. absurd (omega arith)))
  | inr not_here ↦ rw not_here (later not_here _ (first_start-IsFirst count (index + 1) history))
]
  where
    later :
        starts_at index history ≡ false
        → (o : Option ℕ) → IsFirst history (index + 1) count o
        → IsFirst history index (suc count) o
    later h o (found i low high starts quiet) =
        found i (omega arith) (omega arith) starts (IsQuiet-from history index i h quiet)
    later h o (nowhere quiet) =
        nowhere
          (λ i low high. IsQuiet-from history index (index + 1 + count) h quiet i low (omega arith))

data IsLast (history : List Message) (n : ℕ) : Option ℕ → Type 0 where
  found :
      (i : ℕ)
      → 0 < i
      → i ≤ n
      → starts_at i history ≡ true
      → IsQuiet history (suc i) (suc n)
      → IsLast history n (some i)
  nowhere : IsQuiet history 1 (suc n) → IsLast history n none

last_start-IsLast : (n : ℕ) (history : List Message) → IsLast history n (last_start n history)
unfolding last_start
last_start-IsLast zero history = nowhere (λ i low high. absurd (omega arith))
last_start-IsLast (suc n) history = elim (Bool-cases (starts_at (suc n) history)) [
  | inl here ↦
      rw here (found (suc n) (omega arith) (omega arith) here (λ i low high. absurd (omega arith)))
  | inr not_here ↦ rw not_here (earlier not_here _ (last_start-IsLast n history))
]
  where
    earlier :
        starts_at (suc n) history ≡ false
        → (o : Option ℕ) → IsLast history n o
        → IsLast history (suc n) o
    earlier h o (found i low high starts quiet) =
        found i low (omega arith) starts (IsQuiet-to history (suc i) (suc n) h quiet)
    earlier h o (nowhere quiet) = nowhere (IsQuiet-to history 1 (suc n) h quiet)

-- Where to cut a history of which `keep` messages should stay: the first start of a turn in the kept
-- tail, or else the last one before it but for the very first message, or else nowhere.
pub data IsBoundary (history : List Message) (keep : ℕ) : Option ℕ → Type 0 where
  in_tail :
      (i : ℕ)
      → length history - keep ≤ i
      → i < length history
      → starts_at i history ≡ true
      → IsQuiet history (length history - keep) i
      → IsBoundary history keep (some i)
  before_tail :
      (i : ℕ)
      → 0 < i
      → i < length history - keep
      → starts_at i history ≡ true
      → IsQuiet history (suc i) (length history)
      → IsBoundary history keep (some i)
  no_turn : IsQuiet history 1 (length history) → IsBoundary history keep none

-- The boundary is the first start of a turn in the tail that should be kept; if there is none, the
-- last start of a turn before it but for the first message; and there is none only if no turn starts
-- after the first message.
pub fold_boundary-IsBoundary :
    (history : List Message) (keep : ℕ) → IsBoundary history keep (fold_boundary history keep)
unfolding fold_boundary or_before
fold_boundary-IsBoundary history keep =
    let ideal = length history - keep in
    by_first _ (first_start-IsFirst (length history - ideal) ideal history)
  where
    joined :
        (low : ℕ)
        → IsQuiet history low (length history - keep - 1 + 1)
        → IsQuiet history (length history - keep) (length history)
        → IsQuiet history low (length history)
    joined low early late i below above = elim (Bool-cases (leb (length history - keep) i)) [
      | inl in_late ↦ late i (ground arith) above
      | inr in_early ↦ early i below (ground arith)
    ]

    by_last :
        IsQuiet history (length history - keep) (length history)
        → (o : Option ℕ) → IsLast history (length history - keep - 1) o
        → IsBoundary history keep o
    by_last late o (found i low high starts quiet) =
        before_tail i low (omega arith) starts
          (joined (suc i) (λ j a b. quiet j a (omega arith)) late)
    by_last late o (nowhere quiet) = no_turn (joined 1 (λ j a b. quiet j a (omega arith)) late)

    by_first :
        (o : Option ℕ)
        → IsFirst history (length history - keep) (length history - (length history - keep)) o
        → IsBoundary history keep (or_before o (length history - keep) history)
    by_first o (found i low high starts quiet) = in_tail i low (omega arith) starts quiet
    by_first o (nowhere quiet) =
        by_last (λ i low high. quiet i low (omega arith)) _
          (last_start-IsLast (length history - keep - 1) history)

-- How compaction ends: the history is short enough, has nothing to fold, or its first part is
-- summarized and the tail starts with a turn.
pub data IsCompacted (tokens : List Message → ℕ) (token_limit : ℕ)
    (summarize : List Message → Option Text) (keep : ℕ) (history : List Message)
    : Option (List Message) → Type 0 where
  small :
      tokens history ≤ token_limit
      → IsCompacted tokens token_limit summarize keep history (some history)
  nothing_to_fold :
      token_limit < tokens history
      → IsBoundary history keep none
      → IsCompacted tokens token_limit summarize keep history (some history)
  starts_in_tail :
      token_limit < tokens history
      → IsBoundary history keep (some 0)
      → IsCompacted tokens token_limit summarize keep history (some history)
  no_summary :
      (cut : ℕ)
      → token_limit < tokens history
      → 0 < cut
      → IsBoundary history keep (some cut)
      → summarize (take cut history) ≡ none
      → IsCompacted tokens token_limit summarize keep history none
  folded :
      (cut : ℕ) (summary : Text) (rest : List Message)
      → token_limit < tokens history
      → 0 < cut
      → IsBoundary history keep (some cut)
      → summarize (take cut history) ≡ some summary
      → all_parts rest ≡ select is_not_claude_thinking (all_parts (drop cut history))
      → IsCompacted tokens token_limit summarize keep history
          (some (memory_note_pair summary ++ rest))

note_before-IsCompacted :
    (tokens : List Message → ℕ) (token_limit : ℕ) (summarize : List Message → Option Text)
    (keep : ℕ) (history : List Message)
    → token_limit < tokens history
    → (n : ℕ) → IsBoundary history keep (some (suc n))
    → (o : Option Text) → summarize (take (suc n) history) ≡ o
    → IsCompacted tokens token_limit summarize keep history (note_before o (drop (suc n) history))
unfolding note_before
note_before-IsCompacted tokens token_limit summarize keep history large n starts none e =
    no_summary (suc n) large (omega arith) starts e
note_before-IsCompacted tokens token_limit summarize keep history large n starts (some summary) e =
    folded (suc n) summary _ large (omega arith) starts e
      (all_parts-strip_claude_thinking (drop (suc n) history))

fold_at-IsCompacted :
    (tokens : List Message → ℕ) (token_limit : ℕ) (summarize : List Message → Option Text)
    (keep : ℕ) (history : List Message)
    → token_limit < tokens history
    → (o : Option ℕ) → IsBoundary history keep o
    → IsCompacted tokens token_limit summarize keep history (fold_at summarize history o)
unfolding fold_at
fold_at-IsCompacted tokens token_limit summarize keep history large none b = nothing_to_fold large b
fold_at-IsCompacted tokens token_limit summarize keep history large (some zero) b =
    starts_in_tail large b
fold_at-IsCompacted tokens token_limit summarize keep history large (some (suc n)) b =
    note_before-IsCompacted tokens token_limit summarize keep history large n b _ refl

-- Compaction leaves a history alone that is within the limit, or whose boundary leaves nothing to
-- fold. Otherwise it replaces what comes before the boundary by the note of its summary, and keeps
-- every part of the rest, in order, but for Claude's thinking; it fails if the summary does.
pub compact_agent_history-IsCompacted :
    (tokens : List Message → ℕ) (token_limit : ℕ) (summarize : List Message → Option Text)
    (keep : ℕ) (history : List Message)
    → IsCompacted tokens token_limit summarize keep history
        (compact_agent_history tokens token_limit summarize keep history)
unfolding compact_agent_history
compact_agent_history-IsCompacted tokens token_limit summarize keep history =
    elim (Bool-cases (leb (tokens history) token_limit)) [
      | inl fits ↦ rw fits (small (ground arith))
      | inr large ↦ rw large (
          fold_at-IsCompacted tokens token_limit summarize keep history (ground arith) _
            (fold_boundary-IsBoundary history keep))
    ]

-- If the history that a purge folds is not empty, the fold's result is a note alone, and reading the
-- leading note back gives the whole result.
pub purge_agent_history-is_summary_only :
    (summarize : List Message → Option Text) (history out : List Message)
    → history ≢ []
    → purge_agent_history summarize history ≡ some out
    → (is_summary_only out ≡ true) × (leading_note_pair out ≡ some out)
unfolding purge_agent_history is_summary_only
purge_agent_history-is_summary_only summarize [] out h e = absurd (h refl)
purge_agent_history-is_summary_only summarize (m ∷ history) out h e =
    elim (Option-cases (summarize (m ∷ history))) [
      | inl failed ↦ absurd (ground (arith, failed, e))
      | inr (summary, s) ↦
          let found : out ≡ memory_note_pair summary = ground (arith, s, e) in rw found (refl, refl)
    ]
