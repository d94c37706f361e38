-- ===== src/Conversation/Stripped.antt =====
-- What strip_claude_thinking of src/proactive_agent/agent.py leaves of a conversation.
use proactive_agent.Prelude.{
  ℕ, ◌+◌, ◌≡◌, refl, ap, ◌∙◌, Bool, true, false, not, ◌&&◌, List, [], ◌∷◌, leb, map, select,
  select-append, Bool-cases, inl, inr, arith,
}
use proactive_agent.Text.{Text}
use proactive_agent.Conversation.{
  RequestPart, ResponsePart, Message, request, response, thinking, text, tool_call, Drops, left,
  is_claude_thinking, strip_claude_thinking,
}
use proactive_agent.Conversation.Parts.{Part, all_parts, surviving, all_parts-without_parts}

abbrev pub is_not_claude_thinking : Part → Bool
is_not_claude_thinking (inl part) = true
is_not_claude_thinking (inr (thinking true content)) = false
is_not_claude_thinking (inr (thinking false content)) = true
is_not_claude_thinking (inr _) = true

select-requests :
    (parts : List RequestPart)
    → select is_not_claude_thinking (map (λ p. inl p) parts) ≡ map (λ p. inl p) parts
select-requests [] = refl
select-requests (p ∷ parts) = ap (◌∷◌ (inl p)) (select-requests parts)

-- which parts are stripped, at any index
abbrev stripped : Drops
stripped index name part = leb 0 index && is_claude_thinking part

keeps-part :
    (index : ℕ) (name : Text) (p : ResponsePart)
    → not (stripped index name p) ≡ is_not_claude_thinking (inr p)
keeps-part index name (thinking true content) = ground arith
keeps-part index name (thinking false content) = ground arith
keeps-part index name (text content) = ground arith
keeps-part index name (tool_call n content) = ground arith

left-stripped :
    (index : ℕ) (name : Text) (parts : List ResponsePart)
    → map (λ p. inr p) (left stripped index name parts)
      ≡ select is_not_claude_thinking (map (λ p. inr p) parts)
left-stripped index name [] = refl
left-stripped index name (p ∷ parts) = elim (Bool-cases (is_not_claude_thinking (inr p))) [
  | inl keep ↦
      let e = keeps-part index name p ∙ keep in
      rw (e, keep) (ap (◌∷◌ (inr p)) (left-stripped index name parts))
  | inr gone ↦
      let e = keeps-part index name p ∙ gone in rw (e, gone) (left-stripped index name parts)
]

surviving-stripped :
    (index : ℕ) (ms : List Message)
    → surviving stripped index ms ≡ select is_not_claude_thinking (all_parts ms)
unfolding surviving all_parts
surviving-stripped index [] = refl
surviving-stripped index (request parts i ∷ ms) =
    rw
      (
        surviving-stripped (index + 1) ms,
        select-append is_not_claude_thinking (map (λ p. inl p) parts) (all_parts ms),
        select-requests parts,
      )
      refl
surviving-stripped index (response parts name ∷ ms) =
    rw
      (
        surviving-stripped (index + 1) ms,
        select-append is_not_claude_thinking (map (λ p. inr p) parts) (all_parts ms),
        left-stripped index name parts,
      )
      refl

pub all_parts-strip_claude_thinking :
    (ms : List Message)
    → all_parts (strip_claude_thinking 0 ms) ≡ select is_not_claude_thinking (all_parts ms)
unfolding strip_claude_thinking
all_parts-strip_claude_thinking ms = all_parts-without_parts stripped ms ∙ surviving-stripped 0 ms
