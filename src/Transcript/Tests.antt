-- ===== src/Transcript/Tests.antt =====
-- Tags of a few speakers, one of whom is blocked.
use proactive_agent.Prelude.{ℕ, ◌+◌, ◌≡◌, refl, true, false, some, List, [], ◌∷◌}
use proactive_agent.Text.{codes}
use proactive_agent.Transcript.{Record, letter_tag, tag_of, speaker_tags}
use proactive_agent.Transcript.Tags.{tag_value, tag_value-letter_tag, speaker_tags-distinct}

first_with_two : letter_tag 26 ≡ codes "AA"
unfolding letter_tag
first_with_two = refl

abbrev by : ℕ → Record
by n = record { author_id = n; is_blocked = false }

abbrev records : List Record
records = by 7 ∷ record { author_id = 8; is_blocked = true } ∷ by 9 ∷ by 7 ∷ []

second_speaker : tag_of 9 (speaker_tags records) ≡ some (codes "B")
unfolding speaker_tags
second_speaker = refl

tag_value-letter_tag_example : tag_value 0 (letter_tag 700) ≡ 700 + 1
tag_value-letter_tag_example = tag_value-letter_tag 700

speaker_tags-distinct_example : ◌≡◌ {A = ℕ} 9 9
speaker_tags-distinct_example =
    speaker_tags-distinct records 9 9 (codes "B") second_speaker second_speaker
