-- ===== src/Names/Tests.antt =====
-- Names in short texts, where nothing is normalised and only the space is white.
use proactive_agent.Prelude.{◌≡◌, ◌↔◌, refl, true, false, [], ◌∷◌, ◌==◌}
use proactive_agent.Text.{codes}
use proactive_agent.Names.{
  Unicode, name_occurs, name_hits, checked_names, unchecked_names, mentions_target,
}
use proactive_agent.Names.Occurs.{Occurs, name_occurs-Occurs}

abbrev pub plain : Unicode
plain = record { normalise_for_match = λ text. text; is_space = λ c. c == 32 }

malice_alice : name_occurs (codes "malice alice2") (codes "alice") ≡ true
unfolding name_occurs
malice_alice = refl

malice_only : name_occurs (codes "malice alicea") (codes "alice") ≡ false
unfolding name_occurs
malice_only = refl

two_names :
    name_hits plain (codes "x and é") (codes "é" ∷ codes "é " ∷ codes "x" ∷ []) ≡ codes "é" ∷ []
unfolding name_hits
two_names = refl

one_unchecked : unchecked_names plain (codes "é" ∷ codes "x" ∷ []) ≡ 1
unfolding unchecked_names proactive_agent.Names.is_ascii_name
one_unchecked = refl

one_checked : checked_names plain (codes "é" ∷ codes "x" ∷ []) ≡ codes "é" ∷ []
unfolding checked_names proactive_agent.Names.is_ascii_name
one_checked = refl

no_target : mentions_target plain (codes "malice") (codes "12") (codes "alice" ∷ []) ≡ false
unfolding mentions_target
no_target = refl

malice_alice-Occurs : Occurs (codes "malice alice2") (codes "alice")
malice_alice-Occurs = (name_occurs-Occurs (codes "malice alice2") (codes "alice")).0 malice_alice

name_occurs-Occurs_example :
    (name_occurs (codes "malice alice2") (codes "alice") ≡ true)
    ↔ Occurs (codes "malice alice2") (codes "alice")
name_occurs-Occurs_example = name_occurs-Occurs (codes "malice alice2") (codes "alice")
