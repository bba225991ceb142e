-- ===== src/Scoring/PeriodGate.antt =====
-- src/scoring/domain/period-gate.ts. A regular expression is a function to all its matches from a
-- point, in the order in which a backtracking matcher tries them: the captured text and the rest.
use argos_career.Base.{
  is_space, ℕ, ◌-◌, ◌+◌, ◌*◌, Bool, true, false, ◌&&◌, ◌||◌, Text, codes, List, [], ◌∷◌, ◌++◌, map,
  Option, none, some, if◌then◌else◌, leb, ◌==◌, ◌≡◌, refl,
}
use mathlib.Core.List.{flat_map}
use argos_career.Profile.Period.{AcademicPeriod, not_started, in_progress, completed}
use argos_career.Scoring.Types.{Requirement, PeriodGate}

abbrev pub Matcher : Type 0
Matcher = Text → List (Text × Text)

-- Two characters under the flag `i`: one letter in either case. The patterns' only letter outside
-- ASCII is the accented i.
abbrev fold_case : ℕ → ℕ
fold_case c = if (leb b'A' c && leb c b'Z') || (c == 0xcd) then c + 32 else c

infixr 66 ◌⨟◌
unfoldable pub ◌⨟◌ : Matcher → Matcher → Matcher
unfolding flat_map
◌⨟◌ m k s =
    flat_map (λ (p : Text × Text). map (λ (q : Text × Text). (p.0 ++ q.0, q.1)) (k p.1)) (m s)

-- One character of a class.
unfoldable pub one_of : Text → Matcher
one_of [] s = []
one_of (c ∷ cs) [] = []
one_of (c ∷ cs) (d ∷ s) = if fold_case c == fold_case d then ([], s) ∷ [] else one_of cs (d ∷ s)

unfoldable pub literal : Text → Matcher
literal [] s = ([], s) ∷ []
literal (c ∷ cs) [] = []
literal (c ∷ cs) (d ∷ s) = if fold_case c == fold_case d then literal cs s else []

-- `m?`, greedy.
unfoldable pub optional : Matcher → Matcher
optional m s = m s ++ ([], s) ∷ []

-- `\s*`, greedy.
unfoldable pub spaces : Matcher
unfolding is_space
spaces [] = ([], []) ∷ []
spaces (c ∷ s) =
    let more = spaces s in if is_space c then more ++ ([], c ∷ s) ∷ [] else ([], c ∷ s) ∷ []

abbrev pub is_digit : ℕ → Bool
is_digit c = leb b'0' c && leb c b'9'

-- `(\d{1,2})`, greedy, captured.
unfoldable pub digits : Matcher
digits [] = []
digits (c ∷ []) = if is_digit c then (c ∷ [], []) ∷ [] else []
digits (c ∷ d ∷ s) =
    if is_digit c
    then (if is_digit d then (c ∷ d ∷ [], s) ∷ (c ∷ [], d ∷ s) ∷ [] else (c ∷ [], d ∷ s) ∷ [])
    else []

-- `RegExp.prototype.exec`: the first match at the first place that has one; its capture.
unfoldable pub exec : Matcher → Text → Option Text
exec m [] = elim (m []) [ [] ↦ none | p ∷ _ ↦ some p.0 ]
exec m (c ∷ s) = let later = exec m s in elim (m (c ∷ s)) [ [] ↦ later | p ∷ _ ↦ some p.0 ]

abbrev ordinal_mark : Text
ordinal_mark = 0xba ∷ b'o' ∷ 0xb0 ∷ []

abbrev period_word : Matcher
period_word = literal (codes "per") ⨟ one_of (b'i' ∷ 0xed ∷ []) ⨟ literal (codes "odo")

unfoldable pub period_patterns : List Matcher
unfolding ◌⨟◌ one_of literal optional spaces digits
period_patterns =
    (literal (codes "a partir do")
      ⨟ spaces
      ⨟ digits
      ⨟ spaces
      ⨟ optional (one_of ordinal_mark)
      ⨟ spaces
      ⨟ period_word)
    ∷ (digits
        ⨟ spaces
        ⨟ optional (one_of ordinal_mark)
        ⨟ spaces
        ⨟ period_word
        ⨟ optional (literal (codes "s"))
        ⨟ spaces
        ⨟ literal (codes "em diante"))
    ∷ (literal (codes "a partir do")
        ⨟ spaces
        ⨟ digits
        ⨟ spaces
        ⨟ optional (one_of ordinal_mark)
        ⨟ spaces
        ⨟ literal (codes "semestre"))
    ∷ (literal (codes "semestre")
        ⨟ spaces
        ⨟ literal (codes "exigido")
        ⨟ spaces
        ⨟ optional (literal (codes ":"))
        ⨟ spaces
        ⨟ digits)
    ∷ []

-- `Number.parseInt` of a text of digits.
abbrev parse_from : ℕ → Text → ℕ
parse_from acc [] = acc
parse_from acc (c ∷ s) = parse_from (acc * 10 + (c - b'0')) s

-- The loop of `extractMinimumPeriod`.
unfoldable pub extract_from : List Matcher → Text → Option ℕ
unfolding exec
extract_from [] text = none
extract_from (pattern_ ∷ rest) text =
    let later = extract_from rest text in
    elim (exec pattern_ text) [
      | none ↦ later
      | some captured ↦
          let value = parse_from 0 captured in
          if leb 1 value && leb value 8 then some value else later
    ]

unfoldable pub extract_minimum_period : Text → Option ℕ
unfolding extract_from period_patterns
extract_minimum_period text = extract_from period_patterns text

-- The candidate is at the period already, or past the course.
unfoldable pub gate_passed : AcademicPeriod → ℕ → Bool
gate_passed not_started minimum_period = false
gate_passed (in_progress period) minimum_period = leb minimum_period period
gate_passed completed minimum_period = true

unfoldable pub gate_of : Requirement → AcademicPeriod → (ℕ → Text) → Option PeriodGate
unfolding gate_passed
gate_of only_failure current_period opens_at_label =
    elim (extract_minimum_period only_failure.text) [
      | none ↦ none
      | some minimum_period ↦
          if gate_passed current_period minimum_period
          then none
          else some (record {
            minimum_period = minimum_period;
            opens_at_label = opens_at_label minimum_period;
          })
    ]

unfoldable pub detect_period_gate :
    List Requirement → AcademicPeriod → (ℕ → Text) → Option PeriodGate
unfolding gate_of
detect_period_gate [] current_period opens_at_label = none
detect_period_gate (failure ∷ []) current_period opens_at_label =
    gate_of failure current_period opens_at_label
detect_period_gate (failure ∷ other ∷ rest) current_period opens_at_label = none

-- The phrasings of the patterns, and one without a trigger phrase.
patterns_run :
    (extract_minimum_period (codes "Cursando a partir do 4º período") ≡ some 4)
    × (extract_minimum_period (codes "5º Períodos em diante") ≡ some 5)
    × (extract_minimum_period (codes "a partir do 3 semestre") ≡ some 3)
    × (extract_minimum_period (codes "Semestre exigido: 6") ≡ some 6)
    × (extract_minimum_period (codes "4º período") ≡ none)
    × (extract_minimum_period (codes "a partir do 12º período") ≡ none)
unfolding extract_minimum_period
patterns_run = (refl, refl, refl, refl, refl, refl)
