-- ===== src/Llm/Normalize.antt =====
-- `normalizeModelOutput` of src/scoring/infrastructure/llm-output.ts. JSON.parse is an argument: the
-- texts that it takes.
use argos_career.Base.{
  ℕ, suc, ◌+◌, ◌-◌, Bool, ◌&&◌, ◌||◌, Option, none, some, List, [], ◌∷◌, Text, codes, same,
  starts_with, trim, leb, ltb, ◌==◌, if◌then◌else◌, take, drop,
}

-- `String.prototype.indexOf`, `lastIndexOf` and `slice`, of one character.

unfoldable pub index_of : ℕ → Text → Option ℕ
index_of c [] = none
index_of c (d ∷ s) =
    if d == c then some 0 else elim (index_of c s) [ none ↦ none | some i ↦ some (suc i) ]

unfoldable pub last_index_of : ℕ → Text → Option ℕ
last_index_of c [] = none
last_index_of c (d ∷ s) = elim (last_index_of c s) [
  | some i ↦ some (suc i)
  | none ↦ (if d == c then some 0 else none)
]

abbrev pub slice : ℕ → ℕ → Text → Text
slice from to s = take (to - from) (drop from s)

abbrev is_letter : ℕ → Bool
is_letter c = (leb b'a' c && leb c b'z') || (leb b'A' c && leb c b'Z')

unfoldable pub skip_letters : Text → Text
skip_letters [] = []
skip_letters (c ∷ s) = if is_letter c then skip_letters s else c ∷ s

unfoldable pub skip_newline : Text → Text
skip_newline [] = []
skip_newline (c ∷ s) = if c == 10 then s else c ∷ s

-- The two alternatives of `FENCE_PATTERN`.

unfoldable pub strip_opening_fence : Text → Text
unfolding skip_letters skip_newline
strip_opening_fence s =
    if starts_with s (codes "```") then skip_newline (skip_letters (drop 3 s)) else s

unfoldable pub strip_closing_fence : Text → Text
strip_closing_fence [] = []
strip_closing_fence (c ∷ s) =
    if same (c ∷ s) (10 ∷ codes "```") || same (c ∷ s) (codes "```")
    then []
    else c ∷ strip_closing_fence s

-- `sliceFrom`, of a start that the character `open_char` stands at.
unfoldable pub slice_from : Text → ℕ → ℕ → Option Text
unfolding last_index_of
slice_from s open_char start = elim (last_index_of (if open_char == b'{' then b'}' else b']') s) [
  | none ↦ none
  | some end ↦ (if ltb end start then none else some (slice start (end + 1) s))
]

-- The starts that exist, the earlier one first.
unfoldable pub ordered_starts : Option ℕ → Option ℕ → List (ℕ × ℕ)
ordered_starts none none = []
ordered_starts (some brace) none = (b'{', brace) ∷ []
ordered_starts none (some bracket) = (b'[', bracket) ∷ []
ordered_starts (some brace) (some bracket) =
    if leb brace bracket
    then (b'{', brace) ∷ (b'[', bracket) ∷ []
    else (b'[', bracket) ∷ (b'{', brace) ∷ []

abbrev pub cons_some {ℓ} : {A : Type ℓ} → Option A → List A → List A
cons_some none xs = xs
cons_some (some x) xs = x ∷ xs

unfoldable pub slices_of : Text → List (ℕ × ℕ) → List Text
unfolding slice_from
slices_of s [] = []
slices_of s ((open_char, start) ∷ starts) =
    cons_some (slice_from s open_char start) (slices_of s starts)

-- The first slice that parses; else the first slice; else the text.

unfoldable pub first_parsing : (Text → Bool) → List Text → Option Text
first_parsing parses [] = none
first_parsing parses (s ∷ ss) = if parses s then some s else first_parsing parses ss

unfoldable pub chosen : (Text → Bool) → Text → List Text → Text
unfolding first_parsing
chosen parses s [] = s
chosen parses s (slice ∷ slices) = elim (first_parsing parses (slice ∷ slices)) [
  | some found ↦ found
  | none ↦ slice
]

unfoldable pub without_fences : Text → Text
unfolding trim strip_opening_fence strip_closing_fence
without_fences raw = trim (strip_closing_fence (strip_opening_fence (trim raw)))

unfoldable pub normalize_model_output : (Text → Bool) → Text → Text
unfolding without_fences index_of ordered_starts slices_of chosen
normalize_model_output parses raw =
    let bare = without_fences raw in
    chosen parses bare (slices_of bare (ordered_starts (index_of b'{' bare) (index_of b'[' bare)))
