-- ===== src/Dedup/TitleSimilarity.antt =====
-- src/posting/domain/title-similarity.ts.
use argos_career.Base.{
  ℕ, zero, suc, ◌+◌, ◌-◌, ◌*◌, ◌/◌, ◌%◌, Bool, true, false, not, ◌&&◌, ◌||◌, ◌++◌, Text, codes,
  contains, squash, trim, is_space, is_empty, Dict, lookup, insert, or_else, List, [], ◌∷◌, filter,
  map, length, sort, ltb, ◌==◌, if◌then◌else◌,
}
use argos_career.Scoring.Number.{Double}
use argos_career.Posting.Unicode.{Unicode, bare}

abbrev pub stopwords : List Text
stopwords =
    codes "estagio"
    ∷ codes "estagiario"
    ∷ codes "estagiaria"
    ∷ codes "trainee"
    ∷ codes "pessoa"
    ∷ codes "vaga"
    ∷ codes "de"
    ∷ codes "em"
    ∷ codes "para"
    ∷ codes "na"
    ∷ codes "no"
    ∷ codes "um"
    ∷ codes "uma"
    ∷ codes "e"
    ∷ codes "a"
    ∷ codes "o"
    ∷ []

-- `split(" ")` and `join(" ")`; the first argument holds the token so far.

unfoldable pub split_from : Text → Text → List Text
split_from token [] = token ∷ []
split_from token (c ∷ s) =
    if c == 0x20 then token ∷ split_from [] s else split_from (token ++ (c ∷ [])) s

unfoldable pub split_words : Text → List Text
unfolding split_from
split_words s = split_from [] s

unfoldable pub join_words : List Text → Text
join_words [] = []
join_words (t ∷ []) = t
join_words (t ∷ u ∷ ts) = t ++ (0x20 ∷ join_words (u ∷ ts))

-- The UTF-16 units of a text, which `length`, `slice` and `sort` see.
unfoldable pub units : Text → List ℕ
units [] = []
units (c ∷ s) =
    let rest = units s in
    if ltb c 0x10000
    then c ∷ rest
    else (0xd800 + (c - 0x10000) / 1024) ∷ (0xdc00 + (c - 0x10000) % 1024) ∷ rest

unfoldable pub units_before : List ℕ → List ℕ → Bool
units_before [] [] = false
units_before [] (b ∷ t) = true
units_before (a ∷ s) [] = false
units_before (a ∷ s) (b ∷ t) = ltb a b || ((a == b) && units_before s t)

unfoldable pub bigrams_from : ℕ → List ℕ → List Text
bigrams_from a [] = []
bigrams_from a (b ∷ s) = (a ∷ b ∷ []) ∷ bigrams_from b s

unfoldable pub bigrams : List ℕ → List Text
unfolding bigrams_from
bigrams [] = []
bigrams (a ∷ []) = (a ∷ []) ∷ []
bigrams (a ∷ b ∷ s) = bigrams_from a (b ∷ s)

-- `countsB`, and the loop over the bigrams of the other title.

unfoldable pub count_bigrams : List Text → Dict ℕ → Dict ℕ
unfolding lookup insert
count_bigrams [] counts = counts
count_bigrams (b ∷ bs) counts = count_bigrams bs (insert b (or_else (lookup b counts) 0 + 1) counts)

unfoldable pub intersection_size : List Text → Dict ℕ → ℕ
unfolding lookup insert
intersection_size [] counts = 0
intersection_size (b ∷ bs) counts = elim (or_else (lookup b counts) 0) [
  | zero ↦ intersection_size bs counts
  | suc remaining ↦ suc (intersection_size bs (insert b remaining counts))
]

module _ (u : Unicode) where
  unfoldable pub normalize_for_similarity : Text → Text
  unfolding bare squash trim is_space
  normalize_for_similarity value = trim (
      squash is_space
        (map (λ c. if u.letter c || u.number c || is_space c then c else 0x20) (bare u value)))

  unfoldable pub significant_tokens : Text → List Text
  unfolding normalize_for_similarity split_words
  significant_tokens title =
      filter (λ t. not (is_empty t) && not (contains stopwords t))
        (split_words (normalize_for_similarity title))

  unfoldable pub significant : Text → List ℕ
  unfolding significant_tokens join_words units units_before sort
  significant title =
      units (join_words (sort (λ a b. units_before (units a) (units b)) (significant_tokens title)))

  unfoldable pub shared_bigrams : Text → Text → ℕ
  unfolding significant bigrams count_bigrams intersection_size
  shared_bigrams a b =
      intersection_size (bigrams (significant a)) (count_bigrams (bigrams (significant b)) [])

  unfoldable pub bigram_count : Text → ℕ
  unfolding significant bigrams
  bigram_count title = length (bigrams (significant title))

  unfoldable pub compute_title_similarity : {D : Type 0} ⦃d : Double D⦄ → Text → Text → D
  unfolding shared_bigrams bigram_count significant
  compute_title_similarity ⦃d⦄ a b =
      if is_empty (significant a) && is_empty (significant b)
      then d.of_nat 0
      else d.div (d.of_nat (2 * shared_bigrams a b)) (d.of_nat (bigram_count a + bigram_count b))
