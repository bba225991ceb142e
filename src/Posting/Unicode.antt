-- ===== src/Posting/Unicode.antt =====
-- The normalizers of posting/domain/fingerprint.ts and prefilter/domain/title-match.ts. The tables
-- of Unicode are a parameter.
use argos_career.Base.{ℕ, Bool, not, ◌&&◌, ◌||◌, Text, erase, squash, trim, is_space, leb, ◌==◌}

pub record Unicode : Type 0 where
  pub lower : Text → Text  -- `toLowerCase`
  pub nfd : Text → Text  -- `normalize("NFD")`
  pub letter : ℕ → Bool  -- `\p{L}`
  pub number : ℕ → Bool  -- `\p{N}`

abbrev pub is_combining_mark : ℕ → Bool
is_combining_mark c = leb 0x300 c && leb c 0x36f

-- ' ` ´ . - _ + #
abbrev pub is_joining : ℕ → Bool
is_joining c =
    (c == 0x27)
    || (c == 0x60)
    || (c == 0xb4)
    || (c == 0x2e)
    || (c == 0x2d)
    || (c == 0x5f)
    || (c == 0x2b)
    || (c == 0x23)

module _ (u : Unicode) where
  open u use {lower, nfd, letter, number}

  unfoldable pub bare : Text → Text
  unfolding erase
  bare value = erase is_combining_mark (nfd (lower value))

  unfoldable pub normalize : Text → Text
  unfolding bare erase squash trim is_space
  normalize value =
      trim (squash is_space (erase (λ c. not (letter c || number c || is_space c)) (bare value)))

  unfoldable pub normalize_title : Text → Text
  unfolding bare squash trim is_space
  normalize_title value =
      trim (squash is_space (squash (λ c. not (letter c || number c)) (bare value)))

  unfoldable pub normalize_collapsing_joiners : Text → Text
  unfolding bare erase squash trim is_space
  normalize_collapsing_joiners value =
      trim
        (squash is_space (squash (λ c. not (letter c || number c)) (erase is_joining (bare value))))
