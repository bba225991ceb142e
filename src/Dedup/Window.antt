-- ===== src/Dedup/Window.antt =====
-- What the moving window of dedup-similar-postings.ts compares a posting with.
use argos_career.Base.{
  ℕ, zero, suc, ◌+◌, ◌-◌, ◌≤◌, ◌≡◌, refl, sym, ap, ◌∙◌, Bool, true, false, ◌++◌, List, [], ◌∷◌,
  filter, length, drop, All, Bool-cases, inl, inr, IsRanked, arith,
}
use argos_career.Posting.Posting.{Posting}
use argos_career.Dedup.Similar.{
  within_window, outside_prefix, window_start, candidates_of, max, seen_before,
}

zero_left : (n : ℕ) → 0 + n ≡ n
zero_left n = omega arith

suc_left : (m n : ℕ) → suc m + n ≡ suc (m + n)
suc_left m n = omega arith

module _ {A : Type 0} where
  drop_nil : (n : ℕ) → drop {A = A} n [] ≡ []
  drop_nil zero = refl
  drop_nil (suc n) = refl

  drop-drop : (m n : ℕ) (xs : List A) → drop (m + n) xs ≡ drop n (drop m xs)
  drop-drop zero n xs = ap (λ k. drop k xs) (zero_left n)
  drop-drop (suc m) n [] = drop_nil (suc m + n) ∙ sym (drop_nil n)
  drop-drop (suc m) n (x ∷ xs) = ap (λ k. drop k (x ∷ xs)) (suc_left m n) ∙ drop-drop m n xs

  pub length-drop : (n : ℕ) (xs : List A) → length (drop n xs) ≡ length xs - n
  length-drop zero xs = omega arith
  length-drop (suc n) [] = omega arith
  length-drop (suc n) (x ∷ xs) = omega (arith, length-drop n xs)

  drop-append : (n : ℕ) (xs ys : List A) → n ≤ length xs → drop n (xs ++ ys) ≡ drop n xs ++ ys
  drop-append zero xs ys h = refl
  drop-append (suc n) [] ys h = absurd (omega (arith, h))
  drop-append (suc n) (x ∷ xs) ys h = drop-append n xs ys (omega arith)

  filter-append : (p : A → Bool) (xs ys : List A) → filter p (xs ++ ys) ≡ filter p xs ++ filter p ys
  filter-append p [] ys = refl
  filter-append p (x ∷ xs) ys = ground (arith, filter-append p xs ys)

  -- The last elements of a list.
  abbrev pub last_of : ℕ → List A → List A
  last_of n xs = drop (length xs - n) xs

-- The postings that `withinWindow` accepts for an instant.
abbrev pub in_window : ℕ → ℕ → List Posting → List Posting
in_window now window_days seen = filter (λ p. within_window p.first_seen_at now window_days) seen

abbrev pub AreUntil : ℕ → List Posting → Type 0
AreUntil now ps = All (λ (p : Posting). p.first_seen_at ≤ now) ps

drop-AreUntil : (n now : ℕ) (ps : List Posting) → AreUntil now ps → AreUntil now (drop n ps)
drop-AreUntil zero now ps h = h
drop-AreUntil (suc n) now [] h = h
drop-AreUntil (suc n) now (p ∷ ps) h = drop-AreUntil n now ps h.1

drop-IsRanked :
    (n : ℕ) (ps : List Posting) → IsRanked seen_before ps → IsRanked seen_before (drop n ps)
drop-IsRanked zero ps h = h
drop-IsRanked (suc n) [] h = h
drop-IsRanked (suc n) (p ∷ ps) h = drop-IsRanked n ps h.1

in_window_whole :
    (now days : ℕ) (p : Posting) (ps : List Posting)
    → within_window p.first_seen_at now days ≡ true
    → All (λ (q : Posting). seen_before q p ≡ false) ps
    → AreUntil now ps
    → in_window now days ps ≡ ps
unfolding within_window
in_window_whole now days p [] e ranked until = refl
in_window_whole now days p (q ∷ qs) e ranked until =
    ground (arith, ranked.0, until.0, in_window_whole now days p qs e ranked.1 until.1)

drop-outside_prefix :
    (now days : ℕ) (ps : List Posting)
    → IsRanked seen_before ps
    → AreUntil now ps
    → drop (outside_prefix now days ps) ps ≡ in_window now days ps
unfolding outside_prefix
drop-outside_prefix now days [] ranked until = refl
drop-outside_prefix now days (p ∷ ps) ranked until =
    elim (Bool-cases (within_window p.first_seen_at now days)) [
      | inl e ↦ rw e (ap (◌∷◌ p) (sym (in_window_whole now days p ps e ranked.0 until.1)))
      | inr e ↦ rw e (drop-outside_prefix now days ps ranked.1 until.1)
    ]

length-outside_prefix : (now days : ℕ) (ps : List Posting) → outside_prefix now days ps ≤ length ps
unfolding outside_prefix
length-outside_prefix now days [] = omega arith
length-outside_prefix now days (p ∷ ps) = ground (arith, length-outside_prefix now days ps)

-- What is outside the window stays outside for the later postings.
in_window-in_window :
    (now later days : ℕ) (ps : List Posting)
    → now ≤ later
    → AreUntil now ps
    → in_window later days (in_window now days ps) ≡ in_window later days ps
unfolding within_window
in_window-in_window now later days [] h until = refl
in_window-in_window now later days (p ∷ ps) h until =
    ground (arith, until.0, in_window-in_window now later days ps h until.1)

pub candidates_of-last_of :
    (start most : ℕ) (seen : List Posting)
    → start ≤ length seen
    → candidates_of start most seen ≡ last_of most (drop start seen)
unfolding candidates_of
candidates_of-last_of start most seen h =
    ap (λ n. drop n seen) same_start ∙ drop-drop start (length (drop start seen) - most) seen
  where
    same_start : max start (length seen - most) ≡ start + (length (drop start seen) - most)
    same_start = rw (length-drop start seen) (ground (arith, h))

module _ {A : Type 0} where
  All-append {ℓ} : (P : A → Type ℓ) (xs ys : List A) → All P (xs ++ ys) → All P xs × All P ys
  All-append P [] ys h = (tt, h)
  All-append P (x ∷ xs) ys h = let rest = All-append P xs ys h.1 in ((h.0, rest.0), rest.1)

  length-append_one : (xs : List A) (y : A) → length (xs ++ (y ∷ [])) ≡ suc (length xs)
  length-append_one [] y = refl
  length-append_one (x ∷ xs) y = ap suc (length-append_one xs y)

  pub append_assoc : (xs : List A) (y : A) (zs : List A) → (xs ++ (y ∷ [])) ++ zs ≡ xs ++ (y ∷ zs)
  append_assoc [] y zs = refl
  append_assoc (x ∷ xs) y zs = ap (◌∷◌ x) (append_assoc xs y zs)

pub IsRanked-left :
    (ps qs : List Posting) → IsRanked seen_before (ps ++ qs) → IsRanked seen_before ps
IsRanked-left [] qs h = tt
IsRanked-left (p ∷ ps) qs h =
    ((All-append (λ q. seen_before q p ≡ false) ps qs h.0).0, IsRanked-left ps qs h.1)

pub AreUntil-earlier :
    (seen : List Posting) (candidate : Posting) (rest : List Posting)
    → IsRanked seen_before (seen ++ (candidate ∷ rest))
    → AreUntil candidate.first_seen_at seen
AreUntil-earlier [] candidate rest h = tt
AreUntil-earlier (p ∷ seen) candidate rest h =
    let after = (All-append (λ q. seen_before q p ≡ false) seen (candidate ∷ rest) h.0).1.0 in
    (ground (arith, after), AreUntil-earlier seen candidate rest h.1)

module _ (days : ℕ) where
  -- The postings before `windowStart` are outside the window of every later posting.
  abbrev pub Skips : ℕ → List Posting → Type 0
  Skips start seen =
      (start ≤ length seen)
      × ((later : ℕ)
          → AreUntil later seen
          → in_window later days (drop start seen) ≡ in_window later days seen)

  module _ (start : ℕ) (seen : List Posting) (candidate : Posting) (skips : Skips start seen)
      (ranked : IsRanked seen_before seen) (until : AreUntil candidate.first_seen_at seen) where
    pub window_start_within : window_start start days seen candidate ≤ length seen
    unfolding window_start
    window_start_within = omega (
      arith,
      skips.0,
      length-drop start seen,
      length-outside_prefix candidate.first_seen_at days (drop start seen),
    )

    pub drop-window_start :
        drop (window_start start days seen candidate) seen
        ≡ in_window candidate.first_seen_at days seen
    unfolding window_start
    drop-window_start =
        drop-drop start (outside_prefix candidate.first_seen_at days (drop start seen)) seen
        ∙ drop-outside_prefix candidate.first_seen_at days (drop start seen)
            (drop-IsRanked start seen ranked) (drop-AreUntil start _ seen until)
        ∙ skips.1 candidate.first_seen_at until

    pub window_start-Skips :
        Skips (window_start start days seen candidate) (seen ++ (candidate ∷ []))
    window_start-Skips = (
      longer seen window_start_within,
      λ later both.
          let parts =
            All-append (λ (p : Posting). p.first_seen_at ≤ later) seen (candidate ∷ []) both in
          rw
            (
              drop-append (window_start start days seen candidate) seen (candidate ∷ [])
                  window_start_within,
              drop-window_start,
            )
            (filter-append _ (in_window candidate.first_seen_at days seen) (candidate ∷ [])
              ∙ ap (λ ps. ps ++ in_window later days (candidate ∷ []))
                  (in_window-in_window candidate.first_seen_at later days seen parts.1.0 until)
              ∙ sym (filter-append _ seen (candidate ∷ []))),
    )
      where
        longer : {n : ℕ} (ps : List Posting) → n ≤ length ps → n ≤ length (ps ++ (candidate ∷ []))
        longer ps h = omega (arith, h, length-append_one ps candidate)
