-- ===== src/StageB/Matches.antt =====
-- src/persistence/infrastructure/matches-repository.ts. The column of a row is what JSON.parse and
-- the shape of MatchSchema make of it; the refinement of the schema is checked here.
use argos_career.Base.{
  ℕ, zero, suc, Bool, true, false, not, ◌&&◌, ◌||◌, ◌++◌, Text, same, Option, none, some, is_some,
  List, [], ◌∷◌, every, filter, ◌==◌, if◌then◌else◌,
}
use argos_career.Scoring.Types.{
  RequirementWeight, blocking, mandatory, desirable, MatchStatus, not_met, Requirement, Match,
}
use argos_career.Persistence.Table.{update_where}

pub record CacheKey : Type 0 where
  pub fingerprint : Text
  pub profile_hash : Text
  pub prompt_version : Text
  pub model : Text
  pub requirements_hash : Text

abbrev pub same_key : CacheKey → CacheKey → Bool
same_key a b =
    same a.fingerprint b.fingerprint
    && same a.profile_hash b.profile_hash
    && same a.prompt_version b.prompt_version
    && same a.model b.model
    && same a.requirements_hash b.requirements_hash

pub record MatchesRow : Type 0 where
  pub key : CacheKey
  pub matches : Option (List Match)
  pub matched_at : ℕ

pub record PartialRow : Type 0 where
  pub key : CacheKey
  pub requirement_index : ℕ
  pub match : Option Match
  pub matched_at : ℕ

pub record Store : Type 0 where
  pub complete_rows : List MatchesRow
  pub partial_rows : List PartialRow

abbrev pub is_not_met : MatchStatus → Bool
is_not_met not_met = true
is_not_met _ = false

-- `evidence: null` requires `not_met`.
abbrev pub is_coerced : Match → Bool
is_coerced m = is_some m.evidence || is_not_met m.status

unfoldable pub parse_matches : Option (List Match) → Option (List Match)
parse_matches none = none
parse_matches (some matches) = if every is_coerced matches then some matches else none

unfoldable pub find : CacheKey → List MatchesRow → Option (List Match)
unfolding parse_matches
find key [] = none
find key (r ∷ rows) = if same_key r.key key then parse_matches r.matches else find key rows

abbrev pub same_weight : RequirementWeight → RequirementWeight → Bool
same_weight blocking blocking = true
same_weight mandatory mandatory = true
same_weight desirable desirable = true
same_weight _ _ = false

abbrev pub same_flag : Option Bool → Option Bool → Bool
same_flag none none = true
same_flag (some true) (some true) = true
same_flag (some false) (some false) = true
same_flag _ _ = false

-- The four fields that are compared.
abbrev pub same_requirement : Requirement → Requirement → Bool
same_requirement a b =
    same a.text b.text
    && same a.category b.category
    && same_weight a.weight b.weight
    && same_flag a.verifiable b.verifiable

-- `requirements[index]`.
abbrev pub item {ℓ} : {A : Type ℓ} → ℕ → List A → Option A
item n [] = none
item zero (x ∷ xs) = some x
item (suc n) (x ∷ xs) = item n xs

-- What a row says of the requirement at its index.
unfoldable pub partial_of : PartialRow → Option Requirement → Option Match
partial_of r none = none
partial_of r (some requirement) = elim r.match [
  | none ↦ none
  | some match ↦
      (if is_coerced match && same_requirement match.requirement requirement
        then some match
        else none)
]

-- The entry of `findPartial` at an index: of the rows, the last that counts.
unfoldable pub find_partial_at : CacheKey → List Requirement → ℕ → List PartialRow → Option Match
unfolding partial_of
find_partial_at key requirements index [] = none
find_partial_at key requirements index (r ∷ rows) =
    let rest = find_partial_at key requirements index rows in
    elim rest [
      | some match ↦ some match
      | none ↦
          (if same_key r.key key && (r.requirement_index == index)
            then partial_of r (item index requirements)
            else none)
    ]

unfoldable pub delete_partial : CacheKey → Store → Store
delete_partial key store = record store {
  partial_rows = filter (λ (r : PartialRow). not (same_key r.key key)) store.partial_rows;
}

abbrev pub has_key : CacheKey → List MatchesRow → Bool
has_key key [] = false
has_key key (r ∷ rows) = same_key r.key key || has_key key rows

unfoldable pub upsert_matches : CacheKey → List Match → ℕ → Store → Store
unfolding delete_partial
upsert_matches key matches matched_at store =
    let rows =
      if has_key key store.complete_rows
      then update_where (λ (r : MatchesRow). same_key r.key key)
          (λ (r : MatchesRow). record r { matches = some matches; matched_at = matched_at })
          store.complete_rows
      else store.complete_rows
        ++ (record { key = key; matches = some matches; matched_at = matched_at } ∷ []) in
    delete_partial key (record store { complete_rows = rows })

abbrev pub has_partial : CacheKey → ℕ → List PartialRow → Bool
has_partial key index [] = false
has_partial key index (r ∷ rows) =
    (same_key r.key key && (r.requirement_index == index)) || has_partial key index rows

unfoldable pub upsert_partial : CacheKey → ℕ → Match → ℕ → Store → Store
upsert_partial key index match matched_at store = record store {
  partial_rows =
      if has_partial key index store.partial_rows
      then update_where (λ (r : PartialRow). same_key r.key key && (r.requirement_index == index))
          (λ (r : PartialRow). record r { match = some match; matched_at = matched_at })
          store.partial_rows
      else store.partial_rows
        ++ (record {
          key = key;
          requirement_index = index;
          match = some match;
          matched_at = matched_at;
        }
            ∷ []);
}
