-- ===== src/Evidence/Recommendation.antt =====
-- src/scoring/domain/recommendation.ts, with deriveProfileKeywords of
-- src/profile/domain/profile-keywords.ts. The day that `new Date()` gives is an argument.
use argos_career.Base.{
  ℕ, Bool, true, false, not, ◌&&◌, ◌++◌, Text, same, has, include, is_empty, Option, none, some,
  List, [], ◌∷◌, any, filter, map, length, ltb, if◌then◌else◌,
}
use argos_career.Scoring.Types.{
  Match, MatchStatus, met, partial, not_met, RequirementWeight, blocking, mandatory, desirable,
}
use argos_career.Profile.Period.{UtcDate}
use argos_career.Posting.Unicode.{Unicode}
use argos_career.Prefilter.TitleMatch.{keyword_matches_text}
use argos_career.Evidence.Catalog.{
  Competency, Profile, ResumeVariant, EvidenceCatalogEntry, build_evidence_catalog,
}
use argos_career.Evidence.Provenance.{strip_evidence_tag}

pub record Recommendation : Type 0 where
  pub recommended_variant : Option Text
  pub highlights : List Text
  pub missing_terms : List Text

unfoldable pub derive_profile_keywords : List Competency → List Text
derive_profile_keywords [] = []
derive_profile_keywords (c ∷ cs) = (c.name ∷ c.aliases) ++ derive_profile_keywords cs

-- `Map.get` of the index of the catalog: of the entries of one text, the last has set the tag.
unfoldable pub tag_of : Text → List EvidenceCatalogEntry → Option Text
unfolding strip_evidence_tag
tag_of quote [] = none
tag_of quote (e ∷ es) = elim (tag_of quote es) [
  | some tag ↦ some tag
  | none ↦ (if same (strip_evidence_tag e.text) quote then some e.tag else none)
]

add_name : Option Text → List Text → List Text
unfolding include
add_name none names = names
add_name (some name) names = if is_empty name then names else include names name

abbrev pub is_satisfied : MatchStatus → Bool
is_satisfied met = true
is_satisfied partial = true
is_satisfied not_met = false

names_of : List EvidenceCatalogEntry → Match → List Text → List Text
unfolding tag_of strip_evidence_tag add_name
names_of catalog match names = elim match.evidence [
  | none ↦ names
  | some evidence ↦
      (if is_satisfied match.status
        then add_name (tag_of (strip_evidence_tag evidence) catalog) names
        else names)
]

unfoldable pub names_from : List EvidenceCatalogEntry → List Text → List Match → List Text
unfolding names_of
names_from catalog names [] = names
names_from catalog names (match ∷ matches) =
    names_from catalog (names_of catalog match names) matches

unfoldable pub matched_competency_names : List Match → Profile → UtcDate → List Text
unfolding names_from build_evidence_catalog
matched_competency_names matches profile today =
    names_from (build_evidence_catalog profile today) [] matches

abbrev pub overlap_of : List Text → ResumeVariant → ℕ
unfolding has
overlap_of names variant = length (filter (has names) variant.competency_names)

unfoldable pub is_better : List Text → Option ResumeVariant → ResumeVariant → Bool
unfolding has
is_better names none variant = ltb 0 (overlap_of names variant)
is_better names (some best) variant =
    ltb 0 (overlap_of names variant) && ltb (overlap_of names best) (overlap_of names variant)

-- The loop, with `best`, whose overlap is computed again.
unfoldable pub best_from :
    List Text → Option ResumeVariant → List ResumeVariant → Option ResumeVariant
unfolding is_better
best_from names best [] = best
best_from names best (variant ∷ variants) =
    best_from names (if is_better names best variant then some variant else best) variants

unfoldable pub recommend_variant : List Text → List ResumeVariant → Option Text
unfolding best_from
recommend_variant [] variants = none
recommend_variant (n ∷ names) variants = elim (best_from (n ∷ names) none variants) [
  | none ↦ none
  | some v ↦ some v.id
]

abbrev pub is_required : RequirementWeight → Bool
is_required blocking = true
is_required mandatory = true
is_required desirable = false

abbrev pub is_met : MatchStatus → Bool
is_met met = true
is_met _ = false

unfoldable pub highlight : List Text → RequirementWeight → MatchStatus → Option Text → List Text
unfolding include strip_evidence_tag
highlight highlights weight status none = highlights
highlight highlights weight status (some evidence) =
    if is_met status && is_required weight && not (is_empty evidence)
    then include highlights (strip_evidence_tag evidence)
    else highlights

-- The loop, with the set `highlights`.
unfoldable pub highlights_from : List Text → List Match → List Text
unfolding highlight
highlights_from highlights [] = highlights
highlights_from highlights (match ∷ matches) =
    highlights_from (highlight highlights match.requirement.weight match.status match.evidence)
      matches

module _ (u : Unicode) where
  abbrev is_named : List Text → Text → Bool
  unfolding keyword_matches_text
  is_named keywords text = any (keyword_matches_text u text) keywords

  unfoldable pub compute_missing_terms : List Match → Profile → List Text
  unfolding is_named derive_profile_keywords
  compute_missing_terms matches profile =
      map (λ (m : Match). m.requirement.text)
        (filter
          (λ (m : Match).
            is_satisfied m.status
            && not (is_named (derive_profile_keywords profile.competencies) m.requirement.text))
          matches)

  unfoldable pub compute_recommendation : List Match → Profile → UtcDate → Recommendation
  unfolding matched_competency_names recommend_variant highlights_from compute_missing_terms
  compute_recommendation matches profile today = record {
    recommended_variant =
        recommend_variant (matched_competency_names matches profile today) profile.resume_variants;
    highlights = highlights_from [] matches;
    missing_terms = compute_missing_terms matches profile;
  }
