-- ===== src/Prefilter/TitleMatch.antt =====
-- src/prefilter/domain/title-match.ts and classify-track.ts.
use argos_career.Base.{
  Bool, true, false, not, ◌&&◌, Text, List, [], ◌∷◌, ◌++◌, is_empty, includes, any, if◌then◌else◌,
}
use argos_career.Posting.Unicode.{Unicode, normalize_title, normalize_collapsing_joiners}
use argos_career.Scoring.Types.{ProfileTrack, dev, security, automation, data_track}
use argos_career.Prefilter.Criteria.{TrackExclusions}

-- ` ${s} `

abbrev pub padded : Text → Text
padded s = 0x20 ∷ (s ++ 0x20 ∷ [])

abbrev pub exclusions_of : TrackExclusions → ProfileTrack → List Text
exclusions_of x dev = x.dev_exclusions
exclusions_of x security = x.security_exclusions
exclusions_of x automation = x.automation_exclusions
exclusions_of x data_track = x.data_exclusions

module _ (u : Unicode) where
  abbrev pub term_occurs : Text → Text → Bool
  term_occurs haystack term =
      let needle = normalize_title u term in
      not (is_empty needle) && includes haystack (padded needle)

  unfoldable pub title_matches_any : Text → List Text → Bool
  unfolding normalize_title
  title_matches_any title terms = any (term_occurs (padded (normalize_title u title))) terms

  unfoldable pub keyword_matches_text : Text → Text → Bool
  unfolding normalize_title normalize_collapsing_joiners
  keyword_matches_text text keyword =
      let spaced_keyword = normalize_title u keyword in
      let collapsed = padded (normalize_collapsing_joiners u text) in
      let collapsed_keyword = normalize_collapsing_joiners u keyword in
      let by_collapsed =
        not (is_empty collapsed_keyword) && includes collapsed (padded collapsed_keyword) in
      if is_empty spaced_keyword
      then false
      else if not (includes spaced_keyword (0x20 ∷ []))
      then by_collapsed
      else if includes (padded (normalize_title u text)) (padded spaced_keyword)
      then true
      else by_collapsed

  abbrev pub track_matches : Text → TrackExclusions → ProfileTrack → List Text → Bool
  track_matches title exclusions track keywords =
      if any (keyword_matches_text title) (exclusions_of exclusions track)
      then false
      else any (keyword_matches_text title) keywords

  unfoldable pub classify_track :
      Text → List (ProfileTrack × List Text) → TrackExclusions → List ProfileTrack
  unfolding keyword_matches_text
  classify_track title [] exclusions = []
  classify_track title ((track, keywords) ∷ tracks) exclusions =
      if track_matches title exclusions track keywords
      then track ∷ classify_track title tracks exclusions
      else classify_track title tracks exclusions
