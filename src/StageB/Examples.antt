-- ===== src/StageB/Examples.antt =====
-- The theorem on stage-b-matcher.ts at a profile with one competency, and a model that quotes it for
-- one requirement and makes up evidence for the other.
use argos_career.Base.{
  All, Option, ℕ, zero, suc, ◌≡◌, refl, true, false, Text, codes, none, some, List, [], ◌∷◌,
}
use argos_career.Scoring.Types.{Requirement, Match, mandatory, met, not_met, dev}
use argos_career.Posting.Sample.{ascii}
use argos_career.Evidence.Catalog.{Profile, ResumeVariant, unverified}
use argos_career.Evidence.Recommendation.{
  Recommendation, compute_recommendation, matched_competency_names,
}
use argos_career.Evidence.Selection.{IsFirstBest, id_of, compute_recommendation-IsFirstBest}
use argos_career.StageB.Highlights.{IsInCatalog, compute_recommendation-highlights}
use argos_career.Llm.Output.{ok}
use argos_career.StageB.Matches.{Store}
use argos_career.StageB.Matcher.{Matching, MatchOutput, matches_found, match_}
use argos_career.StageB.Answers.{AreGrounded}
use argos_career.StageB.Grounded.{match-AreGrounded}

abbrev profile : Profile
profile = record {
  course_name = codes "Informatica";
  institution = codes "UF";
  course_start = record { utc_full_year = 2025; utc_month = 1 };
  course_end = record { utc_full_year = 2028; utc_month = 11 };
  english_level = unverified;
  minimum_stipend = unverified;
  max_weekly_hours = unverified;
  work_availability = unverified;
  start_availability = none;
  minimum_internship_months = none;
  competencies =
      record {
        name = codes "Python";
        tracks = dev ∷ [];
        aliases = [];
        evidence = codes "Wrote a parser." ∷ [];
      }
      ∷ [];
  resume_variants =
      record { id = codes "data"; tracks = dev ∷ []; competency_names = codes "SQL" ∷ [] }
      ∷ record { id = codes "backend"; tracks = dev ∷ []; competency_names = codes "Python" ∷ [] }
      ∷ [];
}

abbrev requirement : Text → Requirement
requirement t = record { text = t; category = codes "tech"; weight = mandatory; verifiable = none }

abbrev requirements : List Requirement
requirements = requirement (codes "Python 3") ∷ requirement (codes "Excel") ∷ []

abbrev quoting : ℕ → MatchOutput
quoting zero = record { status = met; evidence = some (codes "- [Python] Wrote a parser.") }
quoting (suc n) = record { status = met; evidence = some (codes "Ten years of Excel.") }

abbrev matching : Matching
matching = record {
  folding = record { nfkd = λ s. s; lower = ascii.lower };
  profile = profile;
  evaluated_at = record { utc_full_year = 2026; utc_month = 8 };
  written_at = 5;
  key = record {
    fingerprint = codes "f1";
    profile_hash = codes "p";
    prompt_version = codes "v2";
    model = codes "m";
    requirements_hash = codes "h";
  };
  concurrency = 8;
  prompts_build = true;
  ask = λ index r. ok (quoting index) 1;
  next_answered = λ n. n;
}

abbrev empty_store : Store
empty_store = record { complete_rows = []; partial_rows = [] }

abbrev found : List Match
found =
    record {
      requirement = requirement (codes "Python 3");
      status = met;
      evidence = some (codes "- [Python] Wrote a parser.");
    }
    ∷ record { requirement = requirement (codes "Excel"); status = not_met; evidence = none }
    ∷ []

match_found : (match_ matching requirements empty_store).1 ≡ matches_found found false 1
unfolding match_
match_found = refl

match-AreGrounded_example : AreGrounded matching requirements found requirements
match-AreGrounded_example =
    match-AreGrounded matching requirements empty_store found false 1 match_found

abbrev recommended : Recommendation
recommended = compute_recommendation ascii found profile matching.evaluated_at

recommended_backend : recommended.recommended_variant ≡ some (codes "backend")
unfolding compute_recommendation
recommended_backend = refl

compute_recommendation-highlights_example :
    All
      (IsInCatalog matching requirements)
      (compute_recommendation ascii found profile matching.evaluated_at).highlights
compute_recommendation-highlights_example =
    compute_recommendation-highlights matching requirements ascii empty_store found false 1
      match_found

compute_recommendation-IsFirstBest_example :
    (best : Option ResumeVariant) × ((compute_recommendation ascii found profile
        matching.evaluated_at).recommended_variant
      ≡ id_of best)
    × IsFirstBest
        (matched_competency_names found profile matching.evaluated_at)
        best
        profile.resume_variants
compute_recommendation-IsFirstBest_example =
    compute_recommendation-IsFirstBest ascii found profile matching.evaluated_at
