-- ===== src/Dedup/Examples.antt =====
-- The similarity pass on two postings of one company, whose name has a legal suffix in one of them.
use argos_career.Base.{ℕ, ◌*◌, ◌≡◌, refl, codes, some, List, [], ◌∷◌, length}
use argos_career.Scoring.Fixed.{fixed}
use argos_career.Posting.Posting.{Posting}
use argos_career.Posting.Sample.{ascii, backend_posting, sales_posting, a_day}
use argos_career.Dedup.Similar.{DedupConfig, dedup_similar_postings}
use argos_career.Dedup.Reference.{dedup_all, dedup_similar_postings-dedup_all}

abbrev config : DedupConfig ℕ
config = record {
  similarity_threshold = 350;
  window_days = 14;
  max_comparisons_per_posting = some 1;
}

abbrev twin : Posting
twin = record backend_posting {
  fingerprint = codes "f9";
  company = codes "Acme Ltda";
  title = codes "Estagiario Backend Developer";
  first_seen_at = 15 * a_day;
}

abbrev late : Posting
late = record twin { fingerprint = codes "f10"; first_seen_at = 40 * a_day }

abbrev postings : List Posting
postings = late ∷ twin ∷ sales_posting ∷ backend_posting ∷ []

one_candidate : length (dedup_similar_postings ascii config postings).shadow_candidates ≡ 1
unfolding dedup_similar_postings
one_candidate = refl

dedup_similar_postings-dedup_all_example :
    dedup_similar_postings ascii config postings ≡ dedup_all ascii config postings
dedup_similar_postings-dedup_all_example = dedup_similar_postings-dedup_all ascii config postings
