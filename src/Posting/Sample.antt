-- ===== src/Posting/Sample.antt =====
-- Concrete values for the examples: Unicode cut down to ASCII, and two postings.
use argos_career.Base.{
  ℕ, ◌+◌, ◌*◌, ◌&&◌, ◌||◌, Text, codes, none, some, [], ◌∷◌, if◌then◌else◌, leb,
}
use argos_career.Posting.Unicode.{Unicode}
use argos_career.Posting.Posting.{Posting, unknown_mode, known}

abbrev lower_case : Text → Text
lower_case [] = []
lower_case (c ∷ s) = (if leb b'A' c && leb c b'Z' then c + 32 else c) ∷ lower_case s

abbrev pub ascii : Unicode
ascii = record {
  lower = lower_case;
  nfd = λ s. s;
  letter = λ c. (leb b'a' c && leb c b'z') || (leb b'A' c && leb c b'Z');
  number = λ c. leb b'0' c && leb c b'9';
}

abbrev pub a_day : ℕ
a_day = 86_400_000

abbrev pub backend_posting : Posting
backend_posting = record {
  source = codes "gupy";
  source_id = codes "1";
  fingerprint = codes "f1";
  company = codes "Acme";
  title = codes "Estagio Back-End Developer";
  location = known (codes "Rio de Janeiro");
  work_mode = unknown_mode;
  seniority = none;
  experience_years = none;
  application_deadline = some (20 * a_day);
  published_at = some (10 * a_day);
  description = none;
  source_url = some (codes "https://acme.example/1");
  country = none;
  collected_at = 11 * a_day;
  first_seen_at = 11 * a_day;
  last_seen_at = 12 * a_day;
}

-- Published later, of no track, and with no link.
abbrev pub sales_posting : Posting
sales_posting = record backend_posting {
  source = codes "ciee";
  source_id = codes "2";
  fingerprint = codes "f2";
  title = codes "Estagio Vendas";
  published_at = some (11 * a_day);
  source_url = none;
}
