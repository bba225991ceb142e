-- ===== src/Posting/Posting.antt =====
-- src/posting/domain/posting.ts. A `Date` is its time in milliseconds of the epoch.
use argos_career.Base.{
  ℕ, Bool, ◌&&◌, Text, trim, is_empty, Option, none, some, [], ◌∷◌, ◌++◌, if◌then◌else◌, leb,
}
use argos_career.Posting.Unicode.{Unicode, normalize}

pub data WorkMode : Type 0 where
  remote hybrid onsite unknown_mode : WorkMode

pub data Location : Type 0 where
  known : Text → Location
  unknown_location : Location

pub data Seniority : Type 0 where
  internship trainee junior mid senior : Seniority

pub record Posting : Type 0 where
  pub source : Text
  pub source_id : Text
  pub fingerprint : Text
  pub company : Text
  pub title : Text
  pub location : Location
  pub work_mode : WorkMode
  pub seniority : Option Seniority
  pub experience_years : Option ℕ
  pub application_deadline : Option ℕ
  pub published_at : Option ℕ
  pub description : Option Text
  pub source_url : Option Text
  pub country : Option Text
  pub collected_at : ℕ
  pub first_seen_at : ℕ
  pub last_seen_at : ℕ

-- The optional fields are `none` where the source has them absent or null. `rawPayload` is passed
-- on unread, and left out of both records.
pub record CreatePostingInput : Type 0 where
  pub in_source : Text
  pub in_source_id : Text
  pub in_company : Text
  pub in_title : Text
  pub in_location : Location
  pub in_work_mode : WorkMode
  pub in_seniority : Option Seniority
  pub in_experience_years : Option ℕ
  pub in_application_deadline : Option ℕ
  pub in_published_at : Option ℕ
  pub in_description : Option Text
  pub in_source_url : Option Text
  pub in_country : Option Text
  pub in_collected_at : ℕ
  pub in_first_seen_at : ℕ
  pub in_last_seen_at : ℕ

pub data PostingError : Type 0 where
  empty_source empty_source_id empty_company empty_title : PostingError

pub data Created (A E : Type 0) : Type 0 where
  created : A → Created A E
  refused : E → Created A E

-- SHA-256 in hexadecimal is a parameter, and `toUpperCase` another.
unfoldable pub compute_fingerprint : Unicode → (Text → Text) → Text → Text → Text → Text
unfolding normalize
compute_fingerprint u sha256 company title city =
    sha256 (normalize u company ++ normalize u title ++ normalize u city)

abbrev pub is_upper : ℕ → Bool
is_upper c = leb b'A' c && leb c b'Z'

two_letters : Text → Option Text
two_letters (a ∷ b ∷ []) = if is_upper a && is_upper b then some (a ∷ b ∷ []) else none
two_letters _ = none

unfoldable pub normalize_country : (Text → Text) → Option Text → Option Text
unfolding two_letters trim
normalize_country upper none = none
normalize_country upper (some value) = two_letters (upper (trim value))

abbrev pub city_of : Location → Text
city_of (known city) = city
city_of unknown_location = []

unfoldable pub create_posting :
    Unicode → (Text → Text) → (Text → Text) → CreatePostingInput → Created Posting PostingError
unfolding normalize_country compute_fingerprint trim
create_posting u upper sha256 input =
    let source = trim input.in_source in
    let source_id = trim input.in_source_id in
    let company = trim input.in_company in
    let title = trim input.in_title in
    if is_empty source
    then refused empty_source
    else if is_empty source_id
    then refused empty_source_id
    else if is_empty company
    then refused empty_company
    else if is_empty title
    then refused empty_title
    else created (record {
      source = source;
      source_id = source_id;
      fingerprint = compute_fingerprint u sha256 company title (city_of input.in_location);
      company = company;
      title = title;
      location = input.in_location;
      work_mode = input.in_work_mode;
      seniority = input.in_seniority;
      experience_years = input.in_experience_years;
      application_deadline = input.in_application_deadline;
      published_at = input.in_published_at;
      description = input.in_description;
      source_url = input.in_source_url;
      country = normalize_country upper input.in_country;
      collected_at = input.in_collected_at;
      first_seen_at = input.in_first_seen_at;
      last_seen_at = input.in_last_seen_at;
    })
