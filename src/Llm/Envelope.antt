-- ===== src/Llm/Envelope.antt =====
-- The completion envelope of src/scoring/infrastructure/openrouter-client.ts, as its schemas have
-- let it through, and the diagnostic that the client draws from it. Texts are lists of UTF-16 units.
use argos_career.Base.{
  ℕ, Bool, Option, none, some, List, [], ◌∷◌, Text, trim, take, or_else, if◌then◌else◌,
}
use argos_career.Llm.Categories.{ℤ}

-- Optional chaining and `??`.

unfoldable pub get {ℓ κ} : {A : Type ℓ} {B : Type κ} → (A → Option B) → Option A → Option B
get f none = none
get f (some a) = f a

infixr 20 ◌⊕◌
abbrev pub ◌⊕◌ {ℓ} : {A : Type ℓ} → Option A → Option A → Option A
none ⊕ b = b
some a ⊕ b = some a

abbrev pub max_diagnostic_chars : ℕ
max_diagnostic_chars = 200

unfoldable pub bounded_diagnostic : Option Text → Option Text
bounded_diagnostic none = none
bounded_diagnostic (some value) = elim (trim value) [
  | [] ↦ none
  | c ∷ s ↦ some (take max_diagnostic_chars (c ∷ s))
]

pub data ErrorCode : Type 0 where
  number : ℤ → ErrorCode
  string : Text → ErrorCode

pub record ErrorMetadata : Type 0 where
  pub error_type : Option Text
  pub provider_name : Option Text
  pub model_slug : Option Text

pub record ProviderError : Type 0 where
  pub code : Option ErrorCode
  pub metadata : Option ErrorMetadata

pub record Endpoint : Type 0 where
  pub provider : Option Text
  pub model : Option Text
  pub selected : Bool

pub record RouterAttempt : Type 0 where
  pub provider : Option Text
  pub model : Option Text

-- `endpoints.available` and `attempts`, empty where a part of them is missing.
pub record RouterMetadata : Type 0 where
  pub available : List Endpoint
  pub attempts : List RouterAttempt

-- `content` is there where `message.content` is a string.
pub record Choice : Type 0 where
  pub content : Option Text
  pub finish_reason : Option Text
  pub error : Option ProviderError

pub record Envelope : Type 0 where
  pub choices : List Choice
  pub error : Option ProviderError
  pub id : Option Text
  pub model : Option Text
  pub provider : Option Text
  pub openrouter_metadata : Option RouterMetadata

pub record ResponseDiagnostic : Type 0 where
  pub error_type : Option Text
  pub provider : Option Text
  pub model : Option Text
  pub finish_reason : Option Text
  pub generation_id : Option Text

abbrev pub no_diagnostic : ResponseDiagnostic
no_diagnostic = record {
  error_type = none;
  provider = none;
  model = none;
  finish_reason = none;
  generation_id = none;
}

abbrev pub first? {ℓ} : {A : Type ℓ} → List A → Option A
first? [] = none
first? (x ∷ xs) = some x

abbrev pub last? {ℓ} : {A : Type ℓ} → List A → Option A
last? [] = none
last? (x ∷ xs) = some (or_else (last? xs) x)

unfoldable pub selected_endpoint : List Endpoint → Option Endpoint
selected_endpoint [] = none
selected_endpoint (e ∷ es) = if e.selected then some e else selected_endpoint es

unfoldable pub response_diagnostic :
    Envelope → Option Text → Option ProviderError → ResponseDiagnostic
unfolding bounded_diagnostic get selected_endpoint
response_diagnostic envelope generation_header error =
    let metadata = envelope.openrouter_metadata in
    let selected = get (λ m. selected_endpoint m.available) metadata in
    let last_attempt = get (λ m. last? m.attempts) metadata in
    let first_choice = first? envelope.choices in
    let error_metadata = get (λ e. e.metadata) error in
    record {
      error_type = bounded_diagnostic (get (λ m. m.error_type) error_metadata);
      provider = bounded_diagnostic (
          envelope.provider
          ⊕ get (λ m. m.provider_name) error_metadata
          ⊕ get (λ a. a.provider) last_attempt
          ⊕ get (λ e. e.provider) selected);
      model = bounded_diagnostic (
          envelope.model
          ⊕ get (λ m. m.model_slug) error_metadata
          ⊕ get (λ a. a.model) last_attempt
          ⊕ get (λ e. e.model) selected);
      finish_reason = bounded_diagnostic (get (λ c. c.finish_reason) first_choice);
      generation_id = bounded_diagnostic (envelope.id ⊕ generation_header);
    }

-- `Number(code)` where that is an integer is an argument.
unfoldable pub numeric_error_code : (Text → Option ℤ) → Option ProviderError → Option ℤ
unfolding get
numeric_error_code integer_of error = elim (get (λ e. e.code) error) [
  | none ↦ none
  | some (number code) ↦ some code
  | some (string text) ↦ integer_of text
]
