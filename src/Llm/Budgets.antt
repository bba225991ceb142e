-- ===== src/Llm/Budgets.antt =====
-- The budgets of `parseModelOutputWithRetries` in llm-output.ts.
use mathlib.Core.Path.{subst}
use mathlib.Core.Option.{some-injective}
use argos_career.Base.{
  sym, ◌∙◌, ℕ, zero, suc, ◌+◌, ◌-◌, ◌≤◌, ◌<◌, ◌≡◌, refl, ◌⊎◌, inl, inr, true, false, Text, Option,
  none, some, List, [], ◌∷◌, ◌++◌, codes, length, All, leb, arith, Bool-cases,
}
use argos_career.Llm.Categories.{FailureCategory, is_transient_failure, is_batch_fatal_failure}
use argos_career.Llm.Client.{LlmTransportError}
use argos_career.Llm.Normalize.{normalize_model_output}
use argos_career.Llm.Output.{
  Asking, Asked, answered, rejected, ParsedJson, json, syntax_error, Validation, valid, issues,
  Budgets, Issue, describe_issues, Loop, Turn, again, finished, LlmParseResult, ok, not_ok,
  LlmFailureKind, permanent_error, LlmFailure, category_of, transport_diagnostic, is_json,
  build_retry_prompt, after_rejection, after_invalid, after_validation, after_parse, after_asking,
  loop, parse_model_output_with_retries,
}

unfoldable pub attempts_of : {T : Type 0} → LlmParseResult T → ℕ
attempts_of (ok data_ n) = n
attempts_of (not_ok f) = f.attempts

abbrev first_turn : Text → Loop
first_turn initial_prompt = record {
  prompt = initial_prompt;
  transport_attempt = 0;
  repair_attempt = 0;
  total_attempts = 0;
}

category-transport_diagnostic :
    (kind : LlmFailureKind) (cause : Option LlmTransportError)
    → (transport_diagnostic kind cause).category ≡ some (category_of cause)
category-transport_diagnostic kind none = refl
category-transport_diagnostic kind (some error) = refl

module _ {S J T : Type 0} (m : Asking S J T) (b : Budgets) (initial_prompt : Text) where
  -- The error of one answer: what the parser says of its text, or what the schema says of its JSON.
  pub data IsErrorOf (raw : Text) : Text → Type 0 where
    of_parser :
        (message : Text)
        → m.parse (normalize_model_output (λ t. is_json (m.parse t)) raw) ≡ syntax_error message
        → IsErrorOf raw (codes "Output was not valid JSON: " ++ message)
    of_schema :
        (value : J) (list : List Issue)
        → m.parse (normalize_model_output (λ t. is_json (m.parse t)) raw) ≡ json value
        → m.schema value ≡ issues list
        → IsErrorOf raw (describe_issues list)

  -- A prompt is the initial one, or that with the error of one answer fed back.
  abbrev pub IsPrompt : Text → Type 0
  IsPrompt p =
      (p ≡ initial_prompt)
      ⊎ ((raw : Text) × (error : Text) × IsErrorOf raw error
          × (p ≡ build_retry_prompt initial_prompt error))

  -- Data that a request was answered with, as JSON that the schema lets through.
  pub record IsAnswer (data_ : T) : Type 0 where
    pub world : S
    pub prompt : Text
    pub raw : Text
    pub value : J
    pub asked : (m.ask world prompt).1 ≡ answered raw
    pub parsed : m.parse (normalize_model_output (λ t. is_json (m.parse t)) raw) ≡ json value
    pub validated : m.schema value ≡ valid data_

  -- Why a failure is permanent, and fatal for the batch.
  pub record IsExplained (f : LlmFailure) : Type 0 where
    pub permanent :
        f.reason ≡ permanent_error
        → (c : FailureCategory) × (f.diagnostic.category ≡ some c)
          × (is_transient_failure c ≡ false)
    pub fatal :
        f.batch_fatal ≡ true
        → (f.reason ≡ permanent_error)
          × (c : FailureCategory) × (f.diagnostic.category ≡ some c)
          × (is_batch_fatal_failure c ≡ true)

  unfoldable pub IsSound : LlmParseResult T → Type 0
  IsSound (ok data_ n) = IsAnswer data_
  IsSound (not_ok f) = IsExplained f

  -- One budget has been spent on a request, and not to its end.
  record IsNext (l next : Loop) : Type 0 where
    total : next.total_attempts ≡ l.total_attempts + 1
    transport :
        (next.transport_attempt ≡ l.transport_attempt)
        ⊎ ((next.transport_attempt ≡ l.transport_attempt + 1)
            × (next.transport_attempt < b.max_transport_attempts))
    repair :
        (next.repair_attempt ≡ l.repair_attempt)
        ⊎ ((next.repair_attempt ≡ l.repair_attempt + 1)
            × (next.repair_attempt < b.max_repair_attempts))
    spent :
        next.transport_attempt + next.repair_attempt ≡ l.transport_attempt + l.repair_attempt + 1
    prompt : IsPrompt l.prompt → IsPrompt next.prompt

  TurnsFrom : Loop → Turn T → Type 0
  TurnsFrom l (again next) = IsNext l next
  TurnsFrom l (finished result) = (attempts_of result ≡ l.total_attempts + 1) × IsSound result

  after_rejection-TurnsFrom :
      (l : Loop) (message : Text) (cause : Option LlmTransportError)
      → TurnsFrom l (after_rejection m b initial_prompt (l.total_attempts + 1) l message cause)
  unfolding TurnsFrom after_rejection attempts_of IsSound
  after_rejection-TurnsFrom l message cause =
      elim (Bool-cases (is_transient_failure (category_of cause))) [
        | inl e ↦ elim (Bool-cases (leb b.max_transport_attempts (l.transport_attempt + 1))) [
          | inl k ↦ rw (e, k) (refl, record { permanent = λ q. cc; fatal = λ q. cc })
          | inr k ↦
              rw (e, k)
                (record {
                  total = refl;
                  transport = inr (refl, ground (arith, k));
                  repair = inl refl;
                  spent = omega arith;
                  prompt = λ q. q;
                })
        ]
        | inr e ↦
            rw (after_rejection, e)
              (
                refl,
                record {
                  permanent = λ q. (
                    category_of cause,
                    category-transport_diagnostic LlmFailureKind.permanent_error cause,
                    e,
                  );
                  fatal = λ q. (
                    refl,
                    category_of cause,
                    category-transport_diagnostic LlmFailureKind.permanent_error cause,
                    q,
                  );
                },
              )
      ]

  after_invalid-TurnsFrom :
      (raw : Text) (l : Loop) (last_error : Text) (kind : LlmFailureKind)
      → IsErrorOf raw last_error
      → TurnsFrom l (after_invalid m b initial_prompt (l.total_attempts + 1) l last_error kind)
  unfolding TurnsFrom after_invalid attempts_of IsSound
  after_invalid-TurnsFrom raw l last_error kind fed =
      elim (Bool-cases (leb b.max_repair_attempts (l.repair_attempt + 1))) [
        | inl e ↦ rw e (refl, record { permanent = λ k. cc; fatal = λ k. cc })
        | inr e ↦ rw e (record {
          total = refl;
          transport = inl refl;
          repair = inr (refl, ground (arith, e));
          spent = omega arith;
          prompt = λ _. inr (raw, last_error, fed, refl);
        })
      ]

  after_validation-TurnsFrom :
      (raw : Text) (l : Loop) (value : J) (v : Validation T)
      → m.parse (normalize_model_output (λ t. is_json (m.parse t)) raw) ≡ json value
      → m.schema value ≡ v
      → ((data_ : T) → v ≡ valid data_ → IsAnswer data_)
      → TurnsFrom l (after_validation m b initial_prompt (l.total_attempts + 1) l v)
  unfolding TurnsFrom after_validation attempts_of IsSound
  after_validation-TurnsFrom raw l value (valid data_) e k h = (refl, h data_ refl)
  after_validation-TurnsFrom raw l value (issues list) e k h =
      after_invalid-TurnsFrom raw l _ LlmFailureKind.output_schema_rejected
        (of_schema value list e k)

  after_parse-TurnsFrom :
      (raw : Text) (l : Loop) (parsed : ParsedJson J)
      → m.parse (normalize_model_output (λ t. is_json (m.parse t)) raw) ≡ parsed
      → ((data_ : T) (value : J)
          → parsed ≡ json value
          → m.schema value ≡ valid data_
          → IsAnswer data_)
      → TurnsFrom l (after_parse m b initial_prompt (l.total_attempts + 1) l parsed)
  unfolding after_parse
  after_parse-TurnsFrom raw l (json value) e h =
      after_validation-TurnsFrom raw l value (m.schema value) e refl (λ d k. h d value refl k)
  after_parse-TurnsFrom raw l (syntax_error message) e h =
      after_invalid-TurnsFrom raw l _ LlmFailureKind.output_invalid_json (of_parser message e)

  after_asking-TurnsFrom :
      (l : Loop) (s : S) (asked : Asked)
      → (m.ask s l.prompt).1 ≡ asked
      → TurnsFrom l (after_asking m b initial_prompt l asked)
  unfolding after_asking
  after_asking-TurnsFrom l s (rejected message cause) a = after_rejection-TurnsFrom l message cause
  after_asking-TurnsFrom l s (answered raw) a = after_parse-TurnsFrom raw l _ refl (λ d value e v.
      record {
        world = s;
        prompt = l.prompt;
        raw = raw;
        value = value;
        asked = a;
        parsed = e;
        validated = v;
      })

  -- What the loop returns: one attempt for each prompt asked, within what the budgets leave.
  record Returns (l : Loop) (o : Option (LlmParseResult T × List Text)) : Type 0 where
    result : LlmParseResult T
    prompts : List Text
    returned : o ≡ some (result, prompts)
    attempts : attempts_of result ≡ l.total_attempts + length prompts
    some_asked : 1 ≤ length prompts
    bound :
        length prompts
        ≤ 1
          + (b.max_transport_attempts - 1 - l.transport_attempt)
          + (b.max_repair_attempts - 1 - l.repair_attempt)
    all_prompts : All IsPrompt prompts
    sound : IsSound result

  loop-Returns :
      (fuel : ℕ) (s : S) (l : Loop)
      → (b.max_transport_attempts - l.transport_attempt)
          + (b.max_repair_attempts - l.repair_attempt)
        < fuel
      → IsPrompt l.prompt
      → Returns l (loop m b initial_prompt fuel s l)
  unfolding loop TurnsFrom
  loop-Returns zero s l h p = absurd (omega arith)
  loop-Returns (suc fuel) s l h p =
      go (λ next. loop-Returns fuel (m.ask s l.prompt).0 next)
        (after_asking m b initial_prompt l (m.ask s l.prompt).1) refl
        (after_asking-TurnsFrom l s (m.ask s l.prompt).1 refl)
    where
      extended :
          (next : Loop)
          → after_asking m b initial_prompt l (m.ask s l.prompt).1 ≡ again next
          → IsNext l next
          → Returns next (loop m b initial_prompt fuel (m.ask s l.prompt).0 next)
          → Returns l (loop m b initial_prompt (suc fuel) s l)
      extended next e n r = record {
        result = r.result;
        prompts = l.prompt ∷ r.prompts;
        returned = rw (loop, e, r.returned) refl;
        attempts = omega (arith, r.attempts, n.total);
        some_asked = omega arith;
        bound = ground (arith, r.bound, n.transport, n.repair, n.spent);
        all_prompts = (p, r.all_prompts);
        sound = r.sound;
      }

      go :
          ((next : Loop)
            → (b.max_transport_attempts - next.transport_attempt)
                + (b.max_repair_attempts - next.repair_attempt)
              < fuel
            → IsPrompt next.prompt
            → Returns next (loop m b initial_prompt fuel (m.ask s l.prompt).0 next))
          → (t : Turn T) → after_asking m b initial_prompt l (m.ask s l.prompt).1 ≡ t
          → TurnsFrom l t
          → Returns l (loop m b initial_prompt (suc fuel) s l)
      go rec (again next) e n =
          extended next e n
            (rec next (ground (arith, h, n.transport, n.repair, n.spent)) (n.prompt p))
      go rec (finished result) e (a, sound) = record {
        result = result;
        prompts = l.prompt ∷ [];
        returned = rw (loop, e) refl;
        attempts = a;
        some_asked = omega arith;
        bound = omega arith;
        all_prompts = (p, tt);
        sound = sound;
      }

parse_model_output_with_retries-Returns :
    {S J T : Type 0} (m : Asking S J T) (b : Budgets) (initial_prompt : Text) (s : S)
    → Returns m b initial_prompt
        (first_turn initial_prompt)
        (parse_model_output_with_retries m b initial_prompt s)
unfolding parse_model_output_with_retries
parse_model_output_with_retries-Returns m b initial_prompt s =
    loop-Returns m b initial_prompt (b.max_transport_attempts + b.max_repair_attempts + 1) s
      (first_turn initial_prompt) (omega arith) (inl refl)

-- It always comes to a result, whatever the model answers: each request has spent one attempt, there
-- is at least one, and there are at most as many as the two budgets allow, less one, where a budget
-- of zero counts as one.
pub parse_model_output_with_retries_terminates :
    {S J T : Type 0} (m : Asking S J T) (b : Budgets) (initial_prompt : Text) (s : S)
    → (result : LlmParseResult T) × (prompts : List Text) × (parse_model_output_with_retries m b
          initial_prompt s
        ≡ some (result, prompts))
      × (attempts_of result ≡ length prompts)
      × (1 ≤ length prompts)
      × (length prompts ≤ 1 + (b.max_transport_attempts - 1) + (b.max_repair_attempts - 1))
parse_model_output_with_retries_terminates m b initial_prompt s =
    let r = parse_model_output_with_retries-Returns m b initial_prompt s in
    (
      r.result,
      r.prompts,
      r.returned,
      omega (arith, r.attempts),
      r.some_asked,
      omega (arith, r.bound),
    )

-- What it returns is sound: data is an answer of the model that is JSON and that the schema lets
-- through, a permanent failure names a category that is not transient, a failure that is fatal for
-- the batch is permanent and names one that is fatal, and each prompt is the initial one or that with
-- the error of one answer fed back, as the parser or the schema states it, and nothing more.
pub parse_model_output_with_retries-IsSound :
    {S J T : Type 0} (m : Asking S J T) (b : Budgets) (initial_prompt : Text) (s : S)
    (result : LlmParseResult T) (prompts : List Text)
    → parse_model_output_with_retries m b initial_prompt s ≡ some (result, prompts)
    → IsSound m b initial_prompt result × All (IsPrompt m b initial_prompt) prompts
parse_model_output_with_retries-IsSound m b initial_prompt s result prompts e =
    let r = parse_model_output_with_retries-Returns m b initial_prompt s in
    subst (λ x. IsSound m b initial_prompt x.0 × All (IsPrompt m b initial_prompt) x.1)
      (some-injective _ _ (sym r.returned ∙ e)) (r.sound, r.all_prompts)
