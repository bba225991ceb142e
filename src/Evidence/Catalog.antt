-- ===== src/Evidence/Catalog.antt =====
-- src/scoring/domain/evidence-catalog.ts, over the fields of profile.ts that it reads.
use argos_career.Base.{
  ℕ, ◌+◌, ◌++◌, Text, codes, same, decimal, is_empty, Option, none, some, List, [], ◌∷◌, map, leb,
  if◌then◌else◌,
}
use argos_career.Scoring.Types.{ProfileTrack}
use argos_career.Profile.Period.{
  UtcDate, AcademicPeriod, not_started, in_progress, completed, compute_academic_period,
}

abbrev pub unverified : Text
unverified = codes "⚠ VERIFY"

pub record Competency : Type 0 where
  pub name : Text
  pub tracks : List ProfileTrack
  pub aliases : List Text
  pub evidence : List Text

pub record ResumeVariant : Type 0 where
  pub id : Text
  pub tracks : List ProfileTrack
  pub competency_names : List Text

pub record Profile : Type 0 where
  pub course_name : Text
  pub institution : Text
  pub course_start : UtcDate
  pub course_end : UtcDate
  pub english_level : Text
  pub minimum_stipend : Text
  pub max_weekly_hours : Text
  pub work_availability : Text
  pub start_availability : Option Text
  pub minimum_internship_months : Option ℕ
  pub competencies : List Competency
  pub resume_variants : List ResumeVariant

pub record EvidenceCatalogEntry : Type 0 where
  pub tag : Text
  pub text : Text

abbrev pub tagged : Text → Text → EvidenceCatalogEntry
tagged tag text = record { tag = tag; text = text }

unfoldable pub completion_of : UtcDate → Text
unfolding decimal
completion_of course_end =
    decimal course_end.utc_full_year
    ++ codes "."
    ++ decimal (if leb 7 (course_end.utc_month + 1) then 2 else 1)

unfoldable pub academic_text : AcademicPeriod → Text → Text → Text
unfolding decimal
academic_text not_started course completion =
    codes "Ingressa em "
    ++ course
    ++ codes " e ainda não iniciou o curso; conclusão prevista para "
    ++ completion
    ++ codes "."
academic_text completed course completion = codes "Concluiu " ++ course ++ codes "."
academic_text (in_progress period) course completion =
    codes "Cursando o "
    ++ decimal period
    ++ codes "º período de "
    ++ course
    ++ codes ", com conclusão prevista para "
    ++ completion
    ++ codes "."

unfoldable pub academic_evidence_entries : Profile → UtcDate → List EvidenceCatalogEntry
unfolding academic_text completion_of compute_academic_period
academic_evidence_entries profile today =
    let course = profile.course_name ++ codes " na " ++ profile.institution in
    tagged (codes "Academic enrollment") (
      academic_text (compute_academic_period profile.course_start today) course
        (completion_of profile.course_end))
    ∷ []

-- A field that is still unverified has no entry.
abbrev pub declared : Text → Text → Text → List EvidenceCatalogEntry
declared field tag text = if same field unverified then [] else tagged tag text ∷ []

abbrev pub start_entries : Option Text → List EvidenceCatalogEntry
start_entries none = []
start_entries (some start) =
    if is_empty start then [] else declared start (codes "Start availability") start

abbrev pub duration_entries : Option ℕ → List EvidenceCatalogEntry
unfolding decimal
duration_entries none = []
duration_entries (some months) =
    tagged (codes "Internship duration") (
      codes "Disponível para compromisso mínimo de "
      ++ decimal months
      ++ codes " meses de estágio.")
    ∷ []

unfoldable pub declared_fields_evidence_entries : Profile → List EvidenceCatalogEntry
unfolding duration_entries
declared_fields_evidence_entries profile =
    declared profile.english_level (codes "English level")
      (codes "Nível de inglês: " ++ profile.english_level ++ codes ".")
    ++ declared profile.max_weekly_hours (codes "Availability")
        (codes "Disponibilidade de até " ++ profile.max_weekly_hours ++ codes " horas semanais.")
    ++ declared profile.work_availability (codes "Work availability") profile.work_availability
    ++ start_entries profile.start_availability
    ++ duration_entries profile.minimum_internship_months
    ++ declared profile.minimum_stipend (codes "Compensation")
        (codes "Bolsa-auxílio mínima aceita: " ++ profile.minimum_stipend ++ codes ".")

unfoldable pub competency_evidence_entries : List Competency → List EvidenceCatalogEntry
competency_evidence_entries [] = []
competency_evidence_entries (c ∷ cs) =
    map (tagged c.name) c.evidence ++ competency_evidence_entries cs

unfoldable pub build_evidence_catalog : Profile → UtcDate → List EvidenceCatalogEntry
unfolding academic_evidence_entries declared_fields_evidence_entries competency_evidence_entries
build_evidence_catalog profile today =
    academic_evidence_entries profile today
    ++ declared_fields_evidence_entries profile
    ++ competency_evidence_entries profile.competencies
