-- ===== src/Evidence/Provenance.antt =====
-- src/scoring/domain/evidence-provenance.ts. NFKD and `toLowerCase` are arguments.
use argos_career.Base.{
  ℕ, Bool, true, false, not, ◌&&◌, ◌||◌, ◌++◌, Text, codes, same, includes, erase, squash, trim,
  trim_start, is_space, Dict, lookup, Option, none, some, List, [], ◌∷◌, any, length, leb, ◌==◌,
  if◌then◌else◌,
}
use argos_career.Scoring.Types.{ProfileTrack, dev, security, automation, data_track, Requirement}
use argos_career.Profile.Period.{UtcDate}
use argos_career.Posting.Unicode.{is_combining_mark}
use argos_career.Evidence.Catalog.{
  Competency, Profile, EvidenceCatalogEntry, build_evidence_catalog,
}

-- `\s*-?\s*`.

unfoldable pub skip_dash : Text → Text
unfolding trim_start is_space
skip_dash [] = []
skip_dash (c ∷ s) = if c == 0x2d then trim_start s else c ∷ s

-- `[^\]]+\]\s*` after the bracket; the first argument says whether a character stands inside.
unfoldable pub after_tag : Bool → Text → Option Text
unfolding trim_start is_space
after_tag inside [] = none
after_tag inside (c ∷ s) =
    if c == 0x5d then (if inside then some (trim_start s) else none) else after_tag true s

unfoldable pub without_tag : Text → Option Text
unfolding skip_dash after_tag trim_start is_space
without_tag s = elim (skip_dash (trim_start s)) [
  | [] ↦ none
  | c ∷ rest ↦ (if c == 0x5b then after_tag false rest else none)
]

unfoldable pub strip_evidence_tag : Text → Text
unfolding without_tag trim
strip_evidence_tag evidence = elim (without_tag evidence) [
  | none ↦ trim evidence
  | some rest ↦ trim rest
]

-- The first entry that a quote is the text of.
unfoldable pub find_entry : Text → List EvidenceCatalogEntry → Option EvidenceCatalogEntry
unfolding strip_evidence_tag
find_entry quote [] = none
find_entry quote (e ∷ es) =
    if same (strip_evidence_tag e.text) quote then some e else find_entry quote es

-- `Map.has` of the index that is built of the catalog.
unfoldable pub is_known_profile_evidence : Text → Profile → UtcDate → Bool
unfolding strip_evidence_tag build_evidence_catalog
is_known_profile_evidence evidence profile today =
    any
      (λ (e : EvidenceCatalogEntry). same (strip_evidence_tag e.text) (strip_evidence_tag evidence))
      (build_evidence_catalog profile today)

abbrev pub fixed_tag_terms : Dict (List Text)
fixed_tag_terms =
    (
      codes "Academic enrollment",
      codes "curso"
          ∷ codes "cursando"
          ∷ codes "faculdade"
          ∷ codes "graduacao"
          ∷ codes "periodo"
          ∷ codes "semestre"
          ∷ codes "formacao"
          ∷ codes "formatura"
          ∷ codes "conclusao"
          ∷ [],
    )
    ∷ (codes "English level", codes "ingles" ∷ codes "english" ∷ [])
    ∷ (
      codes "Availability",
      codes "disponibilidade"
          ∷ codes "horas semanais"
          ∷ codes "carga horaria"
          ∷ codes "horario"
          ∷ codes "availability"
          ∷ [],
    )
    ∷ (
      codes "Work availability",
      codes "presencial"
          ∷ codes "hibrido"
          ∷ codes "hibrida"
          ∷ codes "remoto"
          ∷ codes "remota"
          ∷ codes "home office"
          ∷ codes "teletrabalho"
          ∷ codes "modelo de trabalho"
          ∷ codes "local de trabalho"
          ∷ codes "onsite"
          ∷ codes "on site"
          ∷ codes "hybrid"
          ∷ codes "remote"
          ∷ [],
    )
    ∷ (
      codes "Start availability",
      codes "inicio"
          ∷ codes "iniciar"
          ∷ codes "imediato"
          ∷ codes "imediata"
          ∷ codes "imediatamente"
          ∷ codes "start"
          ∷ [],
    )
    ∷ (
      codes "Internship duration",
      codes "meses" ∷ codes "duracao" ∷ codes "permanencia" ∷ codes "months" ∷ [],
    )
    ∷ (
      codes "Compensation",
      codes "bolsa"
          ∷ codes "remuneracao"
          ∷ codes "salario"
          ∷ codes "stipend"
          ∷ codes "compensation"
          ∷ [],
    )
    ∷ []

abbrev pub generic_skill_terms : ProfileTrack → List Text
generic_skill_terms dev =
    codes "linguagem de programacao"
    ∷ codes "linguagens de programacao"
    ∷ codes "programming language"
    ∷ codes "programming languages"
    ∷ []
generic_skill_terms security = codes "seguranca da informacao" ∷ codes "information security" ∷ []
generic_skill_terms automation = []
generic_skill_terms data_track = []

-- `[a-z0-9+#.]`.
abbrev pub is_word_char : ℕ → Bool
is_word_char c =
    (leb b'a' c && leb c b'z')
    || (leb b'0' c && leb c b'9')
    || (c == 0x2b)
    || (c == 0x23)
    || (c == 0x2e)

pub record Folding : Type 0 where
  pub nfkd : Text → Text
  pub lower : Text → Text

module _ (f : Folding) where
  unfoldable pub words_of : Text → Text
  unfolding erase squash trim is_space
  words_of value = trim (
      squash is_space
        (squash (λ c. not (is_word_char c)) (f.lower (erase is_combining_mark (f.nfkd value)))))

  unfoldable pub normalized_words : Text → Text
  unfolding words_of
  normalized_words value = codes " " ++ words_of value ++ codes " "

  unfoldable pub includes_term : Text → Text → Bool
  unfolding normalized_words trim
  includes_term haystack term =
      let normalized = trim (normalized_words term) in
      leb 2 (length normalized) && includes haystack (codes " " ++ normalized ++ codes " ")

  unfoldable pub find_competency : Text → List Competency → Option Competency
  find_competency name [] = none
  find_competency name (c ∷ cs) = if same c.name name then some c else find_competency name cs

  unfoldable pub competency_applies : Text → Option Competency → Bool
  unfolding includes_term
  competency_applies requirement_text none = false
  competency_applies requirement_text (some competency) =
      any (includes_term requirement_text) (competency.name ∷ competency.aliases)
      || any (λ track. any (includes_term requirement_text) (generic_skill_terms track))
          competency.tracks

  unfoldable pub entry_applies : Text → Profile → EvidenceCatalogEntry → Bool
  unfolding includes_term find_competency competency_applies lookup
  entry_applies requirement_text profile entry = elim (lookup entry.tag fixed_tag_terms) [
    | some terms ↦ any (includes_term requirement_text) terms
    | none ↦ competency_applies requirement_text (find_competency entry.tag profile.competencies)
  ]

  unfoldable pub is_evidence_applicable_to_requirement :
      Text → Requirement → Profile → UtcDate → Bool
  unfolding find_entry strip_evidence_tag build_evidence_catalog normalized_words entry_applies
  is_evidence_applicable_to_requirement evidence requirement profile today =
      elim (find_entry (strip_evidence_tag evidence) (build_evidence_catalog profile today)) [
        | none ↦ false
        | some entry ↦
            entry_applies (normalized_words (requirement.text ++ codes " " ++ requirement.category))
              profile entry
      ]
