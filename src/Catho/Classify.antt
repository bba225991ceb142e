-- ===== src/Catho/Classify.antt =====
-- What state.ts takes a page for: only one pattern is an expiry.
use argos_career.Base.{
  ℕ, ◌≤◌, ◌<◌, ◌≡◌, ◌⊎◌, inl, inr, ◌↔◌, codes, same_iff, some, [], arith, Option-cases,
}
use argos_career.Catho.State.{
  page_expired, PageResult, ParsedUrl, UrlParser, lower_ascii, classify_page_result,
}

-- The answer was 2xx, and the final URL is on the allowed origin.

pub record Landed {J : Type 0} (parse : UrlParser) (input : PageResult J) (u : ParsedUrl)
    (status : ℕ) : Type 0 where
  pub answered : input.http_status ≡ some status
  pub low : 200 ≤ status
  pub high : status < 300
  pub parsed : parse input.final_url ≡ some u
  pub https : u.protocol ≡ codes "https:"
  pub host : lower_ascii u.hostname ≡ codes "www.catho.com.br"
  pub default_port : u.port ≡ []

abbrev pub IsListing : ParsedUrl → Type 0
IsListing u = (u.pathname ≡ codes "/vagas") ⊎ (u.pathname ≡ codes "/vagas/")

abbrev pub Expires : {J : Type 0} → UrlParser → PageResult J → Type 0
Expires parse input = (u : ParsedUrl) × (status : ℕ) × Landed parse input u status × IsListing u

module _ {J : Type 0} (parse : UrlParser) (input : PageResult J) where
  Landed-of :
      (u : ParsedUrl) (status : ℕ)
      → input.http_status ≡ some status
      → parse input.final_url ≡ some u
      → classify_page_result parse input ≡ page_expired
      → Landed parse input u status × IsListing u
  unfolding classify_page_result
  Landed-of u status e q h = ground (
    arith,
    same_iff u.protocol (codes "https:"),
    same_iff (lower_ascii u.hostname) (codes "www.catho.com.br"),
    same_iff u.pathname (codes "/vagas"),
    same_iff u.pathname (codes "/vagas/"),
  )

  Expires-of : classify_page_result parse input ≡ page_expired → Expires parse input
  unfolding classify_page_result
  Expires-of h = elim (Option-cases input.http_status) [
    | inl e ↦ absurd (ground arith)
    | inr (status, e) ↦ elim (Option-cases (parse input.final_url)) [
      | inl q ↦ absurd (ground arith)
      | inr (u, q) ↦
          let (landed, listing) = Landed-of u status e q h in (u, status, landed, listing)
    ]
  ]

  expired_of : Expires parse input → classify_page_result parse input ≡ page_expired
  unfolding classify_page_result
  expired_of (u, status, landed, listing) = ground (
    arith,
    same_iff u.protocol (codes "https:"),
    same_iff (lower_ascii u.hostname) (codes "www.catho.com.br"),
    same_iff u.pathname (codes "/vagas"),
    same_iff u.pathname (codes "/vagas/"),
  )

  -- A page is taken for expired exactly when its answer is 2xx, its final URL is https on
  -- www.catho.com.br with the default port, and the path is the bare listing.
  pub classify_page_result-expired_iff :
      (classify_page_result parse input ≡ page_expired) ↔ Expires parse input
  classify_page_result-expired_iff = (Expires-of, expired_of)
