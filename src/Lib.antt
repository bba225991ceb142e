-- ===== src/Lib.antt =====
-- Argos Career collects job postings, filters them by rules, scores the rest against a profile and
-- delivers a daily digest. This library models the parts that decide: the rules, the numbers, the
-- locks and the states.
--
-- Parts, files and sources (paths from the root of the repository):
--   Base        lists, texts, maps, sets, the stable sort and decimal numerals, as the language has them
--   Profile     src/profile/domain/academic-period.ts: computeAcademicPeriod, periodCalendarLabel
--   Posting     src/posting/domain/posting.ts and fingerprint.ts: createPosting, computeFingerprint,
--               and the normalizers of src/prefilter/domain/title-match.ts
--   Prefilter   src/prefilter/domain: pre-filter.ts (Rules), title-match.ts and classify-track.ts
--               (TitleMatch), rank-for-scoring.ts (Rank), the fields of criteria.ts that these read;
--               Dates says of a posting's dates what the rules on deadline and age test
--   Scoring     src/scoring/domain: types.ts (Types), period-gate.ts (PeriodGate), score.ts (Stage)
--   Delivery    src/delivery/domain/digest.ts: composeDigest; splitForTelegram of
--               src/delivery/infrastructure/telegram-notifier.ts (Split), its notify (Notifier) and
--               sendMessageDetailed (Sender)
--   Persistence src/persistence/infrastructure/delivery-operations-repository.ts, with the tables of
--               schema.ts that it uses (DeliveryOperations); postings-repository.ts, the columns that
--               say what has become of a posting and the methods that write them (Postings), and its
--               upsert, upsertMany, markSeenIfPresent and updateExtractedFields (Upsert); Writes
--               are these methods as steps on one table, of which Keeping is what they keep
--   Transport   src/scoring/infrastructure/circuit-breaker.ts: the class CircuitBreaker
--   Scheduling  src/scheduling/domain/run-lock.ts: RunLock and runExclusive
--   Llm         src/scoring/infrastructure/openrouter-client.ts: the categories of failures
--               (Categories), the envelope (Envelope), the body (Body), OpenRouterClient (Client);
--               llm-output.ts: normalizeModelOutput (Normalize) and the retries (Output)
--   Evidence    src/scoring/domain: evidence-catalog.ts (Catalog), evidence-provenance.ts (Provenance),
--               recommendation.ts (Recommendation)
--   StageB      src/scoring/infrastructure/stage-b-matcher.ts: StageBMatcher.match (Matcher), over
--               src/persistence/infrastructure/matches-repository.ts (Matches)
--   Dedup       src/posting/domain/title-similarity.ts (TitleSimilarity) and
--               src/persistence/application/dedup-similar-postings.ts (Similar)
--   Alerting    src/persistence/infrastructure/pending-alerts-repository.ts (Pending)
--   Pipeline    src/cli/main.ts: executeDeliver (State, Score, Deliver), with the run rows of
--               runs-repository.ts (RunRows) and posting-origin.ts (Origin)
--   Catho       collectors/catho: state.ts (State), runOnce of collect.ts and requeue.ts (Collect)
--
-- How the parts meet: a posting that passes the pre-filter is ranked, the model's matches for it
-- are scored by computeScore, which asks the academic calendar for the period gate, and the
-- outcomes are the entries of the digest. A run claims postings before it scores them and releases
-- in the end the claims of those that it did not notify. The digest's text is split and sent chunk
-- by chunk, each one recorded in the delivery operations. The runs that do this exclude one another
-- by the run lock, and their calls of the model pass the circuit breaker. The Catho collector is a
-- process of its own, with its state in a file.
--
-- A method that changes its object takes the object and returns it with its result. Names are the
-- source's, in snake_case. Every recursion is structural but three that have fuel: the loop of the
-- decimal numerals, whose fuel is the number plus one; the loop of parseModelOutputWithRetries,
-- whose fuel is the sum of its two budgets plus one, of which each pass that goes on spends one;
-- and runBounded, whose fuel is the number of requirements, of which each is asked once at most.
--
-- Numbers: counts, days and instants are naturals; an instant is its milliseconds of the epoch, and
-- a difference of instants is compared with the subtrahend on the other side. Days and hours of the
-- criteria, and retries, are whole numbers. Scores and weights are of any type with the interface
-- Double, and the theorems that need its laws take them as IsDouble: a total order, and rounded
-- operations that are monotone, which holds of IEEE doubles as long as no operation gives NaN.
-- Scoring.Fixed fills the interface with thousandths.
--
-- Parameters, for what is not code of the repository: Unicode (lower case, NFD, letters and
-- numbers), SHA-256, toUpperCase, the parser of URLs, the page that the browser loads, whether the
-- API confirmed a batch, and what sendMessageDetailed answers, with what others do to the tables
-- while it is awaited. For the client of the model: what the transport comes to, JSON.parse with
-- the two schemas, the parsers of numbers and dates; for stage B, what the retries return for a
-- requirement, NFKD, and the order in which the concurrent requests are answered; the cost is
-- counted in a whole unit, and latencies and log lines are left out. For a delivery run: the
-- similarity pass, the scorer and the notifier, each of which may throw, and others write to the
-- table of postings while they are awaited. A table is a list of rows, and each method of a
-- repository is one step on it; the claims of a notification read the clock in the order of the
-- source.
--
-- Texts are lists of code points. A JSON object is an association list in the order in which its
-- keys were added; that the language puts keys that look like integers first is left out. The raw
-- payload of a posting, which no modelled code reads, is left out.
--
-- Not modelled: the other repositories, the HTTP API, stage A and the scorer over both stages, the
-- prompts, the other commands of src/cli/main.ts, the collectors of the sites but Catho's state and
-- run, the market analysis, the evaluation of alerts, configuration and scripts. Of
-- collectors/catho, the lock file, the reading of the state file and the discovery of candidates
-- are left out, and a run that is cut off midway too.

pub mod Base
pub mod Profile
pub mod Scoring
pub mod Transport
pub mod Scheduling
pub mod Catho
pub mod Posting
pub mod Prefilter
pub mod Persistence
pub mod Delivery
pub mod Alerting
pub mod Dedup
pub mod Evidence
pub mod Llm
pub mod Pipeline
pub mod StageB
