-- ===== src/Pipeline.antt =====
-- A delivery run: src/cli/main.ts, with the run rows and the budget of international postings.
mod RunRows
mod Origin
mod State
mod Score
mod Deliver
mod Budget
mod Tally
mod Told
mod Accounts
mod Closing
mod Examples
