-- ===== src/Persistence/Table.antt =====
-- SQL over a table that is a list of rows.
use argos_career.Base.{Bool, List, map, if◌then◌else◌}

-- `UPDATE … SET … WHERE …`.
abbrev pub update_where : {R : Type 0} → (R → Bool) → (R → R) → List R → List R
update_where p f rows = map (λ r. if p r then f r else r) rows
