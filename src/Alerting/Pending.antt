-- ===== src/Alerting/Pending.antt =====
-- src/persistence/infrastructure/pending-alerts-repository.ts: the queue of alerts whose send failed.
use argos_career.Base.{
  ℕ, ◌+◌, Bool, not, ◌++◌, Text, same, Option, List, [], ◌∷◌, any, filter, map, take, length, sort,
  ltb, ◌==◌, if◌then◌else◌,
}

pub record PendingAlertRow : Type 0 where
  pub id : ℕ
  pub alert_key : Text
  pub text : Text
  pub first_queued_at : ℕ
  pub last_queued_at : ℕ
  pub occurrences : ℕ
  pub last_error : Option Text

-- The rows in the order of their ids, and the id of the next one.
pub record PendingAlerts : Type 0 where
  pub rows : List PendingAlertRow
  pub next_id : ℕ

abbrev pub max_queued_alerts : ℕ
max_queued_alerts = 50

abbrev pub has_key : Text → PendingAlertRow → Bool
has_key alert_key r = same r.alert_key alert_key

-- The newest wording wins; the first instant stays.
unfoldable pub raise_again :
    Text → Text → ℕ → Option Text → List PendingAlertRow → List PendingAlertRow
raise_again alert_key text now error = map (λ (r : PendingAlertRow).
    if has_key alert_key r
    then record r {
      text = text;
      last_queued_at = now;
      occurrences = r.occurrences + 1;
      last_error = error;
    }
    else r)

abbrev pub is_older : PendingAlertRow → PendingAlertRow → Bool
is_older a b = ltb a.first_queued_at b.first_queued_at

-- `ORDER BY first_queued_at ASC LIMIT n`; rows of one instant stand in the order of their ids.
unfoldable pub list : ℕ → PendingAlerts → List PendingAlertRow
unfolding sort
list limit alerts = take limit (sort is_older alerts.rows)

unfoldable pub trim_queue : PendingAlerts → PendingAlerts
unfolding list
trim_queue alerts =
    let kept = list max_queued_alerts alerts in
    record alerts {
      rows =
          filter (λ (r : PendingAlertRow). any (λ (k : PendingAlertRow). k.id == r.id) kept)
            alerts.rows;
    }

unfoldable pub queue : Text → Text → ℕ → Option Text → PendingAlerts → PendingAlerts
unfolding raise_again trim_queue
queue alert_key text now error alerts =
    if any (has_key alert_key) alerts.rows
    then trim_queue (record alerts { rows = raise_again alert_key text now error alerts.rows })
    else trim_queue (record {
      rows =
          alerts.rows
          ++ (record {
            id = alerts.next_id;
            alert_key = alert_key;
            text = text;
            first_queued_at = now;
            last_queued_at = now;
            occurrences = 1;
            last_error = error;
          }
              ∷ []);
      next_id = alerts.next_id + 1;
    })

unfoldable pub remove : ℕ → PendingAlerts → PendingAlerts
remove id alerts = record alerts {
  rows = filter (λ (r : PendingAlertRow). not (r.id == id)) alerts.rows;
}

unfoldable pub count : PendingAlerts → ℕ
count alerts = length alerts.rows
