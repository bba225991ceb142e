-- ===== src/Alerting/Queue.antt =====
-- That the queue of pending-alerts-repository.ts is bounded and holds a condition once.
use argos_career.Base.{
  ℕ, ◌≤◌, ◌≡◌, refl, inl, inr, Bool, not, Bool-cases, Text, Option, List, [], ◌∷◌, any, filter,
  take, length, sort, All-filter, ◌==◌, arith,
}
use argos_career.Alerting.Pending.{
  PendingAlertRow, PendingAlerts, max_queued_alerts, has_key, raise_again, is_older, list,
  trim_queue, queue, remove,
}
use argos_career.Alerting.Rows.{
  has_id, AreDistinct, AreBefore, AreDistinct-filter, length_among, All-filtered, length-take,
  length-filter, AreDistinct-append_one, AreBefore-append_one,
}

pub record IsQueue (alerts : PendingAlerts) : Type 0 where
  pub distinct : AreDistinct alerts.rows
  pub before : AreBefore alerts.next_id alerts.rows
  pub bounded : length alerts.rows ≤ max_queued_alerts

trim_queue-IsQueue :
    (alerts : PendingAlerts)
    → AreDistinct alerts.rows
    → AreBefore alerts.next_id alerts.rows
    → IsQueue (trim_queue alerts)
unfolding trim_queue list
trim_queue-IsQueue alerts d b = record {
  distinct = AreDistinct-filter is_kept alerts.rows d;
  before = All-filter _ is_kept alerts.rows b;
  bounded = omega (
    arith,
    length_among (filter is_kept alerts.rows) kept (AreDistinct-filter is_kept alerts.rows d)
        (All-filtered is_kept alerts.rows),
    length-take max_queued_alerts (sort is_older alerts.rows),
  );
}
  where
    kept : List PendingAlertRow
    kept = take max_queued_alerts (sort is_older alerts.rows)

    is_kept : PendingAlertRow → Bool
    is_kept r = any (has_id r.id) kept

module _ (alert_key text : Text) (now : ℕ) (error : Option Text) where
  any-raise_again_id :
      (id : ℕ) (rows : List PendingAlertRow)
      → any (has_id id) (raise_again alert_key text now error rows) ≡ any (has_id id) rows
  unfolding raise_again
  any-raise_again_id id [] = refl
  any-raise_again_id id (r ∷ rows) = ground (arith, any-raise_again_id id rows)

  any-raise_again_key :
      (key : Text) (rows : List PendingAlertRow)
      → any (has_key key) (raise_again alert_key text now error rows) ≡ any (has_key key) rows
  unfolding raise_again
  any-raise_again_key key [] = refl
  any-raise_again_key key (r ∷ rows) = ground (arith, any-raise_again_key key rows)

  raise_again-AreDistinct :
      (rows : List PendingAlertRow)
      → AreDistinct rows
      → AreDistinct (raise_again alert_key text now error rows)
  unfolding raise_again
  raise_again-AreDistinct [] h = tt
  raise_again-AreDistinct (r ∷ rows) (i, k, h) =
      let ids = any-raise_again_id r.id rows in
      let keys = any-raise_again_key r.alert_key rows in
      (ground (arith, ids, i), ground (arith, keys, k), raise_again-AreDistinct rows h)

  raise_again-AreBefore :
      (n : ℕ) (rows : List PendingAlertRow)
      → AreBefore n rows
      → AreBefore n (raise_again alert_key text now error rows)
  unfolding raise_again
  raise_again-AreBefore n [] h = tt
  raise_again-AreBefore n (r ∷ rows) h = (ground (arith, h.0), raise_again-AreBefore n rows h.1)

queue-IsQueue :
    (alert_key text : Text) (now : ℕ) (error : Option Text) (alerts : PendingAlerts)
    → IsQueue alerts
    → IsQueue (queue alert_key text now error alerts)
unfolding queue
queue-IsQueue alert_key text now error alerts h =
    elim (Bool-cases (any (has_key alert_key) alerts.rows)) [
      | inl e ↦ rw e (
          trim_queue-IsQueue _
            (raise_again-AreDistinct alert_key text now error alerts.rows h.distinct)
            (raise_again-AreBefore alert_key text now error alerts.next_id alerts.rows h.before))
      | inr e ↦ rw e (
          trim_queue-IsQueue _ (AreDistinct-append_one alerts.rows _ h.distinct h.before e)
            (AreBefore-append_one alerts.next_id alerts.rows _ h.before refl))
    ]

remove-IsQueue : (id : ℕ) (alerts : PendingAlerts) → IsQueue alerts → IsQueue (remove id alerts)
unfolding remove
remove-IsQueue id alerts h = record {
  distinct = AreDistinct-filter _ alerts.rows h.distinct;
  before = All-filter _ _ alerts.rows h.before;
  bounded =
      omega
        (arith, h.bounded, length-filter (λ (r : PendingAlertRow). not (r.id == id)) alerts.rows);
}

-- What the service does to the queue.
pub data Event : Type 0 where
  failed_to_send : Text → Text → ℕ → Option Text → Event
  delivered : ℕ → Event

unfoldable pub after : List Event → PendingAlerts → PendingAlerts
unfolding queue remove
after [] alerts = alerts
after (failed_to_send alert_key text now error ∷ events) alerts =
    after events (queue alert_key text now error alerts)
after (delivered id ∷ events) alerts = after events (remove id alerts)

-- However alerts fail and are delivered, a queue that holds at most 50 rows, each with an id of its own
-- that was given out before and each with a key of its own, remains one.
pub after-IsQueue :
    (events : List Event) (alerts : PendingAlerts) → IsQueue alerts → IsQueue (after events alerts)
unfolding after
after-IsQueue [] alerts h = h
after-IsQueue (failed_to_send alert_key text now error ∷ events) alerts h =
    after-IsQueue events (queue alert_key text now error alerts)
      (queue-IsQueue alert_key text now error alerts h)
after-IsQueue (delivered id ∷ events) alerts h =
    after-IsQueue events (remove id alerts) (remove-IsQueue id alerts h)
