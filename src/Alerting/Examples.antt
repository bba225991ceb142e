-- ===== src/Alerting/Examples.antt =====
-- The queue of alerts when two conditions are raised, one of them twice, and one is delivered.
use argos_career.Base.{◌≡◌, refl, codes, none, List, [], ◌∷◌, map, arith}
use argos_career.Alerting.Pending.{PendingAlertRow, PendingAlerts, list, count}
use argos_career.Alerting.Queue.{IsQueue, Event, failed_to_send, delivered, after, after-IsQueue}

abbrev empty_queue : PendingAlerts
empty_queue = record { rows = []; next_id = 1 }

empty_queue-IsQueue : IsQueue empty_queue
empty_queue-IsQueue = record { distinct = tt; before = tt; bounded = omega arith }

abbrev events : List Event
events =
    failed_to_send (codes "delivery:failed") (codes "Delivery failed.") 20 none
    ∷ failed_to_send (codes "run:missed") (codes "No run.") 10 none
    ∷ failed_to_send (codes "delivery:failed") (codes "Delivery failed again.") 30 none
    ∷ []

oldest_first :
    map (λ (r : PendingAlertRow). r.occurrences) (list 10 (after events empty_queue)) ≡ 1 ∷ 2 ∷ []
unfolding after list
oldest_first = refl

one_left : count (after (delivered 1 ∷ []) (after events empty_queue)) ≡ 1
unfolding after count
one_left = refl

after-IsQueue_example : IsQueue (after events empty_queue)
after-IsQueue_example = after-IsQueue events empty_queue empty_queue-IsQueue
