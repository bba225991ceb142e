-- ===== src/Delivery/Resume.antt =====
-- What a notification of telegram-notifier.ts hands to the transport, whatever others do to the
-- tables meanwhile.
use argos_career.Base.{
  ℕ, ◌+◌, ◌≡◌, refl, ap, inl, inr, Bool, true, false, Text, List, [], ◌∷◌, ◌++◌, any, every,
  if◌then◌else◌, arith, Bool-cases,
}
use argos_career.Persistence.DeliveryOperations.{
  Db, ChunkRow, is_confirmed, is_sending_or_uncertain, claim, start_chunk,
}
use argos_career.Delivery.Notifier.{
  SendResult, sent, not_sent, ok, Notified, Setting, answered, attempt, pass, deliver,
  notify_prepared,
}

-- The indices of the rows that are not confirmed, in the order of the rows.

abbrev pub unconfirmed : List ChunkRow → List ℕ
unconfirmed [] = []
unconfirmed (r ∷ rs) =
    if is_confirmed r.status then unconfirmed rs else r.chunk_index ∷ unconfirmed rs

abbrev pub IsPrefix : List ℕ → List ℕ → Type 0
IsPrefix xs ys = (rest : List ℕ) × (xs ++ rest ≡ ys)

-- What there is to hand over: nothing while a chunk is in doubt.
abbrev pub due : List ChunkRow → List ℕ
due rows =
    if any (λ (r : ChunkRow). is_sending_or_uncertain r.status) rows then [] else unconfirmed rows

-- The chunks of these indices are handed over in order, each once, up to some point, and all of
-- them when the notification is ok.
pub record HandsOver (n : Notified) (indices : List ℕ) : Type 0 where
  pub in_order : IsPrefix n.handed indices
  pub all_when_ok : n.result ≡ ok → n.handed ≡ indices

every-unconfirmed :
    (rows : List ChunkRow)
    → every (λ (r : ChunkRow). is_confirmed r.status) rows ≡ true
    → unconfirmed rows ≡ []
every-unconfirmed [] h = refl
every-unconfirmed (r ∷ rs) h = ground (arith, every-unconfirmed rs)

module _ (s : Setting) (operation_id : Text) (row : ChunkRow) (rows : List ChunkRow) where
  module _ (rest : ℕ → Db → Notified)
      (h : (tick : ℕ) (db : Db) → HandsOver (rest tick db) (unconfirmed rows)) where
    answered-HandsOver :
        (tick : ℕ) (db : Db) (answer : SendResult)
        → HandsOver (answered s operation_id row tick rest db answer) (unconfirmed rows)
    unfolding answered
    answered-HandsOver tick db (sent message_id) = h _ _
    answered-HandsOver tick db (not_sent error uncertain) = record {
      in_order = (unconfirmed rows, refl);
      all_when_ok = λ e. cc;
    }

    attempt-HandsOver :
        (tick : ℕ) (db : Db) (owned : Bool)
        → is_confirmed row.status ≡ false
        → HandsOver (attempt s operation_id row tick rest db owned) (unconfirmed (row ∷ rows))
    unfolding attempt
    attempt-HandsOver tick db false e = record {
      in_order = (unconfirmed (row ∷ rows), refl);
      all_when_ok = λ k. cc;
    }
    attempt-HandsOver tick db true e =
        let (later, answer) =
          s.send (tick + 1) (start_chunk operation_id row.chunk_index (s.clock (tick + 1)) db)
            row.body in
        let tail = answered-HandsOver tick later answer in
        record {
          in_order = (tail.in_order.0, rw e (ap (λ is. row.chunk_index ∷ is) tail.in_order.1));
          all_when_ok = λ k. rw e (ap (λ is. row.chunk_index ∷ is) (tail.all_when_ok k));
        }

    pass-HandsOver :
        (tick : ℕ) (db : Db) (confirmed : Bool)
        → is_confirmed row.status ≡ confirmed
        → HandsOver (pass s operation_id row tick rest db confirmed) (unconfirmed (row ∷ rows))
    unfolding pass
    pass-HandsOver tick db true e = record {
      in_order = ((h tick db).in_order.0, rw e (h tick db).in_order.1);
      all_when_ok = λ k. rw e ((h tick db).all_when_ok k);
    }
    pass-HandsOver tick db false e =
        (let (claimed, owned) = claim operation_id s.owner (s.clock tick) s.delivery_lease_ms db in
          attempt-HandsOver tick claimed owned e)

module _ (s : Setting) where
  deliver-HandsOver :
      (operation_id : Text) (tick : ℕ) (db : Db) (rows : List ChunkRow)
      → HandsOver (deliver s operation_id tick db rows) (unconfirmed rows)
  unfolding deliver
  deliver-HandsOver operation_id tick db [] = record {
    in_order = ([], refl);
    all_when_ok = λ h. refl;
  }
  deliver-HandsOver operation_id tick db (row ∷ rows) =
      pass-HandsOver s operation_id row rows _ (λ t d. deliver-HandsOver operation_id t d rows) tick
        db (is_confirmed row.status) refl

  -- From the rows that were prepared, whatever the transport answers and others do to the tables
  -- while it is awaited: the chunks that are not confirmed are handed over in their order, each at
  -- most once, and all of them when the notification is ok; but none while a chunk is in doubt.
  pub notify_prepared-HandsOver :
      (operation_id : Text) (tick : ℕ) (db : Db) (rows : List ChunkRow)
      → HandsOver (notify_prepared s operation_id tick db rows) (due rows)
  unfolding notify_prepared
  notify_prepared-HandsOver operation_id tick db rows =
      let (claimed, owned) = claim operation_id s.owner (s.clock tick) s.delivery_lease_ms db in
      elim (Bool-cases (every (λ (r : ChunkRow). is_confirmed r.status) rows)) [
        | inl e ↦
            let nothing : due rows ≡ [] = ground (arith, every-unconfirmed rows) in
            rw (e, nothing) (record { in_order = ([], refl); all_when_ok = λ k. refl })
        | inr e ↦
            elim (Bool-cases (any (λ (r : ChunkRow). is_sending_or_uncertain r.status) rows)) [
              | inl d ↦ rw (e, d) (record { in_order = ([], refl); all_when_ok = λ k. refl })
              | inr d ↦ elim (Bool-cases owned) [
                | inl o ↦
                    let all = deliver-HandsOver operation_id (tick + 1) claimed rows in
                    rw (e, d, o) (record { in_order = all.in_order; all_when_ok = all.all_when_ok })
                | inr o ↦
                    rw (e, d, o)
                      (record { in_order = (unconfirmed rows, refl); all_when_ok = λ k. cc })
              ]
            ]
      ]
