-- ===== src/Stream/Loop/Ledger.antt =====
-- The consumer loop over the in-memory adapters: what it leaves in the ledger.
use skn25_final_4team.Prelude.{
  ◌+◌, ◌≡◌, refl, true, false, Option, none, some, List, [], ◌∷◌, arith, String, All, All-mono, Exc,
  Result, ok, raises, Bool-cases, inl, inr,
}
use skn25_final_4team.Stream.Event.{PyLib}
use skn25_final_4team.Stream.Decision.{KafkaMessage, Context, InsertPayload}
use skn25_final_4team.Stream.Adapters.{
  InMemoryPostgresEventWriter, InMemoryKafkaProducer, in_rows, insert_measurement_event, produce,
}
use skn25_final_4team.Stream.Runner.{StreamConsumerProcessResult}
use skn25_final_4team.Stream.Runner.Contract.{process_cases}
use skn25_final_4team.Stream.Runner.Redelivery.{
  Adapters, process, recorded, commit-recorded, recorded-process,
}
use skn25_final_4team.Stream.Loop.{
  Poll, idle, arrives, fails, LoopState, Limits, at_limit, settle, poll_step, run_consumer_loop,
}
use skn25_final_4team.Stream.Loop.Induction.{state_of, run_induction}

-- No two rows have the same key.
abbrev pub Distinct : {F : Type 0} → List (String × InsertPayload F) → Type 0
Distinct [] = Unit
Distinct (r ∷ rows) = (in_rows r.0 rows ≡ false) × Distinct rows

insert-Distinct :
    {F : Type 0} (w : InMemoryPostgresEventWriter F) (p : InsertPayload F)
    → Distinct w.rows
    → Distinct (insert_measurement_event w p).1.rows
unfolding insert_measurement_event
insert-Distinct w p d = ground arith

module _ {F : Type 0} (py : PyLib F) (limits : Limits) (identity : Option String) where
  abbrev State : Type 0
  State = LoopState F (InMemoryPostgresEventWriter F) (InMemoryKafkaProducer F)

  pub record IsSound (s : State) : Type 0 where
    pub committed : All (λ m. recorded py m (s.writer, s.producer) ≡ true) s.offsets
    pub distinct : Distinct s.writer.rows

  process-Distinct :
      (message : KafkaMessage F) (ctx : Context) (s : Adapters py)
      → Distinct s.0.rows
      → Distinct (process py message ctx s).1.0.rows
  process-Distinct message ctx s d =
      process_cases py insert_measurement_event produce s.0 s.1 (λ t. Distinct t.0.rows) d
        (λ p. insert-Distinct s.0 p d) (λ topic key p. d) ctx message

  settle-IsSound :
      (message : KafkaMessage F) (commit : Option Exc)
      (result : Result (StreamConsumerProcessResult F)) (s : State)
      → ((r : StreamConsumerProcessResult F)
          → result ≡ ok r
          → r.decision.commit_offset ≡ true
          → recorded py message (s.writer, s.producer) ≡ true)
      → IsSound s
      → IsSound (
          state_of
            (settle py insert_measurement_event produce limits identity message commit result s))
  unfolding settle
  settle-IsSound message commit (raises e) s h v = v
  settle-IsSound message none (ok r) s h v = elim (Bool-cases r.decision.commit_offset) [
    | inr e ↦ rw e (record { committed = v.committed; distinct = v.distinct })
    | inl e ↦ rw e (record { committed = (h r refl e, v.committed); distinct = v.distinct })
  ]
  settle-IsSound message (some x) (ok r) s h v = elim (Bool-cases r.decision.commit_offset) [
    | inr e ↦ rw e (record { committed = v.committed; distinct = v.distinct })
    | inl e ↦ rw e v
  ]

  poll_step-IsSound :
      (p : Poll F) (s : State)
      → IsSound s
      → IsSound (state_of (poll_step py insert_measurement_event produce limits identity p s))
  unfolding poll_step
  poll_step-IsSound idle s v =
      elim (Bool-cases (at_limit limits.max_idle_polls (s.idle_polls + 1))) [
        | inl e ↦ rw e (record { committed = v.committed; distinct = v.distinct })
        | inr e ↦ rw e (record { committed = v.committed; distinct = v.distinct })
      ]
  poll_step-IsSound (fails e) s v = v
  poll_step-IsSound (arrives message now commit) s v =
      let ctx : Context = record {
        now = now;
        consumed_at = none;
        kafka_topic_identity = identity;
      } in
      let before : Adapters py = (s.writer, s.producer) in
      settle-IsSound message commit _ _ (λ r. commit-recorded py message ctx before r)
        (record {
          committed =
              All-mono _ _ (λ m. recorded-process py m message ctx before) s.offsets v.committed;
          distinct = process-Distinct message ctx before v.distinct;
        })

  -- After any polls over the in-memory adapters, whatever fails, for each message whose offset was
  -- committed the ledger has a row under the message's key if it is valid, and the dead letters have
  -- one with its partition and offset if it is not; and a ledger whose keys were distinct before has
  -- distinct keys.
  pub run_consumer_loop-IsSound :
      (ps : List (Poll F)) (w : InMemoryPostgresEventWriter F) (q : InMemoryKafkaProducer F)
      → Distinct w.rows
      → IsSound (run_consumer_loop py insert_measurement_event produce limits identity ps w q).1
  unfolding run_consumer_loop
  run_consumer_loop-IsSound ps w q d =
      run_induction py insert_measurement_event produce limits identity IsSound poll_step-IsSound ps
        _ (record { committed = tt; distinct = d })
