-- ===== src/Stream/Loop/Accounting.antt =====
-- The counters of the consumer loop, and what the rebalance gate makes of them.
use mathlib.Core.Path.{subst}
use skn25_final_4team.Prelude.{
  ◌+◌, ◌≤◌, ◌≡◌, refl, ◌↔◌, false, Option, List, arith, length, Exc, Result, ok, raises, String,
}
use skn25_final_4team.Stream.Event.{PyLib}
use skn25_final_4team.Stream.Decision.{KafkaMessage, InsertPayload, DlqPayload, retry}
use skn25_final_4team.Stream.Adapters.{PostgresWriteResult, Ack}
use skn25_final_4team.Stream.Runner.{StreamConsumerProcessResult}
use skn25_final_4team.Stream.Runner.Contract.{process-retry}
use skn25_final_4team.Stream.Loop.Induction.{state_of, run_induction}
use skn25_final_4team.Stream.Loop.{
  Poll, idle, arrives, fails, LoopState, Limits, settle, poll_step, run_consumer_loop,
  validate_rebalance_gate_stats,
}

-- The counters of a loop state.
pub record Accounts {F W Q : Type 0} (s : LoopState F W Q) : Type 0 where
  pub sum : s.stats.processed ≡ s.stats.inserted + s.stats.duplicate + s.stats.dlq + s.stats.retried
  pub offsets : s.stats.committed ≡ length s.offsets
  pub retries : s.stats.committed + s.stats.retried ≤ s.stats.processed
  pub polls : s.stats.processed ≤ s.stats.polled

module _ {F W Q : Type 0} (py : PyLib F)
    (insert : W → InsertPayload F → Result PostgresWriteResult × W)
    (produce : Q → String → String → DlqPayload F → Result Ack × Q) (limits : Limits)
    (identity : Option String) where
  -- One more message polled, and none of its counters changed yet.
  settle-Accounts :
      (message : KafkaMessage F) (commit : Option Exc)
      (result : Result (StreamConsumerProcessResult F)) (s : LoopState F W Q)
      → ((r : StreamConsumerProcessResult F)
          → result ≡ ok r
          → r.decision.action ≡ retry
          → r.decision.commit_offset ≡ false)
      → Accounts s
      → s.stats.processed + 1 ≤ s.stats.polled
      → Accounts (state_of (settle py insert produce limits identity message commit result s))
  unfolding settle
  settle-Accounts message commit (raises e) s h a p = a
  settle-Accounts message commit (ok r) s h a p =
      let safe = h r refl in
      record {
        sum = ground arith;
        offsets = ground arith;
        retries = ground arith;
        polls = ground arith;
      }

  poll_step-Accounts :
      (p : Poll F) (s : LoopState F W Q)
      → Accounts s
      → Accounts (state_of (poll_step py insert produce limits identity p s))
  unfolding poll_step
  poll_step-Accounts idle s a = record {
    sum = ground arith;
    offsets = ground arith;
    retries = ground arith;
    polls = ground arith;
  }
  poll_step-Accounts (fails e) s a = a
  poll_step-Accounts (arrives message now commit) s a =
      settle-Accounts message commit _ _
        (process-retry py insert produce message _ s.writer s.producer)
        (record {
          sum = a.sum;
          offsets = a.offsets;
          retries = a.retries;
          polls = omega (arith, a.polls);
        })
        (omega (arith, a.polls))

  -- However the adapters behave, after any polls every message processed has been counted as
  -- inserted, duplicate, dead-lettered or to be retried; the committed counter is the number of
  -- offsets committed; a message to be retried is not among them; and no more messages have been
  -- processed than polled.
  pub run_consumer_loop-Accounts :
      (ps : List (Poll F)) (w : W) (q : Q)
      → Accounts (run_consumer_loop py insert produce limits identity ps w q).1
  unfolding run_consumer_loop
  run_consumer_loop-Accounts ps w q =
      run_induction py insert produce limits identity Accounts poll_step-Accounts ps _
        (record { sum = omega arith; offsets = refl; retries = omega arith; polls = omega arith })

  -- After any polls, the rebalance gate accepts the counters exactly if no message is to be retried
  -- and every message processed had its offset committed.
  pub gate-after_loop :
      (ps : List (Poll F)) (w : W) (q : Q) (s : LoopState F W Q)
      → (run_consumer_loop py insert produce limits identity ps w q).1 ≡ s
      → (validate_rebalance_gate_stats s.stats ≡ ok tt)
        ↔ ((s.stats.retried ≡ 0) × (length s.offsets ≡ s.stats.processed))
  unfolding validate_rebalance_gate_stats
  gate-after_loop ps w q s e =
      let a = subst Accounts e (run_consumer_loop-Accounts ps w q) in
      (
        λ h. (ground (arith, a.offsets), ground (arith, a.offsets)),
        λ h. ground (arith, a.sum, a.offsets),
      )
