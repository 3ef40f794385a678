-- ===== src/Queue/Requests.antt =====
-- What a worker command that is accepted asks for.
use skn25_final_4team.Prelude.{
  ℕ, ◌<◌, ◌≡◌, refl, String, Bool, true, false, not, ◌&&◌, Option, List, [], ◌∷◌, ltb, ltb→lt,
  str_eq, any, keep, All, ok, >>=-eq-ok, ok-injective, require-ok, Bool-cases, inl, inr, refl,
  arith,
}
use skn25_final_4team.Live.{
  JobKind, Resolution, same_spec, allowed_queue_job_specs, among, canonical_tables,
  live_bucket_queue, live_measurement_1min,
}
use skn25_final_4team.Live.Coverage.{WorkerFloats}
use skn25_final_4team.Queue.Command.{
  LiveBucketQueueWorkerCommand, is_empty, normalize_job_specs, optional_text_set, wanted_spec,
  unaware, command_of, assert_allowed_worker_outputs, command_post_init,
  make_live_bucket_queue_worker_command,
}

-- A spec is one of those that the queue's contract allows.
abbrev pub IsAllowed : JobKind × Resolution → Type 0
IsAllowed spec = any (same_spec spec) allowed_queue_job_specs ≡ true

keep-All {ℓ κ} :
    {A : Type ℓ} (P : A → Type κ) (test : A → Bool) (l : List A) → All P l → All P (keep test l)
keep-All P test [] h = tt
keep-All P test (a ∷ l) (here, later) = elim (Bool-cases (test a)) [
  | inl e ↦ rw e (here, keep-All P test l later)
  | inr e ↦ rw e (keep-All P test l later)
]

-- What a command writes and claims.
abbrev pub IsBounded : {W : WorkerFloats} → LiveBucketQueueWorkerCommand W → Type 0
IsBounded c =
    (0 < c.batch_size)
    × (is_empty c.job_specs ≡ false)
    × All IsAllowed c.job_specs
    × (any (λ t. among t canonical_tables) c.output_tables ≡ false)

normalize_job_specs-IsAllowed :
    (kinds resolutions : Option (List String)) (specs : List (JobKind × Resolution))
    → normalize_job_specs kinds resolutions ≡ ok specs
    → (is_empty specs ≡ false) × All IsAllowed specs
unfolding normalize_job_specs
normalize_job_specs-IsAllowed kinds resolutions specs h =
    let (ks, h0, h1) = >>=-eq-ok (optional_text_set kinds) _ h in
    let (rs, h2, h3) = >>=-eq-ok (optional_text_set resolutions) _ h1 in
    let (some_spec, h4) =
      require-ok (not (is_empty (keep (wanted_spec ks rs) allowed_queue_job_specs))) _ _ h3 in
    let same : keep (wanted_spec ks rs) allowed_queue_job_specs ≡ specs = ok-injective h4 in
    let allowed =
      keep-All IsAllowed (wanted_spec ks rs) allowed_queue_job_specs (refl, (refl, (refl, tt))) in
    rw (← same) (ground arith, allowed)

module _ (W : WorkerFloats) (strip : String → String) where
  command_post_init-eq :
      (c d : LiveBucketQueueWorkerCommand W) → command_post_init W strip c ≡ ok d → c ≡ d
  unfolding command_post_init
  command_post_init-eq c d h =
      let (t1, h1) = require-ok (str_eq c.source_table live_bucket_queue) _ _ h in
      let (t2, h2) = require-ok (str_eq c.source_detail_table live_measurement_1min) _ _ h1 in
      let (t3, h3, h4) = >>=-eq-ok (assert_allowed_worker_outputs c.output_tables) _ h2 in
      let (t5, h5) = require-ok (not (is_empty c.job_specs)) _ _ h4 in ok-injective h5

  -- A command that is accepted claims a positive number of rows, of at least one kind and only of
  -- kinds that the queue's contract allows, and writes no canonical table.
  pub make_live_bucket_queue_worker_command-IsBounded :
      (batch_size : ℕ) (worker_id : String) (job_kinds resolutions : Option (List String))
      (min_coverage : W.Float) (max_ts : Option (ℕ × Bool)) (c : LiveBucketQueueWorkerCommand W)
      → make_live_bucket_queue_worker_command W strip batch_size worker_id job_kinds resolutions
          min_coverage max_ts
        ≡ ok c
      → IsBounded c
  unfolding make_live_bucket_queue_worker_command assert_allowed_worker_outputs
  make_live_bucket_queue_worker_command-IsBounded batch_size worker_id job_kinds resolutions
        min_coverage max_ts c h =
      let (positive, h1) = require-ok (ltb 0 batch_size) _ _ h in
      let (t2, h2) = require-ok (not (str_eq (strip worker_id) "")) _ _ h1 in
      let (t3, h3) =
        require-ok (W.at_most (W.of_nat 0) min_coverage && W.at_most min_coverage (W.of_nat 1)) _ _
          h2 in
      let (t4, h4) = require-ok (not (unaware W strip max_ts)) _ _ h3 in
      let (specs, h5, h6) = >>=-eq-ok (normalize_job_specs job_kinds resolutions) _ h4 in
      let same =
        command_post_init-eq (command_of W strip batch_size worker_id specs min_coverage max_ts) c
          h6 in
      let (some_spec, allowed) = normalize_job_specs-IsAllowed job_kinds resolutions specs h5 in
      rw (← same) (ltb→lt 0 batch_size positive, some_spec, allowed, refl)
