-- ===== src/Queue/Sums.antt =====
-- What the sums of a bucket count, and what a pass counts.
use native.Mathlib.Nat.{suc-mul}
use skn25_final_4team.Prelude.{
  ℕ, zero, suc, ◌+◌, ◌*◌, ◌≤◌, ◌≡◌, refl, sym, ◌∙◌, ap, String, Bool, false, ◌||◌, Option, some,
  List, [], ◌∷◌, ◌++◌, map, max, ◌==◌, ==_iff, any, keep, length, Bool-cases, inl, inr, arith,
}
use skn25_final_4team.Live.{mean_rollup, peak_feature, res_15min, res_1h}
use skn25_final_4team.Live.Coverage.{WorkerFloats}
use skn25_final_4team.Equalize.{sorted}
use skn25_final_4team.Queue.{QueueRow, Claim, take, row_before, claimable, claimable_ids, locked}
use skn25_final_4team.Queue.Drain.{is_in}
use skn25_final_4team.Queue.Claims.{Unique, completed-locked, pass-claimed}
use skn25_final_4team.Queue.Stats.{
  MinuteRow, in_bucket, unnest, joined, sum_over, BucketStats, bucket_stats,
}
use skn25_final_4team.Queue.Outputs.{Tables, branch, promotion_check, run, counts}

-- The points of minutes, each as often as the minute has ids, and once if it has none.
abbrev pub repeated : (MinuteRow → ℕ) → List MinuteRow → ℕ
repeated points [] = 0
repeated points (m ∷ rest) = max 1 (length m.source_event_ids) * points m + repeated points rest

sum_over-append :
    (points : MinuteRow → ℕ) (a b : List (MinuteRow × Option String))
    → sum_over points (a ++ b) ≡ sum_over points a + sum_over points b
unfolding sum_over
sum_over-append points [] b = omega arith
sum_over-append points ((m, id) ∷ a) b = omega (arith, sum_over-append points a b)

suc-times : (n p : ℕ) → suc n * p ≡ p + n * p
suc-times n p = omega (arith, suc-mul n p)

sum_over-copies :
    (points : MinuteRow → ℕ) (m : MinuteRow) (ids : List String)
    → sum_over points (map (λ i. (m, some i)) ids) ≡ length ids * points m
unfolding sum_over
sum_over-copies points m [] = omega arith
sum_over-copies points m (id ∷ ids) =
    let later = sum_over-copies points m ids in
    ap (λ n. points m + n) later ∙ sym (suc-times (length ids) (points m))

sum_over-unnest :
    (points : MinuteRow → ℕ) (m : MinuteRow) (ids : List String)
    → sum_over points (unnest m ids) ≡ max 1 (length ids) * points m
unfolding unnest sum_over
sum_over-unnest points m [] = omega arith
sum_over-unnest points m (id ∷ ids) =
    let at_least_one : suc (length ids) ≡ max 1 (suc (length ids)) = omega arith in
    sum_over-copies points m (id ∷ ids) ∙ ap (λ n. n * points m) at_least_one

sum_over-joined :
    (points : MinuteRow → ℕ) (minutes : List MinuteRow)
    → sum_over points (joined minutes) ≡ repeated points minutes
unfolding joined sum_over
sum_over-joined points [] = refl
sum_over-joined points (m ∷ rest) =
    sum_over-append points (unnest m m.source_event_ids) (joined rest)
    ∙ omega (arith, sum_over-unnest points m m.source_event_ids, sum_over-joined points rest)

-- The sums of a bucket's statistics count the points of each minute of the bucket as often as the
-- minute has source event ids, and once if it has none.
pub bucket_stats-repeated :
    (W : WorkerFloats) (minutes : List MinuteRow) (l : QueueRow)
    → ((bucket_stats W minutes l).expected_points
        ≡ repeated (λ m. m.expected_points) (keep (in_bucket l) minutes))
      × ((bucket_stats W minutes l).observed_points
          ≡ repeated (λ m. m.observed_points) (keep (in_bucket l) minutes))
      × ((bucket_stats W minutes l).gap_points
          ≡ repeated (λ m. m.gap_points) (keep (in_bucket l) minutes))
unfolding bucket_stats
bucket_stats-repeated W minutes l = (
  sum_over-joined (λ m. m.expected_points) (keep (in_bucket l) minutes),
  sum_over-joined (λ m. m.observed_points) (keep (in_bucket l) minutes),
  sum_over-joined (λ m. m.gap_points) (keep (in_bucket l) minutes),
)

length-map {ℓ κ} : {A : Type ℓ} {B : Type κ} (f : A → B) (l : List A) → length (map f l) ≡ length l
length-map f [] = refl
length-map f (a ∷ l) = omega (arith, length-map f l)

length-append {ℓ} : {A : Type ℓ} (a b : List A) → length (a ++ b) ≡ length a + length b
length-append [] b = omega arith
length-append (x ∷ a) b = omega (arith, length-append a b)

length-take-le {ℓ} : {A : Type ℓ} (n : ℕ) (l : List A) → length (take n l) ≤ n
unfolding take
length-take-le zero l = omega arith
length-take-le (suc n) [] = omega arith
length-take-le (suc n) (a ∷ l) = omega (arith, length-take-le n l)

-- Rows with one id: none if the id is absent, and at most one if ids are unique.
none_with :
    (id : ℕ) (queue : List QueueRow)
    → any (λ r. r.queue_id == id) queue ≡ false
    → length (keep (λ q. q.queue_id == id) queue) ≡ 0
none_with id [] h = refl
none_with id (q ∷ rest) h = ground (arith, none_with id rest)

one_with :
    (id : ℕ) (queue : List QueueRow)
    → Unique queue
    → length (keep (λ q. q.queue_id == id) queue) ≤ 1
one_with id [] u = omega arith
one_with id (q ∷ rest) (fresh, u) = elim (Bool-cases (q.queue_id == id)) [
  | inl e ↦
      let same : q.queue_id ≡ id = (==_iff q.queue_id id).0 e in
      let rest_none = none_with id rest (rw same at fresh) in rw e (omega (arith, rest_none))
  | inr e ↦ rw e (one_with id rest u)
]

keep-or-le :
    (p q : QueueRow → Bool) (queue : List QueueRow)
    → length (keep (λ r. p r || q r) queue) ≤ length (keep p queue) + length (keep q queue)
keep-or-le p q [] = omega arith
keep-or-le p q (r ∷ rest) = ground (arith, keep-or-le p q rest)

keep-none : (queue : List QueueRow) → length (keep (λ q. false) queue) ≡ 0
keep-none [] = refl
keep-none (q ∷ rest) = keep-none rest

-- No more rows have one of the ids than there are ids.
rows-le-ids :
    (ids : List ℕ) (queue : List QueueRow)
    → Unique queue
    → length (keep (is_in ids) queue) ≤ length ids
rows-le-ids [] queue u = omega (arith, keep-none queue)
rows-le-ids (id ∷ ids) queue u = omega (
  arith,
  keep-or-le (λ q. q.queue_id == id) (is_in ids) queue,
  one_with id queue u,
  rows-le-ids ids queue u,
)

few_rows :
    (busy : ℕ → Bool) (c : Claim) (queue : List QueueRow)
    → Unique queue
    → length (locked busy c queue) ≤ c.batch_size
unfolding locked claimable_ids
few_rows busy c queue u =
    let ready = take c.batch_size (sorted row_before (keep (claimable busy c) queue)) in
    let few : length (locked busy c queue) ≤ length (map (λ q. q.queue_id) ready) =
      rows-le-ids (claimable_ids busy c queue) queue u in
    omega (
      arith,
      few,
      length-map (λ q. q.queue_id) ready,
      length-take-le c.batch_size (sorted row_before (keep (claimable busy c) queue)),
    )

module _ (W : WorkerFloats) where
  branches-le :
      (stats : List (BucketStats W))
      → length (branch W (mean_rollup, res_15min) stats)
          + length (branch W (mean_rollup, res_1h) stats)
          + length (branch W (peak_feature, res_15min) stats)
        ≤ length stats
  unfolding branch
  branches-le [] = omega arith
  branches-le (s ∷ rest) = ground (arith, branches-le rest)

  -- If queue ids are unique, then a pass claims no more rows than its batch size and builds no more
  -- rollups and features than it claims; the rows that its UPDATE returns are as many as it claimed,
  -- the queue has that many claimable rows less, and the table of checks that many rows more.
  pub counts-bounded :
      (busy : ℕ → Bool) (c : Claim) (min_coverage : W.Float) (t : Tables W)
      → Unique t.queue
      → ((counts W busy c min_coverage t).claimed_count ≤ c.batch_size)
        × ((counts W busy c min_coverage t).mean_rollup_count
              + (counts W busy c min_coverage t).peak_feature_count
            ≤ (counts W busy c min_coverage t).claimed_count)
        × ((counts W busy c min_coverage t).completed_count
            ≡ (counts W busy c min_coverage t).claimed_count)
        × (length (keep (claimable busy c) (run W busy c min_coverage t).queue)
              + (counts W busy c min_coverage t).completed_count
            ≡ length (keep (claimable busy c) t.queue))
        × (length (run W busy c min_coverage t).checks
            ≡ length t.checks + (counts W busy c min_coverage t).promotion_check_count)
        × ((counts W busy c min_coverage t).promotion_check_count
            ≡ (counts W busy c min_coverage t).claimed_count)
  unfolding counts run locked claimable_ids
  counts-bounded busy c min_coverage t u =
      let rows = locked busy c t.queue in
      let stats = map (bucket_stats W t.minutes) rows in
      let same = length-map (bucket_stats W t.minutes) rows in
      let returned = ap length (completed-locked busy c t.queue) in
      (
        few_rows busy c t.queue u,
        omega (arith, branches-le stats, same),
        returned,
        omega (arith, returned, pass-claimed busy c t.queue u),
        length-append t.checks (map (promotion_check W min_coverage) stats),
        length-map (promotion_check W min_coverage) stats ∙ same,
      )
