-- ===== src/Bucket/Missing.antt =====
-- src/cms/data/missing_bucket_materializer.py: rows for the expected buckets that are absent.
-- The fields of MissingBucketRow that the code fixes (value, mask_code, quality_code, provenance,
-- bad_row, coverage_ratio) are the record's too, so that its checks can be run.
pub mod Gaps
pub mod Coverage
use skn25_final_4team.Prelude.{
  ℕ, String, Bool, true, false, not, ◌&&◌, Option, none, some, List, [], ◌∷◌, ltb, ◌==◌, str_eq,
  any, if◌then◌else◌, Exc, value_error, key_error, Result, ok, raises, require, ◌>>=◌, ◌>>◌,
}
use skn25_final_4team.Bucket.{CadenceClass, ExpectedBucket, BucketKey, expected_bucket_key}

pub record MissingBucketRow : Type 0 where
  pub meter_urn : String
  pub measurement : String
  pub bucket_ts : ℕ
  pub expected_points : ℕ
  pub cadence_class : CadenceClass
  pub value : Option ℕ
  pub observed_points : ℕ
  pub missing_points : ℕ
  pub coverage_ratio : ℕ
  pub mask_code : String
  pub quality_code : String
  pub provenance : String
  pub bad_row : Bool

-- What a mapping holds under a key: no entry, None, or an instant.
pub data Entry : Type 0 where
  absent null : Entry
  at : ℕ → Entry

pub record KeyMapping : Type 0 where
  pub bucket_ts : Entry
  pub timestamp : Entry
  pub window_ts : Entry
  pub meter_urn : Option String
  pub measurement : Option String

pub data ExistingKey : Type 0 where
  tuple : BucketKey → ExistingKey
  bucket : ExpectedBucket → ExistingKey
  mapping : KeyMapping → ExistingKey

abbrev is_none : Option ℕ → Bool
is_none none = true
is_none (some n) = false

-- __post_init__: the row as it is stored, or the first check that fails.
unfoldable pub post_init : MissingBucketRow → Result MissingBucketRow
post_init r = do
  require (ltb 0 r.expected_points) (value_error "expected_points must be positive")
  let missing = if r.missing_points == 0 then r.expected_points else r.missing_points
  require (r.observed_points == 0) (value_error "observed_points=0")
  require (missing == r.expected_points) (value_error "missing_points must equal expected_points")
  require (r.coverage_ratio == 0) (value_error "coverage_ratio=0")
  require (is_none r.value) (value_error "value=None")
  require (str_eq r.mask_code "missing_observation") (value_error "mask_code")
  require (str_eq r.quality_code "null_observation") (value_error "quality_code")
  require (str_eq r.provenance "expected_bucket_materializer") (value_error "provenance")
  require (not r.bad_row) (value_error "missing observations are not bad rows")
  ok (record r { missing_points = missing })

unfoldable pub missing_row_from_expected_bucket : ExpectedBucket → Result MissingBucketRow
unfolding post_init
missing_row_from_expected_bucket b = post_init (record {
  meter_urn = b.meter_urn;
  measurement = b.measurement;
  bucket_ts = b.bucket_ts;
  expected_points = b.expected_points;
  cadence_class = b.cadence_class;
  value = none;
  observed_points = 0;
  missing_points = b.expected_points;
  coverage_ratio = 0;
  mask_code = "missing_observation";
  quality_code = "null_observation";
  provenance = "expected_bucket_materializer";
  bad_row = false;
})

-- key.get(name, default)
abbrev get_or_else : Entry → Entry → Entry
get_or_else absent default = default
get_or_else e default = e

abbrev subscript : Option String → String → Result String
subscript none name = raises (key_error name)
subscript (some s) name = ok s

abbrev instant : Entry → Result ℕ
instant (at t) = ok t
instant _ =
    raises (value_error "mapping bucket key must include bucket_ts, timestamp, or window_ts")

unfoldable pub normalize_bucket_key : ExistingKey → Result BucketKey
unfolding expected_bucket_key
normalize_bucket_key (bucket b) = ok (expected_bucket_key b)
normalize_bucket_key (mapping m) = do
  t ← instant (get_or_else m.bucket_ts (get_or_else m.timestamp m.window_ts))
  meter ← subscript m.meter_urn "meter_urn"
  name ← subscript m.measurement "measurement"
  ok (meter, name, t)
normalize_bucket_key (tuple k) = ok k

unfoldable pub normalize_all : List ExistingKey → Result (List BucketKey)
unfolding normalize_bucket_key
normalize_all [] = ok []
normalize_all (k ∷ ks) = do n ← normalize_bucket_key k; ns ← normalize_all ks; ok (n ∷ ns)

-- Equality of two keys, as tuples compare.
unfoldable pub key_eq : BucketKey → BucketKey → Bool
key_eq (m, n, t) (m', n', t') = str_eq m m' && str_eq n n' && t == t'

-- key in existing_keys
abbrev pub key_in : BucketKey → List BucketKey → Bool
key_in k ks = any (key_eq k) ks

unfoldable pub missing_rows : List ExpectedBucket → List BucketKey → Result (List MissingBucketRow)
unfolding missing_row_from_expected_bucket expected_bucket_key
missing_rows [] existing = ok []
missing_rows (b ∷ bs) existing =
    let rest = missing_rows bs existing in
    if key_in (expected_bucket_key b) existing
    then rest
    else do row ← missing_row_from_expected_bucket b; rows ← rest; ok (row ∷ rows)

unfoldable pub materialize_missing_buckets :
    List ExpectedBucket → List ExistingKey → Result (List MissingBucketRow)
unfolding normalize_all missing_rows
materialize_missing_buckets expected existing = do
  keys ← normalize_all existing
  missing_rows expected keys

-- The key under which a stored row is found again.
abbrev pub row_key : MissingBucketRow → BucketKey
row_key r = (r.meter_urn, r.measurement, r.bucket_ts)
