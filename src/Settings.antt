-- ===== src/Settings.antt =====
-- server/worker/config.ts: the settings of the database, and the copy of them that lives ten seconds.
-- `number` stands for JavaScript's `Number`: the value of a text that is a whole number of at least 0,
-- and `none` for any other text (no range below lets a negative number through).
pub mod Range
pub mod Tests
use Prim.Native.Char.{code}
use Prim.Native.String
use catworld.Common.{
  ℕ, ◌+◌, String, Bool, true, false, ◌&&◌, ◌||◌, Option, none, some, List, [], if◌then◌else◌, leb,
  ltb, ◌==◌, lookup,
}

-- The characters that `trim` takes away.
abbrev pub is_space : ℕ → Bool
is_space c =
    (leb 9 c && leb c 13)
    || c == 32
    || c == 160
    || c == 5760
    || (leb 8192 c && leb c 8202)
    || c == 8232
    || c == 8233
    || c == 8239
    || c == 8287
    || c == 12288
    || c == 65279

-- `raw.trim() === ""`.
unfoldable pub is_blank : String → Bool
is_blank String.[] = true
is_blank (String.◌∷◌ c s) = is_space (code c) && is_blank s

unfoldable pub pick_int : (String → Option ℕ) → Option String → ℕ → ℕ → ℕ → ℕ
pick_int number none fallback low high = fallback
pick_int number (some raw) fallback low high = elim (number raw) [
  | none ↦ fallback
  | some n ↦ if is_blank raw then fallback else if leb low n && leb n high then n else fallback
]

pub record WorkerConfig : Type 0 where
  pub max_heavy_jobs : ℕ
  pub max_syncs_per_storage : ℕ
  pub import_batch_delay_ms : ℕ

pub record UploadLimits : Type 0 where
  pub max_bytes : ℕ
  pub xlsx_max_bytes : ℕ

abbrev pub worker_config_defaults : WorkerConfig
worker_config_defaults = record {
  max_heavy_jobs = 2;
  max_syncs_per_storage = 3;
  import_batch_delay_ms = 200;
}

abbrev pub upload_limit_defaults : UploadLimits
upload_limit_defaults = record { max_bytes = 524288000; xlsx_max_bytes = 41943040 }

abbrev pub upload_hard_ceiling_bytes : ℕ
upload_hard_ceiling_bytes = 2147483648

abbrev pub config_cache_ttl_ms : ℕ
config_cache_ttl_ms = 10000

pub record Cached {ℓ} (A : Type ℓ) : Type ℓ where
  pub value : A
  pub expires_at : ℕ

pub record ConfigCache : Type 0 where
  pub worker : Option (Cached WorkerConfig)
  pub upload : Option (Cached UploadLimits)

-- The rows of the database, or nothing where the query fails.
abbrev pub read_settings : Option (List (String × String)) → List (String × String)
read_settings none = []
read_settings (some rows) = rows

-- A copy that is fresh at `now`.
abbrev pub fresh {ℓ} : {A : Type ℓ} → ℕ → Option (Cached A) → Option A
fresh now none = none
fresh now (some c) = if ltb now c.expires_at then some c.value else none

module _ (number : String → Option ℕ) where
  unfoldable pub worker_config_of : List (String × String) → WorkerConfig
  unfolding pick_int
  worker_config_of rows = record {
    max_heavy_jobs =
        pick_int number (lookup "worker.max_heavy_jobs" rows) worker_config_defaults.max_heavy_jobs
          1 20;
    max_syncs_per_storage =
        pick_int number (lookup "worker.max_syncs_per_storage" rows)
          worker_config_defaults.max_syncs_per_storage 1 20;
    import_batch_delay_ms =
        pick_int number (lookup "worker.import_batch_delay_ms" rows)
          worker_config_defaults.import_batch_delay_ms 0 5000;
  }

  unfoldable pub upload_limits_of : List (String × String) → UploadLimits
  unfolding pick_int
  upload_limits_of rows = record {
    max_bytes =
        pick_int number (lookup "upload.max_bytes" rows) upload_limit_defaults.max_bytes 1048576
          upload_hard_ceiling_bytes;
    xlsx_max_bytes =
        pick_int number (lookup "upload.xlsx_max_bytes" rows) upload_limit_defaults.xlsx_max_bytes
          1048576 upload_hard_ceiling_bytes;
  }

  unfoldable pub get_worker_config :
      ℕ → Option (List (String × String)) → ConfigCache → WorkerConfig × ConfigCache
  unfolding worker_config_of
  get_worker_config now answer c = elim (fresh now c.worker) [
    | some value ↦ (value, c)
    | none ↦
        let value = worker_config_of (read_settings answer) in
        (
          value,
          record c {
            worker = some (record { value = value; expires_at = now + config_cache_ttl_ms });
          },
        )
  ]

  unfoldable pub get_upload_limits :
      ℕ → Option (List (String × String)) → ConfigCache → UploadLimits × ConfigCache
  unfolding upload_limits_of
  get_upload_limits now answer c = elim (fresh now c.upload) [
    | some value ↦ (value, c)
    | none ↦
        let value = upload_limits_of (read_settings answer) in
        (
          value,
          record c {
            upload = some (record { value = value; expires_at = now + config_cache_ttl_ms });
          },
        )
  ]

abbrev pub invalidate_worker_config_cache : ConfigCache → ConfigCache
invalidate_worker_config_cache c = record { worker = none; upload = none }
