-- ===== src/Settings/Range.antt =====
-- Whatever the database holds, the settings that the code works with are in their ranges.
use catworld.Common.{
  ℕ, ◌+◌, ◌≤◌, String, ◌≡◌, Option, none, some, List, arith, if◌then◌else◌, ltb, lookup, IfSome,
}
use catworld.Settings.{
  pick_int, WorkerConfig, UploadLimits, ConfigCache, worker_config_of, upload_limits_of,
  get_worker_config, get_upload_limits, fresh, read_settings,
}

abbrev pub IsUsable : WorkerConfig → Type 0
IsUsable c =
    (1 ≤ c.max_heavy_jobs)
    × (c.max_heavy_jobs ≤ 20)
    × (1 ≤ c.max_syncs_per_storage)
    × (c.max_syncs_per_storage ≤ 20)
    × (c.import_batch_delay_ms ≤ 5000)

abbrev pub IsAllowed : UploadLimits → Type 0
IsAllowed l =
    (1048576 ≤ l.max_bytes)
    × (l.max_bytes ≤ 2147483648)
    × (1048576 ≤ l.xlsx_max_bytes)
    × (l.xlsx_max_bytes ≤ 2147483648)

abbrev pub IsSound : ConfigCache → Type 0
IsSound c = IfSome (λ x. IsUsable x.value) c.worker × IfSome (λ x. IsAllowed x.value) c.upload

module _ (number : String → Option ℕ) where
  pub pick_int_range :
      (raw : Option String) (fallback low high : ℕ)
      → low ≤ fallback
      → fallback ≤ high
      → (low ≤ pick_int number raw fallback low high)
        × (pick_int number raw fallback low high ≤ high)
  unfolding pick_int
  pick_int_range none fallback low high a b = (a, b)
  pick_int_range (some raw) fallback low high a b = (ground arith, ground arith)

  worker_config_of-IsUsable :
      (rows : List (String × String)) → IsUsable (worker_config_of number rows)
  unfolding worker_config_of
  worker_config_of-IsUsable rows = ground (
    arith,
    pick_int_range (lookup "worker.max_heavy_jobs" rows) 2 1 20,
    pick_int_range (lookup "worker.max_syncs_per_storage" rows) 3 1 20,
    pick_int_range (lookup "worker.import_batch_delay_ms" rows) 200 0 5000,
  )

  upload_limits_of-IsAllowed :
      (rows : List (String × String)) → IsAllowed (upload_limits_of number rows)
  unfolding upload_limits_of
  upload_limits_of-IsAllowed rows = ground (
    arith,
    pick_int_range (lookup "upload.max_bytes" rows) 524288000 1048576 2147483648,
    pick_int_range (lookup "upload.xlsx_max_bytes" rows) 41943040 1048576 2147483648,
  )

  -- From a sound cache, whatever the database answers or if it fails, the settings are in the ranges
  -- of the API (1 to 20 jobs, at most five seconds, 1 MB to 2 GB) and the cache stays sound.
  pub settings_in_range :
      (now : ℕ) (answer : Option (List (String × String))) (c : ConfigCache)
      → IsSound c
      → IsUsable (get_worker_config number now answer c).0
        × IsSound (get_worker_config number now answer c).1
        × IsAllowed (get_upload_limits number now answer c).0
        × IsSound (get_upload_limits number now answer c).1
  unfolding get_worker_config get_upload_limits
  settings_in_range now answer c h =
      let w = worker_config_of-IsUsable (read_settings answer) in
      let u = upload_limits_of-IsAllowed (read_settings answer) in
      (ground (arith, w), ground (arith, w), ground (arith, u), ground (arith, u))

  -- What the database says at one time is what the worker works with for the next ten seconds, also
  -- if the database changes or fails; then it is read again.
  pub config_lives_ten_seconds :
      (now t : ℕ) (answer later : Option (List (String × String))) (c : ConfigCache)
      → fresh now c.worker ≡ none
      → now ≤ t
      → (get_worker_config number t later (get_worker_config number now answer c).1).0 ≡ (
          if ltb t (now + 10000)
          then worker_config_of number (read_settings answer)
          else worker_config_of number (read_settings later))
  unfolding get_worker_config
  config_lives_ten_seconds now t answer later c stale h = ground arith
