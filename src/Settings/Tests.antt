-- ===== src/Settings/Tests.antt =====
-- The settings at concrete inputs.
use catworld.Common.{
  ℕ, String, ◌≡◌, refl, Option, none, some, List, [], ◌∷◌, if◌then◌else◌, str_eq, lookup,
}
use catworld.Settings.{is_blank, pick_int, ConfigCache, worker_config_of}

-- Enough of `Number` for these tests.
abbrev number : String → Option ℕ
number s =
    if str_eq s "7"
    then some 7
    else if str_eq s "99"
    then some 99
    else if str_eq s " "
    then some 0
    else none

abbrev rows : List (String × String)
rows =
    ("worker.max_heavy_jobs", "7")
    ∷ ("worker.max_syncs_per_storage", "99")
    ∷ ("worker.import_batch_delay_ms", " ")
    ∷ []

-- 99 is out of the range, and a blank text is not 0.
invalid_falls_back :
    worker_config_of number rows
    ≡ record { max_heavy_jobs = 7; max_syncs_per_storage = 3; import_batch_delay_ms = 200 }
unfolding worker_config_of pick_int is_blank lookup
invalid_falls_back = refl

abbrev no_copies : ConfigCache
no_copies = record { worker = none; upload = none }
