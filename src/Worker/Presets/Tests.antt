-- ===== src/Worker/Presets/Tests.antt =====
-- Presets at concrete inputs.
use catworld.Common.{
  ℕ, String, ◌≡◌, ◌↔◌, refl, false, true, Option, none, some, [], ◌∷◌, length, lookup, str_eq,
  if◌then◌else◌,
}
use catworld.Settings.{pick_int}
use catworld.Worker.Presets.{
  economico, equilibrado, alto, preset_of, Capacity, get_preset, same_capacity, diff_capacity,
  detect_preset, lanes_configured, lanes_row, slots_row, slots_rows, number_row, validate_capacity,
  summarize, heavy_caution, storage_caution, memory_caution, heavy_ceiling, storage_limit,
}
use catworld.Worker.Presets.Applying.{Row, read_current_capacity}
use catworld.Worker.Presets.Differences.{preset_changes_nothing_iff}

abbrev number : String → Option ℕ
number s = if str_eq s "4" then some 4 else none

abbrev uploads : Row
uploads = record {
  id = "1";
  name = "worker-uploads";
  job_types = "IMPORT_UPLOAD" ∷ "PREVIEW_UPLOAD" ∷ [];
  weights = [];
  concurrency = 2;
  enabled = true;
  poll_ms = 1000;
  duckdb_memory_limit = "2GB";
}

abbrev capacity : Capacity
capacity = read_current_capacity number (uploads ∷ []) (("worker.max_heavy_jobs", "4") ∷ [])

-- One lane exists, with two slots: a row for the lanes, one for each lane, and three numbers.
rows :
    length (
      diff_capacity
        (record {
          slots = ("worker-uploads", 2) ∷ [];
          lanes_on = false;
          max_heavy_jobs = 4;
          max_syncs_per_storage = 3;
          import_batch_delay_ms = 200;
        })
        (preset_of economico).capacity)
    ≡ 8
unfolding diff_capacity lanes_row slots_row slots_rows number_row lookup
rows = refl

found : detect_preset (preset_of equilibrado).capacity ≡ some equilibrado
unfolding detect_preset same_capacity lookup
found = refl

not_found : detect_preset capacity ≡ none
unfolding detect_preset same_capacity read_current_capacity pick_int lookup lanes_configured
not_found = refl

peak : (summarize (preset_of alto).capacity).memory_peak ≡ 229
unfolding summarize lookup
peak = refl

warned :
    (validate_capacity
      (record {
        slots = ("worker-sync-long", 2) ∷ [];
        lanes_on = true;
        max_heavy_jobs = 1;
        max_syncs_per_storage = 3;
        import_batch_delay_ms = 0;
      })
      0).warnings
    ≡ heavy_ceiling 1 2 ∷ storage_limit 3 2 ∷ []
unfolding validate_capacity heavy_caution storage_caution memory_caution lookup
warned = refl

preset_changes_nothing_iff_example :
    (diff_capacity capacity (preset_of economico).capacity ≡ [])
    ↔ (same_capacity (preset_of economico).capacity capacity ≡ true)
preset_changes_nothing_iff_example = preset_changes_nothing_iff capacity economico

known : get_preset "alto" ≡ some (preset_of alto)
unfolding get_preset
known = refl
