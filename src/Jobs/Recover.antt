-- ===== src/Jobs/Recover.antt =====
-- worker/index.ts: the jobs of workers that are gone (`recoverStale`, every minute), and those that a
-- process gives back when it ends or starts (`releaseSelf`).
use Prim.Native.Char.{code}
use Prim.Native.String
use catworld.Common.{
  ℕ, zero, suc, ◌+◌, ◌-◌, String, Bool, true, false, ◌&&◌, ◌||◌, not, Option, none, some, List,
  if◌then◌else◌, str_eq, ltb, leb, ◌==◌, any, is_some,
}
use catworld.Worker.Profiles.{to_text}
use catworld.Jobs.{
  JobStatus, queued, failed, Job, UploadStatus, importing, broken, Upload, Source, Derived, Db,
  PayloadJson, update_where, is_running, is_active, is_failed, same_text,
}
use catworld.Jobs.Finish.{read_payload}

-- `heartbeat_at < NOW() - INTERVAL`: false for NULL.
abbrev pub beat_before : ℕ → ℕ → Option ℕ → Bool
beat_before now interval none = false
beat_before now interval (some t) = ltb (t + interval) now

unfoldable pub is_stale : ℕ → Job → Bool
is_stale now j =
    is_running j.status
    && beat_before now (if str_eq j.type "IMPORT_UPLOAD" then 5400000 else 120000) j.heartbeat_at

abbrev pub unlock : JobStatus → Job → Job
unlock status j = record j {
  status = status;
  locked_at = none;
  locked_by = none;
  heartbeat_at = none;
}

abbrev pub exhausted_row : Job → Job
exhausted_row j = record (unlock failed j) {
  last_error = some "Worker crashed (stale heartbeat, max attempts reached)";
}

unfoldable pub fail_exhausted : ℕ → List Job → List Job
fail_exhausted now =
    update_where (λ j. is_stale now j && leb j.max_attempts j.attempts) exhausted_row

abbrev pub requeued_row : ℕ → Job → Job
requeued_row now j = record (unlock queued j) { available_at = now }

unfoldable pub requeue_stale : ℕ → List Job → List Job
requeue_stale now =
    update_where (λ j. is_stale now j && ltb j.attempts j.max_attempts) (requeued_row now)

abbrev pub is_importing : UploadStatus → Bool
is_importing importing = true
is_importing _ = false

-- A job of the upload that is not failed.
abbrev pub serves : String → Job → Bool
serves id j = same_text j.upload_id (some id) && not (is_failed j.status)

unfoldable pub fail_orphan_uploads : ℕ → List Job → List Upload → List Upload
fail_orphan_uploads now jobs =
    update_where (λ u. is_importing u.status && not (any (serves u.id) jobs))
      (λ u. record u {
        status = broken;
        error_message = some "Import interrompido (jobs esgotados)";
        updated_at = now;
      })

abbrev payload_source : PayloadJson → Option String
payload_source json = elim (read_payload json) [ none ↦ none | some p ↦ p.dataset_source_id ]

abbrev payload_derived : PayloadJson → Option String
payload_derived json = elim (read_payload json) [ none ↦ none | some p ↦ p.derived_table_id ]

-- An active job of the type for the id.
abbrev pub refreshes_source : String → Job → Bool
refreshes_source id j =
    str_eq j.type "SOURCE_REFRESH"
    && is_active j.status
    && same_text (payload_source j.payload_json) (some id)

abbrev pub refreshes_derived : String → Job → Bool
refreshes_derived id j =
    str_eq j.type "DERIVED_REFRESH"
    && is_active j.status
    && same_text (payload_derived j.payload_json) (some id)

unfoldable pub fail_orphan_sources : ℕ → List Job → List Source → List Source
fail_orphan_sources now jobs =
    update_where
      (λ s. same_text s.last_status (some "running") && not (any (refreshes_source s.id) jobs))
      (λ s. record s {
        last_status = some "failed";
        last_error = some "Processamento interrompido";
        next_refresh_at = if is_some s.refresh_cron then some (now + 600000) else none;
      })

unfoldable pub fail_orphan_derived : List Job → List Derived → List Derived
fail_orphan_derived jobs =
    update_where
      (λ d. same_text d.last_status (some "running") && not (any (refreshes_derived d.id) jobs))
      (λ d. record d {
        last_status = some "failed";
        last_error = some "Processamento interrompido";
      })

-- The five statements, one after the other.
unfoldable pub recover_stale : ℕ → Db → Db
recover_stale now db =
    let jobs' = requeue_stale now (fail_exhausted now db.jobs) in
    record {
      jobs = jobs';
      uploads = fail_orphan_uploads now jobs' db.uploads;
      sources = fail_orphan_sources now jobs' db.sources;
      derived = fail_orphan_derived jobs' db.derived;
    }

unfoldable pub starts_with : String → String → Bool
starts_with String.[] s = true
starts_with (String.◌∷◌ c p) String.[] = false
starts_with (String.◌∷◌ c p) (String.◌∷◌ d s) = code c == code d && starts_with p s

-- The label of the i-th loop of a profile, without its host.
unfoldable pub label : String → ℕ → String
label name i = String.◌++◌ name (String.◌++◌ "-" (to_text i))

-- `locked_by LIKE ANY (likes) OR locked_by = ANY (labels)`, for the loops 1 to n.
unfoldable pub locked_by_profile : String → ℕ → Option String → Bool
locked_by_profile name n none = false
locked_by_profile name zero (some by) = false
locked_by_profile name (suc n) (some by) =
    locked_by_profile name n (some by)
    || starts_with (String.◌++◌ (label name (suc n)) "@") by
    || str_eq by (label name (suc n))

abbrev pub ours : String → ℕ → Job → Bool
ours name n j = is_running j.status && locked_by_profile name n j.locked_by

abbrev pub crashed_row : Job → Job
crashed_row j = record (unlock failed j) {
  last_error =
      some
        "O worker caiu durante este job em todas as tentativas (provavel falta de memoria); nao sera repetido sozinho.";
}

unfoldable pub fail_crashed : String → ℕ → List Job → List Job
fail_crashed name n = update_where (λ j. ours name n j && leb j.max_attempts j.attempts) crashed_row

abbrev pub returned_row : Bool → ℕ → Job → Job
returned_row refund now j = record (unlock queued j) {
  available_at = now;
  attempts = if refund then j.attempts - 1 else j.attempts;
}

unfoldable pub give_back : String → ℕ → Bool → ℕ → List Job → List Job
give_back name n refund now = update_where (ours name n) (returned_row refund now)

-- `concurrency` loops; with `refund` no job fails and each gets its attempt back.
unfoldable pub release_self : String → ℕ → Bool → ℕ → List Job → List Job
release_self name concurrency refund now jobs =
    give_back name concurrency refund now
      (if refund then jobs else fail_crashed name concurrency jobs)
