-- ===== src/ExecutionState/Tests.antt =====
-- A state directory with one task, and an archive with two attempts.
use nexus_runtime.Prelude.{ℕ, String, true, false, ◌≡◌, refl, List, [], ◌∷◌, All, some}
use nexus_runtime.Python.Text.{strip, is_blank}
use nexus_runtime.Python.Value.{str, dict, Fields, field, fields_of, is_json_fields, Runtime}
use nexus_runtime.Python.Order.{sort}
use nexus_runtime.Python.Raise.{ok}
use nexus_runtime.ExecutionState.Json.{sort_fields, place_field}
use nexus_runtime.ExecutionState.Ids.{validate_task_id}
use nexus_runtime.ExecutionState.Store.{
  parsed, Archived, Disk, Layout, merge, default_validate, state_path, to_write, write_state,
  mutate_state,
}
use nexus_runtime.ExecutionState.Archive.{
  Entry, newer, archive_candidates, entries_of, max_entry, latest_archive, read_snapshot,
}
use nexus_runtime.ExecutionState.Writes.{Sets, Changes, write_state-Sets, mutate_state-Changes}
use nexus_runtime.ExecutionState.ReadBack.{defaults, write_state-read_snapshot}
use nexus_runtime.ExecutionState.Newest.{Among, latest_archive-All}

abbrev plain : Runtime
plain = record {
  digest = λ v. "digest";
  ascii_digest = λ v. "digest";
  render = λ v. "?";
  repr = λ v. "?";
  upper = λ s. s;
  lower = λ s. s;
}

abbrev layout : Layout
layout = record {
  state_file = λ s. s;
  state_contained = λ s. true;
  archive_file = λ s. s;
  archive_contained = λ s. true;
}

abbrev state_named : String → String → Fields
state_named name status = fields_of (("task_id", str name) ∷ ("status", str status) ∷ [])

abbrev state : String → Fields
state status = state_named "task" status

abbrev sorted_state : String → Fields
sorted_state status = fields_of (("status", str status) ∷ ("task_id", str "task") ∷ [])

abbrev attempt : String → String → ℕ → Archived
attempt name day time = record {
  file_name = name;
  content = parsed (dict (field "updated_at" (str day) (state_named "old" "CANCELLED")));
  mtime = time;
}

abbrev disk : Disk
disk = record {
  active = ("task", parsed (dict (state "SUBMITTED"))) ∷ [];
  archive = attempt "old--attempt-2.json" "day 2" 5 ∷ attempt "old--attempt-1.json" "day 2" 7 ∷ [];
}

write_state-Sets_example :
    Sets plain layout defaults "task"
      (state "APPROVED")
      disk
      (write_state plain layout defaults "task" (state "APPROVED") disk)
write_state-Sets_example = write_state-Sets plain layout defaults "task" (state "APPROVED") disk

mutate_state-Changes_example :
    Changes plain layout defaults "task"
      (merge (state "APPROVED"))
      disk
      (mutate_state plain layout defaults "task" (merge (state "APPROVED")) disk)
mutate_state-Changes_example =
    mutate_state-Changes plain layout defaults "task" (merge (state "APPROVED")) disk

approved :
    (write_state plain layout defaults "task" (state "APPROVED") disk).0 ≡ ok (state "APPROVED")
unfolding write_state to_write state_path validate_task_id default_validate is_json_fields strip
    is_blank
approved = refl

write_state-read_snapshot_example :
    read_snapshot plain layout defaults "task"
      (write_state plain layout defaults "task" (state "APPROVED") disk).1
    ≡ ok (some (sort_fields (state "APPROVED")))
write_state-read_snapshot_example =
    write_state-read_snapshot plain layout "task" (state "APPROVED") (state "APPROVED") disk
      approved

-- the keys are in order
read_sorted : sort_fields (state "APPROVED") ≡ sorted_state "APPROVED"
unfolding sort_fields place_field
read_sorted = refl

-- a name with a separator reaches no file
refused : (write_state plain layout defaults "../task" (state "APPROVED") disk).1 ≡ disk
unfolding write_state to_write state_path validate_task_id strip is_blank
refused = refl

abbrev archived_state : Fields
archived_state = field "updated_at" (str "day 2") (state_named "old" "CANCELLED")

newest_found : latest_archive plain layout defaults "old" disk ≡ ok (some archived_state)
unfolding latest_archive archive_candidates entries_of max_entry validate_task_id sort
    default_validate strip is_blank
newest_found = refl

latest_archive-All_example :
    (files : List Archived) × (archive_candidates plain layout defaults "old" disk ≡ ok files)
    × (e : Entry) × (e.state ≡ archived_state)
    × Among e (entries_of plain layout defaults "old" files)
    × All (λ x. newer x e ≡ false) (entries_of plain layout defaults "old" files)
latest_archive-All_example =
    latest_archive-All plain layout defaults "old" disk archived_state newest_found
