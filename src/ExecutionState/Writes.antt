-- ===== src/ExecutionState/Writes.antt =====
-- What a write changes (execution_state/store.py).
use nexus_runtime.Prelude.{
  String, true, ◌≡◌, refl, sym, subst, ap, ◌∙◌, Option, none, some, ◌==◌, lookup, lookup-insert,
  if◌then◌else◌,
}
use nexus_runtime.Python.Value.{dict, Fields, is_json_fields, Runtime}
use nexus_runtime.Python.Raise.{Result, ok, err, require, >>=-eq-ok, require-eq-ok, ok-injective}
use nexus_runtime.ExecutionState.Json.{sort_fields}
use nexus_runtime.ExecutionState.Ids.{StoreError, validate_task_id}
use nexus_runtime.ExecutionState.Store.{
  Content, parsed, Disk, Layout, Checks, Update, state_path, checked, transformed, to_write,
  replaced, write_state, changed_content, changed_state, some_written, mutate_state, raw_state,
  updated,
}
use nexus_runtime.ExecutionState.Updates.{Updates, updated-Updates}
use nexus_runtime.ExecutionState.Passes.{
  Validated, Hooked, validated-ok, ok-validated, hooked-Hooked, Hooked-hooked,
}

-- The abstract store: the content of each task's file.
abbrev pub view : Disk → String → Option Content
view disk task_id = lookup task_id disk.active

-- The abstract update of one task.
abbrev pub set : String → Content → (String → Option Content) → String → Option Content
set task_id content store asked = if task_id == asked then some content else store asked

unwrap : (a b : Fields) → ◌≡◌ {A = Option Fields} (some a) (some b) → a ≡ b
unwrap a b h = cc

content-none :
    (update : Update) (o : Option Content) → changed_content update o ≡ ok none → o ≡ none
content-none update none h = refl
content-none update (some content) h =
    let (current, is_current, h1) = >>=-eq-ok (raw_state content) _ h in
    let (state, is_state, h2) = >>=-eq-ok (updated update current) _ h1 in
    absurd (cc (ok-injective h2))

content-some :
    (update : Update) (o : Option Content) (state : Fields)
    → changed_content update o ≡ ok (some state)
    → (current : Fields) × (o ≡ some (parsed (dict current))) × (updated update current ≡ ok state)
content-some update (some (parsed (dict fs))) state h =
    let (changed, is_changed, h2) = >>=-eq-ok (updated update fs) _ h in
    (fs, refl, is_changed ∙ ap ok (unwrap changed state (ok-injective h2)))
content-some update none state h = absurd (cc (ok-injective h))
content-some update (some content) state h = absurd (cc)

content-back :
    (update : Update) (o : Option Content) (current changed : Fields)
    → o ≡ some (parsed (dict current))
    → updated update current ≡ ok changed
    → changed_content update o ≡ ok (some changed)
content-back update o current changed there is_changed = rw there (rw is_changed refl)

module _ (rt : Runtime) (layout : Layout) (checks : Checks) (task_id : String) where
  -- the task id is a safe name, and its file stays under the root
  abbrev pub IsNamed : Type 0
  IsNamed = (validate_task_id rt task_id ≡ ok tt) × (layout.state_contained task_id ≡ true)

  -- the given state may be written as this one
  pub record MayWrite (given state : Fields) : Type 0 where
    pub named : IsNamed
    pub json : is_json_fields state ≡ true
    pub valid : Fields
    pub validated :
        Validated checks.validate_writes
          (checks.validator task_id given (layout.state_file task_id))
          given
          valid
    pub transformed_to : Hooked checks.before_write task_id valid state

  -- the outcome of a write of the given state
  abbrev pub Sets : Fields → Disk → Result StoreError Fields × Disk → Type 0
  Sets given disk (err e, disk') = (disk' ≡ disk) × ((state : Fields) → ¬ (MayWrite given state))
  Sets given disk (ok state, disk') =
      MayWrite given state
      × (disk'.archive ≡ disk.archive)
      × ((asked : String)
          → view disk' asked ≡ set task_id (parsed (dict (sort_fields state))) (view disk) asked)

  state_path-IsNamed :
      {path : String}
      → state_path rt layout checks task_id ≡ ok path
      → IsNamed × (layout.state_file task_id ≡ path)
  unfolding state_path
  state_path-IsNamed h =
      let (u1, valid, h1) = >>=-eq-ok (validate_task_id rt task_id) _ h in
      let (u2, inside, h2) = >>=-eq-ok (require (layout.state_contained task_id) _) _ h1 in
      ((valid, require-eq-ok (layout.state_contained task_id) _ inside), ok-injective h2)

  IsNamed-state_path :
      IsNamed → state_path rt layout checks task_id ≡ ok (layout.state_file task_id)
  unfolding state_path
  IsNamed-state_path (valid, inside) = rw valid (rw inside refl)

  to_write-MayWrite :
      (given : Fields) {state : Fields}
      → to_write rt layout checks task_id given ≡ ok state
      → MayWrite given state
  unfolding to_write
  to_write-MayWrite given {state} h =
      let (path, at, h1) = >>=-eq-ok (state_path rt layout checks task_id) _ h in
      let (valid, passed, h2) = >>=-eq-ok (checked rt layout checks task_id given path) _ h1 in
      let (u, json, h3) =
        >>=-eq-ok (require (is_json_fields (transformed rt layout checks task_id valid)) _) _ h2 in
      let (named, same_path) = state_path-IsNamed at in
      let same = ok-injective h3 in
      record {
        named = named;
        json =
            subst (λ x. is_json_fields x ≡ true) same
              (require-eq-ok (is_json_fields (transformed rt layout checks task_id valid)) _ json);
        valid = valid;
        validated =
            validated-ok checks.validate_writes
              (checks.validator task_id given (layout.state_file task_id)) given valid
              (subst (λ p. checked rt layout checks task_id given p ≡ ok valid) (sym same_path)
                passed);
        transformed_to =
            subst (Hooked checks.before_write task_id valid) same
              (hooked-Hooked checks.before_write task_id valid);
      }

  MayWrite-to_write :
      (given state : Fields)
      → MayWrite given state
      → to_write rt layout checks task_id given ≡ ok state
  unfolding to_write
  MayWrite-to_write given state m =
      let passed : checked rt layout checks task_id given (layout.state_file task_id) ≡ ok m.valid =
        ok-validated checks.validate_writes
          (checks.validator task_id given (layout.state_file task_id)) given m.valid m.validated in
      let made : transformed rt layout checks task_id m.valid ≡ state =
        Hooked-hooked checks.before_write task_id m.valid state m.transformed_to in
      rw (IsNamed-state_path m.named) (rw passed (rw made (rw m.json refl)))

  -- the outcome, from what is to be written
  settled :
      (given : Fields) (disk : Disk) (r : Result StoreError Fields)
      → to_write rt layout checks task_id given ≡ r
      → Sets given disk (elim r [
        | err e ↦ (err e, disk)
        | ok state ↦ (ok state, replaced rt layout checks task_id state disk)
      ])
  settled given disk (err e) h = (refl, λ state m. cc (sym h ∙ MayWrite-to_write given state m))
  settled given disk (ok state) h = (
    to_write-MayWrite given h,
    refl,
    λ asked. lookup-insert task_id asked (parsed (dict (sort_fields state))) disk.active,
  )

  -- A write implements the update of one task in the abstract store. It sets the task's state to the
  -- one that it returns, its keys in order, and leaves all other tasks and the archive alone. What it
  -- returns is the given state, or the validator's answer to it where writes are validated, changed by
  -- the hook where the hook returns a state; the task id is safe, its path is contained, and the state
  -- holds JSON. It raises exactly where there is no such state, and then nothing changes.
  pub write_state-Sets :
      (given : Fields) (disk : Disk)
      → Sets given disk (write_state rt layout checks task_id given disk)
  unfolding write_state
  write_state-Sets given disk = settled given disk (to_write rt layout checks task_id given) refl

  -- what a change of a task's state leaves
  abbrev pub Changes : Update → Disk → Result StoreError (Option Fields) × Disk → Type 0
  Changes update disk (err e, disk') =
      (disk' ≡ disk)
      × ((current changed state : Fields)
          → view disk task_id ≡ some (parsed (dict current))
          → updated update current ≡ ok changed
          → ¬ (MayWrite changed state))
  Changes update disk (ok none, disk') = (view disk task_id ≡ none) × (disk' ≡ disk)
  Changes update disk (ok (some state), disk') =
      (current : Fields) × (changed : Fields) × (view disk task_id ≡ some (parsed (dict current)))
      × Updates update current changed
      × Sets changed disk (ok state, disk')

  changed_content_of :
      (update : Update) (disk : Disk) {o : Option Fields}
      → changed_state rt layout checks task_id update disk ≡ ok o
      → changed_content update (view disk task_id) ≡ ok o
  unfolding changed_state
  changed_content_of update disk h =
      let (path, at, h1) = >>=-eq-ok (state_path rt layout checks task_id) _ h in h1

  changed_state-some :
      (update : Update) (disk : Disk) (current changed state : Fields)
      → view disk task_id ≡ some (parsed (dict current))
      → updated update current ≡ ok changed
      → MayWrite changed state
      → changed_state rt layout checks task_id update disk ≡ ok (some changed)
  unfolding changed_state
  changed_state-some update disk current changed state there is_changed m =
      rw (IsNamed-state_path m.named)
        (content-back update (view disk task_id) current changed there is_changed)

  written_from :
      (update : Update) (disk : Disk) (current changed : Fields)
      → view disk task_id ≡ some (parsed (dict current))
      → updated update current ≡ ok changed
      → changed_content update (view disk task_id) ≡ ok (some changed)
      → (r : Result StoreError Fields) → to_write rt layout checks task_id changed ≡ r
      → Changes update disk (
          some_written rt layout checks (elim r [
            | err e ↦ (err e, disk)
            | ok state ↦ (ok state, replaced rt layout checks task_id state disk)
          ]))
  written_from update disk current changed there is_changed made (err e) h = (
    refl,
    λ now next state there' is_next m.
        let same : ok (some next) ≡ ok (some changed) =
          sym (content-back update (view disk task_id) now next there' is_next) ∙ made in
        let here : next ≡ changed = unwrap next changed (ok-injective same) in
        cc (sym h ∙ MayWrite-to_write changed state (subst (λ x. MayWrite x state) here m)),
  )
  written_from update disk current changed there is_changed made (ok state) h = (
    current,
    changed,
    there,
    updated-Updates update current is_changed,
    settled changed disk (ok state) h,
  )

  -- a state that was changed and written
  stored :
      (update : Update) (disk : Disk) (changed : Fields)
      → changed_content update (view disk task_id) ≡ ok (some changed)
      → Changes update disk
          (some_written rt layout checks (write_state rt layout checks task_id changed disk))
  unfolding write_state
  stored update disk changed h =
      let (current, there, is_changed) = content-some update (view disk task_id) changed h in
      written_from update disk current changed there is_changed h
        (to_write rt layout checks task_id changed) refl

  mutated :
      (update : Update) (disk : Disk) (r : Result StoreError (Option Fields))
      → changed_state rt layout checks task_id update disk ≡ r
      → Changes update disk (elim r [
        | err e ↦ (err e, disk)
        | ok none ↦ (ok none, disk)
        | ok (some state) ↦
            some_written rt layout checks (write_state rt layout checks task_id state disk)
      ])
  mutated update disk (err e) h = (
    refl,
    λ current changed state there is_changed m.
        cc (sym h ∙ changed_state-some update disk current changed state there is_changed m),
  )
  mutated update disk (ok none) h =
      (content-none update (view disk task_id) (changed_content_of update disk h), refl)
  mutated update disk (ok (some state)) h =
      stored update disk state (changed_content_of update disk h)

  -- A change of a task's state reads the mapping in the task's file, changes it and writes the result:
  -- a mapping's entries take the place of the state's, every other entry stays; a function's changed
  -- state is taken where it returns no value. The write sets the task's state as a write of the changed
  -- state does. A task without a state gets none. Where it raises nothing changes, and there was no
  -- state that could be changed and written.
  pub mutate_state-Changes :
      (update : Update) (disk : Disk)
      → Changes update disk (mutate_state rt layout checks task_id update disk)
  unfolding mutate_state
  mutate_state-Changes update disk =
      mutated update disk (changed_state rt layout checks task_id update disk) refl
