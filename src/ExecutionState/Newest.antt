-- ===== src/ExecutionState/Newest.antt =====
-- The archived state that is chosen is the newest one (execution_state/store.py).
use nexus_runtime.Prelude.{
  ℕ, String, Bool, true, false, ◌≡◌, refl, subst, ◌∙◌, ◌⊎◌, inl, inr, List, [], ◌∷◌, All, Option,
  none, some, ◌==◌, eq_iff, ◌&&◌, ◌||◌, ltb, if◌then◌else◌, Bool-cases, arith,
}
use nexus_runtime.Python.Text.{less}
use nexus_runtime.Python.TextOrder.{less_trans, less_asym}
use nexus_runtime.Python.Value.{Fields, Runtime}
use nexus_runtime.Python.Raise.{ok, >>=-eq-ok, ok-injective}
use nexus_runtime.ExecutionState.Store.{Archived, Disk, Layout, Checks}
use nexus_runtime.ExecutionState.Archive.{
  Entry, newer, max_entry, newest, archive_candidates, entries_of, state_of, latest_archive,
}

-- the order of the keys: a later date, or a later file with the same date
abbrev later : String → ℕ → String → ℕ → Bool
later s m t n = less t s || (t == s && ltb n m)

later_trans :
    (s t u : String) (l m n : ℕ)
    → later s l t m ≡ true
    → later t m u n ≡ true
    → later s l u n ≡ true
later_trans s t u l m n h k = ground (arith, less_trans u t s, eq_iff t s, eq_iff u t, eq_iff u s)

later_irrefl : (s : String) (m : ℕ) → later s m s m ≡ false
later_irrefl s m = ground (arith, less_asym s s)

newer_trans : (a b c : Entry) → newer a b ≡ true → newer b c ≡ true → newer a c ≡ true
newer_trans a b c h k =
    later_trans a.updated_at b.updated_at c.updated_at a.modified b.modified c.modified h k

-- what a better entry is better than stays so
not-newer : (x best e : Entry) → newer x best ≡ false → newer e best ≡ true → newer x e ≡ false
not-newer x best e h better = elim (Bool-cases (newer x e)) [
  | inr no_newer ↦ no_newer
  | inl newer_x ↦ absurd (cc (h, newer_trans x e best newer_x better))
]

abbrev better : Entry → Entry → Entry
better e best = if newer e best then e else best

better-keeps : (x e best : Entry) → newer x best ≡ false → newer x (better e best) ≡ false
better-keeps x e best h = elim (Bool-cases (newer e best)) [
  | inl yes_newer ↦ rw yes_newer (not-newer x best e h yes_newer)
  | inr no_newer ↦ rw no_newer h
]

better-new : (e best : Entry) → newer e (better e best) ≡ false
better-new e best = elim (Bool-cases (newer e best)) [
  | inl yes_newer ↦ rw yes_newer (later_irrefl e.updated_at e.modified)
  | inr no_newer ↦ rw (no_newer, no_newer)
]

max_entry-keeps :
    (x best : Entry) (rest : List Entry)
    → newer x best ≡ false
    → newer x (max_entry best rest) ≡ false
unfolding max_entry
max_entry-keeps x best [] h = h
max_entry-keeps x best (e ∷ rest) h =
    max_entry-keeps x (better e best) rest (better-keeps x e best h)

max_entry-All :
    (best : Entry) (rest : List Entry) → All (λ x. newer x (max_entry best rest) ≡ false) rest
unfolding max_entry
max_entry-All best [] = tt
max_entry-All best (e ∷ rest) =
    (max_entry-keeps e (better e best) rest (better-new e best), max_entry-All (better e best) rest)

-- the entry is listed
abbrev pub Among : Entry → List Entry → Type 0
Among e [] = ⊥
Among e (x ∷ rest) = (e ≡ x) ⊎ Among e rest

max_entry-Among : (best : Entry) (rest : List Entry) → Among (max_entry best rest) (best ∷ rest)
unfolding max_entry
max_entry-Among best [] = inl refl
max_entry-Among best (e ∷ rest) = elim (max_entry-Among (better e best) rest) [
  | inr listed ↦ inr (inr listed)
  | inl first ↦ elim (Bool-cases (newer e best)) [
    | inl yes_newer ↦ inr (inl (first ∙ rw yes_newer))
    | inr no_newer ↦ inl (first ∙ rw no_newer)
  ]
]

-- The newest of some entries is one of them, and none of them is newer.
pub newest-All :
    (entries : List Entry) (e : Entry)
    → newest entries ≡ some e
    → Among e entries × All (λ x. newer x e ≡ false) entries
newest-All [] e h = absurd (cc)
newest-All (best ∷ rest) e h =
    let same : max_entry best rest ≡ e = cc h in
    subst (λ m. Among m (best ∷ rest) × All (λ x. newer x m ≡ false) (best ∷ rest)) same
      (
        max_entry-Among best rest,
        (
          max_entry-keeps best best rest (later_irrefl best.updated_at best.modified),
          max_entry-All best rest,
        ),
      )

state_of-some :
    (rt : Runtime) (layout : Layout) (checks : Checks) (o : Option Entry) (state : Fields)
    → state_of rt layout checks o ≡ some state
    → (e : Entry) × (o ≡ some e) × (e.state ≡ state)
state_of-some rt layout checks none state h = absurd (cc)
state_of-some rt layout checks (some e) state h = (e, refl, cc h)

-- The archived state of a task is that of one of its archived files, and none of them is newer.
pub latest_archive-All :
    (rt : Runtime) (layout : Layout) (checks : Checks) (task_id : String) (disk : Disk)
    (state : Fields)
    → latest_archive rt layout checks task_id disk ≡ ok (some state)
    → (files : List Archived) × (archive_candidates rt layout checks task_id disk ≡ ok files)
      × (e : Entry) × (e.state ≡ state)
      × Among e (entries_of rt layout checks task_id files)
      × All (λ x. newer x e ≡ false) (entries_of rt layout checks task_id files)
unfolding latest_archive
latest_archive-All rt layout checks task_id disk state h =
    let (files, found, h1) = >>=-eq-ok (archive_candidates rt layout checks task_id disk) _ h in
    let (e, chosen, is_state) =
      state_of-some rt layout checks (newest (entries_of rt layout checks task_id files)) state
        (ok-injective h1) in
    let (listed, none_newer) = newest-All (entries_of rt layout checks task_id files) e chosen in
    (files, found, e, is_state, listed, none_newer)
