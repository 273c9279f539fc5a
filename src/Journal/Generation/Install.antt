-- ===== src/Journal/Generation/Install.antt =====
-- What installing writer generations does to the manifest (kernel/events/writer_generation.py).
use nexus_runtime.Prelude.{
  ℕ, suc, ◌≤◌, ◌<◌, ◌≡◌, refl, ◌⊎◌, inl, inr, false, Option, none, some, List, [], ◌∷◌, All, arith,
  eq_refl,
}
use nexus_runtime.Prelude.Int.{pos}
use nexus_runtime.Python.Text.{is_blank}
use nexus_runtime.Python.Value.{Value, null, int, str, Runtime, dict}
use nexus_runtime.Python.Raise.{Result, ok, err, ◌>>=◌, ◌>>◌, require, Result-cases}
use nexus_runtime.Journal.Error.{Error, generation_conflict}
use nexus_runtime.Journal.Generation.{
  EventWriterGeneration, payload_of, ManifestFile, read_generation, manifest_of, cas_token,
  same_number, advances, may_install, install_generation,
}

-- A token that the constructor can return.
pub record IsToken (g : EventWriterGeneration) : Type 0 where
  pub positive : 0 < g.generation
  pub has_writer : is_blank g.writer_id ≡ false

abbrev number_of : Result Error (Option EventWriterGeneration) → ℕ
number_of (ok (some g)) = g.generation
number_of _ = 0

-- The compare-and-swap: what `expected_generation` says of the manifest that is replaced.
abbrev pub ReplacesAt :
    EventWriterGeneration → Value → Result Error (Option EventWriterGeneration) → Type 0
ReplacesAt g expected current =
    ((expected ≡ null) × (current ≡ ok none))
    ⊎ ((c : EventWriterGeneration) × (expected ≡ int (pos c.generation))
        × (current ≡ ok (some c))
        × (0 < c.generation)
        × (c.generation < g.generation))

module _ (rt : Runtime) where
  pub read_generation-manifest_of :
      (g : EventWriterGeneration)
      → IsToken g
      → read_generation rt (ManifestFile.document (manifest_of rt g)) ≡ ok (some g)
  unfolding read_generation
  read_generation-manifest_of g t = ground (
    arith,
    eq_refl (rt.ascii_digest (dict (payload_of (int (pos g.generation)) (str g.writer_id)))),
  )

  -- the number of the installed generation; 0 where there is none or the manifest is refused
  abbrev pub number : ManifestFile → ℕ
  number file = number_of (read_generation rt file)

  abbrev pub Replaces : EventWriterGeneration → Value → ManifestFile → Type 0
  Replaces g expected file = ReplacesAt g expected (read_generation rt file)

  check-Replaces :
      (g : EventWriterGeneration) (expected : Value)
      (current : Result Error (Option EventWriterGeneration))
      → (do
        token ← cas_token expected
        c ← current
        require (same_number token c) (generation_conflict "GENERATION_CAS_CONFLICT")
        require (advances g c) (generation_conflict "GENERATION_MUST_ADVANCE"))
        ≡ ok tt
      → ReplacesAt g expected current
  check-Replaces g null (ok none) h = inl (refl, refl)
  check-Replaces g (int (pos (suc n))) (ok (some c)) h =
      inr (c, ground arith, refl, ground arith, ground arith)
  check-Replaces g expected current h = ground arith

  may_install-Replaces :
      (g : EventWriterGeneration) (expected : Value) (file : ManifestFile)
      → may_install rt g expected file ≡ ok tt
      → Replaces g expected file
  unfolding may_install
  may_install-Replaces g expected file h = check-Replaces g expected (read_generation rt file) h

  -- An installation of a token that its constructor can return, if it succeeds, has replaced exactly the manifest that the caller expected by a
  -- later one, which is what a reader finds from then on.
  pub install_generation-ok :
      (g h : EventWriterGeneration) (expected : Value) (file : ManifestFile)
      → IsToken g
      → (install_generation rt g expected file).0 ≡ ok h
      → (h ≡ g)
        × Replaces g expected file
        × (read_generation rt (install_generation rt g expected file).1 ≡ ok (some g))
  unfolding install_generation
  install_generation-ok g h expected file t e =
      let checked : may_install rt g expected file ≡ ok tt = ground arith in
      (
        ground arith,
        may_install-Replaces g expected file checked,
        rw checked (read_generation-manifest_of g t),
      )

  -- An installation that is refused leaves the manifest as it was.
  pub install_generation-err :
      (g : EventWriterGeneration) (x : Error) (expected : Value) (file : ManifestFile)
      → (install_generation rt g expected file).0 ≡ err x
      → (install_generation rt g expected file).1 ≡ file
  unfolding install_generation
  install_generation-err g x expected file e = ground arith

  installed-refused :
      (g h : EventWriterGeneration) (expected : Value) (file after : ManifestFile)
      → Replaces g expected file
      → read_generation rt after ≡ ok (some g)
      → install_generation rt h expected after
        ≡ (err (generation_conflict "GENERATION_CAS_CONFLICT"), after)
  unfolding install_generation may_install
  installed-refused g h expected file after (inl (p, _)) found = rw (p, found)
  installed-refused g h expected file after (inr (c, p, _, below, lt)) found =
      rw (p, found) (ground arith)

  -- Of two writers that expect the same predecessor only one installs its generation: after the
  -- first success the second is refused with a conflict, and the first one's manifest stays. The first
  -- token is one that its constructor can return.
  pub install_generation-one_winner :
      (g h : EventWriterGeneration) (expected : Value) (file : ManifestFile)
      → IsToken g
      → (install_generation rt g expected file).0 ≡ ok g
      → let after = (install_generation rt g expected file).1 in
        install_generation rt h expected after
        ≡ (err (generation_conflict "GENERATION_CAS_CONFLICT"), after)
  install_generation-one_winner g h expected file t e =
      let (_, replaced, found) = install_generation-ok g g expected file t e in
      installed-refused g h expected file (install_generation rt g expected file).1 replaced found

  -- A history of installation attempts, each with what its writer expects.
  pub install_all : List (EventWriterGeneration × Value) → ManifestFile → ManifestFile
  install_all [] file = file
  install_all ((g, expected) ∷ rest) file =
      install_all rest (install_generation rt g expected file).1

  install_generation-number_le :
      (g : EventWriterGeneration) (expected : Value) (file : ManifestFile)
      → IsToken g
      → number file ≤ number (install_generation rt g expected file).1
  install_generation-number_le g expected file t =
      elim (Result-cases (install_generation rt g expected file).0) [
        | inl (h, e) ↦ ground (arith, install_generation-ok g h expected file t e)
        | inr (x, e) ↦ rw (install_generation-err g x expected file e) (omega arith)
      ]

  -- Whatever tokens writers attempt to install, in any order, the generation number in the manifest never goes back.
  pub install_all-number_le :
      (history : List (EventWriterGeneration × Value)) (file : ManifestFile)
      → All (λ (attempt : EventWriterGeneration × Value). IsToken attempt.0) history
      → number file ≤ number (install_all history file)
  unfolding install_all
  install_all-number_le [] file h = omega arith
  install_all-number_le ((g, expected) ∷ rest) file h = omega (
    arith,
    install_generation-number_le g expected file h.0,
    install_all-number_le rest (install_generation rt g expected file).1 h.1,
  )
