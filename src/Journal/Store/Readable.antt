-- ===== src/Journal/Store/Readable.antt =====
-- Every record that the journal's operations build passes the reader's checks
-- (kernel/events/effect_journal.py).
use nexus_runtime.Prelude.{◌<◌, String, true, false, ◌≡◌, refl, arith, ◌==◌, eq_refl, elem}
use nexus_runtime.Python.Value.{Value, str, is_text, Runtime, text_or_empty}
use nexus_runtime.Python.Raise.{ok}
use nexus_runtime.Journal.Record.{Record, completed, safe_result, sign, effect_id_of, states}
use nexus_runtime.Journal.Read.{EffectJournal, check_result}
use nexus_runtime.Journal.Read.RoundTrip.{IsReadable}
use nexus_runtime.Journal.Store.{complete, fresh_record}

text_or_empty-str : (rt : Runtime) (s : String) → text_or_empty rt (str s) ≡ s
text_or_empty-str rt String.[] = refl
text_or_empty-str rt (String.◌∷◌ c s) = refl

module _ (rt : Runtime) (j : EffectJournal) where
  pub fresh_record-IsReadable :
      (op : String) (subject request_digest : Value)
      → 0 < j.generation.generation
      → is_text subject ≡ true
      → is_text request_digest ≡ true
      → IsReadable rt j (effect_id_of op) (fresh_record rt j op subject request_digest)
  unfolding check_result
  fresh_record-IsReadable op subject request_digest p s d = record {
    in_states = refl;
    typed = ground arith;
    names = rw (text_or_empty-str rt op, eq_refl (effect_id_of op), eq_refl j.project_root);
    bound = refl;
    signed = eq_refl _;
  }

  -- A record completed with a result that the code accepts, under any reason.
  pub complete-IsReadable :
      (key reason : String) (r : Record) (result : Value) {v : Value}
      → IsReadable rt j key r
      → safe_result result ≡ ok v
      → IsReadable rt j key (sign rt (record (complete rt result r) { reason = str reason }))
  unfolding check_result
  complete-IsReadable key reason r result h e = record {
    in_states = refl;
    typed = h.typed;
    names = h.names;
    bound = rw (e, eq_refl (rt.digest result));
    signed = eq_refl _;
  }

  -- A record that is not completed keeps being accepted in any other state and with any reason.
  pub restate-IsReadable :
      (key state reason : String) (r : Record)
      → IsReadable rt j key r
      → completed r ≡ false
      → elem state states ≡ true
      → (state == "COMPLETED") ≡ false
      → IsReadable rt j key (sign rt (record r { state = str state; reason = str reason }))
  unfolding check_result
  restate-IsReadable key state reason r h e known other = record {
    in_states = known;
    typed = h.typed;
    names = h.names;
    bound = rw other (rw e at h.bound);
    signed = eq_refl _;
  }
