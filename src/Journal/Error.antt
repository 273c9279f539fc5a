-- ===== src/Journal/Error.antt =====
-- The exceptions of effect_journal.py and writer_generation.py, each with its message.
use nexus_runtime.Prelude.{String}

pub data Error : Type 0 where
  effect_journal_error : String → Error
  effect_identity_mismatch : String → Error
  generation_error : String → Error
  generation_conflict : String → Error
  value_error : String → Error
  type_error : String → Error
  -- an exception of a caller's callback, by its class name
  raised : String → Error

-- `type(exc).__name__`
abbrev pub class_name : Error → String
class_name (effect_journal_error _) = "EffectJournalError"
class_name (effect_identity_mismatch _) = "EffectIdentityMismatch"
class_name (generation_error _) = "GenerationError"
class_name (generation_conflict _) = "GenerationConflict"
class_name (value_error _) = "ValueError"
class_name (type_error _) = "TypeError"
class_name (raised name) = name
