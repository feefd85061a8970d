-- ===== src/Input/Plain/Sources.antt =====
-- The errors of src/input/plain.rs as errors with a `source()`.
use rouille.Input.Plain.{PlainTextError, io_error, describe}
use rouille.Logging.ErrorChain.{AnError, Source, error, no_source, source}

-- The I/O error that stands behind one of this module.
module _ (io : AnError) where
  abbrev pub plain_source : PlainTextError → Source
  plain_source io_error = source io
  plain_source _ = no_source

  unfoldable pub as_error : PlainTextError → AnError
  unfolding describe
  as_error e = error (describe e) (plain_source e)
