-- ===== src/RejectionLog/Tests.antt =====
-- Concrete runs of src/drift/server/rejection_logging.py, with whole numbers for the floats.
use community_ai.Prelude.{
  ℕ, ◌≡◌, ◌+◌, refl, arith, true, Option, some, List, [], ◌∷◌, whole, int, valid,
}
use community_ai.RejectionLog.{
  overloaded, push_target, category_of, key, admission_rejected, LogRecord, coalesced,
  routine_exception, routine, LogFilter, new_filter, open_window, filter_state, filter_at, filter,
  filter_all,
}
use community_ai.RejectionLog.Conserved.{dropped_of, reported_of, waiting, rejections_accounted}

abbrev rejection : LogRecord
rejection = record {
  from_daemon = true;
  is_failure = true;
  exception = admission_rejected overloaded;
}

abbrev other_rejection : LogRecord
other_rejection = record rejection { exception = admission_rejected push_target }

abbrev log : List (Option ℕ × LogRecord)
log =
    (some 10, rejection)
    ∷ (some 20, rejection)
    ∷ (some 25, other_rejection)
    ∷ (some 30, rejection)
    ∷ (some 75, rejection)
    ∷ (some 80, rejection)
    ∷ []

abbrev empty : LogFilter whole
empty = record { window_seconds = 60; max_suppressed = 100; categories = [] }

made : new_filter whole 60 (int 100) ≡ valid empty
unfolding new_filter
made = refl

-- The first, the one of another category and the one after the window are let through.
reports_two :
    (filter whole
      (some 75)
      rejection
      (record empty { categories = (0, record { start = 10; suppressed = 2 }) ∷ [] })).0
    ≡ coalesced 2
unfolding filter filter_at routine routine_exception category_of key filter_state open_window
reports_two = refl

rejections_accounted_example :
    dropped_of whole 0 log empty
    ≡ reported_of whole 0 log empty + waiting whole 0 (filter_all whole log empty)
rejections_accounted_example = rejections_accounted whole 60 100 0 log empty made (omega arith)
