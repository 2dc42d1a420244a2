-- ===== src/RejectionLog.antt =====
-- src/drift/server/rejection_logging.py: the filter that bounds the log of routine rejections. The
-- names of loggers and the messages that it does not know are one constructor each.
pub mod Conserved
pub mod Tests
use community_ai.Prelude.{
  ℕ, ◌+◌, Bool, true, false, not, ◌&&◌, ◌||◌, Option, none, some, List, [], ◌∷◌, leb, ltb, ◌==◌,
  if◌then◌else◌, lookup, put, Float, Value, int, float, Checked, valid, value_error,
}
use Prim.Native.Nat.{min}

-- str(exception) of an `AdmissionRejected`
pub data Text : Type 0 where
  overloaded inference_too_large inference_metadata identity_invalid identity_active : Text
  push_target push_too_large push_metadata training_disabled other_text : Text

pub data Category : Type 0 where
  overload inference session push training : Category

-- _ROUTINE_REJECTION_CATEGORIES
unfoldable pub category_of : Text → Option Category
category_of overloaded = some overload
category_of inference_too_large = some inference
category_of inference_metadata = some inference
category_of identity_invalid = some session
category_of identity_active = some session
category_of push_target = some push
category_of push_too_large = some push
category_of push_metadata = some push
category_of training_disabled = some training
category_of other_text = none

-- The key of a category in `_categories`.
unfoldable pub key : Category → ℕ
key overload = 0
key inference = 1
key session = 2
key push = 3
key training = 4

-- The exception of a record: none, one whose type is not `AdmissionRejected`, or one that is.
pub data Exception : Type 0 where
  no_exception other_type : Exception
  admission_rejected : Text → Exception

pub record LogRecord : Type 0 where
  pub from_daemon : Bool
  pub is_failure : Bool
  pub exception : Exception

-- The record is kept as it is, replaced by a line with a count, or dropped.
pub data Verdict : Type 0 where
  kept dropped : Verdict
  coalesced : ℕ → Verdict

-- The category of a record that the filter may touch.
unfoldable pub routine_exception : Exception → Option Category
unfolding category_of
routine_exception (admission_rejected text) = category_of text
routine_exception _ = none

unfoldable pub routine : LogRecord → Option Category
unfolding routine_exception
routine r = if r.from_daemon && r.is_failure then routine_exception r.exception else none

module _ (F : Float) where
  -- A category's window: its start, and how many it has dropped.
  pub record Window : Type 0 where
    pub start : F.Carrier
    pub suppressed : ℕ

  pub record LogFilter : Type 0 where
    pub window_seconds : F.Carrier
    pub max_suppressed : ℕ
    pub categories : List (ℕ × Window)

  -- RoutinePublicRejectionLogFilter(...)
  unfoldable pub new_filter : F.Carrier → Value F → Checked LogFilter
  new_filter window (int most) =
      if not (F.is_finite window) || F.le window (F.of_ℕ 0)
      then value_error "window_seconds"
      else if leb 1 most && leb most 999999
      then valid (record { window_seconds = window; max_suppressed = most; categories = [] })
      else value_error "max_suppressed"
  new_filter window _ =
      if not (F.is_finite window) || F.le window (F.of_ℕ 0)
      then value_error "window_seconds"
      else value_error "max_suppressed"

  unfoldable pub open_window : F.Carrier → ℕ → LogFilter → LogFilter
  open_window now k f = record f {
    categories = put k (record { start = now; suppressed = 0 }) f.categories;
  }

  unfoldable pub filter_state : F.Carrier → ℕ → Option Window → LogFilter → Verdict × LogFilter
  unfolding open_window
  filter_state now k none f = (coalesced (min f.max_suppressed 0), open_window now k f)
  filter_state now k (some w) f =
      if F.lt now w.start
      then (kept, f)
      else if F.le f.window_seconds (F.sub now w.start)
      then (coalesced (min f.max_suppressed w.suppressed), open_window now k f)
      else (
        dropped,
        record f {
          categories =
              put k (record w { suppressed = min f.max_suppressed (w.suppressed + 1) })
                f.categories;
        },
      )

  -- The clock's reading is none where it raises.
  unfoldable pub filter_at : Option F.Carrier → Option Category → LogFilter → Verdict × LogFilter
  unfolding filter_state key
  filter_at clock none f = (kept, f)
  filter_at none (some c) f = (kept, f)
  filter_at (some now) (some c) f =
      if F.is_finite now
      then filter_state now (key c) (lookup (key c) f.categories) f
      else (kept, f)

  -- filter
  unfoldable pub filter : Option F.Carrier → LogRecord → LogFilter → Verdict × LogFilter
  unfolding filter_at routine
  filter clock r f = filter_at clock (routine r) f

  -- The records of a log, each with the clock's reading.
  unfoldable pub filter_all : List (Option F.Carrier × LogRecord) → LogFilter → LogFilter
  filter_all [] f = f
  filter_all ((clock, r) ∷ rs) f = filter_all rs (filter clock r f).1
