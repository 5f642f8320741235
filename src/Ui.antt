-- ===== src/Ui.antt =====
-- apps/ui/src/hooks/useMetricHistory.ts and apps/ui/src/hooks/useActionLog.ts: the states of the hooks,
-- with one function for each change.
pub mod Windows
pub mod Format
pub mod Polling
pub mod Client
mod Examples
use optio_test.Prelude.{
  ℕ, ◌+◌, ◌-◌, Bool, true, false, Option, none, some, List, [], ◌∷◌, ◌++◌, length, leb,
  if◌then◌else◌, take, drop, or_default,
}
use optio_test.Prelude.Text.{Text, text_eq}
use optio_test.Prelude.Int.{ℤ, pos}

pub record MetricHistory : Type 0 where
  pub history : List ℤ
  pub last_stamp : Option Text

abbrev pub no_history : MetricHistory
no_history = record { history = []; last_stamp = none }

-- The argument of `setHistory`.
unfoldable pub push_sample : ℕ → List ℤ → ℤ → List ℤ
push_sample capacity prev sample =
    let next =
      if leb capacity (length prev) then drop (length prev - capacity + 1) prev else prev in
    next ++ (sample ∷ [])

-- `stamp === undefined || stamp === lastStampRef.current`
abbrev pub is_repeated : Option Text → Option Text → Bool
is_repeated none last = true
is_repeated (some s) none = false
is_repeated (some s) (some l) = text_eq s l

-- The effect, for a value (`none` where it is no finite number) and a stamp.
unfoldable pub on_snapshot : ℕ → MetricHistory → Option ℤ → Option Text → MetricHistory
unfolding push_sample
on_snapshot capacity h value stamp = if is_repeated stamp h.last_stamp then h else record {
  history = push_sample capacity h.history (or_default value (pos 0));
  last_stamp = stamp;
}

pub data ActionLogLevel : Type 0 where
  info ok warn error : ActionLogLevel

pub record ActionLogEntry : Type 0 where
  pub id : ℕ
  pub at : ℕ
  pub level : ActionLogLevel
  pub message : Text

-- The entries of one log, and the counter that all logs share.
pub record ActionLog : Type 0 where
  pub entries : List ActionLogEntry
  pub sequence : ℕ

unfoldable pub log : ℕ → ActionLog → ActionLogLevel → Text → ℕ → ActionLog
log capacity l level message now =
    let sequence = l.sequence + 1 in
    let entry : ActionLogEntry = record {
      id = sequence;
      at = now;
      level = level;
      message = message;
    } in
    record { entries = take capacity (entry ∷ l.entries); sequence = sequence }

unfoldable pub clear_log : ActionLog → ActionLog
clear_log l = record l { entries = [] }
