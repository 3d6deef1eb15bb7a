-- ===== src/Base/Nlog.antt =====
-- base/include/nlog.h and base/nlog.cc: a message of the log from its construction to its destruction,
-- which writes it. A text is the list of its bytes. What boost and the system give (the date and the
-- time, the ids, the stack) is a parameter; `define`s choose the system when the SDK is built.
pub mod Paths
mod Tests
use nbsdk.Prelude.{
  ℕ, ◌+◌, Bool, true, false, ◌||◌, Option, none, some, List, [], ◌∷◌, ◌++◌, Text, ltb, ◌==◌,
  if◌then◌else◌, drop,
}
use nbsdk.Prelude.Int.{ℤ, pos, negsuc}
use nbsdk.Net.Strings.{codes, last_index_where, show_ℕ, show_ℤ}

pub data Platform : Type 0 where
  unix android : Platform

-- `GetCurrentProcId` and `GetCurrentThreadId` are the system's.
pub record Surroundings : Type 0 where
  pub platform : Platform
  pub date_time : Text
  pub process : ℕ
  pub thread : ℕ
  pub stacktrace : Text

pub data Stream : Type 0 where
  stdout stderr : Stream

pub data Priority : Type 0 where
  verbose unknown info warn error fatal : Priority

-- What a message does when it is destroyed.
pub data Effect : Type 0 where
  fwrite : Stream → Text → Effect
  fflush : Stream → Effect
  android_log_write : Priority → Text → Effect
  exit : ℕ → Effect

abbrev pub severity_info : ℤ
severity_info = pos 0

abbrev pub severity_warning : ℤ
severity_warning = pos 1

abbrev pub severity_error : ℤ
severity_error = pos 2

abbrev pub severity_fatal : ℤ
severity_fatal = pos 3

unfoldable pub log_severity_name : ℤ → Text
log_severity_name (negsuc n) = codes "UNKNOWN"
log_severity_name (pos n) =
    if n == 0
    then codes "INFO"
    else if n == 1
    then codes "WARNING"
    else if n == 2
    then codes "ERROR"
    else if n == 3
    then codes "FATAL"
    else codes "UNKNOWN"

pub record Nlog : Type 0 where
  pub severity : ℤ
  pub file : Text
  pub line : ℤ
  pub stream : Text

unfoldable pub is_separator : ℕ → Bool
is_separator c = (c == b'\\') || (c == b'/')

unfoldable pub file_name : Text → Text
unfolding is_separator
file_name file = elim (last_index_where is_separator file) [
  | none ↦ file
  | some at ↦ drop (at + 1) file
]

-- The date, the ids and the severity, which Android adds itself.
unfoldable pub origin : Surroundings → Platform → ℤ → Text
origin s android severity = []
origin s unix severity =
    s.date_time
    ++ (codes " "
        ++ (show_ℕ s.process
            ++ (codes " "
                ++ (show_ℕ s.thread ++ (codes " " ++ (log_severity_name severity ++ codes " "))))))

unfoldable pub init : Surroundings → Text → ℤ → Nlog → Nlog
unfolding origin file_name
init s file line m = record m {
  stream =
      m.stream
      ++ (codes "["
          ++ (origin s s.platform m.severity
              ++ (file_name file ++ (codes "(" ++ (show_ℤ line ++ codes ")] ")))));
}

unfoldable pub create : Surroundings → Text → ℤ → ℤ → Nlog
unfolding init
create s file line severity =
    init s file line (record { severity = severity; file = file; line = line; stream = [] })

-- `stream() << text`
unfoldable pub streamed : Text → Nlog → Nlog
streamed text m = record m { stream = m.stream ++ text }

-- The constructor for a condition that does not hold.
unfoldable pub create_check : Surroundings → Text → ℤ → Text → Nlog
unfolding init streamed
create_check s file line condition = streamed (codes ". ") (
    streamed condition (
      streamed (codes "Check failed: ") (
        init s file line
          (record { severity = severity_fatal; file = file; line = line; stream = [] }))))

unfoldable pub priority : ℤ → Priority
priority (negsuc n) = verbose
priority (pos n) =
    if n == 0
    then info
    else if n == 1
    then warn
    else if n == 2
    then error
    else if n == 3
    then fatal
    else unknown

put_out : Stream → Text → List Effect
put_out stream text = fwrite stream text ∷ fflush stream ∷ []

-- The second `switch`, and what follows it.
unfoldable pub write_out : Surroundings → ℤ → Text → List Effect
unfolding put_out
write_out s (negsuc n) text = []
write_out s (pos n) text =
    if n == 0 || n == 1
    then put_out stdout text
    else if n == 2
    then put_out stderr text
    else if n == 3
    then put_out stderr text ++ (put_out stderr s.stacktrace ++ (exit 1 ∷ []))
    else []

on_platform : Surroundings → Platform → ℤ → Text → List Effect
unfolding priority write_out
on_platform s android severity text = android_log_write (priority severity) text ∷ []
on_platform s unix severity text = write_out s severity text

-- `~Nlog`, with the new line that `std::endl` puts out.
unfoldable pub destroy : Surroundings → Nlog → List Effect
unfolding on_platform
destroy s m = on_platform s s.platform m.severity (m.stream ++ (10 ∷ []))

-- `LOG_INFO() << text;` and its kin
unfoldable pub log : Surroundings → Text → ℤ → ℤ → Text → List Effect
unfolding create streamed destroy
log s file line severity text = destroy s (streamed text (create s file line severity))

-- `LOG_INFO_IF(condition) << text;` and its kin
unfoldable pub log_if : Surroundings → Bool → Text → ℤ → ℤ → Text → List Effect
unfolding log
log_if s condition file line severity text = if condition then log s file line severity text else []

-- `CHECK(condition) << text;`, with the condition and how it is spelled.
unfoldable pub check : Surroundings → Bool → Text → Text → ℤ → Text → List Effect
unfolding create_check streamed destroy
check s condition spelled file line text =
    if condition then [] else destroy s (streamed text (create_check s file line spelled))
