-- ===== src/Base/Nlog/Tests.antt =====
-- Messages of the log at concrete places.
use nbsdk.Prelude.{◌≡◌, refl, false, [], ◌∷◌}
use nbsdk.Prelude.Int.{pos}
use nbsdk.Net.Strings.{codes, digits, last_index_where}
use nbsdk.Base.Nlog.{
  Surroundings, unix, android, fwrite, fflush, stdout, android_log_write, unknown, fatal,
  is_separator, check, log, log_if, severity_info, severity_warning, log_severity_name,
}

abbrev here : Surroundings
here = record {
  platform = unix;
  date_time = codes "12-23 10:00:00.000001";
  process = 41;
  thread = 42;
  stacktrace = codes "0# main";
}

told :
    log here (codes "src/a/b.cc") (pos 7) severity_info (codes "on")
    ≡ fwrite stdout (codes "[12-23 10:00:00.000001 41 42 INFO b.cc(7)] on\n") ∷ fflush stdout ∷ []
unfolding log log_severity_name last_index_where is_separator digits
told = refl

not_told : log_if here false (codes "b.cc") (pos 7) severity_warning (codes "on") ≡ []
unfolding log_if
not_told = refl

-- A severity that has no name is written nowhere on Unix, and as `unknown` or `verbose` on Android.
nowhere : log here (codes "b.cc") (pos 7) (pos 4) (codes "on") ≡ []
unfolding log
nowhere = refl

abbrev phone : Surroundings
phone = record here { platform = android }

somewhere :
    log phone (codes "b.cc") (pos 7) (pos 4) (codes "on")
    ≡ android_log_write unknown (codes "[b.cc(7)] on\n") ∷ []
unfolding log last_index_where is_separator digits
somewhere = refl

-- A check that fails does not end the process on Android.
goes_on :
    check phone false (codes "false") (codes "b.cc") (pos 7) (codes "on")
    ≡ android_log_write fatal (codes "[b.cc(7)] Check failed: false. on\n") ∷ []
unfolding check last_index_where is_separator digits
goes_on = refl
