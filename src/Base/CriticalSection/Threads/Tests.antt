-- ===== src/Base/CriticalSection/Threads/Tests.antt =====
-- One thread in the scope of a `CritScope`, and another outside.
use nbsdk.Prelude.{some}
use nbsdk.Base.CriticalSection.Threads.{System, in_scope, moved, initial}

abbrev busy : System
busy = moved initial 3 (record { owner = some 3 }) in_scope
