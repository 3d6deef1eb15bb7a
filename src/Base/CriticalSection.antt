-- ===== src/Base/CriticalSection.antt =====
-- base/include/critical_section.h and base/critical_section.cc: `CriticalSection` and `CritScope`. A
-- `std::mutex` knows which thread holds it, if one does. A thread is a number.
pub mod Threads
use nbsdk.Prelude.{ℕ, Bool, true, false, Option, none, some, ◌==◌, if◌then◌else◌}

pub record CriticalSection : Type 0 where
  pub owner : Option ℕ

-- How a call goes on: it returns, it waits for another thread, or it is undefined.
pub data Outcome {ℓ} (A : Type ℓ) : Type ℓ where
  returns : A → CriticalSection → Outcome A
  waits : Outcome A
  undefined : Outcome A

unfoldable pub create : CriticalSection
create = record { owner = none }

-- `lock` of a thread that holds the mutex is undefined.
lock_held : ℕ → ℕ → Outcome (Unit {0})
lock_held thread owner = if owner == thread then undefined else waits

unfoldable pub enter : ℕ → CriticalSection → Outcome (Unit {0})
unfolding lock_held
enter thread cs = elim cs.owner [
  | none ↦ returns tt (record { owner = some thread })
  | some owner ↦ lock_held thread owner
]

try_lock_held : ℕ → ℕ → CriticalSection → Outcome Bool
try_lock_held thread owner cs = if owner == thread then undefined else returns false cs

-- `try_lock` may also fail when no thread holds the mutex.
unfoldable pub try_enter : ℕ → Bool → CriticalSection → Outcome Bool
unfolding try_lock_held
try_enter thread fails cs = elim cs.owner [
  | none ↦ if fails then returns false cs else returns true (record { owner = some thread })
  | some owner ↦ try_lock_held thread owner cs
]

unlock_held : ℕ → ℕ → Outcome (Unit {0})
unlock_held thread owner =
    if owner == thread then returns tt (record { owner = none }) else undefined

unfoldable pub leave : ℕ → CriticalSection → Outcome (Unit {0})
unfolding unlock_held
leave thread cs = elim cs.owner [ none ↦ undefined | some owner ↦ unlock_held thread owner ]

-- A `CritScope` holds the section that it points to from its construction to its destruction.
unfoldable pub create_scope : ℕ → CriticalSection → Outcome (Unit {0})
unfolding enter
create_scope thread cs = enter thread cs

unfoldable pub destroy_scope : ℕ → CriticalSection → Outcome (Unit {0})
unfolding leave
destroy_scope thread cs = leave thread cs
