-- ===== src/Base/CriticalSection/Threads.antt =====
-- Threads that share a `CriticalSection`, in any order of their steps.
mod Tests
use nbsdk.Prelude.{
  ℕ, ◌≡◌, ◌≢◌, Bool, true, false, Option, none, some, some_path, ◌==◌, ==_iff, if◌then◌else◌,
}
use nbsdk.Base.CriticalSection.{
  CriticalSection, Outcome, returns, undefined, enter, try_enter, leave, create_scope,
  destroy_scope,
}

-- Where a thread is: outside, in the scope of a `CritScope`, or between a `TryEnter` that returned true
-- and its `Leave`.
pub data Place : Type 0 where
  outside in_scope entered : Place

pub record System : Type 0 where
  pub section : CriticalSection
  pub place : ℕ → Place

abbrev pub moved : System → ℕ → CriticalSection → Place → System
moved w thread cs p = record { section = cs; place = λ j. if thread == j then p else w.place j }

pub data Step (w : System) : System → Type 0 where
  opens :
      (thread : ℕ) (cs : CriticalSection)
      → w.place thread ≡ outside
      → create_scope thread w.section ≡ returns tt cs
      → Step w (moved w thread cs in_scope)
  closes :
      (thread : ℕ) (cs : CriticalSection)
      → w.place thread ≡ in_scope
      → destroy_scope thread w.section ≡ returns tt cs
      → Step w (moved w thread cs outside)
  tries :
      (thread : ℕ) (fails got : Bool) (cs : CriticalSection)
      → w.place thread ≡ outside
      → try_enter thread fails w.section ≡ returns got cs
      → Step w (moved w thread cs (if got then entered else outside))
  leaves :
      (thread : ℕ) (cs : CriticalSection)
      → w.place thread ≡ entered
      → leave thread w.section ≡ returns tt cs
      → Step w (moved w thread cs outside)

pub data Reach (v : System) : System → Type 0 where
  here : Reach v v
  next : {w x : System} → Reach v w → Step w x → Reach v x

abbrev pub initial : System
initial = record { section = record { owner = none }; place = λ thread. outside }

abbrev pub is_inside : Place → Bool
is_inside outside = false
is_inside in_scope = true
is_inside entered = true

abbrev owned_by : Option ℕ → ℕ → Bool
owned_by none thread = false
owned_by (some owner) thread = owner == thread

-- A thread is inside exactly if the mutex is its own.
IsOwned : System → Type 0
IsOwned w = (thread : ℕ) → is_inside (w.place thread) ≡ owned_by w.section.owner thread
