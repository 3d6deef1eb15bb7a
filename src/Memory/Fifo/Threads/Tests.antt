-- ===== src/Memory/Fifo/Threads/Tests.antt =====
-- Two threads at one `FifoBuffer`: the first has read, the second has the mutex.
use nbsdk.Prelude.{ℕ, ◌≡◌, refl, List, [], ◌∷◌, some, none, arith}
use nbsdk.Memory.Copy.{memcpy, copied}
use nbsdk.Memory.Queue.{get, resize, got}
use nbsdk.Memory.Queue
use nbsdk.Memory.Fifo.{FifoBuffer, read, read_offset_locked, copy_out, after_read}
use nbsdk.Memory.Fifo.Valid.{IsValid}
use nbsdk.Memory.Fifo.Refine.{step, view}
use nbsdk.Memory.Fifo.Threads.{
  System, Done, Reach, here, next, locks, works, unlocks, initial, idle, has_lock, worked,
  set_local, calls_of, replies_of, Reach-Queue,
}

abbrev memory : ℕ → ℕ
memory i = 99

abbrev start : FifoBuffer
start = record {
  buffer = 9 ∷ 10 ∷ 6 ∷ 8 ∷ [];
  buffer_length = 4;
  data_length = 3;
  read_position = 3;
}

start-IsValid : IsValid start
start-IsValid = omega arith

abbrev after : FifoBuffer
after = record start { data_length = 1; read_position = 1 }

abbrev history : List Done
history = record { thread = 1; call = get 2; reply = got (8 ∷ 9 ∷ []) } ∷ []

abbrev first : System
first = record (initial start) {
  owner = some 1;
  local = set_local (λ j. idle) 1 (has_lock (get 2));
}

abbrev second : System
second = record first { local = set_local first.local 1 (worked (get 2) (got (8 ∷ 9 ∷ [])) after) }

abbrev third : System
third = record {
  object = after;
  owner = none;
  local = set_local second.local 1 idle;
  history = history;
}

abbrev fourth : System
fourth = record third { owner = some 2; local = set_local third.local 2 (has_lock (resize 2)) }

step_first : step memory start (get 2) ≡ some (got (8 ∷ 9 ∷ []), after)
unfolding step read read_offset_locked copy_out after_read memcpy copied
step_first = refl

reached : Reach memory (initial start) fourth
reached =
    next
      (next (next (next here (locks 1 (get 2) refl refl)) (works 1 (get 2) _ after refl step_first))
        (unlocks 1 (get 2) (got (8 ∷ 9 ∷ [])) after refl))
      (locks 2 (resize 2) refl refl)

Reach-Queue_example :
    (replies_of history ≡ (Queue.run (view start) (calls_of history)).0)
    × (view after ≡ (Queue.run (view start) (calls_of history)).1)
    × IsValid after
Reach-Queue_example = Reach-Queue memory start fourth start-IsValid reached (omega arith)
