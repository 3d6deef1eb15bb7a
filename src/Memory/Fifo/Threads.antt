-- ===== src/Memory/Fifo/Threads.antt =====
-- Threads that call one `FifoBuffer`: each function takes the mutex first and gives it back last, so its
-- work is parted in taking the mutex, working on the object, and giving the mutex back with the object
-- changed. The steps of the threads follow each other in any order.
mod Tests
use nbsdk.Prelude.{
  ℕ, ◌≡◌, ◌≢◌, false, refl, sym, ap, ap₂, ◌∙◌, arith, Option, none, some, some_path, subst,
  cons_head, drop, Bool-cases, inl, inr, >>=-eq-some, List, [], ◌∷◌, ◌++◌, map, ◌==◌, if◌then◌else◌,
}
use nbsdk.Memory.Queue.{Call, Reply}
use nbsdk.Memory.Queue
use nbsdk.Memory.Fifo.{FifoBuffer}
use nbsdk.Memory.Fifo.Valid.{IsValid}
use nbsdk.Memory.Fifo.Refine.{step, run, view, AreSmall, run_refines}

-- What a thread is about: nothing, a call that has the mutex, or a call that has worked.
pub data Local : Type 0 where
  idle : Local
  has_lock : Call → Local
  worked : Call → Reply → FifoBuffer → Local

pub record Done : Type 0 where
  pub thread : ℕ
  pub call : Call
  pub reply : Reply

pub record System : Type 0 where
  pub object : FifoBuffer
  pub owner : Option ℕ
  pub local : ℕ → Local
  -- The calls that have ended, the first one first.
  pub history : List Done

abbrev pub set_local : (ℕ → Local) → ℕ → Local → ℕ → Local
set_local local thread l = λ j. if thread == j then l else local j

pub data Step (memory : ℕ → ℕ) (w : System) : System → Type 0 where
  locks :
      (thread : ℕ) (call : Call)
      → w.local thread ≡ idle
      → w.owner ≡ none
      → Step memory w
          (record w { owner = some thread; local = set_local w.local thread (has_lock call) })
  works :
      (thread : ℕ) (call : Call) (reply : Reply) (f : FifoBuffer)
      → w.local thread ≡ has_lock call
      → step memory w.object call ≡ some (reply, f)
      → Step memory w (record w { local = set_local w.local thread (worked call reply f) })
  unlocks :
      (thread : ℕ) (call : Call) (reply : Reply) (f : FifoBuffer)
      → w.local thread ≡ worked call reply f
      → Step memory w (record {
        object = f;
        owner = none;
        local = set_local w.local thread idle;
        history = w.history ++ (record { thread = thread; call = call; reply = reply } ∷ []);
      })

pub data Reach (memory : ℕ → ℕ) (v : System) : System → Type 0 where
  here : Reach memory v v
  next : {w x : System} → Reach memory v w → Step memory w x → Reach memory v x

abbrev pub initial : FifoBuffer → System
initial f = record { object = f; owner = none; local = λ thread. idle; history = [] }

abbrev pub calls_of : List Done → List Call
calls_of [] = []
calls_of (d ∷ history) = d.call ∷ calls_of history

abbrev pub replies_of : List Done → List Reply
replies_of [] = []
replies_of (d ∷ history) = d.reply ∷ replies_of history

-- A thread that is not idle has the mutex, and what it has worked out is of the object as it is.
abbrev IsCurrent : (ℕ → ℕ) → FifoBuffer → Option ℕ → ℕ → Local → Type 0
IsCurrent memory object owner thread idle = Unit {0}
IsCurrent memory object owner thread (has_lock call) = owner ≡ some thread
IsCurrent memory object owner thread (worked call reply f) =
    (owner ≡ some thread) × (step memory object call ≡ some (reply, f))

abbrev AreCurrent : (ℕ → ℕ) → System → Type 0
AreCurrent memory w = (thread : ℕ) → IsCurrent memory w.object w.owner thread (w.local thread)

-- A thread that has not the mutex is idle.
others_idle :
    (memory : ℕ → ℕ) (object : FifoBuffer) (owner : Option ℕ) (thread : ℕ) (l : Local)
    → IsCurrent memory object owner thread l
    → owner ≢ some thread
    → l ≡ idle
others_idle memory object owner thread idle h other = refl
others_idle memory object owner thread (has_lock call) h other = absurd (other h)
others_idle memory object owner thread (worked call reply f) h other = absurd (other h.0)

some_other : (i j : ℕ) → (i == j) ≡ false → ◌≢◌ {A = Option ℕ} (some i) (some j)
some_other i j e p = ground arith

record IsSerial (memory : ℕ → ℕ) (start : FifoBuffer) (w : System) : Type 0 where
  current : AreCurrent memory w
  serial : run memory start (calls_of w.history) ≡ some (replies_of w.history, w.object)

same_end :
    {A : Type 0} {xs ys : List A} {f g : FifoBuffer}
    → ◌≡◌ {A = Option (List A × FifoBuffer)} (some (xs, f)) (some (ys, g))
    → f ≡ g
same_end e = ap (λ p. p.1) (some_path e)

run-snoc :
    (memory : ℕ → ℕ) (f g h : FifoBuffer) (history : List Done) (d : Done)
    → run memory f (calls_of history) ≡ some (replies_of history, g)
    → step memory g d.call ≡ some (d.reply, h)
    → run memory f (calls_of (history ++ (d ∷ []))) ≡ some (replies_of (history ++ (d ∷ [])), h)
unfolding run
run-snoc memory f g h [] d e s =
    subst (λ k. run memory k (d.call ∷ []) ≡ some (d.reply ∷ [], h)) (sym (same_end e))
      (rw (s, run) refl)
run-snoc memory f g h (x ∷ history) d e s =
    let ((reply, f₁), first, rest) = >>=-eq-some (step memory f x.call) _ e in
    let ((replies, last), after, all) = >>=-eq-some (run memory f₁ (calls_of history)) _ rest in
    let same : ◌≡◌ {A = List Reply × FifoBuffer} (reply ∷ replies, last)
        (replies_of (x ∷ history), g) =
      some_path all in
    let first' : step memory f x.call ≡ some (x.reply, f₁) =
      first ∙ ap (λ (r : Reply). some (r, f₁)) (cons_head (ap (λ p. p.0) same)) in
    let after' : run memory f₁ (calls_of history) ≡ some (replies_of history, g) =
      after ∙ ap (λ (p : List Reply × FifoBuffer). some (drop 1 p.0, p.1)) same in
    rw (first', run) (rw (run-snoc memory f₁ g h history d after' s, run) refl)

Step-AreCurrent :
    {memory : ℕ → ℕ} {w x : System} → Step memory w x → AreCurrent memory w → AreCurrent memory x
Step-AreCurrent {memory} {w} (locks thread call at free) h j = elim (Bool-cases (thread == j)) [
  | inl same ↦ rw same (ap some (ground arith))
  | inr other ↦ rw other (rw (others_idle memory w.object w.owner j (w.local j) (h j) (λ e. cc)) tt)
]
Step-AreCurrent {memory} {w} (works thread call reply f at done) h j =
    let mine : w.owner ≡ some thread =
      subst (IsCurrent memory w.object w.owner thread) at (h thread) in
    elim (Bool-cases (thread == j)) [
      | inl same ↦ rw same (mine ∙ ap some (ground arith), done)
      | inr other ↦ rw other (h j)
    ]
Step-AreCurrent {memory} {w} (unlocks thread call reply f at) h j =
    let mine = subst (IsCurrent memory w.object w.owner thread) at (h thread) in
    elim (Bool-cases (thread == j)) [
      | inl same ↦ rw same tt
      | inr other ↦ rw other (
          rw
            (others_idle memory w.object w.owner j (w.local j) (h j)
              (λ e. some_other thread j other (sym mine.0 ∙ e)))
            tt)
    ]

Step-IsSerial :
    {memory : ℕ → ℕ} (start : FifoBuffer) {w x : System}
    → Step memory w x
    → IsSerial memory start w
    → IsSerial memory start x
Step-IsSerial {memory} start {w} (locks thread call at free) h = record {
  current = Step-AreCurrent {w = w} (locks thread call at free) h.current;
  serial = h.serial;
}
Step-IsSerial {memory} start {w} (works thread call reply f at done) h = record {
  current = Step-AreCurrent {w = w} (works thread call reply f at done) h.current;
  serial = h.serial;
}
Step-IsSerial {memory} start {w} (unlocks thread call reply f at) h =
    let mine = subst (IsCurrent memory w.object w.owner thread) at (h.current thread) in
    record {
      current = Step-AreCurrent {w = w} (unlocks thread call reply f at) h.current;
      serial = run-snoc memory start w.object f w.history _ h.serial mine.1;
    }

Reach-IsSerial :
    {memory : ℕ → ℕ} (start : FifoBuffer) {w : System}
    → Reach memory (initial start) w
    → IsSerial memory start w
unfolding run
Reach-IsSerial start here = record { current = λ thread. tt; serial = refl }
Reach-IsSerial start (next r s) = Step-IsSerial start s (Reach-IsSerial start r)

-- However the steps of the threads follow each other from a valid buffer: the replies of the calls that
-- have ended are those of the queue of its bytes, called in the order in which the calls ended, and the
-- buffer is valid and holds what the queue then holds.
pub Reach-Queue :
    (memory : ℕ → ℕ) (start : FifoBuffer) (w : System)
    → IsValid start
    → Reach memory (initial start) w
    → AreSmall (calls_of w.history)
    → (replies_of w.history ≡ (Queue.run (view start) (calls_of w.history)).0)
      × (view w.object ≡ (Queue.run (view start) (calls_of w.history)).1)
      × IsValid w.object
Reach-Queue memory start w v r small =
    let (f, ran, holds, v') = run_refines memory start (calls_of w.history) v small in
    let same = some_path (sym (Reach-IsSerial start r).serial ∙ ran) in
    let end : w.object ≡ f = ap (λ p. p.1) same in
    (ap (λ p. p.0) same, ap view end ∙ holds, subst IsValid (sym end) v')
