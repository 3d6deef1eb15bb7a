-- ===== src/Base/EventLoop/Race/Threads.antt =====
-- How many threads the callers of `EventLoop::Loop` start.
use nbsdk.Prelude.{
  ℕ, zero, suc, ◌+◌, ◌*◌, ◌≤◌, true, false, List, [], ◌∷◌, ◌++◌, ◌≡◌, refl, ◌∙◌, ap, arith, map,
  subst, if◌then◌else◌,
}
use nbsdk.Prelude.Int.{ℤ}
use native.Mathlib.Nat.{suc-mul}
use nbsdk.Base.EventLoop.{EventLoop, create, rounds}
use nbsdk.Base.EventLoop.Race.{
  Place, at_test, at_set, at_reset, starting, returned, Race, caller_step, turn, turns, copies,
}

-- The threads that a caller may still start, when each call starts `c`.
abbrev pub worth : ℕ → Place → ℕ
worth c at_test = c
worth c at_set = c
worth c at_reset = c
worth c (starting n) = n
worth c returned = 0

abbrev pub worths : ℕ → List Place → ℕ
worths c [] = 0
worths c (p ∷ ps) = worth c p + worths c ps

-- A race that follows another one, with at most as many threads in all.
pub record IsAfter (r s : Race) : Type 0 where
  pub same : s.0.thread_count ≡ r.0.thread_count
  pub less :
      s.0.threads + worths (rounds r.0.thread_count) s.1
      ≤ r.0.threads + worths (rounds r.0.thread_count) r.1

turn-IsAfter : (i : ℕ) (e : EventLoop) (ps : List Place) → IsAfter (e, ps) (turn i (e, ps))
unfolding turn caller_step
turn-IsAfter i e [] = record { same = refl; less = omega arith }
turn-IsAfter zero e (at_test ∷ ps) = record { same = refl; less = ground arith }
turn-IsAfter zero e (at_set ∷ ps) = record { same = refl; less = omega arith }
turn-IsAfter zero e (at_reset ∷ ps) = record { same = refl; less = omega arith }
turn-IsAfter zero e (starting zero ∷ ps) = record { same = refl; less = omega arith }
turn-IsAfter zero e (starting (suc n) ∷ ps) = record { same = refl; less = omega arith }
turn-IsAfter zero e (returned ∷ ps) = record { same = refl; less = omega arith }
turn-IsAfter (suc i) e (p ∷ ps) =
    let a = turn-IsAfter i e ps in let l = a.less in record { same = a.same; less = omega arith }

IsAfter-trans : {r s t : Race} → IsAfter r s → IsAfter s t → IsAfter r t
IsAfter-trans {r} {s} {t} a b =
    let behind =
      subst (λ c. t.0.threads + worths (rounds c) t.1 ≤ s.0.threads + worths (rounds c) s.1) a.same
        b.less in
    let before = a.less in record { same = b.same ∙ a.same; less = omega arith }

pub turns-IsAfter : (schedule : List ℕ) (r : Race) → IsAfter r (turns schedule r)
unfolding turns
turns-IsAfter [] r = record { same = refl; less = omega arith }
turns-IsAfter (i ∷ schedule) r =
    let one = turn-IsAfter i r.0 r.1 in IsAfter-trans one (turns-IsAfter schedule (turn i r))

-- The turns of the callers behind the first one.
turns-map :
    (schedule : List ℕ) (e : EventLoop) (p : Place) (ps : List Place)
    → turns (map suc schedule) (e, p ∷ ps)
      ≡ ((turns schedule (e, ps)).0, p ∷ (turns schedule (e, ps)).1)
unfolding turns turn
turns-map [] e p ps = refl
turns-map (i ∷ schedule) e p ps = turns-map schedule (turn i (e, ps)).0 p (turn i (e, ps)).1

pub turns-append : (xs ys : List ℕ) (r : Race) → turns (xs ++ ys) r ≡ turns ys (turns xs r)
unfolding turns
turns-append [] ys r = refl
turns-append (i ∷ xs) ys r = turns-append xs ys (turn i r)

-- Each caller tests.
abbrev pub tests : ℕ → List ℕ
tests zero = []
tests (suc n) = 0 ∷ map suc (tests n)

-- What a caller does that has passed the test.
abbrev pub rest : ℕ → List ℕ
rest c = copies (suc (suc (suc c))) 0

-- One caller after the other does the rest, which is three steps and one for each thread.
abbrev pub rests : ℕ → ℕ → List ℕ
rests c zero = []
rests c (suc n) = rest c ++ map suc (rests c n)

abbrev pub all_pass : ℕ → ℕ → List ℕ
all_pass c n = tests n ++ rests c n

pub tested :
    (n : ℕ) (e : EventLoop)
    → e.running ≡ false
    → turns (tests n) (e, copies n at_test) ≡ (e, copies n at_set)
unfolding turns turn caller_step copies
tested zero e r = refl
tested (suc n) e r =
    ap (λ b. turns (map suc (tests n)) (e, (if b then returned else at_set) ∷ copies n at_test)) r
    ∙ (turns-map (tests n) e at_set (copies n at_test)
        ∙ ap (λ x. (x.0, at_set ∷ x.1)) (tested n e r))

with_threads :
    (e : EventLoop) (ps : List Place) {m n : ℕ}
    → m ≡ n
    → ◌≡◌ {A = Race} (record e { threads = m }, ps) (record e { threads = n }, ps)
with_threads e ps h = cc

started :
    (n : ℕ) (e : EventLoop) (ps : List Place)
    → turns (copies (suc n) 0) (e, starting n ∷ ps)
      ≡ (record e { threads = e.threads + n }, returned ∷ ps)
unfolding turns turn caller_step copies
started zero e ps = with_threads e (returned ∷ ps) (omega arith)
started (suc n) e ps =
    started n (record e { threads = e.threads + 1 }) ps
    ∙ with_threads e (returned ∷ ps) (omega arith)

-- The loop after one call of `Loop` that passed the test.
abbrev opened : EventLoop → EventLoop
opened e = record e { running = true; stopped = false; threads = e.threads + rounds e.thread_count }

pub rest_opens :
    (e : EventLoop) (ps : List Place)
    → turns (rest (rounds e.thread_count)) (e, at_set ∷ ps) ≡ (opened e, returned ∷ ps)
unfolding turns turn caller_step copies
rest_opens e ps = started (rounds e.thread_count) (record e { running = true; stopped = false }) ps

pub rested :
    (n : ℕ) (e : EventLoop)
    → (turns (rests (rounds e.thread_count) n) (e, copies n at_set)).0.threads
      ≡ e.threads + n * rounds e.thread_count
unfolding turns copies
rested zero e = omega arith
rested (suc n) e =
    let c = rounds e.thread_count in
    let others = copies n at_set in
    let product = suc-mul n c in
    let sum = rested n (opened e) in
    ap (λ r. r.0.threads)
      (turns-append (rest c) (map suc (rests c n)) (e, at_set ∷ others)
        ∙ (ap (turns (map suc (rests c n))) (rest_opens e others)
            ∙ turns-map (rests c n) (opened e) returned others))
    ∙ omega arith

pub worths-copies : (c n : ℕ) → worths c (copies n at_test) ≡ n * c
unfolding copies
worths-copies c zero = omega arith
worths-copies c (suc n) = let product = suc-mul n c in let h = worths-copies c n in omega arith

-- A new loop, and `n` threads that call `Loop`.
abbrev pub calling : ℤ → ℕ → Race
calling count n = (create count, copies n at_test)
