-- ===== src/Base/EventLoop/Race/Passed.antt =====
-- How many threads start when each caller of `EventLoop::Loop` has tested `running_` before one sets it.
use nbsdk.Prelude.{
  ℕ, zero, suc, ◌+◌, ◌*◌, ◌≤◌, Bool, true, false, ◌&&◌, List, [], ◌∷◌, ◌≡◌, refl, ◌∙◌, ap, arith,
  subst,
}
use nbsdk.Prelude.Int.{ℤ}
use native.Mathlib.Nat.{suc-mul}
use nbsdk.Base.EventLoop.{EventLoop, create, rounds, loop, begun}
use nbsdk.Base.EventLoop.Race.{
  Place, at_test, at_set, at_reset, starting, returned, Race, caller_step, turn, turns, copies,
}
use nbsdk.Base.EventLoop.Race.Threads.{
  worths, turns-IsAfter, turns-append, tests, rest, rests, all_pass, tested, rest_opens, rested,
  worths-copies, calling,
}

-- No caller is past the test but those that have not set `running_` yet.
abbrev is_fresh : Place → Bool
is_fresh at_test = true
is_fresh at_set = true
is_fresh _ = false

abbrev all_fresh : List Place → Bool
all_fresh [] = true
all_fresh (p ∷ ps) = is_fresh p && all_fresh ps

-- Each caller has tested.
abbrev is_past : Place → Bool
is_past at_test = false
is_past _ = true

abbrev all_past : List Place → Bool
all_past [] = true
all_past (p ∷ ps) = is_past p && all_past ps

turn-fresh :
    (i : ℕ) (e : EventLoop) (ps : List Place)
    → all_fresh (turn i (e, ps)).1 ≡ true
    → (all_fresh ps ≡ true) × ((turn i (e, ps)).0 ≡ e)
unfolding turn caller_step
turn-fresh i e [] f = (refl, refl)
turn-fresh zero e (at_test ∷ ps) f = (ground arith, refl)
turn-fresh zero e (at_set ∷ ps) f = ground arith
turn-fresh zero e (at_reset ∷ ps) f = ground arith
turn-fresh zero e (starting zero ∷ ps) f = ground arith
turn-fresh zero e (starting (suc n) ∷ ps) f = ground arith
turn-fresh zero e (returned ∷ ps) f = ground arith
turn-fresh (suc i) e (p ∷ ps) f =
    let (tail, same) = turn-fresh i e ps (ground arith) in (ground arith, same)

turns-fresh :
    (schedule : List ℕ) (r : Race)
    → all_fresh (turns schedule r).1 ≡ true
    → (all_fresh r.1 ≡ true) × ((turns schedule r).0 ≡ r.0)
unfolding turns
turns-fresh [] r f = (f, refl)
turns-fresh (i ∷ schedule) r f =
    let (later, same) = turns-fresh schedule (turn i r) f in
    let (now, same') = turn-fresh i r.0 r.1 later in (now, same ∙ same')

-- What a turn keeps when each caller has tested.
record IsKept (r s : Race) : Type 0 where
  past : all_past s.1 ≡ true
  same : s.0.thread_count ≡ r.0.thread_count
  total :
      s.0.threads + worths (rounds r.0.thread_count) s.1
      ≡ r.0.threads + worths (rounds r.0.thread_count) r.1

turn-IsKept :
    (i : ℕ) (e : EventLoop) (ps : List Place) → all_past ps ≡ true → IsKept (e, ps) (turn i (e, ps))
unfolding turn caller_step
turn-IsKept i e [] h = record { past = h; same = refl; total = refl }
turn-IsKept zero e (at_test ∷ ps) h = ground arith
turn-IsKept zero e (at_set ∷ ps) h = record { past = h; same = refl; total = refl }
turn-IsKept zero e (at_reset ∷ ps) h = record { past = h; same = refl; total = refl }
turn-IsKept zero e (starting zero ∷ ps) h = record { past = h; same = refl; total = refl }
turn-IsKept zero e (starting (suc n) ∷ ps) h = record { past = h; same = refl; total = omega arith }
turn-IsKept zero e (returned ∷ ps) h = record { past = h; same = refl; total = refl }
turn-IsKept (suc i) e (p ∷ ps) h =
    let k = turn-IsKept i e ps (ground arith) in
    let t = k.total in
    let q = k.past in record { past = ground arith; same = k.same; total = omega arith }

turns-IsKept : (schedule : List ℕ) (r : Race) → all_past r.1 ≡ true → IsKept r (turns schedule r)
unfolding turns
turns-IsKept [] r h = record { past = h; same = refl; total = refl }
turns-IsKept (i ∷ schedule) r h =
    let one = turn-IsKept i r.0 r.1 h in
    let rest = turns-IsKept schedule (turn i r) one.past in
    let last = turns schedule (turn i r) in
    let then' =
      subst
        (λ c.
          last.0.threads + worths (rounds c) last.1
          ≡ (turn i r).0.threads + worths (rounds c) (turn i r).1)
        one.same rest.total in
    record { past = rest.past; same = rest.same ∙ one.same; total = then' ∙ one.total }

copies-places :
    (c n : ℕ)
    → (all_fresh (copies n at_set) ≡ true)
      × (all_past (copies n at_set) ≡ true)
      × (worths c (copies n at_set) ≡ n * c)
      × (worths c (copies n returned) ≡ 0)
unfolding copies
copies-places c zero = (refl, refl, omega arith, refl)
copies-places c (suc n) =
    let (f, p, w, z) = copies-places c n in
    let product = suc-mul n c in (f, p, omega arith, omega arith)

-- When each of `n` callers of `Loop` has tested `running_` before one of them has set it, in whatever order,
-- and then all calls go on to their ends, in whatever order, they start `n` times the count of the loop.
pub all_tested :
    (count : ℤ) (n : ℕ) (first second : List ℕ)
    → (turns first (calling count n)).1 ≡ copies n at_set
    → (turns second (turns first (calling count n))).1 ≡ copies n returned
    → (turns second (turns first (calling count n))).0.threads ≡ n * rounds count
unfolding create
all_tested count n first second at done =
    let c = rounds count in
    let (fresh, past, all, nothing) = copies-places c n in
    let unchanged = (turns-fresh first (calling count n) (ap all_fresh at ∙ fresh)).1 in
    let middle = turns first (calling count n) in
    let kept = turns-IsKept second middle (ap all_past at ∙ past) in
    let total =
      subst
        (λ e.
          (turns second middle).0.threads + worths (rounds e.thread_count) (turns second middle).1
          ≡ e.threads + worths (rounds e.thread_count) middle.1)
        unchanged kept.total in
    let before = ap (worths c) at in let behind = ap (worths c) done in omega arith

-- However the steps of `n` calls of `Loop` follow each other, the loop starts at most `n` times its count
-- of threads. For each `n` there is an order in which it starts as many: all test, in turn, and then one
-- after the other goes on. One call alone, to its end, is `loop`.
pub turns_lem :
    (count : ℤ) (n : ℕ) (schedule : List ℕ)
    → ((turns schedule (calling count n)).0.threads ≤ n * rounds count)
      × ((turns (all_pass (rounds count) n) (calling count n)).0.threads ≡ n * rounds count)
      × ((turns (0 ∷ rest (rounds count)) (calling count 1)).0 ≡ (loop (create count)).0)
unfolding create loop begun copies
turns_lem count n schedule =
    let c = rounds count in
    let after = (turns-IsAfter schedule (calling count n)).less in
    let all = worths-copies c n in
    let total = rested n (create count) in
    let passed =
      turns-append (tests n) (rests c n) (calling count n)
      ∙ ap (turns (rests c n)) (tested n (create count) refl) in
    let alone =
      turns-append (tests 1) (rest c) (calling count 1)
      ∙ (ap (turns (rest c)) (tested 1 (create count) refl) ∙ rest_opens (create count) []) in
    (omega arith, ap (λ r. r.0.threads) passed ∙ (total ∙ omega arith), ap (λ r. r.0) alone)
