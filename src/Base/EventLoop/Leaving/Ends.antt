-- ===== src/Base/EventLoop/Leaving/Ends.antt =====
-- `EventLoop::Exit` returns, with every thread joined, if the handlers that run come to an end.
use nbsdk.Prelude.{
  ℕ, zero, suc, ◌+◌, true, false, List, [], ◌∷◌, ◌++◌, ◌≡◌, refl, sym, ◌∙◌, ap, arith, some,
  some_path, ◌⊎◌, ◌≢◌, inl, inr, subst,
}
use nbsdk.Base.EventLoop.{EventLoop, exit}
use nbsdk.Base.EventLoop.Leaving.{
  Worker, busy, waiting, over, Phase, asked, joining, gone, Scene, join_next, begin_exit, step_at,
  exit_step, Works, proceeds, ends, takes, returns, Step, leaves, works, Run, here, next,
}

-- The steps that a thread takes until it is joined, when the context is stopped.
abbrev cost : Worker → ℕ
cost (busy k) = 3 + k
cost waiting = 2
cost over = 1

abbrev costs : List Worker → ℕ
costs [] = 0
costs (w ∷ ws) = cost w + costs ws

-- The steps that remain, when the context is stopped.
abbrev remain : Phase → List Worker → ℕ
remain asked ws = 2 + costs ws
remain joining ws = 1 + costs ws
remain gone ws = 0

abbrev pub remaining : Scene → ℕ
remaining s = remain s.phase s.workers

abbrev pub asks : EventLoop → List Worker → Scene
asks e ws = record { loop = e; workers = ws; phase = asked }

abbrev pub has_left : EventLoop → Scene
has_left e = record { loop = (exit e).0; workers = []; phase = gone }

-- What is so at each phase.
IsAt : EventLoop → Phase → EventLoop → List Worker → Type 0
IsAt e asked l ws = l ≡ e
IsAt e joining l ws = l ≡ record e { stopped = true }
IsAt e gone l ws = (l ≡ (exit e).0) × (ws ≡ [])

costs-append : (before after : List Worker) → costs (before ++ after) ≡ costs before + costs after
costs-append [] after = omega arith
costs-append (w ∷ before) after = let rest = costs-append before after in omega arith

Works-cost : {w w' : Worker} → Works true w w' → cost w ≡ suc (cost w')
Works-cost (proceeds k e) = ap cost e ∙ omega arith
Works-cost (ends e) = ap cost e
Works-cost (takes k e f) = ground (arith, f)
Works-cost (returns e y) = ap cost e

-- What a step of a scene whose context is stopped leaves.
abbrev Falls : ℕ → Scene → Type 0
Falls n t = (n ≡ suc (remaining t)) × (t.loop.stopped ≡ true)

some_step : (n : ℕ) {t u : Scene} → Falls n t → some t ≡ some u → Falls n u
some_step n h e = subst (Falls n) (some_path e) h

begun_exit :
    (l : EventLoop) (ws : List Worker)
    → l.running ≡ true
    → begin_exit l ws ≡ record { loop = record l { stopped = true }; workers = ws; phase = joining }
unfolding begin_exit
begun_exit l ws r = rw r refl

step_at-Falls :
    (p : Phase) (l : EventLoop) (ws : List Worker) (t : Scene)
    → (p ≡ asked → l.running ≡ true)
    → l.stopped ≡ true
    → step_at p l ws ≡ some t
    → Falls (remain p ws) t
unfolding step_at join_next begin_exit
step_at-Falls asked l ws t r on e =
    some_step (2 + costs ws)
      (subst (Falls (2 + costs ws)) (sym (begun_exit l ws (r refl))) (omega arith, refl)) e
step_at-Falls joining l [] t r on e = some_step 1 (refl, on) e
step_at-Falls joining l (over ∷ ws) t r on e = some_step (1 + (1 + costs ws)) (omega arith, on) e
step_at-Falls joining l (busy k ∷ ws) t r on e = ground (arith, e)
step_at-Falls joining l (waiting ∷ ws) t r on e = ground (arith, e)
step_at-Falls gone l ws t r on e = ground (arith, e)

not_nothing : (before after : List Worker) (w : Worker) → before ++ (w ∷ after) ≢ []
not_nothing [] after w e = cc
not_nothing (v ∷ before) after w e = cc

-- At each phase, what is so of the loop and of the threads that are left.
abbrev Holds : EventLoop → Scene → Type 0
Holds e t = IsAt e t.phase t.loop t.workers

exited :
    (e : EventLoop)
    → e.running ≡ true
    → (exit e).0 ≡ record e { running = false; stopped = true; threads = 0 }
unfolding exit
exited e r = rw r refl

step_at-Holds :
    (e : EventLoop) (p : Phase) (l : EventLoop) (ws : List Worker) (t : Scene)
    → e.running ≡ true
    → IsAt e p l ws
    → step_at p l ws ≡ some t
    → Holds e t
unfolding IsAt step_at join_next
step_at-Holds e asked l ws t r h d =
    let same : begin_exit l ws
        ≡ record { loop = record e { stopped = true }; workers = ws; phase = joining } =
      begun_exit l ws (ap (λ x. x.running) h ∙ r)
      ∙ ap (λ x. record { loop = record x { stopped = true }; workers = ws; phase = joining }) h in
    subst (Holds e) (sym same ∙ some_path d) refl
step_at-Holds e joining l [] t r h d =
    subst (Holds e) (some_path d) (
      ap {A = EventLoop} (λ x. record x { running = false; threads = 0 }) h ∙ sym (exited e r),
      refl,
    )
step_at-Holds e joining l (over ∷ ws) t r h d = subst (Holds e) (some_path d) h
step_at-Holds e joining l (busy k ∷ ws) t r h d = ground (arith, d)
step_at-Holds e joining l (waiting ∷ ws) t r h d = ground (arith, d)
step_at-Holds e gone l ws t r h d = ground (arith, d)

worked-Holds :
    (e : EventLoop) (p : Phase) (l : EventLoop) (before after : List Worker) (w w' : Worker)
    → IsAt e p l (before ++ (w ∷ after))
    → IsAt e p l (before ++ (w' ∷ after))
unfolding IsAt
worked-Holds e asked l before after w w' h = h
worked-Holds e joining l before after w w' h = h
worked-Holds e gone l before after w w' h = absurd (not_nothing before after w h.1)

Step-Holds : (e : EventLoop) {s t : Scene} → e.running ≡ true → Holds e s → Step s t → Holds e t
unfolding exit_step
Step-Holds e {s} r h (leaves t d) = step_at-Holds e s.phase s.loop s.workers t r h d
Step-Holds e {s} r h (works before after w w' d k) =
    worked-Holds e s.phase s.loop before after w w' (subst (IsAt e s.phase s.loop) d h)

worked :
    (e : EventLoop) (p : Phase) (l : EventLoop) (before after : List Worker) {w w' : Worker}
    → IsAt e p l (before ++ (w ∷ after))
    → Works true w w'
    → remain p (before ++ (w ∷ after)) ≡ suc (remain p (before ++ (w' ∷ after)))
unfolding IsAt
worked e asked l before after {w} {w'} h k =
    let c = Works-cost k in
    let a = costs-append before (w ∷ after) in
    let b = costs-append before (w' ∷ after) in omega arith
worked e joining l before after {w} {w'} h k =
    let c = Works-cost k in
    let a = costs-append before (w ∷ after) in
    let b = costs-append before (w' ∷ after) in omega arith
worked e gone l before after {w} {w'} h k = absurd (not_nothing before after w h.1)

Step-Falls :
    (e : EventLoop) {s t : Scene}
    → e.running ≡ true
    → Holds e s
    → s.loop.stopped ≡ true
    → Step s t
    → Falls (remaining s) t
unfolding exit_step IsAt
Step-Falls e {s} r h on (leaves t d) =
    step_at-Falls s.phase s.loop s.workers t
      (λ a. ap (λ l. l.running) (subst (λ p. IsAt e p s.loop s.workers) a h) ∙ r) on d
Step-Falls e {s} r h on (works before after w w' d k) = (
  ap (remain s.phase) d
      ∙ worked e s.phase s.loop before after (subst (IsAt e s.phase s.loop) d h)
          (subst (λ b. Works b w w') on k),
  on,
)

Run-Holds :
    (e : EventLoop) {s t : Scene} {n : ℕ} → e.running ≡ true → Holds e s → Run s n t → Holds e t
Run-Holds e r h here = h
Run-Holds e r h (next run s) = Step-Holds e r (Run-Holds e r h run) s

Run-Falls :
    (e : EventLoop) {s t : Scene} {n : ℕ}
    → e.running ≡ true
    → Holds e s
    → s.loop.stopped ≡ true
    → Run s n t
    → (n + remaining t ≡ remaining s) × (t.loop.stopped ≡ true)
Run-Falls e r h on here = (omega arith, on)
Run-Falls e r h on (next run s) =
    let (sum, still) = Run-Falls e r h on run in
    let (less, on₁) = Step-Falls e r (Run-Holds e r h run) still s in (omega arith, on₁)

goes_on_at :
    (e : EventLoop) (p : Phase) (l : EventLoop) (ws : List Worker)
    → IsAt e p l ws
    → (record { loop = l; workers = ws; phase = p } ≡ has_left e)
      ⊎ ((u : Scene) × Step (record { loop = l; workers = ws; phase = p }) u)
unfolding IsAt exit_step step_at join_next
goes_on_at e asked l ws h = inr (begin_exit l ws, leaves _ refl)
goes_on_at e joining l [] h = inr (_, leaves _ refl)
goes_on_at e joining l (over ∷ ws) h = inr (_, leaves _ refl)
goes_on_at e joining l (busy zero ∷ ws) h = inr (_, works [] ws _ _ refl (ends refl))
goes_on_at e joining l (busy (suc k) ∷ ws) h = inr (_, works [] ws _ _ refl (proceeds k refl))
goes_on_at e joining l (waiting ∷ ws) h =
    inr (_, works [] ws _ _ refl (returns refl (ap (λ x. x.stopped) h)))
goes_on_at e gone l ws h = let at_end = h.0 in let all = h.1 in inl cc

-- After the first step of `Exit` the context is stopped.
stopped_at :
    (e : EventLoop) (p : Phase) (l : EventLoop) (ws : List Worker)
    → e.running ≡ true
    → IsAt e p l ws
    → p ≢ asked
    → l.stopped ≡ true
unfolding IsAt
stopped_at e asked l ws r h n = absurd (n refl)
stopped_at e joining l ws r h n = ap (λ x. x.stopped) h
stopped_at e gone l ws r h n = ap (λ x. x.stopped) (h.0 ∙ exited e r)

first_step :
    (e : EventLoop) (ws : List Worker)
    → e.running ≡ true
    → exit_step (asks e ws)
      ≡ some record { loop = record e { stopped = true }; workers = ws; phase = joining }
unfolding exit_step step_at
first_step e ws r = ap some (begun_exit e ws r)

-- `Exit` of a running loop, with threads that run handlers of finitely many steps. Its caller's first step
-- is possible whatever the threads do, and it stops the context. From then on, in any order of the steps,
-- the context stays stopped, and each step, whose ever it is, leaves one less of the steps that remain; and
-- `Exit` has returned, with the loop as `exit` makes it and every thread joined, or a step is possible.
pub Run-has_left :
    (e : EventLoop) (ws : List Worker) (n m : ℕ) (s t : Scene)
    → e.running ≡ true
    → Run (asks e ws) n s
    → s.phase ≢ asked
    → Run s m t
    → (exit_step (asks e ws)
        ≡ some record { loop = record e { stopped = true }; workers = ws; phase = joining })
      × (t.loop.stopped ≡ true)
      × (m + remaining t ≡ remaining s)
      × ((t ≡ has_left e) ⊎ ((u : Scene) × Step t u))
unfolding IsAt
Run-has_left e ws n m s t r before n' run =
    let h = Run-Holds e r refl before in
    let (sum, on) = Run-Falls e r h (stopped_at e s.phase s.loop s.workers r h n') run in
    (first_step e ws r, on, sum, goes_on_at e t.phase t.loop t.workers (Run-Holds e r h run))
