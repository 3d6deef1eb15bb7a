-- ===== src/Net/Session/Writes.antt =====
-- `WebsocketSession` has one write under way at most, that of the front of its queue.
use nbsdk.Prelude.{
  List, [], ◌∷◌, ◌++◌, some, none, ◌≡◌, ◌≢◌, ◌⊎◌, inl, inr, refl, ap, sym, ◌∙◌, Text, arith,
  append-nil, append_cons_one, append_cons_ne_nil, some_path, cons_head, suc, subst, Bool, true,
  ltb, length, length-append,
}
use nbsdk.Net.Session.{
  call_if, Callback, on_error, send_error, Session, Operation, resolving, dialing, shaking, reading,
  closing, writing, posting, ErrorCode, success, Reaction, connect, disconnect, send_data, complete,
  on_resolve, on_connect, on_handshake, on_close, on_read, on_write, written, send_data_inner,
}
use nbsdk.Net.Session.System.{
  System, started, react, Step, connects, disconnects, sends, ends, Reach, here, next, initial,
}

-- The messages of the writes under way.
abbrev pub writes : List Operation → List Text
writes [] = []
writes (writing m ∷ ops) = m ∷ writes ops
writes (_ ∷ ops) = writes ops

-- Of the writes under way and the queue: no write, or one, of the message at the front.
abbrev pub OneWrite : List Text → List Text → Type 0
OneWrite ms queue =
    (ms ≡ []) ⊎ ((m : Text) × (rest : List Text) × (ms ≡ m ∷ []) × (queue ≡ m ∷ rest))

abbrev pub IsOrderly : System → Type 0
IsOrderly w = OneWrite (writes w.pending) w.session.send_msg_queue

pub writes-append : (xs ys : List Operation) → writes (xs ++ ys) ≡ writes xs ++ writes ys
writes-append [] ys = refl
writes-append (resolving ∷ xs) ys = writes-append xs ys
writes-append (dialing ∷ xs) ys = writes-append xs ys
writes-append (shaking ∷ xs) ys = writes-append xs ys
writes-append (reading ∷ xs) ys = writes-append xs ys
writes-append (closing ∷ xs) ys = writes-append xs ys
writes-append (writing m ∷ xs) ys = ap (λ l. m ∷ l) (writes-append xs ys)
writes-append (posting m ∷ xs) ys = writes-append xs ys

-- A reaction that has nothing to do with the queue.
pub record IsQuiet (s : Session) (r : Reaction) : Type 0 where
  pub queue : r.0.send_msg_queue ≡ s.send_msg_queue
  pub none_started : writes (started r.1) ≡ []

pub connect-IsQuiet : (s : Session) → IsQuiet s (connect s)
unfolding connect
connect-IsQuiet s = ground arith

pub disconnect-IsQuiet : (s : Session) → IsQuiet s (disconnect s)
unfolding disconnect
disconnect-IsQuiet s = ground arith

pub send_data-IsQuiet : (s : Session) (m : Text) → IsQuiet s (send_data s m)
unfolding send_data
send_data-IsQuiet s m = ground arith

pub on_resolve-IsQuiet : (s : Session) (ec : ErrorCode) → IsQuiet s (on_resolve s ec)
unfolding on_resolve
on_resolve-IsQuiet s ec = ground arith

pub on_connect-IsQuiet : (s : Session) (ec : ErrorCode) → IsQuiet s (on_connect s ec)
unfolding on_connect
on_connect-IsQuiet s ec = ground arith

pub on_handshake-IsQuiet : (s : Session) (ec : ErrorCode) → IsQuiet s (on_handshake s ec)
unfolding on_handshake
on_handshake-IsQuiet s ec = ground arith

pub on_close-IsQuiet : (s : Session) (ec : ErrorCode) → IsQuiet s (on_close s ec)
unfolding on_close
on_close-IsQuiet s ec = ground arith

pub on_read-IsQuiet : (s : Session) (ec : ErrorCode) (m : Text) → IsQuiet s (on_read s ec m)
unfolding on_read
on_read-IsQuiet s ec m = ground arith

posting-OneWrite :
    (s : Session) (d : Text) (queue ms : List Text)
    → OneWrite ms queue
    → let (s', effects) = send_data_inner (record s { send_msg_queue = queue }) d in
      OneWrite (ms ++ writes (started effects)) s'.send_msg_queue
unfolding send_data_inner
posting-OneWrite s d [] ms h = elim h [ inl e ↦ inr (d, [], rw e, refl) | inr (m, rest, _, q) ↦ cc ]
posting-OneWrite s d (m ∷ rest) ms h =
    rw (long, append-nil)
      (elim h [
        | inl e ↦ inl e
        | inr (k, later, one, q) ↦
            inr (m, rest ++ (d ∷ []), one ∙ ap (λ (x : Text). x ∷ []) (sym (cons_head q)), refl)
      ])
  where
    long : ltb 1 (suc (length (rest ++ (d ∷ [])))) ≡ true
    long = ground (arith, length-append rest (d ∷ []))

written-OneWrite :
    (s : Session) (queue : List Text) (r : Reaction)
    → written s queue ≡ some r
    → OneWrite (writes (started r.1)) r.0.send_msg_queue
unfolding written
written-OneWrite s [] r e = cc
written-OneWrite s (m ∷ []) r e =
    subst (λ r. OneWrite (writes (started r.1)) r.0.send_msg_queue) (some_path e) (inl refl)
written-OneWrite s (m ∷ k ∷ rest) r e =
    subst (λ r. OneWrite (writes (started r.1)) r.0.send_msg_queue) (some_path e)
      (inr (k, rest, refl, refl))

pub fail-writes : (b : Bool) (c : Callback) → writes (started (call_if b c)) ≡ []
fail-writes b c = ground arith

on_write-OneWrite :
    (s : Session) (ec : ErrorCode) (r : Reaction)
    → on_write s ec ≡ some r
    → OneWrite (writes (started r.1)) r.0.send_msg_queue
unfolding on_write
on_write-OneWrite s success r e = written-OneWrite s s.send_msg_queue r e
on_write-OneWrite s ec r e =
    subst (λ r. OneWrite (writes (started r.1)) r.0.send_msg_queue) (some_path e)
      (inl (fail-writes s.error_callback (on_error send_error ec)))

-- An operation that ends is no longer under way.
pub without :
    (before after : List Operation) (op : Operation)
    → writes (op ∷ []) ≡ []
    → writes (before ++ (op ∷ after)) ≡ writes (before ++ after)
without before after op e = rw (
  writes-append before (op ∷ after),
  writes-append (op ∷ []) after,
  e,
  writes-append before after,
)

-- A write that ends is the only one, of the message at the front.
pub ended :
    (before after : List Operation) (m : Text) (queue : List Text)
    → OneWrite (writes (before ++ (writing m ∷ after))) queue
    → (writes (before ++ after) ≡ []) × ((rest : List Text) × (queue ≡ m ∷ rest))
ended before after m queue h = elim h [
  | inl e ↦ absurd (
      append_cons_ne_nil (writes before) m (writes after)
        (sym (writes-append before (writing m ∷ after)) ∙ e))
  | inr (k, rest, one, q) ↦
      let (none_left, same) =
        append_cons_one (writes before) m (writes after) k
          (sym (writes-append before (writing m ∷ after)) ∙ one) in
      (writes-append before after ∙ none_left, (rest, rw same q))
]

quiet-OneWrite :
    (s : Session) (r : Reaction) (ms : List Text) (pending : List Operation)
    → IsQuiet s r
    → ms ≡ writes pending
    → OneWrite ms s.send_msg_queue
    → IsOrderly (react pending r)
quiet-OneWrite s r ms pending q e h =
    rw (writes-append pending (started r.1), q.none_started, append-nil, ← e, q.queue) h

-- A quiet handler, when its operation ends.
quiet_end :
    (w : System) (before after : List Operation) (op : Operation) (r r' : Reaction)
    → w.pending ≡ before ++ (op ∷ after)
    → writes (op ∷ []) ≡ []
    → some r' ≡ some r
    → IsQuiet w.session r'
    → IsOrderly w
    → IsOrderly (react (before ++ after) r)
quiet_end w before after op r r' p o e q h =
    subst (λ r. IsOrderly (react (before ++ after) r)) (some_path e)
      (quiet-OneWrite w.session r' (writes w.pending) (before ++ after) q
        (ap writes p ∙ without before after op o) h)

ends-IsOrderly :
    (w : System) (before after : List Operation) (op : Operation) (ec : ErrorCode) (message : Text)
    (r : Reaction)
    → w.pending ≡ before ++ (op ∷ after)
    → complete op ec message w.session ≡ some r
    → IsOrderly w
    → IsOrderly (react (before ++ after) r)
unfolding complete
ends-IsOrderly w before after resolving ec message r p e h =
    quiet_end w before after resolving r _ p refl e (on_resolve-IsQuiet w.session ec) h
ends-IsOrderly w before after dialing ec message r p e h =
    quiet_end w before after dialing r _ p refl e (on_connect-IsQuiet w.session ec) h
ends-IsOrderly w before after shaking ec message r p e h =
    quiet_end w before after shaking r _ p refl e (on_handshake-IsQuiet w.session ec) h
ends-IsOrderly w before after reading ec message r p e h =
    quiet_end w before after reading r _ p refl e (on_read-IsQuiet w.session ec message) h
ends-IsOrderly w before after closing ec message r p e h =
    quiet_end w before after closing r _ p refl e (on_close-IsQuiet w.session ec) h
ends-IsOrderly w before after (writing m) ec message r p e h =
    let (no_write, _) = ended before after m w.session.send_msg_queue (rw (← p) h) in
    rw (writes-append (before ++ after) (started r.1), no_write)
      (on_write-OneWrite w.session ec r e)
ends-IsOrderly w before after (posting m) ec message r p e h =
    subst (λ r. IsOrderly (react (before ++ after) r)) (some_path e)
      (rw
        (
          writes-append (before ++ after) (started (send_data_inner w.session m).1),
          ← without before after (posting m) refl,
          ← p,
        )
        (posting-OneWrite w.session m w.session.send_msg_queue (writes w.pending) h))

pub Step-IsOrderly : {w x : System} → Step w x → IsOrderly w → IsOrderly x
Step-IsOrderly {w} connects h =
    quiet-OneWrite w.session _ (writes w.pending) w.pending (connect-IsQuiet w.session) refl h
Step-IsOrderly {w} disconnects h =
    quiet-OneWrite w.session _ (writes w.pending) w.pending (disconnect-IsQuiet w.session) refl h
Step-IsOrderly {w} (sends m) h =
    quiet-OneWrite w.session _ (writes w.pending) w.pending (send_data-IsQuiet w.session m) refl h
Step-IsOrderly {w} (ends before after op ec message r p e) h =
    ends-IsOrderly w before after op ec message r p e h

pub Reach-IsOrderly : {s : Session} {w : System} → Reach (initial s) w → IsOrderly w
Reach-IsOrderly here = inl refl
Reach-IsOrderly (next r st) = Step-IsOrderly st (Reach-IsOrderly r)

-- `erase` is never called on an empty queue.
defined :
    (w : System) (before after : List Operation) (op : Operation) (ec : ErrorCode) (message : Text)
    → w.pending ≡ before ++ (op ∷ after)
    → IsOrderly w
    → complete op ec message w.session ≢ none
unfolding complete on_write written
defined w before after (writing m) ec message p h e =
    let (_, front) = ended before after m w.session.send_msg_queue (rw (← p) h) in
    let (rest, q) = front in ground arith
defined w before after _ ec message p h e = cc

-- Whatever a client calls and however the operations end, at most one write is under way, and it is
-- the write of the message at the front of the queue; and the handler of an operation under way,
-- whatever its error code, takes no message from an empty queue.
pub Reach-OneWrite :
    (s : Session) (w : System) (before after : List Operation) (op : Operation) (ec : ErrorCode)
    (message : Text)
    → Reach (initial s) w
    → w.pending ≡ before ++ (op ∷ after)
    → OneWrite (writes w.pending) w.session.send_msg_queue
      × (complete op ec message w.session ≢ none)
Reach-OneWrite s w before after op ec message r p =
    (Reach-IsOrderly r, defined w before after op ec message p (Reach-IsOrderly r))
