-- ===== src/Net/Session/Stall.antt =====
-- A failed write of `WebsocketSession` leaves its message at the front of the queue, and nothing
-- writes that message again: `SendDataInner` starts a write only into an empty queue.
use nbsdk.Prelude.{
  List, [], ◌∷◌, ◌++◌, some, ◌≡◌, ◌≢◌, refl, ap, sym, ◌∙◌, subst, Text, arith, append-nil,
  append_assoc, append_cons_ne_nil, some_path, true, ltb, length, length-append,
}
use nbsdk.Net.Session.{
  Session, Operation, resolving, dialing, shaking, reading, closing, writing, posting, ErrorCode,
  success, Reaction, complete, on_write, send_data_inner, on_error, send_error,
}
use nbsdk.Net.Session.System.{
  System, started, react, Step, connects, disconnects, sends, ends, Reach, here, next, initial,
}
use nbsdk.Net.Session.Writes.{
  writes, writes-append, without, ended, fail-writes, IsQuiet, Reach-IsOrderly, connect-IsQuiet,
  disconnect-IsQuiet, send_data-IsQuiet, on_resolve-IsQuiet, on_connect-IsQuiet,
  on_handshake-IsQuiet, on_close-IsQuiet, on_read-IsQuiet,
}

-- No write under way, and a queue that begins with the given messages.
abbrev pub IsStalled : Text → List Text → System → Type 0
IsStalled m rest w =
    (writes w.pending ≡ []) × ((more : List Text) × (w.session.send_msg_queue ≡ m ∷ (rest ++ more)))

module _ (m : Text) (rest : List Text) where
  quiet_stall :
      (s : Session) (r : Reaction) (pending : List Operation)
      → IsQuiet s r
      → IsStalled m rest (record { session = s; pending = pending })
      → IsStalled m rest (react pending r)
  quiet_stall s r pending q (idle, (more, e)) =
      (rw (writes-append pending (started r.1), q.none_started, idle), (more, q.queue ∙ e))

  posting_stall :
      (s : Session) (d : Text) (pending : List Operation)
      → IsStalled m rest (record { session = s; pending = pending })
      → IsStalled m rest (react pending (send_data_inner s d))
  unfolding send_data_inner
  posting_stall s d pending (idle, (more, e)) = (
    rw (long, append-nil) idle,
    (
      more ++ (d ∷ []),
      ap (λ q. q ++ (d ∷ [])) e ∙ ap (λ l. m ∷ l) (append_assoc rest more (d ∷ [])),
    ),
  )
    where
      long : ltb 1 (length (s.send_msg_queue ++ (d ∷ []))) ≡ true
      long = ground (arith, ap length e, length-append s.send_msg_queue (d ∷ []))

  -- What is left when an operation that is no write ends.
  left :
      (w : System) (before after : List Operation) (op : Operation)
      → w.pending ≡ before ++ (op ∷ after)
      → writes (op ∷ []) ≡ []
      → IsStalled m rest w
      → IsStalled m rest (record w { pending = before ++ after })
  left w before after op p o (idle, queue) =
      (sym (without before after op o) ∙ ap writes (sym p) ∙ idle, queue)

  quiet_end_stall :
      (w : System) (before after : List Operation) (op : Operation) (r r' : Reaction)
      → w.pending ≡ before ++ (op ∷ after)
      → writes (op ∷ []) ≡ []
      → some r' ≡ some r
      → IsQuiet w.session r'
      → IsStalled m rest w
      → IsStalled m rest (react (before ++ after) r)
  quiet_end_stall w before after op r r' p o e q h =
      subst (λ r. IsStalled m rest (react (before ++ after) r)) (some_path e)
        (quiet_stall w.session r' (before ++ after) q (left w before after op p o h))

  ends_stall :
      (w : System) (before after : List Operation) (op : Operation) (ec : ErrorCode)
      (message : Text) (r : Reaction)
      → w.pending ≡ before ++ (op ∷ after)
      → complete op ec message w.session ≡ some r
      → IsStalled m rest w
      → IsStalled m rest (react (before ++ after) r)
  unfolding complete
  ends_stall w before after resolving ec message r p e h =
      quiet_end_stall w before after resolving r _ p refl e (on_resolve-IsQuiet w.session ec) h
  ends_stall w before after dialing ec message r p e h =
      quiet_end_stall w before after dialing r _ p refl e (on_connect-IsQuiet w.session ec) h
  ends_stall w before after shaking ec message r p e h =
      quiet_end_stall w before after shaking r _ p refl e (on_handshake-IsQuiet w.session ec) h
  ends_stall w before after reading ec message r p e h =
      quiet_end_stall w before after reading r _ p refl e (on_read-IsQuiet w.session ec message) h
  ends_stall w before after closing ec message r p e h =
      quiet_end_stall w before after closing r _ p refl e (on_close-IsQuiet w.session ec) h
  ends_stall w before after (writing k) ec message r p e (idle, _) = absurd (
      append_cons_ne_nil (writes before) k (writes after)
        (sym (writes-append before (writing k ∷ after)) ∙ ap writes (sym p) ∙ idle))
  ends_stall w before after (posting k) ec message r p e h =
      subst (λ r. IsStalled m rest (react (before ++ after) r)) (some_path e)
        (posting_stall w.session k (before ++ after) (left w before after (posting k) p refl h))

  Step-IsStalled : {w x : System} → Step w x → IsStalled m rest w → IsStalled m rest x
  Step-IsStalled {w} connects h = quiet_stall w.session _ w.pending (connect-IsQuiet w.session) h
  Step-IsStalled {w} disconnects h =
      quiet_stall w.session _ w.pending (disconnect-IsQuiet w.session) h
  Step-IsStalled {w} (sends d) h =
      quiet_stall w.session _ w.pending (send_data-IsQuiet w.session d) h
  Step-IsStalled {w} (ends before after op ec message r p e) h =
      ends_stall w before after op ec message r p e h

  Reach-IsStalled : {w x : System} → Reach w x → IsStalled m rest w → IsStalled m rest x
  Reach-IsStalled here h = h
  Reach-IsStalled (next r st) h = Step-IsStalled st (Reach-IsStalled r h)

failed_write :
    (s : Session) (ec : ErrorCode) (r : Reaction)
    → ec ≢ success
    → on_write s ec ≡ some r
    → (writes (started r.1) ≡ []) × (r.0.send_msg_queue ≡ s.send_msg_queue)
unfolding on_write
failed_write s success r n e = absurd (n refl)
failed_write s ec r n e =
    subst (λ r. (writes (started r.1) ≡ []) × (r.0.send_msg_queue ≡ s.send_msg_queue)) (some_path e)
      (fail-writes s.error_callback (on_error send_error ec), refl)

-- Once a write has failed, no write is under way ever again, whatever a client calls, reconnecting
-- included, and however the operations end: the message of that write and those behind it stay in the
-- queue.
pub failed_write_stalls :
    (s : Session) (w x : System) (before after : List Operation) (m : Text) (ec : ErrorCode)
    (r : Reaction)
    → Reach (initial s) w
    → w.pending ≡ before ++ (writing m ∷ after)
    → ec ≢ success
    → on_write w.session ec ≡ some r
    → Reach (react (before ++ after) r) x
    → (writes x.pending ≡ [])
      × ((more : List Text) × (x.session.send_msg_queue ≡ w.session.send_msg_queue ++ more))
failed_write_stalls s w x before after m ec r h p n e later =
    let (none_left, front) =
      ended before after m w.session.send_msg_queue (rw (← p) (Reach-IsOrderly h)) in
    let (rest, q) = front in
    let (none_new, kept) = failed_write w.session ec r n e in
    let (idle, queue) = Reach-IsStalled m rest later (
      rw (writes-append (before ++ after) (started r.1), none_left, none_new),
      ([], kept ∙ q ∙ ap (λ l. m ∷ l) (sym (append-nil rest))),
    ) in
    let (more, last) = queue in (idle, (more, last ∙ ap (λ l. l ++ more) (sym q)))
