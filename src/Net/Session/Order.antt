-- ===== src/Net/Session/Order.antt =====
-- In which order a `WebsocketSession` sends what it was given.
use nbsdk.Prelude.{
  List, [], ◌∷◌, ◌++◌, some, ◌≡◌, ap, sym, ◌∙◌, Text, arith, append-nil, append_assoc, some_path,
}
use nbsdk.Net.Session.{
  Session, Operation, resolving, dialing, shaking, reading, closing, writing, posting, ErrorCode,
  success, operation_canceled, websocket_closed, other, Reaction, complete, on_write, written,
  send_data_inner,
}
use nbsdk.Net.Session.System.{
  System, connects, disconnects, sends, ends, Reach, here, next, initial,
}
use nbsdk.Net.Session.Writes.{
  IsOrderly, Reach-IsOrderly, ended, IsQuiet, connect-IsQuiet, disconnect-IsQuiet,
  send_data-IsQuiet, on_resolve-IsQuiet, on_connect-IsQuiet, on_handshake-IsQuiet, on_close-IsQuiet,
  on_read-IsQuiet,
}

-- The messages that one ended operation put into the queue, and those that it reports as sent.
abbrev queued : Operation → List Text
queued (posting m) = m ∷ []
queued _ = []

abbrev confirmed : Operation → ErrorCode → List Text
confirmed (writing m) success = m ∷ []
confirmed _ _ = []

-- The same over a history, in order.
unfoldable pub posted : {v w : System} → Reach v w → List Text
posted here = []
posted (next h connects) = posted h
posted (next h disconnects) = posted h
posted (next h (sends m)) = posted h
posted (next h (ends before after op ec message r p e)) = posted h ++ queued op

unfoldable pub sent : {v w : System} → Reach v w → List Text
sent here = []
sent (next h connects) = sent h
sent (next h disconnects) = sent h
sent (next h (sends m)) = sent h
sent (next h (ends before after op ec message r p e)) = sent h ++ confirmed op ec

quiet :
    {s : Session} {r r' : Reaction}
    → some r' ≡ some r
    → IsQuiet s r'
    → s.send_msg_queue ≡ r.0.send_msg_queue
quiet e q = sym q.queue ∙ ap (λ r. r.0.send_msg_queue) (some_path e)

write_queue :
    (s : Session) (m : Text) (rest : List Text) (ec : ErrorCode) (r : Reaction)
    → s.send_msg_queue ≡ m ∷ rest
    → on_write s ec ≡ some r
    → s.send_msg_queue ≡ confirmed (writing m) ec ++ r.0.send_msg_queue
unfolding on_write written
write_queue s m rest success r q e = ground arith
write_queue s m rest operation_canceled r q e = ground arith
write_queue s m rest websocket_closed r q e = ground arith
write_queue s m rest (other n) r q e = ground arith

-- What one ended operation does to the queue.
ends_queue :
    (w : System) (before after : List Operation) (op : Operation) (ec : ErrorCode) (message : Text)
    (r : Reaction)
    → w.pending ≡ before ++ (op ∷ after)
    → complete op ec message w.session ≡ some r
    → IsOrderly w
    → w.session.send_msg_queue ++ queued op ≡ confirmed op ec ++ r.0.send_msg_queue
unfolding complete send_data_inner
ends_queue w before after resolving ec message r p e h =
    append-nil _ ∙ quiet e (on_resolve-IsQuiet w.session ec)
ends_queue w before after dialing ec message r p e h =
    append-nil _ ∙ quiet e (on_connect-IsQuiet w.session ec)
ends_queue w before after shaking ec message r p e h =
    append-nil _ ∙ quiet e (on_handshake-IsQuiet w.session ec)
ends_queue w before after reading ec message r p e h =
    append-nil _ ∙ quiet e (on_read-IsQuiet w.session ec message)
ends_queue w before after closing ec message r p e h =
    append-nil _ ∙ quiet e (on_close-IsQuiet w.session ec)
ends_queue w before after (writing m) ec message r p e h =
    let (_, front) = ended before after m w.session.send_msg_queue (rw (← p) h) in
    let (rest, q) = front in append-nil _ ∙ write_queue w.session m rest ec r q e
ends_queue w before after (posting m) ec message r p e h =
    ap (λ r. r.0.send_msg_queue) (some_path e)

-- Over every history, whatever a client calls and however the operations end: the messages put into
-- the queue are, in order, those reported as sent and then those still in the queue. None is lost,
-- doubled or overtaken, also where writes fail.
pub Reach-order :
    (s : Session) (w : System) (h : Reach (initial s) w)
    → s.send_msg_queue ++ posted h ≡ sent h ++ w.session.send_msg_queue
unfolding posted sent
Reach-order s w here = append-nil s.send_msg_queue
Reach-order s w (next {w = v} h connects) =
    Reach-order s v h ∙ ap (◌++◌ (sent h)) (sym (connect-IsQuiet v.session).queue)
Reach-order s w (next {w = v} h disconnects) =
    Reach-order s v h ∙ ap (◌++◌ (sent h)) (sym (disconnect-IsQuiet v.session).queue)
Reach-order s w (next {w = v} h (sends m)) =
    Reach-order s v h ∙ ap (◌++◌ (sent h)) (sym (send_data-IsQuiet v.session m).queue)
Reach-order s w (next {w = v} h (ends before after op ec message r p e)) =
    sym (append_assoc s.send_msg_queue (posted h) (queued op))
    ∙ ap (λ l. l ++ queued op) (Reach-order s v h)
    ∙ append_assoc (sent h) v.session.send_msg_queue (queued op)
    ∙ ap (◌++◌ (sent h)) (ends_queue v before after op ec message r p e (Reach-IsOrderly h))
    ∙ sym (append_assoc (sent h) (confirmed op ec) r.0.send_msg_queue)
