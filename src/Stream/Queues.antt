-- ===== src/Stream/Queues.antt =====
-- The two queues of a stream: what is taken from one is what was put into it, in order.
use go_tor.Prelude.{
  ℕ, ◌≤◌, ◌≡◌, inl, inr, refl, sym, subst, ap, ◌∙◌, Bool, true, false, not, ◌&&◌, ◌||◌, List, [],
  ◌∷◌, ◌++◌, append_assoc, Option, none, some, Result, ok, err, ltb, length, length-append,
  Bool-cases, arith,
}
use go_tor.Stream.{
  new_stream, Stream, StreamError, StreamState, Bytes, queue_capacity, offer, poll, send, receive,
  receive_data, send_data, close_stream, set_stream_state, is_connected, send_queue_full,
  receive_queue_full, not_connected,
}

pub data Call : Type 0 where
  sends delivers : Bool → Bytes → Call
  receives transmits : Bool → Call
  closes : Call
  moves_to : StreamState → Call

-- A stream, and what has gone into its queues without an error and come out of them, in order.
pub record History : Type 0 where
  pub stream : Stream
  pub sent : List Bytes
  pub transmitted : List Bytes
  pub delivered : List Bytes
  pub received : List Bytes

put_in : Option StreamError → Bytes → List Bytes → List Bytes
put_in none b l = l ++ (b ∷ [])
put_in (some _) b l = l

taken_out : Result StreamError (Option Bytes) → List Bytes → List Bytes
taken_out (ok (some b)) l = l ++ (b ∷ [])
taken_out (ok none) l = l
taken_out (err _) l = l

unfoldable pub call : Call → History → History
unfolding put_in taken_out
call (sends p b) h =
    let r = send p b h.stream in record h { stream = r.0; sent = put_in r.1 b h.sent }
call (delivers p b) h =
    let r = receive_data p b h.stream in
    record h { stream = r.0; delivered = put_in r.1 b h.delivered }
call (receives p) h =
    let r = receive p h.stream in record h { stream = r.0; received = taken_out r.1 h.received }
call (transmits p) h =
    let r = send_data p h.stream in
    record h { stream = r.0; transmitted = taken_out r.1 h.transmitted }
call closes h = record h { stream = close_stream h.stream }
call (moves_to state) h = record h { stream = set_stream_state state h.stream }

unfoldable pub calls : List Call → History → History
calls [] h = h
calls (c ∷ cs) h = calls cs (call c h)

-- What went in is what came out and what still waits, and the queue is not over its capacity.
abbrev pub Kept : List Bytes → List Bytes → List Bytes → Type 0
Kept ins outs queue = (ins ≡ outs ++ queue) × (length queue ≤ queue_capacity)

offer_keeps :
    (full : StreamError) (p closed : Bool) (b : Bytes) (queue ins outs : List Bytes)
    → Kept ins outs queue
    → Kept (put_in (offer full p closed b queue).1 b ins) outs (offer full p closed b queue).0
unfolding offer put_in
offer_keeps full p closed b queue ins outs (k, l) =
    elim (Bool-cases (ltb (length queue) queue_capacity && (p || not closed))) [
      | inl e ↦ rw e (
        ap (λ t. t ++ (b ∷ [])) k ∙ append_assoc outs queue (b ∷ []),
        (let n = length-append queue (b ∷ []) in ground arith),
      )
      | inr e ↦ rw e (k, l)
    ]

poll_keeps :
    (p closed : Bool) (queue ins outs : List Bytes)
    → Kept ins outs queue
    → Kept ins (taken_out (poll p closed queue).1 outs) (poll p closed queue).0
unfolding poll taken_out
poll_keeps p true [] ins outs k = k
poll_keeps p false [] ins outs k = k
poll_keeps p closed (b ∷ bs) ins outs (k, l) = elim (Bool-cases (p || not closed)) [
  | inl e ↦ rw e (k ∙ sym (append_assoc outs (b ∷ []) bs), omega arith)
  | inr e ↦ rw e (k, l)
]

pub record InOrder (h : History) : Type 0 where
  pub outgoing : Kept h.sent h.transmitted h.stream.send_queue
  pub incoming : Kept h.delivered h.received h.stream.recv_queue

send_refused :
    (p : Bool) (b : Bytes) (s : Stream)
    → is_connected s.state ≡ false
    → send p b s ≡ (s, some not_connected)
unfolding send
send_refused p b s e = rw e refl

send_offers :
    (p : Bool) (b : Bytes) (s : Stream)
    → is_connected s.state ≡ true
    → (send p b s ≡ (
      record s { send_queue = (offer send_queue_full p s.is_closed b s.send_queue).0 },
      (offer send_queue_full p s.is_closed b s.send_queue).1,
    ))
unfolding send
send_offers p b s e = rw e refl

-- A send leaves the queues in order whatever pair it returns of these two.
after_send : History → Bytes → Stream × Option StreamError → History
after_send h b r = record h { stream = r.0; sent = put_in r.1 b h.sent }

refused_keeps :
    (b : Bytes) (h : History) → InOrder h → InOrder (after_send h b (h.stream, some not_connected))
unfolding after_send put_in
refused_keeps b h k = record { outgoing = k.outgoing; incoming = k.incoming }

call_sends : (p : Bool) (b : Bytes) (h : History) → InOrder h → InOrder (call (sends p b) h)
unfolding call after_send
call_sends p b h k = elim (Bool-cases (is_connected h.stream.state)) [
  | inl e ↦
      subst (λ r. InOrder (after_send h b r)) (sym (send_offers p b h.stream e))
        (record {
          outgoing =
              offer_keeps send_queue_full p h.stream.is_closed b h.stream.send_queue h.sent
                h.transmitted k.outgoing;
          incoming = k.incoming;
        })
  | inr e ↦
      subst (λ r. InOrder (after_send h b r)) (sym (send_refused p b h.stream e))
        (refused_keeps b h k)
]

call-InOrder : (c : Call) (h : History) → InOrder h → InOrder (call c h)
unfolding call send receive receive_data send_data close_stream set_stream_state
call-InOrder (sends p b) h k = call_sends p b h k
call-InOrder (delivers p b) h k = record {
  outgoing = k.outgoing;
  incoming =
      offer_keeps receive_queue_full p h.stream.is_closed b h.stream.recv_queue h.delivered
        h.received k.incoming;
}
call-InOrder (receives p) h k = record {
  outgoing = k.outgoing;
  incoming = poll_keeps p h.stream.is_closed h.stream.recv_queue h.delivered h.received k.incoming;
}
call-InOrder (transmits p) h k = record {
  outgoing = poll_keeps p h.stream.is_closed h.stream.send_queue h.sent h.transmitted k.outgoing;
  incoming = k.incoming;
}
call-InOrder closes h k = elim (Bool-cases h.stream.is_closed) [
  | inl e ↦ rw e (record { outgoing = k.outgoing; incoming = k.incoming })
  | inr e ↦ rw e (record { outgoing = k.outgoing; incoming = k.incoming })
]
call-InOrder (moves_to state) h k = record { outgoing = k.outgoing; incoming = k.incoming }

calls-InOrder : (cs : List Call) (h : History) → InOrder h → InOrder (calls cs h)
unfolding calls
calls-InOrder [] h k = k
calls-InOrder (c ∷ cs) h k = calls-InOrder cs (call c h) (call-InOrder c h k)

abbrev pub started : Stream → History
started s = record { stream = s; sent = []; transmitted = []; delivered = []; received = [] }

-- Over any sequence of sends, deliveries, receives, transmissions, closes and changes of state on a
-- new stream, whichever ready case each select takes: what was put into a queue without an error is
-- what was taken out of it followed by what still waits in it, in order, and no queue holds more than
-- 32 slices.
pub queues-InOrder :
    (cs : List Call) (now id circuit_id port : ℕ) (target : Bytes)
    → InOrder (calls cs (started (new_stream now id circuit_id target port)))
unfolding new_stream
queues-InOrder cs now id circuit_id port target =
    calls-InOrder cs (started (new_stream now id circuit_id target port))
      (record { outgoing = (refl, omega arith); incoming = (refl, omega arith) })
