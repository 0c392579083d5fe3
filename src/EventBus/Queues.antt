-- ===== src/EventBus/Queues.antt =====
-- agent/src/event_bus.rs: the queues stay bounded.
use mu5250_wireguard.EventBus.{
  Subscriber, deliver, dispatch, dispatch_all, handle, read_events, channel_capacity, is_empty,
  is_ignored,
}
use mu5250_wireguard.Json.{Value, object, null, boolean, number, string, array, Fields, end, field}
use mu5250_wireguard.Base.{
  text_eq_iff, length-append, ◌+◌, ◌%◌, ◌^◌, ◌≤◌, ◌<◌, ◌≡◌, ◌≢◌, ◌⊎◌, inl, inr, true, false, Option,
  none, some, List, [], ◌∷◌, ◌++◌, arith, Text, length, Bool-cases,
}
use mu5250_wireguard.Base.Digits.{trim}

-- The same subscriptions, every queue within its capacity, and every queue grown at the end only.
unfoldable pub Bounded : List Subscriber → Type 0
Bounded [] = Unit {0}
Bounded (s ∷ subs) = (length s.queue ≤ channel_capacity) × Bounded subs

Bounded-dispatch :
    (name : Text) (payload : Value) (subs : List Subscriber)
    → Bounded subs
    → Bounded (dispatch name payload subs)
unfolding Bounded dispatch deliver
Bounded-dispatch name payload [] h = tt
Bounded-dispatch name payload (s ∷ subs) h = (
  ground (arith, h.0, length-append s.queue (payload ∷ [])),
  Bounded-dispatch name payload subs h.1,
)

Bounded-dispatch_all :
    (fields : Fields) (subs : List Subscriber) → Bounded subs → Bounded (dispatch_all fields subs)
unfolding dispatch_all
Bounded-dispatch_all end subs h = h
Bounded-dispatch_all (field name payload rest) subs h = elim (Bool-cases (is_ignored name)) [
  | inl e ↦ rw e (Bounded-dispatch_all rest subs h)
  | inr e ↦ rw e (
      Bounded-dispatch_all rest (dispatch name payload subs) (Bounded-dispatch name payload subs h))
]

Bounded-handle :
    (v : Option Value) (subs : List Subscriber) → Bounded subs → Bounded (handle v subs)
unfolding handle
Bounded-handle (some (object fields)) subs h = Bounded-dispatch_all fields subs h
Bounded-handle none subs h = h
Bounded-handle (some null) subs h = h
Bounded-handle (some (boolean b)) subs h = h
Bounded-handle (some (number n)) subs h = h
Bounded-handle (some (string s)) subs h = h
Bounded-handle (some (array items)) subs h = h

-- Whatever lines the firmware prints, and however the JSON reader takes them: where every queue is
-- within its capacity at first, it is so after all the events, though no receiver takes one out.
pub read_events-Bounded :
    (decode : Text → Option Value) (ls : List (Option Text)) (subs : List Subscriber)
    → Bounded subs
    → Bounded (read_events decode ls subs)
unfolding read_events
read_events-Bounded decode [] subs h = h
read_events-Bounded decode (none ∷ ls) subs h = h
read_events-Bounded decode (some l ∷ ls) subs h = elim (Bool-cases (is_empty (trim l))) [
  | inl e ↦ rw e (read_events-Bounded decode ls subs h)
  | inr e ↦ rw e (
      read_events-Bounded decode ls (handle (decode (trim l)) subs)
        (Bounded-handle (decode (trim l)) subs h))
]

-- An event reaches a subscriber with that name, whose receiver exists and has room, behind what it
-- has; it is counted as dropped, modulo 64 bits, where there is no room or no receiver; and nothing
-- changes for the other subscribers.
pub deliver-each :
    (name : Text) (payload : Value) (s : Subscriber)
    → ((s.event ≡ name)
        × (s.connected ≡ true)
        × (length s.queue < 64)
        × (deliver name payload s ≡ record s { queue = s.queue ++ payload ∷ [] }))
      ⊎ ((s.event ≡ name)
          × ((s.connected ≡ false) ⊎ (64 ≤ length s.queue))
          × (deliver name payload s ≡ record s { dropped = (s.dropped + 1) % 2 ^ 64 }))
      ⊎ ((s.event ≢ name) × (deliver name payload s ≡ s))
unfolding deliver
deliver-each name payload s = ground (arith, text_eq_iff s.event name)
