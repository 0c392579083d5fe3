-- ===== src/EventBus.antt =====
-- agent/src/event_bus.rs: the subscribers of the firmware's events, with their bounded queues.
use mu5250_wireguard.Base.Digits.{trim}
use mu5250_wireguard.Base.{
  ℕ, zero, suc, ◌+◌, ◌-◌, ◌*◌, ◌/◌, ◌%◌, ◌^◌, ◌≤◌, ◌<◌, ◌≡◌, ◌≢◌, ◌↔◌, ◌⊎◌, inl, inr, ◌∙◌, refl,
  sym, ap, subst, Bool, true, false, not, ◌&&◌, ◌||◌, Option, none, some, List, [], ◌∷◌, ◌++◌, map,
  ◌==◌, if◌then◌else◌, arith, Text, codes, text_eq, Result, ok, err, leb, ltb, length, any, all,
  find, retain, All, Bool-cases, Option-cases, Result-cases,
}
use mu5250_wireguard.Json.{Value, object, Fields, end, field}
mod Queues
mod Tests

-- The receiving end is the queue and whether it still exists.
pub record Subscriber : Type 0 where
  pub event : Text
  pub queue : List Value
  pub connected : Bool
  pub dropped : ℕ

abbrev pub channel_capacity : ℕ
channel_capacity = 64

-- `EventBus::subscribe`
unfoldable pub subscribe : Text → List Subscriber → List Subscriber
subscribe event_name subs =
    subs ++ record { event = event_name; queue = []; connected = true; dropped = 0 } ∷ []

-- The round of the loop of `dispatch`: `try_send`, or one more dropped event. The count wraps.
unfoldable pub deliver : Text → Value → Subscriber → Subscriber
deliver event_name payload sub =
    if not (text_eq sub.event event_name)
    then sub
    else if sub.connected && ltb (length sub.queue) channel_capacity
    then record sub { queue = sub.queue ++ payload ∷ [] }
    else record sub { dropped = (sub.dropped + 1) % 2 ^ 64 }

unfoldable pub dispatch : Text → Value → List Subscriber → List Subscriber
dispatch event_name payload [] = []
dispatch event_name payload (sub ∷ subs) =
    deliver event_name payload sub ∷ dispatch event_name payload subs

abbrev is_ignored : Text → Bool
is_ignored name = text_eq name (codes "zwrt_deviceui_event.touchstatus")

-- The loop over the entries of an event.
pub dispatch_all : Fields → List Subscriber → List Subscriber
dispatch_all end subs = subs
dispatch_all (field name payload rest) subs =
    dispatch_all rest (if is_ignored name then subs else dispatch name payload subs)

abbrev is_empty : Text → Bool
is_empty [] = true
is_empty (b ∷ s) = false

pub handle : Option Value → List Subscriber → List Subscriber
handle (some (object fields)) subs = dispatch_all fields subs
handle _ subs = subs

-- The loop of `read_events` over the lines of `ubus listen`, until a read fails; `decode` is the
-- JSON reader.
unfoldable pub read_events :
    (Text → Option Value) → List (Option Text) → List Subscriber → List Subscriber
unfolding handle dispatch_all
read_events decode [] subs = subs
read_events decode (none ∷ rest) subs = subs
read_events decode (some line ∷ rest) subs =
    let trimmed = trim line in
    read_events decode rest (if is_empty trimmed then subs else handle (decode trimmed) subs)
