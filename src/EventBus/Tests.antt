-- ===== src/EventBus/Tests.antt =====
-- One subscriber, one event.
use mu5250_wireguard.Base.{
  ◌≡◌, refl, true, Option, none, some, [], ◌∷◌, arith, Text, codes, text_eq,
}
use mu5250_wireguard.EventBus.{subscribe, read_events, dispatch, deliver}
use mu5250_wireguard.EventBus.Queues.{Bounded}
use mu5250_wireguard.Json.{Value, object, null, field, end}
use mu5250_wireguard.Base.Digits.{trim}

abbrev decoded : Text → Option Value
decoded s = some (object (field (codes "battery") null end))

event_queued :
    read_events decoded
      (some (codes " x ") ∷ none ∷ some (codes "y") ∷ [])
      (subscribe (codes "battery") [])
    ≡ record { event = codes "battery"; queue = null ∷ []; connected = true; dropped = 0 } ∷ []
unfolding read_events subscribe dispatch deliver text_eq trim
event_queued = refl

bounded : Bounded (subscribe (codes "battery") [])
unfolding Bounded subscribe
bounded = (omega arith, tt)
