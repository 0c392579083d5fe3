-- ===== src/AtPort/Tests.antt =====
-- Only the last port answers.
use mu5250_wireguard.Base.{◌≡◌, refl, Bool, some, List, [], ◌∷◌, Text, codes, text_eq}
use mu5250_wireguard.AtPort.{unknown, known, detect}
use mu5250_wireguard.AtPort.Backoff.{Call}

abbrev last_answers : Text → Bool
last_answers port = text_eq port (codes "/dev/smd11")

last_found : (detect last_answers 3 9 unknown).0 ≡ some (codes "/dev/smd11")
unfolding detect known text_eq
last_found = refl

abbrev later : List Call
later = record { answers = last_answers; now = 20; swept = 22 } ∷ []
