-- ===== src/Singbox/Router.antt =====
-- agent/src/singbox.rs: what `runtime` makes of any import that it takes.
use mu5250_wireguard.Base.{◌≡◌, false, none, some, Text, codes}
use mu5250_wireguard.Json.{Fields, object, entry}
use mu5250_wireguard.Singbox.Runtime.{has_local, inbounds, log, experimental}
use mu5250_wireguard.Singbox.Safe.{ArePermitted}

-- What the router runs: nothing that reads its files or marks its packets, its own two listeners and
-- no other, its own log and control settings, no services and no rule sets from files.
pub record IsRouterConfig (tun redirect id secret : Text) (c : Fields) : Type 0 where
  pub permitted : ArePermitted c
  pub listeners : entry c (codes "inbounds") ≡ some (inbounds tun redirect)
  pub logs : entry c (codes "log") ≡ some log
  pub control : entry c (codes "experimental") ≡ some (experimental id secret)
  pub services : entry c (codes "services") ≡ none
  pub rule_sets :
      (route : Fields) × (entry c (codes "route") ≡ some (object route)) × (has_local route ≡ false)
