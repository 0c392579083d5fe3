-- ===== src/LanChange/Hardware.antt =====
-- agent/src/lan.rs: the settings and the record on the device, and the handlers of
-- agent/src/router.rs.
use mu5250_wireguard.Base.Digits.{parse_uint}
use mu5250_wireguard.Base.{
  ensure, ok_or, ◌>>=◌, ℕ, ◌≡◌, inl, inr, ◌∙◌, ap, Option, none, some, Text, Result, ok, err,
  Result-cases, arith, true, not, [], codes, text_eq,
}
use mu5250_wireguard.Base.World.{Io}
use mu5250_wireguard.LanChange.Settings.{
  LanSettings, settings_eq, settings_eq-eq, validate_lan_settings, Invalid,
}
use mu5250_wireguard.LanChange.Manager.{Backend, Journal, Manager, begin, confirm, Error}
use mu5250_wireguard.Json.{Value, as_str, index}

-- `ubus::uci_get`, the call that sets the LAN, and the reading, writing and removal of the record.
pub record Device (W : Type 0) : Type 0 where
  pub uci_get : W → Text → Result Text Text
  pub router_set_lan_para : LanSettings → Io W Text (Unit {0})
  pub read_record : W → Result Text (Option Journal)
  pub write_record : Journal → Io W Text (Unit {0})
  pub remove_record : Io W Text (Unit {0})

module _ {W : Type 0} (device : Device W) where
  unfoldable pub read_settings : W → Result Text LanSettings
  read_settings w = do
    ip ← device.uci_get w (codes "zwrt_router.network.lan_ipaddr")
    mask ← device.uci_get w (codes "zwrt_router.dhcp.lan_netmask")
    ignore ← device.uci_get w (codes "zwrt_router.dhcp.ignore")
    start ← device.uci_get w (codes "zwrt_router.dhcp.zte_start")
    last ← device.uci_get w (codes "zwrt_router.dhcp.zte_end")
    lease ← device.uci_get w (codes "zwrt_router.dhcp.leasetime")
    seconds ← ok_or (parse_uint 4294967295 lease) (codes "invalid DHCP lease time")
    ok (record {
      ipaddr = ip;
      netmask = mask;
      dhcp_enabled = not (text_eq ignore (codes "1"));
      dhcp_start = start;
      dhcp_end = last;
      lease_seconds = seconds;
    })

  abbrev read_back : LanSettings → Result Text LanSettings → Result Text (Unit {0})
  read_back s (err e) = err e
  read_back s (ok t) =
      ensure (settings_eq t s) (codes "firmware did not confirm the requested LAN settings")

  abbrev called : LanSettings → Result Text (Unit {0}) → Io W Text (Unit {0})
  called s (err e) w = (err e, w)
  called s (ok _) w = (read_back s (read_settings w), w)

  unfoldable pub apply_settings : LanSettings → Io W Text (Unit {0})
  apply_settings s w = let r = device.router_set_lan_para s w in called s r.0 r.1

  unfoldable pub hardware : Backend W
  hardware = record {
    read = read_settings;
    apply = apply_settings;
    load = device.read_record;
    save = device.write_record;
    clear = device.remove_record;
  }

  -- Settings whose application is reported are read back as they were requested.
  pub apply_settings-read :
      (s : LanSettings) (w : W)
      → (apply_settings s w).0 ≡ ok tt
      → read_settings (apply_settings s w).1 ≡ ok s
  unfolding apply_settings
  apply_settings-read s w h = elim (Result-cases (device.router_set_lan_para s w).0) [
    | inr (e, k) ↦ absurd (ground (arith, k, h))
    | inl (a, k) ↦
        let v = (device.router_set_lan_para s w).1 in
        elim (Result-cases (read_settings v)) [
          | inr (e, r) ↦ absurd (ground (arith, k, r, h))
          | inl (t, r) ↦
              let same : settings_eq t s ≡ true = ground (arith, k, r, h) in
              rw k (r ∙ ap ok (settings_eq-eq t s same))
        ]
  ]

  -- The status of an answer.
  abbrev status_of : {A : Type 0} → ℕ → ℕ → Result Error A → ℕ
  status_of good bad (ok a) = good
  status_of good bad (err e) = bad

  abbrev set_checked :
      Result Text Text → ℕ → LanSettings → Result Invalid (Unit {0}) → Manager W → ℕ × Manager W
  set_checked token now s (err e) m = (400, m)
  set_checked token now s (ok _) m =
      let r = begin hardware token now s m in (status_of 202 409 r.0, r.1)

  -- PUT of the settings, which serde has read from the body where they are some.
  unfoldable pub router_lan_set :
      Result Text Text → ℕ → Option LanSettings → Manager W → ℕ × Manager W
  router_lan_set token now none m = (400, m)
  router_lan_set token now (some s) m = set_checked token now s (validate_lan_settings s) m

  abbrev or_empty : Option Text → Text
  or_empty none = []
  or_empty (some s) = s

  unfoldable pub router_lan_confirm : ℕ → Option Value → Manager W → ℕ × Manager W
  router_lan_confirm now none m = (400, m)
  router_lan_confirm now (some body) m =
      let r = confirm hardware (or_empty (as_str (index body (codes "token")))) now m in
      (status_of 200 409 r.0, r.1)
