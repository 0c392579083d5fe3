-- ===== src/LanChange/Tests.antt =====
-- A change over a device that never fails: it is begun, applied, confirmed, and left to expire.
use mu5250_wireguard.LanChange.Recovery.{Reachable, start, step, restart_restores, expire_restores}
use mu5250_wireguard.LanChange.Usable.{IsUsable}
use mu5250_wireguard.LanChange.Valid.{validate_lan_settings-IsUsable}
use mu5250_wireguard.Base.Ipv4.{Ipv4}
use mu5250_wireguard.LanChange.Bits.{word, bitand, bitor, count_ones}
use mu5250_wireguard.LanChange.Settings.{is_private, check_range, number_of, settings_eq}
use mu5250_wireguard.Base.Ipv4.{parse_ipv4}
use mu5250_wireguard.Base.{
  ◌≡◌, inl, refl, Option, none, some, codes, ok, true, false, ◌≤◌, ◌⊎◌, arith, Text, text_eq, err,
}
use mu5250_wireguard.LanChange.Settings.{
  settings_eq, check_range, is_private, LanSettings, validate_lan_settings,
}
use mu5250_wireguard.LanChange.Manager.{
  is_in_force, admitted, not_restored, apply_pending, unclear, listener, rollback_locked, set,
  begin, expire, confirm, recover, Backend, Journal, Pending, Manager, run, beginning, applying,
}
use mu5250_wireguard.LanChange.Laws.{Laws}

record World : Type 0 where
  settings : LanSettings
  journal : Option Journal

abbrev device : Backend World
device = record {
  read = λ w. ok w.settings;
  apply = λ s w. (ok tt, record w { settings = s });
  load = λ w. ok w.journal;
  save = λ j w. (ok tt, record w { journal = some j });
  clear = λ w. (ok tt, record w { journal = none });
}

device-Laws : Laws device
device-Laws = record {
  apply_read = λ s w h. refl;
  apply_load = λ s w. refl;
  save_load = λ j w h. refl;
  clear_load = λ w h. refl;
  clear_failed = λ w h. inl (absurd (cc));
  clear_read = λ w. refl;
}

abbrev subnet_zero : LanSettings
subnet_zero = record {
  ipaddr = codes "192.168.0.1";
  netmask = codes "255.255.255.0";
  dhcp_enabled = true;
  dhcp_start = codes "192.168.0.100";
  dhcp_end = codes "192.168.0.200";
  lease_seconds = 86400;
}

abbrev subnet_one : LanSettings
subnet_one = record {
  ipaddr = codes "192.168.1.1";
  netmask = codes "255.255.255.0";
  dhcp_enabled = true;
  dhcp_start = codes "192.168.1.100";
  dhcp_end = codes "192.168.1.200";
  lease_seconds = 86400;
}

valid : (validate_lan_settings subnet_zero ≡ ok tt) × (validate_lan_settings subnet_one ≡ ok tt)
unfolding validate_lan_settings parse_ipv4 is_private check_range bitand number_of count_ones bitor
valid = (refl, refl)

abbrev idle : Manager World
idle = record {
  state = record { pending = none; confirmed = none; error = none };
  binding = record { address = codes "192.168.0.1:9090"; generation = 0; fixed = false };
  world = record { settings = subnet_zero; journal = none };
}

abbrev change : Journal
change = record { previous = subnet_zero; proposed = subnet_one; token = codes "0a" }

abbrev pending : Pending
pending = record { journal = change; deadline = 120007; applied = true }

abbrev begun : Manager World
begun = run device applying (run device (beginning (ok (codes "0a")) 7 subnet_one) idle)

begun_pending : begun.state.pending ≡ some pending
unfolding run begin recover confirm expire rollback_locked set listener apply_pending admitted
    validate_lan_settings settings_eq text_eq is_in_force parse_ipv4 is_private check_range bitand
    number_of count_ones bitor
begun_pending = refl

-- An agent that starts over the world of `begun`.
abbrev again : Manager World
again = record idle { world = begun.world }

begun_record : device.load begun.world ≡ ok (some change)
unfolding run begin recover confirm expire rollback_locked set listener apply_pending admitted
    validate_lan_settings settings_eq text_eq is_in_force parse_ipv4 is_private check_range bitand
    number_of count_ones bitor
begun_record = refl

begun_Reachable : Reachable device begun
begun_Reachable = step (step (start idle refl) (beginning (ok (codes "0a")) 7 subnet_one)) applying

again_clean : (recover device again).state.error ≡ none
unfolding run begin recover confirm expire rollback_locked set listener apply_pending admitted
    validate_lan_settings settings_eq text_eq is_in_force parse_ipv4 is_private check_range bitand
    number_of count_ones bitor
again_clean = refl

restart_restores_example :
    (device.read (recover device again).world ≡ ok subnet_zero)
    × (device.load (recover device again).world ≡ ok none)
    × ((recover device again).binding ≡ set subnet_zero.ipaddr again.binding)
restart_restores_example =
    restart_restores device-Laws begun again pending change begun_Reachable begun_pending
      begun_record refl again_clean

late : 120007 ≤ 130000
late = omega arith

expire_restores_example :
    ((expire device 130000 begun).0 ≡ false)
    × ((((expire device 130000 begun).1.state.pending ≡ none)
          × (device.read (expire device 130000 begun).1.world ≡ ok subnet_zero)
          × (device.load (expire device 130000 begun).1.world ≡ ok none)
          × ((expire device 130000 begun).1.binding ≡ set subnet_zero.ipaddr begun.binding))
        ⊎ (((expire device 130000 begun).1.state.pending ≡ some pending)
            × (e : Text) × ((((expire device 130000 begun).1.state.error ≡ some (unclear e))
                  × ((device.clear (device.apply subnet_zero begun.world).1).0 ≡ err e)
                  × (device.read (expire device 130000 begun).1.world ≡ ok subnet_zero))
                ⊎ (((expire device 130000 begun).1.state.error ≡ some (not_restored e))
                    × ((device.apply subnet_zero begun.world).0 ≡ err e)))))
expire_restores_example = expire_restores device-Laws 130000 begun pending begun_pending late

-- 192.168.1.1 with the mask of /24, and a range from .100 to .200.
range_checked : check_range 3232235777 4294967040 3232235876 3232235976 86400 ≡ ok tt
unfolding check_range bitand bitor count_ones word
range_checked = refl

validate_lan_settings-IsUsable_example :
    (ip mask start last : Ipv4) × (parse_ipv4 subnet_zero.ipaddr ≡ some ip)
    × (parse_ipv4 subnet_zero.netmask ≡ some mask)
    × (parse_ipv4 subnet_zero.dhcp_start ≡ some start)
    × (parse_ipv4 subnet_zero.dhcp_end ≡ some last)
    × (is_private ip ≡ true)
    × IsUsable (number_of ip) (number_of mask) (number_of start) (number_of last) 86400
validate_lan_settings-IsUsable_example = validate_lan_settings-IsUsable subnet_zero valid.0
