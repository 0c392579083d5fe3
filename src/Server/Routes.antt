-- ===== src/Server/Routes.antt =====
-- agent/src/server.rs: `route`, the table from a method and a path to the handler that is called.
use mu5250_wireguard.Base.{
  ℕ, get_or, ◌==◌, ◌≡◌, refl, sym, ap, ◌∙◌, arith, Bool, true, ◌&&◌, Option, none, some, List, [],
  ◌∷◌, if◌then◌else◌, Text, codes, text_eq,
}

pub data Method : Type 0 where
  get post put delete options other : Method

-- The place of a method in the enumeration, and back.
abbrev discriminant : Method → ℕ
discriminant get = 0
discriminant post = 1
discriminant put = 2
discriminant delete = 3
discriminant options = 4
discriminant other = 5

abbrev method_at : ℕ → Method
method_at n = get_or (get ∷ post ∷ put ∷ delete ∷ options ∷ []) n other

at_discriminant : (m : Method) → method_at (discriminant m) ≡ m
at_discriminant get = refl
at_discriminant post = refl
at_discriminant put = refl
at_discriminant delete = refl
at_discriminant options = refl
at_discriminant other = refl

abbrev pub method_eq : Method → Method → Bool
method_eq m n = discriminant m == discriminant n

pub method_eq-eq : (m n : Method) → method_eq m n ≡ true → m ≡ n
method_eq-eq m n h =
    let same : discriminant m ≡ discriminant n = ground arith in
    sym (at_discriminant m) ∙ ap method_at same ∙ at_discriminant n

-- The handlers, each with the module that declares it.
pub data Endpoint : Type 0 where
  handlers_login handlers_dashboard handlers_device handlers_cpu handlers_memory : Endpoint
  handlers_system_top screen_settings_get screen_settings_update screen_get : Endpoint
  screen_open screen_close wireguard_get wireguard_update singbox_get singbox_update : Endpoint
  singbox_proxies singbox_select singbox_delay singbox_logs : Endpoint
  handlers_system_kill_bloat device_ext_agent_restart device_ext_device_reboot : Endpoint
  device_ext_device_shutdown network_ext_network_battery_ubus : Endpoint
  device_ext_device_thermal_all device_ext_device_battery_detail : Endpoint
  device_ext_device_charger device_ext_charge_control_get : Endpoint
  device_ext_charge_control_set network_ext_network_clients wifi_status wifi_set : Endpoint
  handlers_data_usage_reset_day_set qos_get cell_modem_capabilities : Endpoint
  cell_modem_network_mode_set sms_capabilities sms_list sms_send sms_delete : Endpoint
  sms_mark_read sim_info sim_imei cell_lock_nr cell_lock_lte cell_lock_reset : Endpoint
  cell_band_nr cell_band_lte cell_band_reset router_dns_get router_dns_set : Endpoint
  router_lan_get router_lan_set router_lan_confirm router_apn_mode_get : Endpoint
  router_apn_mode_set router_apn_profiles_get router_apn_profiles_add : Endpoint
  router_apn_profiles_delete router_apn_profiles_activate usb_status usb_mode_set : Endpoint
  usb_default_set usb_powerbank_set ttl_status ttl_set ttl_clear at_console at_port : Endpoint
  signal_logger_start_logging signal_logger_stop_logging signal_logger_status : Endpoint
  connection_logger_start_logging connection_logger_stop_logging : Endpoint
  connection_logger_status : Endpoint

pub record Route : Type 0 where
  pub method : Method
  pub path : Text
  pub endpoint : Endpoint

abbrev on : Method → Text → Endpoint → Route
on m p e = record { method = m; path = p; endpoint = e }

unfoldable pub routes : List Route
routes =
    on post (codes "/api/auth/login") handlers_login
    ∷ on get (codes "/api/dashboard") handlers_dashboard
    ∷ on get (codes "/api/device") handlers_device
    ∷ on get (codes "/api/cpu") handlers_cpu
    ∷ on get (codes "/api/memory") handlers_memory
    ∷ on get (codes "/api/system/top") handlers_system_top
    ∷ on get (codes "/api/screen/settings") screen_settings_get
    ∷ on put (codes "/api/screen/settings") screen_settings_update
    ∷ on get (codes "/api/screen") screen_get
    ∷ on post (codes "/api/screen") screen_open
    ∷ on delete (codes "/api/screen") screen_close
    ∷ on get (codes "/api/wireguard") wireguard_get
    ∷ on put (codes "/api/wireguard") wireguard_update
    ∷ on get (codes "/api/singbox") singbox_get
    ∷ on put (codes "/api/singbox") singbox_update
    ∷ on get (codes "/api/singbox/proxies") singbox_proxies
    ∷ on put (codes "/api/singbox/proxies") singbox_select
    ∷ on post (codes "/api/singbox/delay") singbox_delay
    ∷ on get (codes "/api/singbox/logs") singbox_logs
    ∷ on post (codes "/api/system/kill-bloat") handlers_system_kill_bloat
    ∷ on post (codes "/api/system/restart-agent") device_ext_agent_restart
    ∷ on post (codes "/api/device/reboot") device_ext_device_reboot
    ∷ on post (codes "/api/device/shutdown") device_ext_device_shutdown
    ∷ on get (codes "/api/device/battery-info") network_ext_network_battery_ubus
    ∷ on get (codes "/api/device/thermal/all") device_ext_device_thermal_all
    ∷ on get (codes "/api/device/battery/detail") device_ext_device_battery_detail
    ∷ on get (codes "/api/device/charger") device_ext_device_charger
    ∷ on get (codes "/api/device/charge-control") device_ext_charge_control_get
    ∷ on put (codes "/api/device/charge-control") device_ext_charge_control_set
    ∷ on get (codes "/api/network/clients") network_ext_network_clients
    ∷ on get (codes "/api/wifi/status") wifi_status
    ∷ on put (codes "/api/wifi/settings") wifi_set
    ∷ on put (codes "/api/data-usage/reset-day") handlers_data_usage_reset_day_set
    ∷ on get (codes "/api/modem/qos") qos_get
    ∷ on get (codes "/api/modem/capabilities") cell_modem_capabilities
    ∷ on put (codes "/api/modem/network-mode") cell_modem_network_mode_set
    ∷ on get (codes "/api/sms/capabilities") sms_capabilities
    ∷ on post (codes "/api/sms/list") sms_list
    ∷ on post (codes "/api/sms/send") sms_send
    ∷ on post (codes "/api/sms/delete") sms_delete
    ∷ on post (codes "/api/sms/read") sms_mark_read
    ∷ on get (codes "/api/sim/info") sim_info
    ∷ on get (codes "/api/sim/imei") sim_imei
    ∷ on post (codes "/api/cell/lock/nr") cell_lock_nr
    ∷ on post (codes "/api/cell/lock/lte") cell_lock_lte
    ∷ on post (codes "/api/cell/lock/reset") cell_lock_reset
    ∷ on post (codes "/api/cell/band/nr") cell_band_nr
    ∷ on post (codes "/api/cell/band/lte") cell_band_lte
    ∷ on post (codes "/api/cell/band/reset") cell_band_reset
    ∷ on get (codes "/api/router/dns") router_dns_get
    ∷ on put (codes "/api/router/dns") router_dns_set
    ∷ on get (codes "/api/router/lan") router_lan_get
    ∷ on put (codes "/api/router/lan") router_lan_set
    ∷ on post (codes "/api/router/lan/confirm") router_lan_confirm
    ∷ on get (codes "/api/router/apn/mode") router_apn_mode_get
    ∷ on put (codes "/api/router/apn/mode") router_apn_mode_set
    ∷ on get (codes "/api/router/apn/profiles") router_apn_profiles_get
    ∷ on post (codes "/api/router/apn/profiles") router_apn_profiles_add
    ∷ on post (codes "/api/router/apn/profiles/delete") router_apn_profiles_delete
    ∷ on post (codes "/api/router/apn/profiles/activate") router_apn_profiles_activate
    ∷ on get (codes "/api/usb/status") usb_status
    ∷ on put (codes "/api/usb/mode") usb_mode_set
    ∷ on put (codes "/api/usb/default") usb_default_set
    ∷ on put (codes "/api/usb/powerbank") usb_powerbank_set
    ∷ on get (codes "/api/ttl/status") ttl_status
    ∷ on put (codes "/api/ttl/set") ttl_set
    ∷ on delete (codes "/api/ttl/clear") ttl_clear
    ∷ on post (codes "/api/at/send") at_console
    ∷ on get (codes "/api/at/port") at_port
    ∷ on post (codes "/api/logger/signal/start") signal_logger_start_logging
    ∷ on post (codes "/api/logger/signal/stop") signal_logger_stop_logging
    ∷ on get (codes "/api/logger/signal/status") signal_logger_status
    ∷ on post (codes "/api/logger/connection/start") connection_logger_start_logging
    ∷ on post (codes "/api/logger/connection/stop") connection_logger_stop_logging
    ∷ on get (codes "/api/logger/connection/status") connection_logger_status
    ∷ []

-- The first arm that matches.
unfoldable pub find_route : List Route → Method → Text → Option Endpoint
find_route [] m p = none
find_route (r ∷ rs) m p =
    let rest = find_route rs m p in
    if method_eq m r.method && text_eq p r.path then some r.endpoint else rest
