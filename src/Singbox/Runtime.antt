-- ===== src/Singbox/Runtime.antt =====
-- agent/src/singbox.rs: from an imported configuration to the one that the router runs.
use mu5250_wireguard.Base.{
  ℕ, Bool, true, false, not, ◌&&◌, ◌||◌, Option, none, some, List, [], ◌∷◌, ◌++◌, if◌then◌else◌,
  Text, codes, text_eq, Result, ok, err, length, any, map, ensure, ok_or, ◌>>=◌, ◌==◌,
}
use mu5250_wireguard.Json.{
  Value, Items, Fields, boolean, number, string, array, object, nil, cons, end, field, pos_int,
  entry, index, as_str, as_array, as_object, with_entry, without, items_of, append_items, find_item,
}

pub data Error : Type 0 where
  not_object no_type tor system_interface no_nodes bad_route local_rule_set : Error
  unsupported_field duplicate_tag : Text → Error

-- `str::ends_with`
unfoldable pub ends_with : Text → Text → Bool
ends_with suffix [] = text_eq suffix []
ends_with suffix (b ∷ s) = text_eq suffix (b ∷ s) || ends_with suffix s

unfoldable pub is_forbidden : Text → Bool
is_forbidden k =
    ends_with (codes "_path") k
    || ends_with (codes "_directory") k
    || text_eq k (codes "routing_mark")

unfoldable mutual
  pub forbidden : Value → Result Error (Unit {0})
  forbidden (object fields) = forbidden_fields fields
  forbidden (array items) = forbidden_items items
  forbidden _ = ok tt

  pub forbidden_items : Items → Result Error (Unit {0})
  forbidden_items nil = ok tt
  forbidden_items (cons v vs) = forbidden v >>= λ _. forbidden_items vs

  pub forbidden_fields : Fields → Result Error (Unit {0})
  forbidden_fields end = ok tt
  forbidden_fields (field k v fs) =
      let rest = forbidden v >>= λ _. forbidden_fields fs in
      if is_forbidden k then err (unsupported_field k) else rest

-- `v == "s"`, and `v == true`.
abbrev pub is_text : Text → Value → Bool
is_text s (string t) = text_eq t s
is_text s _ = false

abbrev pub is_true : Value → Bool
is_true (boolean b) = b
is_true _ = false

abbrev pub or_default {ℓ} : {A : Type ℓ} → A → Option A → A
or_default d none = d
or_default d (some a) = a

abbrev pub and_then {ℓ κ} : {A : Type ℓ} {B : Type κ} → Option A → (A → Option B) → Option B
and_then none f = none
and_then (some a) f = f a

-- The tag of the first inbound of one of the kinds.
unfoldable pub imported : List Text → Text → Fields → Text
imported kinds default c = or_default default (
    and_then (and_then (entry c (codes "inbounds")) as_array) λ inbounds.
      and_then (find_item (λ i. any (λ k. is_text k (index i (codes "type"))) kinds) inbounds)
        λ i. as_str (index i (codes "tag")))

-- `c.get_mut(key).and_then(Value::as_object_mut)`, from which a key is removed.
abbrev pub stripped : Text → Text → Option Value → Fields → Fields
stripped key name (some (object m)) c = with_entry key (object (without name m)) c
stripped key name _ c = c

abbrev pub strip_entry : Text → Text → Fields → Fields
strip_entry key name c = stripped key name (entry c key) c

-- What is left of an imported configuration.
unfoldable pub cleaned : Fields → Fields
cleaned c = strip_entry (codes "route") (codes "default_mark") (
    strip_entry (codes "ntp") (codes "write_to_system") (
      without (codes "experimental")
        (without (codes "log") (without (codes "services") (without (codes "inbounds") c)))))

abbrev pub items_at : Text → Fields → Items
items_at key c = or_default nil (and_then (entry c key) as_array)

unfoldable pub non_nodes : List Text
non_nodes = codes "direct" ∷ codes "block" ∷ codes "dns" ∷ codes "selector" ∷ codes "urltest" ∷ []

abbrev pub Scan : Type 0
Scan = List Text × List Text

-- One round of the loop over the outbounds and the endpoints: the tags and the nodes so far.
unfoldable pub scan_one : Bool → Value → Scan → Result Error Scan
scan_one endpoint o (tags, nodes) = do
  kind ← ok_or (as_str (index o (codes "type"))) no_type
  let tag = or_default kind (as_str (index o (codes "tag")))
  _ ← ensure (not (any (text_eq tag) tags)) (duplicate_tag tag)
  _ ← ensure (not (text_eq kind (codes "tor"))) tor
  _ ← ensure (not (endpoint && is_true (index o (codes "system")))) system_interface
  ok (
    tag ∷ tags,
    if endpoint || not (any (text_eq kind) non_nodes) then nodes ++ tag ∷ [] else nodes,
  )

unfoldable pub scan : Bool → Items → Scan → Result Error Scan
scan endpoint nil s = ok s
scan endpoint (cons o os) s = scan_one endpoint o s >>= λ t. scan endpoint os t

-- The value of `route`, an empty object where there is none.
abbrev pub route_of : Option Value → Option Fields
route_of none = some end
route_of (some v) = as_object v

abbrev is_some : Option Value → Bool
is_some none = false
is_some (some v) = true

abbrev pub local_among : Items → Bool
local_among sets = is_some (find_item (λ r. is_text (codes "local") (index r (codes "type"))) sets)

abbrev pub has_local : Fields → Bool
has_local route = local_among (items_at (codes "rule_set") route)

abbrev pub selector : List Text → Value
selector nodes = object (
    field (codes "type") (string (codes "selector")) (
      field (codes "tag") (string (codes "OpenUI")) (
        field (codes "outbounds") (array (items_of (map string nodes)))
          (field (codes "interrupt_exist_connections") (boolean true) end))))

abbrev pub has_selector : Items → Bool
has_selector outbounds =
    is_some (find_item (λ o. is_text (codes "selector") (index o (codes "type"))) outbounds)

-- `route.entry(key).or_insert(value)`
abbrev pub or_insert : Text → Value → Option Value → Fields → Fields
or_insert key value none c = with_entry key value c
or_insert key value (some v) c = c

-- The group that a configuration without a selector gets.
unfoldable pub grouped : Scan → Items → Fields → Items × Fields
grouped s outbounds route =
    if not (has_selector outbounds) && not (any (text_eq (codes "OpenUI")) s.0)
    then (
      append_items outbounds (cons (selector s.1) nil),
      or_insert (codes "final") (string (codes "OpenUI")) (entry route (codes "final")) route,
    )
    else (outbounds, route)

abbrev pub both : Text → Text → Value
both tun redirect = array (cons (string tun) (cons (string redirect) nil))

abbrev pub first_rules : Text → Text → Items
first_rules tun redirect =
    cons
      (object (
        field (codes "inbound") (both tun redirect) (
          field (codes "port") (number (pos_int 53))
            (field (codes "action") (string (codes "hijack-dns")) end))))
      (cons
        (object (
          field (codes "inbound") (both tun redirect)
            (field (codes "action") (string (codes "sniff")) end)))
        (cons
          (object (
            field (codes "protocol") (string (codes "dns"))
              (field (codes "action") (string (codes "hijack-dns")) end)))
          nil))

-- The listeners of the router's configuration.
abbrev pub inbounds : Text → Text → Value
inbounds tun redirect = array (
    cons
      (object (
        field (codes "type") (string (codes "redirect")) (
          field (codes "tag") (string redirect) (
            field (codes "listen") (string (codes "0.0.0.0"))
              (field (codes "listen_port") (number (pos_int 9096)) end)))))
      (cons
        (object (
          field (codes "type") (string (codes "tun")) (
            field (codes "tag") (string tun) (
              field (codes "interface_name") (string (codes "ou-sb0")) (
                field (codes "address") (array (cons (string (codes "172.19.0.1/30")) nil)) (
                  field (codes "mtu") (number (pos_int 9000))
                    (field (codes "auto_route") (boolean false) end)))))))
        nil))

abbrev pub log : Value
log =
    object
      (field (codes "level") (string (codes "warn")) (field (codes "timestamp") (boolean true) end))

-- The interface for control, on the loopback device only.
abbrev pub experimental : Text → Text → Value
experimental cache_id secret = object (
    field (codes "clash_api")
      (object (
        field (codes "external_controller") (string (codes "127.0.0.1:9095"))
          (field (codes "secret") (string secret) end)))
      (field (codes "cache_file")
        (object (
          field (codes "enabled") (boolean true) (
            field (codes "path") (string (codes "cache.db"))
              (field (codes "cache_id") (string cache_id) end))))
        end))

abbrev pub redirect_tag : Text → Fields → Text
redirect_tag tun c =
    let tag = imported (codes "redirect" ∷ codes "tproxy" ∷ []) (codes "redirect-in") c in
    if text_eq tag tun then tun ++ codes "-redirect" else tag

abbrev pub tun_tag : Fields → Text
tun_tag c = imported (codes "tun" ∷ []) (codes "tun-in") c

-- The assignments at the end.
unfoldable pub assembled : Text → Text → Text → Text → Items → Fields → Fields → Fields
assembled tun redirect cache_id secret outbounds route c =
    with_entry (codes "experimental") (experimental cache_id secret) (
      with_entry (codes "log") log (
        with_entry (codes "inbounds") (inbounds tun redirect) (
          with_entry (codes "outbounds") (array outbounds) (
            with_entry (codes "route")
              (object (
                with_entry (codes "rules")
                  (array (append_items (first_rules tun redirect) (items_at (codes "rules") route)))
                  route))
              c))))

-- The end of `runtime`, on the tags, the nodes and the route.
unfoldable pub finish :
    Text → Text → Text → Text → Fields → Scan → Fields → Result Error (Fields × ℕ)
finish tun redirect cache_id secret c s route = do
  _ ← ensure (not (has_local route)) local_rule_set
  let g = grouped s (items_at (codes "outbounds") c) route
  ok (assembled tun redirect cache_id secret g.0 g.1 c, length s.1)

-- From the cleaned configuration on: its outbounds, nodes and route.
unfoldable pub build : Text → Text → Text → Text → Fields → Result Error (Fields × ℕ)
unfolding scan finish
build tun redirect cache_id secret c = do
  _ ← forbidden_fields c
  s ← scan false (items_at (codes "outbounds") c) ([], [])
  s ← scan true (items_at (codes "endpoints") c) s
  _ ← ensure (not (length s.1 == 0)) no_nodes
  route ← ok_or (route_of (entry c (codes "route"))) bad_route
  finish tun redirect cache_id secret c s route

unfoldable pub runtime : Value → Text → Text → Result Error (Value × ℕ)
unfolding build
runtime original cache_id secret = do
  c ← ok_or (as_object original) not_object
  (built, nodes) ← build (tun_tag c) (redirect_tag (tun_tag c) c) cache_id secret (cleaned c)
  ok (object built, nodes)
