-- ===== src/Singbox/Tests.antt =====
-- An import with a listener of its own and a rule set, and what `runtime` makes of it.
use mu5250_wireguard.Json.{
  Value, nil, cons, end, field, object, array, string, boolean, entry, index, without, with_entry,
  find_item,
}
use mu5250_wireguard.Singbox.Runtime.{
  Error, local_rule_set, unsupported_field, forbidden, forbidden_items, forbidden_fields, runtime,
  build, finish, cleaned, scan, scan_one, imported, is_forbidden, ends_with, non_nodes,
}
use mu5250_wireguard.Base.{ℕ, ◌≡◌, refl, true, codes, text_eq, Result, ok, err}

abbrev node : Value
node =
    object (
      field (codes "type") (string (codes "socks"))
        (field (codes "tag") (string (codes "out")) end))

abbrev with_sets : Value → Value
with_sets sets = object (
    field (codes "log") (object (field (codes "output_path") (string (codes "/etc/passwd")) end)) (
      field (codes "inbounds")
        (array (
          cons
            (object (
              field (codes "type") (string (codes "tun"))
                (field (codes "tag") (string (codes "redirect-in")) end)))
            nil))
        (field (codes "outbounds") (array (cons node nil))
          (field (codes "route") (object (field (codes "rule_set") sets end)) end))))

abbrev sample : Value
sample = with_sets (array nil)

-- A rule set from a file, and a node that reads one.
refused_local :
    runtime
      (with_sets (array (cons (object (field (codes "type") (string (codes "local")) end)) nil)))
      (codes "c")
      (codes "s")
    ≡ err local_rule_set
unfolding runtime build finish cleaned scan scan_one imported without with_entry entry index
    forbidden forbidden_items forbidden_fields is_forbidden ends_with text_eq find_item non_nodes
refused_local = refl

refused_path :
    runtime
      (object (
        field
          (codes "dns")
          (array (cons (object (field (codes "rules_path") (boolean true) end)) nil))
          end))
      (codes "c")
      (codes "s")
    ≡ err (unsupported_field (codes "rules_path"))
unfolding runtime build cleaned imported without with_entry entry index forbidden forbidden_items
    forbidden_fields is_forbidden ends_with text_eq find_item
refused_path = refl

-- The configuration itself, once it is there.
abbrev result_of : Result Error (Value × ℕ) → Value
result_of (ok (v, n)) = v
result_of (err e) = object end

abbrev made : Value
made = result_of (runtime sample (codes "c") (codes "s"))
