-- ===== src/Server/Ttl.antt =====
-- agent/src/server.rs: the time to live that forwarded packets get, and the script that sets it
-- again at boot.
use mu5250_wireguard.Base.{
  ℕ, ◌≤◌, ◌≡◌, ◌⊎◌, inl, inr, Bool, ◌&&◌, ◌||◌, Option, none, some, List, [], ◌∷◌, ◌++◌,
  if◌then◌else◌, Text, codes, leb, Bool-cases, arith, refl, ◌*◌,
}
use mu5250_wireguard.Base.Decimal.{decimal}
use mu5250_wireguard.Json.{Value}
use mu5250_wireguard.Usb.Modes.{get}
use mu5250_wireguard.Server.Console.{as_u64}

-- A command with its arguments, which may succeed; the removal of the former rules of one of the
-- two tables by a shell; and a write of a file whose result is ignored.
pub record System (W : Type 0) : Type 0 where
  pub run : Text → List Text → W → Bool × W
  pub remove_rules : Text → W → W
  pub write_file : Text → Text → W → W

abbrev script_path : Text
script_path = codes "/data/local/tmp/start_ttl.sh"

abbrev appending : Text → Text → Text → List Text
appending target option ttl =
    codes "-t"
    ∷ codes "mangle"
    ∷ codes "-A"
    ∷ codes "PREROUTING"
    ∷ codes "-i"
    ∷ codes "br-lan"
    ∷ codes "-j"
    ∷ target
    ∷ option
    ∷ ttl
    ∷ []

unfoldable pub ttl_script : Text → Text
ttl_script ttl =
    codes "#!/bin/sh\niptables  -t mangle -C PREROUTING -i br-lan -j TTL --ttl-set "
    ++ (ttl
        ++ (codes " 2>/dev/null ||   iptables  -t mangle -A PREROUTING -i br-lan -j TTL --ttl-set "
            ++ (ttl
                ++ (codes "\nip6tables -t mangle -C PREROUTING -i br-lan -j HL  --hl-set  "
                    ++ (ttl
                        ++ (codes
                              " 2>/dev/null ||   ip6tables -t mangle -A PREROUTING -i br-lan -j HL  --hl-set  "
                            ++ (ttl ++ codes "\n")))))))

abbrev number_in : Option Value → Option ℕ
number_in none = none
number_in (some v) = as_u64 v

-- `retry` after a failure of the listener, in seconds.
unfoldable pub next_retry : ℕ → ℕ
next_retry retry = if leb (retry * 2) 30 then retry * 2 else 30

module _ {W : Type 0} (sys : System W) where
  unfoldable pub set_rules : ℕ → W → ℕ × W
  set_rules ttl w =
      let cleared =
        sys.remove_rules (codes "HL --hl-set") (sys.remove_rules (codes "TTL --ttl-set") w) in
      let four =
        sys.run (codes "iptables") (appending (codes "TTL") (codes "--ttl-set") (decimal ttl))
          cleared in
      let six =
        sys.run (codes "ip6tables") (appending (codes "HL") (codes "--hl-set") (decimal ttl))
          four.1 in
      let kept = sys.write_file script_path (ttl_script (decimal ttl)) six.1 in
      (if four.0 || six.0 then 200 else 500, kept)

  abbrev set_number : Option ℕ → W → ℕ × W
  set_number none w = (400, w)
  set_number (some ttl) w = if leb 1 ttl && leb ttl 255 then set_rules ttl w else (400, w)

  unfoldable pub ttl_set : Option Value → W → ℕ × W
  ttl_set none w = (400, w)
  ttl_set (some body) w = set_number (number_in (get body (codes "ttl"))) w

  unfoldable pub ttl_clear : W → ℕ × W
  ttl_clear w =
      let cleared =
        sys.remove_rules (codes "HL --hl-set") (sys.remove_rules (codes "TTL --ttl-set") w) in
      (200, sys.write_file script_path (codes "#!/bin/sh\n# TTL disabled\n") cleared)

  set_number-bounds :
      (o : Option ℕ) (w : W)
      → ((set_number o w) ≡ (400, w))
        ⊎ ((ttl : ℕ) × (o ≡ some ttl)
            × (1 ≤ ttl)
            × (ttl ≤ 255)
            × ((set_number o w) ≡ set_rules ttl w))
  set_number-bounds none w = inl refl
  set_number-bounds (some ttl) w = elim (Bool-cases (leb 1 ttl && leb ttl 255)) [
    | inr e ↦ inl (ground (arith, e))
    | inl e ↦ inr (ttl, refl, ground (arith, e), ground (arith, e), ground (arith, e))
  ]

  -- A request for a time to live is refused and changes nothing, or it sets the rules and the script
  -- to the number of its body, which is between 1 and 255.
  pub ttl_set-bounds :
      (body : Value) (w : W)
      → (ttl_set (some body) w ≡ (400, w))
        ⊎ ((ttl : ℕ) × (number_in (get body (codes "ttl")) ≡ some ttl)
            × (1 ≤ ttl)
            × (ttl ≤ 255)
            × (ttl_set (some body) w ≡ set_rules ttl w))
  unfolding ttl_set
  ttl_set-bounds body w = set_number-bounds (number_in (get body (codes "ttl"))) w
