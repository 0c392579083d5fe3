-- ===== src/Server/Console.antt =====
-- agent/src/server.rs: the console for AT commands, and the time to live of forwarded packets.
-- `upper` is `str::to_uppercase`, and `send` the port.
use mu5250_wireguard.Base.{
  ℕ, ◌≤◌, ◌≡◌, ◌⊎◌, inl, inr, Bool, true, false, not, ◌&&◌, Option, none, some, List, [], ◌∷◌,
  if◌then◌else◌, Text, codes, text_eq, leb, any, Bool-cases, Result, ok, err, arith, refl,
}
use mu5250_wireguard.Base.Digits.{trim}
use mu5250_wireguard.Base.World.{Io}
use mu5250_wireguard.Json.{Value, pos_int, number, index, as_str}
use mu5250_wireguard.Server.Origin.{starts_with}

unfoldable pub blocked_prefixes : List Text
blocked_prefixes =
    codes "AT+CFUN"
    ∷ codes "AT^"
    ∷ codes "AT$QCRMCALL"
    ∷ codes "AT+CLCK"
    ∷ codes "AT+CMGD"
    ∷ codes "AT+CMGF=1;+CMGS"
    ∷ codes "AT+CGDCONT="
    ∷ codes "AT+CGACT="
    ∷ []

unfoldable pub allowed_exact : List Text
allowed_exact =
    codes "AT"
    ∷ codes "ATI"
    ∷ codes "AT+CSQ"
    ∷ codes "AT+COPS?"
    ∷ codes "AT+COPS=?"
    ∷ codes "AT+CGDCONT?"
    ∷ codes "AT+CREG?"
    ∷ codes "AT+CGREG?"
    ∷ codes "AT+CEREG?"
    ∷ codes "AT+CGPADDR"
    ∷ codes "AT+CGACT?"
    ∷ codes "AT+CLAC"
    ∷ codes "AT+CGSN"
    ∷ codes "AT+CGMI"
    ∷ codes "AT+CGMM"
    ∷ codes "AT+CGMR"
    ∷ codes "AT+QENG=\"SERVINGCELL\""
    ∷ codes "AT+QNWINFO"
    ∷ codes "AT+QRSRP"
    ∷ codes "AT+QRSRQ"
    ∷ codes "AT+QINISTAT"
    ∷ codes "AT+QSPN"
    ∷ codes "AT+QCIDINCOMING"
    ∷ codes "AT+CGCONTRDP"
    ∷ []

abbrev is_empty : Text → Bool
is_empty [] = true
is_empty (b ∷ s) = false

-- The test of the command in capitals.
unfoldable pub is_upper_allowed : Text → Bool
is_upper_allowed s =
    not (is_empty s)
    && not (any (λ p. starts_with p s) blocked_prefixes)
    && any (λ c. text_eq c s) allowed_exact

abbrev pub least : ℕ → ℕ → ℕ
least a b = if leb a b then a else b

-- `as_u64`
abbrev pub as_u64 : Value → Option ℕ
as_u64 (number (pos_int n)) = some n
as_u64 _ = none

abbrev or_two : Option ℕ → ℕ
or_two none = 2
or_two (some n) = n

module _ {W : Type 0} (upper : Text → Text) (send : Text → ℕ → Io W Text Text) where
  unfoldable pub is_at_command_allowed : Text → Bool
  is_at_command_allowed command = is_upper_allowed (upper (trim command))

  abbrev pub sent : Result Text Text → W → (ℕ × Option Text) × W
  sent (ok answer) w = ((200, some (trim answer)), w)
  sent (err e) w = ((503, none), w)

  abbrev pub with_command : Option Text → ℕ → W → (ℕ × Option Text) × W
  with_command none timeout w = ((400, none), w)
  with_command (some command) timeout w =
      if is_empty command
      then ((400, none), w)
      else if not (is_at_command_allowed command)
      then ((403, none), w)
      else (let r = send command timeout w in sent r.0 r.1)

  -- The status and the response, from the body where it is JSON.
  unfoldable pub at_console : Option Value → W → (ℕ × Option Text) × W
  at_console none w = ((400, none), w)
  at_console (some body) w =
      with_command (as_str (index body (codes "command")))
        (least (or_two (as_u64 (index body (codes "timeout")))) 30) w

  sent-world : (r : Result Text Text) (w : W) → (sent r w).1 ≡ w
  sent-world (ok answer) w = refl
  sent-world (err e) w = refl

  allowed-exact :
      (command : Text)
      → is_at_command_allowed command ≡ true
      → any (λ c. text_eq c (upper (trim command))) allowed_exact ≡ true
  unfolding is_at_command_allowed is_upper_allowed
  allowed-exact command h = ground (arith, h)

  with_command-guarded :
      (o : Option Text) (timeout : ℕ) (w : W)
      → ((with_command o timeout w).1 ≡ w)
        ⊎ ((command : Text) × (o ≡ some command)
            × (any (λ c. text_eq c (upper (trim command))) allowed_exact ≡ true)
            × ((with_command o timeout w).1 ≡ (send command timeout w).1))
  with_command-guarded none timeout w = inl refl
  with_command-guarded (some []) timeout w = inl refl
  with_command-guarded (some (b ∷ s)) timeout w =
      elim (Bool-cases (is_at_command_allowed (b ∷ s))) [
        | inr e ↦ inl (ground (arith, e))
        | inl e ↦
            let r = send (b ∷ s) timeout w in
            inr (b ∷ s, refl, allowed-exact (b ∷ s) e, rw e (sent-world r.0 r.1))
      ]

  -- The console leaves the port alone, or it sends the command of the body with a time limit of at
  -- most 30 s, and that command, trimmed and in capitals, is one of those allowed.
  pub at_console_guarded :
      (body : Value) (w : W)
      → ((at_console (some body) w).1 ≡ w)
        ⊎ ((command : Text) × (timeout : ℕ) × (as_str (index body (codes "command")) ≡ some command)
            × (timeout ≤ 30)
            × (any (λ c. text_eq c (upper (trim command))) allowed_exact ≡ true)
            × ((at_console (some body) w).1 ≡ (send command timeout w).1))
  unfolding at_console
  at_console_guarded body w =
      let timeout = least (or_two (as_u64 (index body (codes "timeout")))) 30 in
      elim (with_command-guarded (as_str (index body (codes "command"))) timeout w) [
        | inl same ↦ inl same
        | inr (command, h, ok_command, sent_command) ↦
            inr (command, timeout, h, ground arith, ok_command, sent_command)
      ]
