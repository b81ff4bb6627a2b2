-- ===== src/Deploy/Shell.antt =====
-- deploy/iosshell.py's `expect`, and `IosSession` of deploy/cisco_ios.py: a dialogue with a device
-- over a channel. The device and the regular expressions are an interface.
pub mod Dialogue
use Prim.Native.String.{◌++◌}
use acme_lan.Prelude.{
  ℕ, zero, suc, ◌+◌, String, Bool, true, false, not, ◌&&◌, Option, none, some, List, [], ◌∷◌,
  add_last, ◌==◌, if◌then◌else◌,
}
use acme_lan.Prelude.Text.{is_empty, drop_chars, last_chars, contains, join}
use acme_lan.Json.{str}
use acme_lan.Platform.{Platform}
use acme_lan.Exec.{Exec, pure, raise, gets, require, modify, ◌>>=◌, ◌>>◌}
use acme_lan.Acme.Errors.{failure, uncaught}

-- What is outside: what the device says at its n-th reading, when some lines were sent to it; which
-- sendings fail; where a regular expression ends its first match; how many readings fit into a
-- timeout in seconds; and texts' methods of Python.
pub record Device : Type 0 where
  pub read : List String → ℕ → String
  pub sends : List String → String → Bool
  pub search : String → String → Option ℕ
  pub rounds : ℕ → ℕ
  pub escape : String → String
  pub splitlines : String → List String
  pub words : String → List String
  pub rstrip_spaces : String → String

-- A channel: what was sent, how often it was read, whether it is open, and whether the device is in
-- its configuration mode.
pub record Shell : Type 0 where
  pub sent : List String
  pub reads : ℕ
  pub channel_open : Bool
  pub in_config : Bool

abbrev pub Dialog : Type 0 → Type 0
Dialog A = Exec Shell A

abbrev pub prompt : String
prompt = "[\\r\\n][\\w.\\-]+(?:\\([^)\\r\\n]*\\))?[>#] ?$"

abbrev pub password_prompt : String
password_prompt = "(?i)password:"

abbrev pub error_markers : List String
error_markers =
    "% Invalid input" ∷ "% Incomplete command" ∷ "% Ambiguous command" ∷ "% Error" ∷ "%Error"
    ∷ "% Failed" ∷ "% Cannot" ∷ "% Unable" ∷ "% Trustpoint not" ∷ []

unfoldable pub set_config : Bool → Dialog (Unit {0})
unfolding modify
set_config b = modify (λ s. record s { in_config = b })

unfoldable pub close : Dialog (Unit {0})
unfolding modify
close = modify (λ s. record s { channel_open = false })

unfoldable pub found : Option ℕ → Bool
found none = false
found (some _) = true

unfoldable pub first_marker : List String → String → Option String
first_marker [] out = none
first_marker (marker ∷ markers) out =
    if contains marker out then some marker else first_marker markers out

unfoldable pub no_marker : Option String → Bool
no_marker none = true
no_marker (some _) = false

module _ (p : Platform) (d : Device) where
  unfoldable pub send : String → Dialog (Unit {0})
  send line = do
    sent ← gets (λ s. s.sent)
    require (d.sends sent line) uncaught
    modify (λ s. record s { sent = add_last s.sent line })

  unfoldable pub read : Dialog String
  read = do
    n ← gets (λ s. s.reads)
    text ← gets (λ s. d.read s.sent n)
    modify (λ s. record s { reads = suc n })
    pure text

  -- `Channel.expect`, with as many readings as the timeout allows.
  unfoldable pub expect_from : ℕ → String → String → Dialog String
  expect_from zero pattern buf = raise (
      failure (
        "timed out waiting for "
        ++ (p.repr (str pattern) ++ ("; last output:\n" ++ last_chars 1500 buf))))
  expect_from (suc k) pattern buf = do
    chunk ← read
    if found (d.search pattern (buf ++ chunk))
        then pure (buf ++ chunk)
        else expect_from k pattern (buf ++ chunk)

  unfoldable pub expect : String → ℕ → Dialog String
  expect pattern timeout = expect_from (d.rounds timeout) pattern ""

  -- The first question of the list that the text asks, with its answer and where it ends.
  unfoldable pub question : List (String × String) → String → Option (String × ℕ)
  question [] tail = none
  question ((pattern, response) ∷ answers) tail = elim (d.search pattern tail) [
    | some end ↦ some (response, end)
    | none ↦ question answers tail
  ]

  -- The prompt counts only once the output has gone quiet.
  unfoldable pub settled : String → String → Bool
  settled chunk tail = is_empty chunk && found (d.search prompt tail)

  unfoldable pub drain_from : List (String × String) → ℕ → String → ℕ → Dialog String
  drain_from answers zero out cursor =
      raise
        (failure ("timed out waiting for the IOS prompt; last output:\n" ++ last_chars 1500 out))
  drain_from answers (suc k) out cursor = do
    chunk ← read
    elim (question answers (drop_chars cursor (out ++ chunk))) [
      | some (response, end) ↦ do
        send (response ++ "\n")
        drain_from answers k (out ++ chunk) (cursor + end)
      | none ↦
          if settled chunk (drop_chars cursor (out ++ chunk))
          then pure (out ++ chunk)
          else drain_from answers k (out ++ chunk) cursor
    ]

  unfoldable pub drain : List (String × String) → ℕ → Dialog String
  drain answers timeout = drain_from answers (d.rounds timeout) "" 0

  unfoldable pub check : String → String → Dialog String
  check command out = do
    require (no_marker (first_marker error_markers out)) (
        failure
          ("IOS rejected " ++ (p.repr (str command) ++ (": " ++ last_chars 400 (p.strip out)))))
    pure out

  unfoldable pub run_unchecked : String → List (String × String) → ℕ → Dialog String
  run_unchecked command answers timeout = do send (command ++ "\n"); drain answers timeout

  -- `run`, with and without `allow_errors`.
  unfoldable pub run : String → List (String × String) → ℕ → Dialog String
  run command answers timeout = do out ← run_unchecked command answers timeout; check command out

  unfoldable pub markers_pattern : List String → String
  markers_pattern [] = ""
  markers_pattern (marker ∷ markers) = "|" ++ (d.escape marker ++ markers_pattern markers)

  unfoldable pub send_expect : String → String → ℕ → Dialog String
  send_expect command pattern timeout = do
    send (command ++ "\n")
    out ← expect (pattern ++ markers_pattern error_markers) timeout
    check command out

  unfoldable pub is_user_mode : String → Bool
  is_user_mode out = last_chars 1 (d.rstrip_spaces out) == ">"

  unfoldable pub password_or_raise : Option String → Dialog String
  password_or_raise none =
      raise (failure "the device asked for a password but the credential has none")
  password_or_raise (some password) = pure password

  -- The password, where the device asks for one.
  unfoldable pub give_password : Option String → ℕ → String → Dialog String
  give_password password timeout out =
      if found (d.search password_prompt out)
      then (do
        secret ← password_or_raise password
        send (secret ++ "\n")
        answer ← expect (password_prompt ++ ("|denied|" ++ prompt)) timeout
        require (not (found (d.search (password_prompt ++ "|denied") answer)))
            (failure "IOS login failed (password rejected)")
        pure answer)
      else pure out

  unfoldable pub text_or_empty : Option String → String
  text_or_empty none = ""
  text_or_empty (some s) = s

  unfoldable pub enable_password : Option String → ℕ → String → Dialog String
  enable_password password timeout out =
      if found (d.search password_prompt out)
      then (do send (text_or_empty password ++ "\n"); expect prompt timeout)
      else pure out

  unfoldable pub escalate : Option String → ℕ → String → Dialog String
  escalate password timeout out =
      if is_user_mode out
      then (do
        send "enable\n"
        asked ← expect (password_prompt ++ ("|" ++ prompt)) timeout
        answer ← enable_password password timeout asked
        require (not (is_user_mode answer)) (
            failure
              "could not reach privileged exec mode; the account needs privilege 15 or an enable password matching the login credential")
        pure answer)
      else pure out

  unfoldable pub login : Option String → ℕ → Dialog String
  login password timeout = do
    greeting ← expect (password_prompt ++ ("|" ++ prompt)) timeout
    answer ← give_password password timeout greeting
    out ← escalate password timeout answer
    run_unchecked "terminal length 0" [] 20
    run_unchecked "terminal width 0" [] 20
    pure out

  unfoldable pub configure : Dialog (Unit {0})
  configure = do
    inside ← gets (λ s. s.in_config)
    if inside then pure tt else run "configure terminal" [] 30 >> set_config true

  unfoldable pub end_config : Dialog (Unit {0})
  end_config = do
    inside ← gets (λ s. s.in_config)
    if inside then run_unchecked "end" [] 30 >> set_config false else pure tt

  unfoldable pub send_lines : List String → Dialog (Unit {0})
  send_lines [] = pure tt
  send_lines (line ∷ lines) = do send (d.rstrip_spaces line ++ "\n"); send_lines lines

  unfoldable pub paste_block : String → List (String × String) → ℕ → Dialog String
  paste_block text answers timeout = do
    send_lines (d.splitlines (p.strip text))
    send "quit\n"
    out ← drain answers timeout
    check "pasted certificate block" out
