-- ===== src/Deploy/Shell/Dialogue.antt =====
-- What a command that returned has seen (IosSession of deploy/cisco_ios.py).
use Prim.Native.String.{◌++◌}
use acme_lan.Prelude.{
  ℕ, zero, suc, ◌+◌, String, ◌≡◌, refl, ◌∙◌, sym, ap, Bool, true, false, ◌&&◌, Option, none, some,
  inl, inr, List, [], ◌∷◌, add_last, All, Bool-cases, Option-cases, if◌then◌else◌,
}
use acme_lan.Prelude.Text.{is_empty, drop_chars, contains}
use acme_lan.Platform.{Platform}
use acme_lan.Exec.{ok, pure, raise, gets, modify, require, ◌>>=◌, ◌>>◌}
use acme_lan.Exec.Returns.{bind_returned}
use acme_lan.Deploy.Shell.{
  Device, Dialog, Shell, prompt, error_markers, found, first_marker, no_marker, read, send,
  question, settled, drain_from, drain, check, run_unchecked, run, paste_block, send_lines,
}

no_markers :
    (markers : List String) (out : String)
    → no_marker (first_marker markers out) ≡ true
    → All (λ marker. contains marker out ≡ false) markers
unfolding no_marker first_marker
no_markers [] out e = tt
no_markers (marker ∷ markers) out e = elim (Bool-cases (contains marker out)) [
  | inl there ↦ cc (rw there at e)
  | inr absent ↦ (absent, no_markers markers out (rw absent at e))
]

-- The state of the channel after a line was sent.
abbrev pub after_sending : String → Shell → Shell
after_sending line s = record s { sent = add_last s.sent line }

module _ (p : Platform) (d : Device) where
  -- A dialogue since a state of the channel: the state it led to, the output so far, and where in it
  -- the last answered question ends. What the device says is read and kept in order; a question is
  -- looked for behind the last answered one, and its answer is sent.
  pub data Heard (answers : List (String × String)) (start : Shell)
      : Shell → String → ℕ → Type 0 where
    begin : Heard answers start start "" 0
    hear :
        (s : Shell) (out : String) (cursor : ℕ)
        → Heard answers start s out cursor
        → question p d answers (drop_chars cursor (out ++ d.read s.sent s.reads)) ≡ none
        → Heard answers start
            (record s { reads = suc s.reads })
            (out ++ d.read s.sent s.reads)
            cursor
    reply :
        (s : Shell) (out : String) (cursor : ℕ) (response : String) (end : ℕ)
        → Heard answers start s out cursor
        → question p d answers (drop_chars cursor (out ++ d.read s.sent s.reads))
          ≡ some (response, end)
        → Heard answers start
            (record s { sent = add_last s.sent (response ++ "\n"); reads = suc s.reads })
            (out ++ d.read s.sent s.reads)
            (cursor + end)

  -- Output of a dialogue that stopped: the device had said nothing more at the last reading, and
  -- behind the last answered question stands the prompt, and no question.
  pub record AtPrompt (answers : List (String × String)) (start stop : Shell) (out : String)
      : Type 0 where
    pub before : Shell
    pub so_far : String
    pub cursor : ℕ
    pub heard : Heard answers start before so_far cursor
    pub quiet : is_empty (d.read before.sent before.reads) ≡ true
    pub whole : out ≡ so_far ++ d.read before.sent before.reads
    pub stopped : stop ≡ record before { reads = suc before.reads }
    pub unasked : question p d answers (drop_chars cursor out) ≡ none
    pub prompted : found (d.search prompt (drop_chars cursor out)) ≡ true

  both : (a b : Bool) → (a && b) ≡ true → (a ≡ true) × (b ≡ true)
  both true b e = (refl, e)
  both false b e = cc

  settled-found :
      (chunk tail : String)
      → settled p d chunk tail ≡ true
      → (is_empty chunk ≡ true) × (found (d.search prompt tail) ≡ true)
  unfolding settled
  settled-found chunk tail e = both (is_empty chunk) (found (d.search prompt tail)) e

  send-ok :
      (line : String) (s : Shell) {u : Unit {0}}
      → (send p d line s).0 ≡ ok u
      → (send p d line s).1 ≡ record s { sent = add_last s.sent line }
  unfolding send require ◌>>=◌
  send-ok line s e = elim (Bool-cases (d.sends s.sent line)) [
    | inl sends ↦ rw (sends, require) refl
    | inr fails ↦ cc (rw (fails, require) at e)
  ]

  drain_out :
      (answers : List (String × String)) (out : String) (cursor : ℕ) (s : Shell) {result : String}
      → (drain_from p d answers zero out cursor s).0 ≡ ok result
      → true ≡ false
  unfolding drain_from raise ◌>>=◌
  drain_out answers out cursor s e = cc

  -- What follows a reading: a question is answered, or the device is heard further, or it stops.
  module _ (answers : List (String × String)) (k : ℕ) (out : String) (cursor : ℕ) where
    abbrev go_on : String → Option (String × ℕ) → Dialog String
    go_on chunk (some (response, end)) = do
      send p d (response ++ "\n")
      drain_from p d answers k (out ++ chunk) (cursor + end)
    go_on chunk none =
        if settled p d chunk (drop_chars cursor (out ++ chunk))
        then pure (out ++ chunk)
        else drain_from p d answers k (out ++ chunk) cursor

    drain_step :
        (s : Shell) (asked : Option (String × ℕ))
        → question p d answers (drop_chars cursor (out ++ d.read s.sent s.reads)) ≡ asked
        → drain_from p d answers (suc k) out cursor s
          ≡ go_on (d.read s.sent s.reads) asked (record s { reads = suc s.reads })
    unfolding drain_from read gets modify pure ◌>>=◌
    drain_step s asked e = ap (λ x. by_question x (record s { reads = suc s.reads })) e
      where
        by_question : Option (String × ℕ) → Dialog String
        by_question = go_on (d.read s.sent s.reads)

    drain_reply :
        (s : Shell) (response : String) (end : ℕ) {result : String}
        → question p d answers (drop_chars cursor (out ++ d.read s.sent s.reads))
          ≡ some (response, end)
        → (drain_from p d answers (suc k) out cursor s).0 ≡ ok result
        → drain_from p d answers (suc k) out cursor s
          ≡ drain_from p d answers k
              (out ++ d.read s.sent s.reads)
              (cursor + end)
              (record s { sent = add_last s.sent (response ++ "\n"); reads = suc s.reads })
    drain_reply s response end asked e =
        let step = drain_step s _ asked in
        let (_, sent, rest) = bind_returned (send p d (response ++ "\n")) _ _ (rw step at e) in
        step ∙ (rest ∙ ap (drain_from p d answers k _ (cursor + end)) (send-ok _ _ sent))

    drain_more :
        (s : Shell)
        → question p d answers (drop_chars cursor (out ++ d.read s.sent s.reads)) ≡ none
        → settled p d (d.read s.sent s.reads) (drop_chars cursor (out ++ d.read s.sent s.reads))
          ≡ false
        → drain_from p d answers (suc k) out cursor s
          ≡ drain_from p d answers k
              (out ++ d.read s.sent s.reads)
              cursor
              (record s { reads = suc s.reads })
    drain_more s quiet on = drain_step s _ quiet ∙ rw on refl

    drain_stop :
        (s : Shell)
        → question p d answers (drop_chars cursor (out ++ d.read s.sent s.reads)) ≡ none
        → settled p d (d.read s.sent s.reads) (drop_chars cursor (out ++ d.read s.sent s.reads))
          ≡ true
        → drain_from p d answers (suc k) out cursor s
          ≡ (ok (out ++ d.read s.sent s.reads), record s { reads = suc s.reads })
    unfolding pure
    drain_stop s quiet stop = drain_step s _ quiet ∙ rw stop refl

  drain_from-AtPrompt :
      (answers : List (String × String)) (start : Shell) (k : ℕ) (out : String) (cursor : ℕ)
      (s : Shell) {result : String}
      → Heard answers start s out cursor
      → (drain_from p d answers k out cursor s).0 ≡ ok result
      → AtPrompt answers start (drain_from p d answers k out cursor s).1 result
  drain_from-AtPrompt answers start zero out cursor s heard e =
      cc (drain_out answers out cursor s e)
  drain_from-AtPrompt answers start (suc k) out cursor s {result} heard e =
      let chunk = d.read s.sent s.reads in
      elim (Option-cases (question p d answers (drop_chars cursor (out ++ chunk)))) [
        | inr ((response, end), asked) ↦
            let next = drain_reply answers k out cursor s response end asked e in
            rw next (
              drain_from-AtPrompt answers start k (out ++ chunk) (cursor + end) _
                (reply s out cursor response end heard asked) (rw next at e))
        | inl quiet ↦ elim (Bool-cases (settled p d chunk (drop_chars cursor (out ++ chunk)))) [
          | inr on ↦
              let next = drain_more answers k out cursor s quiet on in
              rw next (
                drain_from-AtPrompt answers start k (out ++ chunk) cursor _
                  (hear s out cursor heard quiet) (rw next at e))
          | inl stop ↦
              let next = drain_stop answers k out cursor s quiet stop in
              let same : (out ++ chunk) ≡ result = cc (rw next at e) in
              let (silent, prompted) = settled-found chunk _ stop in
              rw (next, sym same)
                (record {
                  before = s;
                  so_far = out;
                  cursor = cursor;
                  heard = heard;
                  quiet = silent;
                  whole = refl;
                  stopped = refl;
                  unasked = quiet;
                  prompted = prompted;
                })
        ]
      ]

  check-ok :
      (command out : String) (s : Shell) {result : String}
      → (check p d command out s).0 ≡ ok result
      → (out ≡ result)
        × (no_marker (first_marker error_markers out) ≡ true)
        × ((check p d command out s).1 ≡ s)
  unfolding check pure require ◌>>=◌
  check-ok command out s e = elim (Bool-cases (no_marker (first_marker error_markers out))) [
    | inl clean ↦ (cc (rw (clean, require) at e), clean, rw (clean, require) refl)
    | inr dirty ↦ cc (rw (dirty, require) at e)
  ]

  -- A dialogue that went well: its output holds no error marker of IOS.
  pub record Accepted (answers : List (String × String)) (start stop : Shell) (out : String)
      : Type 0 where
    pub at_prompt : AtPrompt answers start stop out
    pub clean : All (λ marker. contains marker out ≡ false) error_markers

  checked :
      (command out : String) (answers : List (String × String)) (start s : Shell) {result : String}
      → AtPrompt answers start s out
      → (check p d command out s).0 ≡ ok result
      → Accepted answers start (check p d command out s).1 result
  checked command out answers start s at_prompt e =
      let (same, clean, kept) = check-ok command out s e in
      rw (kept, sym same)
        (record { at_prompt = at_prompt; clean = no_markers error_markers out clean })

  run_unchecked-AtPrompt :
      (command : String) (answers : List (String × String)) (timeout : ℕ) (s : Shell) {out : String}
      → (run_unchecked p d command answers timeout s).0 ≡ ok out
      → AtPrompt answers
          (after_sending (command ++ "\n") s)
          (run_unchecked p d command answers timeout s).1
          out
  unfolding run_unchecked drain
  run_unchecked-AtPrompt command answers timeout s e =
      let line = command ++ "\n" in
      let (_, sent, rest) = bind_returned (send p d line) _ s e in
      let after = send-ok line s sent in
      let same = rest ∙ ap (drain_from p d answers (d.rounds timeout) "" 0) after in
      rw same (
        drain_from-AtPrompt answers (after_sending line s) (d.rounds timeout) "" 0 _ begin
          (rw same at e))

  -- The output that `run` returns is what the device said after the command, with each question
  -- behind the last answered one answered at once. The device had fallen silent, at its prompt and
  -- without a further question, and no error marker is in the output.
  pub run-Accepted :
      (command : String) (answers : List (String × String)) (timeout : ℕ) (s : Shell)
      {result : String}
      → (run p d command answers timeout s).0 ≡ ok result
      → Accepted answers
          (after_sending (command ++ "\n") s)
          (run p d command answers timeout s).1
          result
  unfolding run
  run-Accepted command answers timeout s e =
      let (out, got, rest) =
        bind_returned (run_unchecked p d command answers timeout) (check p d command) s e in
      rw rest (
        checked command out answers _ _ (run_unchecked-AtPrompt command answers timeout s got)
          (rw rest at e))

  pub paste_block-Accepted :
      (text : String) (answers : List (String × String)) (timeout : ℕ) (s : Shell) {result : String}
      → (paste_block p d text answers timeout s).0 ≡ ok result
      → Accepted answers
          (after_sending "quit\n" (send_lines p d (d.splitlines (p.strip text)) s).1)
          (paste_block p d text answers timeout s).1
          result
  unfolding paste_block drain
  paste_block-Accepted text answers timeout s e =
      let (_, _, one) = bind_returned (send_lines p d (d.splitlines (p.strip text))) _ s e in
      let pasted = (send_lines p d (d.splitlines (p.strip text)) s).1 in
      let (_, sent, two) = bind_returned (send p d "quit\n") _ pasted (rw one at e) in
      let after = send-ok "quit\n" pasted sent in
      let same =
        one
        ∙ (two ∙ ap (drain p d answers timeout >>= check p d "pasted certificate block") after) in
      let (out, got, rest) =
        bind_returned (drain p d answers timeout) (check p d "pasted certificate block") _
          (rw same at e) in
      rw (same ∙ rest) (
        checked "pasted certificate block" out answers _ _
          (drain_from-AtPrompt answers (after_sending "quit\n" pasted) (d.rounds timeout) "" 0 _
            begin got)
          (rw (same ∙ rest) at e))
