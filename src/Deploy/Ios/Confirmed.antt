-- ===== src/Deploy/Ios/Confirmed.antt =====
-- When an installation is reported as done (deploy/cisco_ios.py).
use Prim.Native.String.{◌++◌}
use acme_lan.Prelude.{
  String, ◌≡◌, refl, ap, ◌∙◌, true, false, Option, none, some, ◌⊎◌, inl, inr, List, [], ◌∷◌,
  Bool-cases,
}
use acme_lan.Prelude.Text.{contains, last_chars}
use acme_lan.Platform.{Platform}
use acme_lan.Exec.{Result, ok, err, pure, raise, catch, caught, continue, ensure, settle, ◌>>=◌}
use acme_lan.Exec.Returns.{bind_returned}
use acme_lan.Acme.Errors.{Exc, acme, http, failure, uncaught}
use acme_lan.Hosts.{DeployContext, DeployResult}
use acme_lan.Deploy.Shell.{Device, Shell, send_expect, send_lines, paste_block, configure}
use acme_lan.Deploy.Shell.Dialogue.{Accepted, after_sending, paste_block-Accepted}
use acme_lan.Deploy.Ios.{
  Outside, failed, pkcs12_answers, split_pem_certificates, trustpoint_of, open_session, hang_up,
}
use acme_lan.Deploy.Ios.Import.{
  Chain, last_of, chain_of, told, prepare_chain, try_open, no_anchor, not_trusted, authenticate_ca,
  confirm_import, import_leaf, install_body, install_opened, install_chain, install_cert,
}

-- A result that says it is done is not one that says it failed.
not_failed : (detail : String) {r : DeployResult} → failed detail ≡ r → r.done ≡ true → false ≡ true
not_failed detail {r} same done =
    let kept : false ≡ r.done = ap (λ (x : DeployResult). x.done) same in cc (kept, done)

outcome_kept :
    {A S : Type 0} (r : Result A) (x : Result (Unit {0}) × S) {a : A}
    → (settle r x).0 ≡ ok a
    → r ≡ ok a
outcome_kept r (ok _, s) e = e
outcome_kept r (err x, s) e = cc

ensure-ok :
    {A S : Type 0} (m : S → Result A × S) (last : S → Result (Unit {0}) × S) (s : S) {a : A}
    → (ensure m last s).0 ≡ ok a
    → (m s).0 ≡ ok a
unfolding ensure
ensure-ok m last s e = outcome_kept (m s).0 (last (m s).1) e

module _ (p : Platform) (d : Device) (o : Outside) where
  caught_done :
      (what : String) (x : Result DeployResult × Shell) {r : DeployResult}
      → (caught (told p d o what) x).0 ≡ ok r
      → r.done ≡ true
      → x.0 ≡ ok r
  unfolding told pure
  caught_done what (ok a, s) e done = e
  caught_done what (err x, s) {r} e done =
      let same : failed (what ++ o.describe x) ≡ r = cc e in
      let absurd : false ≡ true = not_failed (what ++ o.describe x) same done in cc absurd

  -- What an answer with a result instead of a value says: it failed.
  abbrev Refusal : {A : Type 0} → DeployResult ⊎ A → Type 0
  Refusal (inl r) = r.done ≡ false
  Refusal (inr a) = Unit

  abbrev Refusing : Option DeployResult → Type 0
  Refusing none = Unit
  Refusing (some r) = r.done ≡ false

  not_trusted-Refusing :
      (chain : Chain) (x : Exc) (s : Shell) {found : Option DeployResult}
      → (not_trusted p d o chain x s).0 ≡ ok found
      → Refusing found
  unfolding not_trusted no_anchor pure raise
  not_trusted-Refusing chain (acme _) s e = cc
  not_trusted-Refusing chain (http _ _) s e = cc
  not_trusted-Refusing chain uncaught s e = cc
  not_trusted-Refusing chain (failure message) s {found} e =
      elim (Bool-cases (contains "saving certificate" message)) [
        | inl refused ↦
            let same : some (no_anchor p d o chain message) ≡ found = cc (rw refused at e) in
            rw⁻¹ same refl
        | inr other ↦ cc (rw other at e)
      ]

  trusted :
      (chain : Chain) (x : Result String × Shell) {found : Option DeployResult}
      → (caught (not_trusted p d o chain) (continue x (λ _. pure none))).0 ≡ ok found
      → Refusing found
  unfolding pure
  trusted chain (ok out, s) {found} e = let same : none ≡ found = cc e in rw⁻¹ same tt
  trusted chain (err x, s) e = not_trusted-Refusing chain x s e

  authenticate_ca-Refusing :
      (chain : Chain) (s : Shell) {found : Option DeployResult}
      → (authenticate_ca p d o chain s).0 ≡ ok found
      → Refusing found
  unfolding authenticate_ca catch ◌>>=◌
  authenticate_ca-Refusing chain s e =
      let (_, _, one) = bind_returned (configure p d) _ s e in
      let (_, _, two) =
        bind_returned
          (send_expect p d ("crypto pki authenticate " ++ chain.trustpoint)
            "base 64 encoded CA cert|End with a blank line" 90)
          _ _ (rw one at e) in
      trusted chain (paste_block p d chain.issuer_pem pkcs12_answers 120 _)
        (rw two at (rw one at e))

  -- The state in which the leaf certificate is pasted, from the one with an open session: the
  -- issuer was authenticated, and the import announced.
  abbrev pub announced : Chain → Shell → Result String × Shell
  announced chain opened =
      send_expect p d ("crypto pki import " ++ (chain.trustpoint ++ " certificate"))
        "base 64 encoded certificate|End with a blank line" 90
        (authenticate_ca p d o chain opened).1

  -- In an open session, the device trusted the issuer, took the announcement of the import, then
  -- took the pasted leaf certificate and confirmed it.
  pub record Pasted (chain : Chain) (opened : Shell) : Type 0 where
    pub trusted : (authenticate_ca p d o chain opened).0 ≡ ok none
    pub reply : String
    pub taken : (announced chain opened).0 ≡ ok reply
    pub out : String
    pub pasted : (paste_block p d chain.leaf [] 180 (announced chain opened).1).0 ≡ ok out
    pub accepted :
        Accepted p d []
          (after_sending "quit\n"
            (send_lines p d (d.splitlines (p.strip chain.leaf)) (announced chain opened).1).1)
          (paste_block p d chain.leaf [] 180 (announced chain opened).1).1
          out
    pub confirmed : contains "successfully imported" (p.lower out) ≡ true

  confirm_import-confirmed :
      (ctx : DeployContext) (chain : Chain) (out : String) (s : Shell) {r : DeployResult}
      → (confirm_import p d o ctx chain out s).0 ≡ ok r
      → r.done ≡ true
      → contains "successfully imported" (p.lower out) ≡ true
  unfolding confirm_import pure
  confirm_import-confirmed ctx chain out s {r} e done =
      elim (Bool-cases (contains "successfully imported" (p.lower out))) [
        | inl said ↦ said
        | inr silent ↦
            let same : failed
                  ("certificate import was not confirmed: " ++ last_chars 400 (p.strip out))
                ≡ r =
              cc (rw silent at e) in
            let absurd : false ≡ true = not_failed _ same done in cc absurd
      ]

  import_leaf-Pasted :
      (ctx : DeployContext) (chain : Chain) (refusal : Option DeployResult) (s : Shell)
      {r : DeployResult}
      → Refusing refusal
      → (authenticate_ca p d o chain s).0 ≡ ok refusal
      → (import_leaf p d o ctx chain refusal (authenticate_ca p d o chain s).1).0 ≡ ok r
      → r.done ≡ true
      → Pasted chain s
  unfolding import_leaf pure
  import_leaf-Pasted ctx chain (some result) s {r} refusing got e done =
      let same : result ≡ r = cc e in
      let absurd : r.done ≡ false = rw⁻¹ same refusing in cc (absurd, done)
  import_leaf-Pasted ctx chain none s refusing got e done =
      let (reply, taken, one) =
        bind_returned
          (send_expect p d ("crypto pki import " ++ (chain.trustpoint ++ " certificate"))
            "base 64 encoded certificate|End with a blank line" 90)
          _ (authenticate_ca p d o chain s).1 e in
      let (out, pasted, two) =
        bind_returned (paste_block p d chain.leaf [] 180) (confirm_import p d o ctx chain)
          (announced chain s).1 (rw one at e) in
      record {
        trusted = got;
        reply = reply;
        taken = taken;
        out = out;
        pasted = pasted;
        accepted = paste_block-Accepted p d chain.leaf [] 180 (announced chain s).1 pasted;
        confirmed = confirm_import-confirmed ctx chain out _ (rw two at (rw one at e)) done;
      }

  install_body-Pasted :
      (ctx : DeployContext) (chain : Chain) (s : Shell) {r : DeployResult}
      → (install_body p d o ctx chain s).0 ≡ ok r
      → r.done ≡ true
      → Pasted chain s
  unfolding install_body
  install_body-Pasted ctx chain s e done =
      let (refusal, got, rest) =
        bind_returned (authenticate_ca p d o chain) (import_leaf p d o ctx chain) s e in
      import_leaf-Pasted ctx chain refusal s (authenticate_ca-Refusing chain s got) got
        (rw rest at e) done

  install_opened-Pasted :
      (ctx : DeployContext) (chain : Chain) (connection : Option DeployResult) (s : Shell)
      {r : DeployResult}
      → Refusing connection
      → (install_opened p d o ctx chain connection s).0 ≡ ok r
      → r.done ≡ true
      → (connection ≡ none) × Pasted chain s
  unfolding install_opened catch pure
  install_opened-Pasted ctx chain (some result) s {r} refusing e done =
      let same : result ≡ r = cc e in
      let absurd : r.done ≡ false = rw⁻¹ same refusing in cc (absurd, done)
  install_opened-Pasted ctx chain none s refusing e done =
      let returned =
        ensure-ok (catch (install_body p d o ctx chain) (told p d o "cisco_ios install failed: "))
          (hang_up p d o) s e in
      (
        refl,
        install_body-Pasted ctx chain s
            (caught_done "cisco_ios install failed: " (install_body p d o ctx chain s) returned
              done)
            done,
      )

  opened :
      (x : Result String × Shell) {found : Option DeployResult}
      → (caught
          (λ e. pure (some (failed ("cisco_ios connect failed: " ++ o.describe e))))
          (continue x (λ _. pure none))).0
        ≡ ok found
      → Refusing found
  unfolding pure
  opened (ok out, s) {found} e = let same : none ≡ found = cc e in rw⁻¹ same tt
  opened (err x, s) {found} e =
      let same : some (failed ("cisco_ios connect failed: " ++ o.describe x)) ≡ found = cc e in
      rw⁻¹ same refl

  try_open-Refusing :
      (ctx : DeployContext) (s : Shell) {found : Option DeployResult}
      → (try_open p d o ctx s).0 ≡ ok found
      → Refusing found
  unfolding try_open catch ◌>>=◌
  try_open-Refusing ctx s e = opened (open_session p d o ctx s) e

  install_chain-Pasted :
      (ctx : DeployContext) (prepared : DeployResult ⊎ Chain) (s : Shell) {r : DeployResult}
      → Refusal prepared
      → (install_chain p d o ctx prepared s).0 ≡ ok r
      → r.done ≡ true
      → (chain : Chain) × (prepared ≡ inr chain)
        × ((try_open p d o ctx s).0 ≡ ok none)
        × Pasted chain (try_open p d o ctx s).1
  unfolding install_chain pure
  install_chain-Pasted ctx (inl result) s {r} refused e done =
      let same : result ≡ r = cc e in
      let absurd : r.done ≡ false = rw⁻¹ same refused in cc (absurd, done)
  install_chain-Pasted ctx (inr chain) s refused e done =
      let (connection, got, rest) =
        bind_returned (try_open p d o ctx) (install_opened p d o ctx chain) s e in
      let (is_open, pasted) =
        install_opened-Pasted ctx chain connection _ (try_open-Refusing ctx s got) (rw rest at e)
          done in
      (chain, refl, got ∙ ap ok is_open, pasted)

  -- The certificates and the trustpoint of a chain: the leaf is the first of the blocks, its issuer
  -- the second.
  pub record Leads (trustpoint : String) (blocks : List String) (chain : Chain) : Type 0 where
    pub rest : List String
    pub order : blocks ≡ chain.leaf ∷ chain.issuer_pem ∷ rest
    pub named : trustpoint ≡ chain.trustpoint

  chain_of-Refusal :
      (trustpoint : String) (blocks : List String) → Refusal (chain_of trustpoint blocks)
  unfolding chain_of
  chain_of-Refusal trustpoint [] = refl
  chain_of-Refusal trustpoint (leaf ∷ []) = refl
  chain_of-Refusal trustpoint (leaf ∷ ca ∷ cas) = tt

  chain_of-Leads :
      (trustpoint : String) (blocks : List String) {chain : Chain}
      → chain_of trustpoint blocks ≡ inr chain
      → Leads trustpoint blocks chain
  unfolding chain_of
  chain_of-Leads trustpoint [] e = cc
  chain_of-Leads trustpoint (leaf ∷ []) e = cc
  chain_of-Leads trustpoint (leaf ∷ ca ∷ cas) {chain} e =
      let same : record {
        trustpoint = trustpoint;
        leaf = leaf;
        issuer_pem = ca;
        top = last_of ca cas;
      }
          ≡ chain =
        cc e in
      rw⁻¹ same (record { rest = cas; order = refl; named = refl })

  prepared_from :
      (ctx : DeployContext) (x : Result String × Shell) {prepared : DeployResult ⊎ Chain}
      → (caught
          (λ e. pure (inl (failed ("cisco_ios configuration error: " ++ o.describe e))))
          (continue x (λ trustpoint.
            pure (chain_of trustpoint (split_pem_certificates p d o ctx.fullchain))))).0
        ≡ ok prepared
      → Refusal prepared
        × ((chain : Chain)
            → prepared ≡ inr chain
            → (trustpoint : String) × (x.0 ≡ ok trustpoint)
              × Leads trustpoint (split_pem_certificates p d o ctx.fullchain) chain)
  unfolding pure
  prepared_from ctx (ok trustpoint, s) {prepared} e =
      let same : chain_of trustpoint (split_pem_certificates p d o ctx.fullchain) ≡ prepared =
        cc e in
      (
        rw⁻¹ same (chain_of-Refusal trustpoint _),
        λ chain is_chain. (trustpoint, refl, chain_of-Leads trustpoint _ (same ∙ is_chain)),
      )
  prepared_from ctx (err x, s) {prepared} e =
      let same : inl (failed ("cisco_ios configuration error: " ++ o.describe x)) ≡ prepared =
        cc e in
      (rw⁻¹ same refl, λ chain is_chain. cc (same, is_chain))

  prepare_chain-from :
      (ctx : DeployContext) (s : Shell) {prepared : DeployResult ⊎ Chain}
      → (prepare_chain p d o ctx s).0 ≡ ok prepared
      → Refusal prepared
        × ((chain : Chain)
            → prepared ≡ inr chain
            → (trustpoint : String) × ((trustpoint_of p d o ctx s).0 ≡ ok trustpoint)
              × Leads trustpoint (split_pem_certificates p d o ctx.fullchain) chain)
  unfolding prepare_chain catch ◌>>=◌
  prepare_chain-from ctx s e = prepared_from ctx (trustpoint_of p d o ctx s) e

  -- An installation that reports success opened a session, in which the device trusted the second
  -- certificate of the given chain, took the first one, pasted right after its import into the
  -- configured trustpoint was announced, and confirmed the import in an answer without an error.
  pub install_cert_done :
      (ctx : DeployContext) (s : Shell) {r : DeployResult}
      → (install_cert p d o ctx s).0 ≡ ok r
      → r.done ≡ true
      → (chain : Chain) × ((trustpoint : String) × ((trustpoint_of p d o ctx s).0 ≡ ok trustpoint)
          × Leads trustpoint (split_pem_certificates p d o ctx.fullchain) chain)
        × ((try_open p d o ctx (prepare_chain p d o ctx s).1).0 ≡ ok none)
        × Pasted chain (try_open p d o ctx (prepare_chain p d o ctx s).1).1
  unfolding install_cert
  install_cert_done ctx s e done =
      let (prepared, got, rest) =
        bind_returned (prepare_chain p d o ctx) (install_chain p d o ctx) s e in
      let (refusal, from) = prepare_chain-from ctx s got in
      let (chain, is_chain, is_open, pasted) =
        install_chain-Pasted ctx prepared _ refusal (rw rest at e) done in
      (chain, from chain is_chain, is_open, pasted)
