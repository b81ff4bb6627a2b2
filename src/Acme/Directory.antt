-- ===== src/Acme/Directory.antt =====
-- acme/directory.py: the directory, and the two forms of newNonce.
use acme_lan.Prelude.{ℕ, String, false}
use acme_lan.Json.{Json, bool, str, obj, end, field}
use acme_lan.Platform.{Platform}
use acme_lan.Exec.{◌>>=◌, pure}
use acme_lan.Models.Session.{Handler}
use acme_lan.Acme.Encoding.{
  new_nonce_url, new_account_url, new_order_url, revoke_cert_url, key_change_url,
}
use acme_lan.Acme.Nonce.{issue_nonce}
use acme_lan.Acme.Common.{Request}
use acme_lan.Acme.Accounts.{urls_of}

module _ (p : Platform) where
  unfoldable pub directory : Request → Json
  directory request =
      let urls = urls_of p request in
      obj (
        field "newNonce" (str (new_nonce_url urls)) (
          field "newAccount" (str (new_account_url urls)) (
            field "newOrder" (str (new_order_url urls)) (
              field "revokeCert" (str (revoke_cert_url urls)) (
                field "keyChange" (str (key_change_url urls)) (
                  field "meta"
                    (obj (
                      field "externalAccountRequired" (bool false)
                        (field "website" (str "https://github.com/smallsam/acme-lan") end)))
                    end))))))

  -- HEAD answers 200 and GET 204, each with a fresh nonce.
  unfoldable pub new_nonce_head : Handler (ℕ × String)
  new_nonce_head = do nonce ← issue_nonce p; pure (200, nonce)

  unfoldable pub new_nonce_get : Handler (ℕ × String)
  new_nonce_get = do nonce ← issue_nonce p; pure (204, nonce)
