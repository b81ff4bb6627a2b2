-- ===== src/Management/Hosts/DeviceMode.antt =====
-- Hosts in device mode have a plugin that retrieves CSRs (management/hosts_api.py).
use acme_lan.Prelude.{
  String, ◌≡◌, refl, Bool, true, false, Option, none, some, inl, inr, List, ◌==◌, Bool-cases,
}
use acme_lan.Prelude.Text.{is_empty}
use acme_lan.Platform.{Platform}
use acme_lan.Exec.{require, ◌>>=◌, ◌>>◌}
use acme_lan.Exec.Keeps.{
  Keeps, Keeps-require, Keeps-if, Keeps-or_raise, Keeps-gets, Keeps-raise, Keeps-pure, ◌⨾◌,
}
use acme_lan.Acme.Errors.{Exc}
use acme_lan.Table.{find, put, remove, find-put, find-remove_other}
use acme_lan.Models.Rows.{ManagedHost, UserSession, User, World}
use acme_lan.Models.Session.{Handler, run, closed, commit, now, draw, write}
use acme_lan.Hosts.{put_host}
use acme_lan.Users.{remove_session, resolve_session, resolve_found}
use acme_lan.Management.Auth.{anonymous, signed_in, by_session, by_token, require_admin}
use acme_lan.Management.Accounts.{Caller}
use acme_lan.Management.Hosts.{
  HostCreate, HostUpdate, updated, device_ready, new_host, create_host, store_update, update_host,
  drop_host, delete_host, remove_host,
}

module _ (p : Platform) (registry : String → Option Bool) where
  -- The hosts of a table that are in device mode have a plugin that retrieves CSRs.
  unfoldable pub Supported : List ManagedHost → Type 0
  Supported hosts =
      (id : String) (h : ManagedHost)
      → find (λ (x : ManagedHost). x.id) id hosts ≡ some h
      → device_ready p registry h.csr_source h.deploy_plugin ≡ true

  put-Supported :
      (host : ManagedHost) (hosts : List ManagedHost)
      → device_ready p registry host.csr_source host.deploy_plugin ≡ true
      → Supported hosts
      → Supported (put (λ x. x.id) host hosts)
  unfolding Supported
  put-Supported host hosts ready kept id h e = elim (Bool-cases (host.id == id)) [
    | inl same ↦
        let eq : host ≡ h =
          cc (rw same at (rw (find-put (λ (x : ManagedHost). x.id) id host hosts) at e)) in
        rw⁻¹ eq ready
    | inr other ↦
        kept id h (rw other at (rw (find-put (λ (x : ManagedHost). x.id) id host hosts) at e))
  ]

  remove-Supported :
      (gone : String) (hosts : List ManagedHost)
      → Supported hosts
      → Supported (remove (λ x. x.id) gone hosts)
  unfolding Supported
  remove-Supported gone hosts kept id h e = elim (Bool-cases (gone == id)) [
    | inl same ↦
        cc (rw same at (rw (find-remove_other (λ (x : ManagedHost). x.id) id gone hosts) at e))
    | inr other ↦
        kept id h
          (rw other at (rw (find-remove_other (λ (x : ManagedHost). x.id) id gone hosts) at e))
  ]

  record Kept (w : World) : Type 0 where
    pub tx : Supported w.tx.hosts
    pub db : Supported w.db.hosts

  Keeps-commit : Keeps Kept commit
  unfolding commit
  Keeps-commit = record { at = λ w h. record { tx = h.tx; db = h.tx } }

  Keeps-draw : Keeps Kept draw
  unfolding draw
  Keeps-draw = record { at = λ w h. record { tx = h.tx; db = h.db } }

  Keeps-now : Keeps Kept now
  unfolding now
  Keeps-now = Keeps-gets _

  Keeps-remove_session : (token : String) → Keeps Kept (write (remove_session token))
  unfolding write
  Keeps-remove_session token = record { at = λ w h. record { tx = h.tx; db = h.db } }

  Keeps-put_host :
      (host : ManagedHost)
      → device_ready p registry host.csr_source host.deploy_plugin ≡ true
      → Keeps Kept (write (put_host host))
  unfolding write
  Keeps-put_host host ready = record {
    at = λ w h. record { tx = put-Supported host w.tx.hosts ready h.tx; db = h.db };
  }

  Keeps-remove_host : (id : String) → Keeps Kept (write (remove_host id))
  unfolding write
  Keeps-remove_host id = record {
    at = λ w h. record { tx = remove-Supported id w.tx.hosts h.tx; db = h.db };
  }

  Keeps-resolve_found :
      (token : String) (found : Option UserSession) → Keeps Kept (resolve_found token found)
  unfolding resolve_found
  Keeps-resolve_found token none = Keeps-pure _
  Keeps-resolve_found token (some row) = Keeps-now ⨾ λ _.
      Keeps-if _ _ _ (Keeps-remove_session token ⨾ λ _. Keeps-commit ⨾ λ _. Keeps-pure _)
        (Keeps-gets _)

  Keeps-resolve_session : (cookie : Option String) → Keeps Kept (resolve_session cookie)
  unfolding resolve_session
  Keeps-resolve_session none = Keeps-pure _
  Keeps-resolve_session (some token) =
      Keeps-if (is_empty token) _ _ (Keeps-pure _)
        (Keeps-gets _ ⨾ λ found. Keeps-resolve_found token found)

  Keeps-signed_in : (found : Option User) → Keeps Kept (signed_in p found)
  unfolding signed_in anonymous
  Keeps-signed_in none =
      Keeps-if p.settings.auth_required _ _ (Keeps-raise _)
        (Keeps-if (is_empty p.settings.admin_token) _ _ (Keeps-pure _) (Keeps-raise _))
  Keeps-signed_in (some user) = Keeps-pure _

  Keeps-require_admin :
      (authorization cookie : Option String) → Keeps Kept (require_admin p authorization cookie)
  unfolding require_admin by_session by_token
  Keeps-require_admin none cookie = Keeps-resolve_session cookie ⨾ λ found. Keeps-signed_in found
  Keeps-require_admin (some authorization) cookie =
      Keeps-if (is_empty p.settings.admin_token) _ _
        (Keeps-resolve_session cookie ⨾ λ found. Keeps-signed_in found)
        (Keeps-if (is_empty authorization) _ _
          (Keeps-resolve_session cookie ⨾ λ found. Keeps-signed_in found)
          (Keeps-if _ _ _ (Keeps-pure _) (Keeps-raise _)))

  -- What follows a check may rely on it.
  Keeps-checked :
      {A : Type 0} (b : Bool) (e : Exc) (m : Handler A)
      → (b ≡ true → Keeps Kept m)
      → Keeps Kept (require b e >> m)
  unfolding require ◌>>=◌
  Keeps-checked true e m kept = record { at = λ w h. (kept refl).at w h }
  Keeps-checked false e m kept = record { at = λ w h. h }

  Keeps-create_host :
      (body : HostCreate) (caller : Caller) → Keeps Kept (create_host p registry body caller)
  unfolding create_host new_host
  Keeps-create_host body caller = Keeps-require_admin _ _ ⨾ λ _. Keeps-require _ _ ⨾ λ _.
      Keeps-require _ _ ⨾ λ _.
      Keeps-checked (device_ready p registry body.csr_source body.deploy_plugin) _ _ (λ ready.
        Keeps-draw ⨾ λ _.
        Keeps-now ⨾ λ _. Keeps-put_host _ ready ⨾ λ _. Keeps-commit ⨾ λ _. Keeps-pure _)

  Keeps-store_update :
      (body : HostUpdate) (host : ManagedHost) → Keeps Kept (store_update p registry body host)
  unfolding store_update
  Keeps-store_update body host = Keeps-require _ _ ⨾ λ _. Keeps-require _ _ ⨾ λ _.
      Keeps-require _ _ ⨾ λ _.
      Keeps-checked
        (device_ready p registry (updated body host).csr_source (updated body host).deploy_plugin) _
        _
        (λ ready. Keeps-put_host (updated body host) ready ⨾ λ _. Keeps-commit ⨾ λ _. Keeps-pure _)

  Keeps-update_host :
      (id : String) (body : HostUpdate) (caller : Caller)
      → Keeps Kept (update_host p registry id body caller)
  unfolding update_host
  Keeps-update_host id body caller = Keeps-require_admin _ _ ⨾ λ _.
      Keeps-gets _ ⨾ λ _. Keeps-or_raise _ _ ⨾ λ host. Keeps-store_update body host

  Keeps-drop_host : (found : Option ManagedHost) → Keeps Kept (drop_host p registry found)
  unfolding drop_host
  Keeps-drop_host none = Keeps-pure _
  Keeps-drop_host (some host) = Keeps-remove_host host.id ⨾ λ _. Keeps-commit

  Keeps-delete_host :
      (id : String) (caller : Caller) → Keeps Kept (delete_host p registry id caller)
  unfolding delete_host
  Keeps-delete_host id caller =
      Keeps-require_admin _ _ ⨾ λ _. Keeps-gets _ ⨾ λ found. Keeps-drop_host found

  -- The states that requests on hosts lead to, each in a session of its own.
  pub data Administered (w : World) : World → Type 0 where
    start : Administered w w
    created :
        {v : World} (body : HostCreate) (caller : Caller)
        → Administered w v
        → Administered w (run (create_host p registry body caller) v).1
    changed :
        {v : World} (id : String) (body : HostUpdate) (caller : Caller)
        → Administered w v
        → Administered w (run (update_host p registry id body caller) v).1
    deleted :
        {v : World} (id : String) (caller : Caller)
        → Administered w v
        → Administered w (run (delete_host p registry id caller) v).1

  run-Supported :
      {A : Type 0} (m : Handler A) (v : World)
      → Keeps Kept m
      → Supported v.db.hosts
      → Supported (run m v).1.db.hosts
  unfolding run closed
  run-Supported m v kept h = (kept.at (record v { tx = v.db }) (record { tx = h; db = h })).db

  -- Through any sequence of creations, updates and deletions of hosts, answered or refused, the
  -- stored hosts in device mode keep to have a plugin that retrieves CSRs.
  pub Administered-Supported :
      (w v : World) → Supported w.db.hosts → Administered w v → Supported v.db.hosts
  Administered-Supported w v h start = h
  Administered-Supported w _ h (created {v} body caller before) =
      run-Supported (create_host p registry body caller) v (Keeps-create_host body caller)
        (Administered-Supported w v h before)
  Administered-Supported w _ h (changed {v} id body caller before) =
      run-Supported (update_host p registry id body caller) v (Keeps-update_host id body caller)
        (Administered-Supported w v h before)
  Administered-Supported w _ h (deleted {v} id caller before) =
      run-Supported (delete_host p registry id caller) v (Keeps-delete_host id caller)
        (Administered-Supported w v h before)
