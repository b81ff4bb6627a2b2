-- ===== src/Acme/Serializers.antt =====
-- acme/serializers.py: the JSON documents of the ACME resources.
use acme_lan.Prelude.{ℕ, String, true, Option, none, some, ◌==◌, select, map, if◌then◌else◌}
use acme_lan.Json.{Json, bool, str, arr, nil, obj, Fields, end, field, of_list, truthy}
use acme_lan.Platform.{Platform}
use acme_lan.Models.Rows.{
  Account, Order, Authorization, Challenge, World, order_status_text, authz_status_text,
  challenge_status_text,
}
use acme_lan.Acme.Encoding.{
  Urls, account_orders_url, authorization_url, challenge_url, certificate_url, finalize_url,
}

-- `account.contact or []`.
unfoldable pub account_to_json : Account → Urls → Json
account_to_json account urls = obj (
    field "status" (str account.status) (
      field "contact" (if truthy account.contact then account.contact else arr nil)
        (field "orders" (str (account_orders_url urls account.id)) end)))

-- A member that is written only where there is a value.
abbrev optional : String → Option Json → Fields → Fields
optional key none rest = rest
optional key (some value) rest = field key value rest

abbrev when_truthy : Json → Option Json
when_truthy j = if truthy j then some j else none

abbrev error_member : Option Json → Option Json
error_member none = none
error_member (some j) = when_truthy j

module _ (p : Platform) where
  abbrev iso : Option ℕ → Option Json
  iso none = none
  iso (some t) = some (str (p.iso_format t))

  unfoldable pub challenge_to_json : Challenge → Urls → Json
  challenge_to_json ch urls = obj (
      field "type" (str ch.kind) (
        field "url" (str (challenge_url urls ch.id)) (
          field "status" (str (challenge_status_text ch.status)) (
            field "token" (str ch.token) (
              optional "validated" (iso ch.validated_at)
                (optional "error" (error_member ch.error) end))))))

  unfoldable pub authz_to_json : Authorization → World → Urls → Json
  authz_to_json authz w urls = obj (
      field "status" (str (authz_status_text authz.status)) (
        field "expires" (str (p.iso_format authz.expires_at)) (
          field "identifier"
            (obj (
              field "type" (str authz.identifier_type)
                (field "value" (str authz.identifier_value) end)))
            (field "challenges"
              (arr (
                of_list (
                  map (λ c. challenge_to_json c urls)
                    (select (λ c. c.authz_id == authz.id) w.tx.challenges))))
              (optional "wildcard" (if authz.wildcard then some (bool true) else none) end)))))

  unfoldable pub order_to_json : Order → World → Urls → Json
  order_to_json order w urls = obj (
      field "status" (str (order_status_text order.status)) (
        field "expires" (str (p.iso_format order.expires_at)) (
          field "identifiers" (arr (of_list (map identifier order.identifiers))) (
            field "authorizations"
              (arr (
                of_list (
                  map (λ a. str (authorization_url urls a.id))
                    (select (λ a. a.order_id == order.id) w.tx.authorizations))))
              (field "finalize" (str (finalize_url urls order.id)) (
                optional "notBefore" (when_truthy order.not_before) (
                  optional "notAfter" (when_truthy order.not_after) (
                    optional "certificate" (certificate order.certificate_id)
                      (optional "error" (error_member order.error) end)))))))))
    where
      identifier : String → Json
      identifier value = obj (field "type" (str "dns") (field "value" (str value) end))

      certificate : Option String → Option Json
      certificate none = none
      certificate (some id) = some (str (certificate_url urls id))
