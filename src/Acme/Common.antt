-- ===== src/Acme/Common.antt =====
-- acme/common.py: reading a request, building an answer; and the server's treatment of errors.
use Prim.Native.String.{◌++◌}
use acme_lan.Prelude.{ℕ, String, ◌||◌, Option, none, some, List, ◌==◌}
use acme_lan.Prelude.Text.{is_empty, rstrip, first_part, join}
use acme_lan.Json.{Json, str}
use acme_lan.Platform.{Platform, Bytes}
use acme_lan.Exec.{Result, pure, raise, catch, require, ◌>>=◌, ◌>>◌}
use acme_lan.Models.Rows.{World}
use acme_lan.Models.Session.{Handler, run}
use acme_lan.Acme.Errors.{Exc, acme, malformed, to_dict}
use acme_lan.Acme.Nonce.{issue_nonce}
use acme_lan.Acme.Jws.{VerifiedRequest, verify_jws}

-- What the handlers read of a request: its content type (empty without that header), the path,
-- the body, and the listener profile in its path parameters.
pub record Request : Type 0 where
  pub content_type : String
  pub path : String
  pub body : Bytes
  pub profile : Option String

pub data Content : Type 0 where
  json : Json → Content
  raw : String → String → Content

pub record Response : Type 0 where
  pub status : ℕ
  pub content : Content
  pub replay_nonce : Option String
  pub location : Option String
  pub link : Option String

abbrev pub jose_content_type : String
jose_content_type = "application/jose+json"

abbrev link_values : List (String × String) → List String
link_values List.[] = List.[]
link_values (List.◌∷◌ (url, rel) ls) =
    List.◌∷◌ ("<" ++ (url ++ (">;rel=\"" ++ (rel ++ "\"")))) (link_values ls)

-- `_add_links`; no links, no header.
abbrev pub link_header : List (String × String) → Option String
link_header List.[] = none
link_header (List.◌∷◌ l ls) = some (join ", " (link_values (List.◌∷◌ l ls)))

module _ (p : Platform) where
  unfoldable pub acme_json_response :
      ℕ → Json → Option String → List (String × String) → Handler Response
  acme_json_response status content location links = do
    nonce ← issue_nonce p
    pure (record {
      status = status;
      content = json content;
      replay_nonce = some nonce;
      location = location;
      link = link_header links;
    })

  unfoldable pub acme_raw_response : String → String → Handler Response
  acme_raw_response content media_type = do
    nonce ← issue_nonce p
    pure (record {
      status = 200;
      content = raw media_type content;
      replay_nonce = some nonce;
      location = none;
      link = none;
    })

  -- The URL under which a request reached the server, as `verify_jws` forms it.
  unfoldable pub actual_url : Request → String
  actual_url request = rstrip b'/' p.settings.external_url ++ request.path

  unfoldable pub read_verified : Request → Handler VerifiedRequest
  read_verified request = do
    let ctype = p.strip (first_part b';' request.content_type)
    require (is_empty ctype || ctype == jose_content_type) (
        malformed
          ("Expected Content-Type " ++ (jose_content_type ++ (", got " ++ p.repr (str ctype)))))
    verify_jws p (actual_url request) request.body

  -- `acme_error_handler`: an `AcmeError` is answered by its document with a fresh nonce. The
  -- others are answered by the framework.
  unfoldable pub answer_error : Exc → Handler Response
  answer_error (acme e) = do
    nonce ← issue_nonce p
    pure (record {
      status = e.status;
      content = json (to_dict e);
      replay_nonce = some nonce;
      location = none;
      link = none;
    })
  answer_error e = raise e

  -- One request: a session of its own, and the answer or the error document.
  unfoldable pub serve : Handler Response → World → Result Response × World
  serve handler = catch (run handler) answer_error
