-- ===== src/Router/Layers.antt =====
-- src/router.rs: the layers around the routes that look at the whole response or at its origin.
-- `is_header_value` is what `HeaderValue` parses; a header's value is where `to_str` reads it.
use cron_manager.Base.{
  ℕ, ◌≡◌, ◌≢◌, refl, Bool, true, false, not, Option, none, some, List, if◌then◌else◌, eqb, is_empty,
  keep, ◌⊎◌, inl, inr, Bool-cases, arith,
}
use cron_manager.Base.Eq.{list_eq}
use cron_manager.Base.Map.{Map, get, insert, remove, get-insert, get-remove}
use cron_manager.Base.Text.{Text, codes, starts_with}
use cron_manager.Error.{ErrorReply, into_response, request_too_large}

-- `build_cors`: the origins of the layer, where there is one.
unfoldable pub build_cors : (Text → Bool) → List Text → Option (List Text)
build_cors is_header_value origins =
    if is_empty origins
    then none
    else let list = keep is_header_value origins in if is_empty list then none else some list

-- A body is its bytes or the JSON of an error.
pub data Body : Type 0 where
  bytes : List ℕ → Body
  error_json : ErrorReply → Body

pub record Response : Type 0 where
  pub status : ℕ
  pub headers : Map Text Text
  pub body : Body

abbrev pub content_type : Text
content_type = codes "content-type"

abbrev pub content_length : Text
content_length = codes "content-length"

abbrev pub is_json : Option Text → Bool
is_json none = false
is_json (some value) = starts_with value (codes "application/json")

-- The body has the JSON of the error `RequestTooLarge`.
unfoldable pub rewritten : ℕ → Response → Response
unfolding into_response
rewritten limit resp = record resp {
  headers = remove content_length (insert content_type (codes "application/json") resp.headers);
  body = error_json (into_response (request_too_large limit));
}

unfoldable pub structured_error_body_middleware : ℕ → Response → Response
unfolding rewritten
structured_error_body_middleware limit resp =
    if not (eqb resp.status 413)
    then resp
    else if is_json (get content_type resp.headers)
    then resp
    else rewritten limit resp

rewritten-type :
    (limit : ℕ) (resp : Response)
    → get content_type (rewritten limit resp).headers ≡ some (codes "application/json")
unfolding rewritten
rewritten-type limit resp =
    rw
      (
        get-remove content_length content_type
            (insert content_type (codes "application/json") resp.headers),
        get-insert content_type content_type (codes "application/json") resp.headers,
      )
      refl

-- Every 413 that leaves the layer has a JSON content type; the status never changes, and a response
-- of another status is the same as before.
pub structured_error_body_middleware_lem :
    (limit : ℕ) (resp : Response)
    → ((structured_error_body_middleware limit resp).status ≡ resp.status)
      × ((structured_error_body_middleware limit resp ≡ resp) ⊎ (resp.status ≡ 413))
      × ((resp.status ≢ 413)
          ⊎ (is_json (get content_type (structured_error_body_middleware limit resp).headers)
              ≡ true))
unfolding structured_error_body_middleware starts_with
structured_error_body_middleware_lem limit resp = elim (Bool-cases (eqb resp.status 413)) [
  | inr other ↦ rw other (refl, inl refl, inl (ground (arith, other)))
  | inl large ↦ elim (Bool-cases (is_json (get content_type resp.headers))) [
    | inl json ↦ rw (large, json) (refl, inl refl, inr json)
    | inr plain ↦
        rw (large, plain)
          (
            unfold rewritten in refl,
            inr (ground (arith, large)),
            inr (rw (rewritten-type limit resp) refl),
          )
  ]
]
