-- ===== src/Service/Callback.antt =====
-- internal/service/kakao.go
pub mod Hosts
use kakao_relay.Prelude.{
  Str, str_eq, Bool, false, ◌||◌, Option, none, some, List, [], ◌∷◌, ◌++◌, lit, ltb, leb,
  if◌then◌else◌, has_suffix, to_lower, decimal,
}
use kakao_relay.Model.{Json}
use kakao_relay.World.{Result, ok, err, HttpReply, refused, answered, M, fail, next}
use kakao_relay.Runtime.{Runtime, Url}

abbrev pub allowed_callback_hosts : List Str
allowed_callback_hosts = lit ".kakao.com" ∷ lit ".kakaocdn.net" ∷ lit ".kakaoenterprise.com" ∷ []

-- The loop over the suffixes.
unfoldable pub has_allowed_suffix : Str → List Str → Bool
has_allowed_suffix host [] = false
has_allowed_suffix host (suffix ∷ rest) = has_suffix host suffix || has_allowed_suffix host rest

unfoldable pub is_allowed_url : Runtime → Option Url → Bool
is_allowed_url rt none = false
is_allowed_url rt (some u) =
    if str_eq u.scheme (lit "https")
    then has_allowed_suffix (to_lower rt.lower_table u.hostname) allowed_callback_hosts
    else false

-- `isValidCallbackURL`
unfoldable pub is_valid_callback_url : Runtime → Str → Bool
unfolding is_allowed_url
is_valid_callback_url rt url = is_allowed_url rt (rt.parse_url url)

-- How the answer to the POST ends the call.
unfoldable pub callback_result : HttpReply → Result (Unit {0})
callback_result (refused e) = err (lit "callback request failed: " ++ e)
callback_result (answered status) =
    if ltb status 200 || leb 300 status
    then err (lit "callback failed with status " ++ decimal status)
    else ok tt

-- `client.Do` of a POST: the request is made, and the environment gives its last answer. What
-- net/http sends by itself to follow a redirect is left out.
unfoldable pub post : Str → Json → M (Unit {0})
unfolding callback_result
post url payload w =
    let (reply, rest) = next (refused (lit "no answer")) w.replies in
    (callback_result reply, record w { replies = rest; posted = w.posted ++ (url, payload) ∷ [] })

-- `SendCallback`. A URL that `url.Parse` accepted is one that `NewRequestWithContext` accepts.
unfoldable pub send_callback : Runtime → Str → Json → M (Unit {0})
unfolding is_valid_callback_url post
send_callback rt url payload w =
    if is_valid_callback_url rt url then post url payload w else fail (lit "invalid callback URL") w
