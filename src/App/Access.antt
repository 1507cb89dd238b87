-- ===== src/App/Access.antt =====
-- go/internal/app/server.go: who may call what. The parsing of addresses is a parameter: SplitHostPort
-- gives the host of an address, and IsLoopback says of a host that it is an IP address of this machine.
pub mod Equality
mod Examples
use emby_range_cache_proxy.Base.{
  ℕ, ◌+◌, ◌-◌, Bool, true, false, not, ◌&&◌, ◌||◌, Option, none, some, List, [], ◌∷◌, ltb, leb,
  ◌==◌, if◌then◌else◌, length,
}
use Prim.Native.Nat.{bit_or, bit_xor}
use emby_range_cache_proxy.Base.Texts.{Text, codes, same_text, trim_space}
use emby_range_cache_proxy.Ranges.{is_empty}
use emby_range_cache_proxy.App.Request.{
  Values, HttpRequest, get, to_lower, equal_fold, cut, before_first, any,
}

-- The bits in which the texts differ, in any byte.
abbrev pub difference : ℕ → Text → Text → ℕ
difference out [] [] = out
difference out [] (d ∷ t) = out
difference out (c ∷ s) [] = out
difference out (c ∷ s) (d ∷ t) = difference (bit_or out (bit_xor c d)) s t

unfoldable pub subtle_equal : Text → Text → Bool
subtle_equal a b = if not (length a == length b) then false else difference 0 a b == 0

unfoldable pub authorization_bearer_matches : Text → Text → Bool
authorization_bearer_matches value internal_key = elim (cut b' ' value) [
  | none ↦ false
  | some (scheme, token) ↦ equal_fold scheme (codes "Bearer") && subtle_equal token internal_key
]

unfoldable pub request_contains_prewarm_key : HttpRequest → Text → Bool
request_contains_prewarm_key r internal_key =
    subtle_equal (get (codes "X-Range-Cache-Prewarm-Key") r.headers) internal_key
    || authorization_bearer_matches (get (codes "Authorization") r.headers) internal_key

abbrev pub is_key_parameter : Text → Bool
is_key_parameter name =
    same_text name (codes "api_key")
    || (same_text name (codes "token") || same_text name (codes "x-emby-token"))

abbrev pub is_key_header : Text → Bool
is_key_header name =
    same_text name (codes "x-emby-token")
    || (same_text name (codes "x-range-cache-prewarm-key")
        || same_text name (codes "authorization"))

-- Some name that passes the first test has a value that passes the second one.
abbrev pub any_value : (Text → Bool) → (Text → Bool) → Values → Bool
any_value named p [] = false
any_value named p ((key, values) ∷ rest) =
    (named (to_lower key) && any p values) || any_value named p rest

unfoldable pub request_contains_internal_key : HttpRequest → Text → Bool
request_contains_internal_key r internal_key =
    any_value is_key_parameter (λ v. subtle_equal v internal_key) r.query
    || any_value is_key_header
        (λ v. subtle_equal v internal_key || authorization_bearer_matches v internal_key) r.headers

unfoldable pub request_contains_control_key : HttpRequest → Text → Bool
request_contains_control_key r control_key =
    if is_empty control_key
    then false
    else subtle_equal (trim_space (get (codes "X-Range-Cache-Control-Key") r.headers)) control_key

unfoldable pub request_contains_direct_open_list_token : HttpRequest → Text → Bool
request_contains_direct_open_list_token r token =
    if is_empty token
    then false
    else if subtle_equal (get (codes "token") r.query) token
    then true
    else if subtle_equal (get (codes "X-Direct-OpenList-Token") r.headers) token
    then true
    else authorization_bearer_matches (get (codes "Authorization") r.headers) token

module _ (split_host_port : Text → Option Text) (ip_is_loopback : Text → Bool) where
  unfoldable pub is_loopback : Text → Bool
  is_loopback remote_addr = elim (split_host_port remote_addr) [
    | none ↦ ip_is_loopback remote_addr
    | some host ↦ ip_is_loopback host
  ]

  unfoldable pub is_internal_caller : HttpRequest → Bool
  is_internal_caller r =
      let xff = get (codes "X-Forwarded-For") r.headers in
      let real_ip = trim_space (get (codes "X-Real-IP") r.headers) in
      if not (is_loopback r.remote_addr)
      then false
      else if not (is_empty xff) && not (is_loopback (trim_space (before_first b',' xff)))
      then false
      else if not (is_empty real_ip) && not (is_loopback real_ip)
      then false
      else true

  unfoldable pub request_client_ip : HttpRequest → Text
  request_client_ip r =
      let real_ip = trim_space (get (codes "X-Real-IP") r.headers) in
      let xff = get (codes "X-Forwarded-For") r.headers in
      let first = trim_space (before_first b',' xff) in
      if not (is_empty real_ip)
      then real_ip
      else if not (is_empty xff) && not (is_empty first)
      then first
      else elim (split_host_port r.remote_addr) [ none ↦ r.remote_addr | some host ↦ host ]
