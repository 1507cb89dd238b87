-- ===== src/App/Access/Examples.antt =====
-- Tests of the access rules, and their theorem at concrete keys.
use emby_range_cache_proxy.Base.{◌≡◌, refl, true, false, none, Option, [], ◌∷◌, Bool}
use emby_range_cache_proxy.Base.Texts.{Text, codes, same_text, trim_left, trim_right, trim_space}
use emby_range_cache_proxy.App.Request.{HttpRequest, to_lower, equal_fold, cut, before_first}
use emby_range_cache_proxy.App.Access.{
  subtle_equal, authorization_bearer_matches, request_contains_prewarm_key,
  request_contains_internal_key, request_contains_direct_open_list_token, is_loopback,
  is_internal_caller, request_client_ip,
}
use emby_range_cache_proxy.App.Access.Equality.{subtle_equal-same_text}

program : Unit {0}
unfolding same_text trim_left trim_right trim_space to_lower equal_fold cut before_first
    subtle_equal authorization_bearer_matches request_contains_prewarm_key
    request_contains_internal_key request_contains_direct_open_list_token is_loopback
    is_internal_caller request_client_ip
program = tt

abbrev bearer : HttpRequest
bearer = record {
  method = codes "GET";
  path = [];
  escaped_path = [];
  request_uri = [];
  raw_query = [];
  query = (codes "API_Key", codes "k2" ∷ []) ∷ [];
  headers =
      (codes "Authorization", codes "bearer k1" ∷ [])
      ∷ (codes "X-Forwarded-For", codes " 10.0.0.1 , 127.0.0.1" ∷ [])
      ∷ [];
  remote_addr = codes "127.0.0.1";
}

abbrev no_port : Text → Option Text
no_port t = none

abbrev is_local : Text → Bool
is_local host = same_text host (codes "127.0.0.1")

keys :
    (request_contains_prewarm_key bearer (codes "k1") ≡ true)
    × (request_contains_internal_key bearer (codes "k2") ≡ true)
    × (request_contains_internal_key bearer (codes "k3") ≡ false)
    × (request_contains_direct_open_list_token bearer [] ≡ false)
unfolding program
keys = (refl, refl, refl, refl)

-- The first forwarded address is not of this machine.
forwarded :
    (is_internal_caller no_port is_local bearer ≡ false)
    × (request_client_ip no_port is_local bearer ≡ codes "10.0.0.1")
unfolding program
forwarded = (refl, refl)

subtle_equal-same_text_example :
    subtle_equal (codes "ab") (codes "ac") ≡ same_text (codes "ab") (codes "ac")
subtle_equal-same_text_example = subtle_equal-same_text (codes "ab") (codes "ac")
