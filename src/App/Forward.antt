-- ===== src/App/Forward.antt =====
-- copyForwardHeaders and copyResponseHeaders of go/internal/app/server.go, by which streamFallback passes a
-- request on and its answer back.
pub mod Copied
mod Examples
use emby_range_cache_proxy.Base.{
  ℕ, ◌+◌, Bool, true, false, ◌||◌, Option, none, some, List, [], ◌∷◌, ◌++◌, if◌then◌else◌,
}
use emby_range_cache_proxy.Base.Texts.{Text, codes, same_text, trim_right}
use emby_range_cache_proxy.App.Request.{Values, HttpRequest, to_lower, any}

-- hopByHopHeaders
unfoldable pub is_hop_by_hop : Text → Bool
is_hop_by_hop name = any (same_text name) (
    codes "connection"
    ∷ codes "keep-alive"
    ∷ codes "proxy-authenticate"
    ∷ codes "proxy-authorization"
    ∷ codes "te"
    ∷ codes "trailer"
    ∷ codes "transfer-encoding"
    ∷ codes "upgrade"
    ∷ [])

-- Header.Add: behind the values that the name has.
abbrev pub add : Text → Text → Values → Values
add name value [] = (name, value ∷ []) ∷ []
add name value ((key, values) ∷ rest) =
    let later = add name value rest in
    if same_text key name then (key, values ++ value ∷ []) ∷ rest else (key, values) ∷ later

abbrev pub add_all : Text → List Text → Values → Values
add_all name [] dst = dst
add_all name (value ∷ values) dst = add_all name values (add name value dst)

-- The headers but those whose name in small letters is skipped.
abbrev pub copy_headers : (Text → Bool) → Values → Values → Values
copy_headers skip dst [] = dst
copy_headers skip dst ((name, values) ∷ src) =
    copy_headers skip (if skip (to_lower name) then dst else add_all name values dst) src

abbrev pub is_not_forwarded : Text → Bool
is_not_forwarded lower = same_text lower (codes "host") || is_hop_by_hop lower

unfoldable pub copy_forward_headers : Values → Values → Values
copy_forward_headers dst src = copy_headers is_not_forwarded dst src

unfoldable pub copy_response_headers : Values → Values → Values
copy_response_headers dst src = copy_headers is_hop_by_hop dst src
