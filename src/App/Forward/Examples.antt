-- ===== src/App/Forward/Examples.antt =====
-- Headers of a request that are passed on, and the theorem there.
use emby_range_cache_proxy.Base.{◌≡◌, refl, [], ◌∷◌}
use emby_range_cache_proxy.Base.Texts.{codes, same_text}
use emby_range_cache_proxy.App.Request.{Values, to_lower}
use emby_range_cache_proxy.App.Forward.{is_hop_by_hop, copy_forward_headers, copy_response_headers}
use emby_range_cache_proxy.App.Forward.Copied.{
  values_at, values_of, connection_names, IsOneOf, copy_headers-kept,
}

program : Unit {0}
unfolding same_text to_lower is_hop_by_hop copy_forward_headers copy_response_headers
program = tt

abbrev sent : Values
sent =
    (codes "Host", codes "a" ∷ [])
    ∷ (codes "Accept", codes "x" ∷ codes "y" ∷ [])
    ∷ (codes "Upgrade", codes "h2c" ∷ [])
    ∷ []

forwarded :
    (copy_forward_headers [] sent ≡ (codes "Accept", codes "x" ∷ codes "y" ∷ []) ∷ [])
    × (values_at (codes "Host") (copy_response_headers [] sent) ≡ codes "a" ∷ [])
unfolding program
forwarded = (refl, refl)

copy_headers-kept_example :
    let lower = to_lower (codes "Accept") in
    let request = values_at (codes "Accept") (copy_forward_headers [] sent) in
    let answer = values_at (codes "Accept") (copy_response_headers [] sent) in
    (IsOneOf lower connection_names → (request ≡ []) × (answer ≡ []))
    × (lower ≡ codes "host" → request ≡ [])
    × ((IsOneOf lower (codes "host" ∷ connection_names) → ⊥)
        → request ≡ values_of (codes "Accept") sent)
    × ((IsOneOf lower connection_names → ⊥) → answer ≡ values_of (codes "Accept") sent)
copy_headers-kept_example = copy_headers-kept (codes "Accept") sent
