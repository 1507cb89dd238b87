-- ===== src/App/Forward/Copied.antt =====
-- Which headers are passed on.
use emby_range_cache_proxy.Base.{
  ◌≡◌, refl, sym, ap, ◌∙◌, Bool, true, false, List, [], ◌∷◌, ◌++◌, arith, if◌then◌else◌, Bool-cases,
  inl, inr, ◌⊎◌,
}
use mathlib.Core.List.{append_assoc, append-nil}
use emby_range_cache_proxy.Base.Texts.{Text, codes, same_text, same_text_iff, eq_of_same_text}
use emby_range_cache_proxy.App.Request.{Values, to_lower, any}
use emby_range_cache_proxy.App.Forward.{
  add, add_all, copy_headers, is_hop_by_hop, is_not_forwarded, copy_forward_headers,
  copy_response_headers,
}

-- The values of the entry under a name.
abbrev pub values_at : Text → Values → List Text
values_at name [] = []
values_at name ((key, values) ∷ rest) = if same_text key name then values else values_at name rest

-- The values of all entries under a name; a header map has one at most.
abbrev pub values_of : Text → Values → List Text
values_of name [] = []
values_of name ((key, values) ∷ rest) =
    if same_text key name then values ++ values_of name rest else values_of name rest

values_at-add :
    (name n v : Text) (dst : Values)
    → values_at name (add n v dst)
      ≡ (if same_text n name then values_at name dst ++ v ∷ [] else values_at name dst)
values_at-add name n v [] = ground arith
values_at-add name n v ((key, values) ∷ rest) = ground (
  arith,
  values_at-add name n v rest,
  same_text_iff key n,
  same_text_iff key name,
  same_text_iff n name,
)

values_at-add_all :
    (name n : Text) (vs : List Text) (dst : Values)
    → values_at name (add_all n vs dst)
      ≡ (if same_text n name then values_at name dst ++ vs else values_at name dst)
values_at-add_all name n [] dst = elim (Bool-cases (same_text n name)) [
  | inl e ↦ rw e (sym (append-nil (values_at name dst)))
  | inr e ↦ rw e refl
]
values_at-add_all name n (v ∷ vs) dst =
    let now = values_at-add name n v dst in
    let later = values_at-add_all name n vs (add n v dst) in
    elim (Bool-cases (same_text n name)) [
      | inl e ↦ rw e (later ∙ (rw (e, now, e) (append_assoc (values_at name dst) (v ∷ []) vs)))
      | inr e ↦ rw e (later ∙ (rw (e, now, e) refl))
    ]

values_at-copy_headers :
    (skip : Text → Bool) (name : Text) (dst src : Values)
    → values_at name (copy_headers skip dst src) ≡ (
        if skip (to_lower name)
        then values_at name dst
        else values_at name dst ++ values_of name src)
values_at-copy_headers skip name dst [] = elim (Bool-cases (skip (to_lower name))) [
  | inl e ↦ rw e refl
  | inr e ↦ rw e (sym (append-nil (values_at name dst)))
]
values_at-copy_headers skip name dst ((n, vs) ∷ src) =
    let old = values_at name dst in
    let added = values_at-add_all name n vs dst in
    let same = eq_of_same_text n name in
    elim (Bool-cases (skip (to_lower n))) [
      | inl k ↦ elim (Bool-cases (skip (to_lower name))) [
        | inl t ↦ rw (k, t) (values_at-copy_headers skip name dst src ∙ (rw t refl))
        | inr t ↦ elim (Bool-cases (same_text n name)) [
          | inl s ↦ absurd (differ (sym k ∙ ap (λ m. skip (to_lower m)) (same s) ∙ t))
          | inr s ↦ rw (k, t, s) (values_at-copy_headers skip name dst src ∙ (rw t refl))
        ]
      ]
      | inr k ↦
          let later = values_at-copy_headers skip name (add_all n vs dst) src in
          elim (Bool-cases (skip (to_lower name))) [
            | inl t ↦ elim (Bool-cases (same_text n name)) [
              | inl s ↦ absurd (differ (sym t ∙ ap (λ m. skip (to_lower m)) (sym (same s)) ∙ k))
              | inr s ↦ rw (k, t) (later ∙ (rw (t, added, s) refl))
            ]
            | inr t ↦ elim (Bool-cases (same_text n name)) [
              | inl s ↦
                  rw (k, t, s)
                    (later ∙ (rw (t, added, s) (append_assoc old vs (values_of name src))))
              | inr s ↦ rw (k, t, s) (later ∙ (rw (t, added, s) refl))
            ]
          ]
    ]
  where
    differ : true ≡ false → ⊥
    differ e = cc

-- The headers that speak of one connection only, after RFC 9110, section 7.6.1, and RFC 7235.
abbrev pub connection_names : List Text
connection_names =
    codes "connection"
    ∷ codes "keep-alive"
    ∷ codes "proxy-authenticate"
    ∷ codes "proxy-authorization"
    ∷ codes "te"
    ∷ codes "trailer"
    ∷ codes "transfer-encoding"
    ∷ codes "upgrade"
    ∷ []

abbrev pub IsOneOf : Text → List Text → Type 0
IsOneOf name [] = ⊥
IsOneOf name (t ∷ texts) = (name ≡ t) ⊎ IsOneOf name texts

is_hop_by_hop-IsOneOf : (name : Text) → is_hop_by_hop name ≡ true → IsOneOf name connection_names
unfolding is_hop_by_hop
is_hop_by_hop-IsOneOf name h = found connection_names h
  where
    found : (texts : List Text) → any (same_text name) texts ≡ true → IsOneOf name texts
    found [] k = cc
    found (t ∷ texts) k = elim (Bool-cases (same_text name t)) [
      | inl e ↦ inl (eq_of_same_text name t e)
      | inr e ↦ inr (found texts (ground (arith, k, e)))
    ]

IsOneOf-is_hop_by_hop : (name : Text) → IsOneOf name connection_names → is_hop_by_hop name ≡ true
unfolding is_hop_by_hop
IsOneOf-is_hop_by_hop name h = found connection_names h
  where
    found : (texts : List Text) → IsOneOf name texts → any (same_text name) texts ≡ true
    found [] k = elim k [ ]
    found (t ∷ texts) (inl e) = ground (arith, same_text_iff name t, e)
    found (t ∷ texts) (inr later) = ground (arith, found texts later)

-- A header whose name, in small letters, is one of the eight of a connection is dropped from a request
-- and from an answer, and Host from a request; every other header is passed on with all its values in
-- order.
pub copy_headers-kept :
    (name : Text) (src : Values)
    → let lower = to_lower name in
      let request = values_at name (copy_forward_headers [] src) in
      let answer = values_at name (copy_response_headers [] src) in
      (IsOneOf lower connection_names → (request ≡ []) × (answer ≡ []))
      × (lower ≡ codes "host" → request ≡ [])
      × ((IsOneOf lower (codes "host" ∷ connection_names) → ⊥) → request ≡ values_of name src)
      × ((IsOneOf lower connection_names → ⊥) → answer ≡ values_of name src)
unfolding copy_forward_headers copy_response_headers
copy_headers-kept name src =
    let lower = to_lower name in
    let request = values_at-copy_headers is_not_forwarded name [] src in
    let answer = values_at-copy_headers is_hop_by_hop name [] src in
    let host = same_text_iff lower (codes "host") in
    (
      λ h.
          let e = IsOneOf-is_hop_by_hop lower h in
          (ground (arith, request, e), ground (arith, answer, e)),
      λ h. ground (arith, request, host, h),
      λ h. elim (Bool-cases (is_not_forwarded lower)) [
        | inr e ↦ ground (arith, request, e)
        | inl e ↦ elim (Bool-cases (same_text lower (codes "host"))) [
          | inl f ↦ absurd (h (inl (eq_of_same_text lower (codes "host") f)))
          | inr f ↦ absurd (h (inr (is_hop_by_hop-IsOneOf lower (ground (arith, e, f)))))
        ]
      ],
      λ h. elim (Bool-cases (is_hop_by_hop lower)) [
        | inr e ↦ ground (arith, answer, e)
        | inl e ↦ absurd (h (is_hop_by_hop-IsOneOf lower e))
      ],
    )
