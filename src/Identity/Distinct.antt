-- ===== src/Identity/Distinct.antt =====
-- Entries with one cache key are of one file.
use emby_range_cache_proxy.Base.{
  ℕ, ◌≡◌, ◌≢◌, ◌⊎◌, inl, inr, Bool-cases, refl, sym, ap, ap₂, ◌∙◌, true, false, some, [], ◌∷◌, ◌++◌,
  arith,
}
use emby_range_cache_proxy.Base.Texts.{
  Text, same_text, same_text_iff, eq_of_same_text, contains_byte, digits_value, format_int,
}
use emby_range_cache_proxy.Base.Texts.RoundTrip.{
  digits_value-format_int, format_int-AllDigits, AllDigits-contains_byte,
}
use emby_range_cache_proxy.Model.{MediaSource, SourceMetadata}
use emby_range_cache_proxy.Identity.{join_lines, origin_lines, key}

-- No line feed in a text.
abbrev pub IsLine : Text → Type 0
IsLine s = contains_byte 10 s ≡ false

head_eq : (c d : ℕ) (s t : Text) → c ∷ s ≡ d ∷ t → c ≡ d
head_eq c d s t e = ap (first c) e
  where
    first : ℕ → Text → ℕ
    first n [] = n
    first n (x ∷ xs) = x

tail_eq : (c d : ℕ) (s t : Text) → c ∷ s ≡ d ∷ t → s ≡ t
tail_eq c d s t e = ap tail e
  where
    tail : Text → Text
    tail [] = []
    tail (x ∷ xs) = xs

-- What stands before the first line feed, and behind it, is determined.
split_line : (s t x y : Text) → IsLine s → IsLine t → s ++ 10 ∷ x ≡ t ++ 10 ∷ y → (s ≡ t) × (x ≡ y)
unfolding contains_byte
split_line [] [] x y h k e = (refl, tail_eq 10 10 x y e)
split_line [] (d ∷ t) x y h k e =
    let z = head_eq 10 d x (t ++ 10 ∷ y) e in elim (differ (ground (arith, k, z))) [ ]
  where
    differ : true ≡ false → ⊥
    differ e = cc
split_line (c ∷ s) [] x y h k e =
    let z = head_eq c 10 (s ++ 10 ∷ x) y e in elim (differ (ground (arith, h, z))) [ ]
  where
    differ : true ≡ false → ⊥
    differ e = cc
split_line (c ∷ s) (d ∷ t) x y h k e =
    let (same, rest) =
      split_line s t x y (ground (arith, h)) (ground (arith, k))
        (tail_eq c d (s ++ 10 ∷ x) (t ++ 10 ∷ y) e) in
    (ap₂ ◌∷◌ (head_eq c d (s ++ 10 ∷ x) (t ++ 10 ∷ y) e) same, rest)

format_int-injective : (m n : ℕ) → format_int m ≡ format_int n → m ≡ n
format_int-injective m n e =
    the_some (sym (digits_value-format_int m) ∙ ap (digits_value 0) e ∙ digits_value-format_int n)
  where
    the_some : some m ≡ some n → m ≡ n
    the_some e = cc

format_int-IsLine : (n : ℕ) → IsLine (format_int n)
format_int-IsLine n = AllDigits-contains_byte 10 (format_int n) (format_int-AllDigits n) refl

-- The texts that a key is made of have no line feed.
pub record IsPlain (source : MediaSource) (meta : SourceMetadata) : Type 0 where
  pub id_line : IsLine source.media_source_id
  pub url_line : IsLine meta.url
  pub etag_line : IsLine meta.etag

-- What a key is made of, line by line.
abbrev pub SameEntry : MediaSource → MediaSource → SourceMetadata → SourceMetadata → Type 0
SameEntry source source' meta meta' =
    (source.media_source_id ≡ source'.media_source_id)
    × (meta.url ≡ meta'.url)
    × (meta.size ≡ meta'.size)
    × (meta.etag ≡ meta'.etag)
    × (meta.last_modified ≡ meta'.last_modified)

lines-SameEntry :
    (source source' : MediaSource) (meta meta' : SourceMetadata)
    → IsPlain source meta
    → IsPlain source' meta'
    → join_lines (source.media_source_id ∷ origin_lines meta)
      ≡ join_lines (source'.media_source_id ∷ origin_lines meta')
    → SameEntry source source' meta meta'
unfolding join_lines
lines-SameEntry source source' meta meta' p q e =
    let (a, rest) =
      split_line source.media_source_id source'.media_source_id _ _ p.id_line q.id_line e in
    let (b, rest') = split_line meta.url meta'.url _ _ p.url_line q.url_line rest in
    let (c, rest'') =
      split_line (format_int meta.size) (format_int meta'.size) _ _ (format_int-IsLine meta.size)
        (format_int-IsLine meta'.size) rest' in
    let (d, last) = split_line meta.etag meta'.etag _ _ p.etag_line q.etag_line rest'' in
    (a, b, format_int-injective meta.size meta'.size c, d, last)

-- Whatever the hash is: entries with one key have one media source, and their origins agree in address,
-- size, ETag and time of change, or two texts are found that differ and have one hash; if no line feed
-- stands in the media source's id, the address and the ETag.
pub key-SameEntry :
    (sha256 : Text → Text) (source source' : MediaSource) (meta meta' : SourceMetadata)
    → IsPlain source meta
    → IsPlain source' meta'
    → key sha256 source meta ≡ key sha256 source' meta'
    → SameEntry source source' meta meta' ⊎ ((s t : Text) × (s ≢ t) × (sha256 s ≡ sha256 t))
unfolding key
key-SameEntry sha256 source source' meta meta' p q e =
    let s = join_lines (source.media_source_id ∷ origin_lines meta) in
    let t = join_lines (source'.media_source_id ∷ origin_lines meta') in
    elim (Bool-cases (same_text s t)) [
      | inl same ↦ inl (lines-SameEntry source source' meta meta' p q (eq_of_same_text s t same))
      | inr other ↦ inr (s, t, λ k. differ (sym ((same_text_iff s t).1 k) ∙ other), e)
    ]
  where
    differ : true ≡ false → ⊥
    differ k = cc
