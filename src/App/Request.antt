-- ===== src/App/Request.antt =====
-- What the handlers of go/internal/app/server.go read of an *http.Request, and the strings functions that
-- they read it with. A header's name is in its canonical form, as net/http stores it.
use emby_range_cache_proxy.Base.{
  ℕ, ◌+◌, Bool, false, ◌&&◌, ◌||◌, Option, none, some, List, [], ◌∷◌, leb, ◌==◌, if◌then◌else◌,
}
use emby_range_cache_proxy.Base.Texts.{Text, same_text}

abbrev pub Values : Type 0
Values = List (Text × List Text)

pub record HttpRequest : Type 0 where
  pub method : Text
  pub path : Text
  pub escaped_path : Text
  pub request_uri : Text
  pub raw_query : Text
  pub query : Values
  pub headers : Values
  pub remote_addr : Text

-- The first value under a name, or the empty text: Header.Get and Values.Get.
abbrev first_value : List Text → Text
first_value [] = []
first_value (v ∷ vs) = v

abbrev pub get : Text → Values → Text
get name [] = []
get name ((key, values) ∷ rest) = if same_text key name then first_value values else get name rest

-- strings.ToLower on ASCII
abbrev pub lower_byte : ℕ → ℕ
lower_byte c = if leb b'A' c && leb c b'Z' then c + 32 else c

unfoldable pub to_lower : Text → Text
to_lower [] = []
to_lower (c ∷ s) = lower_byte c ∷ to_lower s

-- strings.EqualFold on ASCII
unfoldable pub equal_fold : Text → Text → Bool
equal_fold s t = same_text (to_lower s) (to_lower t)

-- strings.Cut at a text of one byte: what stands before its first occurrence and behind it.
unfoldable pub cut : ℕ → Text → Option (Text × Text)
cut b [] = none
cut b (c ∷ s) = elim (cut b s) [
  | none ↦ if c == b then some ([], s) else none
  | some (before, after) ↦ if c == b then some ([], s) else some (c ∷ before, after)
]

-- What stands before the first occurrence, or everything: the first result of strings.Cut.
unfoldable pub before_first : ℕ → Text → Text
before_first b [] = []
before_first b (c ∷ s) = let rest = before_first b s in if c == b then [] else c ∷ rest

abbrev pub any : (Text → Bool) → List Text → Bool
any p [] = false
any p (v ∷ vs) = p v || any p vs
