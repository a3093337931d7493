-- ===== src/Api.antt =====
-- `RequestHandler` (pdip/api/handlers/request_handler.py). Python's `split(',')` is a parameter.
use text.Mathlib.Text.{◌==◌}
use pdip.Prelude.{
  ◌≡◌, ◌⊎◌, sym, ap, ◌∙◌, Bool, true, false, ◌||◌, Option, none, some, List, [], ◌∷◌, String, arith,
  if◌then◌else◌,
}
use pdip.Prelude.Results.{Result, ok, err, ◌>>=◌}
use pdip.Parallel.Domain.{Error, other}
pub mod Errors
pub mod Order

-- The two headers that are set: `Access-Control-Allow-Origin` and `Server`.
pub record Response : Type 0 where
  pub allow_origin : Option String
  pub server : Option String

-- `text in texts`
unfoldable pub is_one_of : String → List String → Bool
is_one_of text [] = false
is_one_of text (t ∷ texts) = (text == t) || is_one_of text texts

-- `len(texts) == 1 and texts[0] == '*'`
unfoldable pub is_any : List String → Bool
is_any [] = false
is_any (t ∷ []) = t == "*"
is_any (t ∷ u ∷ texts) = false

-- `'Origin' in request.headers and request.headers['Origin'] in white_origin`
unfoldable pub is_listed : Option String → List String → Bool
unfolding is_one_of
is_listed none white_origin = false
is_listed (some origin) white_origin = is_one_of origin white_origin

-- `response.headers[…] = request.headers['Origin']`
unfoldable pub allow : Option String → Response → Result Error Response
allow none response = err (other "KeyError")
allow (some origin) response = ok (record response { allow_origin = some origin })

module _ (split : String → List String) where
  unfoldable pub allow_white : Option String → Option String → Response → Result Error Response
  unfolding is_any is_listed allow
  allow_white none origin response = ok response
  allow_white (some origins) origin response =
      let white_origin = split origins in
      if is_any white_origin || is_listed origin white_origin
      then allow origin response
      else ok response

  -- set_headers, of a configuration's `origins` and the header `Origin` of a request.
  unfoldable pub set_headers : Option String → Option String → Response → Result Error Response
  unfolding allow_white
  set_headers origins origin response =
      allow_white origins origin response >>= (λ r. ok (record r { server = some "" }))

  -- after_request, with the `close` of the repository provider.
  unfoldable pub after_request :
      {W : Type 0}
      → (W → Result Error (Unit {0}) × W)
      → Option String
      → Option String
      → Response
      → W
      → Result Error Response × W
  unfolding set_headers
  after_request close origins origin response w = elim (set_headers origins origin response) [
    | err e ↦ (err e, w)
    | ok r ↦ let (closed, w') = close w in (closed >>= (λ u. ok r), w')
  ]

  -- The origin `a` is one that the configuration lists, or it lists `*` alone.
  abbrev pub IsWhite : Option String → String → Type 0
  IsWhite none a = ⊥
  IsWhite (some origins) a = (is_any (split origins) ≡ true) ⊎ (is_one_of a (split origins) ≡ true)

  -- The configuration lists neither the request's origin nor `*` alone.
  abbrev pub IsUnlisted : Option String → Option String → Type 0
  IsUnlisted none origin = Unit
  IsUnlisted (some origins) none = is_any (split origins) ≡ false
  IsUnlisted (some origins) (some a) =
      (is_any (split origins) ≡ false) × (is_one_of a (split origins) ≡ false)

  -- The header is the one from before, or the origin of the request, which is white.
  abbrev pub IsAllowed : Option String → Option String → Option String → Option String → Type 0
  IsAllowed origins origin before after =
      ((after ≡ before) × IsUnlisted origins origin)
      ⊎ ((a : String) × (origin ≡ some a) × (after ≡ some a) × IsWhite origins a)

  -- What a call that returns does to the header.
  abbrev AllowsIn : Option String → Option String → Response → Result Error Response → Type 0
  AllowsIn origins origin response (ok r) =
      IsAllowed origins origin response.allow_origin r.allow_origin
  AllowsIn origins origin response (err e) = Unit
