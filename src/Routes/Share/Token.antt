-- ===== src/Routes/Share/Token.antt =====
-- The token of a share link: `base64Url` and `createShareToken` of
-- app/api/writeright/share/route.ts, and the checks of
-- app/api/writeright/public/share/[token]/route.ts.
pub mod Parts
use brain_mate.Common.{
  ℕ, zero, suc, String, ◌/◌, ◌+◌, Bool, true, false, not, ◌&&◌, Option, none, some, List, [], ◌∷◌,
  ◌++◌, map, ◌==◌, ltb, if◌then◌else◌,
}
use brain_mate.Errors.{
  create_api_error, invalid_token, missing_secret, expired_token, no_meta, failure, Error,
}
use brain_mate.Exec.{Exec, pure, throw, date_now, ◌>>=◌, ◌>>◌}
use brain_mate.Reconciliation.Operation.{truthy_text}

-- the payload of the token
pub record Claims : Type 0 where
  pub sub : String
  pub chat_id : String
  pub job_id : String
  pub iat : ℕ
  pub exp : ℕ
  pub jti : String

abbrev is_empty : List ℕ → Bool
is_empty [] = true
is_empty (_ ∷ _) = false

-- `replace(/=+$/g, "")` and `replace(/\/+$/, "")`, for the unit `c`
unfoldable pub strip_end : ℕ → List ℕ → List ℕ
strip_end c [] = []
strip_end c (x ∷ xs) =
    let rest = strip_end c xs in if (x == c) && is_empty rest then [] else x ∷ rest

-- "+" becomes "-", and "/" becomes "_"
unfoldable pub url_unit : ℕ → ℕ
url_unit c = if c == 43 then 45 else if c == 47 then 95 else c

-- `base64` is `toString("base64")` of the bytes.
unfoldable pub base64_url : (List ℕ → List ℕ) → List ℕ → List ℕ
base64_url base64 bytes = strip_end 61 (map url_unit (base64 bytes))

abbrev pub dot : ℕ
dot = 46

unfoldable pub joined_by_dot : List ℕ → List ℕ → List ℕ
joined_by_dot a b = a ++ dot ∷ b

abbrev pub cons_first : ℕ → List (List ℕ) → List (List ℕ)
cons_first x [] = (x ∷ []) ∷ []
cons_first x (part ∷ parts) = (x ∷ part) ∷ parts

-- `split(".")`
unfoldable pub split : List ℕ → List (List ℕ)
split [] = [] ∷ []
split (x ∷ xs) = let rest = split xs in if x == dot then [] ∷ rest else cons_first x rest

unfoldable pub same_units : List ℕ → List ℕ → Bool
same_units [] [] = true
same_units (x ∷ xs) (y ∷ ys) = (x == y) && same_units xs ys
same_units _ _ = false

-- The first secret of the environment that is set and not empty.
abbrev pub or_next : Option String → Option String → Option String
or_next none next = next
or_next (some s) next = some s

unfoldable pub share_secret : Option String → Option String → Option String → Option String
share_secret share jwt auth =
    or_next (truthy_text share) (or_next (truthy_text jwt) (truthy_text auth))

-- What Node.js does: the HMAC of a text under a secret, the two encodings of bytes, the decoding
-- of one, and the two directions of JSON. `parse` gives the `exp` of an object, and is `none` where
-- `JSON.parse` throws.
pub record Codec : Type 0 where
  pub hmac : String → List ℕ → List ℕ
  pub base64 : List ℕ → List ℕ
  pub base64url : List ℕ → List ℕ
  pub from_base64url : List ℕ → List ℕ
  pub header_json : List ℕ
  pub print : Claims → List ℕ
  pub parse : List ℕ → Option (Option ℕ)

-- `payload.exp && payload.exp < now`
unfoldable pub is_expired : Option ℕ → ℕ → Bool
is_expired none now = false
is_expired (some zero) now = false
is_expired (some (suc n)) now = ltb (suc n) now

unfoldable pub malformed_token : Error
malformed_token = create_api_error invalid_token "Invalid token format" (some 400) no_meta

unfoldable pub forged_token : Error
forged_token = create_api_error invalid_token "Invalid or expired share link" (some 400) no_meta

unfoldable pub outdated_token : Error
outdated_token = create_api_error expired_token "This share link has expired." (some 410) no_meta

unfoldable pub no_secret : Error
no_secret = create_api_error missing_secret "Share feature unavailable" (some 503) no_meta

module _ (C : Codec) where
  unfoldable pub signed_part : Claims → List ℕ
  signed_part claims =
      joined_by_dot (base64_url C.base64 C.header_json) (base64_url C.base64 (C.print claims))

  unfoldable pub create_share_token : Claims → String → List ℕ
  create_share_token claims secret =
      joined_by_dot (signed_part claims) (base64_url C.base64 (C.hmac secret (signed_part claims)))

  unfoldable pub expected_signature : String → List ℕ → List ℕ → List ℕ
  expected_signature secret header payload =
      C.base64url (C.hmac secret (joined_by_dot header payload))

module _ {S : Type 0} where
  unfoldable pub check_expiry : Option (Option ℕ) → Exec S (Unit {0})
  check_expiry none = throw (failure "SyntaxError")
  check_expiry (some exp) = do
    now ← date_now
    if is_expired exp (now / 1000) then throw outdated_token else pure tt

module _ {S : Type 0} (C : Codec) where
  unfoldable pub check_signature : String → List ℕ → List ℕ → List ℕ → Exec S (Unit {0})
  check_signature secret header payload signature =
      if same_units signature (expected_signature C secret header payload)
      then check_expiry (C.parse (C.from_base64url payload))
      else throw forged_token

  unfoldable pub check_parts : Option String → List ℕ → List ℕ → List ℕ → Exec S (Unit {0})
  check_parts none header payload signature = throw no_secret
  check_parts (some secret) header payload signature =
      check_signature secret header payload signature

  unfoldable pub check_split : Option String → List (List ℕ) → Exec S (Unit {0})
  check_split secret (header ∷ payload ∷ signature ∷ []) =
      check_parts secret header payload signature
  check_split secret _ = throw malformed_token

  -- from the test of the token's format to that of its expiry
  unfoldable pub check_token : Option String → List ℕ → Exec S (Unit {0})
  check_token secret token = check_split secret (split token)
