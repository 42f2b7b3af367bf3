-- ===== src/Routes/Share/Signed.antt =====
-- A share link that was created, and the links that are opened.
use brain_mate.Common.{
  ℕ, zero, suc, String, ◌≡◌, refl, sym, ap, ◌∙◌, ◌/◌, ◌+◌, ◌<◌, false, Option, none, some, List, [],
  ◌∷◌, arith, ltb, if◌then◌else◌, Bool-cases, inl, inr,
}
use brain_mate.Redis.{Redis}
use brain_mate.Exec.{World, Exec, Result, ok, err, date_now, ◌>>=◌}
use brain_mate.Exec.Keeps.{date_now_reply}
use brain_mate.Exec.Ensures.{
  resume-ok, Ensures, Returned, Returned-ok, Ensures-throw, Ensures-if, Ensures-bind, Ensures-then,
}
use brain_mate.Routes.Share.Token.{
  Claims, Codec, base64_url, joined_by_dot, split, same_units, is_expired, signed_part,
  create_share_token, expected_signature, check_expiry, check_signature, check_parts, check_split,
  check_token, outdated_token, forged_token,
}
use brain_mate.Routes.Share.Token.Parts.{
  has_dot, joined, split-whole, split-joined, joined_by_dot_assoc, joined-split, same_units_refl,
  same_units→≡,
}
use brain_mate.Routes.Share.Create.{ShareInput, claims_of}
use brain_mate.Routes.Share.View.{
  PublicShare, PublicTables, check_public_share_rate_limit, load_share, view_checked, view_share,
}

-- What Node.js documents: "base64url" is "base64" in the other alphabet and without the padding,
-- it is decoded to the bytes, and has no dot; JSON is parsed to what it was printed from.
pub record IsCodec (C : Codec) : Type 0 where
  pub same_encoding : (bytes : List ℕ) → base64_url C.base64 bytes ≡ C.base64url bytes
  pub decoded : (bytes : List ℕ) → C.from_base64url (C.base64url bytes) ≡ bytes
  pub no_dot : (bytes : List ℕ) → has_dot (C.base64url bytes) ≡ false
  pub parsed : (claims : Claims) → C.parse (C.print claims) ≡ some (some claims.exp)

-- a token whose last part is the signature of the first two under the secret
pub record IsSigned (C : Codec) (secret : Option String) (token : List ℕ) : Type 0 where
  pub key : String
  pub header : List ℕ
  pub payload : List ℕ
  pub known : secret ≡ some key
  pub parts :
      token
      ≡ joined_by_dot
          (joined_by_dot header payload)
          (C.base64url (C.hmac key (joined_by_dot header payload)))

-- What is known whatever an action does, and what the first of two actions makes known.
known-Returned : {S A Q : Type 0} (x : Result A × World S) → Q → Returned (λ _ _. Q) x
known-Returned (ok a, w) q = q
known-Returned (err e, w) q = tt

module _ {S A : Type 0} {P : World S → Type 0} {Q : Type 0} where
  Ensures-known : (m : Exec S A) → Q → Ensures P (λ _ _. Q) m
  Ensures-known m q = record { at = λ w p. known-Returned (m w) q }

  Ensures-first :
      {B : Type 0} (m : Exec S B) (f : B → Exec S A)
      → Ensures P (λ _ _. Q) m
      → Ensures P (λ _ _. Q) (m >>= f)
  Ensures-first m f h = Ensures-then m f h (λ b. record { at = λ w q. known-Returned (f b w) q })

module _ {S : Type 0} (C : Codec) where
  check_signature-IsSigned :
      (key : String) (header payload signature token : List ℕ)
      → token ≡ joined_by_dot (joined_by_dot header payload) signature
      → Ensures {S = S}
          (λ _. Unit)
          (λ _ _. IsSigned C (some key) token)
          (check_signature C key header payload signature)
  unfolding check_signature expected_signature
  check_signature-IsSigned key header payload signature token e =
      let expected = C.base64url (C.hmac key (joined_by_dot header payload)) in
      elim (Bool-cases (same_units signature expected)) [
        | inl same ↦ Ensures-known _ (record {
          key = key;
          header = header;
          payload = payload;
          known = refl;
          parts =
              e
              ∙ ap (joined_by_dot (joined_by_dot header payload))
                  (same_units→≡ signature expected same);
        })
        | inr other ↦ rw (other) (Ensures-throw forged_token)
      ]

  check_parts-IsSigned :
      (secret : Option String) (header payload signature token : List ℕ)
      → token ≡ joined_by_dot (joined_by_dot header payload) signature
      → Ensures {S = S}
          (λ _. Unit)
          (λ _ _. IsSigned C secret token)
          (check_parts C secret header payload signature)
  unfolding check_parts
  check_parts-IsSigned none header payload signature token e = Ensures-throw _
  check_parts-IsSigned (some key) header payload signature token e =
      check_signature-IsSigned key header payload signature token e

  check_split-IsSigned :
      (secret : Option String) (parts : List (List ℕ)) (token : List ℕ)
      → joined parts ≡ token
      → Ensures {S = S} (λ _. Unit) (λ _ _. IsSigned C secret token) (check_split C secret parts)
  unfolding check_split joined joined_by_dot
  check_split-IsSigned secret [] token e = Ensures-throw _
  check_split-IsSigned secret (h ∷ []) token e = Ensures-throw _
  check_split-IsSigned secret (h ∷ p ∷ []) token e = Ensures-throw _
  check_split-IsSigned secret (h ∷ p ∷ s ∷ []) token e =
      check_parts-IsSigned secret h p s token (sym e ∙ sym (joined_by_dot_assoc h p s))
  check_split-IsSigned secret (h ∷ p ∷ s ∷ t ∷ ts) token e = Ensures-throw _

  check_token-IsSigned :
      (secret : Option String) (token : List ℕ)
      → Ensures {S = S} (λ _. Unit) (λ _ _. IsSigned C secret token) (check_token C secret token)
  unfolding check_token
  check_token-IsSigned secret token =
      check_split-IsSigned secret (split token) token (joined-split token)

is_expired-later : (exp now : ℕ) → 0 < exp → is_expired (some exp) now ≡ ltb exp now
unfolding is_expired
is_expired-later zero now h = absurd (omega (arith, h))
is_expired-later (suc n) now h = refl

module _ (C : Codec) (laws : IsCodec C) where
  split-token :
      (claims : Claims) (key : String)
      → let header = C.base64url C.header_json in
        let payload = C.base64url (C.print claims) in
        split (create_share_token C claims key)
        ≡ header ∷ payload ∷ expected_signature C key header payload ∷ []
  unfolding create_share_token signed_part expected_signature
  split-token claims key =
      let header = C.base64url C.header_json in
      let payload = C.base64url (C.print claims) in
      let signature = C.base64url (C.hmac key (joined_by_dot header payload)) in
      rw
        (
          laws.same_encoding C.header_json,
          laws.same_encoding (C.print claims),
          laws.same_encoding (C.hmac key (joined_by_dot header payload)),
          joined_by_dot_assoc header payload signature,
          split-joined header (joined_by_dot payload signature) (laws.no_dot C.header_json),
          split-joined payload signature (laws.no_dot (C.print claims)),
          split-whole signature (laws.no_dot (C.hmac key (joined_by_dot header payload))),
        )
        refl

  check-created :
      {S : Type 0} (claims : Claims) (key : String) (w : World S)
      → check_token C (some key) (create_share_token C claims key) w
        ≡ check_expiry (some (some claims.exp)) w
  unfolding check_token check_split check_parts check_signature
  check-created claims key w =
      let header = C.base64url C.header_json in
      let payload = C.base64url (C.print claims) in
      rw
        (
          split-token claims key,
          same_units_refl (expected_signature C key header payload),
          laws.decoded (C.print claims),
          laws.parsed claims,
        )
        refl

expiry-later :
    {S : Type 0} (exp : ℕ) (w : World S)
    → 0 < exp
    → check_expiry (some (some exp)) w ≡ (
      if ltb exp ((date_now w).1.clock / 1000) then err outdated_token else ok tt,
      (date_now w).1,
    )
unfolding check_expiry
expiry-later exp w h =
    let later = is_expired-later exp ((date_now w).1.clock / 1000) h in
    resume-ok (date_now w) (date_now w).1.clock _ (date_now_reply w).0
    ∙ elim (Bool-cases (ltb exp ((date_now w).1.clock / 1000))) [
      | inl y ↦ rw (later, y) refl
      | inr n ↦ rw (later, n) refl
    ]

module _ {S : Type 0} (R : Redis S) (C : Codec) (secret app_url : Option String)
    (db : PublicTables S) where
  view-IsSigned :
      (ip : Option String) (token : List ℕ)
      → Ensures {S = S}
          (λ _. Unit)
          (λ _ _. IsSigned C secret token)
          (view_share R C secret app_url db ip token)
  unfolding view_share view_checked
  view-IsSigned ip token =
      Ensures-bind (check_public_share_rate_limit R _) _ (record { at = λ w h. tt })
        (λ rate.
          Ensures-if rate.allowed _ _
            (Ensures-first (check_token C secret token) (λ _. load_share db app_url token)
              (check_token-IsSigned C secret token))
            (Ensures-throw _))

  -- Whatever Redis and the database do, a share is only shown for a token whose last part is the
  -- signature of the rest under the secret of the environment.
  pub view_share-IsSigned :
      (ip : Option String) (token : List ℕ) (shown : PublicShare) (w : World S)
      → (view_share R C secret app_url db ip token w).0 ≡ ok shown
      → IsSigned C secret token
  view_share-IsSigned ip token shown w h =
      Returned-ok (λ _ _. IsSigned C secret token) (view_share R C secret app_url db ip token w)
        shown ((view-IsSigned ip token).at w tt) h

  -- A token that the share route makes at the second `issued` passes the checks of the public route
  -- under the same secret up to 604,800 seconds later, where the share is looked up, and has
  -- expired after that. Node.js's encodings are as documented.
  pub shared_then_shown :
      (laws : IsCodec C) (key user_id jti : String) (input : ShareInput) (issued : ℕ) (w : World S)
      → secret ≡ some key
      → view_checked R C secret app_url db
          (create_share_token C (claims_of user_id input issued jti) key)
          w
        ≡ (if ltb (issued + 604800) ((date_now w).1.clock / 1000)
            then (err outdated_token, (date_now w).1)
            else load_share db app_url
                (create_share_token C (claims_of user_id input issued jti) key)
                (date_now w).1)
  unfolding view_checked claims_of
  shared_then_shown laws key user_id jti input issued w h =
      let claims = claims_of user_id input issued jti in
      let checked =
        check-created C laws claims key w ∙ expiry-later (issued + 604800) w (omega arith) in
      elim (Bool-cases (ltb (issued + 604800) ((date_now w).1.clock / 1000))) [
        | inl y ↦ rw (h, checked, y) refl
        | inr n ↦ rw (h, checked, n) refl
      ]
