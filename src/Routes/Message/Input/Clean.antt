-- ===== src/Routes/Message/Input/Clean.antt =====
-- The input that `MessageSchema` admits, and the text that `sanitizeInput` keeps of it.
use brain_mate.Common.{
  ℕ, String, ◌≡◌, refl, ◌≤◌, Bool, true, Option, none, some, List, length, arith,
}
use mathlib.Core.Path.{subst}
use mathlib.Core.Option.{some-injective}
use brain_mate.Routes.Message.Input.{
  Value, text, whole, flag, other, Body, MessageInput, tones, modes, languages, one_of, ◌then?◌,
  parse_enum, parse_enum_or, parse_intensity, parse_quick, parse_uuid, parse_text, parse_message,
}

-- Every field is what the schema says.
pub record IsValid (is_uuid : String → Bool) (units : String → List ℕ) (m : MessageInput)
    : Type 0 where
  pub chat : is_uuid m.chat_id ≡ true
  pub short : length (units m.text) ≤ 10000
  pub present : 1 ≤ length (units m.text)
  pub tone : one_of m.tone tones ≡ true
  pub mode : one_of m.mode modes ≡ true
  pub language : one_of m.output_language languages ≡ true
  pub low : 1 ≤ m.intensity
  pub high : m.intensity ≤ 5

module _ (is_uuid : String → Bool) (units : String → List ℕ) where
  uuid_lem : (v : Option Value) (s : String) → parse_uuid is_uuid v ≡ some s → is_uuid s ≡ true
  unfolding parse_uuid
  uuid_lem none s h = absurd (cc)
  uuid_lem (some (text t)) s h = ground (arith, h)
  uuid_lem (some (whole n)) s h = absurd (cc)
  uuid_lem (some (flag b)) s h = absurd (cc)
  uuid_lem (some other) s h = absurd (cc)

  text_lem :
      (v : Option Value) (s : String)
      → parse_text units v ≡ some s
      → (1 ≤ length (units s)) × (length (units s) ≤ 10000)
  unfolding parse_text
  text_lem none s h = absurd (cc)
  text_lem (some (text t)) s h = ground (arith, h)
  text_lem (some (whole n)) s h = absurd (cc)
  text_lem (some (flag b)) s h = absurd (cc)
  text_lem (some other) s h = absurd (cc)

  enum_lem :
      (names : List String) (v : Option Value) (s : String)
      → parse_enum names v ≡ some s
      → one_of s names ≡ true
  unfolding parse_enum
  enum_lem names none s h = absurd (cc)
  enum_lem names (some (text t)) s h = ground (arith, h)
  enum_lem names (some (whole n)) s h = absurd (cc)
  enum_lem names (some (flag b)) s h = absurd (cc)
  enum_lem names (some other) s h = absurd (cc)

  intensity_lem : (v : Option Value) (n : ℕ) → parse_intensity v ≡ some n → (1 ≤ n) × (n ≤ 5)
  unfolding parse_intensity
  intensity_lem none n h = ground (arith, h)
  intensity_lem (some (text t)) n h = absurd (cc)
  intensity_lem (some (whole k)) n h = ground (arith, h)
  intensity_lem (some (flag b)) n h = absurd (cc)
  intensity_lem (some other) n h = absurd (cc)

  language_lem :
      (v : Option Value) (s : String)
      → parse_enum_or "en" languages v ≡ some s
      → one_of s languages ≡ true
  unfolding parse_enum_or
  language_lem none s h = let same : "en" ≡ s = cc in rw⁻¹ same refl
  language_lem (some v) s h = enum_lem languages (some v) s h

-- the value, where there is one, has the property
record Holds {A : Type 0} (P : A → Type 0) (o : Option A) : Type 0 where
  at : (a : A) → o ≡ some a → P a

then-Holds :
    {A B : Type 0} {P : B → Type 0} (o : Option A) (f : A → Option B)
    → ((a : A) → o ≡ some a → Holds P (f a))
    → Holds P (o then? f)
then-Holds none f k = record { at = λ b h. absurd (cc) }
then-Holds (some a) f k = k a refl

module _ (is_uuid : String → Bool) (units : String → List ℕ) where
  parse-Holds : (body : Body) → Holds (IsValid is_uuid units) (parse_message is_uuid units body)
  unfolding parse_message
  parse-Holds body = then-Holds (parse_uuid is_uuid (body "chatId")) _ (λ chat chat_eq.
      then-Holds (parse_text units (body "text")) _ (λ content content_eq.
        then-Holds (parse_enum tones (body "tone")) _ (λ tone tone_eq.
          then-Holds (parse_enum modes (body "mode")) _ (λ mode mode_eq.
            then-Holds (parse_enum_or "en" languages (body "output_language")) _
              (λ language language_eq.
                then-Holds (parse_intensity (body "intensity")) _ (λ intensity intensity_eq.
                  then-Holds (parse_quick (body "quick")) _ (λ quick quick_eq. record {
                    at = λ made made_eq.
                        subst (IsValid is_uuid units) (some-injective _ _ made_eq) (record {
                          chat = uuid_lem is_uuid units (body "chatId") chat chat_eq;
                          short = (text_lem is_uuid units (body "text") content content_eq).1;
                          present = (text_lem is_uuid units (body "text") content content_eq).0;
                          tone = enum_lem is_uuid units tones (body "tone") tone tone_eq;
                          mode = enum_lem is_uuid units modes (body "mode") mode mode_eq;
                          language =
                              language_lem is_uuid units (body "output_language") language
                                language_eq;
                          low =
                              (intensity_lem is_uuid units (body "intensity") intensity
                                intensity_eq).0;
                          high =
                              (intensity_lem is_uuid units (body "intensity") intensity
                                intensity_eq).1;
                        });
                  })))))))

  -- A message that passes the validation is one that the schema describes: its chat is a UUID, its
  -- text has 1 to 10,000 units, its tone, mode and language are in the lists, and its intensity is
  -- from 1 to 5, whatever the body of the request held and left out.
  pub parse_message-IsValid :
      (body : Body) (m : MessageInput)
      → parse_message is_uuid units body ≡ some m
      → IsValid is_uuid units m
  parse_message-IsValid body m h = (parse-Holds body).at m h
