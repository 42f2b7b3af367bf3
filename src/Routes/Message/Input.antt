-- ===== src/Routes/Message/Input.antt =====
-- What POST of app/api/writeright/message/route.ts takes: `MessageSchema` of
-- lib/writeright-validators.ts, `sanitizeInput` and `normalizeIdempotencyKey`. A JavaScript text
-- is the list of its UTF-16 code units where its characters matter.
pub mod Clean
use brain_mate.Common.{
  ℕ, zero, suc, String, ◌+◌, Bool, true, false, not, ◌&&◌, ◌||◌, Option, none, some, List, [], ◌∷◌,
  ◌++◌, length, take, str_eq, if◌then◌else◌, ◌==◌, leb,
}

-- A value of a JSON object; `other` is null, a list, an object, or a number that is no natural.
pub data Value : Type 0 where
  text : String → Value
  whole : ℕ → Value
  flag : Bool → Value
  other : Value

-- a JSON object, whose keys are distinct; `none` is a missing key
abbrev pub Body : Type 0
Body = String → Option Value

pub record MessageInput : Type 0 where
  pub chat_id : String
  pub text : String
  pub tone : String
  pub mode : String
  pub output_language : String
  pub intensity : ℕ
  pub quick : Bool

abbrev pub max_text_length : ℕ
max_text_length = 10000

abbrev pub idempotency_key_max_length : ℕ
idempotency_key_max_length = 120

abbrev pub tones : List String
tones = "Professional" ∷ "Friendly" ∷ "Concise" ∷ "Academic" ∷ "Assertive" ∷ []

abbrev pub modes : List String
modes = "email" ∷ "paragraph" ∷ "linkedin" ∷ "whatsapp" ∷ []

abbrev pub languages : List String
languages = "en" ∷ "hindi" ∷ "tamil" ∷ "marathi" ∷ "bengali" ∷ "telugu" ∷ []

abbrev pub one_of : String → List String → Bool
one_of s [] = false
one_of s (t ∷ ts) = str_eq s t || one_of s ts

infixl 5 ◌then?◌
abbrev pub ◌then?◌ : {A B : Type 0} → Option A → (A → Option B) → Option B
none then? f = none
some a then? f = f a

-- `z.enum(names)` and `z.enum(names).optional().default(d)`
unfoldable pub parse_enum : List String → Option Value → Option String
parse_enum names (some (text s)) = if one_of s names then some s else none
parse_enum names _ = none

unfoldable pub parse_enum_or : String → List String → Option Value → Option String
unfolding parse_enum
parse_enum_or d names none = some d
parse_enum_or d names v = parse_enum names v

-- z.number().int().min(1).max(5).optional().default(3)
unfoldable pub parse_intensity : Option Value → Option ℕ
parse_intensity none = some 3
parse_intensity (some (whole n)) = if leb 1 n && leb n 5 then some n else none
parse_intensity _ = none

-- z.boolean().optional().default(false)
unfoldable pub parse_quick : Option Value → Option Bool
parse_quick none = some false
parse_quick (some (flag b)) = some b
parse_quick _ = none

-- z.string().uuid()
unfoldable pub parse_uuid : (String → Bool) → Option Value → Option String
parse_uuid is_uuid (some (text s)) = if is_uuid s then some s else none
parse_uuid is_uuid _ = none

-- `units` gives the code units of a text.
unfoldable pub parse_text : (String → List ℕ) → Option Value → Option String
parse_text units (some (text s)) =
    if leb 1 (length (units s)) && leb (length (units s)) 10000 then some s else none
parse_text units _ = none

-- `MessageSchema.safeParse`: the data, or `none` where there are issues
unfoldable pub parse_message : (String → Bool) → (String → List ℕ) → Body → Option MessageInput
unfolding parse_uuid parse_text parse_enum parse_enum_or parse_intensity parse_quick
parse_message is_uuid units body = parse_uuid is_uuid (body "chatId") then? λ chat_id.
    parse_text units (body "text") then? λ content. parse_enum tones (body "tone") then? λ tone.
    parse_enum modes (body "mode") then? λ mode.
    parse_enum_or "en" languages (body "output_language") then? λ language.
    parse_intensity (body "intensity") then? λ intensity. parse_quick (body "quick") then? λ quick.
    some (record {
      chat_id = chat_id;
      text = content;
      tone = tone;
      mode = mode;
      output_language = language;
      intensity = intensity;
      quick = quick;
    })

-- [\x00-\x08\x0B\x0C\x0E-\x1F\x7F]
unfoldable pub is_control : ℕ → Bool
is_control u = leb u 8 || u == 11 || u == 12 || (leb 14 u && leb u 31) || u == 127

unfoldable pub drop_controls : List ℕ → List ℕ
drop_controls [] = []
drop_controls (u ∷ us) = if is_control u then drop_controls us else u ∷ drop_controls us

-- what `trim` takes for white space
unfoldable pub is_space : ℕ → Bool
is_space u =
    (leb 9 u && leb u 13)
    || u == 32
    || u == 160
    || u == 5760
    || (leb 8192 u && leb u 8202)
    || u == 8232
    || u == 8233
    || u == 8239
    || u == 8287
    || u == 12288
    || u == 65279

unfoldable pub trim_start : List ℕ → List ℕ
trim_start [] = []
trim_start (u ∷ us) = if is_space u then trim_start us else u ∷ us

abbrev pub reverse_onto : List ℕ → List ℕ → List ℕ
reverse_onto acc [] = acc
reverse_onto acc (u ∷ us) = reverse_onto (u ∷ acc) us

unfoldable pub trim : List ℕ → List ℕ
trim us = reverse_onto [] (trim_start (reverse_onto [] (trim_start us)))

-- `sanitizeInput`; `nfc` is the normalisation of Unicode's form C
unfoldable pub sanitize_input : (List ℕ → List ℕ) → List ℕ → List ℕ
unfolding drop_controls
sanitize_input nfc us = nfc (drop_controls (take max_text_length us))

-- `normalizeIdempotencyKey`
unfoldable pub normalize_idempotency_key : Option (List ℕ) → Option (List ℕ)
normalize_idempotency_key none = none
normalize_idempotency_key (some us) =
    let normalized = take idempotency_key_max_length (trim us) in
    if leb 1 (length normalized) then some normalized else none

abbrev pub starts : List ℕ → List ℕ → Bool
starts [] us = true
starts (p ∷ ps) [] = false
starts (p ∷ ps) (u ∷ us) = p == u && starts ps us

abbrev pub contains : List ℕ → List ℕ → Bool
contains ps [] = starts ps []
contains ps (u ∷ us) = starts ps (u ∷ us) || contains ps us

abbrev pub lower : ℕ → ℕ
lower u = if leb 65 u && leb u 90 then u + 32 else u

abbrev pub lower_all : List ℕ → List ℕ
lower_all [] = []
lower_all (u ∷ us) = lower u ∷ lower_all us

-- /gmail|email|mail|inbox/i
unfoldable pub has_gmail_ref : List ℕ → Bool
has_gmail_ref us =
    let low = lower_all us in
    contains (103 ∷ 109 ∷ 97 ∷ 105 ∷ 108 ∷ []) low
    || contains (101 ∷ 109 ∷ 97 ∷ 105 ∷ 108 ∷ []) low
    || contains (109 ∷ 97 ∷ 105 ∷ 108 ∷ []) low
    || contains (105 ∷ 110 ∷ 98 ∷ 111 ∷ 120 ∷ []) low
