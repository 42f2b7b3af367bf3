-- ===== src/Routes/Share/Tests.antt =====
-- Share links over an encoding that adds 1,000 to each unit.
use brain_mate.Exec.{is_circuit_open, command}
use brain_mate.Commands.{incr, expire}
use brain_mate.Queue.Keys.{ns}
use brain_mate.Queue.RateLimit.{verdict}
use brain_mate.Routes.Completion.{text_or}
use brain_mate.Routes.Share.Token.{
  check_token, check_split, check_parts, check_signature, check_expiry, signed_part, split,
  joined_by_dot, same_units, expected_signature, is_expired,
}
use brain_mate.Routes.Share.View.{before_text, public_share_key, check_public_share_rate_limit}
use brain_mate.Common.{
  ℕ, ◌≡◌, refl, ◌+◌, ◌-◌, ◌/◌, false, Option, none, some, List, [], ◌∷◌, arith, ◌==◌, ltb,
  if◌then◌else◌,
}
use brain_mate.Redis.Memory.{Memory, memory, empty}
use brain_mate.Exec.{World, ok, err, pure, date_now}
use brain_mate.Routes.Share.Token.{
  Codec, base64_url, strip_end, url_unit, create_share_token, outdated_token,
}
use brain_mate.Routes.Share.Token.Parts.{has_dot}
use brain_mate.Routes.Share.Create.{ShareInput, claims_of}
use brain_mate.Routes.Share.View.{PublicRow, PublicTables, load_share, view_checked, view_share}
use brain_mate.Routes.Share.Signed.{IsCodec, IsSigned, shared_then_shown, view_share-IsSigned}

abbrev shifted : List ℕ → List ℕ
shifted [] = []
shifted (n ∷ ns) = (n + 1000) ∷ shifted ns

abbrev unshifted : List ℕ → List ℕ
unshifted [] = []
unshifted (n ∷ ns) = (n - 1000) ∷ unshifted ns

abbrev parse_number : List ℕ → Option (Option ℕ)
parse_number (n ∷ []) = some (some n)
parse_number _ = none

abbrev codec : Codec
codec = record {
  hmac = λ key units. 7 ∷ units;
  base64 = shifted;
  base64url = shifted;
  from_base64url = unshifted;
  header_json = 1 ∷ 2 ∷ [];
  print = λ claims. claims.exp ∷ [];
  parse = parse_number;
}

url_unit-shifted : (n : ℕ) → url_unit (n + 1000) ≡ n + 1000
unfolding url_unit
url_unit-shifted n = ground arith

shifted-encoding : (ns : List ℕ) → base64_url shifted ns ≡ shifted ns
unfolding base64_url strip_end
shifted-encoding [] = refl
shifted-encoding (n ∷ ns) =
    let other : (n + 1000 == 61) ≡ false = ground arith in
    rw (url_unit-shifted n, other, shifted-encoding ns) refl

shifted-decoded : (ns : List ℕ) → unshifted (shifted ns) ≡ ns
shifted-decoded [] = refl
shifted-decoded (n ∷ ns) =
    let back : n + 1000 - 1000 ≡ n = omega arith in rw (back, shifted-decoded ns) refl

shifted-has_dot : (ns : List ℕ) → has_dot (shifted ns) ≡ false
unfolding has_dot
shifted-has_dot [] = refl
shifted-has_dot (n ∷ ns) =
    let other : (n + 1000 == 46) ≡ false = ground arith in rw (other, shifted-has_dot ns) refl

codec-IsCodec : IsCodec codec
codec-IsCodec = record {
  same_encoding = shifted-encoding;
  decoded = shifted-decoded;
  no_dot = shifted-has_dot;
  parsed = λ claims. refl;
}

-- two days after the epoch, with a wire that answers
abbrev later : World Memory
later = record {
  redis = empty;
  wire = [];
  clock = 172800000;
  ticks = [];
  replies = [];
  sent = [];
  circuit = record { open_until = 0; failures = 0 };
  window = record { sec = 0; count = 0 };
  unusable = none;
  breaker = record { consecutive_errors = 0; open_until = 0; total_errors = 0; total_connects = 1 };
}

abbrev row : PublicRow
row = record {
  after_text = "Dear all";
  mode = "email";
  tone = "Friendly";
  scores = none;
  created_at = "then";
  expires_at = "later";
}

abbrev tables : PublicTables Memory
tables = record {
  select_public = λ token. pure (some row);
  select_link = λ token. pure (some "j1");
  select_message = λ job_id. pure (some "m1");
  select_content = λ message_id. pure (some "dear all");
}

abbrev input : ShareInput
input = record { chat_id = "c1"; job_id = "j1" }

abbrev link : List ℕ
link = create_share_token codec (claims_of "u1" input 100 "id") "key"

shared_then_shown_example : view_checked memory codec (some "key") none tables link later ≡ (
    if ltb (100 + 604800) ((date_now later).1.clock / 1000)
    then (err outdated_token, (date_now later).1)
    else load_share tables none link (date_now later).1)
shared_then_shown_example =
    shared_then_shown memory codec (some "key") none tables codec-IsCodec "key" "u1" "id" input 100
      later refl

link_shown :
    (view_share memory codec (some "key") none tables none link later).0
    ≡ ok (record { before = "dear all"; after = row; app_url = "https://brainmateai.com" })
unfolding view_share view_checked load_share check_public_share_rate_limit check_token check_split
    check_parts check_signature check_expiry create_share_token signed_part claims_of base64_url
    strip_end url_unit split joined_by_dot same_units expected_signature is_expired before_text
    text_or public_share_key ns verdict incr expire command date_now is_circuit_open memory
link_shown = refl

view_share-IsSigned_example : IsSigned codec (some "key") link
view_share-IsSigned_example =
    view_share-IsSigned memory codec (some "key") none tables none link
      (record { before = "dear all"; after = row; app_url = "https://brainmateai.com" }) later
      link_shown
