-- ===== src/Samples.antt =====
-- Concrete values for the tests: a submission, an employee, a request, and a runtime whose numbers are
-- whole ones.
use corncrake.Prelude.{
  ℕ, ◌≡◌, refl, String, Bool, true, false, Option, none, some, [], ◌∷◌, ◌==◌, arith, ltb, eqb,
  if◌then◌else◌,
}
use corncrake.Prelude.Int.{pos}
use corncrake.GoMap
use corncrake.Models.{Time, RawMessage, SubmissionRecord, ClientIdentity}
use corncrake.Store.{CreateParams}
use corncrake.Store.Memory.{new_record}
use corncrake.Tenant.{Registry}
use corncrake.Http.{Request, read}
use corncrake.Handlers.Submissions.{SubmissionMeta}
use corncrake.Auth.Tokens.{rsa, Key, Claims, text_claim, Parsed, accepted, rejected, Jwt, Verifies}
use corncrake.Ehecs.Types.{Runtime, IsTotal, Employee, SubmissionBody, Decoded, decoded, malformed}
use corncrake.Ehecs.Lookups.{ehecs}

abbrev pub client : ClientIdentity
client = record {
  holding_number = "E1";
  software_used = "pay";
  software_version = "2";
  agent_id = "";
}

abbrev pub body : RawMessage
body = 123 ∷ 125 ∷ []

abbrev pub params : CreateParams
params = record {
  tenant_id = "ehecs";
  submission_id = "S1";
  run_reference = "R1";
  holding_number = "E1";
  tax_year = pos 2024;
  quarter = pos 2;
  return_type = "ORIGINAL";
  body = body;
  item_count = pos 1;
  warnings = [];
  client = client;
  contact_email = "a@b.ie";
  contact_phone = "1";
  comments = "";
}

-- The same id and run, from another holding.
abbrev pub other_params : CreateParams
other_params = record params { holding_number = "E2"; item_count = pos 5 }

abbrev pub stored : SubmissionRecord
stored = new_record 100 params

abbrev pub employee : Employee ℕ
employee = record {
  ppsn = "1234567TW";
  employment_id = "P1";
  occupation_code = pos 2;
  employment_type = "FULL_TIME";
  gross_earnings = 9_000;
  basic_pay = 8_000;
  overtime_pay = 500;
  basic_hours = 480;
  overtime_hours = 20;
  employer_prsi = 900;
  bonuses = 0;
  allowances = 0;
  shift_premiums = 0;
  other_subsidies = 0;
}

abbrev pub submission : SubmissionBody ℕ
submission = record {
  holding_number = "E1";
  tax_year = pos 2024;
  quarter = pos 2;
  return_type = "ORIGINAL";
  employees = employee ∷ [];
  contact_email = "a@b.ie";
  contact_phone = "1";
  comments = "";
}

abbrev pub unmarshal : RawMessage → Decoded (SubmissionBody ℕ)
unmarshal [] = malformed "unexpected end of JSON input"
unmarshal (c ∷ raw) = decoded submission

abbrev pub runtime : Runtime ℕ
runtime = record {
  literal = λ n. n;
  lt = ltb;
  eq = eqb;
  format = λ n x. "0";
  unmarshal = unmarshal;
  quote = λ s. s;
}

pub runtime-IsTotal : IsTotal runtime
runtime-IsTotal = record {
  trichotomy = λ x y. ground arith;
  eq_sym = λ x y e. ground arith;
  exclusive = λ x y e. ground arith;
}

abbrev pub registry : Registry
registry = GoMap.put GoMap.empty "ehecs" (ehecs (λ c. c) runtime)

abbrev pub unmarshal_meta : RawMessage → SubmissionMeta
unmarshal_meta raw = record {
  holding_number = "E1";
  return_type = "ORIGINAL";
  contact_email = "a@b.ie";
  contact_phone = "1";
  comments = "";
}

abbrev pub url_param : String → String
url_param key =
    if key == "tenantID"
    then "ehecs"
    else if key == "holdingNumber"
    then "E1"
    else if key == "runReference"
    then "R1"
    else if key == "submissionId"
    then "S1"
    else if key == "taxYear"
    then "2024"
    else if key == "quarter"
    then "2"
    else ""

abbrev pub request : Request
request = record {
  method = "POST";
  path = "/api/v1/ehecs/submissions";
  remote_addr = "10.0.0.1:5000";
  header = λ key. "";
  query = λ key. "";
  url_param = url_param;
  body = read body;
  client = some client;
}

-- The claims of the token.
abbrev pub claims : Claims
claims = GoMap.put (GoMap.put GoMap.empty "jti" (text_claim "j1")) "holdingNumber" (text_claim "E1")

abbrev parse_with : Bool → Option (Key ℕ) → Parsed
parse_with true (some k) = accepted claims true
parse_with true none = rejected "signature is invalid"
parse_with false o = rejected "token is malformed"

-- A parser that takes one token, signed by RS256.
abbrev pub jwt : Jwt ℕ
jwt = record {
  parse_with_claims = λ token key_for. parse_with (token == "good") (key_for (rsa "RS256"));
}

parse_with-checked :
    (b : Bool) (o : Option (Key ℕ)) (c : Claims) (valid : Bool)
    → parse_with b o ≡ accepted c valid
    → (k : Key ℕ) × (o ≡ some k) × (b ≡ true)
parse_with-checked true (some k) c valid h = (k, refl, refl)
parse_with-checked true none c valid h = cc
parse_with-checked false o c valid h = cc

pub jwt-Verifies : Verifies jwt
jwt-Verifies = record {
  method_of = λ token. some (rsa "RS256");
  is_signed = λ m k token. token == "good";
  checked = λ token key_for c valid h.
      let (k, key, good) = parse_with-checked (token == "good") (key_for (rsa "RS256")) c valid h in
      (rsa "RS256", k, refl, key, good);
}

abbrev unexpired : Bool → Parsed → Parsed
unexpired true p = p
unexpired false p = rejected "token is expired"

unexpired-accepted :
    (b : Bool) (p : Parsed) (c : Claims) (valid : Bool)
    → unexpired b p ≡ accepted c valid
    → p ≡ accepted c valid
unexpired-accepted true p c valid h = h
unexpired-accepted false p c valid h = cc

-- The token expires a minute after the start of the clock.
abbrev pub jwt_at : Time → Jwt ℕ
jwt_at now = record {
  parse_with_claims =
      λ token key_for. unexpired (ltb now 60_000_000_000) (jwt.parse_with_claims token key_for);
}

pub jwt_at-Verifies : (now : Time) → Verifies (jwt_at now)
jwt_at-Verifies now = record {
  method_of = jwt-Verifies.method_of;
  is_signed = jwt-Verifies.is_signed;
  checked = λ token key_for c valid h.
      jwt-Verifies.checked token key_for c valid (
        unexpired-accepted (ltb now 60_000_000_000) (jwt.parse_with_claims token key_for) c valid
          h);
}
