-- ===== src/Report/Client.antt =====
-- internal/report/client.go: the requests to the server, and what may come back from them.
-- The packages that the client calls are the argument `lib`: parsing of URLs, JSON, HMAC, and HTTP.
-- The client's functions return the requests that they send next to their result.
pub mod Laws
pub mod Enrolled
use pulsitor_lan_agent.Base.{
  ℕ, zero, suc, ◌+◌, ◌-◌, ◌*◌, ◌/◌, ◌%◌, ◌^◌, ◌≤◌, ◌<◌, min, max, ◌≡◌, ◌≢◌, ◌↔◌, ◌⊎◌, inl, inr,
  refl, sym, ap, ap₂, subst, ◌∙◌, fun_ext, Bool, true, false, not, ◌&&◌, ◌||◌, Option, none, some,
  List, [], ◌∷◌, ◌++◌, map, arith, nat_beq, ltb, leb, if◌then◌else◌, ltb→lt, lt→ltb, leb→le, le→leb,
  leb_false→lt, ltb_false→le, nat_beq_iff, Bool-cases, if_both, Option-cases, is_some, &&-true,
  &&-intro, Eq, ◌==◌, nat_eq, list_beq, list_beq_iff, Text, text_eq, texts_eq, codes, beq_refl,
  beq→eq, beq_false→ne, ℤ, pos, negsuc, int_beq, int_beq_iff, int_eq, bits64, signed64, scale, Map,
  empty, flag, put, remove, put_self, put_ne, put_same, remove_ne, length, length-append, All, In,
  Distinct, keep, All_of_In, All-map, for_each, for_each-keeps, for_each-at, for_each-other, In-map,
  In-keep, keep-In, keep-true, keep-false, Distinct-keep, keep-absent, tests,
}
use pulsitor_lan_agent.Discover.Net.{Ip, v4, v6}
use pulsitor_lan_agent.Config.{NetText, Identity, Runtime, ValidateError, validate}
use pulsitor_lan_agent.Report.{Report}

-- `url.URL`; `has_user` says that `User` is not nil.
pub record Url : Type 0 where
  pub scheme : Text
  pub host : Text
  pub hostname : Text
  pub has_user : Bool
  pub path : Text
  pub raw_query : Text
  pub fragment : Text
  pub opaque_part : Text

pub record Request : Type 0 where
  pub method : Text
  pub url : Text
  pub headers : List (Text × Text)
  pub body : Text

-- The status and the bytes of a response, of which at most a MiB and one byte is read.
pub record Response : Type 0 where
  pub status : ℕ
  pub raw : Text

pub record Lib : Type 0 where
  pub net : NetText
  pub parse_url : Text → Option Url
  pub encode_report : Report → Option Text
  pub encode_token : Text → Text
  pub decode_identity : Text → Option Identity
  pub decode_config : Text → Option (Option Runtime)
  pub decode_failure : Text → Text × Text
  pub hmac_sha256 : Text → Text → Text
  pub send : Request → Option Response

pub data ClientError : Type 0 where
  invalid_url : ClientError
  not_bare : ClientError
  requires_https : ClientError
  missing_identity : ClientError
  no_identity : ClientError
  malformed : ClientError
  transport : ClientError
  too_long : ClientError
  server_error : ℕ → Text → Text → ClientError
  no_configuration : ClientError
  invalid_configuration : ValidateError → ClientError

pub data Outcome (A : Type 0) : Type 0 where
  ok : A → Outcome A
  error : ClientError → Outcome A

-- `net.IP.IsLoopback`: 127.0.0.0/8 and ::1.
pub is_loopback : Ip → Bool
is_loopback (v4 a) = a / 2 ^ 24 == 127
is_loopback (v6 a) = a == 1

pub loopback_name : Option Ip → Bool
unfolding is_loopback
loopback_name none = false
loopback_name (some ip) = is_loopback ip

-- The scheme, host and optional path of a URL, and nothing else.
pub is_bare : Url → Bool
is_bare u = not (
    u.host == []
    || u.has_user
    || not (u.raw_query == [])
    || not (u.fragment == [])
    || not (u.opaque_part == []))

abbrev pub newline : ℕ
newline = 10

-- `strings.ToUpper` on ASCII.
unfoldable pub upper : ℕ → ℕ
upper c = if leb 97 c && leb c 122 then c - 32 else c

unfoldable pub canonical : Text → Text → Text → Text → Text → Text
unfolding upper
canonical method path timestamp nonce body =
    timestamp
    ++ (newline ∷ nonce ++ (newline ∷ map upper method ++ (newline ∷ path ++ (newline ∷ body))))

hex_char : ℕ → ℕ
hex_char n = if ltb n 10 then 48 + n else 87 + n

-- `hex.EncodeToString`.
hex_encode : Text → Text
unfolding hex_char
hex_encode [] = []
hex_encode (b ∷ rest) = hex_char (b / 16) ∷ hex_char (b % 16) ∷ hex_encode rest

module _ (lib : Lib) where
  pub check_url : Option Url → Option ClientError
  unfolding is_bare loopback_name
  check_url none = some invalid_url
  check_url (some u) =
      if not (is_bare u)
      then some not_bare
      else if u.scheme == codes "https"
      then none
      else if u.scheme == codes "http" && loopback_name (lib.net.parse_ip u.hostname)
      then none
      else some requires_https

  -- `ValidateURL`: `none` is the nil error.
  unfoldable pub validate_url : Text → Option ClientError
  unfolding check_url
  validate_url value = check_url (lib.parse_url value)

  unfoldable pub sign : Text → Text → Text
  unfolding hex_encode
  sign secret message = hex_encode (lib.hmac_sha256 secret message)

  -- `do`, after the request has been sent.
  pub receive : Option Response → Outcome Text
  receive none = error transport
  receive (some r) =
      let (code, message) = lib.decode_failure r.raw in
      if ltb (2 ^ 20) (length r.raw)
      then error too_long
      else if ltb r.status 200 || ltb 299 r.status
      then error (server_error r.status code message)
      else ok r.raw

  pub check_identity : Option Identity → Outcome Identity
  check_identity none = error malformed
  check_identity (some identity) =
      if identity.code == [] || identity.secret == [] then error no_identity else ok identity

  pub accept_identity : Outcome Text → Outcome Identity
  unfolding check_identity
  accept_identity (error e) = error e
  accept_identity (ok raw) = check_identity (lib.decode_identity raw)

  pub check_validated : Runtime → Option ValidateError → Outcome Runtime
  check_validated runtime none = ok runtime
  check_validated runtime (some e) = error (invalid_configuration e)

  pub check_config : Option (Option Runtime) → Outcome Runtime
  unfolding check_validated
  check_config none = error malformed
  check_config (some none) = error no_configuration
  check_config (some (some runtime)) = check_validated runtime (validate lib.net runtime)

  pub accept_config : Outcome Text → Outcome Runtime
  unfolding check_config
  accept_config (error e) = error e
  accept_config (ok raw) = check_config (lib.decode_config raw)

  -- The client's version and system, and the headers of every request.
  module _ (base_url version user_agent : Text) where
    pub identify : List (Text × Text)
    identify =
        (codes "Content-Type", codes "application/json")
        ∷ (codes "Accept", codes "application/json")
        ∷ (codes "User-Agent", user_agent)
        ∷ []

    enroll_url : Option ClientError → Text → List Request × Outcome Identity
    unfolding identify receive accept_identity
    enroll_url (some e) token = ([], error e)
    enroll_url none token =
        let request : Request = record {
          method = codes "POST";
          url = base_url ++ codes "/agent/v1/enroll";
          headers = identify;
          body = lib.encode_token token;
        } in
        (request ∷ [], accept_identity (receive (lib.send request)))

    -- `Client.Enroll`.
    unfoldable pub enroll : Text → List Request × Outcome Identity
    unfolding enroll_url validate_url
    enroll token = enroll_url (validate_url base_url) token

    pub signed_request : Identity → Text → Text → Text → Text → Request
    unfolding identify sign canonical
    signed_request identity path timestamp nonce body = record {
      method = codes "POST";
      url = base_url ++ codes "/agent/v1/report";
      headers =
          identify
          ++ ((codes "X-Pulsitor-Agent", identity.code)
              ∷ (codes "X-Pulsitor-Timestamp", timestamp)
              ∷ (codes "X-Pulsitor-Nonce", nonce)
              ∷ (
                codes "X-Pulsitor-Signature",
                sign identity.secret (canonical (codes "POST") path timestamp nonce body),
              )
              ∷ []);
      body = body;
    }

    pub report_body :
        Identity → Text → Text → Option Url → Option Text → List Request × Outcome Runtime
    unfolding signed_request receive accept_config
    report_body identity timestamp nonce endpoint none = ([], error malformed)
    report_body identity timestamp nonce none (some body) = ([], error invalid_url)
    report_body identity timestamp nonce (some endpoint) (some body) =
        let request = signed_request identity endpoint.path timestamp nonce body in
        (request ∷ [], accept_config (receive (lib.send request)))

    pub report_as :
        Option ClientError → Option Identity → Text → Text → Report → List Request × Outcome Runtime
    unfolding report_body
    report_as (some e) identity timestamp nonce report = ([], error e)
    report_as none none timestamp nonce report = ([], error missing_identity)
    report_as none (some identity) timestamp nonce report =
        let answer =
          report_body identity timestamp nonce
            (lib.parse_url (base_url ++ codes "/agent/v1/report"))
            (lib.encode_report (record report { contract = pos 1; version = version })) in
        if identity.code == [] || identity.secret == []
        then ([], error missing_identity)
        else answer

    -- `Client.ReportContext`, with the time and the nonce that it reads.
    unfoldable pub report_context :
        Option Identity → Text → Text → Report → List Request × Outcome Runtime
    unfolding report_as validate_url
    report_context identity timestamp nonce report =
        report_as (validate_url base_url) identity timestamp nonce report
