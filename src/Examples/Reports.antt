-- ===== src/Examples/Reports.antt =====
-- A report to a server that answers, from an agent with an identity.
use pulsitor_lan_agent.Base.{
  ℕ, ◌<◌, ◌≡◌, arith, inl, inr, refl, false, none, some, [], ◌∷◌, map, Text, codes, pos, In,
  list_beq, int_beq, text_eq, nat_eq,
}
use pulsitor_lan_agent.Discover.Mac.{normalise_mac}
use pulsitor_lan_agent.Discover.Net.{hosts, is_v4, is_private}
use pulsitor_lan_agent.Config.{Identity, validate}
use pulsitor_lan_agent.Config.Valid.{IsUsable}
use pulsitor_lan_agent.Report.{Report}
use pulsitor_lan_agent.Report.Client.{
  Request, Lib, ok, newline, upper, canonical, report_context, signed_request,
}
use pulsitor_lan_agent.Report.Client.Laws.{canonical_injective, report_context-IsUsable}
use pulsitor_lan_agent.Examples.{net, household}

abbrev pub server : Text
server = codes "https://p"

abbrev pub lib : Lib
lib = record {
  net = net;
  parse_url = λ text. some (record {
    scheme = codes "https";
    host = codes "p";
    hostname = codes "p";
    has_user = false;
    path = codes "/agent/v1/report";
    raw_query = [];
    fragment = [];
    opaque_part = [];
  });
  encode_report = λ report. some (codes "{}");
  encode_token = λ token. token;
  decode_identity = λ raw. none;
  decode_config = λ raw. some (some household);
  decode_failure = λ raw. ([], []);
  hmac_sha256 = λ secret message. secret;
  send = λ request. some (record { status = 200; raw = codes "{}" });
}

abbrev pub agent : Identity
agent = record { code = codes "a1"; secret = codes "s" }

abbrev empty_report : Report
empty_report = record {
  contract = pos 0;
  version = [];
  observed_at = [];
  interfaces = none;
  devices = none;
  scanned = none;
  observations = [];
}

answered :
    (report_context lib server
      (codes "1")
      (codes "x")
      (some agent)
      (codes "9")
      (codes "n")
      empty_report).1
    ≡ ok household
unfolding report_context validate hosts is_v4 is_private normalise_mac list_beq int_beq
answered = refl

report_context-IsUsable_example : IsUsable net household
report_context-IsUsable_example =
    report_context-IsUsable lib server (codes "1") (codes "x") (codes "9") (codes "n") (some agent)
      empty_report household answered

abbrev sent : Request
sent =
    signed_request lib server (codes "1") (codes "x") agent (codes "/agent/v1/report") (codes "9")
      (codes "n") (codes "{}")

one_line : (c : ℕ) → 10 < c → ¬ In newline (c ∷ [])
one_line c h (inl e) = absurd (omega arith)
one_line c h (inr never) = never

canonical_injective_example :
    (map upper (codes "p") ≡ map upper (codes "P"))
    × (codes "r" ≡ codes "r")
    × (codes "9" ≡ codes "9")
    × (codes "n" ≡ codes "n")
    × (codes "{}" ≡ codes "{}")
unfolding canonical upper
canonical_injective_example =
    canonical_injective (codes "p") (codes "r") (codes "9") (codes "n") (codes "{}") (codes "P")
      (codes "r") (codes "9") (codes "n") (codes "{}") (one_line 57 (omega arith))
      (one_line 110 (omega arith)) (one_line 80 (omega arith)) (one_line 114 (omega arith))
      (one_line 57 (omega arith)) (one_line 110 (omega arith)) (one_line 80 (omega arith))
      (one_line 114 (omega arith)) refl
