-- ===== src/Report/Client/Laws.antt =====
-- What the client sends, and what it lets through.
use pulsitor_lan_agent.Base.{
  ◌≡◌, ◌≢◌, inl, inr, refl, sym, ap₂, subst, ◌||◌, Option, none, some, [], ◌∷◌, ◌++◌, map, arith,
  Bool-cases, ◌==◌, nat_eq, Text, text_eq, texts_eq, codes, beq_false→ne, pos, int_eq, In,
}
use pulsitor_lan_agent.Config.{Identity, Runtime, ValidateError, validate}
use pulsitor_lan_agent.Config.Valid.{IsUsable, validate_iff}
use pulsitor_lan_agent.Report.{Report}
use pulsitor_lan_agent.Report.Client.{
  Url, Request, Lib, ClientError, Outcome, ok, error, newline, upper, canonical, validate_url, sign,
  check_validated, check_config, accept_config, signed_request, report_body, report_as,
  report_context, identify,
}

-- A line ends at its first newline, so two texts that agree have the same first line.
first_line :
    (a b x y : Text)
    → ¬ In newline a
    → ¬ In newline b
    → a ++ (newline ∷ x) ≡ b ++ (newline ∷ y)
    → (a ≡ b) × (x ≡ y)
first_line [] [] x y no_a no_b e = (refl, cc e)
first_line [] (d ∷ b) x y no_a no_b e = absurd (no_b (inl (cc e)))
first_line (c ∷ a) [] x y no_a no_b e = absurd (no_a (inl (sym (cc e))))
first_line (c ∷ a) (d ∷ b) x y no_a no_b e =
    let (same, rest) = first_line a b x y (λ i. no_a (inr i)) (λ i. no_b (inr i)) (cc e) in
    let head : c ≡ d = cc e in (ap₂ ◌∷◌ head same, rest)

-- What is signed determines what it was built from: no two requests whose method, path, time and
-- nonce are without newlines share a signed text, unless they agree in all of these, the method up
-- to case, and in the body.
pub canonical_injective :
    (m p t n b m' p' t' n' b' : Text)
    → ¬ In newline t
    → ¬ In newline n
    → ¬ In newline (map upper m)
    → ¬ In newline p
    → ¬ In newline t'
    → ¬ In newline n'
    → ¬ In newline (map upper m')
    → ¬ In newline p'
    → canonical m p t n b ≡ canonical m' p' t' n' b'
    → (map upper m ≡ map upper m') × (p ≡ p') × (t ≡ t') × (n ≡ n') × (b ≡ b')
unfolding canonical
canonical_injective m p t n b m' p' t' n' b' ht hn hm hp ht' hn' hm' hp' e =
    let (et, e₁) = first_line t t' _ _ ht ht' e in
    let (en, e₂) = first_line n n' _ _ hn hn' e₁ in
    let (em, e₃) = first_line (map upper m) (map upper m') _ _ hm hm' e₂ in
    let (ep, eb) = first_line p p' b b' hp hp' e₃ in (em, ep, et, en, eb)

-- What a client that is given one thing after another lets through.
module _ (lib : Lib) where
  check_validated-ok :
      (runtime : Runtime) (found : Option ValidateError) {runtime' : Runtime}
      → validate lib.net runtime ≡ found
      → check_validated lib runtime found ≡ ok runtime'
      → IsUsable lib.net runtime'
  unfolding check_validated
  check_validated-ok runtime none {runtime'} fine h =
      let e : runtime ≡ runtime' = cc h in
      subst (IsUsable lib.net) e ((validate_iff lib.net runtime).0 fine)
  check_validated-ok runtime (some e) bad h = absurd (cc h)

  check_config-ok :
      (decoded : Option (Option Runtime)) {runtime : Runtime}
      → check_config lib decoded ≡ ok runtime
      → IsUsable lib.net runtime
  unfolding check_config
  check_config-ok none h = absurd (cc h)
  check_config-ok (some none) h = absurd (cc h)
  check_config-ok (some (some r)) h = check_validated-ok r (validate lib.net r) refl h

  accept_config-ok :
      (received : Outcome Text) {runtime : Runtime}
      → accept_config lib received ≡ ok runtime
      → IsUsable lib.net runtime
  unfolding accept_config
  accept_config-ok (error e) h = absurd (cc h)
  accept_config-ok (ok raw) h = check_config-ok (lib.decode_config raw) h

  module _ (base_url version user_agent timestamp nonce : Text) where
    -- A request that carries its sender's signature of what it says.
    pub record IsSigned (identity : Identity) (request : Request) : Type 0 where
      pub has_code : identity.code ≢ []
      pub has_secret : identity.secret ≢ []
      pub addressed : request.url ≡ base_url ++ codes "/agent/v1/report"
      pub endpoint : Url
      pub parsed : lib.parse_url request.url ≡ some endpoint
      pub signature :
          In
            (
              codes "X-Pulsitor-Signature",
              sign lib identity.secret
                  (canonical request.method endpoint.path timestamp nonce request.body),
            )
            request.headers

    signed_last :
        (identity : Identity) (path body : Text)
        → In
            (
              codes "X-Pulsitor-Signature",
              sign lib identity.secret (canonical (codes "POST") path timestamp nonce body),
            )
            (signed_request lib base_url version user_agent identity path timestamp nonce
              body).headers
    unfolding signed_request identify
    signed_last identity path body = inr (inr (inr (inr (inr (inr (inl refl))))))

    report_body_sound :
        (identity : Identity) (endpoint : Option Url) (body : Option Text)
        → lib.parse_url (base_url ++ codes "/agent/v1/report") ≡ endpoint
        → let (sent, outcome) =
            report_body lib base_url version user_agent identity timestamp nonce endpoint body in
          ((runtime : Runtime) → outcome ≡ ok runtime → IsUsable lib.net runtime)
          × ((request : Request)
              → In request sent
              → identity.code ≢ []
              → identity.secret ≢ []
              → IsSigned identity request)
    unfolding report_body signed_request
    report_body_sound identity endpoint none parsed = (λ r h. absurd (cc h), λ q i c s. absurd i)
    report_body_sound identity none (some body) parsed = (λ r h. absurd (cc h), λ q i c s. absurd i)
    report_body_sound identity (some endpoint) (some body) parsed = (
      λ r h. accept_config-ok _ h,
      λ q i c s. elim i [
        | inl e ↦ subst (IsSigned identity) (sym e) (record {
          has_code = c;
          has_secret = s;
          addressed = refl;
          endpoint = endpoint;
          parsed = parsed;
          signature = signed_last identity endpoint.path body;
        })
        | inr more ↦ absurd more
      ],
    )

    report_as_sound :
        (checked : Option ClientError) (identity : Option Identity) (report : Report)
        → let (sent, outcome) =
            report_as lib base_url version user_agent checked identity timestamp nonce report in
          ((runtime : Runtime) → outcome ≡ ok runtime → IsUsable lib.net runtime)
          × ((request : Request)
              → In request sent
              → (checked ≡ none)
                × ((sender : Identity) × (identity ≡ some sender) × IsSigned sender request))
    unfolding report_as
    report_as_sound (some e) identity report = (λ r h. absurd (cc h), λ q i. absurd i)
    report_as_sound none none report = (λ r h. absurd (cc h), λ q i. absurd i)
    report_as_sound none (some sender) report =
        let body =
          report_body_sound sender (lib.parse_url (base_url ++ codes "/agent/v1/report"))
            (lib.encode_report (record report { contract = pos 1; version = version })) refl in
        elim (Bool-cases (sender.code == [] || sender.secret == [])) [
          | inl anonymous ↦ rw anonymous (λ r h. absurd (cc h), λ q i. absurd i)
          | inr known ↦ rw known (
            body.0,
            λ q i. (
              refl,
              (
                sender,
                refl,
                body.1 q i (beq_false→ne sender.code [] (ground arith))
                    (beq_false→ne sender.secret [] (ground arith)),
              ),
            ),
          )
        ]

    -- The configuration that a report brings back is usable, whatever the server sends: it passes
    -- every check of `Validate`.
    pub report_context-IsUsable :
        (identity : Option Identity) (report : Report) (runtime : Runtime)
        → (report_context lib base_url version user_agent identity timestamp nonce report).1
          ≡ ok runtime
        → IsUsable lib.net runtime
    unfolding report_context
    report_context-IsUsable identity report =
        (report_as_sound (validate_url lib base_url) identity report).0
