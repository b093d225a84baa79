-- ===== src/Report/Client/Enrolled.antt =====
-- internal/report/client.go: what `Enroll` sends and gives back.
use pulsitor_lan_agent.Base.{
  ◌≤◌, ◌≡◌, ◌≢◌, inl, inr, refl, subst, true, ◌||◌, Option, none, some, List, [], arith, Bool-cases,
  if_split, ◌==◌, nat_eq, list_beq, Text, text_eq, texts_eq, beq_false→ne, int_eq, length,
}
use pulsitor_lan_agent.Config.{Identity}
use pulsitor_lan_agent.Config.StateFile.{is_usable_identity}
use pulsitor_lan_agent.Report.Client.{
  Url, is_bare, check_url, Lib, Request, ClientError, Outcome, ok, error, check_identity,
  accept_identity, validate_url, enroll_url, enroll,
}

module _ (lib : Lib) where
  check_identity_usable :
      (o : Option Identity) (identity : Identity)
      → check_identity lib o ≡ ok identity
      → is_usable_identity (some identity) ≡ true
  unfolding check_identity is_usable_identity
  check_identity_usable none identity h = absurd (cc h)
  check_identity_usable (some found) identity h =
      if_split
        (λ (r : Outcome Identity). r ≡ ok identity → is_usable_identity (some identity) ≡ true)
        (found.code == [] || found.secret == []) _ _ (λ e h. absurd (cc h))
        (λ e h.
          let same : found ≡ identity = cc h in
          subst (λ i. is_usable_identity (some i) ≡ true) same (rw e))
        h

  accept_identity_usable :
      (r : Outcome Text) (identity : Identity)
      → accept_identity lib r ≡ ok identity
      → is_usable_identity (some identity) ≡ true
  unfolding accept_identity
  accept_identity_usable (error e) identity h = absurd (cc h)
  accept_identity_usable (ok raw) identity h =
      check_identity_usable (lib.decode_identity raw) identity h

  module _ (base_url version user_agent token : Text) where
    -- An identity that `Enroll` accepted has a code and a secret, and at most one request was sent.
    abbrev Redeems : List Request × Outcome Identity → Type 0
    Redeems r =
        ((identity : Identity) → r.1 ≡ ok identity → is_usable_identity (some identity) ≡ true)
        × (length r.0 ≤ 1)

    enroll_url-Redeems :
        (e : Option ClientError) → Redeems (enroll_url lib base_url version user_agent e token)
    unfolding enroll_url
    enroll_url-Redeems (some e) = (λ i h. absurd (cc h), omega arith)
    enroll_url-Redeems none = (λ i h. accept_identity_usable _ i h, omega arith)

    pub enroll-Redeems : Redeems (enroll lib base_url version user_agent token)
    unfolding enroll
    enroll-Redeems = enroll_url-Redeems (validate_url lib base_url)

  check_url_hosted :
      (o : Option Url) → check_url lib o ≡ none → (u : Url) × ((o ≡ some u) × (u.host ≢ []))
  unfolding check_url is_bare list_beq
  check_url_hosted none h = absurd (cc h)
  check_url_hosted (some u) h = elim (Bool-cases (u.host == [])) [
    | inl e ↦ absurd (cc (rw e at h))
    | inr e ↦ (u, (refl, beq_false→ne u.host [] e))
  ]

  -- A URL that passes `ValidateURL` parses and has a host.
  pub validate_url_hosted :
      (value : Text)
      → validate_url lib value ≡ none
      → (u : Url) × ((lib.parse_url value ≡ some u) × (u.host ≢ []))
  unfolding validate_url
  validate_url_hosted value = check_url_hosted (lib.parse_url value)
