-- ===== src/Discover/Icmp/Answers.antt =====
-- internal/discover/icmp.go: what an answer proves.
use pulsitor_lan_agent.Base.{
  ℕ, suc, ◌+◌, ◌*◌, ◌%◌, ◌≡◌, ◌⊎◌, inl, inr, refl, sym, ap, ◌∙◌, true, not, ◌&&◌, Option, none,
  some, List, [], ◌∷◌, ◌++◌, arith, Bool-cases, if_both, if_split, Option-cases, &&-true, ◌==◌,
  nat_eq, Text, text_eq, texts_eq, beq→eq, int_eq, length, In,
}
use pulsitor_lan_agent.Discover.Net.{Ip}
use pulsitor_lan_agent.Discover.Icmp.{drop, byte_at, echo_payload, is_echo_reply}
use pulsitor_lan_agent.Discover.Icmp.Connection.{
  ProbeError, Datagram, Connection, expects, counts, has_text, answered, parsed, parse_all,
  probe_nonce, probe_with_connection,
}

module _ (parse_ip : Text → Option Ip) (ip_text : Ip → Text) where
  -- A datagram that answers a probe: an echo reply with the random bytes of the probes, from the
  -- address of one of the hosts that were asked.
  pub record IsAnswer (hosts : List Ip) (nonce : Text) (d : Datagram) : Type 0 where
    pub replies : is_echo_reply (echo_payload d.bytes) ≡ true
    pub same_nonce : drop 8 (echo_payload d.bytes) ≡ nonce
    pub asked : (host : Ip) × (In host hosts × (ip_text host ≡ d.from))

  expects_asked :
      (index : ℕ) (hosts : List Ip) (address : Text) (sequence : ℕ)
      → expects parse_ip ip_text index hosts address sequence ≡ true
      → (host : Ip) × (In host hosts × (ip_text host ≡ address))
  unfolding expects
  expects_asked index [] address sequence h = absurd (cc h)
  expects_asked index (host ∷ rest) address sequence h =
      elim (Bool-cases (ip_text host == address && index % 65536 == sequence)) [
        | inl here ↦
            let (same, place) =
              &&-true (ip_text host == address) (index % 65536 == sequence) here in
            (host, (inl refl, beq→eq (ip_text host) address same))
        | inr other ↦
            let (found, (i, e)) = expects_asked (suc index) rest address sequence (ground arith) in
            (found, (inr i, e))
      ]

  counts-IsAnswer :
      (hosts : List Ip) (nonce : Text) (d : Datagram)
      → counts parse_ip ip_text hosts nonce d ≡ true
      → IsAnswer hosts nonce d
  unfolding counts
  counts-IsAnswer hosts nonce d h =
      let packet = echo_payload d.bytes in
      let sequence = byte_at packet 6 * 256 + byte_at packet 7 in
      let (reply, h₁) = &&-true (is_echo_reply packet) _ h in
      let (size, h₂) = &&-true (length packet == 24) _ h₁ in
      let (same, known) =
        &&-true (drop 8 packet == nonce) (expects parse_ip ip_text 0 hosts d.from sequence) h₂ in
      record {
        replies = reply;
        same_nonce = beq→eq (drop 8 packet) nonce same;
        asked = expects_asked 0 hosts d.from sequence known;
      }

  -- An address that some datagram among those that arrived answers for.
  abbrev Heard : List Ip → Text → List Datagram → Text → Type 0
  Heard hosts nonce arrived address =
      (d : Datagram) × (In d arrived × ((d.from ≡ address) × IsAnswer hosts nonce d))

  In-snoc :
      (address a : Text) (known : List Text)
      → In address (known ++ (a ∷ []))
      → In address known ⊎ (address ≡ a)
  In-snoc address a [] (inl e) = inr e
  In-snoc address a [] (inr i) = absurd i
  In-snoc address a (k ∷ known) (inl e) = inl (inl e)
  In-snoc address a (k ∷ known) (inr i) = elim (In-snoc address a known i) [
    | inl j ↦ inl (inr j)
    | inr e ↦ inr e
  ]

  answered-Heard :
      (hosts : List Ip) (nonce : Text) (arrived later : List Datagram) (known : List Text)
      → ((d : Datagram) → In d later → In d arrived)
      → ((address : Text) → In address known → Heard hosts nonce arrived address)
      → (address : Text) → In address (answered parse_ip ip_text hosts nonce later known)
      → Heard hosts nonce arrived address
  unfolding answered
  answered-Heard hosts nonce arrived [] known sub before = before
  answered-Heard hosts nonce arrived (d ∷ later) known sub before =
      let test =
        counts parse_ip ip_text hosts nonce d && not (has_text parse_ip ip_text d.from known) in
      answered-Heard hosts nonce arrived later _ (λ e i. sub e (inr i))
        (if_split
          (λ (l : List Text). (address : Text) → In address l → Heard hosts nonce arrived address)
          test _ _
          (λ passes address i.
            let (heard, fresh) = &&-true (counts parse_ip ip_text hosts nonce d) _ passes in
            elim (In-snoc address d.from known i) [
              | inl j ↦ before address j
              | inr e ↦ (d, (sub d (inl refl), (sym e, counts-IsAnswer hosts nonce d heard)))
            ])
          (λ ignored. before))

  parse_all_sound :
      (addresses : List Text) (ip : Ip)
      → In ip (parse_all parse_ip ip_text addresses)
      → (address : Text) × (In address addresses × (parse_ip address ≡ some ip))
  unfolding parse_all parsed
  parse_all_sound [] ip i = absurd i
  parse_all_sound (address ∷ rest) ip i = elim (Option-cases (parse_ip address)) [
    | inl none_there ↦
        let (a, (j, e)) = parse_all_sound rest ip (rw none_there at i) in (a, (inr j, e))
    | inr (found, e) ↦ elim (rw e at i) [
      | inl same ↦ (address, (inl refl, e ∙ ap some (sym same)))
      | inr later ↦ let (a, (j, e)) = parse_all_sound rest ip later in (a, (inr j, e))
    ]
  ]

  -- What a probe found, after the checks at its start.
  abbrev Backed : Connection → List Ip → List Ip × ℕ × Option ProbeError → Type 0
  Backed c hosts r =
      (ip : Ip)
      → In ip r.0
      → (nonce : Text) × (d : Datagram) × ((c.nonce ≡ some nonce)
          × (In d c.datagrams × ((parse_ip d.from ≡ some ip) × IsAnswer hosts nonce d)))

  probe_nonce-Backed :
      (c : Connection) (hosts : List Ip) (o : Option Text)
      → c.nonce ≡ o
      → Backed c hosts (probe_nonce parse_ip ip_text c hosts o)
  unfolding probe_nonce
  probe_nonce-Backed c hosts none e ip i = absurd i
  probe_nonce-Backed c hosts (some nonce) e ip i =
      let (address, (j, parses)) = parse_all_sound _ ip i in
      let (d, (arrived, (same, answer))) =
        answered-Heard hosts nonce c.datagrams c.datagrams [] (λ d i. i) (λ a i. absurd i) address
          j in
      (nonce, d, (e, (arrived, (ap parse_ip same ∙ parses, answer))))

  -- A probe finds an address only if a datagram came from it that is an echo reply, carries the
  -- random bytes of this very probe, and names a host that was asked.
  pub probe_with_connection_sound :
      (c : Connection) (hosts : List Ip) (ip : Ip)
      → In ip (probe_with_connection parse_ip ip_text c hosts).0
      → (nonce : Text) × (d : Datagram) × ((c.nonce ≡ some nonce)
          × (In d c.datagrams × ((parse_ip d.from ≡ some ip) × IsAnswer hosts nonce d)))
  unfolding probe_with_connection
  probe_with_connection_sound c hosts =
      if_both (Backed c hosts) (not c.in_time) _ _ (λ ip i. absurd i)
        (if_both (Backed c hosts) (not c.sets_deadline) _ _ (λ ip i. absurd i)
          (probe_nonce-Backed c hosts c.nonce refl))
