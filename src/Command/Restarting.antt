-- ===== src/Command/Restarting.antt =====
-- `enrolledState` of cmd/pulsitor-lan-agent/main.go: what is enrolled once stays enrolled.
use pulsitor_lan_agent.Base.{
  ◌≡◌, ◌≢◌, inl, inr, refl, ap, subst, ◌∙◌, true, false, not, ◌&&◌, Option, none, some, List, [],
  arith, if_both, if_split, ◌==◌, nat_eq, list_beq, list_beq_iff, Text, text_eq, texts_eq, beq→eq,
  int_eq, Disk,
}
use pulsitor_lan_agent.Config.{Identity, State}
use pulsitor_lan_agent.Config.StateFile.{
  Loaded, loaded, load_error, is_usable_identity, validate_stored, load, save, ensure_writable,
}
use pulsitor_lan_agent.Config.StateFile.Reading.{IsSound, load-IsSound, load-save, save_encodes}
use pulsitor_lan_agent.Report.Client.{Request, Outcome, ok, error, enroll}
use pulsitor_lan_agent.Report.Client.Enrolled.{enroll-Redeems}
use pulsitor_lan_agent.Command.{
  Machine, Refused, Settled, settled, refused, Enrolment, stored, identified, redeemed, unenrolled,
  by_identity, after_load, enrolled_state,
}

-- The state file can be read, its temporary file stands under another name, and the codec decodes
-- what it encodes.
pub record Works (m : Machine) (path : Text) : Type 0 where
  pub protects : m.protects ≡ true
  pub reads : m.reads ≡ true
  pub apart : m.saving.temp ≢ path
  pub decodes : (s : State) (raw : Text) → m.codec.encode s ≡ some raw → m.codec.decode raw ≡ some s

module _ (m : Machine) (base_url path : Text) where
  -- The state has the server, an identity, and is what the next `Load` gives.
  unfoldable pub IsKept : State → Disk → Type 0
  IsKept s disk =
      (s.server ≡ base_url)
      × ((is_usable_identity s.identity ≡ true)
          × (load m.lib.net m.codec m.protects m.reads path disk ≡ loaded s))

  abbrev pub Keeps : Enrolment → Type 0
  Keeps e = (s : State) → e.result ≡ settled s → IsKept s e.disk

  unsettled : (r : Refused) (d : Disk) (s : State) → refused r ≡ settled s → IsKept s d
  unsettled r d s h = absurd (cc h)

module _ (m : Machine) (base_url path : Text) (works : Works m path) where
  -- A state that passes the checks of `Load` is kept once it is saved.
  stored-Keeps :
      (s : State) (sent : List Request) (disk : Disk)
      → s.server ≡ base_url
      → is_usable_identity s.identity ≡ true
      → validate_stored m.lib.net s.runtime ≡ none
      → Keeps m base_url path (stored s sent (save m.codec m.saving path s disk))
  unfolding stored IsKept
  stored-Keeps s sent disk ours usable valid t h =
      let out = save m.codec m.saving path s disk in
      if_split (λ (r : Settled State). r ≡ settled t → IsKept m base_url path t out.disk)
        out.is_saved _ _
        (λ done h.
          let (raw, encoded) = save_encodes m.codec m.saving path s disk done in
          let same : s ≡ t = cc h in
          let back =
            load-save m.lib.net m.codec m.saving path raw s disk encoded
              (works.decodes s raw encoded) usable valid works.apart done in
          let read : load m.lib.net m.codec m.protects m.reads path out.disk ≡ loaded s =
            rw (works.protects, works.reads) back in
          subst (λ t. IsKept m base_url path t out.disk) same (ours, (usable, read)))
        (λ lost h. absurd (cc h)) h

  redeemed-Keeps :
      (disk : Disk) (r : List Request × Outcome Identity)
      → ((identity : Identity) → r.1 ≡ ok identity → is_usable_identity (some identity) ≡ true)
      → Keeps m base_url path (redeemed m base_url path disk r)
  unfolding redeemed validate_stored
  redeemed-Keeps disk (sent, error e) usable = unsettled m base_url path _ disk
  redeemed-Keeps disk (sent, ok identity) usable =
      stored-Keeps (record { server = base_url; identity = some identity; runtime = none }) sent
        disk refl (usable identity refl) refl

  module _ (token : Text) (disk : Disk) where
    unenrolled-Keeps : Keeps m base_url path (unenrolled m base_url path token disk)
    unfolding unenrolled
    unenrolled-Keeps =
        let (writable, checked) = ensure_writable m.prepares m.creates m.removes m.probe disk in
        let answer = enroll m.lib base_url m.version m.user_agent token in
        let (usable, once) = enroll-Redeems m.lib base_url m.version m.user_agent token in
        if_both (Keeps m base_url path) (token == []) _ _ (unsettled m base_url path _ _) (
          if_both (Keeps m base_url path) (not writable) _ _ (unsettled m base_url path _ _)
            (redeemed-Keeps checked answer usable))

    identified-Keeps :
        (s : State)
        → is_usable_identity s.identity ≡ true
        → validate_stored m.lib.net s.runtime ≡ none
        → load m.lib.net m.codec m.protects m.reads path disk ≡ loaded s
        → Keeps m base_url path (identified m base_url path token disk s)
    unfolding identified IsKept
    identified-Keeps s usable valid read =
        if_split (Keeps m base_url path) (not (s.server == []) && not (s.server == base_url)) _ _
          (λ e. unsettled m base_url path _ _)
          (λ known.
            if_both (Keeps m base_url path) (not (token == [])) _ _ (unsettled m base_url path _ _)
              (if_split (Keeps m base_url path) (s.server == []) _ _
                (λ fresh. stored-Keeps (record s { server = base_url }) [] disk refl usable valid)
                (λ set t h.
                  let matches : (s.server == base_url) ≡ true = ground arith in
                  let same : s ≡ t = cc h in
                  subst (λ t. IsKept m base_url path t disk) same
                    (beq→eq s.server base_url matches, (usable, read)))))

    by_identity-Keeps :
        (s : State) (o : Option Identity)
        → s.identity ≡ o
        → IsSound m.lib.net path disk s
        → load m.lib.net m.codec m.protects m.reads path disk ≡ loaded s
        → Keeps m base_url path (by_identity m base_url path token disk s o)
    unfolding by_identity IsSound is_usable_identity
    by_identity-Keeps s none nobody sound read = unenrolled-Keeps
    by_identity-Keeps s (some identity) found sound read = elim sound [
      | inl fresh ↦ absurd (cc (ap (λ t. t.identity) fresh.1, found))
      | inr (usable, valid) ↦ identified-Keeps s usable valid read
    ]

    after_load-Keeps :
        (l : Loaded)
        → load m.lib.net m.codec m.protects m.reads path disk ≡ l
        → Keeps m base_url path (after_load m base_url path token disk l)
    unfolding after_load
    after_load-Keeps (load_error e) read = unsettled m base_url path _ _
    after_load-Keeps (loaded s) read =
        by_identity-Keeps s s.identity refl
          (load-IsSound m.lib.net m.codec m.protects m.reads path disk s read) read

    pub enrolled_state-Keeps : Keeps m base_url path (enrolled_state m base_url path token disk)
    unfolding enrolled_state
    enrolled_state-Keeps =
        after_load-Keeps (load m.lib.net m.codec m.protects m.reads path disk) refl

  -- A run that loads a state of this server with an identity goes on with it as it is.
  settles :
      (s : State) (o : Option Identity) (disk : Disk)
      → base_url ≢ []
      → s.server ≡ base_url
      → is_usable_identity o ≡ true
      → by_identity m base_url path [] disk s o
        ≡ record { result = settled s; sent = []; disk = disk }
  unfolding by_identity identified is_usable_identity list_beq
  settles s none disk named ours usable = absurd (cc usable)
  settles s (some identity) disk named ours usable =
      let filled : (s.server == []) ≡ false = ground (arith, list_beq_iff s.server []) in
      let same : (s.server == base_url) ≡ true = ground (arith, list_beq_iff s.server base_url) in
      simp (filled, same)

  -- Once an enrollment has settled on a state, every later run without a token settles on the same
  -- state, sends nothing and leaves the disk as it is, where the state file can be read, the codec
  -- decodes what it encodes, and the server is named.
  pub enrolled_state_again :
      (token : Text) (disk : Disk) (s : State)
      → base_url ≢ []
      → (enrolled_state m base_url path token disk).result ≡ settled s
      → let after = (enrolled_state m base_url path token disk).disk in
        enrolled_state m base_url path [] after
        ≡ record { result = settled s; sent = []; disk = after }
  unfolding enrolled_state after_load IsKept
  enrolled_state_again token disk s named h =
      let after = (enrolled_state m base_url path token disk).disk in
      let (ours, (usable, read)) = enrolled_state-Keeps token disk s h in
      ap (after_load m base_url path [] after) read ∙ settles s s.identity after named ours usable
