-- ===== src/Command/Enrolling.antt =====
-- `enrolledState` of cmd/pulsitor-lan-agent/main.go: when the token is spent, and what it is spent
-- on.
use pulsitor_lan_agent.Base.{
  ◌≤◌, ◌≡◌, ◌≢◌, inl, inr, refl, true, not, ◌&&◌, Option, none, some, List, [], arith, if_both,
  if_split, ◌==◌, nat_eq, Text, text_eq, texts_eq, beq_false→ne, int_eq, Disk, length, In,
}
use pulsitor_lan_agent.Config.{Identity, State}
use pulsitor_lan_agent.Config.StateFile.{
  Loaded, loaded, load_error, is_usable_identity, load, ensure_writable,
}
use pulsitor_lan_agent.Config.StateFile.Reading.{IsSound, load-IsSound}
use pulsitor_lan_agent.Report.Client.{Request, Outcome, ok, error, enroll}
use pulsitor_lan_agent.Report.Client.Enrolled.{enroll-Redeems}
use pulsitor_lan_agent.Command.{
  Machine, Enrolment, stored, identified, redeemed, unenrolled, by_identity, after_load,
  enrolled_state,
}

-- The token is spent only when nothing is stored and the state file can be written, and once.
abbrev Spends : Machine → Text → Text → Disk → List Request → Type 0
Spends m path token disk sent =
    (length sent ≤ 1)
    × ((request : Request)
        → In request sent
        → (disk path ≡ none)
          × ((token ≢ [])
              × ((ensure_writable m.prepares m.creates m.removes m.probe disk).0 ≡ true)))

module _ (m : Machine) (base_url path token : Text) (disk : Disk) where
  quiet-Spends : Spends m path token disk []
  quiet-Spends = (omega arith, λ q i. absurd i)

  identified-Spends :
      (s : State) → Spends m path token disk (identified m base_url path token disk s).sent
  unfolding identified stored
  identified-Spends s =
      let P : Enrolment → Type 0 = λ e. Spends m path token disk e.sent in
      if_both P (not (s.server == []) && not (s.server == base_url)) _ _ quiet-Spends (
        if_both P (not (token == [])) _ _ quiet-Spends
          (if_both P (s.server == []) _ _ quiet-Spends quiet-Spends))

  redeemed-sent :
      (d : Disk) (r : List Request × Outcome Identity) → (redeemed m base_url path d r).sent ≡ r.0
  unfolding redeemed stored
  redeemed-sent d (sent, error e) = refl
  redeemed-sent d (sent, ok identity) = refl

  unenrolled-Spends :
      disk path ≡ none → Spends m path token disk (unenrolled m base_url path token disk).sent
  unfolding unenrolled
  unenrolled-Spends absent =
      let P : Enrolment → Type 0 = λ e. Spends m path token disk e.sent in
      let (writable, checked) = ensure_writable m.prepares m.creates m.removes m.probe disk in
      let answer = enroll m.lib base_url m.version m.user_agent token in
      let (usable, once) = enroll-Redeems m.lib base_url m.version m.user_agent token in
      let same = redeemed-sent checked answer in
      if_split P (token == []) _ _ (λ e. quiet-Spends)
        (λ given.
          if_split P (not writable) _ _ (λ e. quiet-Spends)
            (λ can.
              let yes : writable ≡ true = ground arith in
              (rw same once, λ q i. (absent, (beq_false→ne token [] given, yes)))))

  by_identity-Spends :
      (s : State) (o : Option Identity)
      → (o ≡ none → disk path ≡ none)
      → Spends m path token disk (by_identity m base_url path token disk s o).sent
  unfolding by_identity
  by_identity-Spends s none absent = unenrolled-Spends (absent refl)
  by_identity-Spends s (some identity) absent = identified-Spends s

  after_load-Spends :
      (l : Loaded)
      → ((s : State) → l ≡ loaded s → IsSound m.lib.net path disk s)
      → Spends m path token disk (after_load m base_url path token disk l).sent
  unfolding after_load IsSound is_usable_identity
  after_load-Spends (load_error e) sound = quiet-Spends
  after_load-Spends (loaded s) sound = by_identity-Spends s s.identity (λ nobody.
      elim (sound s refl) [ inl fresh ↦ fresh.0 | inr known ↦ absurd (cc (known.0, nobody)) ])

  -- The enrollment token is sent to the server at most once, and only when there is no state file,
  -- the token is not empty and the place of the state file could be written to.
  pub enrolled_state_spends :
      (length (enrolled_state m base_url path token disk).sent ≤ 1)
      × ((request : Request)
          → In request (enrolled_state m base_url path token disk).sent
          → (disk path ≡ none)
            × ((token ≢ [])
                × ((ensure_writable m.prepares m.creates m.removes m.probe disk).0 ≡ true)))
  unfolding enrolled_state
  enrolled_state_spends =
      after_load-Spends (load m.lib.net m.codec m.protects m.reads path disk)
        (load-IsSound m.lib.net m.codec m.protects m.reads path disk)
