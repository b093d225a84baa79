-- ===== src/Service/Windows/Reports.antt =====
-- internal/service/service_windows.go: what the service manager is told, whatever the order of the
-- steps.
use pulsitor_lan_agent.Base.{
  ℕ, ◌≡◌, ◌≢◌, ◌⊎◌, inl, inr, refl, sym, ap, ◌∙◌, Bool, true, false, arith, nat_eq, text_eq,
  texts_eq, int_eq, In,
}
use pulsitor_lan_agent.Service.Windows.{
  stopped, stop_pending, ServiceStatus, Main, registered, starting, working, ended, over, Handler,
  idle, cancelling, saw, Windows, send, code_of, begun, Step, start, run, finish, leave, ask_stop,
  cancel, interrogate, answer, interrupt, interrupted, Reach, here, next,
}

unfoldable pub is_over : Main → Bool
is_over (over fails) = true
is_over _ = false

unfoldable pub has_failed : Main → Bool
has_failed (over fails) = fails
has_failed _ = false

unfoldable pub seen : Handler → ℕ
seen (saw state accepted) = state
seen _ = 0

-- A stop is reported only after the work has ended, an exit code other than 0 only for work that
-- failed, and the work is cancelled only with the context of `Run` or after a stop was announced.
pub record IsHonest (w : Windows) : Type 0 where
  pub stops : (r : ServiceStatus) → In r w.sent → r.state ≡ stopped → is_over w.main ≡ true
  pub fails : (r : ServiceStatus) → In r w.sent → r.exit_code ≢ 0 → has_failed w.main ≡ true
  pub last : w.last_state ≡ stopped → is_over w.main ≡ true
  pub read : seen w.handler ≡ stopped → is_over w.main ≡ true
  pub asked :
      w.cancelled ≡ true
      → (w.parent_done ≡ true) ⊎ ((r : ServiceStatus) × (In r w.sent × (r.state ≡ stop_pending)))
  pub asking :
      w.handler ≡ cancelling → (r : ServiceStatus) × (In r w.sent × (r.state ≡ stop_pending))

send-IsHonest :
    (w : Windows) (state accepted exit_code wait_hint : ℕ)
    → (state ≡ stopped → is_over w.main ≡ true)
    → (exit_code ≢ 0 → has_failed w.main ≡ true)
    → IsHonest w
    → IsHonest (send w state accepted exit_code wait_hint)
unfolding send
send-IsHonest w state accepted exit_code wait_hint stop fail h = record {
  stops = λ r i e. elim i [
    | inl same ↦ stop (sym (ap (λ s. s.state) same) ∙ e)
    | inr j ↦ h.stops r j e
  ];
  fails = λ r i e. elim i [
    | inl same ↦ fail (λ z. e (ap (λ s. s.exit_code) same ∙ z))
    | inr j ↦ h.fails r j e
  ];
  last = stop;
  read = h.read;
  asked = λ c. elim (h.asked c) [
    | inl done ↦ inl done
    | inr announced ↦ let (r, (i, e)) = announced in inr (r, (inr i, e))
  ];
  asking = λ c. let (r, (i, e)) = h.asking c in (r, (inr i, e));
}

failed_over : (main : Main) → has_failed main ≡ true → is_over main ≡ true
unfolding has_failed is_over
failed_over (over fails) h = refl
failed_over registered h = absurd (cc h)
failed_over starting h = absurd (cc h)
failed_over working h = absurd (cc h)
failed_over (ended fails) h = absurd (cc h)

-- The main thread goes on; it does not come back from its end.
main-IsHonest :
    (w : Windows) (main : Main)
    → is_over w.main ≡ false
    → IsHonest w
    → IsHonest (record w { main = main })
unfolding has_failed is_over
main-IsHonest w main before h = record {
  stops = λ r i e. absurd (cc (h.stops r i e, before));
  fails = λ r i e. absurd (cc (failed_over w.main (h.fails r i e), before));
  last = λ e. absurd (cc (h.last e, before));
  read = λ e. absurd (cc (h.read e, before));
  asked = h.asked;
  asking = h.asking;
}

-- The handler goes on with what it read, or with nothing.
handler-IsHonest :
    (w : Windows) (handler : Handler)
    → (seen handler ≡ stopped → is_over w.main ≡ true)
    → handler ≢ cancelling
    → IsHonest w
    → IsHonest (record w { handler = handler })
handler-IsHonest w handler read other h = record {
  stops = h.stops;
  fails = h.fails;
  last = h.last;
  read = read;
  asked = h.asked;
  asking = λ e. absurd (other e);
}

not_over :
    (w : Windows) (main : Main) → w.main ≡ main → is_over main ≡ false → is_over w.main ≡ false
not_over w main e h = ap is_over e ∙ h

code_fails : (fails : Bool) → code_of fails ≢ 0 → fails ≡ true
unfolding code_of
code_fails true h = refl
code_fails false h = absurd (h refl)

ask_stop-IsHonest :
    (w : Windows)
    → IsHonest w
    → IsHonest (send (record w { handler = cancelling }) stop_pending 0 0 45000)
unfolding send seen
ask_stop-IsHonest w h = record {
  stops = λ r i e. elim i [
    | inl same ↦
        let pending : stop_pending ≡ stopped = sym (ap (λ (s : ServiceStatus). s.state) same) ∙ e in
        absurd (omega arith)
    | inr j ↦ h.stops r j e
  ];
  fails = λ r i e. elim i [
    | inl same ↦ absurd (e (ap (λ s. s.exit_code) same))
    | inr j ↦ h.fails r j e
  ];
  last = λ e. absurd (omega arith);
  read = λ e. absurd (omega arith);
  asked = λ c. inr (_, (inl refl, refl));
  asking = λ c. (_, (inl refl, refl));
}

Step-IsHonest : {v w : Windows} → Step v w → IsHonest v → IsHonest w
unfolding is_over has_failed seen interrupted
Step-IsHonest (start w e) h =
    send-IsHonest _ _ 0 0 _ (λ z. absurd (omega arith)) (λ z. absurd (z refl))
      (main-IsHonest w starting (not_over w registered e refl) h)
Step-IsHonest (run w e) h =
    send-IsHonest _ _ _ 0 _ (λ z. absurd (omega arith)) (λ z. absurd (z refl))
      (main-IsHonest w working (not_over w starting e refl) h)
Step-IsHonest (finish w fails e) h = main-IsHonest w (ended fails) (not_over w working e refl) h
Step-IsHonest (leave w fails e) h =
    send-IsHonest _ _ 0 (code_of fails) 0 (λ z. refl) (λ z. code_fails fails z)
      (main-IsHonest w (over fails) (not_over w (ended fails) e refl) h)
Step-IsHonest (ask_stop w e) h = ask_stop-IsHonest w h
Step-IsHonest (cancel w e) h = record {
  stops = h.stops;
  fails = h.fails;
  last = h.last;
  read = λ z. absurd (omega arith);
  asked = λ c. inr (h.asking e);
  asking = λ c. h.asking e;
}
Step-IsHonest (interrogate w e) h =
    handler-IsHonest w (saw w.last_state w.last_accepted) h.last (λ z. absurd (cc z)) h
Step-IsHonest (answer w state accepted e) h =
    send-IsHonest _ state accepted 0 0 (λ z. h.read (ap seen e ∙ z)) (λ z. absurd (z refl))
      (handler-IsHonest w idle (λ z. absurd (omega arith)) (λ z. absurd (cc z)) h)
Step-IsHonest (interrupt w) h = record {
  stops = h.stops;
  fails = h.fails;
  last = h.last;
  read = h.read;
  asked = λ c. inl refl;
  asking = h.asking;
}

begun-IsHonest : IsHonest begun
unfolding is_over has_failed seen
begun-IsHonest = record {
  stops = λ r i e. absurd i;
  fails = λ r i e. absurd i;
  last = λ e. absurd (omega arith);
  read = λ e. absurd (omega arith);
  asked = λ c. absurd (cc c);
  asking = λ c. absurd (cc c);
}

-- However the main thread, the handler and the end of the context of `Run` take turns: the service
-- manager hears of a stop only after the work has ended, of an exit code other than 0 only for work
-- that failed, and the work is cancelled only with the context of `Run` or after a pending stop was
-- reported. A report that the service runs may come after it has stopped.
pub Reach-IsHonest : {w : Windows} → Reach begun w → IsHonest w
Reach-IsHonest here = begun-IsHonest
Reach-IsHonest (next reached step) = Step-IsHonest step (Reach-IsHonest reached)
