-- ===== src/Engine/Session/NoLeak.antt =====
-- `StartSession`, `Close` and `RunOnce` leave nothing open.
use qnatter.Common.{Bool, true, false, Option, none, some, [], ◌∷◌, ◌≡◌, refl, sym, ◌∙◌}
use qnatter.Config.{Config}
use qnatter.Errors.{Error, missing_stun}
use qnatter.Engine.Wire.{AddrText}
use qnatter.Stun.Mapping.{Mapping}
use qnatter.Engine.Session.Flow.{
  Result, on_mapped, Trace, Dependencies, no_resources, State, Flow, goes, fails, ◌>>◌,
}
use qnatter.Engine.Session.Steps.{record_call, fail, done, with_inner}
use qnatter.Engine.Session.Start.{
  require_target, require_stun, report_mapped, set_up, start_steps, close, close_report, deferred,
  start_session, run_once, finish,
}
use qnatter.Engine.Session.Release.{
  held, Balanced, Fresh, Ends, Leads, Leads-bind, Leads-if, ask-Fresh, ask-Balanced,
  begin_session-Balanced, probe-Balanced, make_forwarder-Balanced, start_forwarder-Balanced,
  forward_port-Balanced, notify_mapping-Balanced, check_initial_ports-Balanced,
  require_target-Balanced,
}

module _ (d : Dependencies) (n : AddrText) (cfg : Config) where
  report_mapped-Balanced : (r : Result) → Leads Balanced Balanced (report_mapped d cfg r)
  unfolding report_mapped held
  report_mapped-Balanced r =
      let B = Balanced in
      Leads-bind B B B (record_call (on_mapped r) >> require_target d cfg r) (λ _. goes r)
        (Leads-bind B B B (record_call (on_mapped r)) (λ _. require_target d cfg r) (λ s b. b)
          (λ _. require_target-Balanced d cfg r))
        (λ _ s b. b)

  set_up-Balanced :
      (first observed : Mapping) → Leads Balanced Balanced (set_up d n cfg first observed)
  unfolding set_up
  set_up-Balanced first observed =
      let B = Balanced in
      Leads-bind B B B _ _
        (Leads-bind B B B _ _
          (Leads-bind B B B _ _
            (Leads-bind B B B _ _
              (Leads-bind B B B _ _ (make_forwarder-Balanced d _)
                (λ _. start_forwarder-Balanced d _))
              (λ _. forward_port-Balanced d cfg _))
            (λ _. notify_mapping-Balanced d cfg _ _))
          (λ _. check_initial_ports-Balanced d cfg _ _))
        (λ ports. report_mapped-Balanced _)

  require_stun-Fresh : Leads Fresh Fresh (require_stun d)
  require_stun-Fresh =
      Leads-if Fresh Fresh d.has_stun done (fail (missing_stun ∷ [])) (λ s f. f)
        (λ s f. f.0 ∙ sym f.1)

  start_steps-Balanced : Leads Fresh Balanced (start_steps d n cfg)
  unfolding start_steps
  start_steps-Balanced =
      let F = Fresh in
      let B = Balanced in
      Leads-bind F F B _ _ (Leads-bind F F F _ _ require_stun-Fresh (λ _. ask-Fresh d)) λ first.
        Leads-bind F B B _ _
          (Leads-bind F B B _ _
            (Leads-bind F B B _ _ (begin_session-Balanced d first) (λ _. probe-Balanced d))
            (λ _. ask-Balanced d))
          (λ second. set_up-Balanced first (with_inner first second))

-- Whichever of the three resources are open, they are closed.
close_each :
    (d : Dependencies) (t : Trace) (f k u : Bool)
    → held t ≡ record { forwarder = f; keep_alive = k; upnp = u }
    → let s =
        close d
          (record { trace = t; session = record { forwarder = f; keep_alive = k; upnp = u } }) in
      (held s.1.trace ≡ no_resources) × (s.1.session ≡ no_resources)
unfolding close held
close_each d t true true true b = (refl, refl)
close_each d t true true false b = (rw b, refl)
close_each d t true false true b = (rw b, refl)
close_each d t true false false b = (rw b, refl)
close_each d t false true true b = (rw b, refl)
close_each d t false true false b = (rw b, refl)
close_each d t false false true b = (rw b, refl)
close_each d t false false false b = (b, refl)

-- `Close` releases everything that a session holds, whatever the releases answer, if the session
-- knows all that is open.
pub close-releases :
    (d : Dependencies) (s : State)
    → Balanced s
    → (held (close d s).1.trace ≡ no_resources) × ((close d s).1.session ≡ no_resources)
close-releases d s b =
    close_each d s.trace s.session.forwarder s.session.keep_alive s.session.upnp b

-- A second `Close` calls nothing and reports no error.
pub close_twice : (d : Dependencies) (s : State) → close d (close d s).1 ≡ (none, (close d s).1)
unfolding close
close_twice d s = each s.session.forwarder s.session.keep_alive s.session.upnp
  where
    each :
        (f k u : Bool)
        → let s' =
            (close d (record {
              trace = s.trace;
              session = record { forwarder = f; keep_alive = k; upnp = u };
            })).1 in
          close d s' ≡ (none, s')
    each true true true = refl
    each true true false = refl
    each true false true = refl
    each true false false = refl
    each false true true = refl
    each false true false = refl
    each false false true = refl
    each false false false = refl

-- What a call of `StartSession` leaves: a session that holds all that is open, or nothing open.
abbrev pub Settled : Flow Result → Type 0
Settled (goes r s) = Balanced s
Settled (fails e s) = held s.trace ≡ no_resources

reported-held :
    (c : Option Error × State)
    → held c.1.trace ≡ no_resources
    → held (close_report c).trace ≡ no_resources
unfolding held
reported-held (none, s) h = h
reported-held (some e, s) h = h

-- Every failure of `StartSession` releases all that it acquired, and a session that it gives holds
-- all that is open, provided that nothing was open before.
pub start_session-Settled :
    (d : Dependencies) (n : AddrText) (cfg : Config) (t : Trace)
    → held t ≡ no_resources
    → Settled (start_session d n cfg t)
unfolding start_session
start_session-Settled d n cfg t h =
    settle (start_steps d n cfg begun) (start_steps-Balanced d n cfg begun (h, refl))
  where
    begun : State
    begun = record { trace = t; session = no_resources }

    settle : (o : Flow Result) → Ends Balanced o → Settled (deferred d o)
    settle (goes r s) b = b
    settle (fails e s) b = reported-held (close d s) (close-releases d s b).0

-- If nothing was open before, then nothing is open behind `RunOnce`, on success and on every error.
pub run_once_releases :
    (d : Dependencies) (n : AddrText) (cfg : Config) (t : Trace)
    → held t ≡ no_resources
    → held (run_once d n cfg t).1.trace ≡ no_resources
unfolding run_once
run_once_releases d n cfg t h = after (start_session d n cfg t) (start_session-Settled d n cfg t h)
  where
    after : (o : Flow Result) → Settled o → held (finish d o).1.trace ≡ no_resources
    after (fails e s) q = q
    after (goes r s) q = (close-releases d s q).0
