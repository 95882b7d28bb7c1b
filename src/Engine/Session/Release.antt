-- ===== src/Engine/Session/Release.antt =====
-- What a session holds is what its trace acquired and did not release.
use qnatter.Common.{
  Bool, true, false, not, ◌&&◌, ◌||◌, Option, none, some, [], ◌∷◌, ◌≡◌, sym, ◌∙◌, if◌then◌else◌,
  Bytes,
}
use qnatter.Config.{Config}
use qnatter.Errors.{Error}
use qnatter.Net.{AddrPort}
use qnatter.Stun.Mapping.{Mapping}
use qnatter.Engine.Loop.{Answer, answered, failed}
use qnatter.Engine.Session.Flow.{
  Result, StartOptions, UpnpMapping, Call, take_keep_alive, new_keep_alive, new_forwarder,
  upnp_forward, forwarder_stop, keep_alive_close, upnp_revoke, Trace, Dependencies, Session,
  no_resources, State, Flow, goes, fails, Step, continue_with, ◌>>=◌,
}
use qnatter.Engine.Session.Steps.{
  called, done, ask, begin_session, probe, make_forwarder, start_forwarder, forward_port,
  notify_mapping,
}
use qnatter.Engine.Session.Steps.{unless_error, answer, made_keep_alive, made_forwarder, forwarded}
use qnatter.Engine.Session.Start.{all_checks, check_initial_ports, target_is_closed, require_target}

-- What one call does to the resources that are held.
abbrev pub after_call : Call → Session → Session
after_call take_keep_alive h = record h { keep_alive = true }
after_call (new_keep_alive m none) h = record h { keep_alive = true }
after_call (new_forwarder m none) h = record h { forwarder = true }
after_call (upnp_forward m none) h = record h { upnp = true }
after_call forwarder_stop h = record h { forwarder = false }
after_call keep_alive_close h = record h { keep_alive = false }
after_call upnp_revoke h = record h { upnp = false }
after_call _ h = h

-- The resources that a trace leaves open.
unfoldable pub held : Trace → Session
held [] = no_resources
held (c ∷ trace) = after_call c (held trace)

-- The session knows the resources that are open.
abbrev pub Balanced : State → Type 0
Balanced s = held s.trace ≡ s.session

-- A state before the session is made: nothing is open.
abbrev pub Fresh : State → Type 0
Fresh s = (held s.trace ≡ no_resources) × (s.session ≡ no_resources)

-- A step that goes on leaves a state with `Q`; one that fails leaves a balanced state.
abbrev pub Ends {ℓ} : {A : Type ℓ} → (State → Type 0) → Flow A → Type 0
Ends Q (goes a s) = Q s
Ends Q (fails e s) = Balanced s

abbrev pub Leads {ℓ} : {A : Type ℓ} → (State → Type 0) → (State → Type 0) → Step A → Type 0
Leads P Q m = (s : State) → P s → Ends Q (m s)

Ends-continue {ℓ κ} :
    {A : Type ℓ} {B : Type κ} (Q R : State → Type 0) (o : Flow A) (f : A → Step B)
    → Ends Q o
    → ((a : A) → Leads Q R (f a))
    → Ends R (continue_with o f)
Ends-continue Q R (goes a s) f q k = k a s q
Ends-continue Q R (fails e s) f q k = q

pub Leads-bind {ℓ κ} :
    {A : Type ℓ} {B : Type κ} (P Q R : State → Type 0) (m : Step A) (f : A → Step B)
    → Leads P Q m
    → ((a : A) → Leads Q R (f a))
    → Leads P R (m >>= f)
Leads-bind P Q R m f h k s p = Ends-continue Q R (m s) f (h s p) k

pub Ends-if {ℓ} :
    {A : Type ℓ} (Q : State → Type 0) (b : Bool) (x y : Flow A)
    → Ends Q x
    → Ends Q y
    → Ends Q (if b then x else y)
Ends-if Q true x y p q = p
Ends-if Q false x y p q = q

pub Leads-if {ℓ} :
    {A : Type ℓ} (P Q : State → Type 0) (b : Bool) (m k : Step A)
    → Leads P Q m
    → Leads P Q k
    → Leads P Q (if b then m else k)
Leads-if P Q true m k p q = p
Leads-if P Q false m k p q = q

unless_error-Leads : (e : Option Error) → Leads Balanced Balanced (unless_error e)
unless_error-Leads none s b = b
unless_error-Leads (some e) s b = b

answer-Leads :
    (a : Answer) (P : State → Type 0) (s : State) → P s → Balanced s → Ends P (answer a s)
answer-Leads (answered m) P s p b = p
answer-Leads (failed e) P s p b = b

module _ (d : Dependencies) where
  pub ask-Fresh : Leads Fresh Fresh (ask d)
  unfolding ask held
  ask-Fresh s f = answer-Leads (d.stun s.trace) Fresh _ f (f.0 ∙ sym f.1)

  pub ask-Balanced : Leads Balanced Balanced (ask d)
  unfolding ask held
  ask-Balanced s b = answer-Leads (d.stun s.trace) Balanced _ b b

  pub begin_session-Balanced : (first : Mapping) → Leads Fresh Balanced (begin_session d first)
  unfolding begin_session held
  begin_session-Balanced first s f = Ends-if Balanced d.has_keep_alive _ _ (rw f.0) (
      Ends-if Balanced d.has_new_keep_alive _ _ (made (d.new_keep_alive s.trace first))
        (f.0 ∙ sym f.1))
    where
      made :
          (e : Option Error) → Ends Balanced (made_keep_alive e (called (new_keep_alive first e) s))
      made none = rw f.0
      made (some e) = f.0 ∙ sym f.1

  pub probe-Balanced : Leads Balanced Balanced (probe d)
  unfolding probe held
  probe-Balanced s b = unless_error-Leads (d.keep_alive s.trace) _ b

  pub make_forwarder-Balanced : (method : Bytes) → Leads Balanced Balanced (make_forwarder d method)
  unfolding make_forwarder held
  make_forwarder-Balanced method s b = made (d.new_forwarder s.trace method)
    where
      made :
          (e : Option Error) → Ends Balanced (made_forwarder e (called (new_forwarder method e) s))
      made none = rw b
      made (some e) = b

  pub start_forwarder-Balanced : (o : StartOptions) → Leads Balanced Balanced (start_forwarder d o)
  unfolding start_forwarder held
  start_forwarder-Balanced o s b = unless_error-Leads (d.forwarder_start s.trace o) _ b

  pub forward_port-Balanced :
      (cfg : Config) (m : UpnpMapping) → Leads Balanced Balanced (forward_port d cfg m)
  unfolding forward_port held
  forward_port-Balanced cfg m s b =
      Ends-if Balanced (not cfg.upnp) _ _ b
        (Ends-if Balanced (not d.has_upnp) _ _ b (mapped (d.upnp_forward s.trace m)))
    where
      mapped : (e : Option Error) → Ends Balanced (forwarded e (called (upnp_forward m e) s))
      mapped none = rw b
      mapped (some e) = b

  pub notify_mapping-Balanced :
      (cfg : Config) (target : AddrPort) (m : Mapping)
      → Leads Balanced Balanced (notify_mapping d cfg target m)
  unfolding notify_mapping held
  notify_mapping-Balanced cfg target m s b =
      Ends-if Balanced d.has_notify _ _ (unless_error-Leads (d.notify s.trace) _ b) b

  pub check_initial_ports-Balanced :
      (cfg : Config) (target : AddrPort) (m : Mapping)
      → Leads Balanced Balanced (check_initial_ports d cfg target m)
  unfolding check_initial_ports held
  check_initial_ports-Balanced cfg target m =
      Leads-if Balanced Balanced (cfg.udp || not d.has_initial_check) _ (all_checks d target m)
        (λ s b. b) (λ s b. b)

  pub require_target-Balanced :
      (cfg : Config) (r : Result) → Leads Balanced Balanced (require_target d cfg r)
  unfolding require_target target_is_closed held
  require_target-Balanced cfg r =
      Leads-if Balanced Balanced (cfg.retry_target && not cfg.udp) _ done
        (Leads-bind Balanced Balanced Balanced (target_is_closed d r) _
          (Leads-if Balanced Balanced r.ports.checked _ _ (λ s b. b) (λ s b. b))
          λ c. Leads-if Balanced Balanced c _ done (λ s b. b) (λ s b. b))
        (λ s b. b)
