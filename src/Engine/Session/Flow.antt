-- ===== src/Engine/Session/Flow.antt =====
-- What the steps of `StartSession` call, keep and answer.
use qnatter.Common.{ℕ, Bool, false, Option, List, Bytes, ℤ}
use qnatter.Errors.{Error}
pub use qnatter.Portcheck.{PortResult, port_closed, port_unknown, port_open}
use qnatter.Net.{Addr, AddrPort}
use qnatter.Stun.Mapping.{Mapping}
use qnatter.Engine.Loop.{Answer}

-- `PortReport`
pub record PortReport : Type 0 where
  pub checked : Bool
  pub target_lan : PortResult
  pub qnatter_lan : PortResult
  pub outer_lan : PortResult
  pub outer_wan : PortResult

-- `Result`
pub record Result : Type 0 where
  pub method : Bytes
  pub mapping : Mapping
  pub target : AddrPort
  pub unstable : Bool
  pub ports : PortReport

-- `forward.StartOptions`, as far as `StartSession` sets it
pub record StartOptions : Type 0 where
  pub ip : Bytes
  pub port : ℕ
  pub target_ip : Bytes
  pub target_port : ℕ
  pub udp : Bool
  pub interface : Bytes
  pub route_mark : Bytes
  pub route_table : Bytes
  pub route_priority : Bytes

-- `UPnPMapping`
pub record UpnpMapping : Type 0 where
  pub external_port : ℕ
  pub internal_port : ℕ
  pub internal_client : Bytes
  pub udp : Bool
  pub lease_duration : ℤ

-- A call that went out, with its error if it is one that may acquire something.
pub data Call : Type 0 where
  get_mapping : Call
  -- `keepAlive := deps.KeepAlive`: a client that the caller made is taken over.
  take_keep_alive : Call
  new_keep_alive : Mapping → Option Error → Call
  keep_alive : Call
  new_forwarder : Bytes → Option Error → Call
  forwarder_start : StartOptions → Call
  upnp_forward : UpnpMapping → Option Error → Call
  notify : Bool → AddrPort → AddrPort → Call
  test_lan : AddrPort → Addr → Call
  test_wan : ℕ → Addr → Call
  on_mapped : Result → Call
  on_upnp_error : Error → Call
  on_close_error : Error → Call
  forwarder_stop keep_alive_close upnp_revoke : Call

-- The calls so far, the newest first.
abbrev pub Trace : Type 0
Trace = List Call

-- `Dependencies`: which of them are set, and what they answer behind a trace.
pub record Dependencies : Type 0 where
  pub has_stun : Bool
  pub stun : Trace → Answer
  pub has_keep_alive : Bool
  pub has_new_keep_alive : Bool
  pub new_keep_alive : Trace → Mapping → Option Error
  pub keep_alive : Trace → Option Error
  pub keep_alive_close : Trace → Option Error
  pub new_forwarder : Trace → Bytes → Option Error
  pub forwarder_start : Trace → StartOptions → Option Error
  pub forwarder_stop : Trace → Option Error
  pub has_upnp : Bool
  pub upnp_forward : Trace → UpnpMapping → Option Error
  pub upnp_revoke : Trace → Option Error
  pub has_notify : Bool
  pub notify : Trace → Option Error
  pub has_initial_check : Bool
  pub test_lan : Trace → AddrPort → Addr → PortResult
  pub test_wan : Trace → ℕ → Addr → PortResult

-- The resources of a `Session`: which of its fields are not nil.
pub record Session : Type 0 where
  pub forwarder : Bool
  pub keep_alive : Bool
  pub upnp : Bool

abbrev pub no_resources : Session
no_resources = record { forwarder = false; keep_alive = false; upnp = false }

pub record State : Type 0 where
  pub trace : Trace
  pub session : Session

-- The outcome of a step: it goes on with a value, or `StartSession` returns an error.
pub data Flow {ℓ} (A : Type ℓ) : Type ℓ where
  goes : A → State → Flow A
  fails : Error → State → Flow A

abbrev pub Step {ℓ} : Type ℓ → Type ℓ
Step A = State → Flow A

abbrev pub continue_with {ℓ κ} : {A : Type ℓ} {B : Type κ} → Flow A → (A → Step B) → Flow B
continue_with (goes a s) f = f a s
continue_with (fails e s) f = fails e s

infixl 5 ◌>>=◌ ◌>>◌
abbrev pub ◌>>=◌ {ℓ κ} : {A : Type ℓ} {B : Type κ} → Step A → (A → Step B) → Step B
m >>= f = λ s. continue_with (m s) f

abbrev pub ◌>>◌ {κ} : {B : Type κ} → Step (Unit {0}) → Step B → Step B
m >> k = m >>= λ _. k
