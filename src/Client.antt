-- ===== src/Client.antt =====
-- The state of includes/ClientServer.hpp, its registration and its end. The children hold the other
-- operations of srcs/Server/ClientServer.cpp. What is logged is left out, and with it the address of
-- the peer.
pub mod Process
pub mod Reading
pub mod Script
pub mod Sending
pub mod Invariant
pub mod Outcome
pub mod Reachable
pub mod Wire
pub mod Release
use webserv_team.Base.{
  ℕ, zero, suc, ◌+◌, ◌-◌, ◌*◌, ◌/◌, ◌%◌, ◌^◌, ◌≤◌, ◌<◌, min, ◌≡◌, refl, sym, ap, ◌∙◌, ◌≢◌, ◌↔◌, ◌⊎◌,
  inl, inr, Bool, true, false, not, ◌&&◌, ◌||◌, Option, none, some, List, [], ◌∷◌, ◌++◌, map,
  String, arith, ltb, leb, ◌==◌, if◌then◌else◌, ==_iff, Bool-cases, Option-cases, Bytes, codes,
  length, is_empty, take, drop, length-append, length-take, length-drop, take-append-drop,
  take-append, drop-append, take-append_long, drop-append_long, take_all, drop_all, take-min,
  drop-min, All, All-append, ◌=ᵇ◌, =ᵇ_iff, =ᵇ_self, has_byte, cut, cut-append, starts_with, find,
  ends_in, starts_in,
}
use webserv_team.Config.{ServerConfig}
use webserv_team.Request.{RequestParser}
use webserv_team.Response.{ResponseBuilder}
use webserv_team.Kernel.{Events, Kernel}
use webserv_team.Multiplexer.{
  Failure, Listener, client_at, script_of, Machine, add_listener, modify_listener, remove_listener,
  close_fd,
}
use webserv_team.Cgi.Process.{CgiProcess, terminate_process}

-- What a handler comes to: the states it leaves, an access through a null or a deleted pointer, or a
-- loop of the request parser that has not ended within its fuel.
pub data Reaction {ℓ} (A : Type ℓ) : Type ℓ where
  reacts : A → Reaction A
  crashes hangs : Reaction A

infixl 5 ◌>>=◌
abbrev pub ◌>>=◌ {ℓ κ} : {A : Type ℓ} {B : Type κ} → Reaction A → (A → Reaction B) → Reaction B
reacts a >>= f = f a
crashes >>= f = crashes
hangs >>= f = hangs

-- `ClientServer`: `place` is its place in `_clients`. `is_shared` tells that the pending handler's
-- pointer to the response builder is good: it is not once the client has deleted that builder.
pub record Client : Type 0 where
  pub place : ℕ
  pub is_started : Bool
  pub server_socket_fd : ℕ
  pub peer_socket_fd : ℕ
  pub events : Events
  pub parser : Option RequestParser
  pub request_buffer : Bytes
  pub response_buffer : Bytes
  pub response_ready : Bool
  pub last_activity : ℕ
  pub continue_sent : Bool
  pub pending_cgi : Option CgiProcess
  pub is_shared : Bool
  pub waiting_for_cgi : Bool
  pub response_builder : Option ResponseBuilder
  pub server_configs : List ServerConfig

abbrev pub both : Events
both = record { input = true; output = true; hang_up = false; error = false }

-- The constructor; `_response_ready`, which it leaves unset, is false here.
unfoldable pub new_client : ℕ → ℕ → ℕ → List ServerConfig → ℕ → Client
new_client place server_fd peer_fd configs now = record {
  place = place;
  is_started = false;
  server_socket_fd = server_fd;
  peer_socket_fd = peer_fd;
  events = both;
  parser = none;
  request_buffer = [];
  response_buffer = [];
  response_ready = false;
  last_activity = now;
  continue_sent = false;
  pending_cgi = none;
  is_shared = false;
  waiting_for_cgi = false;
  response_builder = none;
  server_configs = configs;
}

unfoldable pub set_peer_socket_fd : ℕ → Client → Client
set_peer_socket_fd fd c = record c { peer_socket_fd = fd }

unfoldable pub set_server_socket_fd : ℕ → Client → Client
set_server_socket_fd fd c = record c { server_socket_fd = fd }

-- `RegisterWithIOMultiplexer`.
unfoldable pub register_with_io_multiplexer :
    {W : Type 0} → Kernel W → Client → Machine W → Client × Machine W
register_with_io_multiplexer k c m =
    let c' = record c { events = both } in
    let (failure, m') = add_listener k (client_at c.place) c.peer_socket_fd both m in
    if c.is_started then (c, m) else elim failure [
      | none ↦ (record c' { is_started = true }, m')
      | some _ ↦ (c', close_fd k c.peer_socket_fd m')
    ]

-- `delete _pendingCgi`.
unfoldable pub delete_cgi :
    {W : Type 0} → Kernel W → Bool → Option CgiProcess → Machine W → Machine W
delete_cgi k is_started none m = m
delete_cgi k is_started (some p) m = (terminate_process k is_started p m).1

-- `terminate`.
unfoldable pub terminate : {W : Type 0} → Kernel W → Client → Machine W → Client × Machine W
terminate k c m =
    let m' = delete_cgi k c.is_started c.pending_cgi m in
    if not c.is_started then (c, m) else (
      record c {
        parser = none;
        response_builder = none;
        pending_cgi = none;
        is_shared = false;
        request_buffer = [];
        response_buffer = [];
        response_ready = false;
        waiting_for_cgi = false;
        is_started = false;
      },
      close_fd k c.peer_socket_fd (remove_listener k c.events c.peer_socket_fd m').1,
    )

unfoldable pub modify_epoll_event :
    {W : Type 0} → Kernel W → Events → Client → Machine W → Client × Machine W
modify_epoll_event k e c m =
    (record c { events = e }, (modify_listener k (client_at c.place) c.peer_socket_fd e m).1)

unfoldable pub update_activity : {W : Type 0} → Kernel W → Machine W → Client → Client
update_activity k m c = record c { last_activity = k.now m.world }

abbrev pub time_out_seconds : ℕ
time_out_seconds = 10

-- The clock is taken not to go back.
unfoldable pub has_time_out : {W : Type 0} → Kernel W → Machine W → Client → Bool
has_time_out k m c = ltb time_out_seconds (k.now m.world - c.last_activity)
