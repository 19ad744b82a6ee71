-- ===== src/Multiplexer.antt =====
-- srcs/Server/IOMultiplexer.cpp: the table of listeners, its operations, and the event loop over the
-- batches that `epoll_wait` gives. The listeners' `onEvent` is a parameter of the loop.
pub mod Table
pub mod Refines
pub mod Covered
use webserv_team.Base.{
  ℕ, zero, suc, ◌+◌, ◌-◌, ◌*◌, ◌/◌, ◌%◌, ◌^◌, ◌≤◌, ◌<◌, min, ◌≡◌, refl, sym, ap, ◌∙◌, ◌≢◌, ◌↔◌, ◌⊎◌,
  inl, inr, Bool, true, false, not, ◌&&◌, ◌||◌, Option, none, some, List, [], ◌∷◌, ◌++◌, map,
  String, arith, ltb, leb, ◌==◌, if◌then◌else◌, ==_iff, Bool-cases, Option-cases, Bytes, codes,
  length, is_empty, take, drop, length-append, length-take, length-drop, take-append-drop,
  take-append, drop-append, take-append_long, drop-append_long, take_all, drop_all, take-min,
  drop-min, All, All-append, ◌=ᵇ◌, =ᵇ_iff, =ᵇ_self, has_byte, cut, cut-append, starts_with, find,
  ends_in, starts_in,
}
use webserv_team.Kernel.{Events, Control, ctl_add, ctl_mod, ctl_del, Kernel}

-- The objects behind `IEvenetListeners *`: the server, a client by its place in `_clients`, and the
-- handler of a script by the place of its client.
pub data Listener : Type 0 where
  the_server : Listener
  client_at script_of : ℕ → Listener

unfoldable pub same_listener : Listener → Listener → Bool
same_listener the_server the_server = true
same_listener (client_at i) (client_at j) = i == j
same_listener (script_of i) (script_of j) = i == j
same_listener _ _ = false

-- `std::map<int, IEvenetListeners *>`, in the order of the descriptors.
abbrev pub Listeners : Type 0
Listeners = List (ℕ × Listener)

unfoldable pub find_listener : ℕ → Listeners → Option Listener
find_listener fd [] = none
find_listener fd ((j, l) ∷ ls) = if j == fd then some l else find_listener fd ls

unfoldable pub insert_listener : ℕ → Listener → Listeners → Listeners
insert_listener fd l [] = (fd, l) ∷ []
insert_listener fd l ((j, l') ∷ ls) =
    if ltb fd j then (fd, l) ∷ (j, l') ∷ ls else (j, l') ∷ insert_listener fd l ls

unfoldable pub erase_listener : ℕ → Listeners → Listeners
erase_listener fd [] = []
erase_listener fd ((j, l) ∷ ls) = if j == fd then ls else (j, l) ∷ erase_listener fd ls

-- The exceptions of the multiplexer.
pub data Failure : Type 0 where
  already_started unknown_fd already_added not_found mismatch ctl_failed : Failure

-- The multiplexer, and the machine that it runs on.
pub record Machine (W : Type 0) : Type 0 where
  pub listeners : Listeners
  pub is_started : Bool
  pub world : W

unfoldable pub add_listener :
    {W : Type 0} → Kernel W → Listener → ℕ → Events → Machine W → Option Failure × Machine W
add_listener k l fd e m = elim (find_listener fd m.listeners) [
  | some _ ↦ (some already_added, m)
  | none ↦
      let (ok, w) = k.epoll_ctl ctl_add fd e m.world in
      (
        if ok then none else some ctl_failed,
        record m { listeners = insert_listener fd l m.listeners; world = w },
      )
]

unfoldable pub modify_listener :
    {W : Type 0} → Kernel W → Listener → ℕ → Events → Machine W → Option Failure × Machine W
modify_listener k l fd e m = elim (find_listener fd m.listeners) [
  | none ↦ (some not_found, m)
  | some l' ↦
      let (ok, w) = k.epoll_ctl ctl_mod fd e m.world in
      if not (same_listener l' l)
      then (some mismatch, m)
      else (if ok then none else some ctl_failed, record m { world = w })
]

unfoldable pub remove_listener :
    {W : Type 0} → Kernel W → Events → ℕ → Machine W → Option Failure × Machine W
remove_listener k e fd m = elim (find_listener fd m.listeners) [
  | none ↦ (some not_found, m)
  | some _ ↦
      let (ok, w) = k.epoll_ctl ctl_del fd e m.world in
      (
        if ok then none else some ctl_failed,
        record m { listeners = erase_listener fd m.listeners; world = w },
      )
]

unfoldable pub close_fd : {W : Type 0} → Kernel W → ℕ → Machine W → Machine W
close_fd k fd m = record m { world = k.close fd m.world }

-- `_listeners.size()`.
unfoldable pub get_listeners_count : {W : Type 0} → Machine W → ℕ
get_listeners_count m = length m.listeners

unfoldable pub set_started : {W : Type 0} → Bool → Machine W → Machine W
set_started state m = record m { is_started = state }

-- The handler of SIGINT, of srcs/Utils/Utils.cpp.
unfoldable pub sigint_handle : {W : Type 0} → Machine W → Machine W
sigint_handle m = set_started false m

-- The `for` loop over the events of a batch. `on_event` is what the listeners do.
unfoldable pub run_events :
    {W : Type 0} {S : Type 0}
    → (S → Machine W)
    → (Listener → ℕ → Events → S → S)
    → List (ℕ × Events)
    → S
    → Option Failure × S
run_events machine on_event [] s = (none, s)
run_events machine on_event ((fd, e) ∷ events) s = elim (find_listener fd (machine s).listeners) [
  | none ↦ (some unknown_fd, s)
  | some l ↦ run_events machine on_event events (on_event l fd e s)
]

-- How a run of the event loop stands after some batches: it has left the loop and calls `terminate`,
-- it has thrown, or it waits for the next batch.
pub data LoopState (S : Type 0) : Type 0 where
  leaves waits : S → LoopState S
  throws : Failure → S → LoopState S

-- The `while` loop, over what `epoll_wait` gives: no batch where it fails, which goes on with the next
-- call, since `debug_mode()` is true.
unfoldable pub wait_loop :
    {W : Type 0} {S : Type 0}
    → (S → Machine W)
    → (Listener → ℕ → Events → S → S)
    → List (Option (List (ℕ × Events)))
    → S
    → LoopState S
wait_loop machine on_event [] s = if (machine s).is_started then waits s else leaves s
wait_loop machine on_event (none ∷ batches) s =
    let later = wait_loop machine on_event batches s in
    if (machine s).is_started then later else leaves s
wait_loop machine on_event (some events ∷ batches) s =
    let (failure, s') = run_events machine on_event events s in
    let later = wait_loop machine on_event batches s' in
    if (machine s).is_started
    then elim failure [ some f ↦ throws f s' | none ↦ later ]
    else leaves s

-- `runEventLoop`: what it comes to where it does not enter the loop is `throws already_started` or,
-- without listeners, a return. `start` sets `_is_started`.
unfoldable pub run_event_loop :
    {W : Type 0} {S : Type 0}
    → (S → Machine W)
    → (S → S)
    → (Listener → ℕ → Events → S → S)
    → List (Option (List (ℕ × Events)))
    → S
    → Option (LoopState S)
run_event_loop machine start on_event batches s =
    if (machine s).is_started
    then some (throws already_started s)
    else if get_listeners_count (machine s) == 0
    then none
    else some (wait_loop machine on_event batches (start s))
