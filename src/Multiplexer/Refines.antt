-- ===== src/Multiplexer/Refines.antt =====
-- The table of listeners and the set that `epoll` watches, as one abstract map.
use webserv_team.Base.{ℕ, ◌≡◌, Bool, true, false, Option, none, some, ◌==◌, if◌then◌else◌}
use webserv_team.Kernel.{Events, Kernel}
use webserv_team.Multiplexer.{
  already_added, not_found, mismatch, ctl_failed, same_listener, Listener, Failure, Machine,
  find_listener, add_listener, modify_listener, remove_listener,
}
use webserv_team.Multiplexer.Table.{IsSorted}

-- What the table stands for: which listener a descriptor has.
abbrev pub Registry : Type 0
Registry = ℕ → Option Listener

pub data Call : Type 0 where
  adds modifies : Listener → ℕ → Events → Call
  removes : ℕ → Events → Call

unfoldable pub perform : {W : Type 0} → Kernel W → Call → Machine W → Option Failure × Machine W
perform k (adds l fd e) m = add_listener k l fd e m
perform k (modifies l fd e) m = modify_listener k l fd e m
perform k (removes fd e) m = remove_listener k e fd m

-- What the call is to do.
unfoldable pub register : Call → Registry → Registry
register (adds l fd e) t j = if fd == j then some l else t j
register (modifies l fd e) t j = t j
register (removes fd e) t j = if fd == j then none else t j

abbrev pub is_some {ℓ} : {A : Type ℓ} → Option A → Bool
is_some none = false
is_some (some _) = true

-- The table has the listeners of the registry, and exactly its descriptors are watched.
pub record Implements {W : Type 0} (watched : ℕ → W → Bool) (m : Machine W) (t : Registry)
    : Type 0 where
  pub sorted : IsSorted m.listeners
  pub finds : (j : ℕ) → find_listener j m.listeners ≡ t j
  pub watches : (j : ℕ) → watched j m.world ≡ is_some (t j)

-- Which calls the registry refuses.
unfoldable pub refuses : Call → Registry → Option Failure
refuses (adds l fd e) t = elim (t fd) [ none ↦ none | some _ ↦ some already_added ]
refuses (modifies l fd e) t = elim (t fd) [
  | none ↦ some not_found
  | some l' ↦ if same_listener l' l then none else some mismatch
]
refuses (removes fd e) t = elim (t fd) [ none ↦ some not_found | some _ ↦ none ]

-- What a call comes to, by the registry.
pub data Refines {W : Type 0} (k : Kernel W) (watched : ℕ → W → Bool) (c : Call) (m : Machine W)
    (t : Registry) : Type 0 where
  refused :
      (f : Failure) → refuses c t ≡ some f → perform k c m ≡ (some f, m) → Refines k watched c m t
  fails : refuses c t ≡ none → (perform k c m).0 ≡ some ctl_failed → Refines k watched c m t
  done :
      refuses c t ≡ none
      → (perform k c m).0 ≡ none
      → Implements watched (perform k c m).1 (register c t)
      → Refines k watched c m t
