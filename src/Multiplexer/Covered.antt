-- ===== src/Multiplexer/Covered.antt =====
-- Which descriptors `epoll_wait` can give, whatever fails on the way.
use webserv_team.Base.{
  ℕ, ◌≡◌, ◌≢◌, ◌⊎◌, inl, inr, Bool, true, false, some, List, ◌∷◌, arith, ==_iff, Option-cases,
}
use webserv_team.Kernel.{Events, ctl_add, Kernel, IsEpoll}
use webserv_team.Multiplexer.{
  Listener, ctl_failed, Machine, find_listener, add_listener, modify_listener, remove_listener,
  close_fd, run_events,
}
use webserv_team.Multiplexer.Table.{
  IsSorted, find-insert, find-erase, insert-IsSorted, erase-IsSorted,
}
use webserv_team.Multiplexer.Refines.{is_some}

-- The calls that the objects of the program make, failing ones included, but no removal that fails.
pub data Step {W : Type 0} (k : Kernel W) (m : Machine W) : Machine W → Type 0 where
  adds : (l : Listener) (fd : ℕ) (e : Events) → Step k m (add_listener k l fd e m).1
  modifies : (l : Listener) (fd : ℕ) (e : Events) → Step k m (modify_listener k l fd e m).1
  removes :
      (fd : ℕ) (e : Events)
      → (remove_listener k e fd m).0 ≢ some ctl_failed
      → Step k m (remove_listener k e fd m).1
  closes : (fd : ℕ) → Step k m (close_fd k fd m)

pub data Reach {W : Type 0} (k : Kernel W) (m : Machine W) : Machine W → Type 0 where
  here : Reach k m m
  next : {n p : Machine W} → Reach k m n → Step k n p → Reach k m p

-- Every watched descriptor has a listener.
pub record IsCovered {W : Type 0} (watched : ℕ → W → Bool) (m : Machine W) : Type 0 where
  pub sorted : IsSorted m.listeners
  pub covers :
      (j : ℕ) → (watched j m.world ≡ false) ⊎ (is_some (find_listener j m.listeners) ≡ true)

module _ {W : Type 0} {k : Kernel W} {watched : ℕ → W → Bool} (epoll : IsEpoll k watched) where
  adds-IsCovered :
      (l : Listener) (fd : ℕ) (e : Events) (m : Machine W)
      → IsCovered watched m
      → IsCovered watched (add_listener k l fd e m).1
  unfolding add_listener
  adds-IsCovered l fd e m c = elim (Option-cases (find_listener fd m.listeners)) [
    | inl free ↦ record {
      sorted = ground (arith, insert-IsSorted fd l m.listeners free c.sorted);
      covers = λ j. ground (
        arith,
        find-insert fd j l m.listeners free,
        c.covers j,
        epoll.add_ok fd j e m.world,
        epoll.fails ctl_add fd j e m.world,
      );
    }
    | inr taken ↦ record {
      sorted = ground (arith, c.sorted);
      covers = λ j. ground (arith, c.covers j);
    }
  ]

  modifies-IsCovered :
      (l : Listener) (fd : ℕ) (e : Events) (m : Machine W)
      → IsCovered watched m
      → IsCovered watched (modify_listener k l fd e m).1
  unfolding modify_listener
  modifies-IsCovered l fd e m c = record {
    sorted = ground (arith, c.sorted);
    covers = λ j. ground (arith, c.covers j, epoll.mod_ok fd j e m.world);
  }

  removes-IsCovered :
      (fd : ℕ) (e : Events) (m : Machine W)
      → (remove_listener k e fd m).0 ≢ some ctl_failed
      → IsCovered watched m
      → IsCovered watched (remove_listener k e fd m).1
  unfolding remove_listener
  removes-IsCovered fd e m ok c = elim (Option-cases (find_listener fd m.listeners)) [
    | inl free ↦ record {
      sorted = ground (arith, c.sorted);
      covers = λ j. ground (arith, c.covers j);
    }
    | inr taken ↦ record {
      sorted = ground (arith, erase-IsSorted fd m.listeners c.sorted);
      covers = λ j. ground (
        arith,
        find-erase fd j m.listeners c.sorted,
        c.covers j,
        epoll.del_ok fd j e m.world,
        ==_iff fd j,
      );
    }
  ]

  closes-IsCovered :
      (fd : ℕ) (m : Machine W) → IsCovered watched m → IsCovered watched (close_fd k fd m)
  unfolding close_fd
  closes-IsCovered fd m c = record {
    sorted = c.sorted;
    covers = λ j. ground (arith, c.covers j, epoll.closes fd j m.world);
  }

  Step-IsCovered : {m n : Machine W} → Step k m n → IsCovered watched m → IsCovered watched n
  Step-IsCovered (adds l fd e) c = adds-IsCovered l fd e _ c
  Step-IsCovered (modifies l fd e) c = modifies-IsCovered l fd e _ c
  Step-IsCovered (removes fd e ok) c = removes-IsCovered fd e _ ok c
  Step-IsCovered (closes fd) c = closes-IsCovered fd _ c

  -- However the objects add, change and remove listeners and close descriptors, and whichever of
  -- their calls fail, every descriptor that `epoll` watches keeps a listener in the table, so long as
  -- no removal fails in `epoll_ctl` itself.
  pub Reach-IsCovered : {m n : Machine W} → IsCovered watched m → Reach k m n → IsCovered watched n
  Reach-IsCovered c here = c
  Reach-IsCovered c (next r s) = Step-IsCovered s (Reach-IsCovered c r)

  -- Where every watched descriptor has a listener, an event of a watched descriptor that stands first
  -- in its batch is given to a listener, and the loop goes on with the rest of the batch.
  pub run_events_watched :
      {S : Type 0} (machine : S → Machine W) (on_event : Listener → ℕ → Events → S → S) (fd : ℕ)
      (e : Events) (events : List (ℕ × Events)) (s : S)
      → IsCovered watched (machine s)
      → watched fd (machine s).world ≡ true
      → (l : Listener) × (run_events machine on_event ((fd, e) ∷ events) s
          ≡ run_events machine on_event events (on_event l fd e s))
  unfolding run_events
  run_events_watched machine on_event fd e events s c h =
      elim (Option-cases (find_listener fd (machine s).listeners)) [
        | inl free ↦ ground (arith, c.covers fd)
        | inr (l, found) ↦ (l, ground arith)
      ]
