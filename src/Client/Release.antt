-- ===== src/Client/Release.antt =====
-- What the end of a client leaves in the table of listeners.
use mathlib.Core.Path.{subst}
use webserv_team.Base.{
  ℕ, ◌≡◌, refl, sym, ap, ◌∙◌, true, ◌||◌, Option, none, some, arith, ◌==◌, if◌then◌else◌, ==_iff,
}
use webserv_team.Kernel.{Events, Kernel}
use webserv_team.Multiplexer.{Machine, find_listener, remove_listener, close_fd}
use webserv_team.Multiplexer.Table.{IsSorted, find-erase, erase-IsSorted}
use webserv_team.Cgi.Process.{
  CgiProcess, terminate_process, drop_output, end_process, close_some, readable,
}
use webserv_team.Client.{Client, terminate, delete_cgi}
use webserv_team.Client.Script.{is_fd}

-- The pipe of a client's script.
abbrev pub output_of : Option CgiProcess → Option ℕ
output_of none = none
output_of (some p) = p.output_fd

module _ {W : Type 0} (k : Kernel W) where
  find-remove :
      (e : Events) (fd j : ℕ) (m : Machine W)
      → IsSorted m.listeners
      → find_listener j (remove_listener k e fd m).1.listeners
        ≡ (if fd == j then none else find_listener j m.listeners)
  unfolding remove_listener
  find-remove e fd j m sorted = ground (arith, find-erase fd j m.listeners sorted, ==_iff fd j)

  remove-IsSorted :
      (e : Events) (fd : ℕ) (m : Machine W)
      → IsSorted m.listeners
      → IsSorted (remove_listener k e fd m).1.listeners
  unfolding remove_listener
  remove-IsSorted e fd m sorted = ground (arith, erase-IsSorted fd m.listeners sorted)

  end_process-listeners :
      (o : Option ℕ) (m : Machine W) → (end_process k o m).listeners ≡ m.listeners
  unfolding end_process
  end_process-listeners o m = ground arith

  close_some-listeners : (o : Option ℕ) (m : Machine W) → (close_some k o m).listeners ≡ m.listeners
  unfolding close_some close_fd
  close_some-listeners o m = ground arith

  delete_cgi-listeners :
      (p : CgiProcess) (m : Machine W)
      → (delete_cgi k true (some p) m).listeners ≡ (drop_output k p.output_fd m).listeners
  unfolding delete_cgi terminate_process
  delete_cgi-listeners p m = close_some-listeners p.body_fd _ ∙ end_process-listeners p.pid _

  find-drop_output :
      (o : Option ℕ) (j : ℕ) (m : Machine W)
      → IsSorted m.listeners
      → (find_listener j (drop_output k o m).listeners
          ≡ (if is_fd o j then none else find_listener j m.listeners))
        × IsSorted (drop_output k o m).listeners
  unfolding drop_output close_fd
  find-drop_output none j m sorted = (refl, sorted)
  find-drop_output (some fd) j m sorted =
      (find-remove readable fd j m sorted, remove-IsSorted readable fd m sorted)

  find-delete_cgi :
      (o : Option CgiProcess) (j : ℕ) (m : Machine W)
      → IsSorted m.listeners
      → (find_listener j (delete_cgi k true o m).listeners
          ≡ (if is_fd (output_of o) j then none else find_listener j m.listeners))
        × IsSorted (delete_cgi k true o m).listeners
  unfolding delete_cgi
  find-delete_cgi none j m sorted = (refl, sorted)
  find-delete_cgi (some p) j m sorted =
      let e = delete_cgi-listeners p m in
      let dropped = find-drop_output p.output_fd j m sorted in
      (ap (find_listener j) e ∙ dropped.0, subst IsSorted (sym e) dropped.1)

  -- The end of a client takes the descriptors of its socket and of its script's pipe out of the table,
  -- and no others.
  pub find-terminate :
      (c : Client) (j : ℕ) (m : Machine W)
      → IsSorted m.listeners
      → c.is_started ≡ true
      → find_listener j (terminate k c m).1.listeners ≡ (
          if c.peer_socket_fd == j || is_fd (output_of c.pending_cgi) j
          then none
          else find_listener j m.listeners)
  unfolding terminate close_fd
  find-terminate c j m sorted started =
      let cgi = find-delete_cgi c.pending_cgi j m sorted in
      let m' = delete_cgi k c.is_started c.pending_cgi m in
      ground (
        arith,
        cgi.0,
        find-remove c.events c.peer_socket_fd j (delete_cgi k true c.pending_cgi m) cgi.1,
      )
