-- ===== src/Client/Wire.antt =====
-- The end of a client takes no bytes back.
use webserv_team.Base.{ℕ, ◌≡◌, refl, ◌∙◌, Bool, true, false, Option, none, some, arith, Bytes}
use webserv_team.Kernel.{Events, ctl_del, Kernel, IsWire}
use webserv_team.Multiplexer.{Machine, remove_listener, close_fd}
use webserv_team.Cgi.Process.{
  CgiProcess, terminate_process, drop_output, end_process, close_some, readable,
}
use webserv_team.Client.{Client, terminate, delete_cgi}

module _ {W : Type 0} {k : Kernel W} {wire : ℕ → W → Bytes} (is_wire : IsWire k wire) where
  remove_listener-wire :
      (e : Events) (fd j : ℕ) (m : Machine W)
      → wire j (remove_listener k e fd m).1.world ≡ wire j m.world
  unfolding remove_listener
  remove_listener-wire e fd j m = ground (arith, is_wire.ctl_keeps ctl_del fd j e m.world)

  drop_output-wire :
      (o : Option ℕ) (j : ℕ) (m : Machine W) → wire j (drop_output k o m).world ≡ wire j m.world
  unfolding drop_output close_fd
  drop_output-wire none j m = refl
  drop_output-wire (some fd) j m = is_wire.close_keeps fd j _ ∙ remove_listener-wire readable fd j m

  end_process-wire :
      (o : Option ℕ) (j : ℕ) (m : Machine W) → wire j (end_process k o m).world ≡ wire j m.world
  unfolding end_process
  end_process-wire none j m = refl
  end_process-wire (some pid) j m = is_wire.wait_keeps pid j _ ∙ is_wire.kill_keeps pid j m.world

  close_some-wire :
      (o : Option ℕ) (j : ℕ) (m : Machine W) → wire j (close_some k o m).world ≡ wire j m.world
  unfolding close_some close_fd
  close_some-wire none j m = refl
  close_some-wire (some fd) j m = is_wire.close_keeps fd j m.world

  delete_cgi-wire :
      (b : Bool) (o : Option CgiProcess) (j : ℕ) (m : Machine W)
      → wire j (delete_cgi k b o m).world ≡ wire j m.world
  unfolding delete_cgi terminate_process
  delete_cgi-wire b none j m = refl
  delete_cgi-wire false (some p) j m = refl
  delete_cgi-wire true (some p) j m =
      close_some-wire p.body_fd j _
      ∙ (end_process-wire p.pid j _ ∙ drop_output-wire p.output_fd j m)

  pub terminate-wire :
      (c : Client) (j : ℕ) (m : Machine W) → wire j (terminate k c m).1.world ≡ wire j m.world
  unfolding terminate close_fd
  terminate-wire c j m =
      let m' = delete_cgi k c.is_started c.pending_cgi m in
      ground (
        arith,
        is_wire.close_keeps c.peer_socket_fd j
            (remove_listener k c.events c.peer_socket_fd m').1.world,
        remove_listener-wire c.events c.peer_socket_fd j m',
        delete_cgi-wire c.is_started c.pending_cgi j m,
      )
