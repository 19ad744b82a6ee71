-- ===== src/Kernel.antt =====
-- The system calls of srcs/Server and srcs/CGI, over the states of the machine. What a call tells is
-- what the program reads of it: a call that fails gives `none`, `false`, or no bytes.
use webserv_team.Base.{
  ℕ, ◌≡◌, Bool, true, false, not, ◌&&◌, ◌||◌, Option, some, List, ◌++◌, ◌==◌, Bytes, is_empty, take,
}
use webserv_team.Response.{Os}

-- The bits of `epoll_event::events` that the program reads or writes.
pub record Events : Type 0 where
  pub input : Bool
  pub output : Bool
  pub hang_up : Bool
  pub error : Bool

-- The second argument of `epoll_ctl`.
pub data Control : Type 0 where
  ctl_add ctl_mod ctl_del : Control

-- What `execve` is given in the child: the arguments, the environment and the standard input.
pub record Program : Type 0 where
  pub arguments : List Bytes
  pub environment : List Bytes
  pub stdin : Option ℕ

-- A `sockaddr_in`: the address as the number in `s_addr`, which is in network order, and the port.
pub record Address : Type 0 where
  pub s_addr : ℕ
  pub port : ℕ

-- `recv` and `send` give the bytes read and the number of bytes sent, `read` gives no bytes at the
-- end; `pipe` gives the end to read and the end to write; `fork` is given what the child runs and
-- where it writes, `temporary_file` what the file holds.
pub record Kernel (W : Type 0) : Type 0 where
  pub os : Os W
  pub now : W → ℕ
  pub epoll_ctl : Control → ℕ → Events → W → Bool × W
  pub close : ℕ → W → W
  pub recv : ℕ → ℕ → W → Bytes × W
  pub send : ℕ → Bytes → W → ℕ × W
  pub local_port : ℕ → W → ℕ
  pub temporary_file : Bytes → W → Option ℕ × W
  pub pipe : W → Option (ℕ × ℕ) × W
  pub fork : Program → ℕ → W → Option ℕ × W
  pub read : ℕ → ℕ → W → Option Bytes × W
  pub kill : ℕ → W → W
  pub wait : ℕ → W → W
  pub socket : W → Option ℕ × W
  pub reuse_address : ℕ → W → Bool × W
  pub bind : ℕ → Address → W → Bool × W
  pub listen : ℕ → W → Bool × W
  pub accept : ℕ → W → Option ℕ × W
  pub inet_pton : Bytes → Option ℕ

-- What `epoll_ctl` and `close` are documented to do with the set of watched descriptors: a call that
-- fails changes nothing, and a descriptor that is closed is no longer watched.
pub record IsEpoll {W : Type 0} (k : Kernel W) (watched : ℕ → W → Bool) : Type 0 where
  pub add_ok :
      (fd j : ℕ) (e : Events) (w : W)
      → (k.epoll_ctl ctl_add fd e w).0 ≡ true
      → watched j (k.epoll_ctl ctl_add fd e w).1 ≡ (fd == j || watched j w)
  pub del_ok :
      (fd j : ℕ) (e : Events) (w : W)
      → (k.epoll_ctl ctl_del fd e w).0 ≡ true
      → watched j (k.epoll_ctl ctl_del fd e w).1 ≡ (not (fd == j) && watched j w)
  pub mod_ok :
      (fd j : ℕ) (e : Events) (w : W) → watched j (k.epoll_ctl ctl_mod fd e w).1 ≡ watched j w
  pub fails :
      (c : Control) (fd j : ℕ) (e : Events) (w : W)
      → (k.epoll_ctl c fd e w).0 ≡ false
      → watched j (k.epoll_ctl c fd e w).1 ≡ watched j w
  pub closes : (fd j : ℕ) (w : W) → watched j (k.close fd w) ≡ (not (fd == j) && watched j w)

-- What `send` is documented to do with the bytes that a socket has taken; nothing that is called at
-- the end of a client takes bytes back.
pub record IsWire {W : Type 0} (k : Kernel W) (wire : ℕ → W → Bytes) : Type 0 where
  pub sends :
      (fd : ℕ) (text : Bytes) (w : W)
      → wire fd (k.send fd text w).1 ≡ wire fd w ++ take (k.send fd text w).0 text
  pub ctl_keeps :
      (c : Control) (fd j : ℕ) (e : Events) (w : W) → wire j (k.epoll_ctl c fd e w).1 ≡ wire j w
  pub close_keeps : (fd j : ℕ) (w : W) → wire j (k.close fd w) ≡ wire j w
  pub kill_keeps : (pid j : ℕ) (w : W) → wire j (k.kill pid w) ≡ wire j w
  pub wait_keeps : (pid j : ℕ) (w : W) → wire j (k.wait pid w) ≡ wire j w

-- What `read` is documented to do on a pipe with bytes that are not read yet: it gives some of them,
-- in order, and nothing once there are none.
pub record IsPipe {W : Type 0} (k : Kernel W) (unread : ℕ → W → Bytes) : Type 0 where
  pub got : ℕ → W → Bytes
  pub reads : (fd : ℕ) (w : W) → (k.read fd 1023 w).0 ≡ some (got fd w)
  pub leaves : (fd : ℕ) (w : W) → unread fd w ≡ got fd w ++ unread fd (k.read fd 1023 w).1
  pub goes_on : (fd : ℕ) (w : W) → is_empty (got fd w) ≡ is_empty (unread fd w)
