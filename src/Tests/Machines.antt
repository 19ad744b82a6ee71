-- ===== src/Tests/Machines.antt =====
-- A small machine: a set of watched descriptors, one wire, and one pipe.
use webserv_team.Base.{
  ℕ, ◌≡◌, refl, sym, Bool, true, false, not, ◌&&◌, ◌||◌, none, some, [], ◌∷◌, ◌++◌, arith, ◌==◌,
  Bytes, codes, is_empty, take, drop, take-append-drop,
}
use webserv_team.Response.{Os}
use webserv_team.Kernel.{Control, ctl_add, ctl_mod, ctl_del, Kernel, IsEpoll, IsWire, IsPipe}
use webserv_team.Multiplexer.{Machine}

pub record World : Type 0 where
  pub watched : ℕ → Bool
  pub wire : Bytes
  pub unread : Bytes

-- A machine without files.
abbrev pub no_files : Os World
no_files = record {
  stat = λ path w. some (record { is_directory = false; is_readable = true });
  list_directory = λ path w. none;
  content_of = λ path w. none;
  is_writable = λ path w. false;
  remove_directory = λ path w. (false, w);
  remove_file = λ path w. (false, w);
  write_file = λ path text w. (false, w);
  http_date = λ w. codes "Thu, 01 Jan 1970 00:00:00 GMT";
  timestamp = λ w. codes "19700101";
  session_id = λ w. codes "1";
}

abbrev control : Control → ℕ → World → World
control ctl_add fd w = record w { watched = λ j. fd == j || w.watched j }
control ctl_mod fd w = w
control ctl_del fd w = record w { watched = λ j. not (fd == j) && w.watched j }

-- The socket takes two bytes at a time, the pipe gives two at a time, and the peer sends nothing.
abbrev pub toy : Kernel World
toy = record {
  os = no_files;
  now = λ w. 0;
  epoll_ctl = λ c fd e w. (true, control c fd w);
  close = λ fd w. record w { watched = λ j. not (fd == j) && w.watched j };
  recv = λ fd n w. ([], w);
  send = λ fd text w. (2, record w { wire = w.wire ++ take 2 text });
  local_port = λ fd w. 20480;
  temporary_file = λ text w. (some 9, w);
  pipe = λ w. (some (5, 6), w);
  fork = λ child out w. (some 77, w);
  read = λ fd n w. (some (take 2 w.unread), record w { unread = drop 2 w.unread });
  kill = λ pid w. w;
  wait = λ pid w. w;
  socket = λ w. (some 3, w);
  reuse_address = λ fd w. (true, w);
  bind = λ fd a w. (true, w);
  listen = λ fd w. (true, w);
  accept = λ fd w. (some 4, w);
  inet_pton = λ text. none;
}

pub toy-IsEpoll : IsEpoll toy (λ j w. w.watched j)
toy-IsEpoll = record {
  add_ok = λ fd j e w ok. refl;
  del_ok = λ fd j e w ok. refl;
  mod_ok = λ fd j e w. refl;
  fails = λ c fd j e w ok. absurd (ground arith);
  closes = λ fd j w. refl;
}

control_wire : (c : Control) (fd : ℕ) (w : World) → (control c fd w).wire ≡ w.wire
control_wire ctl_add fd w = refl
control_wire ctl_mod fd w = refl
control_wire ctl_del fd w = refl

pub toy-IsWire : IsWire toy (λ fd w. w.wire)
toy-IsWire = record {
  sends = λ fd text w. refl;
  ctl_keeps = λ c fd j e w. control_wire c fd w;
  close_keeps = λ fd j w. refl;
  kill_keeps = λ pid j w. refl;
  wait_keeps = λ pid j w. refl;
}

two_empty : (s : Bytes) → is_empty (take 2 s) ≡ is_empty s
two_empty [] = refl
two_empty (x ∷ s) = refl

pub toy-IsPipe : IsPipe toy (λ fd w. w.unread)
toy-IsPipe = record {
  got = λ fd w. take 2 w.unread;
  reads = λ fd w. refl;
  leaves = λ fd w. sym (take-append-drop 2 w.unread);
  goes_on = λ fd w. two_empty w.unread;
}

abbrev pub idle_machine : Machine World
idle_machine = record {
  listeners = [];
  is_started = true;
  world = record { watched = λ j. false; wire = []; unread = codes "Status: 201\r\n\r\nok" };
}
