-- ===== src/Cgi/Process.antt =====
-- The process of a script, of srcs/CGI/CGIHandler.cpp: the constructor, `startCGI` and `terminate`.
-- An exception is `false` or no handler.
use webserv_team.Base.{
  ℕ, Bool, true, false, Option, none, some, [], ◌∷◌, ◌++◌, if◌then◌else◌, Bytes, codes, is_empty,
  ◌=ᵇ◌,
}
use webserv_team.Dict.{lookup}
use webserv_team.Config.{Location}
use webserv_team.Request.{RequestParser}
use webserv_team.Response.{ResponseBuilder}
use webserv_team.Kernel.{Events, Program, Kernel}
use webserv_team.Multiplexer.{Listener, Machine, add_listener, remove_listener, close_fd}
use webserv_team.Cgi.{CgiHandler, setup_environment}

-- The state of `CGIHandler`; a descriptor or a process that is -1 there is `none` here. The builder
-- and the client, which it points to, belong to the client.
pub record CgiProcess : Type 0 where
  pub handler : CgiHandler
  pub interpreter : Bytes
  pub pid : Option ℕ
  pub output_fd : Option ℕ
  pub body_fd : Option ℕ
  pub cgi_output : Bytes
  pub start_time : ℕ
  pub is_completed : Bool

unfoldable pub default_type : Bytes
default_type = codes "application/x-www-form-urlencoded"

-- The path of the script: in a directory, its index file if there is one.
unfoldable pub script_file : {W : Type 0} → Kernel W → Location → Bytes → W → Option Bytes
script_file k l path w = elim (k.os.stat path w) [
  | none ↦ none
  | some found ↦
      let index_path = path ++ l.index in
      if found.is_directory
      then elim (k.os.stat index_path w) [ none ↦ some path | some _ ↦ some index_path ]
      else some path
]

-- The members that the constructor takes from the request.
unfoldable pub new_handler : Location → Bytes → RequestParser → ResponseBuilder → CgiHandler
new_handler l path request r = record {
  method = request.http_method;
  query_string = request.query_string;
  content_type = elim (lookup (codes "content-type") request.headers) [
    | none ↦ default_type
    | some v ↦ v
  ];
  script_path = path;
  uri = request.request_uri;
  root_path = l.root;
  headers = request.headers;
  request_body = r.request.body;
}

-- The constructor, on the location of the request.
unfoldable pub new_process :
    {W : Type 0}
    → Kernel W
    → Location
    → Bytes
    → RequestParser
    → ResponseBuilder
    → Machine W
    → Option CgiProcess × Machine W
new_process k l cgi_path request r m =
    let made : Bytes → Option ℕ → CgiProcess = λ path fd. record {
      handler = new_handler l path request r;
      interpreter = cgi_path;
      pid = none;
      output_fd = none;
      body_fd = fd;
      cgi_output = [];
      start_time = 0;
      is_completed = false;
    } in
    let (file, w) = k.temporary_file request.body m.world in
    if is_empty cgi_path
    then (none, m)
    else elim (script_file k l (l.root ++ request.request_uri) m.world) [
      | none ↦ (none, m)
      | some path ↦ if is_empty request.body then (some (made path none), m) else elim file [
        | none ↦ (none, record m { world = w })
        | some fd ↦ (some (made path (some fd)), record m { world = w })
      ]
    ]

-- What the child runs.
unfoldable pub program : CgiProcess → Program
program p = record {
  arguments = p.interpreter ∷ p.handler.script_path ∷ [];
  environment = setup_environment p.handler;
  stdin = if p.handler.method =ᵇ codes "POST" then p.body_fd else none;
}

abbrev pub readable : Events
readable = record { input = true; output = false; hang_up = false; error = false }

unfoldable pub close_some : {W : Type 0} → Kernel W → Option ℕ → Machine W → Machine W
close_some k none m = m
close_some k (some fd) m = close_fd k fd m

-- The parent, behind `fork`.
unfoldable pub watch_output :
    {W : Type 0}
    → Kernel W
    → Listener
    → ℕ
    → CgiProcess
    → Machine W
    → Bool × (CgiProcess × Machine W)
watch_output k l fd p m =
    let m' = close_some k p.body_fd m in
    let p' = record p { body_fd = none; output_fd = some fd } in
    let (failure, m'') = add_listener k l fd readable m' in
    let closed = close_fd k fd m'' in
    elim failure [
      | none ↦ (true, (p', m''))
      | some _ ↦ elim p.pid [
        | none ↦ (false, (p', closed))
        | some child ↦
            (false, (p', record closed { world = k.wait child (k.kill child closed.world) }))
      ]
    ]

unfoldable pub start_cgi :
    {W : Type 0} → Kernel W → Listener → CgiProcess → Machine W → Bool × (CgiProcess × Machine W)
start_cgi k l p m =
    let p' = record p { start_time = k.now m.world } in
    let (ends, w) = k.pipe m.world in
    let m' = record m { world = w } in
    elim ends [
      | none ↦ (false, (p', m'))
      | some (out, into) ↦
          let (child, w') = k.fork (program p') into w in
          let forked = record m { world = w' } in
          elim child [
            | none ↦ (false, (p', close_fd k into (close_fd k out forked)))
            | some n ↦ watch_output k l out (record p' { pid = some n }) (close_fd k into forked)
          ]
    ]

-- `removeListener` in a `try`, then `close`.
unfoldable pub drop_output : {W : Type 0} → Kernel W → Option ℕ → Machine W → Machine W
drop_output k none m = m
drop_output k (some fd) m = close_fd k fd (remove_listener k readable fd m).1

-- The loop over `waitpid` that gives up after two seconds is `wait` here.
unfoldable pub end_process : {W : Type 0} → Kernel W → Option ℕ → Machine W → Machine W
end_process k none m = m
end_process k (some pid) m = record m { world = k.wait pid (k.kill pid m.world) }

-- `terminate`; `is_started` is that of the client.
unfoldable pub terminate_process :
    {W : Type 0} → Kernel W → Bool → CgiProcess → Machine W → CgiProcess × Machine W
terminate_process k is_started p m =
    let ended = end_process k p.pid (drop_output k p.output_fd m) in
    if is_started
    then (
      record p { output_fd = none; pid = none; body_fd = none; is_completed = true },
      close_some k p.body_fd ended,
    )
    else (p, m)
