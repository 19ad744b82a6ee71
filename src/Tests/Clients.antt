-- ===== src/Tests/Clients.antt =====
-- Runs of a client, of its script, and of the server's clients.
use webserv_team.Base.{◌≡◌, refl, true, false, none, some, [], ◌∷◌, arith, codes}
use webserv_team.Config.{new_location, new_server}
use webserv_team.Request.{RequestParser, new_parser, done}
use webserv_team.Response.{ResponseBuilder}
use webserv_team.Multiplexer.{client_at, script_of, find_listener, unknown_fd, run_events}
use webserv_team.Cgi.Process.{CgiProcess, readable}
use webserv_team.Client.{
  Client, new_client, both, has_time_out, terminate, register_with_io_multiplexer,
  set_peer_socket_fd, set_server_socket_fd,
}
use webserv_team.Client.Process.{process_completed_request}
use webserv_team.Client.Process.Answers.{Answers, process_completed_request-Answers}
use webserv_team.Client.Sending.{is_response_ready}
use webserv_team.Client.Sending.Delivers.{
  handle_responses, IsDelivered, handle_responses-IsDelivered,
}
use webserv_team.Client.{reacts}
use webserv_team.Client.Sending.{on_event, on_output, handle_response}
use webserv_team.Client.Reading.{handle_incoming_data, read_incoming_data, receive}
use webserv_team.Multiplexer.{add_listener}
use webserv_team.Client.Invariant.{IsSound, new_client-IsSound}
use webserv_team.Client.Reachable.{Step, here, next, Reach-IsSound}
use webserv_team.Client.Script.Collects.{
  script_events, IsComplete, IsCut, script_events-IsComplete, script_events-IsCut,
}
use webserv_team.Server.Sockets.{Server, configs_of}
use webserv_team.Server.Peers.{WebServer, accept_peer, client_of, dispatch_event}
use webserv_team.Server.Peers.Pool.{IsPlaced, accept_peer-IsPlaced}
use webserv_team.Server.Peers.Batch.{run_events_removed}
use webserv_team.Tests.Machines.{World, toy, toy-IsWire, toy-IsPipe, idle_machine}

abbrev fresh : Client
fresh = new_client 0 3 4 (new_server ∷ []) 0

abbrev registered : Client
registered =
    (register_with_io_multiplexer toy (set_server_socket_fd 3 (set_peer_socket_fd 7 fresh))
      idle_machine).0

-- The peer has sent nothing and is gone.
gone :
    on_event toy 9 both registered idle_machine
    ≡ reacts ((terminate toy registered idle_machine).0, (terminate toy registered idle_machine).1)
unfolding on_event handle_incoming_data read_incoming_data receive on_output handle_response
    is_response_ready register_with_io_multiplexer set_server_socket_fd set_peer_socket_fd
    add_listener find_listener new_client terminate
gone = refl

Reach-IsSound_example : IsSound (terminate toy registered idle_machine).0
unfolding new_client register_with_io_multiplexer set_server_socket_fd set_peer_socket_fd
    add_listener find_listener
Reach-IsSound_example = Reach-IsSound {k = toy} (new_client-IsSound 0 3 4 0 (new_server ∷ [])) (
    next (next here (Step.registers 3 7 idle_machine refl)) (
      Step.socket_event 9 both idle_machine (terminate toy registered idle_machine).1
        (terminate toy registered idle_machine).0 refl gone))

abbrev answering : Client
answering = record fresh {
  is_started = true;
  response_buffer = codes "hello";
  response_ready = true;
}

handle_responses-IsDelivered_example :
    IsDelivered
      (λ fd (w : World). w.wire)
      answering
      idle_machine
      (handle_responses toy 5 answering idle_machine)
unfolding new_client is_response_ready has_time_out
handle_responses-IsDelivered_example =
    handle_responses-IsDelivered toy-IsWire (λ fd text w full. omega arith) 5 answering idle_machine
      refl refl refl (omega arith)

abbrev asked : RequestParser
asked = record new_parser {
  state = done;
  http_method = codes "GET";
  request_uri = codes "/a.php";
  location_config = some new_location;
}

process_completed_request-Answers_example :
    Answers (process_completed_request toy asked answering idle_machine)
unfolding new_client
process_completed_request-Answers_example =
    process_completed_request-Answers toy asked new_location answering idle_machine refl refl

abbrev running : CgiProcess
running = record {
  handler = record {
    method = codes "GET";
    query_string = [];
    content_type = [];
    script_path = codes "/a.php";
    uri = codes "/a.php";
    root_path = [];
    headers = [];
    request_body = [];
  };
  interpreter = codes "php";
  pid = some 77;
  output_fd = some 5;
  body_fd = none;
  cgi_output = [];
  start_time = 0;
  is_completed = false;
}

abbrev builder : ResponseBuilder
builder = record {
  request = asked;
  http_version = codes "HTTP/1.1";
  status = [];
  headers = [];
  body = [];
  status_code = 0;
  routes = [];
  server_config = none;
  location_config = some new_location;
}

abbrev waiting : Client
waiting = record fresh {
  is_started = true;
  parser = some asked;
  pending_cgi = some running;
  is_shared = true;
  waiting_for_cgi = true;
  response_builder = some builder;
}

script_events-IsComplete_example :
    IsComplete toy
      (codes "Status: 201\r\n\r\nok")
      builder
      (script_events toy (λ fd w. w.unread) 20 5 waiting idle_machine)
script_events-IsComplete_example =
    script_events-IsComplete toy-IsPipe 20 5 running builder waiting idle_machine refl refl refl
      refl (omega arith)

script_events-IsCut_example :
    IsCut toy
      (codes "Status: 201\r\n\r\nok")
      builder
      (script_events toy (λ fd w. w.unread) 0 5 waiting idle_machine)
script_events-IsCut_example =
    script_events-IsCut toy-IsPipe 5 running builder waiting idle_machine refl refl refl refl refl

abbrev listening : Server
listening = record {
  config = new_server ∷ [];
  is_started = true;
  listen_fds = 3 ∷ [];
  clients = waiting ∷ fresh ∷ [];
  socket_configs = (3, new_server ∷ []) ∷ [];
}

accept_peer-IsPlaced_example :
    IsPlaced 3 4
      (configs_of 3 listening.socket_configs)
      listening.clients
      (accept_peer toy 3 listening idle_machine).0.clients
accept_peer-IsPlaced_example = accept_peer-IsPlaced toy 3 4 listening idle_machine refl

abbrev whole : WebServer World
whole = record {
  server = listening;
  machine = record idle_machine { listeners = (4, client_at 0) ∷ (5, script_of 0) ∷ [] };
  is_alive = true;
}

run_events_removed_example :
    (run_events (λ q. q.machine) (dispatch_event toy 9) ((4, both) ∷ (5, readable) ∷ []) whole).0
    ≡ some unknown_fd
unfolding new_client client_of find_listener
run_events_removed_example =
    run_events_removed toy 9 0 5 both readable [] whole waiting asked refl
      (((omega arith, tt), (tt, tt))) refl refl refl refl refl refl refl refl
