-- ===== src/Request.antt =====
-- The state of includes/RequestParser.hpp, and what srcs/ReqRes/RequestParser.cpp does on an error.
-- The children hold the operations and their proofs. The text of a log entry is left out.
pub mod Lines
pub mod Uri
pub mod Setters
pub mod RequestLine
pub mod Headers
pub mod Body
pub mod Parse
pub mod Routing
use webserv_team.Base.{
  ℕ, Bool, true, false, List, [], ◌∷◌, Option, none, Bytes, codes, ◌==◌, if◌then◌else◌,
}
use webserv_team.Dict.{Dict, insert}
use webserv_team.Config.{ServerConfig, Location}

pub data ParseState : Type 0 where
  at_request_line at_headers at_body done error_parse : ParseState

pub record RequestParser : Type 0 where
  pub state : ParseState
  pub request_line : Bytes
  pub http_method : Bytes
  pub request_uri : Bytes
  pub query_string : Bytes
  pub http_version : Bytes
  pub headers : Dict
  pub body : Bytes
  pub port : ℕ
  pub error_code : ℕ
  pub server_config : Option ServerConfig
  pub location_config : Option Location
  pub reading_chunk_data : Bool
  pub current_chunk_size : ℕ
  pub current_chunk_read : ℕ
  pub cgi_script : Bytes
  pub is_cgi_request_flag : Bool
  pub content_length_value : ℕ
  pub has_content_length : Bool
  pub has_transfer_encoding : Bool

-- `RequestParser()`.
abbrev pub new_parser : RequestParser
new_parser = record {
  state = at_request_line;
  request_line = [];
  http_method = [];
  request_uri = [];
  query_string = [];
  http_version = [];
  headers = [];
  body = [];
  port = 80;
  error_code = 0;
  server_config = none;
  location_config = none;
  reading_chunk_data = false;
  current_chunk_size = 0;
  current_chunk_read = 0;
  cgi_script = [];
  is_cgi_request_flag = false;
  content_length_value = 0;
  has_content_length = false;
  has_transfer_encoding = false;
}

-- `log_error`: the first error is kept. The program gives no code 0.
unfoldable pub log_error : RequestParser → ℕ → RequestParser
log_error s code =
    if s.error_code == 0
    then record s {
      error_code = code;
      headers =
          if code == 0 then s.headers else insert (codes "connection") (codes "close") s.headers;
      state = error_parse;
    }
    else s
