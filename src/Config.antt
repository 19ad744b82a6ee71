-- ===== src/Config.antt =====
-- includes/ConfigManager.hpp: what the configuration says of a server and of its locations.
pub mod Outcome
pub mod Tokens
pub mod Parser
pub mod Blocks
pub mod Manager
use webserv_team.Base.{
  ℕ, ◌*◌, ◌%◌, Bool, false, List, [], ◌∷◌, Bytes, codes, ◌==◌, if◌then◌else◌, Option, none, some,
}

pub record Location : Type 0 where
  pub location : Bytes
  pub allowed_methods : List Bytes
  pub root : Bytes
  pub autoindex : Bool
  pub index : Bytes
  pub is_redirect : Bool
  pub redirect_url : Bytes
  pub is_redirect_permanent : Bool
  pub redirect_code : ℕ
  pub use_cgi : Bool
  pub cgi_path : Bytes
  pub upload_store : Bytes
  pub has_return : Bool
  pub return_code : ℕ
  pub return_message : Bytes

-- `Location()`.
abbrev pub new_location : Location
new_location = record {
  location = [];
  allowed_methods = codes "GET" ∷ codes "POST" ∷ codes "DELETE" ∷ [];
  root = [];
  autoindex = false;
  index = codes "index.html";
  is_redirect = false;
  redirect_url = [];
  is_redirect_permanent = false;
  redirect_code = 0;
  use_cgi = false;
  cgi_path = [];
  upload_store = [];
  has_return = false;
  return_code = 0;
  return_message = [];
}

-- A `short` is its bit pattern.
abbrev pub to_short : ℕ → ℕ
to_short n = n % 65536

-- `std::map<short, std::string>`, which the program only looks up and writes.
abbrev pub Pages : Type 0
Pages = List (ℕ × Bytes)

unfoldable pub find_page : ℕ → Pages → Option Bytes
find_page k [] = none
find_page k ((j, v) ∷ m) = if j == k then some v else find_page k m

unfoldable pub set_page : ℕ → Bytes → Pages → Pages
set_page k v [] = (k, v) ∷ []
set_page k v ((j, w) ∷ m) = if j == k then (k, v) ∷ m else (j, w) ∷ set_page k v m

pub record ServerConfig : Type 0 where
  pub port : ℕ
  pub host : Bytes
  pub server_names : List Bytes
  pub default_server : Bool
  pub error_pages : Pages
  pub client_max_body_size : ℕ
  pub locations : List Location

abbrev pub size_kb : ℕ
size_kb = 1024

abbrev pub size_mb : ℕ
size_mb = 1024 * size_kb

abbrev pub size_gb : ℕ
size_gb = 1024 * size_mb

-- `ServerConfig()`.
abbrev pub new_server : ServerConfig
new_server = record {
  port = 80;
  host = codes "0.0.0.0";
  server_names = codes "localhost" ∷ [];
  default_server = false;
  error_pages = [];
  client_max_body_size = size_mb;
  locations = [];
}
