-- ===== src/Tests/Servers.antt =====
-- Runs of the grouping of servers.
use webserv_team.Config.{ServerConfig, new_server}

abbrev second : ServerConfig
second = record new_server { port = 8080 }
