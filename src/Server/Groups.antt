-- ===== src/Server/Groups.antt =====
-- Which servers share an address.
use webserv_team.Base.{List, [], ◌∷◌, if◌then◌else◌, Bytes, ◌=ᵇ◌}
use webserv_team.Config.{ServerConfig}
use webserv_team.Server.{address_key}

-- The servers of the list that listen on the address, in their order.
unfoldable pub members : Bytes → List ServerConfig → List ServerConfig
members k [] = []
members k (s ∷ servers) =
    let rest = members k servers in if address_key s =ᵇ k then s ∷ rest else rest
