-- ===== src/Mcp/Examples.antt =====
-- A request with the token.
use whatsapp_mcp_docker.Base.{◌≡◌, ◌↔◌, true, none, ◌++◌, Bytes, codes}
use whatsapp_mcp_docker.Mcp.{mcp, reached, http_mux}
use whatsapp_mcp_docker.Mcp.Routing.{MayReach, http_mux_iff}

abbrev token : Bytes
token = codes "s3cret"

http_mux_iff_example :
    (http_mux token none mcp (codes "Bearer " ++ token) true ≡ reached mcp)
    ↔ MayReach token mcp (codes "Bearer " ++ token) mcp
http_mux_iff_example = http_mux_iff token none mcp mcp (codes "Bearer " ++ token) true
