-- ===== src/SockCommu/Route.antt =====
-- tagTRouteTable and tagTRouteConfig (sockcommu.cpp, sockcommu.h): which node serves a key. A `std::map`
-- is the list of its entries in the order of the keys.
use spp_server_frame_work.Base.{
  ℕ, ◌&&◌, List, [], ◌∷◌, Option, none, some, leb, ◌==◌, if◌then◌else◌,
}
use spp_server_frame_work.SockCommu.State.{NodeInfo}

abbrev pub MapNode : Type 0
MapNode = List (ℕ × NodeInfo)

abbrev pub MapRouteTable : Type 0
MapRouteTable = List (ℕ × MapNode)

unfoldable pub get_node_info : ℕ → MapNode → Option NodeInfo
get_node_info node_id [] = none
get_node_info node_id ((k, node) ∷ m) = if k == node_id then some node else get_node_info node_id m

-- 0 where no node has the key.
unfoldable pub get_node_id : ℕ → MapNode → ℕ
get_node_id node_key [] = 0
get_node_id node_key ((k, node) ∷ m) =
    if leb node.begin node_key && leb node_key node.end
    then node.node_id
    else get_node_id node_key m

unfoldable pub get_route_table : ℕ → MapRouteTable → Option MapNode
get_route_table serv_type [] = none
get_route_table serv_type ((k, table) ∷ m) =
    if k == serv_type then some table else get_route_table serv_type m

-- `GetNodeInfo` of the configuration.
unfoldable pub config_node_info : ℕ → ℕ → MapRouteTable → Option NodeInfo
config_node_info serv_type node_id m = elim (get_route_table serv_type m) [
  | none ↦ none
  | some table ↦ get_node_info node_id table
]
