-- ===== src/Fills/Endpoint.antt =====
-- src/fills.rs: the websocket's URL, from that of the RPC node.
use archer_market_maker.Base.{◌++◌, none, some}
use archer_market_maker.Base.Text.{Text, codes, strip_prefix}

pub ws_url_from_rpc : Text → Text
ws_url_from_rpc rpc_url = elim (strip_prefix (codes "https://") rpc_url) [
  | some rest ↦ codes "wss://" ++ rest
  | none ↦ elim (strip_prefix (codes "http://") rpc_url) [
    | some rest ↦ codes "ws://" ++ rest
    | none ↦ rpc_url
  ]
]
