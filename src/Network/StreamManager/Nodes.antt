-- ===== src/Network/StreamManager/Nodes.antt =====
-- The nodes that a stream manager knows.
use network_monorepo.Prelude.{
  ◌≡◌, refl, ◌&&◌, not, none, some, List, [], ◌∷◌, ◌++◌, arith, filter, if◌then◌else◌, Text, same,
  has, has-append, has-remove, has-to_set, IsDistinct, to_set-IsDistinct, lookup, lookup-erase,
  erase, keys, to_set,
}
use network_monorepo.Network.StreamManager.{
  StreamState, Streams, is_connected, without_node, remove_node_from_all_streams, remove_stream,
  is_node_present, list_nodes, get_all_nodes,
}

module _ (n node : Text) where
  connected-without :
      (s : StreamState)
      → is_connected n (without_node node s) ≡ (not (same n node) && is_connected n s)
  unfolding is_connected
  connected-without s =
      ground (arith, has-remove n node s.inbound_nodes, has-remove n node s.outbound_nodes)

  -- `remove_node_from_all_streams` returns the streams that had the node; afterwards the node is
  -- present in no stream, and every other node is present if it was before.
  pub remove_node_from_all_streams_lem :
      (streams : Streams)
      → ((remove_node_from_all_streams node streams).0
          ≡ keys (filter (λ e. is_connected node e.1) streams))
        × (is_node_present n (remove_node_from_all_streams node streams).1
            ≡ (not (same n node) && is_node_present n streams))
  unfolding remove_node_from_all_streams is_node_present
  remove_node_from_all_streams_lem [] = (refl, ground arith)
  remove_node_from_all_streams_lem ((stream, s) ∷ streams) =
      let ih = remove_node_from_all_streams_lem streams in
      (ground (arith, ih.0), ground (arith, ih.1, connected-without s))

has-list_nodes :
    (node : Text) (streams : Streams) → has node (list_nodes streams) ≡ is_node_present node streams
unfolding list_nodes is_node_present is_connected has
has-list_nodes node [] = refl
has-list_nodes node ((stream, s) ∷ streams) = ground (
  arith,
  has-append node (s.inbound_nodes ++ s.outbound_nodes) (list_nodes streams),
  has-append node s.inbound_nodes s.outbound_nodes,
  has-list_nodes node streams,
)

-- `get_all_nodes` lists exactly the nodes that are present, each once.
pub get_all_nodes_lem :
    (node : Text) (streams : Streams)
    → (has node (get_all_nodes streams) ≡ is_node_present node streams)
      × IsDistinct (get_all_nodes streams)
unfolding get_all_nodes
get_all_nodes_lem node streams = (
  ground (arith, has-to_set node (list_nodes streams), has-list_nodes node streams),
  to_set-IsDistinct (list_nodes streams),
)

-- `remove_stream` of a stream that is set up returns its nodes, each once; afterwards the stream is
-- not set up, and every other stream is as it was.
pub remove_stream_lem :
    (stream other node : Text) (s : StreamState) (streams : Streams)
    → lookup stream streams ≡ some s
    → (nodes : List Text) × (after : Streams) × (remove_stream stream streams ≡ some (nodes, after))
      × IsDistinct nodes
      × (has node nodes ≡ is_connected node s)
      × (lookup other after ≡ (if same stream other then none else lookup other streams))
unfolding remove_stream is_connected
remove_stream_lem stream other node s streams h =
    let nodes = to_set (s.inbound_nodes ++ s.outbound_nodes) in
    (
      nodes,
      erase stream streams,
      rw (h, remove_stream) refl,
      to_set-IsDistinct (s.inbound_nodes ++ s.outbound_nodes),
      ground (
        arith,
        has-to_set node (s.inbound_nodes ++ s.outbound_nodes),
        has-append node s.inbound_nodes s.outbound_nodes,
      ),
      lookup-erase other stream streams,
    )
