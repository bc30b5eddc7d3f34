-- ===== src/Client/Connect/Sockets.antt =====
-- What `CreateConnect` of connclient/src/conn_client.cpp makes of a connect that fails.
use defold_connclient.Prelude.{ℕ, ◌≡◌, some, List, arith}
use defold_connclient.Os.{Os, SockType}
use defold_connclient.SocketApi.{
  connect_ex, socket_ex, setsocketnonblocking_ex, get_host_address_v4,
}
use defold_connclient.Client.Connect.{create_connect, open_socket, start_connect, set_tos}

module _ (os : Os) where
  -- Where an address is found and a socket is made, `CreateConnect` returns that socket, whatever
  -- `connect` returned and whatever `errno` it left.
  pub create_connect_ignores_connect :
      (ip addr : List ℕ) (port fd : ℕ) (type : SockType) (s : os.State)
      → (get_host_address_v4 os ip port type s).0 ≡ some addr
      → (socket_ex os type (get_host_address_v4 os ip port type s).1).0 ≡ some fd
      → (create_connect os ip port type s).0 ≡ some fd
  unfolding create_connect open_socket start_connect set_tos connect_ex setsocketnonblocking_ex
  create_connect_ignores_connect ip addr port fd type s h k = ground arith
