-- ===== src/Tests/Sessions.antt =====
-- The theorems on sockets at concrete inputs.
use defold_connclient.Prelude.{◌≡◌, refl, some, [], ◌∷◌}
use defold_connclient.Os.{sock_stream}
use defold_connclient.SocketApi.{get_host_address_v4, first_inet, socket_ex}
use defold_connclient.Client.Connect.{create_connect}
use defold_connclient.Client.Connect.Sockets.{create_connect_ignores_connect}
use defold_connclient.Tests.{os}

create_connect_ignores_connect_example : (create_connect os [] 80 sock_stream 0).0 ≡ some 7
unfolding get_host_address_v4 first_inet socket_ex
create_connect_ignores_connect_example =
    create_connect_ignores_connect os [] (127 ∷ 0 ∷ 0 ∷ 1 ∷ []) 80 7 sock_stream 0 refl refl
