-- ===== src/Client/Read/Datagrams.antt =====
-- Datagrams: what `SendUDPBuf` of connclient/src/conn_client.cpp sends, `OnUdpRead` reads.
use defold_connclient.Prelude.{
  ℕ, ◌^◌, ◌<◌, ◌≡◌, ◌≢◌, refl, ap₂, ◌∙◌, not, ◌&&◌, List, ◌++◌, length, drop, ◌==◌, if◌then◌else◌,
  pos, arith,
}
use defold_connclient.Wire.{
  CsUdpConnHead, encode_udp_head, control_unreliable_msg, control_reliable_msg, control_disconnect,
}
use defold_connclient.Wire.RoundTrip.{decode_udp_head-encode_udp_head}
use defold_connclient.Client.State.{Env, Client}
use defold_connclient.Client.Send.{inner_close}
use defold_connclient.Client.Read.{on_datagram, output, input_to_kcp}

-- The handler of a datagram by its command, as the protocol states it.
pub by_cmd : (e : Env) (depth fuel cur_time cmd : ℕ) (msg : List ℕ) (c : Client e) → Client e
by_cmd e depth fuel cur_time cmd msg c =
    if cmd == control_unreliable_msg
    then output e depth msg c
    else if cmd == control_reliable_msg
    then (input_to_kcp e depth fuel msg cur_time c).1
    else if cmd == control_disconnect
    then inner_close e depth (pos 0) c
    else c

drop_udp_head : (h : CsUdpConnHead) (msg : List ℕ) → drop 6 (encode_udp_head h ++ msg) ≡ msg
unfolding encode_udp_head
drop_udp_head h msg = refl

module _ (e : Env) (depth fuel cur_time : ℕ) where
  -- The choice of `on_datagram`, by a head and a message.
  by_head : ℕ → CsUdpConnHead → List ℕ → Client e → Client e
  by_head n h msg c =
      if n == 12 && h.flow == 0
      then c
      else if not (h.flow == c.flow)
      then c
      else by_cmd e depth fuel cur_time h.cmd msg c

  by_head_flow :
      (n : ℕ) (h : CsUdpConnHead) (msg : List ℕ) (c : Client e)
      → h.flow ≢ 0
      → by_head n h msg c
        ≡ (if h.flow == c.flow then by_cmd e depth fuel cur_time h.cmd msg c else c)
  unfolding by_head
  by_head_flow n h msg c nonzero = ground arith

  -- A datagram of a head with fields in range, a flow that is not 0, and a message: where the flow
  -- is the client's own, the message is handed on whole by the command, and a datagram of any other
  -- flow changes nothing.
  pub on_datagram-encode_udp_head :
      (h : CsUdpConnHead) (msg : List ℕ) (c : Client e)
      → h.flow < 2 ^ 32
      → h.magic < 256
      → h.cmd < 256
      → h.flow ≢ 0
      → on_datagram e depth fuel cur_time (encode_udp_head h ++ msg) c
        ≡ (if h.flow == c.flow then by_cmd e depth fuel cur_time h.cmd msg c else c)
  unfolding on_datagram by_head by_cmd
  on_datagram-encode_udp_head h msg c f m k nonzero =
      ap₂ (λ g bytes. by_head (length (encode_udp_head h ++ msg)) g bytes c)
        (decode_udp_head-encode_udp_head h msg f m k) (drop_udp_head h msg)
      ∙ by_head_flow (length (encode_udp_head h ++ msg)) h msg c nonzero
