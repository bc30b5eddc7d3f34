-- ===== src/Tests/Reading.antt =====
-- The loop of `ReadStream` at a stream with one whole frame and a byte, and a datagram of another
-- flow.
use defold_connclient.Prelude.{
  ℕ, List, true, none, some, negsuc, refl, [], ◌∷◌, ◌++◌, ◌≤◌, ◌<◌, ◌≡◌, ap, lt→ltb, pos, ◌<ℤ◌,
  signed32, arith, inl,
}
use defold_connclient.Stream.{empty, add_bytes, len, skip}
use defold_connclient.Wire.{encode_udp_head, encode_head, decode_head, le32, load32, load8, swap32}
use defold_connclient.Client.State.{Env, Client}
use defold_connclient.Client.Send.{enqueue_out}
use defold_connclient.Client.Read.{
  on_datagram, read_step, read_loop, skip_frame, on_frame, on_unreliable, output,
}
use defold_connclient.Client.Read.Datagrams.{on_datagram-encode_udp_head}
use defold_connclient.Client.Send.Framing.{frame, frame_head}
use defold_connclient.Client.Read.Progress.{
  Reaches, HeadsPositive, Ends, here, next, pkg_len_of, read_loop-Ends,
}
use defold_connclient.KcpSession.{Received, message, failed}
use defold_connclient.Client.Read.{input_to_kcp}
use defold_connclient.Client.Read.Draining.{Queue}
use defold_connclient.Client.Read.Draining.Updating.{input_to_kcp-update}
use defold_connclient.Client.Api.{text, update}
use defold_connclient.Tests.{env, client, lib, session}
use defold_connclient.Tests.Clients.{receiver, receiver-readable, after_frame}

-- With less than a head to read, the loop comes to no other state.
nothing_there :
    (c d : Client env)
    → len c.read_stream < 10
    → Reaches env 2 10 0 c d
    → 10 ≤ len d.read_stream
    → pos 0 <ℤ pkg_len_of d
unfolding read_step
nothing_there c d short here h = absurd (omega (arith, short, h))
nothing_there c d short (next more r) h = absurd (ground (arith, lt→ltb _ _ short, more))

len_after : len (read_step env 2 10 0 receiver).1.read_stream ≡ 1
unfolding skip_frame on_frame on_unreliable output enqueue_out skip len add_bytes empty frame
    frame_head encode_head le32
len_after = ap (λ r. len r.1.read_stream) after_frame

first_len : pkg_len_of receiver ≡ pos 12
unfolding frame frame_head encode_head le32 swap32 decode_head load32 load8
first_len = ap (λ b. signed32 (swap32 (decode_head b).sec_pkg_len)) receiver-readable

heads : HeadsPositive env 2 10 0 receiver
heads d here h = rw first_len (omega arith)
heads d (next more r) h = nothing_there _ d (omega (arith, len_after)) r h

few : len receiver.read_stream < 20
unfolding frame frame_head encode_head le32 len add_bytes empty
few = omega arith

read_loop-Ends_example : Ends env 2 10 0 receiver (read_loop env 2 10 0 20 receiver)
read_loop-Ends_example = read_loop-Ends env 2 10 0 20 receiver heads few

on_datagram-encode_udp_head_example :
    on_datagram env 2 10 0
      (encode_udp_head (record { flow = 78; magic = 117; cmd = 1 }) ++ 5 ∷ 6 ∷ [])
      client
    ≡ client
on_datagram-encode_udp_head_example =
    on_datagram-encode_udp_head env 2 10 0 (record { flow = 78; magic = 117; cmd = 1 }) (5 ∷ 6 ∷ [])
      client (omega arith) (omega arith) (omega arith) (omega arith)

-- A library whose control block is the queue of the messages received.
abbrev fifo_recv : ℕ → List (List ℕ) → Received × List (List ℕ)
fifo_recv n [] = (failed (negsuc 0), [])
fifo_recv n (msg ∷ rest) = (message msg, rest)

abbrev receiving : Env
receiving = record env { lib = record lib { recv = fifo_recv } }

abbrev queue : Queue receiving.lib
queue = record {
  pending = λ k. k;
  by_recv = λ n k msg rest p fits. (ap (λ l. (fifo_recv n l).0) p, ap (λ l. (fifo_recv n l).1) p);
  by_recv_none = λ n k p. inl (ap (λ l. (fifo_recv n l).0) p);
}

abbrev two_messages : Client receiving
two_messages = record client {
  kcp_session = record session { kcp = some ((1 ∷ 8 ∷ []) ∷ (1 ∷ 9 ∷ 9 ∷ []) ∷ []) };
}

input_to_kcp-update_example :
    let r = input_to_kcp receiving 2 5 [] 0 two_messages in
    (r.0 ≡ pos 0)
    × (r.1.fault ≡ none)
    × ((update receiving (λ f. true) r.1).0
        ≡ record { callback = 4; arg = text (8 ∷ []) }
          ∷ record { callback = 4; arg = text (9 ∷ 9 ∷ []) }
          ∷ [])
input_to_kcp-update_example =
    input_to_kcp-update receiving queue 2 4 (λ f. true) 5 0 []
      ((1 ∷ 8 ∷ []) ∷ (1 ∷ 9 ∷ 9 ∷ []) ∷ []) two_messages refl refl
      (refl, omega arith, omega arith, (refl, omega arith, omega arith, tt)) (omega arith) refl refl
      refl
