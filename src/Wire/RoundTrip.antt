-- ===== src/Wire/RoundTrip.antt =====
-- What is stored by the packed structs of connclient/src/conn_protocol.h is read back.
use defold_connclient.Prelude.{ℕ, ◌/◌, ◌%◌, ◌^◌, ◌<◌, ◌≡◌, refl, List, [], ◌∷◌, ◌++◌, arith, length}
use defold_connclient.Wire.{
  le32, le64, load32, load64, swap32, CsConnHead, encode_head, decode_head, CsUdpConnHead,
  encode_udp_head, decode_udp_head,
}

pub swap32-swap32 : (w : ℕ) → w < 2 ^ 32 → swap32 (swap32 w) ≡ w
unfolding swap32
swap32-swap32 w h = omega arith

pub swap32-lt : (w : ℕ) → swap32 w < 2 ^ 32
unfolding swap32
swap32-lt w = omega arith

pub load32-le32 : (w : ℕ) (rest : List ℕ) → w < 2 ^ 32 → load32 0 (le32 w ++ rest) ≡ w
unfolding load32 le32
load32-le32 w rest h = omega arith

pub load64-le64 : (w : ℕ) (rest : List ℕ) → w < 2 ^ 64 → load64 0 (le64 w ++ rest) ≡ w
unfolding load64 le64
load64-le64 w rest h = omega arith

pub record InRange (h : CsConnHead) : Type 0 where
  pub sec_pkg_len : h.sec_pkg_len < 2 ^ 32
  pub flow : h.flow < 2 ^ 32
  pub magic : h.magic < 256
  pub cmd : h.cmd < 256

-- A head with fields in range that is written in front of any bytes is read back from them.
pub decode_head-encode_head :
    (h : CsConnHead) (rest : List ℕ) → InRange h → decode_head (encode_head h ++ rest) ≡ h
unfolding decode_head encode_head
decode_head-encode_head h rest r = ground (arith, r.sec_pkg_len, r.flow, r.magic, r.cmd)

pub length-encode_head : (h : CsConnHead) → length (encode_head h) ≡ 10
unfolding encode_head
length-encode_head h = refl

-- A UDP head with fields in range that is written in front of any bytes is read back from them.
pub decode_udp_head-encode_udp_head :
    (h : CsUdpConnHead) (rest : List ℕ)
    → h.flow < 2 ^ 32
    → h.magic < 256
    → h.cmd < 256
    → decode_udp_head (encode_udp_head h ++ rest) ≡ h
unfolding decode_udp_head encode_udp_head
decode_udp_head-encode_udp_head h rest f m c = ground arith

-- `htonl` puts a number below 2 ^ 32 on the wire with its highest byte first.
le32-swap32 :
    (w : ℕ)
    → w < 2 ^ 32
    → le32 (swap32 w) ≡ (w / 16777216) ∷ (w / 65536 % 256) ∷ (w / 256 % 256) ∷ (w % 256) ∷ []
unfolding le32 swap32
le32-swap32 w h = ground arith
