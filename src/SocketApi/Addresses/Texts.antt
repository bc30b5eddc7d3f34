-- ===== src/SocketApi/Addresses/Texts.antt =====
-- The texts that `GetSockAddrStr` of connclient/src/socket_api.cpp writes, and what `IsIPV4Addr`
-- says of such texts.
use defold_connclient.Prelude.{
  ℕ, ◌/◌, ◌%◌, ◌<◌, ◌≡◌, refl, sym, ap, ◌∙◌, true, false, if◌then◌else◌, some, List, [], ◌∷◌, ◌++◌,
  pos, arith, append_assoc, append-nil, subst,
}
use defold_connclient.SocketApi.Addresses.{
  show_int, show_ip, scan_int, scan_dot, scan_ip, has_ip_chars, is_ipv4_addr, in_range,
  get_sock_addr_str, SockaddrIn, ntohs,
}
use defold_connclient.SocketApi.Addresses.Scanning.{
  AreDigits, Breaks, show_digits-AreDigits, scan_int-show_digits,
}

-- Four numbers with dots between them, before the rest of a text.
abbrev dotted : ℕ → ℕ → ℕ → ℕ → List ℕ → List ℕ
dotted a b c d rest =
    show_int a ++ (b'.' ∷ (show_int b ++ (b'.' ∷ (show_int c ++ (b'.' ∷ (show_int d ++ rest))))))

abbrev byte : ℕ → ℕ → ℕ
byte k s_addr = (s_addr / k) % 256

scan_ip-dotted :
    (a b c d : ℕ) (rest : List ℕ)
    → a < 256
    → b < 256
    → c < 256
    → d < 256
    → Breaks rest
    → scan_ip (dotted a b c d rest) ≡ some (pos a, pos b, pos c, pos d)
unfolding scan_ip scan_dot
scan_ip-dotted a b c d rest ha hb hc hd end =
    rw
      (
        scan_int-show_digits 9 a
            (b'.' ∷ (show_int b ++ (b'.' ∷ (show_int c ++ (b'.' ∷ (show_int d ++ rest))))))
            (omega (arith, ha)) refl,
        scan_int-show_digits 9 b (b'.' ∷ (show_int c ++ (b'.' ∷ (show_int d ++ rest))))
            (omega (arith, hb)) refl,
        scan_int-show_digits 9 c (b'.' ∷ (show_int d ++ rest)) (omega (arith, hc)) refl,
        scan_int-show_digits 9 d rest (omega (arith, hd)) end,
      )
      refl

has_ip_chars-append :
    (digits rest : List ℕ)
    → AreDigits digits
    → has_ip_chars rest ≡ true
    → has_ip_chars (digits ++ rest) ≡ true
unfolding has_ip_chars
has_ip_chars-append [] rest d h = h
has_ip_chars-append (c ∷ digits) rest (d, ds) h =
    rw (d, has_ip_chars-append digits rest ds h) (ground arith)

has_ip_chars-dotted :
    (a b c d : ℕ) (rest : List ℕ)
    → has_ip_chars rest ≡ true
    → has_ip_chars (dotted a b c d rest) ≡ true
unfolding has_ip_chars
has_ip_chars-dotted a b c d rest h =
    has_ip_chars-append (show_int a) _ (show_digits-AreDigits 10 a) (
      has_ip_chars-append (show_int b) _ (show_digits-AreDigits 10 b) (
        has_ip_chars-append (show_int c) _ (show_digits-AreDigits 10 c)
          (has_ip_chars-append (show_int d) rest (show_digits-AreDigits 10 d) h)))

show_ip-dotted :
    (s_addr : ℕ) (rest : List ℕ)
    → show_ip s_addr ++ rest
      ≡ dotted (s_addr % 256) (byte 256 s_addr) (byte 65536 s_addr) (byte 16777216 s_addr) rest
show_ip-dotted s_addr rest = simp append_assoc

scan_ip-show_ip :
    (s_addr : ℕ) (rest : List ℕ)
    → Breaks rest
    → scan_ip (show_ip s_addr ++ rest)
      ≡ some (
        pos (s_addr % 256),
        pos (byte 256 s_addr),
        pos (byte 65536 s_addr),
        pos (byte 16777216 s_addr),
      )
scan_ip-show_ip s_addr rest end =
    ap scan_ip (show_ip-dotted s_addr rest)
    ∙ scan_ip-dotted _ _ _ _ rest (omega arith) (omega arith) (omega arith) (omega arith) end

-- `IsIPV4Addr` accepts the text of every address, and still accepts it where any dots and digits
-- follow that do not begin with a digit.
is_ipv4_addr-show_ip :
    (s_addr : ℕ) (rest : List ℕ)
    → Breaks rest
    → has_ip_chars rest ≡ true
    → is_ipv4_addr (show_ip s_addr ++ rest) ≡ true
unfolding is_ipv4_addr in_range
is_ipv4_addr-show_ip s_addr rest end chars =
    let whole =
      ap has_ip_chars (show_ip-dotted s_addr rest) ∙ has_ip_chars-dotted _ _ _ _ rest chars in
    ap (λ ip. if in_range ip then has_ip_chars (show_ip s_addr ++ rest) else false)
      (scan_ip-show_ip s_addr rest end)
    ∙ ground (arith, whole)

-- The text of `GetSockAddrStr` has the address in a form that `IsIPV4Addr` accepts and that is read
-- back as its four bytes, and the port in a form that is read back as the number that the network
-- byte order stands for.
pub get_sock_addr_str_lem :
    (addr : SockaddrIn)
    → (ip : List ℕ) × (port : List ℕ) × (get_sock_addr_str addr
        ≡ (b'i' ∷ b'p' ∷ b'[' ∷ [])
          ++ ip
          ++ (b']' ∷ b' ' ∷ b'p' ∷ b'o' ∷ b'r' ∷ b't' ∷ b'[' ∷ [])
          ++ port
          ++ b']' ∷ [])
      × (is_ipv4_addr ip ≡ true)
      × (scan_ip ip
          ≡ some (
            pos (addr.s_addr % 256),
            pos (byte 256 addr.s_addr),
            pos (byte 65536 addr.s_addr),
            pos (byte 16777216 addr.s_addr),
          ))
      × (scan_int port ≡ some (pos (ntohs addr.sin_port), []))
unfolding get_sock_addr_str has_ip_chars
get_sock_addr_str_lem addr = (
  show_ip addr.s_addr,
  show_int (ntohs addr.sin_port),
  refl,
  subst (λ t. is_ipv4_addr t ≡ true) (append-nil _) (is_ipv4_addr-show_ip addr.s_addr [] tt refl),
  ap scan_ip (sym (append-nil _)) ∙ scan_ip-show_ip addr.s_addr [] tt,
  ap scan_int (sym (append-nil _))
      ∙ scan_int-show_digits 9 (ntohs addr.sin_port) [] (omega arith) tt,
)
