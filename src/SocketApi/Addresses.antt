-- ===== src/SocketApi/Addresses.antt =====
-- connclient/src/socket_api.cpp: the text forms of addresses. A text is the list of its bytes. Of
-- the C library: `sscanf` with "%d" skips white space and takes a sign and digits, and a number that
-- does not fit into `int`, which C leaves undefined, is kept whole.
pub mod Scanning
pub mod Texts
use defold_connclient.Prelude.{
  ℕ, zero, suc, ◌+◌, ◌*◌, ◌-◌, ◌/◌, ◌%◌, Bool, true, false, not, ◌&&◌, ◌||◌, Option, none, some,
  List, [], ◌∷◌, ◌++◌, ltb, leb, leb_ℤ, ◌==◌, if◌then◌else◌, ℤ, pos, negsuc,
}

-- `oss << n` for an `int` that is not negative; ten digits are enough for one of 32 bits.
unfoldable pub show_digits : ℕ → ℕ → List ℕ
show_digits zero n = []
show_digits (suc fuel) n =
    let front = show_digits fuel (n / 10) in
    (if ltb n 10 then [] else front) ++ (b'0' + n % 10) ∷ []

abbrev pub show_int : ℕ → List ℕ
show_int n = show_digits 10 n

-- struct sockaddr_in: the address as the host reads the four bytes, and the port as it is stored.
pub record SockaddrIn : Type 0 where
  pub s_addr : ℕ
  pub sin_port : ℕ

-- On a little-endian host, as `htons`.
abbrev pub ntohs : ℕ → ℕ
ntohs n = (n % 256) * 256 + (n / 256) % 256

-- The bytes of the address with the masks and shifts as remainders and quotients.
abbrev pub show_ip : ℕ → List ℕ
show_ip s_addr =
    show_int (s_addr % 256)
    ++ (b'.'
        ∷ (show_int ((s_addr / 256) % 256)
            ++ (b'.'
                ∷ (show_int ((s_addr / 65536) % 256)
                    ++ (b'.' ∷ show_int ((s_addr / 16777216) % 256))))))

unfoldable pub get_sock_addr_str : SockaddrIn → List ℕ
get_sock_addr_str addr =
    (b'i' ∷ b'p' ∷ b'[' ∷ [])
    ++ show_ip addr.s_addr
    ++ (b']' ∷ b' ' ∷ b'p' ∷ b'o' ∷ b'r' ∷ b't' ∷ b'[' ∷ [])
    ++ show_int (ntohs addr.sin_port)
    ++ b']' ∷ []

abbrev pub is_digit : ℕ → Bool
is_digit c = leb b'0' c && leb c b'9'

abbrev pub is_space : ℕ → Bool
is_space c = (c == 32) || (leb 9 c && leb c 13)

unfoldable pub scan_digits : ℕ → List ℕ → ℕ × List ℕ
scan_digits n [] = (n, [])
scan_digits n (c ∷ rest) =
    let more = scan_digits (n * 10 + (c - b'0')) rest in if is_digit c then more else (n, c ∷ rest)

-- At least one digit.
unfoldable pub scan_nat : List ℕ → Option (ℕ × List ℕ)
scan_nat [] = none
scan_nat (c ∷ rest) = if is_digit c then some (scan_digits 0 (c ∷ rest)) else none

abbrev pub negated : Option (ℕ × List ℕ) → Option (ℤ × List ℕ)
negated none = none
negated (some (zero, rest)) = some (pos 0, rest)
negated (some (suc n, rest)) = some (negsuc n, rest)

abbrev pub positive : Option (ℕ × List ℕ) → Option (ℤ × List ℕ)
positive none = none
positive (some (n, rest)) = some (pos n, rest)

-- "%d"
unfoldable pub scan_int : List ℕ → Option (ℤ × List ℕ)
scan_int [] = none
scan_int (c ∷ rest) =
    let later = scan_int rest in
    if is_space c
    then later
    else if c == b'-'
    then negated (scan_nat rest)
    else if c == b'+'
    then positive (scan_nat rest)
    else positive (scan_nat (c ∷ rest))

-- "." in the format
unfoldable pub scan_dot : List ℕ → Option (List ℕ)
scan_dot [] = none
scan_dot (c ∷ rest) = if c == b'.' then some rest else none

infixl 5 ◌>>=◌
abbrev pub ◌>>=◌ {ℓ κ} : {A : Type ℓ} {B : Type κ} → Option A → (A → Option B) → Option B
none >>= f = none
some a >>= f = f a

-- The four numbers of "%d.%d.%d.%d", where `sscanf` returns 4.
unfoldable pub scan_ip : List ℕ → Option (ℤ × ℤ × ℤ × ℤ)
scan_ip s = do
  (tmp1, s1) ← scan_int s
  s2 ← scan_dot s1
  (tmp2, s3) ← scan_int s2
  s4 ← scan_dot s3
  (tmp3, s5) ← scan_int s4
  s6 ← scan_dot s5
  (tmp4, s7) ← scan_int s6
  some (tmp1, tmp2, tmp3, tmp4)

-- The loop over the characters.
unfoldable pub has_ip_chars : List ℕ → Bool
has_ip_chars [] = true
has_ip_chars (c ∷ rest) = (not (not (c == b'.') && not (is_digit c))) && has_ip_chars rest

-- The two tests of what `sscanf` gives.
unfoldable pub in_range : Option (ℤ × ℤ × ℤ × ℤ) → Bool
in_range none = false
in_range (some (tmp1, tmp2, tmp3, tmp4)) =
    leb_ℤ tmp1 (pos 255) && leb_ℤ tmp2 (pos 255) && leb_ℤ tmp3 (pos 255) && leb_ℤ tmp4 (pos 255)

unfoldable pub is_ipv4_addr : List ℕ → Bool
is_ipv4_addr s = if in_range (scan_ip s) then has_ip_chars s else false
