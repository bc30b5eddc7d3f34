-- ===== src/Client/Read/Reassembly/Chunks.antt =====
-- Frames that come in pieces to `OnTcpRead` of connclient/src/conn_client.cpp.
use defold_connclient.Prelude.{
  ℕ, ◌+◌, ◌≤◌, ◌<◌, ◌^◌, ◌≡◌, refl, sym, ap, ◌∙◌, subst, some, List, [], ◌∷◌, ◌++◌, map, length,
  arith, append_assoc, append-nil, length-append,
}
use defold_connclient.Os.{Fd}
use defold_connclient.Client.State.{Env, Client, Event, output_event}
use defold_connclient.Client.Read.{read_loop, on_tcp_read}
use defold_connclient.Client.Send.Framing.{frame}
use defold_connclient.Client.Read.Reassembly.{
  Reading, read_loop-Reading, IsPartial, AreShort, frames, length-frame,
}
use defold_connclient.Client.Read.Reassembly.Parts.{IsPartial-none, IsBegun, frames-Parts}
use defold_connclient.Client.Read.Reassembly.Piece.{on_tcp_read-Reading}

abbrev pub concat : List (List ℕ) → List ℕ
concat [] = []
concat (chunk ∷ chunks) = chunk ++ concat chunks

outputs-append :
    (xs ys : List (List ℕ))
    → map output_event (xs ++ ys) ≡ map output_event xs ++ map output_event ys
outputs-append [] ys = refl
outputs-append (x ∷ xs) ys = ap (λ evs. output_event x ∷ evs) (outputs-append xs ys)

module _ (e : Env) (sock : Fd) where
  -- `recv` on the socket gives these pieces, one after the other.
  abbrev pub Feeds : List (List ℕ) → e.os.State → Type 0
  Feeds [] s = Unit {0}
  Feeds (chunk ∷ chunks) s =
      ((e.os.recv sock 16384 s).0 ≡ some chunk)
      × (0 < length chunk)
      × Feeds chunks (e.os.recv sock 16384 s).1

  abbrev pub after_reads : List (List ℕ) → e.os.State → e.os.State
  after_reads [] s = s
  after_reads (chunk ∷ chunks) s = after_reads chunks (e.os.recv sock 16384 s).1

module _ (e : Env) (depth fuel : ℕ) where
  -- `OnTcpRead` once for each piece.
  abbrev pub on_tcp_reads : ℕ → ℕ → List (List ℕ) → Client e → Client e
  on_tcp_reads frames_left cur_time [] c = c
  on_tcp_reads frames_left cur_time (chunk ∷ chunks) c =
      on_tcp_reads frames_left cur_time chunks (on_tcp_read e depth fuel frames_left cur_time c)

module _ (e : Env) (depth fuel f flow magic : ℕ) (flow_small : flow < 2 ^ 32) (sock : Fd) where
  partial_short : (tail : List ℕ) → IsPartial flow magic tail → length tail + 16384 ≤ 16777216
  partial_short tail (msg, more, cut, left, small) =
      omega (arith, small, length-frame flow magic msg, ap length cut, length-append tail more)

  AreShort-split :
      (whole later : List (List ℕ)) → AreShort (whole ++ later) → AreShort whole × AreShort later
  AreShort-split [] later small = (tt, small)
  AreShort-split (msg ∷ whole) later small =
      let both = AreShort-split whole later small.1 in ((small.0, both.0), both.1)

  on_tcp_reads-Reading :
      (frames_left cur_time : ℕ) (chunks msgs : List (List ℕ)) (out : List Event) (tail : List ℕ)
      (s : e.os.State) (c : Client e)
      → length msgs < frames_left
      → AreShort msgs
      → Feeds e sock chunks s
      → IsPartial flow magic tail
      → IsBegun flow magic msgs tail
      → tail ++ concat chunks ≡ frames flow magic msgs
      → Reading s sock f out tail c
      → Reading
          (after_reads e sock chunks s)
          sock
          f
          (out ++ map output_event msgs)
          []
          (on_tcp_reads e depth fuel frames_left cur_time chunks c)
  on_tcp_reads-Reading frames_left cur_time [] msgs out tail s c less small feeds cut begun all r =
      nothing_left msgs begun all
    where
      nothing_left :
          (msgs' : List (List ℕ))
          → IsBegun flow magic msgs' tail
          → tail ++ [] ≡ frames flow magic msgs'
          → Reading s sock f (out ++ map output_event msgs') [] c
      nothing_left [] begun' all' =
          subst (λ evs. Reading s sock f evs [] c) (sym (append-nil out))
            (subst (λ bytes. Reading s sock f out bytes c) begun' r)
      nothing_left (msg ∷ rest) begun' all' = absurd (
          omega (
            arith,
            begun',
            ap length all',
            length-append tail [],
            length-append (frame flow magic 1 msg) (frames flow magic rest),
          ))
  on_tcp_reads-Reading frames_left cur_time (chunk ∷ chunks) msgs out tail s c less small feeds cut
        begun all r =
      let s1 = (e.os.recv sock 16384 s).1 in
      let (d, same, put) =
        on_tcp_read-Reading e depth fuel f flow magic flow_small sock out tail chunk frames_left
          cur_time s c (partial_short tail cut) feeds.0 feeds.1 r in
      let parts =
        frames-Parts flow magic msgs (tail ++ chunk) (concat chunks) small
          (append_assoc tail chunk (concat chunks) ∙ all) in
      let both = AreShort-split parts.whole parts.later (subst AreShort parts.all small) in
      let counted : length msgs ≡ length parts.whole + length parts.later =
        ap length parts.all ∙ length-append parts.whole parts.later in
      let looped =
        read_loop-Reading e depth fuel cur_time f flow magic flow_small s1 sock out parts.whole
          parts.tail frames_left d (omega (arith, less, counted)) both.0 parts.cut
          (subst (λ bytes. Reading s1 sock f out bytes d) parts.shape put) in
      let rest =
        on_tcp_reads-Reading frames_left cur_time chunks parts.later
          (out ++ map output_event parts.whole) parts.tail s1
          (read_loop e depth fuel cur_time frames_left d) (omega (arith, less, counted)) both.1
          feeds.2 parts.cut parts.begun parts.left looped in
      subst
        (λ evs.
          Reading (after_reads e sock chunks s1) sock f evs []
            (on_tcp_reads e depth fuel frames_left cur_time (chunk ∷ chunks) c))
        (append_assoc out (map output_event parts.whole) (map output_event parts.later)
          ∙ ap (λ evs. out ++ evs)
              (sym (outputs-append parts.whole parts.later)
                ∙ ap (map output_event) (sym parts.all)))
        (subst
          (λ d'.
            Reading (after_reads e sock chunks s1) sock f
              ((out ++ map output_event parts.whole) ++ map output_event parts.later) []
              (on_tcp_reads e depth fuel frames_left cur_time chunks d'))
          (sym same) rest)

  -- A server sends messages that are not of KCP, each in a frame of at most 16 MiB - 16 KiB, all with
  -- one flow of 32 bits and one magic number, and `recv` gives the bytes of all the frames in pieces,
  -- cut anywhere. Where nothing else is unread and the callback for messages is set, `OnTcpRead`,
  -- called once for each piece with one time, puts out every message whole, once and in order, leaves
  -- nothing to read, and closes nothing; fuel for one round more than there are messages is enough.
  pub on_tcp_reads-frames :
      (frames_left cur_time : ℕ) (chunks msgs : List (List ℕ)) (out : List Event) (s : e.os.State)
      (c : Client e)
      → length msgs < frames_left
      → AreShort msgs
      → Feeds e sock chunks s
      → concat chunks ≡ frames flow magic msgs
      → Reading s sock f out [] c
      → Reading
          (after_reads e sock chunks s)
          sock
          f
          (out ++ map output_event msgs)
          []
          (on_tcp_reads e depth fuel frames_left cur_time chunks c)
  on_tcp_reads-frames frames_left cur_time chunks msgs out s c less small feeds all r =
      on_tcp_reads-Reading frames_left cur_time chunks msgs out [] s c less small feeds
        (IsPartial-none flow magic) (begins msgs) all r
    where
      begins : (msgs' : List (List ℕ)) → IsBegun flow magic msgs' []
      begins [] = refl
      begins (msg ∷ rest) = omega (arith, length-frame flow magic msg)
