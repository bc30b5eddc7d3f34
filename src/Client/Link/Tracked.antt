-- ===== src/Client/Link/Tracked.antt =====
-- What the handlers of connclient/src/conn_client.cpp may do to a connection on their way: the
-- states that they may come to, and the events of a first connect that they may put out.
use defold_connclient.Prelude.{
  ℕ, ◌+◌, ◌≤◌, ◌≡◌, refl, Bool, true, false, List, [], ◌∷◌, ◌++◌, if◌then◌else◌, length, ℤ, arith,
}
use defold_connclient.Stream.{Stream, len, reset}
use defold_connclient.Stream.Buffer.{IsValid}
use defold_connclient.Os.{Fd}
use defold_connclient.Client.State.{ConnState, cs_init, Event}
use defold_connclient.Client.Relink.Sorted.{IsSorted}
use defold_connclient.Client.Link.{Link, down, put, is_success, Stable}
use defold_connclient.Client.Link.WellFormed.{
  IsSound, IsLinked, WellFormed, down-IsSound, sockets-IsSound, write-IsSound, relinks-IsSound,
}

-- The states that may be come to, a closed connection among them, and a bound.
pub record Walk : Type 1 where
  pub allowed : ConnState → Type 0
  pub by_close : (s : ConnState) → allowed s → allowed cs_init
  pub budget : ℕ

-- The events of a first connect in a queue.
abbrev pub successes : List Event → ℕ
successes [] = 0
successes (ev ∷ evs) = (if is_success ev then 1 else 0) + successes evs

-- Those still to come.
abbrev pub to_come : Bool → ℕ
to_come true = 1
to_come false = 0

abbrev pub announced : Link → ℕ
announced k = successes k.out_queue + to_come k.is_first_connect

pub record Steady (w : Walk) (k : Link) : Type 0 where
  pub sound : IsSound k
  pub state : w.allowed k.conn_state
  pub within : announced k ≤ w.budget

pub record Tracked (w : Walk) (k : Link) : Type 0 where
  pub steady : Steady w k
  pub linked : IsLinked k

pub successes-append :
    (evs : List Event) (ev : Event)
    → successes (evs ++ ev ∷ []) ≡ successes evs + (if is_success ev then 1 else 0)
successes-append [] ev = omega arith
successes-append (x ∷ evs) ev = omega (arith, successes-append evs ev)

module _ (w : Walk) where
  pub down-Tracked : (k : Link) → Steady w k → Tracked w (down k)
  unfolding len reset
  down-Tracked k s = record {
    steady = record {
      sound = down-IsSound k s.sound;
      state = w.by_close k.conn_state s.state;
      within = s.within;
    };
    linked = record { tcp = refl; udp = refl; idle = λ h. refl };
  }

  write-Steady :
      (k : Link) (ws : Stream)
      → (IsValid k.write_stream → IsValid ws)
      → Steady w k
      → Steady w (record k { write_stream = ws })
  write-Steady k ws valid s = record {
    sound = write-IsSound k ws valid s.sound;
    state = s.state;
    within = s.within;
  }

  pub sockets-Steady :
      (k : Link) (tcp udp : Fd)
      → Steady w k
      → Steady w (record k { tcp_sock = tcp; udp_sock = udp })
  sockets-Steady k tcp udp s = record {
    sound = sockets-IsSound k tcp udp k.conn_state s.sound;
    state = s.state;
    within = s.within;
  }

  put-Steady : (ev : Event) (k : Link) → is_success ev ≡ false → Steady w k → Steady w (put ev k)
  put-Steady ev k other s = record {
    sound = record {
      sent = s.sound.sent;
      unread = s.sound.unread;
      sorted = s.sound.sorted;
      few = s.sound.few;
      count = s.sound.count;
    };
    state = s.state;
    within = rw (successes-append k.out_queue ev, other) (omega (arith, s.within));
  }

  pub Steady-Stable : Stable (Steady w)
  Steady-Stable = record {
    by_write = write-Steady;
    by_close = λ k s. (down-Tracked k s).steady;
    by_event = put-Steady;
  }

  pub Tracked-Stable : Stable (Tracked w)
  Tracked-Stable = record {
    by_write = λ k ws valid t. record {
      steady = write-Steady k ws valid t.steady;
      linked = record { tcp = t.linked.tcp; udp = t.linked.udp; idle = t.linked.idle };
    };
    by_close = λ k t. down-Tracked k t.steady;
    by_event = λ ev k other t. record {
      steady = put-Steady ev k other t.steady;
      linked = record { tcp = t.linked.tcp; udp = t.linked.udp; idle = t.linked.idle };
    };
  }

  pub Tracked-WellFormed : (k : Link) → Tracked w k → WellFormed k
  Tracked-WellFormed k t = record { sound = t.steady.sound; linked = t.linked }

  -- The intervals and the count may change within their bounds.
  pub relinks-Tracked :
      (k : Link) (vec : List ℤ) (n : ℕ)
      → IsSorted vec
      → length vec ≤ 5
      → n ≤ 5
      → Tracked w k
      → Tracked w (record k { relink_interval_ms_vec = vec; relink_count = n })
  relinks-Tracked k vec n sorted few below t = record {
    steady = record {
      sound = relinks-IsSound k vec n sorted few below t.steady.sound;
      state = t.steady.state;
      within = t.steady.within;
    };
    linked = record { tcp = t.linked.tcp; udp = t.linked.udp; idle = t.linked.idle };
  }
