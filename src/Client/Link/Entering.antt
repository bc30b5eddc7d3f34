-- ===== src/Client/Link/Entering.antt =====
-- The states that a connection of connclient/src/conn_client.cpp enters.
use defold_connclient.Prelude.{ℕ, suc, ◌≤◌, ◌≡◌, refl, subst, sym, true, is_some, ℤ, arith}
use defold_connclient.Stream
use defold_connclient.Stream.{Stream, len, reset}
use defold_connclient.Stream.Buffer.{empty-IsValid}
use defold_connclient.Client.State.{
  Env, Client, ConnState, cs_init, cs_connecting, cs_connected, cs_logic_connected, now_ms,
  set_conn_state, enter_state, init,
}
use defold_connclient.Client.Send.{inner_close}
use defold_connclient.Client.Link.{Link, link, Holds}
use defold_connclient.Client.Link.Closing.{inner_close-enters}
use defold_connclient.Client.Link.WellFormed.{is_open, enter, enter-IsSound, enter-IsLinked}
use defold_connclient.Client.Link.Tracked.{
  Walk, Steady, Tracked, Steady-Stable, Tracked-Stable, down-Tracked,
}

module _ (w : Walk) where
  enter-Tracked :
      (state : ConnState) (k : Link)
      → is_open state ≡ true
      → w.allowed state
      → is_some k.tcp_sock ≡ true
      → is_some k.udp_sock ≡ true
      → Steady w k
      → Tracked w (enter state k)
  enter-Tracked cs_init k up a tcp udp s = absurd cc
  enter-Tracked cs_connecting k up a tcp udp s = record {
    steady = record { sound = enter-IsSound cs_connecting k s.sound; state = a; within = s.within };
    linked = enter-IsLinked cs_connecting k up tcp udp;
  }
  enter-Tracked cs_connected k up a tcp udp s = record {
    steady = record { sound = enter-IsSound cs_connected k s.sound; state = a; within = s.within };
    linked = enter-IsLinked cs_connected k up tcp udp;
  }
  enter-Tracked cs_logic_connected k up a tcp udp s = record {
    steady = record {
      sound = enter-IsSound cs_logic_connected k s.sound;
      state = a;
      within = s.within;
    };
    linked = enter-IsLinked cs_logic_connected k up tcp udp;
  }

module _ (e : Env) where
  link-set_conn_state :
      (state : ConnState) (c : Client e) → link (set_conn_state e state c) ≡ enter state (link c)
  unfolding set_conn_state now_ms enter_state
  link-set_conn_state cs_init c = refl
  link-set_conn_state cs_connecting c = refl
  link-set_conn_state cs_connected c = refl
  link-set_conn_state cs_logic_connected c = refl

module _ (e : Env) (w : Walk) where
  -- A close makes the connection well formed, also where a connect is broken off with one socket.
  pub inner_close-Tracked :
      (depth : ℕ) (reason : ℤ) (c : Client e)
      → Holds (Steady w) c
      → Holds (Tracked w) (inner_close e (suc depth) reason c)
  inner_close-Tracked =
      inner_close-enters e (Steady w) (Steady-Stable w) (Tracked w) (Tracked-Stable w)
        (down-Tracked w)

  -- A state that is not CS_INIT is entered with both sockets open.
  pub set_conn_state-Tracked :
      (state : ConnState) (c : Client e)
      → is_open state ≡ true
      → w.allowed state
      → is_some c.tcp_sock ≡ true
      → is_some c.udp_sock ≡ true
      → Holds (Steady w) c
      → Holds (Tracked w) (set_conn_state e state c)
  set_conn_state-Tracked state c up a tcp udp h = record {
    holds =
        subst (Tracked w) (sym (link-set_conn_state e state c))
          (enter-Tracked w state (link c) up a tcp udp h.holds);
  }

  pub init-Tracked :
      (os : e.os.State) → w.allowed cs_init → 1 ≤ w.budget → Holds (Tracked w) (init e os)
  unfolding init set_conn_state now_ms enter_state len Stream.empty
  init-Tracked os a one = record {
    holds = record {
      steady = record {
        sound = record {
          sent = empty-IsValid e.alloc;
          unread = empty-IsValid e.alloc;
          sorted = tt;
          few = omega arith;
          count = omega arith;
        };
        state = a;
        within = one;
      };
      linked = record { tcp = refl; udp = refl; idle = λ h. refl };
    };
  }
