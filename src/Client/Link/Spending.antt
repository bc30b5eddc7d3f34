-- ===== src/Client/Link/Spending.antt =====
-- How the events of a first connect of connclient/src/conn_client.cpp are put out and taken.
use defold_connclient.Prelude.{ℕ, ◌-◌, ◌≤◌, ◌≡◌, ap, true, false, [], arith}
use defold_connclient.Client.State.{connect_success_event}
use defold_connclient.Client.Link.{Link, put}
use defold_connclient.Client.Link.Tracked.{
  Walk, Steady, Tracked, successes, to_come, successes-append,
}

-- The same, with some events given away.
abbrev pub spend : ℕ → Walk → Walk
spend m w = record w { budget = w.budget - m }

module _ (w : Walk) where
  pub spend-Steady :
      (k : Link)
      → k.is_first_connect ≡ true
      → Steady w k
      → Steady (spend 1 w) (record k { is_first_connect = false })
  spend-Steady k first s = record {
    sound = record {
      sent = s.sound.sent;
      unread = s.sound.unread;
      sorted = s.sound.sorted;
      few = s.sound.few;
      count = s.sound.count;
    };
    state = s.state;
    within = omega (arith, s.within, ap to_come first);
  }

  pub spend-positive : (k : Link) → k.is_first_connect ≡ true → Steady w k → 1 ≤ w.budget
  spend-positive k first s = omega (arith, s.within, ap to_come first)

  pub raise-Tracked : (m : ℕ) (k : Link) → Tracked (spend m w) k → Tracked w k
  raise-Tracked m k t = record {
    steady = record {
      sound = t.steady.sound;
      state = t.steady.state;
      within = omega (arith, t.steady.within);
    };
    linked = t.linked;
  }

  -- The main thread takes what is in the queue.
  pub take-Tracked :
      (k : Link)
      → Tracked w k
      → Tracked (spend (successes k.out_queue) w) (record k { out_queue = [] })
  take-Tracked k t = record {
    steady = record {
      sound = record {
        sent = t.steady.sound.sent;
        unread = t.steady.sound.unread;
        sorted = t.steady.sound.sorted;
        few = t.steady.sound.few;
        count = t.steady.sound.count;
      };
      state = t.steady.state;
      within = omega (arith, t.steady.within);
    };
    linked = record { tcp = t.linked.tcp; udp = t.linked.udp; idle = t.linked.idle };
  }

  pub announce-Tracked :
      1 ≤ w.budget → (k : Link) → Tracked (spend 1 w) k → Tracked w (put connect_success_event k)
  announce-Tracked one k t = record {
    steady = record {
      sound = record {
        sent = t.steady.sound.sent;
        unread = t.steady.sound.unread;
        sorted = t.steady.sound.sorted;
        few = t.steady.sound.few;
        count = t.steady.sound.count;
      };
      state = t.steady.state;
      within =
          omega (arith, one, t.steady.within, successes-append k.out_queue connect_success_event);
    };
    linked = record { tcp = t.linked.tcp; udp = t.linked.udp; idle = t.linked.idle };
  }
