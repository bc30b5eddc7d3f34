-- ===== src/KcpSession/Ticking.antt =====
-- When `Tick` of connclient/src/kcp_session.cpp runs the library's update.
use defold_connclient.Prelude.{ℕ, ◌<◌, ◌≡◌, some, false, List, [], arith}
use defold_connclient.KcpSession.{KcpLib, KcpSession, input, tick, schedule, update, check}

module _ (lib : KcpLib) where
  -- Two ticks of which the later comes before the time that the first has set: the later one
  -- sends nothing and changes nothing, whatever state the first began in.
  tick_early :
      (s : KcpSession lib.Kcp) (now later : ℕ)
      → later < (tick lib now s).0.next_time_ms
      → tick lib later (tick lib now s).0 ≡ ((tick lib now s).0, [])
  unfolding tick schedule update check
  tick_early s now later h = ground arith

  -- In a session with a control block, data that came in is acted on by the next tick, also where
  -- its time is not come: the tick is the library's update of the block that took the input, and
  -- sets the time of the next one.
  tick-input :
      (s : KcpSession lib.Kcp) (k : lib.Kcp) (buf : List ℕ) (at now : ℕ)
      → s.kcp ≡ some k
      → let fed = (lib.input buf at k).1 in
        let out = tick lib now (input lib buf at s).1 in
        (out.1 ≡ (lib.update now fed).1)
        × (out.0.kcp ≡ some (lib.update now fed).0)
        × (out.0.update_now ≡ false)
        × (out.0.next_time_ms ≡ lib.check now (lib.update now fed).0)
  unfolding tick schedule update check input
  tick-input s k buf at now h = ground arith
