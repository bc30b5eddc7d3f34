-- ===== src/KcpSession/Guards.antt =====
-- A session of connclient/src/kcp_session.cpp without a control block.
use defold_connclient.Prelude.{
  ℕ, ◌≡◌, refl, List, [], ℤ, pos, negsuc, arith, is_some, true, false, Bool, ◌⊎◌,
}
use defold_connclient.Wire.{ControlKcpInfo}
use defold_connclient.KcpSession.{
  KcpLib, KcpSession, failed, create_kcp, input, send, recv, check, update, release, flush, read,
  tick,
}

module _ (lib : KcpLib) where
  -- After `Release` each of `Input`, `Send`, `Recv`, `Update`, `Flush`, `Tick`, `Check`, `Release` and
  -- the reads of a field answers 0 or nothing, sends nothing and keeps the session as it is.
  release_inert :
      (s : KcpSession lib.Kcp) (buf : List ℕ) (now len : ℕ) (field : lib.Kcp → ℤ)
      → let r = release lib s in
        (input lib buf now r ≡ (pos 0, r))
        × (send lib buf now r ≡ (pos 0, r, []))
        × (recv lib len r ≡ (failed (pos 0), r))
        × (update lib now r ≡ (r, []))
        × (flush lib r ≡ (r, []))
        × (tick lib now r ≡ (r, []))
        × (check lib now r ≡ 0)
        × (read lib field r ≡ pos 0)
        × (release lib r ≡ r)
  unfolding release input send recv update flush tick check read
  release_inert s buf now len field = (refl, refl, refl, refl, refl, refl, refl, refl, refl)

  -- `CreateKCP` leaves a control block exactly when it returns 0, and records the conversation
  -- number in both cases.
  pub create_kcp_code :
      (info : ControlKcpInfo) (has_log enable_kcp_log : Bool) (s : KcpSession lib.Kcp)
      → let out = create_kcp lib info has_log enable_kcp_log s in
        (((out.0 ≡ pos 0) × (is_some out.1.kcp ≡ true))
          ⊎ ((out.0 ≡ negsuc 0) × (is_some out.1.kcp ≡ false)))
        × (out.1.kcp_conv ≡ info.kcp_conv)
  unfolding create_kcp
  create_kcp_code info has_log enable_kcp_log s = ground arith
