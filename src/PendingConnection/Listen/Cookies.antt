-- ===== src/PendingConnection/Listen/Cookies.antt =====
-- What the cookie of a conclusion guards.
use srt_rs.Prelude.{ℕ, ◌≡◌, refl, Bool, true, false, some, ℤ, inr, ◌==◌, if◌then◌else◌}
use srt_rs.Packet.Instant.{Instant}
use srt_rs.Packet.TimeStamp.{TimeStamp}
use srt_rs.Packet.Reject.{conclusion}
use srt_rs.Packet.Control.{HandshakeControlInfo}
use srt_rs.Packet.Control.Handshake.{version}
use srt_rs.PendingConnection.Settings.{SocketAddr, StreamKeys, ConnInitSettings}
use srt_rs.PendingConnection.Results.{
  ConnectionResult, not_handled, unsupported_protocol_version, invalid_handshake_cookie,
}
use srt_rs.PendingConnection.Connect.Strangers.{Quiet, ignored}
use srt_rs.PendingConnection.Listen.{
  Listen, ConclusionWaitState, conclusion_wait, same_cookie, reply, Handled, handle_packet,
  wait_for_conclusion, with_cookie,
}

module _ (o : StreamKeys) where
  open o use {Keys}

  -- Nothing panics, the listener stays as it was, and the result is quiet.
  abbrev pub Unmoved : Listen → Handled o → Type 0
  Unmoved l h = (r : ConnectionResult Keys) × (h ≡ some (l, r)) × Quiet r

  -- A conclusion with another cookie than the one that the listener gave, from whatever host and with
  -- whatever information, makes no panic and leaves the listener as it was: it does not connect, is
  -- not rejected, asks for no access, and nothing is sent.
  pub wrong_cookie-Unmoved :
      (settings : ConnInitSettings) (access : Bool) (w : ConclusionWaitState) (now : Instant)
      (cookie : ℤ) (from : SocketAddr) (ts : TimeStamp) (dest : ℕ) (shake : HandshakeControlInfo)
      → same_cookie shake.syn_cookie w.cookie ≡ false
      → Unmoved
          (record {
            init_settings = settings;
            state = conclusion_wait w;
            enable_access_control = access;
          })
          (handle_packet o
            (record {
              init_settings = settings;
              state = conclusion_wait w;
              enable_access_control = access;
            })
            now
            cookie
            (inr (reply ts dest (record shake { shake_type = conclusion }), from)))
  unfolding handle_packet wait_for_conclusion
  wrong_cookie-Unmoved settings access w now cookie from ts dest shake other =
      let l : Listen = record {
        init_settings = settings;
        state = conclusion_wait w;
        enable_access_control = access;
      } in
      elim (version shake.info == 5)
        as (λ b. Unmoved l (
          if b
          then if same_cookie shake.syn_cookie w.cookie
            then with_cookie o l now from dest ts w (record shake { shake_type = conclusion })
                shake.info
            else some (l, not_handled (invalid_handshake_cookie w.cookie shake.syn_cookie))
          else some (l, not_handled (unsupported_protocol_version (version shake.info))))) [
            | true ↦ rw other (_, refl, ignored _)
            | false ↦ (_, refl, ignored _)
          ]
