-- ===== src/PendingConnection/Hsv5/Agree.antt =====
-- The two sides of a handshake agree on the connection.
use srt_rs.Prelude.{ℕ, ◌≡◌, refl, sym, ap, ◌∙◌, Option, none, some, List, inr, arith}
use mathlib.Core.Path.{subst}
use srt_rs.Packet.Instant.{Instant}
use srt_rs.Packet.Reject.{server, ServerRejectReason}
use srt_rs.Packet.Srt.{SrtHandshake, handshake_request}
use srt_rs.Packet.Control.{HsV5Info, HandshakeVsInfo, v5, udt, HandshakeControlInfo}
use srt_rs.PendingConnection.Settings.{
  SocketAddr, StreamKeys, CipherSettings, ConnInitSettings, ConnectionSettings,
}
use srt_rs.PendingConnection.Results.{rejecting}
use srt_rs.PendingConnection.Hsv5.{
  GenHsv5Result, accept, reject, CipherResult, cipher, refused, mismatched, own_handshake,
  responder_info, responder_settings, respond, respond_to, cipher_of, gen_access_control_response,
  gen_hsv5_response, start_hsv5_initiation, initiator_settings, finish_with, finish_hsv5_initiation,
  sid_of, key_request, random_cipher, own_key_size,
}

module _ (o : StreamKeys) where
  open o use {Keys}

  -- One side sends with the latency with which the other receives, and the streams are the same.
  pub record Agree (initiator responder : ConnectionSettings Keys) : Type 0 where
    pub send : initiator.send_tsbpd_latency ≡ responder.recv_tsbpd_latency
    pub recv : initiator.recv_tsbpd_latency ≡ responder.send_tsbpd_latency
    pub stream : initiator.stream_id ≡ responder.stream_id

  accepted :
      (settings : ConnInitSettings) (req : HandshakeControlInfo) (incoming : HsV5Info)
      (hs : SrtHandshake) (from : SocketAddr) (t now : Instant) (r : CipherResult Keys)
      {info : HandshakeVsInfo} {conn : ConnectionSettings Keys}
      → respond o settings req incoming hs from t now r ≡ accept info conn
      → (c : Option (CipherSettings Keys)) × (info
          ≡ responder_info o settings (sid_of o req.info) c)
        × (conn ≡ responder_settings o settings req incoming hs from t now c)
  unfolding respond
  accepted settings req incoming hs from t now (cipher c) e = (c, cc, cc)
  accepted settings req incoming hs from t now (refused x) e = absurd (ground (arith, e))
  accepted settings req incoming hs from t now mismatched e = absurd (ground (arith, e))

  -- The request of a caller.
  abbrev pub wanted : ConnInitSettings → Option (List ℕ) → HsV5Info
  wanted caller sid = record {
    key_size = own_key_size o caller.key_settings;
    ext_hs = some (handshake_request (own_handshake caller));
    ext_km = key_request o (random_cipher o caller.key_settings caller);
    ext_group = none;
    sid = sid;
  }

  module _ (caller listener listener' : ConnInitSettings) (sid : Option (List ℕ))
      (t0 t1 now end : Instant) (from back : SocketAddr) (req res : HandshakeControlInfo)
      (info : HandshakeVsInfo) (responder : ConnectionSettings Keys) where
    asked :
        req.info ≡ v5 (wanted caller sid)
        → gen_hsv5_response o listener req from t1 now ≡ (listener', accept info responder)
        → respond o listener req (wanted caller sid) (own_handshake caller) from t1 now (
            cipher_of o listener listener.key_settings
              (wanted caller sid).key_size
              (wanted caller sid).ext_km)
          ≡ accept info responder
    unfolding gen_hsv5_response gen_access_control_response respond_to
    asked ei e = asks req.info ei e
      where
        asks :
            (i : HandshakeVsInfo)
            → i ≡ v5 (wanted caller sid)
            → (elim i as (λ _. ConnInitSettings × GenHsv5Result Keys) [
              | v5 incoming ↦ gen_access_control_response o now listener from t1 req incoming none
              | udt ty ↦ (listener, reject (rejecting (server ServerRejectReason.version)))
            ])
              ≡ (listener', accept info responder)
            → respond o listener req (wanted caller sid) (own_handshake caller) from t1 now (
                cipher_of o listener listener.key_settings
                  (wanted caller sid).key_size
                  (wanted caller sid).ext_km)
              ≡ accept info responder
        asks (v5 w) ei e =
            let same : w ≡ (wanted caller sid) = cc in
            ap (λ x. x.1)
              (subst
                (λ v.
                  gen_access_control_response o now listener from t1 req v none
                  ≡ (listener', accept info responder))
                same e)
        asks (udt ty) ei e = absurd (ground (arith, ei))

    -- If `gen_hsv5_response` accepts the request that a caller started with its settings, the caller finishes
    -- with the response that has the information of that answer, and the two sides agree: one sends
    -- with the latency with which the other receives, and the streams are the same.
    pub finish_hsv5_initiation-Agree :
        req.info ≡ (start_hsv5_initiation o caller sid t0).0
        → gen_hsv5_response o listener req from t1 now ≡ (listener', accept info responder)
        → res.info ≡ info
        → (initiator : ConnectionSettings Keys) × (finish_hsv5_initiation o
              (start_hsv5_initiation o caller sid t0).1
              res
              back
              end
            ≡ inr initiator)
          × Agree initiator responder
    unfolding start_hsv5_initiation finish_hsv5_initiation finish_with responder_info
        initiator_settings responder_settings
    finish_hsv5_initiation-Agree ei e er =
        let (c, i, conn) =
          accepted listener req (wanted caller sid) (own_handshake caller) from t1 now
            (cipher_of o listener listener.key_settings (wanted caller sid).key_size
              (wanted caller sid).ext_km)
            (asked ei e) in
        (
          initiator_settings o (start_hsv5_initiation o caller sid t0).1 res
              (own_handshake listener) back end,
          rw (er ∙ i) refl,
          agreed c conn,
        )
      where
        agreed :
            (c : Option (CipherSettings Keys))
            → responder
              ≡ responder_settings o listener req
                  (wanted caller sid)
                  (own_handshake caller)
                  from
                  t1
                  now
                  c
            → Agree
                (initiator_settings o
                  (start_hsv5_initiation o caller sid t0).1
                  res
                  (own_handshake listener)
                  back
                  end)
                responder
        agreed c e' =
            subst (Agree _) (sym e')
              (record { send = omega arith; recv = omega arith; stream = refl })
