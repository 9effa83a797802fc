-- ===== src/PendingConnection/Connect/Exchange.antt =====
-- The whole exchange of a caller with a listener that accepts it.
use srt_rs.Prelude.{ℕ, ◌≡◌, refl, true, Option, none, List, ◌==◌, inr, arith}
use srt_rs.Packet.Instant.{Instant}
use srt_rs.Packet.SeqNumber.{SeqNumber}
use srt_rs.Packet.TimeStamp.{TimeStamp}
use srt_rs.Packet.Reject.{induction, conclusion}
use srt_rs.Packet.Control.{HandshakeControlInfo, HandshakeVsInfo, HsV5Info, udt, v5, IpAddr}
use srt_rs.Packet.Control.Handshake.{version}
use srt_rs.PendingConnection.Settings.{SocketAddr, StreamKeys, ConnInitSettings, ConnectionSettings}
use srt_rs.PendingConnection.Results.{send_packet, connected, connector, same_addr}
use srt_rs.PendingConnection.Hsv5.{
  StartedInitiator, accept, start_hsv5_initiation, finish_hsv5_initiation, gen_hsv5_response,
}
use srt_rs.PendingConnection.Hsv5.Agree.{Agree, finish_hsv5_initiation-Agree}
use srt_rs.PendingConnection.Connect.{
  Connect, new, handle_tick, handle_packet, on_start, conclude, wait_for_induction,
  wait_for_conclusion, shake_packet, conclusion_response_wait,
}

module _ (o : StreamKeys) where
  open o use {Keys}

  finish_v5 :
      (info : HandshakeVsInfo) (s : StartedInitiator o) (res : HandshakeControlInfo)
      (from : SocketAddr) (end : Instant) {i : ConnectionSettings Keys}
      → finish_hsv5_initiation o s (record res { info = info }) from end ≡ inr i
      → (version info == 5) ≡ true
  unfolding finish_hsv5_initiation version
  finish_v5 (v5 hs) s res from end e = refl
  finish_v5 (udt ty) s res from end e = absurd (ground (arith, e))

  -- A caller that has sent its induction.
  abbrev pub called :
      SocketAddr → IpAddr → ConnInitSettings → Option (List ℕ) → SeqNumber → Instant → Connect o
  called remote local_addr caller sid seq start =
      (handle_tick o (new o remote local_addr caller sid seq) start).0

  -- The conclusion that answers an induction.
  abbrev pub concluded :
      ConnInitSettings
      → Option (List ℕ)
      → SeqNumber
      → Instant
      → HandshakeControlInfo
      → HandshakeControlInfo
  concluded caller sid seq t0 ind = record ind {
    shake_type = conclusion;
    socket_id = caller.local_sockid;
    info = (start_hsv5_initiation o caller sid t0).0;
    init_seq_num = seq;
  }

  abbrev pub waiting : Connect o → TimeStamp → Instant → HandshakeControlInfo → Connect o
  waiting c ts t0 ind = record c {
    state =
        conclusion_response_wait
          (shake_packet o ts (concluded c.init_settings c.streamid c.starting_send_seqnum t0 ind))
          (start_hsv5_initiation o c.init_settings c.streamid t0).1;
  }

  -- What the remote sends comes from there.
  module _ (remote from : SocketAddr) (local_addr : IpAddr)
      (caller listener listener' : ConnInitSettings) (sid : Option (List ℕ)) (seq : SeqNumber)
      (start t0 t1 now end : Instant) (ts ts' : TimeStamp) (ind res : HandshakeControlInfo)
      (hs : HsV5Info) (same : same_addr from remote ≡ true) where
    first :
        handle_packet o
          (called remote local_addr caller sid seq start)
          (inr (shake_packet o ts (record ind { shake_type = induction; info = v5 hs }), from))
          t0
        ≡ (
          (waiting (called remote local_addr caller sid seq start) ts t0 ind),
          send_packet (shake_packet o ts (concluded caller sid seq t0 ind), from),
        )
    unfolding new handle_tick on_start handle_packet wait_for_induction conclude
    first = rw same refl

    second :
        (info : HandshakeVsInfo) {i : ConnectionSettings Keys}
        → finish_hsv5_initiation o
            (start_hsv5_initiation o caller sid t0).1
            (record res { shake_type = conclusion; info = info })
            from
            end
          ≡ inr i
        → handle_packet o
            (waiting (called remote local_addr caller sid seq start) ts t0 ind)
            (inr (shake_packet o ts' (record res { shake_type = conclusion; info = info }), from))
            end
          ≡ (
            (waiting (called remote local_addr caller sid seq start) ts t0 ind),
            connected none i connector,
          )
    unfolding new handle_tick on_start handle_packet wait_for_conclusion
    second info e =
        rw (finish_v5 info _ (record res { shake_type = conclusion }) from end e, same, e) refl

    -- A caller that has sent its induction answers an induction from its remote with a conclusion, and
    -- if `gen_hsv5_response` accepts that, a conclusion with its information connects the caller:
    -- the settings of the two sides agree, so that one side sends with the latency with which the
    -- other receives, and the streams are the same.
    pub exchange-Agree :
        (info : HandshakeVsInfo) (responder : ConnectionSettings Keys)
        → gen_hsv5_response o listener (concluded caller sid seq t0 ind) from t1 now
          ≡ (listener', accept info responder)
        → (handle_packet o
              (called remote local_addr caller sid seq start)
              (inr (shake_packet o ts (record ind { shake_type = induction; info = v5 hs }), from))
              t0
            ≡ (
              (waiting (called remote local_addr caller sid seq start) ts t0 ind),
              send_packet (shake_packet o ts (concluded caller sid seq t0 ind), from),
            ))
          × (initiator : ConnectionSettings Keys) × (handle_packet o
                (waiting (called remote local_addr caller sid seq start) ts t0 ind)
                (inr
                  (shake_packet o ts' (record res { shake_type = conclusion; info = info }), from))
                end
              ≡ (
                (waiting (called remote local_addr caller sid seq start) ts t0 ind),
                connected none initiator connector,
              ))
          × Agree o initiator responder
    exchange-Agree info responder e =
        let (initiator, f, agree) =
          finish_hsv5_initiation-Agree o caller listener listener' sid t0 t1 now end from from
            (concluded caller sid seq t0 ind) (record res { shake_type = conclusion; info = info })
            info responder refl e refl in
        (first, initiator, second info f, agree)
