-- ===== src/Handshake/History.antt =====
-- The histories of a client of src/modules/network/websocket_client.cpp: the methods that the
-- application calls, and the packets that come in.
use dpdk_cex_source.Base.{List, [], ◌∷◌, Option, ℕ}
use dpdk_cex_source.Packet.{Mbuf}
use dpdk_cex_source.MicroTcp.{Dpdk}
use dpdk_cex_source.WebSocket.{MaskKey}
use dpdk_cex_source.TlsSocket.{OpenSsl}
use dpdk_cex_source.Handshake.{WsClient, Reply, and_then}
use dpdk_cex_source.Handshake.Process.{process_rx, connect, send_text_message, disconnect}

-- What the application and the network do to a client.
pub data Call : Type 0 where
  connects : Call
  received : Option Mbuf → Call
  sends_text : List ℕ → MaskKey → Call
  disconnects : MaskKey → Call

module _ {T : Type 0} (d : Dpdk) (o : OpenSsl T) where
  unfoldable pub call : WsClient T → Call → Reply T
  unfolding connect process_rx send_text_message disconnect
  call c connects = connect d o c
  call c (received rx_mbuf) = process_rx d o c rx_mbuf
  call c (sends_text message key) = send_text_message d o c message key
  call c (disconnects key) = disconnect d o c key

  -- The state behind the calls, and the packets of all of them.
  unfoldable pub run : WsClient T → List Call → Reply T
  unfolding call
  run c [] = (c, [])
  run c (k ∷ ks) = and_then (call c k) (λ c'. run c' ks)
