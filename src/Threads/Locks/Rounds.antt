-- ===== src/Threads/Locks/Rounds.antt =====
-- The rounds of `Threads` as the sections of `Threads.Locks`.
use p2pxineplugin.Base.{[], ◌∷◌, Option, none, some}
use p2pxineplugin.Grapes.{Grapes}
use p2pxineplugin.Threads.{
  SignalType, sig_accept, sig_deliver, sig_ack, sig_offer, sig_request, sig_send_buffermap,
  sig_request_buffermap, Packet, topology, chunk, secured_data_chunk, secured_data_login,
  signalling, unknown,
}
use p2pxineplugin.Threads.Run.{Round, receive_round, send_round, login_round}
use p2pxineplugin.Threads.Locks.{
  Section, on_topology, on_login, on_accept, on_offer, on_request, on_send_buffermap,
  on_request_buffermap, on_chunk,
}

-- The section of a message by its signal; an acknowledgement has none.
abbrev pub signal_section : SignalType → Option Section
signal_section sig_accept = some on_accept
signal_section sig_deliver = some on_accept
signal_section sig_ack = none
signal_section sig_offer = some on_offer
signal_section sig_request = some on_request
signal_section sig_send_buffermap = some on_send_buffermap
signal_section sig_request_buffermap = some on_request_buffermap

module _ (G : Grapes) where
  -- The section of a message. A chunk is seen as one that is written, with no wait.
  abbrev pub packet_section : Packet G → Option Section
  packet_section topology = some on_topology
  packet_section (chunk parsed) = some (on_chunk (0 ∷ []))
  packet_section (secured_data_chunk parsed) = some (on_chunk (0 ∷ []))
  packet_section (secured_data_login parsed) = some on_login
  packet_section (signalling none) = none
  packet_section (signalling (some sig)) = signal_section sig.signal_type
  packet_section (unknown _) = none

  abbrev pub round_section : Round G → Option Section
  round_section (receive_round remote p) = packet_section p
  round_section (Round.topology_round nbs) = some Section.topology_round
  round_section (Round.offer_round nbs) = some Section.offer_round
  round_section send_round = some Section.send_round
  round_section login_round = none
