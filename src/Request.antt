-- ===== src/Request.antt =====
-- network.c: `network_ask_for_chunk`. It asks the peer sampler for the neighbours and then adds the
-- chunk to a set that was never made: `cset` is a pointer without a value. So no request is sent.
use p2pxineplugin.Base.{ℤ, Outcome, fault, uninitialised}

unfoldable pub ask_for_chunk : ℤ → Outcome (Unit {0})
ask_for_chunk chunk_id = fault uninitialised
