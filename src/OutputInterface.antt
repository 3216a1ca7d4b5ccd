-- ===== src/OutputInterface.antt =====
-- output_interface.h: the table of functions through which the network reaches an output module, and
-- output_factory.c, which makes one.
use p2pxineplugin.Base.{Option, ℤ, Outcome}
use p2pxineplugin.Chunk.{Chunk}

-- `struct output_interface`, with what `struct output_context` is to the module. `init` is given all
-- that the module needs to start (`Plugin`); `none` stands for NULL.
pub record OutputInterface : Type 1 where
  pub Plugin : Type 0
  pub Context : Type 0
  pub init : Plugin → Outcome (Option Context)
  pub deliver : Chunk → Context → Outcome (ℤ × Context)
  pub deliver_secured_data_chunk : Chunk → Context → Outcome (ℤ × Context)
  pub deliver_secured_data_login : Chunk → Context → Outcome (ℤ × Context)
  pub secured_data_enabled_chunk : Context → ℤ
  pub secured_data_enabled_login : Context → ℤ
