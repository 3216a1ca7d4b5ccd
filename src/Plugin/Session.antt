-- ===== src/Plugin/Session.antt =====
-- input_p2p.c: the functions that `p2p_class_get_instance` hands to xine, called in any order.
pub mod Kept
pub mod Serving
use p2pxineplugin.Base.{ℕ, List, [], ◌∷◌, ℤ, pos, Outcome, ok, ◌>>=◌}
use p2pxineplugin.Ring.{Memory}
use p2pxineplugin.Plugin.{Plugin, Turn, read}
use p2pxineplugin.Plugin.Calls.{Block, read_block, get_optional_data}

-- A call of xine, with what the writer does during it. `constant_call` stands for `get_capabilities`,
-- `seek`, `get_current_pos`, `get_length`, `get_blocksize` and `get_mrl`, which change nothing.
pub data Call : Type 0 where
  read_call : Memory → ℤ → List Turn → Call
  read_block_call : Block → ℤ → List Turn → Call
  optional_data_call : Memory → ℕ → List Turn → Call
  constant_call : Call

abbrev pub turns_of : Call → List Turn
turns_of (read_call _ _ turns) = turns
turns_of (read_block_call _ _ turns) = turns
turns_of (optional_data_call _ _ turns) = turns
turns_of constant_call = []

module _ (max_preview_size data_preview : ℕ) (unsupported : ℤ) where
  -- The plugin after a call.
  unfoldable pub call : Call → Plugin → Outcome Plugin
  call (read_call buf nlen turns) p =
      read max_preview_size p buf nlen turns >>= λ out. ok out.plugin
  call (read_block_call element len turns) p =
      read_block max_preview_size p element len turns >>= λ out. ok out.plugin
  call (optional_data_call memory data_type turns) p =
      get_optional_data max_preview_size data_preview unsupported p memory data_type turns
      >>= λ out. ok out.plugin
  call constant_call p = ok p

  unfoldable pub calls : List Call → Plugin → Outcome Plugin
  calls [] p = ok p
  calls (c ∷ cs) p = call c p >>= calls cs
