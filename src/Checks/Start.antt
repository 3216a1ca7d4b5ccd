-- ===== src/Checks/Start.antt =====
-- The start of the program at concrete inputs.
use p2pxineplugin.Base.{
  fault, null_deref, ◌≡◌, ℕ, refl, inl, inr, arith, [], ◌∷◌, List, none, some, pos, Returns,
}
use p2pxineplugin.Streamer.{
  Answers, Globals, Config, open_plugin, option, parse_arguments, main, init, set_option, str_eq,
}
use p2pxineplugin.Plugin.Mrl.{atoi, in_int, signed, skip_space, scan_digits}
use p2pxineplugin.Streamer.Start.{OpenEnd, open_plugin_lem}
use p2pxineplugin.Streamer.Arguments.{Strings, Fits, flat, last_of, parse_arguments-Strings}
use p2pxineplugin.Checks.Data.{plugin}

-- Everything succeeds but the chunk buffer.
abbrev answers : Answers
answers = record {
  socket_handle = pos 3;
  ioctl_result = pos 0;
  address = 49 ∷ [];
  net_helper_init = some 1;
  psample_init = some 2;
  cb_init = none;
  chunk_delivery_init = pos 0;
  chunk_signaling_init = pos 1;
  chunk_id_set_init = some 3;
  peerset_init = some 4;
  create_node = some 5;
  psample_add_peer = pos 0;
  output_init = some 6;
}

abbrev unset_globals : Globals
unset_globals = record {
  local_socket = none;
  peersample_context = none;
  chunk_buffer = none;
  chunk_id_set = none;
  peer_set = none;
  server_socket = none;
  output = none;
}

abbrev config : Config
config = record { server_address = none; server_port = pos 6666; interface = none; port = pos 5555 }

open_plugin_lem_example :
    Returns (OpenEnd answers plugin) (open_plugin answers plugin unset_globals)
open_plugin_lem_example =
    open_plugin_lem answers plugin unset_globals (omega arith) (omega arith) (omega arith)

-- "-i 1", "-p 80", "-i 2"
abbrev options : List (List ℕ × List ℕ)
options = (option 105, 49 ∷ []) ∷ (option 112, 56 ∷ 48 ∷ []) ∷ (option 105, 50 ∷ []) ∷ []

address-Fits : (v : List ℕ) → Fits (option 105, v)
unfolding str_eq
address-Fits v = (omega arith, inl refl)

port-Fits : Fits (option 112, 56 ∷ 48 ∷ [])
unfolding atoi in_int signed skip_space scan_digits
port-Fits = (omega arith, inr (pos 80, refl))

parse_arguments-Strings_example :
    Returns
      (Strings (last_of (option 105) options none) (last_of (option 73) options none))
      (parse_arguments (flat options) config)
parse_arguments-Strings_example =
    parse_arguments-Strings options config
      (address-Fits (49 ∷ []), (port-Fits, (address-Fits (50 ∷ []), tt)))

-- `main` reads the interface of a plugin that it does not have.
main_faults : main answers (flat options) config unset_globals ≡ fault null_deref
unfolding main init parse_arguments set_option str_eq atoi skip_space signed scan_digits in_int
main_faults = refl
