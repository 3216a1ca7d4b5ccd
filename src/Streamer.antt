-- ===== src/Streamer.antt =====
-- streamer.c: `init`, which starts everything that the threads use, and the command line of `main`;
-- network.c: `network_create_interface`; input_p2p.c: `p2p_plugin_open`.
pub mod Start
pub mod Arguments
use p2pxineplugin.Base.{
  ℕ, ◌+◌, Bool, true, false, ◌&&◌, List, [], ◌∷◌, Option, none, some, ltb, ◌==◌, if◌then◌else◌,
  length, ℤ, pos, negsuc, minus_one, ◌==ℤ◌, ltb_ℤ, Outcome, ok, fault, exited, null_deref,
  out_of_bounds, check, or_fault, ◌>>=◌, ◌>>◌,
}
use p2pxineplugin.Plugin.{Plugin}
use p2pxineplugin.Plugin.Mrl.{atoi}

-- What the libraries and the system answer. A pointer is an address, `none` for NULL.
pub record Answers : Type 0 where
  pub socket_handle : ℤ
  pub ioctl_result : ℤ
  pub address : List ℕ
  pub net_helper_init : Option ℕ
  pub psample_init : Option ℕ
  pub cb_init : Option ℕ
  pub chunk_delivery_init : ℤ
  pub chunk_signaling_init : ℤ
  pub chunk_id_set_init : Option ℕ
  pub peerset_init : Option ℕ
  pub create_node : Option ℕ
  pub psample_add_peer : ℤ
  pub output_init : Option ℕ

-- The globals that `init` sets.
pub record Globals : Type 0 where
  pub local_socket : Option ℕ
  pub peersample_context : Option ℕ
  pub chunk_buffer : Option ℕ
  pub chunk_id_set : Option ℕ
  pub peer_set : Option ℕ
  pub server_socket : Option ℕ
  pub output : Option ℕ

-- `network_create_interface`: the name is copied to `ifr_name`, which has sixteen bytes.
unfoldable pub create_interface : Answers → List ℕ → Outcome (List ℕ)
create_interface a interface =
    if ltb_ℤ a.socket_handle (pos 0)
    then exited
    else (check (ltb (length interface) 16) out_of_bounds
        >> (if ltb_ℤ a.ioctl_result (pos 0) then exited else ok a.address))

-- A step that fails ends `init` with -1.
abbrev pub require : Option ℕ → Globals → Outcome (ℤ × Globals) → Outcome (ℤ × Globals)
require none g rest = ok (minus_one, g)
require (some _) g rest = rest

abbrev pub unless : Bool → Globals → Outcome (ℤ × Globals) → Outcome (ℤ × Globals)
unless failed g rest = if failed then ok (minus_one, g) else rest

-- The last steps of `init`, from the peer set on.
unfoldable pub init_peers : Answers → Globals → Outcome (ℤ × Globals)
init_peers a g =
    let g₁ = record g { peer_set = a.peerset_init } in
    let g₂ = record g₁ { server_socket = a.create_node } in
    let g₃ = record g₂ { output = a.output_init } in
    require a.peerset_init g₁ (
      require a.create_node g₂
        (unless (a.psample_add_peer ==ℤ minus_one) g₂ (require a.output_init g₃ (ok (pos 0, g₃)))))

-- The middle ones: the chunk buffer, chunk delivery and signalling, and the set of chunk numbers.
unfoldable pub init_chunks : Answers → Globals → Outcome (ℤ × Globals)
init_chunks a g =
    let g₁ = record g { chunk_buffer = a.cb_init } in
    let g₂ = record g₁ { chunk_id_set = a.chunk_id_set_init } in
    require a.cb_init g₁ (
      unless (ltb_ℤ a.chunk_delivery_init (pos 0)) g₁ (
        unless (a.chunk_signaling_init ==ℤ pos 0) g₁
          (require a.chunk_id_set_init g₂ (init_peers a g₂))))

-- The first ones, once the interface has an address.
unfoldable pub init_sockets : Answers → List ℕ → Globals → Outcome (ℤ × Globals)
init_sockets a address g =
    let g₁ = record g { local_socket = a.net_helper_init } in
    let g₂ = record g₁ { peersample_context = a.psample_init } in
    unless (length address == 0) g
      (require a.net_helper_init g₁ (require a.psample_init g₂ (init_chunks a g₂)))

-- `init`
unfoldable pub init : Answers → Option Plugin → Globals → Outcome (ℤ × Globals)
init a plugin g = or_fault plugin null_deref >>= λ p.
    create_interface a p.interface >>= λ address. init_sockets a address g

-- `p2p_plugin_open`: the result, the file handle, the globals, and whether the threads were started.
pub record Opened : Type 0 where
  pub result : ℤ
  pub plugin : Plugin
  pub globals : Globals
  pub threads_started : Bool

unfoldable pub open_plugin : Answers → Plugin → Globals → Outcome Opened
open_plugin a p g = init a (some p) g >>= λ out. ok (record {
  result = if out.0 ==ℤ minus_one then pos 0 else pos 1;
  plugin = record p { fh = out.0 };
  globals = out.1;
  threads_started = if out.0 ==ℤ minus_one then false else true;
})

-- The static configuration of streamer.c; a string may be NULL.
pub record Config : Type 0 where
  pub server_address : Option (List ℕ)
  pub server_port : ℤ
  pub interface : Option (List ℕ)
  pub port : ℤ

-- `strcmp(a, b) == 0`
unfoldable pub str_eq : List ℕ → List ℕ → Bool
str_eq [] [] = true
str_eq [] (y ∷ ys) = false
str_eq (x ∷ xs) [] = false
str_eq (x ∷ xs) (y ∷ ys) = (x == y) && str_eq xs ys

-- "-i", "-p", "-I" and "-P"
abbrev pub option : ℕ → List ℕ
option letter = 45 ∷ letter ∷ []

abbrev port_of : Option (List ℕ) → Outcome ℤ
port_of value = or_fault value null_deref >>= atoi

-- One round of `parseCommandLineArguments`: the option, copied to 512 bytes, and what follows it,
-- `none` behind the last argument, where `argv` has a null pointer.
unfoldable pub set_option : List ℕ → Option (List ℕ) → Config → Outcome Config
set_option arg value c =
    check (ltb (length arg) 512) out_of_bounds
    >> (if str_eq arg (option 105)
        then ok (record c { server_address = value })
        else if str_eq arg (option 112)
        then (port_of value >>= λ n. ok (record c { server_port = n }))
        else if str_eq arg (option 73)
        then ok (record c { interface = value })
        else if str_eq arg (option 80)
        then (port_of value >>= λ n. ok (record c { port = n }))
        else ok c)

-- `parseCommandLineArguments`, on the arguments behind the program's name.
unfoldable pub parse_arguments : List (List ℕ) → Config → Outcome Config
parse_arguments [] c = ok c
parse_arguments (arg ∷ []) c = set_option arg none c
parse_arguments (arg ∷ value ∷ args) c = set_option arg (some value) c >>= parse_arguments args

-- How `main` ends: the result, the globals, and whether the threads were started.
pub record MainEnd : Type 0 where
  pub result : ℤ
  pub globals : Globals
  pub threads_started : Bool

-- `main`, which has no plugin.
unfoldable pub main : Answers → List (List ℕ) → Config → Globals → Outcome MainEnd
main a args c g = parse_arguments args c >>= λ _. init a none g >>= λ out. ok (record {
  result = pos 0;
  globals = out.1;
  threads_started = if out.0 ==ℤ pos 0 then true else false;
})
