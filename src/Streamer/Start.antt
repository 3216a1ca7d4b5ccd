-- ===== src/Streamer/Start.antt =====
-- What `init` and `p2p_plugin_open` leave, by the answers of the libraries.
use p2pxineplugin.Base.{
  ℕ, ◌<◌, ◌≡◌, refl, ap, Bool, true, false, not, ◌&&◌, List, Option, none, some, ◌==◌,
  if◌then◌else◌, length, arith, ℤ, pos, minus_one, ◌==ℤ◌, ◌≤ℤ◌, ltb_ℤ, Outcome, ok, ◌>>=◌, Returns,
  Returns-bind, sym, subst,
}
use p2pxineplugin.Grapes.{is_some}
use p2pxineplugin.Plugin.{Plugin}
use p2pxineplugin.Streamer.{
  Answers, Globals, require, unless, create_interface, init_peers, init_chunks, init_sockets, init,
  Opened, open_plugin,
}

-- Every answer is one that `init` goes on with: those of its last steps, and all.
abbrev pub peers_good : Answers → Bool
peers_good a =
    is_some a.peerset_init
    && (is_some a.create_node && (not (a.psample_add_peer ==ℤ minus_one) && is_some a.output_init))

abbrev pub all_good : Answers → Bool
all_good a =
    not (length a.address == 0)
    && (is_some a.net_helper_init
        && (is_some a.psample_init
            && (is_some a.cb_init
                && (not (ltb_ℤ a.chunk_delivery_init (pos 0))
                    && (not (a.chunk_signaling_init ==ℤ pos 0)
                        && (is_some a.chunk_id_set_init && peers_good a))))))

abbrev pub all_set : Answers → Globals
all_set a = record {
  local_socket = a.net_helper_init;
  peersample_context = a.psample_init;
  chunk_buffer = a.cb_init;
  chunk_id_set = a.chunk_id_set_init;
  peer_set = a.peerset_init;
  server_socket = a.create_node;
  output = a.output_init;
}

-- The end of `init`: 0 and all the globals, or -1.
abbrev IsEnd : Bool → Globals → ℤ × Globals → Type 0
IsEnd good final out =
    (out.0 ≡ (if good then pos 0 else minus_one)) × ((if good then final else out.1) ≡ out.1)

abbrev Ends : Bool → Globals → Outcome (ℤ × Globals) → Type 0
Ends good final run = Returns (IsEnd good final) run

require-Ends :
    (o : Option ℕ) (g final : Globals) (good : Bool) (rest : Outcome (ℤ × Globals))
    → Ends good final rest
    → Ends (is_some o && good) final (require o g rest)
require-Ends none g final good rest h = (refl, refl)
require-Ends (some _) g final good rest h = h

unless-Ends :
    (failed : Bool) (g final : Globals) (good : Bool) (rest : Outcome (ℤ × Globals))
    → Ends good final rest
    → Ends (not failed && good) final (unless failed g rest)
unless-Ends true g final good rest h = (refl, refl)
unless-Ends false g final good rest h = h

last-Ends :
    (o : Option ℕ) (final : Globals) → Ends (is_some o) final (require o final (ok (pos 0, final)))
last-Ends none final = (refl, refl)
last-Ends (some _) final = (refl, refl)

init_peers-Ends :
    (a : Answers) (g : Globals)
    → Ends
        (peers_good a)
        (record g {
          peer_set = a.peerset_init;
          server_socket = a.create_node;
          output = a.output_init;
        })
        (init_peers a g)
unfolding init_peers
init_peers-Ends a g = require-Ends a.peerset_init _ _ _ _ (
    require-Ends a.create_node _ _ _ _
      (unless-Ends (a.psample_add_peer ==ℤ minus_one) _ _ _ _ (last-Ends a.output_init _)))

init_sockets-Ends :
    (a : Answers) (g : Globals) → Ends (all_good a) (all_set a) (init_sockets a a.address g)
unfolding init_sockets init_chunks
init_sockets-Ends a g = unless-Ends (length a.address == 0) _ _ _ _ (
    require-Ends a.net_helper_init _ _ _ _ (
      require-Ends a.psample_init _ _ _ _ (
        require-Ends a.cb_init _ _ _ _ (
          unless-Ends (ltb_ℤ a.chunk_delivery_init (pos 0)) _ _ _ _ (
            unless-Ends (a.chunk_signaling_init ==ℤ pos 0) _ _ _ _
              (require-Ends a.chunk_id_set_init _ _ _ _ (init_peers-Ends a _)))))))

create_interface_lem :
    (a : Answers) (interface : List ℕ)
    → pos 0 ≤ℤ a.socket_handle
    → pos 0 ≤ℤ a.ioctl_result
    → length interface < 16
    → create_interface a interface ≡ ok a.address
unfolding create_interface
create_interface_lem a interface hs hi short = ground arith

-- What `p2p_plugin_open` leaves.
pub record OpenEnd (a : Answers) (p : Plugin) (o : Opened) : Type 0 where
  pub result : o.result ≡ (if all_good a then pos 1 else pos 0)
  pub handle : o.plugin ≡ record p { fh = if all_good a then pos 0 else minus_one }
  pub threads : o.threads_started ≡ all_good a
  pub globals : (if all_good a then all_set a else o.globals) ≡ o.globals

-- With a socket, an address from the system and an interface name of at most fifteen
-- characters, opening returns 1 and starts the threads if every step of `init` succeeds, with
-- file handle 0 and all the globals set; else it returns 0 with file handle -1 and no thread
-- started.
pub open_plugin_lem :
    (a : Answers) (p : Plugin) (g : Globals)
    → pos 0 ≤ℤ a.socket_handle
    → pos 0 ≤ℤ a.ioctl_result
    → length p.interface < 16
    → Returns (OpenEnd a p) (open_plugin a p g)
unfolding open_plugin init
open_plugin_lem a p g hs hi short =
    subst (λ run. Returns (OpenEnd a p) ((run >>= λ address. init_sockets a address g) >>= opened))
      (sym (create_interface_lem a p.interface hs hi short))
      (Returns-bind (IsEnd (all_good a) (all_set a)) (OpenEnd a p) (init_sockets a a.address g)
        opened (init_sockets-Ends a g) end)
  where
    opened : ℤ × Globals → Outcome Opened
    opened out = ok (record {
      result = if out.0 ==ℤ minus_one then pos 0 else pos 1;
      plugin = record p { fh = out.0 };
      globals = out.1;
      threads_started = if out.0 ==ℤ minus_one then false else true;
    })

    result_of :
        (good : Bool) (n : ℤ)
        → n ≡ (if good then pos 0 else minus_one)
        → ((if n ==ℤ minus_one then pos 0 else pos 1) ≡ (if good then pos 1 else pos 0))
          × ((if n ==ℤ minus_one then false else true) ≡ good)
    result_of true n e = ground arith
    result_of false n e = ground arith

    end :
        (out : ℤ × Globals)
        → IsEnd (all_good a) (all_set a) out
        → Returns (OpenEnd a p) (opened out)
    end (n, g') (e, same) =
        let (result, threads) = result_of (all_good a) n e in
        record {
          result = result;
          handle = ap (λ k. record p { fh = k }) e;
          threads = threads;
          globals = same;
        }
