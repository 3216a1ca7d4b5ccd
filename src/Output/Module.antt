-- ===== src/Output/Module.antt =====
-- output_ffmpeg.c as an output module: `output_ffmpeg_init`, the calls for secured data, and the table
-- `output_ffmpeg`; output_factory.c: `output_init`.
use p2pxineplugin.Base.{
  ℕ, Bool, List, Option, none, some, replicate, get_elem?, if◌then◌else◌, ℤ, pos, minus_one,
  Outcome, ok, fault, null_deref, out_of_bounds, or_fault, ◌>>=◌,
}
use p2pxineplugin.Chunk.{Chunk}
use p2pxineplugin.Ring.{Ring}
use p2pxineplugin.OutputInterface.{OutputInterface}
use p2pxineplugin.Output.{Session, Machine, with_context, deliver}

-- What a start of the module depends on: the two allocations, the parsed configuration (`none` for
-- NULL) with the value of its tag `buffer` if it has one, and whether the output stream opens; then
-- the byte that stands where the login data will be, and the session around the context.
pub record Start : Type 0 where
  pub context_allocated : Bool
  pub config : Option (Option ℕ)
  pub stream_opens : Bool
  pub buffer_allocated : Bool
  pub old_login : ℕ
  pub ring : Ring
  pub turns : List (Ring → Ring)
  pub first_chunk : ℤ

-- `config_value_int_default(configTags, "buffer", …, 75)`
abbrev pub buffer_tag : Option ℕ → ℕ
buffer_tag none = 75
buffer_tag (some n) = n

abbrev pub started : Start → ℕ → Session
started st n = record {
  context = record {
    output_buffer_size = n;
    output_buffer = some (replicate n none);
    played_chunk = minus_one;
    maximum_chunk = minus_one;
    last_request_sent = none;
    secured_data_login = st.old_login;
  };
  ring = st.ring;
  turns = st.turns;
  first_chunk = st.first_chunk;
}

-- `output_ffmpeg_init`: the context is filled before anything is known of it.
unfoldable pub ffmpeg_init : Start → Outcome (Option Session)
ffmpeg_init st =
    if st.context_allocated
    then ok (elim st.config [
      | none ↦ none
      | some tag ↦
          if st.stream_opens
          then (if st.buffer_allocated then some (started st (buffer_tag tag)) else none)
          else none
    ])
    else fault null_deref

-- `output_ffmpeg_deliver_secured_data_chunk`
unfoldable pub deliver_secured_data_chunk : Chunk → Session → Outcome (ℤ × Session)
deliver_secured_data_chunk c s = ok (pos 0, s)

-- `output_ffmpeg_deliver_secured_data_login`
unfoldable pub deliver_secured_data_login : Chunk → Session → Outcome (ℤ × Session)
deliver_secured_data_login c s = or_fault (get_elem? c.bytes 0) out_of_bounds >>= λ login.
    ok (pos 0, with_context s (record s.context { secured_data_login = login }))

-- `output_ffmpeg_secured_data_enabled_chunk`
abbrev pub secured_data_enabled_chunk : Session → ℤ
secured_data_enabled_chunk s = pos 0

-- `output_ffmpeg_secured_data_enabled_login`
abbrev pub secured_data_enabled_login : Session → ℤ
secured_data_enabled_login s = pos 0

-- The table `output_ffmpeg`.
abbrev pub output_ffmpeg : Machine → OutputInterface
output_ffmpeg m = record {
  Plugin = Start;
  Context = Session;
  init = ffmpeg_init;
  deliver = deliver m;
  deliver_secured_data_chunk = deliver_secured_data_chunk;
  deliver_secured_data_login = deliver_secured_data_login;
  secured_data_enabled_chunk = secured_data_enabled_chunk;
  secured_data_enabled_login = secured_data_enabled_login;
}

-- `output_init`, which is given whether the module's own record can be allocated.
unfoldable pub output_init : (O : OutputInterface) → Bool → O.Plugin → Outcome (Option O.Context)
output_init O allocated plugin = if allocated then O.init plugin else ok none
