-- ===== src/Plugin/Calls.antt =====
-- The other functions of the input plugin: block reads, the preview, and the constants.
use p2pxineplugin.Base.{
  ℕ, true, List, Option, none, some, ◌==◌, if◌then◌else◌, ℤ, pos, minus_one, ltb_ℤ, ◌==ℤ◌, pos_part,
  Outcome, ok, fault, negative_length, out_of_bounds, ◌>>=◌,
}
use p2pxineplugin.Ring.{Memory, copy}
use p2pxineplugin.Plugin.{Plugin, Turn, read_into}

-- A `buf_element_t` of xine's buffer pool: its memory, a block of `max_size` bytes, and the size
-- that is in use.
pub record Block : Type 0 where
  pub mem : Memory
  pub max_size : ℤ
  pub size : ℤ

-- `none`: the element went back to the pool and NULL is returned.
pub record BlockReply : Type 0 where
  pub element : Option Block
  pub plugin : Plugin

-- `p2p_plugin_read_block`, on the element that `buffer_pool_alloc` handed out.
unfoldable pub read_block :
    (max_preview_size : ℕ) → Plugin → Block → ℤ → List Turn → Outcome BlockReply
read_block max_preview_size p element len turns =
    let wanted = if ltb_ℤ element.max_size len then element.max_size else len in
    if ltb_ℤ wanted (pos 0)
    then ok (record { element = none; plugin = p })
    else (read_into max_preview_size (pos_part element.max_size) p element.mem wanted turns
        >>= λ out.
            if out.result ==ℤ wanted
            then ok (record {
              element = some (record element { mem = out.buf; size = out.result });
              plugin = out.plugin;
            })
            else ok (record { element = none; plugin = out.plugin }))

-- What `p2p_plugin_get_optional_data` hands back.
pub record OptionalReply : Type 0 where
  pub result : ℤ
  pub plugin : Plugin
  pub memory : Memory

-- The first half of the preview branch: the one attempt to read it.
unfoldable pub load_preview : (max_preview_size : ℕ) → Plugin → List Turn → Outcome Plugin
load_preview max_preview_size p turns =
    if p.preview_read_done
    then ok p
    else (read_into max_preview_size max_preview_size p p.preview (pos max_preview_size) turns
        >>= λ out. ok (record out.plugin {
          preview = out.buf;
          preview_size = if ltb_ℤ out.result (pos 0) then pos 0 else out.result;
          preview_read_done = true;
        }))

-- The second half: the preview goes to the caller. A negative `preview_size` would be handed to
-- `memcpy` as a length, and one above MAX_PREVIEW_SIZE would read past the array.
unfoldable pub hand_out : (max_preview_size : ℕ) → Plugin → Memory → Outcome OptionalReply
hand_out max_preview_size p memory =
    if ltb_ℤ p.preview_size (pos 0)
    then fault negative_length
    else if ltb_ℤ (pos max_preview_size) p.preview_size
    then fault out_of_bounds
    else ok (record {
      result = p.preview_size;
      plugin = p;
      memory = copy memory 0 p.preview 0 (pos_part p.preview_size);
    })

-- `p2p_plugin_get_optional_data`. The two constants are xine's.
unfoldable pub get_optional_data :
    (max_preview_size data_preview : ℕ) (unsupported : ℤ)
    → Plugin
    → Memory
    → ℕ
    → List Turn
    → Outcome OptionalReply
get_optional_data max_preview_size data_preview unsupported p memory data_type turns =
    if data_type == data_preview
    then (load_preview max_preview_size p turns >>= λ p'. hand_out max_preview_size p' memory)
    else ok (record { result = unsupported; plugin = p; memory = memory })

-- `p2p_plugin_seek`, `p2p_plugin_get_length`: not supported.
pub seek : Plugin → ℤ → ℤ → ℤ
seek p offset origin = minus_one

pub get_length : Plugin → ℤ
get_length p = minus_one

-- `p2p_plugin_get_blocksize`
pub get_blocksize : Plugin → ℕ
get_blocksize p = 0

-- `p2p_plugin_get_current_pos`, `p2p_plugin_get_mrl`
pub get_current_pos : Plugin → ℕ
get_current_pos p = p.curpos

pub get_mrl : Plugin → List ℕ
get_mrl p = p.mrl

-- `p2p_plugin_get_capabilities`; the constant is xine's.
pub get_capabilities : ℕ → Plugin → ℕ
get_capabilities cap_preview p = cap_preview
