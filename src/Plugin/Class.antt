-- ===== src/Plugin/Class.antt =====
-- input_p2p.c: the class that xine asks for instances, made by `p2p_init_class`.
use p2pxineplugin.Base.{
  ℕ, Bool, true, false, List, [], ◌∷◌, Option, none, some, Outcome, ok, fault, null_deref,
  double_free,
}

-- `p2p_input_class_t`: the addresses of xine and of its configuration, the text by which xine knows
-- the plugin, and the functions that a class need not have, by their addresses.
pub record InputClass : Type 0 where
  pub xine : ℕ
  pub config : ℕ
  pub identifier : List ℕ
  pub get_dir : Option ℕ
  pub get_autoplay_list : Option ℕ
  pub eject_media : Option ℕ

-- "p2p"
abbrev pub plugin_name : List ℕ
plugin_name = 112 ∷ 50 ∷ 112 ∷ []

-- `p2p_init_class`: `xine` is its argument with the address of its configuration. The result of
-- `calloc` is not tested.
unfoldable pub init_class : Bool → Option (ℕ × ℕ) → Outcome InputClass
init_class false xine = fault null_deref
init_class true none = fault null_deref
init_class true (some (xine, config)) = ok (record {
  xine = xine;
  config = config;
  identifier = plugin_name;
  get_dir = none;
  get_autoplay_list = none;
  eject_media = none;
})

-- `p2p_class_dispose`; `none` is a class that is freed.
unfoldable pub class_dispose : Option InputClass → Outcome (Option InputClass)
class_dispose none = fault double_free
class_dispose (some _) = ok none
