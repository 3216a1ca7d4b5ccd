-- ===== src/Plugin/Mrl.antt =====
-- input_p2p.c: `p2p_class_get_instance`, which parses the MRL and makes an instance, and
-- `p2p_plugin_dispose`. A string is the list of its bytes in front of the terminating zero.
use p2pxineplugin.Base.{
  ℕ, suc, ◌+◌, ◌-◌, ◌*◌, Bool, true, false, ◌&&◌, ◌||◌, List, [], ◌∷◌, Option, none, some, ltb, leb,
  ◌==◌, if◌then◌else◌, take, drop, length, ℤ, pos, negsuc, minus_one, ◌-ℤ◌, Outcome, ok, fault,
  null_deref, out_of_bounds, invalid_free, double_free, bad_argument, check, ◌>>=◌, ◌>>◌,
}
use p2pxineplugin.Ring.{Memory, buffer_size}
use p2pxineplugin.Plugin.{Plugin}

-- `DEFAULT_HOST_PORT` and `OWN_PORT`
abbrev pub default_host_port : ℕ
default_host_port = 55555

abbrev pub own_port_number : ℕ
own_port_number = 44444

abbrev pub colon : ℕ
colon = 58

-- "p2p://" and "lo0"
abbrev pub protocol : List ℕ
protocol = 112 ∷ 50 ∷ 112 ∷ 58 ∷ 47 ∷ 47 ∷ []

abbrev loopback : List ℕ
loopback = 108 ∷ 111 ∷ 48 ∷ []

abbrev pub lower : ℕ → ℕ
lower c = if leb 65 c && leb c 90 then c + 32 else c

-- `strncasecmp(mrl, protocol, 6) == 0`
unfoldable pub has_protocol : List ℕ → List ℕ → Bool
has_protocol mrl [] = true
has_protocol [] (p ∷ ps) = false
has_protocol (c ∷ mrl) (p ∷ ps) = (lower c == p) && has_protocol mrl ps

-- `strchr`, as an offset.
unfoldable pub index_of : ℕ → List ℕ → Option ℕ
index_of c [] = none
index_of c (x ∷ xs) =
    if x == c then some 0 else (elim (index_of c xs) [ none ↦ none | some i ↦ some (suc i) ])

abbrev pub is_digit : ℕ → Bool
is_digit c = leb 48 c && leb c 57

-- The digits at the front of a string, read on top of a value.
unfoldable pub scan_digits : ℕ → List ℕ → ℕ
scan_digits v [] = v
scan_digits v (c ∷ cs) = if is_digit c then scan_digits (v * 10 + (c - 48)) cs else v

-- A value that does not fit an `int` is undefined behaviour of `atoi`.
unfoldable pub in_int : ℤ → Outcome ℤ
in_int (pos n) = if ltb n 2147483648 then ok (pos n) else fault bad_argument
in_int (negsuc n) = if ltb n 2147483648 then ok (negsuc n) else fault bad_argument

unfoldable pub signed : List ℕ → ℤ
signed [] = pos 0
signed (c ∷ cs) =
    if c == 45
    then pos 0 -ℤ pos (scan_digits 0 cs)
    else if c == 43
    then pos (scan_digits 0 cs)
    else pos (scan_digits 0 (c ∷ cs))

unfoldable pub skip_space : List ℕ → List ℕ
skip_space [] = []
skip_space (c ∷ cs) = if (c == 32) || (leb 9 c && leb c 13) then skip_space cs else c ∷ cs

-- `atoi`
unfoldable pub atoi : List ℕ → Outcome ℤ
atoi cs = in_int (signed (skip_space cs))

-- The port, which stands behind the colon. The block has a byte for each character and for the zero;
-- the zero that is written once more goes to the byte behind these, which is there only if the
-- allocator gives `slack` bytes more than it was asked for.
unfoldable pub parse_port : ℕ → List ℕ → ℕ → Outcome ℤ
parse_port slack url p =
    check (ltb (length url - p) (length url - p + slack)) out_of_bounds >> atoi (drop (p + 1) url)

-- Host and port of a URL, by the offset of its first colon.
unfoldable pub parse_at : ℕ → List ℕ → ℕ → Outcome (List ℕ × ℤ)
parse_at slack url p =
    if p == 0
    then ok (take p url, pos default_host_port)
    else (parse_port slack url p >>= λ port. ok (take p url, port))

-- `free(colon)` and `free(url)`: the first is the block of the second or lies inside it.
unfoldable pub free_url : ℕ → Outcome (Unit {0})
free_url p = if p == 0 then fault double_free else fault invalid_free

-- What stands in the fields that the code does not set.
pub record Unset : Type 0 where
  pub memory : Memory
  pub preview : Memory
  pub preview_size : ℤ
  pub preview_read_done : Bool

abbrev pub instance_of : Unset → List ℕ → List ℕ × ℤ → Plugin
instance_of u mrl address = record {
  interface = loopback;
  own_port = pos own_port_number;
  host = address.0;
  host_port = address.1;
  fh = minus_one;
  mrl = mrl;
  curpos = 0;
  preview = u.preview;
  preview_size = u.preview_size;
  preview_read_done = u.preview_read_done;
  ring = record { buffer = u.memory; get = 0; put = 0; count = 0; max_size = buffer_size };
  output = none;
}

-- `p2p_class_get_instance`. Without a colon the offset is computed from a null pointer.
unfoldable pub get_instance : ℕ → Unset → List ℕ → Outcome (Option Plugin)
get_instance slack u mrl =
    if has_protocol mrl protocol
    then (elim (index_of colon (drop 6 mrl)) [
      | none ↦ fault null_deref
      | some p ↦ do
        address ← parse_at slack (drop 6 mrl) p
        free_url p
        ok (some (instance_of u mrl address))
    ])
    else ok none

-- `p2p_plugin_dispose`: `interface` is a string literal.
unfoldable pub dispose : Plugin → Outcome (Unit {0})
dispose p = fault invalid_free
