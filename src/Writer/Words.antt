-- ===== src/Writer/Words.antt =====
-- Words in network order come out the same on either kind of machine.
use p2pxineplugin.Base.{ℕ, ◌+◌, ◌*◌, ◌/◌, ◌%◌, ◌^◌, ◌<◌, ◌≡◌, arith, List, [], ◌∷◌, ◌++◌, ok}
use p2pxineplugin.Writer.{Endian, little, big, load32, load16, ntohl, ntohs, int_rcpy}

pub ntohl-load32 :
    (host : Endian) (a b c d : ℕ)
    → a < 2 ^ 8
    → b < 2 ^ 8
    → c < 2 ^ 8
    → d < 2 ^ 8
    → ntohl host (load32 host a b c d) ≡ a * 2 ^ 24 + b * 2 ^ 16 + c * 2 ^ 8 + d
unfolding ntohl load32
ntohl-load32 little a b c d ha hb hc hd = omega arith
ntohl-load32 big a b c d ha hb hc hd = omega arith

pub ntohs-load16 :
    (host : Endian) (a b : ℕ) → a < 2 ^ 8 → b < 2 ^ 8 → ntohs host (load16 host a b) ≡ a * 2 ^ 8 + b
unfolding ntohs load16
ntohs-load16 little a b ha hb = omega arith
ntohs-load16 big a b ha hb = omega arith

-- The four bytes of a word, the highest first, as they travel.
abbrev pub network_bytes : ℕ → List ℕ
network_bytes w = w / 2 ^ 24 % 2 ^ 8 ∷ w / 2 ^ 16 % 2 ^ 8 ∷ w / 2 ^ 8 % 2 ^ 8 ∷ w % 2 ^ 8 ∷ []

-- On a machine of either byte order, `int_rcpy` of the four bytes of a 32-bit word in network
-- order, with any bytes behind them, gives the word back.
pub int_rcpy-network_bytes :
    (host : Endian) (w : ℕ) (rest : List ℕ)
    → w < 2 ^ 32
    → int_rcpy host (network_bytes w ++ rest) 0 ≡ ok w
unfolding int_rcpy ntohl load32
int_rcpy-network_bytes little w rest h = ground arith
int_rcpy-network_bytes big w rest h = ground arith
