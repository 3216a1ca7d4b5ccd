-- ===== src/Checks/Printing.antt =====
-- Printed tables at concrete inputs.
use p2pxineplugin.Base.{◌≡◌, refl, List, [], ◌∷◌, pos, minus_one, ok, ℕ}
use p2pxineplugin.Chunk.{Chunk}
use p2pxineplugin.Debug.{decimal, print_chunks, buffer_print}
use p2pxineplugin.Debug.ReadBack.{ReadBack, buffer_print_read}
use p2pxineplugin.Checks.Data.{session, two_stored, video}

abbrev printed : List Chunk
printed = video 3 ∷ record (video 0) { id = minus_one } ∷ video 123456 ∷ []

print_three :
    print_chunks 9 printed
    ≡ b' ' ∷ b' ' ∷ b' ' ∷ b' ' ∷ b'3' ∷ b' ' ∷ 10 ∷ 9 ∷ b' ' ∷ b' ' ∷ b' ' ∷ b'-' ∷ b'1' ∷ b' '
      ∷ b'1' ∷ b'2' ∷ b'3' ∷ b'4' ∷ b'5' ∷ b'6' ∷ b' ' ∷ []
unfolding print_chunks decimal
print_three = refl

buffer_print_read_example :
    (text : List ℕ) × (buffer_print (pos 7) (session two_stored (pos 4)) ≡ ok text)
    × ReadBack (pos 7) two_stored text
buffer_print_read_example =
    buffer_print_read (pos 7) (session two_stored (pos 4)) two_stored refl refl refl
