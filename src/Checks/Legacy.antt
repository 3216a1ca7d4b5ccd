-- ===== src/Checks/Legacy.antt =====
-- The functions of PeerStreamer that are kept, and the class, at concrete inputs.
use p2pxineplugin.Base.{
  Returns, ◌≡◌, refl, some, true, false, pos, minus_one, fault, double_free, null_deref, ◌>>=◌,
}
use p2pxineplugin.Output.Legacy.{LegacySession, play_original, buffer_free_original}
use p2pxineplugin.Output.{slot_at, set_slot}
use p2pxineplugin.Plugin.Class.{init_class, class_dispose}
use p2pxineplugin.Checks.Data.{machine, session, two_stored}

-- Chunks up to 9 only are to be played, and chunk 9 has been.
abbrev windowed : LegacySession
windowed = record {
  session = session two_stored (pos 8);
  legacy = record {
    last_chunk = pos 9;
    sflag = true;
    eflag = false;
    start_id = minus_one;
    end_id = pos 9;
  };
}

-- Chunk 10 marks the end, is not written, and its slot is emptied all the same.
marks_end :
    Returns
      (λ l. (l.legacy.eflag ≡ true) × (l.session.first_chunk ≡ pos 11))
      (buffer_free_original machine (λ i. pos 0) 2 windowed)
unfolding buffer_free_original play_original slot_at set_slot
marks_end = (refl, refl)

class_freed_twice :
    (init_class true (some (1, 2)) >>= λ c. class_dispose (some c) >>= class_dispose)
    ≡ fault double_free
unfolding init_class class_dispose
class_freed_twice = refl

class_unallocated : init_class false (some (1, 2)) ≡ fault null_deref
unfolding init_class
class_unallocated = refl
