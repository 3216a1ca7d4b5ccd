-- ===== src/Checks/Delivery.antt =====
-- Deliveries of chunks at concrete inputs.
use p2pxineplugin.Base.{
  ◌∷◌, ◌<◌, [], some, ℕ, ◌≡◌, ◌≢◌, refl, arith, inl, inr, true, ℤ, pos, minus_one, ok, fault,
  bad_argument, Ensures, ◌>>=◌,
}
use p2pxineplugin.Output.{Session, with_context, emit, deliver}
use p2pxineplugin.Output.Sequence.{deliver_all, played}
use p2pxineplugin.Output.Swapped.{IsSwapped, held_back, swapped_pair}
use p2pxineplugin.Output.Played.{last_played}
use p2pxineplugin.Output.Gap.{IsStalled, gap_stalls}
use p2pxineplugin.Output.Deliver.{seen, IsDue}
use p2pxineplugin.Output.Order.{InOrder, deliver-InOrder}
use p2pxineplugin.Output.Flush.{with_slots}
use p2pxineplugin.Output.Cleanup.{deliver_occupied_faults}
use p2pxineplugin.Output.Placed.{IsPlaced, PlacedAfter, deliver-IsPlaced}
use p2pxineplugin.Output.Module.{Start}
use p2pxineplugin.Output.Store.{flushed}
use p2pxineplugin.Output.Later.{stored, deliver_stores}
use p2pxineplugin.Output.Ahead.{IsAhead, deliver_ahead}
use p2pxineplugin.Checks.Data.{fresh, machine, session, empty_slots, two_stored, video}
use p2pxineplugin.Checks.Writing.{video-IsVideoChunk, fresh-IsAligned}

deliver-InOrder_example :
    (out : ℤ × Session) × (deliver machine (video 5) (session empty_slots (pos 4)) ≡ ok out)
    × InOrder (video 5) (session empty_slots (pos 4)) empty_slots out
deliver-InOrder_example =
    deliver-InOrder machine (video 5) (session empty_slots (pos 4)) empty_slots refl (omega arith)
      (inl refl) video-IsVideoChunk fresh-IsAligned (omega arith) (omega arith)

-- The chunk 5 is missing, and then comes.
last_played_6 : last_played (pos 5) (pos 4) (video 6 ∷ video 5 ∷ video 8 ∷ video 6 ∷ []) ≡ pos 6
last_played_6 = refl

not-IsDue_later : (id : ℕ) → 5 < id → ¬ IsDue (video id) (session empty_slots (pos 4))
not-IsDue_later id h (inl e) = ground arith
not-IsDue_later id h (inr e) = ground arith

gap_stalls_example :
    Ensures
      (IsStalled (session empty_slots (pos 4)))
      (deliver_all machine (video 6 ∷ video 8 ∷ []) (session empty_slots (pos 4)))
gap_stalls_example =
    gap_stalls machine (video 6 ∷ video 8 ∷ []) (session empty_slots (pos 4))
      (not-IsDue_later 6 (omega arith), (not-IsDue_later 8 (omega arith), tt))

not_minus_one : (k : ℕ) → machine.leftover k ≢ minus_one
not_minus_one k e = cc

not-IsDue_14 : ¬ IsDue (video 14) (session two_stored (pos 4))
not-IsDue_14 (inl e) = ground arith
not-IsDue_14 (inr e) = ground arith

deliver_occupied_faults_example :
    deliver machine (video 14) (session two_stored (pos 4)) ≡ fault bad_argument
deliver_occupied_faults_example =
    deliver_occupied_faults machine (video 14) (session two_stored (pos 4)) two_stored 2 refl refl
      (omega arith) not-IsDue_14 refl refl 0 1 refl (omega arith) (omega arith) refl

two_stored-IsPlaced : IsPlaced (session two_stored (pos 8))
two_stored-IsPlaced = (tt, (refl, (refl, (tt, tt))))

deliver-IsPlaced_example :
    Ensures PlacedAfter (deliver machine (video 12) (session two_stored (pos 8)))
deliver-IsPlaced_example =
    deliver-IsPlaced machine (video 12) (session two_stored (pos 8)) two_stored-IsPlaced

abbrev start : Start
start = record {
  context_allocated = true;
  config = some (some 4);
  stream_opens = true;
  buffer_allocated = true;
  old_login = 7;
  ring = fresh;
  turns = [];
  first_chunk = pos 5;
}

not-IsDue_11 : ¬ IsDue (video 11) (session two_stored (pos 8))
not-IsDue_11 (inl e) = ground arith
not-IsDue_11 (inr e) = ground arith

deliver_stores_example :
    let slots = stored (video 11) 11 4 two_stored in
    deliver machine (video 11) (session two_stored (pos 8)) ≡ (
      flushed machine 8 4 slots (with_slots slots (seen (video 11) (session two_stored (pos 8))))
      >>= λ t. ok (pos 0, t))
deliver_stores_example =
    deliver_stores machine (video 11) (session two_stored (pos 8)) two_stored 11 8 refl refl
      (omega arith) refl refl (omega arith) not-IsDue_11 refl (omega arith) not_minus_one

swapped : IsSwapped (video 6) (video 5) empty_slots 4 (session empty_slots (pos 4))
swapped = record {
  buffer = refl;
  size = refl;
  last_one = refl;
  soon_number = refl;
  late_number = refl;
  not_first = λ e. cc;
  inside = omega arith;
  late_free = refl;
  soon_free = refl;
  first_free = refl;
  fits = omega arith;
}

swapped_pair_example :
    let s = session empty_slots (pos 4) in
    deliver_all machine (video 6 ∷ video 5 ∷ []) s ≡ (
      emit machine (video 5) s >>= λ t.
      ok (with_context t (played (video 5) (held_back (video 6) empty_slots 4 s))))
swapped_pair_example =
    swapped_pair machine (video 6) (video 5) empty_slots 4 (session empty_slots (pos 4)) swapped
      not_minus_one

ahead : IsAhead (video 9) empty_slots 9 4 (session empty_slots (pos 4))
ahead = record {
  buffer = refl;
  size = refl;
  numbered = refl;
  last = refl;
  beyond = omega arith;
  slot = refl;
  inside = omega arith;
  not_first = λ e. cc;
  free = refl;
  first_free = refl;
  behind = inr refl;
  whole = refl;
}

deliver_ahead_example :
    let s = session empty_slots (pos 4) in
    (deliver machine (video 9) s
      ≡ (emit machine (video 9) (seen (video 9) s) >>= λ t. ok (pos 0, t)))
    × ((deliver machine (video 9) s >>= λ out. deliver machine (video 9) out.1) ≡ (
        emit machine (video 9) (seen (video 9) s) >>= λ t.
        emit machine (video 9) t >>= λ u. ok (pos 0, u)))
deliver_ahead_example =
    deliver_ahead machine (video 9) empty_slots 9 4 (session empty_slots (pos 4)) ahead
      not_minus_one
