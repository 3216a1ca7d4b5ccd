-- ===== src/Output/Played.antt =====
-- `playedChunk` after any chunks in any order, against a rule that sees their numbers only.
use p2pxineplugin.Base.{
  ◌≡◌, ◌∙◌, refl, sym, ap, ap₂, true, ◌&&◌, ◌||◌, Bool-cases, Option-cases, inl, inr, List, [], ◌∷◌,
  Option, none, some, arith, ℤ, pos, ◌+ℤ◌, ◌≤ℤ◌, ◌<ℤ◌, ◌==ℤ◌, ltb_ℤ, ltb_ℤ_total, Outcome, ok,
  ◌>>=◌, Ensures, Ensures-bind, Ensures-mono, Ensures-value, if◌then◌else◌,
}
use p2pxineplugin.Chunk.{Chunk}
use p2pxineplugin.Output.{Context, Session, Machine, emit, deliver_now, deliver_later, deliver}
use p2pxineplugin.Output.Slots.{Kept, has_buffer, emit-context, given}
use p2pxineplugin.Output.Deliver.{
  seen, IsDue, deliver_old, deliver_due, deliver_not_due, deliver_later-Kept,
}
use p2pxineplugin.Output.Order.{IsDue-cases}
use p2pxineplugin.Output.Sequence.{deliver_all}

-- The rule: of the chunks that are newer than the last one played, only the first chunk and the next
-- one are played.
abbrev pub next_played : ℤ → ℤ → ℤ → ℤ
next_played first played id =
    if ltb_ℤ played id && (id ==ℤ first || (id ==ℤ (played +ℤ pos 1))) then id else played

abbrev pub last_played : ℤ → ℤ → List Chunk → ℤ
last_played first played [] = played
last_played first played (c ∷ cs) = last_played first (next_played first played c.id) cs

-- One delivery by the rule.
pub record ByRule (c : Chunk) (s t : Session) : Type 0 where
  pub played : t.played_chunk ≡ next_played s.first_chunk s.played_chunk c.id
  pub first : t.first_chunk ≡ s.first_chunk
  pub buffered : has_buffer t ≡ has_buffer s

abbrev pub RuleAfter : Chunk → Session → ℤ × Session → Type 0
RuleAfter c s out = ByRule c s out.1

rule_old : (first played id : ℤ) → id ≤ℤ played → next_played first played id ≡ played
rule_old first played id old = ground arith

rule_due :
    (c : Chunk) (s : Session)
    → s.played_chunk <ℤ c.id
    → IsDue c s
    → next_played s.first_chunk s.played_chunk c.id ≡ c.id
rule_due c s new (inl e) = ground arith
rule_due c s new (inr e) = ground arith

rule_other :
    (c : Chunk) (s : Session)
    → ¬ IsDue c s
    → next_played s.first_chunk s.played_chunk c.id ≡ s.played_chunk
rule_other c s other = ground (
  arith,
  λ (e : c.id ≡ s.first_chunk). other (inl e),
  λ (e : c.id ≡ s.played_chunk +ℤ pos 1). other (inr e),
)

-- Marking a chunk as seen is a change of the maximum.
seen-Kept :
    (c : Chunk) (s : Session)
    → ((seen c s).played_chunk ≡ s.played_chunk)
      × ((seen c s).first_chunk ≡ s.first_chunk)
      × (has_buffer (seen c s) ≡ has_buffer s)
seen-Kept c s = elim (Bool-cases (ltb_ℤ s.maximum_chunk c.id)) [
  | inl more ↦ rw more (refl, refl, refl)
  | inr same ↦ rw same (refl, refl, refl)
]

pub deliver-ByRule :
    (m : Machine) (c : Chunk) (s : Session)
    → has_buffer s ≡ true
    → Ensures (RuleAfter c s) (deliver m c s)
unfolding deliver_now
deliver-ByRule m c s has = elim (Option-cases s.output_buffer) [
  | inl empty ↦ absurd (without s.output_buffer empty has)
  | inr (slots, e) ↦ elim (ltb_ℤ_total s.played_chunk c.id) [
    | inr old ↦ rw (deliver_old m c s slots e (ground arith)) (record {
      played = sym (rule_old s.first_chunk s.played_chunk c.id (ground arith));
      first = refl;
      buffered = refl;
    })
    | inl new ↦ elim (IsDue-cases c s) [
      | inl due ↦
          rw (deliver_due m c s slots e (ground arith) due)
            (after (deliver_now m c (seen c s)) (at_once (ground arith) due))
      | inr other ↦ rw (deliver_not_due m c s slots e (ground arith) other) (
          after (deliver_later m c (seen c s)) (
            Ensures-mono (Kept (seen c s)) (ByRule c s) (deliver_later m c (seen c s))
              (deliver_later-Kept m c (seen c s)) (later other)))
    ]
  ]
]
  where
    without : (b : Option (List (Option Chunk))) → b ≡ none → given b ≡ true → ⊥
    without none e h = cc
    without (some _) e h = cc

    later : ¬ IsDue c s → (t : Session) → Kept (seen c s) t → ByRule c s t
    later other t k =
        let (played, first, buffered) = seen-Kept c s in
        record {
          played = k.played ∙ played ∙ sym (rule_other c s other);
          first = k.first ∙ first;
          buffered = k.buffered ∙ buffered;
        }

    at_once : s.played_chunk <ℤ c.id → IsDue c s → Ensures (ByRule c s) (deliver_now m c (seen c s))
    at_once new due = Ensures-bind (ByRule c s) (emit m c (seen c s)) _ λ u eu.
        let (ctx, same_first) = emit-context m c (seen c s) eu in
        let (_, first, buffered) = seen-Kept c s in
        record {
          played = sym (rule_due c s new due);
          first = same_first ∙ first;
          buffered = ap (λ (x : Context). given x.output_buffer) ctx ∙ buffered;
        }

    after :
        (o : Outcome Session)
        → Ensures (ByRule c s) o
        → Ensures (RuleAfter c s) (o >>= λ t. ok (pos 0, t))
    after o h = Ensures-bind (RuleAfter c s) o _ (λ u e. Ensures-value (ByRule c s) o h e)

-- Where there is a buffer, deliveries of any chunks in any order, if they return, end with the
-- last chunk played that a rule gives from the numbers of the chunks alone: of the chunks that
-- are newer than the last one played, the first chunk and the next one are played, one after
-- the other, and no other, whatever the flushes between them write.
deliver_all_plays :
    (m : Machine) (cs : List Chunk) (s : Session)
    → has_buffer s ≡ true
    → Ensures
        (λ t. t.played_chunk ≡ last_played s.first_chunk s.played_chunk cs)
        (deliver_all m cs s)
deliver_all_plays m [] s has = refl
deliver_all_plays m (c ∷ cs) s has = Ensures-bind _ (deliver m c s) _ (λ out e.
    let k = Ensures-value (RuleAfter c s) (deliver m c s) (deliver-ByRule m c s has) e in
    Ensures-mono _ _ (deliver_all m cs out.1) (deliver_all_plays m cs out.1 (k.buffered ∙ has))
      (λ t p. p ∙ ap₂ (λ first played. last_played first played cs) k.first k.played))
