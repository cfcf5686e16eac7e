-- ===== src/Locks/Slots/Examples.antt =====
-- A slot by the length of what is hashed, and the theorem at it.
use distsync.Common.{
  ℕ, ◌*◌, sym, ◌≡◌, ◌≢◌, ◌∙◌, ap, refl, true, false, Option, none, some, [], ◌∷◌, ◌++◌, Text, ◌==◌,
  if◌then◌else◌, arith, length,
}
use distsync.Redis.{millisecond}
use distsync.Config.{Config, contains, key, derived, fences}
use distsync.Config.HashTags.{SlotLaws}
use distsync.Locks.Mutex.{new_mutex}
use distsync.Locks.Slots.{one_slot}

-- The text before the first closing brace, if there is one
closed_part : Text → Option Text
closed_part [] = none
closed_part (c ∷ s) =
    let rest = closed_part s in
    if c == b'}' then some [] else elim rest [ none ↦ none | some t ↦ some (c ∷ t) ]

abbrev or_whole : Text → Option Text → Text
or_whole k none = k
or_whole k (some []) = k
or_whole k (some (c ∷ t)) = c ∷ t

-- What is hashed of `s`, a part of the key `k`
hashed : Text → Text → Text
hashed k [] = k
hashed k (c ∷ s) = let rest = hashed k s in if c == b'{' then or_whole k (closed_part s) else rest

slot : Text → ℕ
unfolding hashed
slot k = length (hashed k k)

closed_part-tag :
    (tag rest : Text) → contains tag b'}' ≡ false → closed_part (tag ++ b'}' ∷ rest) ≡ some tag
unfolding closed_part contains
closed_part-tag [] rest e = refl
closed_part-tag (c ∷ tag) rest e = ground (arith, e, closed_part-tag tag rest)

closed_part-none : (tag : Text) → contains tag b'}' ≡ false → closed_part tag ≡ none
unfolding closed_part contains
closed_part-none [] e = refl
closed_part-none (c ∷ tag) e = ground (arith, e, closed_part-none tag)

hashed-tag :
    (k before tag rest : Text)
    → contains before b'{' ≡ false
    → contains tag b'}' ≡ false
    → tag ≢ []
    → hashed k (before ++ b'{' ∷ tag ++ b'}' ∷ rest) ≡ tag
unfolding hashed contains
hashed-tag k [] [] rest e e' ne = absurd (ne refl)
hashed-tag k [] (c ∷ tag) rest e e' ne = rw (closed_part-tag (c ∷ tag) rest e') refl
hashed-tag k (c ∷ before) tag rest e e' ne = ground (arith, e, hashed-tag k before tag rest, e', ne)

hashed-whole : (k s : Text) → contains s b'}' ≡ false → hashed k s ≡ k
unfolding hashed contains
hashed-whole k [] e = refl
hashed-whole k (c ∷ s) e = ground (arith, e, closed_part-none s, hashed-whole k s)

slot-SlotLaws : SlotLaws slot
unfolding slot
slot-SlotLaws = record {
  tagged = λ before tag rest e e' ne.
      ap length (hashed-tag _ before tag rest e e' ne) ∙ ap length (sym (hashed-whole tag tag e'));
}

abbrev defaults : Config
defaults = record {
  ttl = 10_000 * millisecond;
  auto_renew = true;
  retry = record { base = 0; max = 0 };
  fencing = false;
  watchdog = false;
}

no_brace : contains (b'o' ∷ b'}' ∷ []) b'{' ≡ false
unfolding contains
no_brace = refl

one_slot_example :
    slot (new_mutex defaults (fences ∷ []) (b'o' ∷ b'}' ∷ [])).fkey ≡ slot (key (b'o' ∷ b'}' ∷ []))
one_slot_example =
    (one_slot slot slot-SlotLaws defaults (fences ∷ []) b'o' (b'}' ∷ []) no_brace refl).1.0

-- Of a name that begins with a closing brace the keys are hashed whole, and are in different slots.
two_slots : slot (derived (key (b'}' ∷ [])) (b's' ∷ [])) ≢ slot (key (b'}' ∷ []))
unfolding slot hashed closed_part key derived contains
two_slots e = absurd (omega (arith, e))
