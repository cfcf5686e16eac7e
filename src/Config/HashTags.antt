-- ===== src/Config/HashTags.antt =====
-- The slot of a key in a cluster. The cluster's specification says that of a key with text between its
-- first brace and the next closing one, only that text is hashed; the slot is a parameter.
use distsync.Common.{
  ℕ, ◌≡◌, ◌≢◌, ◌∙◌, refl, sym, ap, false, [], ◌∷◌, ◌++◌, Text, ◌==◌, if◌then◌else◌, arith,
  Bool-cases, inl, inr,
}
use mathlib.Core.List.{append_assoc, append-nil}
use distsync.Config.{contains, key, derived}

pub record SlotLaws (slot : Text → ℕ) : Type 0 where
  pub tagged :
      (before tag rest : Text)
      → contains before b'{' ≡ false
      → contains tag b'}' ≡ false
      → tag ≢ []
      → slot (before ++ b'{' ∷ tag ++ b'}' ∷ rest) ≡ slot tag

-- The text up to the first closing brace, and after it
split : Text → Text × Text
split [] = ([], [])
split (c ∷ s) =
    let (tag, rest) = split s in if c == b'}' then ([], s ++ b'}' ∷ []) else (c ∷ tag, rest)

split_lem : (s : Text) → s ++ b'}' ∷ [] ≡ (split s).0 ++ b'}' ∷ (split s).1
unfolding split
split_lem [] = refl
split_lem (c ∷ s) = elim (Bool-cases (c == b'}')) [
  | inl e ↦ rw e (ap (λ d. d ∷ s ++ b'}' ∷ []) (ground (arith, e)))
  | inr e ↦ rw e (ap (λ r. c ∷ r) (split_lem s))
]

split-open : (s : Text) → contains (split s).0 b'}' ≡ false
unfolding split contains
split-open [] = refl
split-open (c ∷ s) = ground (arith, split-open s)

module _ (slot : Text → ℕ) (laws : SlotLaws slot) where
  slot-braced :
      (name suffix : Text)
      → (split name).0 ≢ []
      → slot (b'{' ∷ (name ++ b'}' ∷ []) ++ suffix) ≡ slot (split name).0
  unfolding contains
  slot-braced name suffix some_tag =
      let (tag, rest) : Text × Text = split name in
      ap (λ r. slot (b'{' ∷ r ++ suffix)) (split_lem name)
      ∙ ap (λ r. slot (b'{' ∷ r)) (append_assoc tag (b'}' ∷ rest) suffix)
      ∙ laws.tagged [] tag (rest ++ suffix) refl (split-open name) some_tag

  some_tag : (c : ℕ) (name : Text) → (c == b'}') ≡ false → (split (c ∷ name)).0 ≢ []
  unfolding split
  some_tag c name e q = absurd (ground (arith, e, q))

  -- What is derived from the key of a name that is not empty, has no opening brace and does not begin
  -- with a closing one, is in the slot of that key.
  pub slot-derived :
      (c : ℕ) (name suffix : Text)
      → contains (c ∷ name) b'{' ≡ false
      → (c == b'}') ≡ false
      → slot (derived (key (c ∷ name)) suffix) ≡ slot (key (c ∷ name))
  unfolding key derived
  slot-derived c name suffix no_brace e =
      let wrapped = b'{' ∷ (c ∷ name) ++ b'}' ∷ [] in
      let same = slot-braced (c ∷ name) (b':' ∷ suffix) (some_tag c name e) in
      let same' = slot-braced (c ∷ name) [] (some_tag c name e) in
      rw no_brace (same ∙ sym same' ∙ ap slot (append-nil wrapped))
