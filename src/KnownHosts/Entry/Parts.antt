-- ===== src/KnownHosts/Entry/Parts.antt =====
-- The key and the comment of a known host, which libssh2 keeps in one string.
use ssh2_cpp.Base.{
  inl, inr, ◌⊎◌, Option-cases, Option-cases, ◌⊎◌, ◌≡◌, ◌≢◌, refl, arith, ℕ, zero, suc, ◌+◌, ◌<◌,
  none, some, [], ◌∷◌, ◌++◌, take, drop, length, Text,
}
use ssh2_cpp.KnownHosts.Entry.{find, space, npos, key_part, comment_part}

-- No byte of the text is `b`.
abbrev pub Lacks : ℕ → Text → Type 0
Lacks b [] = Unit
Lacks b (c ∷ cs) = (c ≢ b) × Lacks b cs

-- The byte is found at the end of a beginning that lacks it.
find-some :
    (b : ℕ) (t : Text) (i : ℕ)
    → find b t ≡ some i
    → (take i t ++ b ∷ drop (i + 1) t ≡ t) × Lacks b (take i t) × (i < length t)
unfolding find
find-some b [] i h = cc
find-some b (c ∷ cs) zero h = ground arith
find-some b (c ∷ cs) (suc i) h = ground (arith, find-some b cs i)

find-none : (b : ℕ) (t : Text) → find b t ≡ none → Lacks b t
unfolding find
find-none b [] h = tt
find-none b (c ∷ cs) h = ground (arith, find-none b cs)

-- Of a string shorter than `npos`: without a space it is all key and there is no comment; else the key,
-- the first space and the comment make up the string. The key has no space.
pub key_part-comment_part :
    (k : Text)
    → length k < npos
    → Lacks space (key_part k)
      × (((find space k ≡ none) × (key_part k ≡ k) × (comment_part k ≡ []))
          ⊎ (key_part k ++ space ∷ comment_part k ≡ k))
unfolding key_part comment_part
key_part-comment_part k h = elim (Option-cases (find space k)) [
  | inl e ↦ rw e (find-none space k e, inl (refl, refl, refl))
  | inr (i, e) ↦ rw e (ground (arith, find-some space k i e))
]
