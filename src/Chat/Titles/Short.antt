-- ===== src/Chat/Titles/Short.antt =====
-- A derived title is short.
use Prim.Native.Char.{code}
use Prim.Native.String
use text.Mathlib.TextLemmas.{length-append, length-cons, length-nil}
use robotsix_chat.Base.{
  ℕ, zero, suc, ◌+◌, ◌≤◌, String, arith, leb, Bool-cases, inl, inr, leb→le, ◌&&◌,
}
use robotsix_chat.Chat.Titles.{
  derive_title, rstrip, first_chars, join_words, split_words, max_title_chars, no_text, is_space,
}

count-first_chars : (n : ℕ) (s : String) → String.count (first_chars n s) ≤ n
unfolding first_chars
count-first_chars zero s = omega (arith, length-nil)
count-first_chars (suc n) String.[] = omega (arith, length-nil)
count-first_chars (suc n) (String.◌∷◌ c s) =
    omega (arith, count-first_chars n s, length-cons c (first_chars n s))

count-rstrip : (s : String) → String.count (rstrip s) ≤ String.count s
unfolding rstrip
count-rstrip String.[] = omega arith
count-rstrip (String.◌∷◌ c s) = elim (Bool-cases (no_text (rstrip s) && is_space (code c))) [
  | inl e ↦ rw e (omega (arith, length-nil, length-cons c s))
  | inr e ↦ rw e (omega (arith, count-rstrip s, length-cons c s, length-cons c (rstrip s)))
]

-- A derived title has at most `max_title_chars` characters and the ellipsis.
pub count-derive_title : (s : String) → String.count (derive_title s) ≤ max_title_chars + 1
unfolding derive_title
count-derive_title s =
    let line = join_words (split_words "" s) in
    elim (Bool-cases (leb (String.count line) max_title_chars)) [
      | inl e ↦ rw e (omega (arith, leb→le _ _ e))
      | inr e ↦ rw e (
          omega (
            arith,
            length-append (rstrip (first_chars max_title_chars line)) "…",
            count-rstrip (first_chars max_title_chars line),
            count-first_chars max_title_chars line,
          ))
    ]
