-- ===== src/Chat/Titles.antt =====
-- `_derive_title` of src/robotsix_chat/chat/conversation.py, with Python's `str.split`, `str.rstrip` and
-- the test that a stripped text is not empty.
pub mod Short
use Prim.Native.Char.{code}
use Prim.Native.String
use robotsix_chat.Base.{
  ℕ, zero, suc, ◌+◌, String, Bool, true, false, not, ◌&&◌, ◌||◌, List, [], ◌∷◌, leb, ◌==◌,
  if◌then◌else◌,
}

abbrev pub max_title_chars : ℕ
max_title_chars = 60

abbrev pub no_text : String → Bool
no_text String.[] = true
no_text (String.◌∷◌ c s) = false

-- Python's `str.isspace`.
unfoldable pub is_space : ℕ → Bool
is_space c =
    (leb 9 c && leb c 13)
    || (leb 28 c && leb c 32)
    || (c == 0x85)
    || (c == 0xa0)
    || (c == 0x1680)
    || (leb 0x2000 c && leb c 0x200a)
    || (c == 0x2028)
    || (c == 0x2029)
    || (c == 0x202f)
    || (c == 0x205f)
    || (c == 0x3000)

-- Whether `s.strip()` is not empty.
unfoldable pub has_text : String → Bool
has_text String.[] = false
has_text (String.◌∷◌ c s) = not (is_space (code c)) || has_text s

-- `s.split()`, with the word that is being read.
unfoldable pub split_words : String → String → List String
split_words word String.[] = if no_text word then [] else word ∷ []
split_words word (String.◌∷◌ c s) =
    let space = is_space (code c) in
    let rest = split_words (if space then "" else String.◌++◌ word (String.◌∷◌ c String.[])) s in
    if space && not (no_text word) then word ∷ rest else rest

unfoldable pub join_words : List String → String
join_words [] = ""
join_words (w ∷ []) = w
join_words (w ∷ v ∷ ws) = String.◌++◌ w (String.◌++◌ " " (join_words (v ∷ ws)))

unfoldable pub first_chars : ℕ → String → String
first_chars zero s = String.[]
first_chars (suc n) String.[] = String.[]
first_chars (suc n) (String.◌∷◌ c s) = String.◌∷◌ c (first_chars n s)

unfoldable pub rstrip : String → String
rstrip String.[] = String.[]
rstrip (String.◌∷◌ c s) =
    let rest = rstrip s in if no_text rest && is_space (code c) then "" else String.◌∷◌ c rest

unfoldable pub derive_title : String → String
unfolding split_words join_words first_chars rstrip
derive_title message =
    let single_line = join_words (split_words "" message) in
    if leb (String.count single_line) max_title_chars
    then single_line
    else String.◌++◌ (rstrip (first_chars max_title_chars single_line)) "…"
