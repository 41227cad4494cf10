-- ===== src/Shell/Words.antt =====
-- `parse` finds the words of a line, however many spaces stand between them.
use lxtos.Prelude.{
  ℕ, zero, suc, ◌≡◌, ◌≢◌, refl, ap, ◌∙◌, false, List, [], ◌∷◌, ◌++◌, arith, take, take_all,
  replicate, ◌==◌,
}
use lxtos.KString.{CString, after}
use lxtos.KString.Compare.{IsText}
use lxtos.Libc.Strings.{strlen}
use lxtos.Libc.Strings.Agree.{strlen-length}
use lxtos.Shell.{space, quote, skip_spaces, until, word_of, parse_from, parse}

abbrev pub Avoids : ℕ → CString → Type 0
Avoids stop [] = Unit {0}
Avoids stop (c ∷ s) = (c ≢ stop) × Avoids stop s

-- A word of a line, with the spaces before it: in quotes, or plain.
pub data Item : Type 0 where
  quoted : ℕ → CString → Item
  plain : ℕ → ℕ → CString → Item

-- Any text without a quote in quotes; a plain word has no space, and starts with no quote.
abbrev pub AreItems : List Item → Type 0
AreItems [] = Unit {0}
AreItems (quoted k w ∷ l) = Avoids quote w × AreItems l
AreItems (plain k c w ∷ l) = (c ≢ space) × (c ≢ quote) × Avoids space w × AreItems l

abbrev pub words_of : List Item → List CString
words_of [] = []
words_of (quoted k w ∷ l) = w ∷ words_of l
words_of (plain k c w ∷ l) = (c ∷ w) ∷ words_of l

-- A space where more follows.
abbrev pub apart : CString → CString
apart [] = []
apart (c ∷ s) = space ∷ c ∷ s

-- The line with these words, and `last` spaces at the end.
abbrev pub spell : List Item → ℕ → CString
spell [] last = replicate last space
spell (quoted k w ∷ l) last = replicate k space ++ (quote ∷ (w ++ (quote ∷ spell l last)))
spell (plain k c w ∷ l) last = replicate k space ++ (c ∷ (w ++ apart (spell l last)))

skip_spaces-spaces : (k : ℕ) (s : CString) → skip_spaces (replicate k space ++ s) ≡ skip_spaces s
unfolding skip_spaces
skip_spaces-spaces zero s = refl
skip_spaces-spaces (suc k) s = skip_spaces-spaces k s

skip_spaces-none : (c : ℕ) (s : CString) → c ≢ space → skip_spaces (c ∷ s) ≡ c ∷ s
unfolding skip_spaces
skip_spaces-none c s h = let other : (c == space) ≡ false = ground arith in rw (other, skip_spaces)

skip_all : (last : ℕ) → skip_spaces (replicate last space) ≡ []
unfolding skip_spaces
skip_all zero = refl
skip_all (suc last) = skip_all last

until_stop :
    (stop : ℕ) (w s : CString) → Avoids stop w → until stop (w ++ (stop ∷ s)) ≡ (w, stop ∷ s)
unfolding until
until_stop stop [] s a = ground arith
until_stop stop (c ∷ w) s a =
    let other : (c == stop) ≡ false = ground arith in rw (until, until_stop stop w s a.1, other)

until_end : (stop : ℕ) (w : CString) → Avoids stop w → until stop (w ++ []) ≡ (w, [])
unfolding until
until_end stop [] a = refl
until_end stop (c ∷ w) a =
    let other : (c == stop) ≡ false = ground arith in rw (until, until_end stop w a.1, other)

until-apart : (w s : CString) → Avoids space w → until space (w ++ apart s) ≡ (w, apart s)
until-apart w [] a = until_end space w a
until-apart w (c ∷ s) a = until_stop space w (c ∷ s) a

after-apart : (s : CString) → after (apart s) ≡ s
after-apart [] = refl
after-apart (c ∷ s) = refl

parse_step :
    (room c : ℕ) (line rest w behind : CString)
    → skip_spaces line ≡ c ∷ rest
    → word_of c rest ≡ (w, behind)
    → parse_from (suc room) line ≡ w ∷ parse_from room (after behind)
unfolding parse_from
parse_step room c line rest w behind p q = rw (parse_from, p, q)

first_word :
    (k c : ℕ) (s : CString) → c ≢ space → skip_spaces (replicate k space ++ (c ∷ s)) ≡ c ∷ s
first_word k c s h = skip_spaces-spaces k (c ∷ s) ∙ skip_spaces-none c s h

plain_word :
    (c : ℕ) (w s : CString)
    → c ≢ space
    → c ≢ quote
    → Avoids space w
    → word_of c (w ++ apart s) ≡ (c ∷ w, apart s)
unfolding word_of
plain_word c w s h q a =
    let other : (c == quote) ≡ false = ground arith in
    rw (other, word_of) (until-apart (c ∷ w) s (h, a))

parse_from-spell :
    (l : List Item) (room last : ℕ)
    → AreItems l
    → parse_from room (spell l last) ≡ take room (words_of l)
unfolding parse_from word_of
parse_from-spell l zero last a = refl
parse_from-spell [] (suc room) last a = rw (parse_from, skip_all last)
parse_from-spell (quoted k w ∷ l) (suc room) last a =
    parse_step room quote (spell (quoted k w ∷ l) last) (w ++ (quote ∷ spell l last)) w
      (quote ∷ spell l last)
      (first_word k quote (w ++ (quote ∷ spell l last)) (λ e. absurd (omega arith)))
      (until_stop quote w (spell l last) a.0)
    ∙ ap (λ t. w ∷ t) (parse_from-spell l room last a.1)
parse_from-spell (plain k c w ∷ l) (suc room) last a =
    parse_step room c (spell (plain k c w ∷ l) last) (w ++ apart (spell l last)) (c ∷ w)
      (apart (spell l last)) (first_word k c (w ++ apart (spell l last)) a.0)
      (plain_word c w (spell l last) a.0 a.1 a.2)
    ∙ ap (λ t. (c ∷ w) ∷ t)
        (ap (parse_from room) (after-apart (spell l last)) ∙ parse_from-spell l room last a.3)

-- parse of a line without a NUL, in which any texts without a quote stand in quotes and plain words behind
-- one space or more, gives the words in order, the first max of them; spaces before the words and at the end
-- make no difference.
pub parse-spell :
    (l : List Item) (last max : ℕ)
    → AreItems l
    → IsText (spell l last)
    → parse (spell l last) max ≡ take max (words_of l)
unfolding parse
parse-spell l last max a t =
    ap (parse_from max) (
      take_all (strlen (spell l last)) (spell l last)
        (omega (arith, strlen-length (spell l last) t)))
    ∙ parse_from-spell l max last a
