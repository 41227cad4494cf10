-- ===== src/Keyboard/Keys.antt =====
-- Which character `kb_getchar` returns.
use lxtos.Prelude.{
  ℕ, ◌≡◌, ◌≢◌, ◌<◌, refl, ap, sym, ◌∙◌, Bool, true, false, ◌||◌, some, List, [], ◌∷◌, ◌++◌, arith,
  get_or, leb, ◌==◌, inl, inr, ◌⊎◌, Option, Option-cases, none-some,
}
use lxtos.Keyboard.Shift.{shift_after, ctrl_after, Shifted, shift_after-Shifted}
use lxtos.Keyboard.{
  Console, sc_lshift, sc_rshift, sc_lshift_r, sc_rshift_r, sc_lctrl, sc_lctrl_r, key_char,
  scancode_map, scancode_map_shift, char_step, key_step, getchar_loop, kb_getchar,
}

char_step-modifiers :
    (c : ℕ) (k : Console)
    → ((char_step c k).1.shift_held ≡ k.shift_held) × ((char_step c k).1.ctrl_held ≡ k.ctrl_held)
unfolding char_step
char_step-modifiers c k = ground arith

char_step-some :
    (c d : ℕ) (k : Console)
    → (char_step c k).0 ≡ some d
    → (d ≡ c) × (c ≢ 0) × ((char_step c k).1 ≡ k)
unfolding char_step
char_step-some c d k e = ground arith

key_step-modifiers :
    (sc : ℕ) (k : Console)
    → ((key_step sc k).1.shift_held ≡ shift_after (sc ∷ []) k.shift_held)
      × ((key_step sc k).1.ctrl_held ≡ ctrl_after (sc ∷ []) k.ctrl_held)
unfolding key_step
key_step-modifiers sc k = ground (arith, char_step-modifiers (key_char k.shift_held sc) k)

key_step-some :
    (sc d : ℕ) (k : Console)
    → (key_step sc k).0 ≡ some d
    → (sc < 128) × (d ≡ key_char k.shift_held sc) × (d ≢ 0) × ((key_step sc k).1 ≡ k)
unfolding key_step
key_step-some sc d k e = ground (arith, char_step-some (key_char k.shift_held sc) d k)

some-pair :
    {c d : ℕ} {k k' : Console}
    → ◌≡◌ {A = Option (ℕ × Console)} (some (c, k)) (some (d, k'))
    → (c ≡ d) × (k ≡ k')
some-pair e = ground arith

-- The scan code whose character is returned, behind those before it; `shifted` chooses the table.
pub record Typed (codes : List ℕ) (k : Console) (c : ℕ) (k' : Console) : Type 0 where
  pub before : List ℕ
  pub code : ℕ
  pub rest : List ℕ
  pub shifted : Bool
  pub input : codes ≡ before ++ code ∷ rest
  pub key : code < 128
  pub chosen : Shifted before k.shift_held shifted
  pub second : shifted ≡ true → c ≡ get_or scancode_map_shift code 0
  pub first : shifted ≡ false → c ≡ get_or scancode_map code 0
  pub nonzero : c ≢ 0
  pub shift : k'.shift_held ≡ shifted
  pub left : k'.input ≡ rest

-- The same with the computed state of the shift key.
record Found (codes : List ℕ) (k : Console) (c : ℕ) (k' : Console) : Type 0 where
  before : List ℕ
  code : ℕ
  rest : List ℕ
  input : codes ≡ before ++ code ∷ rest
  key : code < 128
  char : c ≡ key_char (shift_after before k.shift_held) code
  nonzero : c ≢ 0
  shift : k'.shift_held ≡ shift_after before k.shift_held
  left : k'.input ≡ rest

getchar_loop-Found :
    (codes : List ℕ) (k k' : Console) (c : ℕ)
    → getchar_loop codes k ≡ some (c, k')
    → Found codes k c k'
unfolding getchar_loop
getchar_loop-Found [] k k' c e = absurd (none-some e)
getchar_loop-Found (sc ∷ rest) k k' c e = elim (Option-cases (key_step sc k).0) [
  | inl q ↦
      let (shift, ctrl) = key_step-modifiers sc k in
      let t = getchar_loop-Found rest (key_step sc k).1 k' c (rw (q, getchar_loop) at e) in
      record {
        before = sc ∷ t.before;
        code = t.code;
        rest = t.rest;
        input = ap (λ l. sc ∷ l) t.input;
        key = t.key;
        char = t.char ∙ ap (λ b. key_char (shift_after t.before b) t.code) shift;
        nonzero = t.nonzero;
        shift = t.shift ∙ ap (shift_after t.before) shift;
        left = t.left;
      }
  | inr (d, q) ↦
      let (key, char, nonzero, same) = key_step-some sc d k q in
      let (is, ends) = some-pair (rw (q, getchar_loop) at e) in
      record {
        before = [];
        code = sc;
        rest = rest;
        input = refl;
        key = key;
        char = sym is ∙ char;
        nonzero = λ z. nonzero (is ∙ z);
        shift = ap (λ x. x.shift_held) (sym ends) ∙ ap (λ x. x.shift_held) same;
        left = ap (λ x. x.input) (sym ends);
      }
]

key_char-second :
    (b : Bool) (code : ℕ) → b ≡ true → key_char b code ≡ get_or scancode_map_shift code 0
key_char-second b code e = rw e

key_char-first : (b : Bool) (code : ℕ) → b ≡ false → key_char b code ≡ get_or scancode_map code 0
key_char-first b code e = rw e

-- The character that `kb_getchar` returns is not 0 and stands at a scan code below 128: in the second table if
-- the last press or release of a shift key among the scan codes before it is a press, or if there is none and
-- shift counted as held at the start, and else in the first table. The scan codes behind it are still to come.
pub kb_getchar-Typed : (k k' : Console) (c : ℕ) → kb_getchar k ≡ some (c, k') → Typed k.input k c k'
unfolding kb_getchar
kb_getchar-Typed k k' c e =
    let t = getchar_loop-Found k.input k k' c e in
    let shifted = shift_after t.before k.shift_held in
    record {
      before = t.before;
      code = t.code;
      rest = t.rest;
      shifted = shifted;
      input = t.input;
      key = t.key;
      chosen = shift_after-Shifted t.before k.shift_held;
      second = λ q. t.char ∙ key_char-second shifted t.code q;
      first = λ q. t.char ∙ key_char-first shifted t.code q;
      nonzero = t.nonzero;
      shift = t.shift;
      left = t.left;
    }

char_step-returns : (c : ℕ) (k : Console) → c ≢ 0 → k.ctrl_held ≡ false → (char_step c k).0 ≡ some c
unfolding char_step
char_step-returns c k n h = ground arith

no_char : (sc : ℕ) (shift : Bool) → (sc ≡ 0x2A) ⊎ (sc ≡ 0x36) ⊎ (sc ≡ 0x1D) → key_char shift sc ≡ 0
no_char sc true (inl e) = rw e
no_char sc false (inl e) = rw e
no_char sc true (inr (inl e)) = rw e
no_char sc false (inr (inl e)) = rw e
no_char sc true (inr (inr e)) = rw e
no_char sc false (inr (inr e)) = rw e

key_step-returns :
    (sc : ℕ) (k : Console)
    → sc < 128
    → key_char k.shift_held sc ≢ 0
    → k.ctrl_held ≡ false
    → (key_step sc k).0 ≡ some (key_char k.shift_held sc)
unfolding key_step
key_step-returns sc k h n c =
    let a : (sc == sc_lshift || sc == sc_rshift) ≡ false =
      ground (arith, no_char sc k.shift_held) in
    let b : (sc == sc_lshift_r || sc == sc_rshift_r) ≡ false = ground arith in
    let d : (sc == sc_lctrl) ≡ false = ground (arith, no_char sc k.shift_held) in
    let e : (sc == sc_lctrl_r) ≡ false = ground arith in
    let f : leb 128 sc ≡ false = ground arith in
    rw (a, b, d, e, f) (char_step-returns (key_char k.shift_held sc) k n c)

getchar_loop-returns :
    (before rest : List ℕ) (code : ℕ) (k : Console)
    → code < 128
    → ((shift : Bool) → key_char shift code ≢ 0)
    → ctrl_after before k.ctrl_held ≡ false
    → (c : ℕ) × (k' : Console) × (getchar_loop (before ++ code ∷ rest) k ≡ some (c, k'))
unfolding getchar_loop
getchar_loop-returns [] rest code k h n e =
    let q = key_step-returns code k h (n k.shift_held) e in rw (q, getchar_loop) (_, _, refl)
getchar_loop-returns (sc ∷ before) rest code k h n e = elim (Option-cases (key_step sc k).0) [
  | inl q ↦
      rw (q, getchar_loop)
        (getchar_loop-returns before rest code (key_step sc k).1 h n
          (ap (ctrl_after before) (key_step-modifiers sc k).1 ∙ e))
  | inr (d, q) ↦ rw (q, getchar_loop) (_, _, refl)
]

-- Where a key with a character is among the scan codes to come, no control key held by the codes before
-- it, `kb_getchar` returns.
pub kb_getchar-returns :
    (before rest : List ℕ) (code : ℕ) (k : Console)
    → k.input ≡ before ++ code ∷ rest
    → code < 128
    → ((shift : Bool) → key_char shift code ≢ 0)
    → ctrl_after before k.ctrl_held ≡ false
    → (c : ℕ) × (k' : Console) × (kb_getchar k ≡ some (c, k'))
unfolding kb_getchar
kb_getchar-returns before rest code k i h n e =
    simp i (getchar_loop-returns before rest code k h n e)
