-- ===== src/Vfs/Paths.antt =====
-- `split_path` finds the names of a path, however many slashes stand between them.
use lxtos.Prelude.{
  ℕ, zero, suc, ◌-◌, ◌≤◌, ◌<◌, ◌≡◌, ◌≢◌, refl, ap, ◌∙◌, true, false, List, [], ◌∷◌, ◌++◌, arith,
  length, take, take_all, replicate, ◌==◌,
}
use lxtos.KString.{CString, kstrlen}
use lxtos.KString.Compare.{IsText, kstrlen-length}
use lxtos.Fs.{vfs_max_name}
use lxtos.Vfs.{slash, skip_slashes, component, parts_from, split_path}

abbrev pub NoSlash : CString → Type 0
NoSlash [] = Unit {0}
NoSlash (c ∷ s) = (c ≢ slash) × NoSlash s

-- The name of an entry of a directory: 1 to 255 bytes, with neither a slash nor a NUL.
pub record IsName (name : CString) : Type 0 where
  pub proper : 0 < length name
  pub plain : NoSlash name
  pub short : length name < vfs_max_name
  pub text : IsText name

abbrev pub AreNames : List (ℕ × CString) → Type 0
AreNames [] = Unit {0}
AreNames ((k, name) ∷ l) = IsName name × AreNames l

-- The path with these names, each behind one slash and `k` more, and `last` slashes at the end.
abbrev pub spell : List (ℕ × CString) → ℕ → CString
spell [] last = replicate last slash
spell ((k, name) ∷ l) last = slash ∷ (replicate k slash ++ (name ++ spell l last))

abbrev pub names_of : List (ℕ × CString) → List CString
names_of [] = []
names_of ((k, name) ∷ l) = name ∷ names_of l

-- A string that is empty or starts with a slash.
abbrev Cut : CString → Type 0
Cut [] = Unit {0}
Cut (c ∷ s) = c ≡ slash

spell-Cut : (l : List (ℕ × CString)) (last : ℕ) → Cut (spell l last)
spell-Cut [] zero = tt
spell-Cut [] (suc last) = refl
spell-Cut ((k, name) ∷ l) last = refl

skip_slashes-slashes :
    (k : ℕ) (s : CString) → skip_slashes (replicate k slash ++ s) ≡ skip_slashes s
unfolding skip_slashes
skip_slashes-slashes zero s = refl
skip_slashes-slashes (suc k) s = skip_slashes-slashes k s

skip_slashes-none : (c : ℕ) (s : CString) → c ≢ slash → skip_slashes (c ∷ s) ≡ c ∷ s
unfolding skip_slashes
skip_slashes-none c s h =
    let other : (c == slash) ≡ false = ground arith in rw (other, skip_slashes)

component-name :
    (room : ℕ) (name rest : CString)
    → NoSlash name
    → length name ≤ room
    → Cut rest
    → component room (name ++ rest) ≡ (name, rest)
unfolding component
component-name zero [] rest p h c = refl
component-name zero (x ∷ name) rest p h c = absurd (omega arith)
component-name (suc room) [] [] p h c = refl
component-name (suc room) [] (x ∷ rest) p h c =
    let here : (x == slash) ≡ true = ground arith in rw here
component-name (suc room) (x ∷ name) rest p h c =
    let other : (x == slash) ≡ false = ground arith in
    rw (other, component-name room name rest p.1 (omega arith) c)

parts_from-slashes :
    (k m : ℕ) (s : CString) → parts_from (replicate k slash ++ s) m ≡ parts_from s m
unfolding parts_from
parts_from-slashes k zero s = refl
parts_from-slashes k (suc m) s = rw (skip_slashes-slashes k s, parts_from)

parts_from-name :
    (name rest : CString) (m : ℕ)
    → IsName name
    → Cut rest
    → parts_from (name ++ rest) (suc m) ≡ name ∷ parts_from rest m
unfolding parts_from
parts_from-name [] rest m h c = absurd (omega (arith, h.proper))
parts_from-name (x ∷ name) rest m h c = rw (
  skip_slashes-none x (name ++ rest) h.plain.0,
  parts_from,
  component-name (vfs_max_name - 1) (x ∷ name) rest h.plain (omega (arith, h.short)) c,
)

parts_from-spell :
    (l : List (ℕ × CString)) (last m : ℕ)
    → AreNames l
    → parts_from (spell l last) m ≡ take m (names_of l)
unfolding parts_from skip_slashes
parts_from-spell l last zero a = refl
parts_from-spell [] zero (suc m) a = refl
parts_from-spell [] (suc last) (suc m) a = parts_from-spell [] last (suc m) a
parts_from-spell ((k, name) ∷ l) last (suc m) a =
    parts_from-slashes (suc k) (suc m) (name ++ spell l last)
    ∙ parts_from-name name (spell l last) m a.0 (spell-Cut l last)
    ∙ ap (λ t. name ∷ t) (parts_from-spell l last m a.1)

pub IsText-append : (s t : CString) → IsText s → IsText t → IsText (s ++ t)
IsText-append [] t p q = q
IsText-append (c ∷ s) t p q = (p.0, p.1, IsText-append s t p.2 q)

IsText-slashes : (k : ℕ) → IsText (replicate k slash)
IsText-slashes zero = tt
IsText-slashes (suc k) = (omega arith, omega arith, IsText-slashes k)

pub spell-IsText : (l : List (ℕ × CString)) (last : ℕ) → AreNames l → IsText (spell l last)
spell-IsText [] last a = IsText-slashes last
spell-IsText ((k, name) ∷ l) last a =
    IsText-append (replicate (suc k) slash) (name ++ spell l last) (IsText-slashes (suc k))
      (IsText-append name (spell l last) a.0.text (spell-IsText l last a.1))

-- `split_path` of a path with proper names of at most 255 bytes, each behind one or more slashes,
-- gives its names in order, the first `max_parts` of them; slashes at the end make no difference.
pub split_path-spell :
    (l : List (ℕ × CString)) (last max_parts : ℕ)
    → AreNames l
    → split_path (spell l last) max_parts ≡ take max_parts (names_of l)
unfolding split_path
split_path-spell l last max_parts a =
    let whole : take (kstrlen (spell l last)) (spell l last) ≡ spell l last =
      take_all _ _ (omega (arith, kstrlen-length (spell l last) (spell-IsText l last a))) in
    rw whole (parts_from-spell l last max_parts a)
