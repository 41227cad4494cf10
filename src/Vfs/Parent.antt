-- ===== src/Vfs/Parent.antt =====
-- `split_parent` cuts a path at its last slash.
use lxtos.Prelude.{
  suc, ◌+◌, ◌-◌, ◌<◌, ◌≡◌, refl, ap, ap₂, ◌∙◌, true, false, none, some, [], ◌∷◌, ◌++◌, arith,
  length, take, take_all, drop, ◌==◌, ltb, take-append_left,
}
use lxtos.KString.{CString, kstrlen, kstrcpy}
use lxtos.KString.Compare.{IsText, kstrlen-length}
use lxtos.KString.Copy.{kstrcpy-take, kstrcpy_short}
use lxtos.Fs.{vfs_max_name, vfs_max_path}
use lxtos.Vfs.{slash, root_path, last_slash, parent_of, split_parent}
use lxtos.Vfs.Paths.{NoSlash, IsName, IsText-append}

last_slash-none : (name : CString) → NoSlash name → last_slash name ≡ none
unfolding last_slash
last_slash-none [] p = refl
last_slash-none (c ∷ s) p =
    let other : (c == slash) ≡ false = ground arith in rw (last_slash-none s p.1, last_slash, other)

last_slash-append :
    (dir name : CString) → NoSlash name → last_slash (dir ++ slash ∷ name) ≡ some (length dir)
unfolding last_slash
last_slash-append [] name p = rw (last_slash-none name p, last_slash)
last_slash-append (c ∷ dir) name p = rw (last_slash-append dir name p, last_slash)

drop_dir : (dir name : CString) → drop (length dir + 1) (dir ++ slash ∷ name) ≡ name
drop_dir [] name = refl
drop_dir (c ∷ dir) name =
    let next : suc (length dir) + 1 ≡ suc (length dir + 1) = omega arith in
    ap (λ k. drop k (c ∷ (dir ++ slash ∷ name))) next ∙ drop_dir dir name

-- The directory part of a path, as the code names it.
abbrev pub dir_path : CString → CString
dir_path [] = root_path
dir_path (c ∷ dir) = c ∷ dir

parent_of-lem :
    (dir name : CString)
    → IsText (dir ++ slash ∷ name)
    → length dir < vfs_max_path
    → IsName name
    → parent_of (dir ++ slash ∷ name) (some (length dir)) ≡ some (dir_path dir, name)
unfolding parent_of
parent_of-lem [] name t h n = rw (kstrcpy_short name vfs_max_name n.text n.short)
parent_of-lem (c ∷ dir) name t h n =
    let room : ltb (suc (length dir)) vfs_max_path ≡ true = ground arith in
    let whole : suc (length dir) + 1 - 1 ≡ suc (length dir) = omega arith in
    let cut : kstrcpy ((c ∷ dir) ++ slash ∷ name) (suc (length dir) + 1) ≡ c ∷ dir =
      kstrcpy-take ((c ∷ dir) ++ slash ∷ name) (suc (length dir) + 1) t
      ∙ ap (λ k. take k ((c ∷ dir) ++ slash ∷ name)) whole
      ∙ take-append_left (suc (length dir)) (c ∷ dir) (slash ∷ name) refl in
    let behind : kstrcpy (drop (suc (length dir) + 1) ((c ∷ dir) ++ slash ∷ name)) vfs_max_name
        ≡ name =
      ap (λ k. kstrcpy k vfs_max_name) (drop_dir (c ∷ dir) name)
      ∙ kstrcpy_short name vfs_max_name n.text n.short in
    rw room (ap₂ (λ a b. some (a, b)) cut behind)

-- `split_parent` of a path whose last slash stands at less than 1024 bytes, before a proper name, does
-- not fault: it gives the part before that slash, or `/` if it is empty, and the name.
pub split_parent_lem :
    (dir name : CString)
    → IsText dir
    → length dir < vfs_max_path
    → IsName name
    → split_parent (dir ++ slash ∷ name) ≡ some (dir_path dir, name)
unfolding split_parent
split_parent_lem dir name t h n =
    let text : IsText (dir ++ slash ∷ name) =
      IsText-append dir (slash ∷ name) t (omega arith, omega arith, n.text) in
    let whole : take (kstrlen (dir ++ slash ∷ name)) (dir ++ slash ∷ name) ≡ dir ++ slash ∷ name =
      take_all _ _ (omega (arith, kstrlen-length (dir ++ slash ∷ name) text)) in
    rw (whole, last_slash-append dir name n.plain) (parent_of-lem dir name text h n)
