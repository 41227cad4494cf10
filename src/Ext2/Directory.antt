-- ===== src/Ext2/Directory.antt =====
-- A directory of src/fs/ext2.c as the list of its entries, and the lookup of a name in it.
use lxtos.Prelude.{
  ℕ, zero, suc, ◌+◌, ◌%◌, ◌^◌, ◌≤◌, ◌<◌, ◌≡◌, refl, ap, sym, ◌∙◌, Bool, true, false, not, ◌&&◌,
  Option, some, List, [], ◌∷◌, ◌++◌, arith, length, drop, leb, ◌==◌, ◌>>=◌, if◌then◌else◌,
  length-append, append_assoc, Bool-cases, inl, inr,
}
use lxtos.KString.{CString}
use lxtos.Ext2.{u32, le_value, le_bytes, get_le}
use lxtos.Ext2.Bytes.{get_le_at, get_le-append_right, le_value-le_bytes4, le_value-le_bytes2}
use lxtos.KString.Slices.{drop-append_right}
use lxtos.Ext2.Entries.{name_matches, entry_hit, entry_size, lookup_from}

-- An entry: `pad` is what its length leaves behind the name.
pub record DirEntry : Type 0 where
  pub ino : ℕ
  pub kind : ℕ
  pub name : List ℕ
  pub pad : List ℕ

abbrev pub rec_len : DirEntry → ℕ
rec_len e = 8 + length e.name + length e.pad

abbrev pub head_bytes : DirEntry → List ℕ
head_bytes e = le_bytes 4 e.ino ++ (le_bytes 2 (rec_len e) ++ (length e.name ∷ e.kind ∷ []))

unfoldable pub encode_entry : DirEntry → List ℕ
encode_entry e = head_bytes e ++ (e.name ++ e.pad)

unfoldable pub encode : List DirEntry → List ℕ
encode [] = []
encode (e ∷ es) = encode_entry e ++ encode es

-- The numbers fit their fields, and the length the name.
pub record IsEntry (e : DirEntry) : Type 0 where
  pub ino_fits : e.ino < 2 ^ 32
  pub name_fits : length e.name < 256
  pub len_fits : rec_len e < 2 ^ 16
  pub room : entry_size (length e.name) ≤ rec_len e

abbrev pub AllEntries : List DirEntry → Type 0
AllEntries [] = Unit {0}
AllEntries (e ∷ es) = IsEntry e × AllEntries es

unfoldable pub same_bytes : List ℕ → List ℕ → Bool
same_bytes [] [] = true
same_bytes [] (b ∷ ys) = false
same_bytes (a ∷ xs) [] = false
same_bytes (a ∷ xs) (b ∷ ys) = a == b && same_bytes xs ys

-- What a lookup promises: the inode of the first entry in use that has the name, or 0.
unfoldable pub find_ino : List DirEntry → List ℕ → ℕ
find_ino [] name = 0
find_ino (e ∷ es) name =
    if not (e.ino == 0) && same_bytes e.name name then e.ino else find_ino es name

pub length-encode_entry : (e : DirEntry) → length (encode_entry e) ≡ rec_len e
unfolding encode_entry le_bytes
length-encode_entry e = omega (arith, length-append {0} e.name e.pad)

module _ (e : DirEntry) (v : IsEntry e) (post : List ℕ) where
  abbrev block : List ℕ
  block = encode_entry e ++ post

  long : 8 ≤ length block
  unfolding encode_entry le_bytes
  long = omega (arith, length-append {0} (encode_entry e) post, length-encode_entry e)

  entry_ino : get_le block 0 4 ≡ some e.ino
  unfolding encode_entry le_bytes
  entry_ino =
      get_le_at block 0 4 (le_bytes 4 e.ino) (omega (arith, long)) refl
      ∙ ap some (le_value-le_bytes4 e.ino v.ino_fits)

  entry_len : get_le block 4 2 ≡ some (rec_len e)
  unfolding encode_entry le_bytes
  entry_len =
      get_le_at block 4 2 (le_bytes 2 (rec_len e)) (omega (arith, long)) refl
      ∙ ap some (le_value-le_bytes2 (rec_len e) v.len_fits)

  entry_name_len : get_le block 6 1 ≡ some (length e.name)
  unfolding encode_entry le_bytes le_value
  entry_name_len =
      get_le_at block 6 1 (length e.name ∷ []) (omega (arith, long)) refl ∙ ap some (omega arith)

  entry_name : drop 8 block ≡ e.name ++ (e.pad ++ post)
  unfolding encode_entry le_bytes
  entry_name = append_assoc e.name e.pad post

-- Comparing a name with one of the same length.
name_matches-same :
    (xs ys rest : List ℕ)
    → length xs ≡ length ys
    → name_matches (xs ++ rest) ys ≡ some (same_bytes xs ys)
unfolding name_matches same_bytes
name_matches-same [] [] [] h = refl
name_matches-same [] [] (z ∷ rest) h = refl
name_matches-same [] (y ∷ ys) rest h = absurd (omega arith)
name_matches-same (x ∷ xs) [] rest h = absurd (omega arith)
name_matches-same (x ∷ xs) (y ∷ ys) rest h = elim (Bool-cases (x == y)) [
  | inl q ↦ rw (q, name_matches) (name_matches-same xs ys rest (omega arith))
  | inr q ↦ rw (q, name_matches)
]

-- Names of different lengths are not the same.
pub same_bytes-length : (xs ys : List ℕ) → same_bytes xs ys ≡ true → length xs ≡ length ys
unfolding same_bytes
same_bytes-length [] [] h = refl
same_bytes-length [] (y ∷ ys) h = absurd (ground arith)
same_bytes-length (x ∷ xs) [] h = absurd (ground arith)
same_bytes-length (x ∷ xs) (y ∷ ys) h = ap suc (same_bytes-length xs ys (ground arith))

-- The test of an entry, with the names' lengths compared first.
compare_name :
    (used : Bool) (xs ys rest : List ℕ)
    → length ys < 256
    → (if used && length xs == length ys % 256 then name_matches (xs ++ rest) ys else some false)
      ≡ some (used && same_bytes xs ys)
compare_name false xs ys rest h = refl
compare_name true xs ys rest h = elim (Bool-cases (length xs == length ys % 256)) [
  | inl q ↦ rw q (name_matches-same xs ys rest (ground arith))
  | inr q ↦ elim (Bool-cases (same_bytes xs ys)) [
    | inl z ↦ absurd (ground (arith, same_bytes-length xs ys z))
    | inr z ↦ rw (q, z)
  ]
]

module _ (pre post name : List ℕ) (e : DirEntry) (v : IsEntry e) (short : length name < 256) where
  abbrev image : List ℕ
  image = pre ++ (encode_entry e ++ post)

  at_entry :
      (k width : ℕ) → get_le image (length pre + k) width ≡ get_le (encode_entry e ++ post) k width
  at_entry k width = get_le-append_right pre (encode_entry e ++ post) k width

  pub at_ino : get_le image (length pre) 4 ≡ some e.ino
  at_ino =
      let z : length pre ≡ length pre + 0 = omega arith in
      ap (λ o. get_le image o 4) z ∙ at_entry 0 4 ∙ entry_ino e v post

  pub at_len : get_le image (length pre + 4) 2 ≡ some (rec_len e)
  at_len = at_entry 4 2 ∙ entry_len e v post

  pub at_name_len : get_le image (length pre + 6) 1 ≡ some (length e.name)
  at_name_len = at_entry 6 1 ∙ entry_name_len e v post

  at_name : drop (length pre + 8) image ≡ e.name ++ (e.pad ++ post)
  at_name = drop-append_right pre (encode_entry e ++ post) 8 ∙ entry_name e v post

  entry_hit_lem :
      entry_hit image (length pre) name ≡ some (not (e.ino == 0) && same_bytes e.name name)
  unfolding entry_hit
  entry_hit_lem =
      rw (at_ino, ◌>>=◌, at_name_len, ◌>>=◌, at_name)
        (compare_name (not (e.ino == 0)) e.name name (e.pad ++ post) short)

-- What follows an entry in the buffer.
pub next_pre :
    (pre post : List ℕ) (e : DirEntry) (es : List DirEntry)
    → pre ++ (encode (e ∷ es) ++ post) ≡ (pre ++ encode_entry e) ++ (encode es ++ post)
unfolding encode
next_pre pre post e es =
    ap (λ t. pre ++ t) (append_assoc (encode_entry e) (encode es) post)
    ∙ sym (append_assoc pre (encode_entry e) (encode es ++ post))

length-encode :
    (e : DirEntry) (es : List DirEntry) → length (encode (e ∷ es)) ≡ rec_len e + length (encode es)
unfolding encode
length-encode e es =
    omega (arith, length-append {0} (encode_entry e) (encode es), length-encode_entry e)

lookup_step :
    (n got off : ℕ) (buf : List ℕ) (name : CString) (len : ℕ) (hit : Bool) {ino : ℕ}
    → leb (u32 (off + 8)) got ≡ true
    → get_le buf (off + 4) 2 ≡ some len
    → (len == 0) ≡ false
    → entry_hit buf off name ≡ some hit
    → get_le buf off 4 ≡ some ino
    → lookup_from (suc n) buf got name off
      ≡ (if hit then some ino else lookup_from n buf got name (u32 (off + len)))
unfolding lookup_from
lookup_step n got off buf name len true more at nz found at_0 =
    rw (more, lookup_from, at, ◌>>=◌, nz, found, ◌>>=◌, at_0)
lookup_step n got off buf name len false more at nz found at_0 =
    rw (more, lookup_from, at, ◌>>=◌, nz, found, ◌>>=◌)

lookup_end :
    (n got off : ℕ) (buf : List ℕ) (name : CString)
    → leb (u32 (off + 8)) got ≡ false
    → lookup_from (suc n) buf got name off ≡ some 0
unfolding lookup_from
lookup_end n got off buf name h = rw (h, lookup_from)

if_some {ℓ} :
    {A : Type ℓ} (b : Bool) (x : A) {y : A} {o : Option A}
    → o ≡ some y
    → (if b then some x else o) ≡ some (if b then x else y)
if_some true x h = refl
if_some false x h = h

-- In a buffer that holds the entries of a well-formed directory behind other bytes, the loop of
-- ext2_dir_lookup, given one round more than there are entries and a name of at most 255 bytes, ends and
-- finds the inode of the first entry in use that has the name, or 0.
pub lookup_from-encode :
    (rounds : ℕ) (buf : List ℕ) (got off : ℕ) (pre post : List ℕ) (es : List DirEntry)
    (name : CString)
    → length es < rounds
    → buf ≡ pre ++ (encode es ++ post)
    → off ≡ length pre
    → got ≡ off + length (encode es)
    → got + 8 < 2 ^ 32
    → AllEntries es
    → length name < 256
    → lookup_from rounds buf got name off ≡ some (find_ino es name)
unfolding find_ino encode
lookup_from-encode zero buf got off pre post es name r b o g small v short = absurd (omega arith)
lookup_from-encode (suc n) buf got off pre post [] name r b o g small v short =
    lookup_end n got off buf name (ground arith)
lookup_from-encode (suc n) buf got off pre post (e ∷ es) name r b o g small v short =
    let image_eq : buf ≡ pre ++ (encode_entry e ++ (encode es ++ post)) =
      b ∙ ap (λ t. pre ++ t) (append_assoc (encode_entry e) (encode es) post) in
    let len_eq : got ≡ off + (rec_len e + length (encode es)) =
      omega (arith, length-append {0} (encode_entry e) (encode es), length-encode_entry e) in
    let rest =
      lookup_from-encode n buf got (off + rec_len e) (pre ++ encode_entry e) post es name
        (omega arith) (b ∙ next_pre pre post e es)
        (omega (arith, length-append {0} pre (encode_entry e), length-encode_entry e)) (omega arith)
        small v.1 short in
    let next : u32 (off + rec_len e) ≡ off + rec_len e = omega arith in
    let step =
      lookup_step n got off buf name (rec_len e) (not (e.ino == 0) && same_bytes e.name name)
        {ino = e.ino} (ground arith)
        (rw (image_eq, o) (at_len pre (encode es ++ post) name e v.0 short)) (ground arith)
        (rw (image_eq, o) (entry_hit_lem pre (encode es ++ post) name e v.0 short))
        (rw (image_eq, o) (at_ino pre (encode es ++ post) name e v.0 short)) in
    step
    ∙ if_some (not (e.ino == 0) && same_bytes e.name name) e.ino
        (ap (λ t. lookup_from n buf got name t) next ∙ rest)
