-- ===== src/Ext2/Added.antt =====
-- The loop of `ext2_dir_add_entry`, and what a lookup finds afterwards.
use lxtos.Prelude.{
  ℕ, zero, suc, ◌+◌, ◌-◌, ◌%◌, ◌^◌, ◌<◌, ◌≡◌, refl, ap, sym, ◌∙◌, true, false, Option, none, some,
  List, [], ◌∷◌, ◌++◌, arith, length, leb, ◌==◌, ◌>>=◌, length-append, append_assoc, Bool-cases,
  inl, inr, leb→le,
}
use lxtos.KString.{CString}
use lxtos.Ext2.{u32, get_le}
use lxtos.Ext2.Entries.{entry_size, put_entry, add_from}
use lxtos.Ext2.Directory.{
  DirEntry, rec_len, encode_entry, encode, IsEntry, AllEntries, length-encode_entry, next_pre,
  at_len, at_name_len,
}
use lxtos.Ext2.Insert.{cut, fresh_entry, room_behind, insert_entry, put_entry_lem}

-- The buffer that the result of an insertion stands for.
abbrev pub image_of : List ℕ → List ℕ → Option (List DirEntry) → Option (List ℕ)
image_of pre post none = none
image_of pre post (some es) = some (pre ++ (encode es ++ post))

image_of-cons :
    (pre post : List ℕ) (e : DirEntry) (o : Option (List DirEntry))
    → image_of (pre ++ encode_entry e) post o ≡ image_of pre post (o >>= λ es. some (e ∷ es))
image_of-cons pre post e none = refl
image_of-cons pre post e (some es) = ap some (sym (next_pre pre post e es))

add_end :
    (n size off : ℕ) (buf : List ℕ) (child : ℕ) (name : CString) (kind : ℕ)
    → leb (u32 (off + 8)) size ≡ false
    → add_from (suc n) buf size child name kind off ≡ some none
unfolding add_from
add_end n size off buf child name kind h = rw (h, add_from)

-- One round, at an entry with its length, the length of its name and the room behind it.
module _ (n size off : ℕ) (buf : List ℕ) (child : ℕ) (name : CString) (kind len name_len left : ℕ)
    (more : leb (u32 (off + 8)) size ≡ true) (at : get_le buf (off + 4) 2 ≡ some len)
    (nz : (len == 0) ≡ false) (at_name : get_le buf (off + 6) 1 ≡ some name_len)
    (left_eq : (len + 2 ^ 16 - entry_size name_len) % 2 ^ 16 ≡ left) where
  add_fits :
      {b : List ℕ}
      → leb (entry_size (length name % 256)) left ≡ true
      → put_entry buf off (entry_size name_len) left child name kind ≡ some b
      → add_from (suc n) buf size child name kind off ≡ some (some b)
  unfolding add_from
  add_fits fits runs =
      rw (more, add_from, at, ◌>>=◌, nz, at_name, ◌>>=◌, left_eq, fits, left_eq, runs, ◌>>=◌)

  add_next :
      leb (entry_size (length name % 256)) left ≡ false
      → add_from (suc n) buf size child name kind off
        ≡ add_from n buf size child name kind (u32 (off + len))
  unfolding add_from
  add_next fits = rw (more, add_from, at, ◌>>=◌, nz, at_name, ◌>>=◌, left_eq, fits)

assoc_three : (xs ys zs ws : List ℕ) → xs ++ (ys ++ (zs ++ ws)) ≡ (xs ++ (ys ++ zs)) ++ ws
assoc_three xs ys zs ws =
    ap (λ t. xs ++ t) (sym (append_assoc ys zs ws)) ∙ sym (append_assoc xs (ys ++ zs) ws)

room_lem :
    (e : DirEntry)
    → IsEntry e
    → (rec_len e + 2 ^ 16 - entry_size (length e.name)) % 2 ^ 16 ≡ room_behind e
room_lem e v = omega (arith, v.room, v.len_fits)

-- In a buffer that holds the entries behind `pre`, the loop of `ext2_dir_add_entry` ends, and puts the new
-- entry into the room behind the first one that has enough.
pub add_from-encode :
    (rounds : ℕ) (buf : List ℕ) (size off : ℕ) (pre post : List ℕ) (es : List DirEntry) (child : ℕ)
    (name : CString) (kind : ℕ)
    → length es < rounds
    → buf ≡ pre ++ (encode es ++ post)
    → off ≡ length pre
    → size ≡ off + length (encode es)
    → size + 8 < 2 ^ 32
    → AllEntries es
    → length name < 256
    → add_from rounds buf size child name kind off
      ≡ some (image_of pre post (insert_entry child name kind es))
unfolding insert_entry encode
add_from-encode zero buf size off pre post es child name kind r b o g small v short =
    absurd (omega arith)
add_from-encode (suc n) buf size off pre post [] child name kind r b o g small v short =
    add_end n size off buf child name kind (ground arith)
add_from-encode (suc n) buf size off pre post (e ∷ es) child name kind r b o g small v short =
    let image_eq : buf ≡ pre ++ (encode_entry e ++ (encode es ++ post)) =
      b ∙ ap (λ t. pre ++ t) (append_assoc (encode_entry e) (encode es) post) in
    let len_eq : size ≡ off + (rec_len e + length (encode es)) =
      omega (arith, length-append {0} (encode_entry e) (encode es), length-encode_entry e) in
    let name_eq : length name % 256 ≡ length name = omega arith in
    let left_eq : (rec_len e + 2 ^ 16 - entry_size (length e.name)) % 2 ^ 16 ≡ room_behind e =
      room_lem e v.0 in
    let next : u32 (off + rec_len e) ≡ off + rec_len e = omega arith in
    let rest =
      add_from-encode n buf size (off + rec_len e) (pre ++ encode_entry e) post es child name kind
        (omega arith) (b ∙ next_pre pre post e es)
        (omega (arith, length-append {0} pre (encode_entry e), length-encode_entry e)) (omega arith)
        small v.1 short in
    let more : leb (u32 (off + 8)) size ≡ true = ground arith in
    let at : get_le buf (off + 4) 2 ≡ some (rec_len e) =
      rw (image_eq, o) (at_len pre (encode es ++ post) name e v.0 short) in
    let nz : (rec_len e == 0) ≡ false = ground arith in
    let at_name : get_le buf (off + 6) 1 ≡ some (length e.name) =
      rw (image_eq, o) (at_name_len pre (encode es ++ post) name e v.0 short) in
    elim (Bool-cases (leb (entry_size (length name)) (room_behind e))) [
      | inl q ↦
          add_fits n size off buf child name kind (rec_len e) (length e.name) (room_behind e) more
            at nz at_name left_eq (rw (name_eq, q))
            (rw (image_eq, o)
                (put_entry_lem e v.0 name child kind (leb→le _ _ q) pre (encode es ++ post) short)
              ∙ ap some (
                  ap (λ t. pre ++ t)
                    (assoc_three (encode_entry (cut e))
                      (encode_entry (fresh_entry child name kind e)) (encode es) post)))
          ∙ rw q
      | inr q ↦
          add_next n size off buf child name kind (rec_len e) (length e.name) (room_behind e) more
            at nz at_name left_eq (rw (name_eq, q))
          ∙ ap (λ t. add_from n buf size child name kind t) next
          ∙ rest
          ∙ ap some (image_of-cons pre post e (insert_entry child name kind es) ∙ rw q)
    ]
