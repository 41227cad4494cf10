-- ===== src/Ext2/Found.antt =====
-- A name that `ext2_dir_add_entry` has added is found, and every other name leads where it did.
use lxtos.Prelude.{
  ℕ, ◌+◌, ◌^◌, ◌≤◌, ◌<◌, ◌≡◌, ◌≢◌, refl, ap, ap₂, subst, sym, ◌∙◌, true, false, not, ◌&&◌, none,
  some, List, [], ◌∷◌, ◌++◌, arith, length, leb, ◌==◌, if◌then◌else◌, length-append, append-nil,
  Bool-cases, Option-cases, inl, inr, ◌⊎◌, none-some, some-inj, leb→le,
}
use lxtos.KString.{CString}
use lxtos.Ext2.Entries.{entry_size, add_from, lookup_from}
use lxtos.Ext2.Directory.{
  DirEntry, rec_len, encode_entry, encode, IsEntry, AllEntries, same_bytes, find_ino,
  length-encode_entry, lookup_from-encode,
}
use lxtos.Ext2.Insert.{cut, fresh_entry, room_behind, insert_entry, rec_len-cut, rec_len-fresh}
use lxtos.Ext2.Added.{image_of, add_from-encode}

pub same_bytes_refl : (xs : List ℕ) → same_bytes xs xs ≡ true
unfolding same_bytes
same_bytes_refl [] = refl
same_bytes_refl (x ∷ xs) = ground (arith, same_bytes_refl xs)

pub same_bytes-eq : (xs ys : List ℕ) → same_bytes xs ys ≡ true → xs ≡ ys
unfolding same_bytes
same_bytes-eq [] [] h = refl
same_bytes-eq [] (y ∷ ys) h = ground arith
same_bytes-eq (x ∷ xs) [] h = ground arith
same_bytes-eq (x ∷ xs) (y ∷ ys) h =
    ap₂ (λ a l. a ∷ l) (ground arith) (same_bytes-eq xs ys (ground arith))

same_bytes_ne : (xs ys : List ℕ) → xs ≢ ys → same_bytes xs ys ≡ false
same_bytes_ne xs ys h = elim (Bool-cases (same_bytes xs ys)) [
  | inl q ↦ absurd (h (same_bytes-eq xs ys q))
  | inr q ↦ q
]

-- What an insertion does to the directory.
record Inserted (es es' : List DirEntry) (name : List ℕ) (child : ℕ) : Type 0 where
  entries : AllEntries es'
  same_size : length (encode es') ≡ length (encode es)
  found : find_ino es name ≡ 0 → find_ino es' name ≡ child
  others : (other : List ℕ) → name ≢ other → find_ino es' other ≡ find_ino es other

length-le-encode : (es : List DirEntry) → length es ≤ length (encode es)
unfolding encode
length-le-encode [] = omega arith
length-le-encode (e ∷ es) = omega (
  arith,
  length-append {0} (encode_entry e) (encode es),
  length-encode_entry e,
  length-le-encode es,
)

-- The lookup of the whole buffer.
lookup_whole :
    (es : List DirEntry) (size : ℕ) (other : List ℕ)
    → AllEntries es
    → size ≡ length (encode es)
    → size + 8 < 2 ^ 32
    → length other < 256
    → lookup_from (size + 1) (encode es) size other 0 ≡ some (find_ino es other)
lookup_whole es size other v e below o =
    lookup_from-encode (size + 1) (encode es) size 0 [] [] es other
      (omega (arith, length-le-encode es)) (sym (append-nil (encode es))) refl (omega arith) below v
      o

module _ (child : ℕ) (name : List ℕ) (kind : ℕ) (nonzero : child ≢ 0) (small : child < 2 ^ 32)
    (short : length name < 256) where
  here-Inserted :
      (e : DirEntry) (es : List DirEntry)
      → IsEntry e
      → AllEntries es
      → entry_size (length name) ≤ room_behind e
      → Inserted (e ∷ es) (cut e ∷ fresh_entry child name kind e ∷ es) name child
  unfolding find_ino encode
  here-Inserted e es v vs fits =
      let cut_len = rec_len-cut e v in
      let fresh_len = rec_len-fresh e v name child kind fits in
      let used : (child == 0) ≡ false = ground arith in
      record {
        entries = (
          record {
            ino_fits = v.ino_fits;
            name_fits = v.name_fits;
            len_fits = omega (arith, cut_len, v.len_fits, v.room);
            room = omega (arith, cut_len);
          },
          (
            record {
              ino_fits = small;
              name_fits = short;
              len_fits = omega (arith, fresh_len, v.len_fits);
              room = omega (arith, fresh_len);
            },
            vs,
          ),
        );
        same_size = omega (
          arith,
          length-append {0} (encode_entry (cut e))
              (encode_entry (fresh_entry child name kind e) ++ encode es),
          length-append {0} (encode_entry (fresh_entry child name kind e)) (encode es),
          length-append {0} (encode_entry e) (encode es),
          length-encode_entry e,
          length-encode_entry (cut e),
          length-encode_entry (fresh_entry child name kind e),
          cut_len,
          fresh_len,
          v.room,
        );
        found = λ absent. elim (Bool-cases (not (e.ino == 0) && same_bytes e.name name)) [
          | inl q ↦ absurd (ground arith)
          | inr q ↦ rw (q, used, same_bytes_refl name)
        ];
        others = λ other ne. rw (used, same_bytes_ne name other ne);
      }

  insert_entry-Inserted :
      (es es' : List DirEntry)
      → AllEntries es
      → insert_entry child name kind es ≡ some es'
      → Inserted es es' name child
  unfolding insert_entry find_ino encode
  insert_entry-Inserted [] es' v runs = absurd (none-some runs)
  insert_entry-Inserted (e ∷ es) es' v runs =
      elim (Bool-cases (leb (entry_size (length name)) (room_behind e))) [
        | inl q ↦
            subst (λ l. Inserted (e ∷ es) l name child) (some-inj (rw q at runs))
              (here-Inserted e es v.0 v.1 (leb→le _ _ q))
        | inr q ↦ elim (Option-cases (insert_entry child name kind es)) [
          | inl z ↦ absurd (none-some (rw (q, z) at runs))
          | inr (rest, z) ↦
              let i = insert_entry-Inserted es rest v.1 z in
              subst (λ l. Inserted (e ∷ es) l name child) (some-inj (rw (q, z) at runs))
                (record {
                  entries = (v.0, i.entries);
                  same_size = omega (
                    arith,
                    length-append {0} (encode_entry e) (encode rest),
                    length-append {0} (encode_entry e) (encode es),
                    i.same_size,
                  );
                  found = λ absent. elim (Bool-cases (not (e.ino == 0) && same_bytes e.name name)) [
                    | inl t ↦ absurd (ground arith)
                    | inr t ↦ rw t (i.found (rw t at absent))
                  ];
                  others = λ other ne.
                      ap
                        (λ (n : ℕ).
                          if not (e.ino == 0) && same_bytes e.name other then e.ino else n)
                        (i.others other ne);
                })
        ]
      ]

-- No entry leaves as many bytes behind its name as an entry with a name of `n` bytes takes.
abbrev pub NoRoom : ℕ → List DirEntry → Type 0
NoRoom n [] = Unit {0}
NoRoom n (e ∷ es) = (rec_len e < entry_size (length e.name) + entry_size n) × NoRoom n es

insert_entry-NoRoom :
    (child : ℕ) (name : List ℕ) (kind : ℕ) (es : List DirEntry)
    → insert_entry child name kind es ≡ none
    → NoRoom (length name) es
unfolding insert_entry
insert_entry-NoRoom child name kind [] h = tt
insert_entry-NoRoom child name kind (e ∷ es) h =
    elim (Bool-cases (leb (entry_size (length name)) (room_behind e))) [
      | inl q ↦ absurd (none-some (sym (rw q at h)))
      | inr q ↦ elim (Option-cases (insert_entry child name kind es)) [
        | inl z ↦ (ground arith, insert_entry-NoRoom child name kind es z)
        | inr (es', z) ↦ absurd (none-some (sym (rw (q, z) at h)))
      ]
    ]

-- In the buffer of a well-formed directory, adding a name of at most 255 bytes that it does not hold ends:
-- either no entry leaves room for the new one behind its name, and nothing is added, or the buffer keeps its
-- length, a lookup of the name ends with the new inode, and a lookup of any other name of at most 255 bytes
-- ends with what it found before.
pub lookup_from-add_from :
    (es : List DirEntry) (size child : ℕ) (name : CString) (kind : ℕ)
    → AllEntries es
    → size ≡ length (encode es)
    → size + 8 < 2 ^ 32
    → length name < 256
    → child ≢ 0
    → child < 2 ^ 32
    → lookup_from (size + 1) (encode es) size name 0 ≡ some 0
    → (NoRoom (length name) es
        × (add_from (size + 1) (encode es) size child name kind 0 ≡ some none))
      ⊎ ((buf : List ℕ) × (add_from (size + 1) (encode es) size child name kind 0 ≡ some (some buf))
          × (length buf ≡ size)
          × (lookup_from (size + 1) buf size name 0 ≡ some child)
          × ((other : CString)
              → length other < 256
              → name ≢ other
              → lookup_from (size + 1) buf size other 0
                ≡ lookup_from (size + 1) (encode es) size other 0))
lookup_from-add_from es size child name kind v e below short nonzero small absent =
    let adds =
      add_from-encode (size + 1) (encode es) size 0 [] [] es child name kind
        (omega (arith, length-le-encode es)) (sym (append-nil (encode es))) refl (omega arith) below
        v short in
    elim (Option-cases (insert_entry child name kind es)) [
      | inl q ↦
          inl (insert_entry-NoRoom child name kind es q, adds ∙ ap (λ o. some (image_of [] [] o)) q)
      | inr (es', q) ↦
          let i = insert_entry-Inserted child name kind nonzero small short es es' v q in
          let size' : size ≡ length (encode es') = omega (arith, i.same_size) in
          inr (
            encode es',
            adds
                ∙ ap (λ o. some (image_of [] [] o)) q
                ∙ ap (λ l. some (some l)) (append-nil (encode es')),
            sym size',
            lookup_whole es' size name i.entries size' below short
                ∙ ap some
                    (i.found (some-inj (sym (lookup_whole es size name v e below short) ∙ absent))),
            λ other o ne.
                lookup_whole es' size other i.entries size' below o
                ∙ ap some (i.others other ne)
                ∙ sym (lookup_whole es size other v e below o),
          )
    ]
