-- ===== src/Ext2/Insert.antt =====
-- Adding a name to a directory of src/fs/ext2.c: the new entry takes the room behind another.
use lxtos.Prelude.{
  ℕ, zero, suc, ◌+◌, ◌-◌, ◌%◌, ◌≤◌, ◌<◌, ◌≡◌, refl, ap, sym, ◌∙◌, Option, none, some, List, [], ◌∷◌,
  ◌++◌, arith, length, take, drop, leb, ◌>>=◌, if◌then◌else◌, length-append, append_assoc,
  length-take, length-drop,
}
use lxtos.KString.Memory.{splice}
use lxtos.Ext2.{le_bytes}
use lxtos.Ext2.Bytes.{put_le-append_here, put_le-append_right, kmemcpy-append_right}
use lxtos.Ext2.Entries.{entry_size, put_new, put_entry}
use lxtos.Ext2.Directory.{DirEntry, rec_len, encode_entry, IsEntry, length-encode_entry}

-- The bytes of an entry's padding that its cut form keeps.
abbrev pub kept : DirEntry → ℕ
kept e = entry_size (length e.name) - 8 - length e.name

abbrev pub cut : DirEntry → DirEntry
cut e = record e { pad = take (kept e) e.pad }

-- The new entry in the room that `e` leaves.
abbrev pub fresh_entry : ℕ → List ℕ → ℕ → DirEntry → DirEntry
fresh_entry child name kind e = record {
  ino = child;
  kind = kind % 256;
  name = name;
  pad = drop (length name) (drop 8 (drop (kept e) e.pad));
}

abbrev pub room_behind : DirEntry → ℕ
room_behind e = rec_len e - entry_size (length e.name)

-- The entries with the new one behind the first that has room for it.
unfoldable pub insert_entry : ℕ → List ℕ → ℕ → List DirEntry → Option (List DirEntry)
insert_entry child name kind [] = none
insert_entry child name kind (e ∷ es) =
    if leb (entry_size (length name)) (room_behind e)
    then some (cut e ∷ fresh_entry child name kind e ∷ es)
    else (insert_entry child name kind es >>= λ es'. some (e ∷ es'))

-- Five writes behind `pre`, where there are eight bytes and room for the name.
put_new_lem :
    (pre room name : List ℕ) (left child kind : ℕ)
    → 8 + length name ≤ length room
    → length name < 256
    → put_new (pre ++ room) (length pre) left child name kind
      ≡ some (
          pre
          ++ (le_bytes 4 child
              ++ (le_bytes 2 left
                  ++ (length name ∷ (kind % 256) ∷ (name ++ drop (length name) (drop 8 room))))))
unfolding put_new le_bytes
put_new_lem pre (x0 ∷ x1 ∷ x2 ∷ x3 ∷ x4 ∷ x5 ∷ x6 ∷ x7 ∷ room) name left child kind h short =
    let b0 = x0 ∷ x1 ∷ x2 ∷ x3 ∷ x4 ∷ x5 ∷ x6 ∷ x7 ∷ room in
    let b1 = splice b0 0 (le_bytes 4 child) in
    let b2 = splice b1 4 (le_bytes 2 left) in
    let b3 = splice b2 6 (le_bytes 1 (length name)) in
    let b4 = splice b3 7 (le_bytes 1 kind) in
    let n : length name % 256 ≡ length name = omega arith in
    rw
      (
        put_le-append_here pre b0 4 child (omega arith),
        ◌>>=◌,
        put_le-append_right pre b1 4 2 left (omega arith),
        ◌>>=◌,
        put_le-append_right pre b2 6 1 (length name) (omega arith),
        ◌>>=◌,
        put_le-append_right pre b3 7 1 kind (omega arith),
        ◌>>=◌,
        kmemcpy-append_right pre b4 name 8 (length name % 256) (omega arith) n,
      )
      (rw n)
put_new_lem pre [] name left child kind h short = absurd (omega arith)
put_new_lem pre (x0 ∷ []) name left child kind h short = absurd (omega arith)
put_new_lem pre (x0 ∷ x1 ∷ []) name left child kind h short = absurd (omega arith)
put_new_lem pre (x0 ∷ x1 ∷ x2 ∷ []) name left child kind h short = absurd (omega arith)
put_new_lem pre (x0 ∷ x1 ∷ x2 ∷ x3 ∷ []) name left child kind h short = absurd (omega arith)
put_new_lem pre (x0 ∷ x1 ∷ x2 ∷ x3 ∷ x4 ∷ []) name left child kind h short = absurd (omega arith)
put_new_lem pre (x0 ∷ x1 ∷ x2 ∷ x3 ∷ x4 ∷ x5 ∷ []) name left child kind h short =
    absurd (omega arith)
put_new_lem pre (x0 ∷ x1 ∷ x2 ∷ x3 ∷ x4 ∷ x5 ∷ x6 ∷ []) name left child kind h short =
    absurd (omega arith)

drop-append_le : (n : ℕ) (xs ys : List ℕ) → n ≤ length xs → drop n (xs ++ ys) ≡ drop n xs ++ ys
drop-append_le zero xs ys h = refl
drop-append_le (suc n) [] ys h = absurd (omega arith)
drop-append_le (suc n) (x ∷ xs) ys h = drop-append_le n xs ys (omega arith)

take-drop : (n : ℕ) (xs : List ℕ) → xs ≡ take n xs ++ drop n xs
take-drop zero xs = refl
take-drop (suc n) [] = refl
take-drop (suc n) (x ∷ xs) = ap (λ t. x ∷ t) (take-drop n xs)

module _ (e : DirEntry) (v : IsEntry e) where
  pub rec_len-cut : rec_len (cut e) ≡ entry_size (length e.name)
  rec_len-cut = omega (arith, length-take {0} (kept e) e.pad, v.room)

  module _ (name : List ℕ) (child kind : ℕ) (fits : entry_size (length name) ≤ room_behind e) where
    pub rec_len-fresh : rec_len (fresh_entry child name kind e) ≡ room_behind e
    rec_len-fresh = omega (
      arith,
      length-drop {0} (length name) (drop 8 (drop (kept e) e.pad)),
      length-drop {0} 8 (drop (kept e) e.pad),
      length-drop {0} (kept e) e.pad,
      v.room,
    )

    -- The entry with its length changed, split where the new one starts.
    cut_image :
        (pre post : List ℕ)
        → pre ++ splice (encode_entry e ++ post) 4 (le_bytes 2 (entry_size (length e.name)))
          ≡ (pre ++ encode_entry (cut e)) ++ (drop (kept e) e.pad ++ post)
    unfolding encode_entry le_bytes
    cut_image pre post =
        let image = λ (m : ℕ) (t : List ℕ).
          pre ++ (le_bytes 4 e.ino ++ (le_bytes 2 m ++ (length e.name ∷ e.kind ∷ t))) in
        let kept_pad = take (kept e) e.pad in
        let rest = drop (kept e) e.pad in
        let tail : (e.name ++ e.pad) ++ post ≡ (e.name ++ kept_pad) ++ (rest ++ post) =
          ap (λ t. t ++ post)
            (ap (λ t. e.name ++ t) (take-drop (kept e) e.pad)
              ∙ sym (append_assoc e.name kept_pad rest))
          ∙ append_assoc (e.name ++ kept_pad) rest post in
        ap (image (entry_size (length e.name))) tail
        ∙ ap (λ m. image m ((e.name ++ kept_pad) ++ (rest ++ post))) (sym rec_len-cut)
        ∙ sym (append_assoc pre (encode_entry (cut e)) (rest ++ post))

    fresh_image :
        (post : List ℕ)
        → le_bytes 4 child
            ++ (le_bytes 2 (room_behind e)
                ++ (length name
                    ∷ (kind % 256)
                    ∷ (name ++ drop (length name) (drop 8 (drop (kept e) e.pad ++ post)))))
          ≡ encode_entry (fresh_entry child name kind e) ++ post
    unfolding encode_entry le_bytes
    fresh_image post =
        let image = λ (m : ℕ) (t : List ℕ).
          le_bytes 4 child ++ (le_bytes 2 m ++ (length name ∷ (kind % 256) ∷ t)) in
        let room = drop (kept e) e.pad in
        let long : 8 + length name ≤ length room =
          omega (arith, length-drop {0} (kept e) e.pad, v.room) in
        let tail : name ++ drop (length name) (drop 8 (room ++ post))
            ≡ (name ++ drop (length name) (drop 8 room)) ++ post =
          ap (λ t. name ++ t)
            (ap (drop (length name)) (drop-append_le 8 room post (omega arith))
              ∙ drop-append_le (length name) (drop 8 room) post
                  (omega (arith, length-drop {0} 8 room)))
          ∙ sym (append_assoc name (drop (length name) (drop 8 room)) post) in
        ap (image (room_behind e)) tail
        ∙ ap (λ m. image m ((name ++ drop (length name) (drop 8 room)) ++ post)) (sym rec_len-fresh)

    pub put_entry_lem :
        (pre post : List ℕ)
        → length name < 256
        → put_entry
            (pre ++ (encode_entry e ++ post))
            (length pre)
            (entry_size (length e.name))
            (room_behind e)
            child
            name
            kind
          ≡ some (
              pre
              ++ (encode_entry (cut e) ++ (encode_entry (fresh_entry child name kind e) ++ post)))
    unfolding put_entry
    put_entry_lem pre post short =
        let room = drop (kept e) e.pad in
        let long : 8 + length name ≤ length (room ++ post) =
          omega (arith, length-append {0} room post, length-drop {0} (kept e) e.pad, v.room) in
        let at : length pre + entry_size (length e.name) ≡ length (pre ++ encode_entry (cut e)) =
          omega (
            arith,
            length-append {0} pre (encode_entry (cut e)),
            length-encode_entry (cut e),
            rec_len-cut,
          ) in
        let four : 4 + 2 ≤ length (encode_entry e ++ post) =
          omega (arith, length-append {0} (encode_entry e) post, length-encode_entry e) in
        rw (
          put_le-append_right pre (encode_entry e ++ post) 4 2 (entry_size (length e.name)) four,
          ◌>>=◌,
          cut_image pre post,
          at,
          put_new_lem (pre ++ encode_entry (cut e)) (room ++ post) name (room_behind e) child kind
              long short,
          fresh_image post,
          append_assoc pre (encode_entry (cut e))
              (encode_entry (fresh_entry child name kind e) ++ post),
        )
