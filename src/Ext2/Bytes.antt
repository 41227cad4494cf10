-- ===== src/Ext2/Bytes.antt =====
-- Reading and writing fields of the structures of src/fs/ext2.c.
use lxtos.Prelude.{
  ℕ, zero, suc, ◌+◌, ◌/◌, ◌^◌, ◌≤◌, ◌<◌, ◌≡◌, refl, ap, sym, ◌∙◌, some, List, [], ◌∷◌, ◌++◌, arith,
  length, take, drop, length-append, drop-append_left, take_all,
}
use lxtos.KString.{kmemcpy}
use lxtos.KString.Slices.{slice-append_right, slice_at}
use lxtos.KString.Memory.{splice, kmemcpy-splice}
use lxtos.Ext2.{le_value, le_bytes, get_le, put_le}

pub length-le_bytes : (width v : ℕ) → length (le_bytes width v) ≡ width
unfolding le_bytes
length-le_bytes zero v = refl
length-le_bytes (suc width) v = ap suc (length-le_bytes width (v / 256))

pub get_le-append_right :
    (pre buf : List ℕ) (off width : ℕ)
    → get_le (pre ++ buf) (length pre + off) width ≡ get_le buf off width
unfolding get_le
get_le-append_right pre buf off width = rw (slice-append_right pre buf off width, get_le)

splice_middle :
    (pre old post new : List ℕ)
    → length new ≡ length old
    → splice (pre ++ (old ++ post)) (length pre) new ≡ pre ++ (new ++ post)
splice_middle [] old post new e = ap (λ t. new ++ t) (drop-append_left (length new) old post e)
splice_middle (x ∷ pre) old post new e = ap (λ t. x ∷ t) (splice_middle pre old post new e)

-- A field is written over as many bytes.
pub put_le_middle :
    (pre old post : List ℕ) (width v : ℕ)
    → length old ≡ width
    → put_le (pre ++ (old ++ post)) (length pre) width v ≡ some (pre ++ (le_bytes width v ++ post))
unfolding put_le
put_le_middle pre old post width v e =
    kmemcpy-splice (pre ++ (old ++ post)) (length pre) (le_bytes width v) 0 width
      (omega (arith, length-append {0} pre (old ++ post), length-append {0} old post))
      (omega (arith, length-le_bytes width v))
    ∙ ap some (
        ap (λ t. splice (pre ++ (old ++ post)) (length pre) t)
          (take_all width (le_bytes width v) (omega (arith, length-le_bytes width v)))
        ∙ splice_middle pre old post (le_bytes width v) (omega (arith, length-le_bytes width v)))

-- A number of 32, 16 or 8 bits comes back from its bytes.
pub le_value-le_bytes4 : (v : ℕ) → v < 2 ^ 32 → le_value (le_bytes 4 v) ≡ v
unfolding le_value le_bytes
le_value-le_bytes4 v h = omega arith

pub le_value-le_bytes2 : (v : ℕ) → v < 2 ^ 16 → le_value (le_bytes 2 v) ≡ v
unfolding le_value le_bytes
le_value-le_bytes2 v h = omega arith

-- A field whose bytes are known.
pub get_le_at :
    (buf : List ℕ) (off width : ℕ) (bs : List ℕ)
    → off + width ≤ length buf
    → take width (drop off buf) ≡ bs
    → get_le buf off width ≡ some (le_value bs)
unfolding get_le
get_le_at buf off width bs h e = rw (slice_at buf off width h, get_le, e)

pub splice-append_right :
    (pre buf new : List ℕ) (k : ℕ)
    → splice (pre ++ buf) (length pre + k) new ≡ pre ++ splice buf k new
splice-append_right [] buf new k =
    let e : zero + k ≡ k = omega arith in ap (λ n. splice buf n new) e
splice-append_right (x ∷ pre) buf new k =
    let e : suc (length pre) + k ≡ suc (length pre + k) = omega arith in
    ap (λ n. splice (x ∷ (pre ++ buf)) n new) e
    ∙ ap (λ t. x ∷ t) (splice-append_right pre buf new k)

-- A copy, and a field, behind `pre`.
pub kmemcpy-append_right :
    (pre buf src : List ℕ) (k n : ℕ)
    → k + n ≤ length buf
    → n ≡ length src
    → kmemcpy (pre ++ buf) (length pre + k) src 0 n ≡ some (pre ++ splice buf k src)
kmemcpy-append_right pre buf src k n h e =
    kmemcpy-splice (pre ++ buf) (length pre + k) src 0 n (omega (arith, length-append {0} pre buf))
      (omega arith)
    ∙ ap some (
        ap (λ t. splice (pre ++ buf) (length pre + k) t) (take_all n src (omega arith))
        ∙ splice-append_right pre buf src k)

pub put_le-append_right :
    (pre buf : List ℕ) (k width v : ℕ)
    → k + width ≤ length buf
    → put_le (pre ++ buf) (length pre + k) width v ≡ some (pre ++ splice buf k (le_bytes width v))
unfolding put_le
put_le-append_right pre buf k width v h =
    kmemcpy-append_right pre buf (le_bytes width v) k width h (sym (length-le_bytes width v))

pub put_le-append_here :
    (pre buf : List ℕ) (width v : ℕ)
    → width ≤ length buf
    → put_le (pre ++ buf) (length pre) width v ≡ some (pre ++ splice buf 0 (le_bytes width v))
put_le-append_here pre buf width v h =
    let e : length pre ≡ length pre + 0 = omega arith in
    ap (λ o. put_le (pre ++ buf) o width v) e ∙ put_le-append_right pre buf 0 width v (omega arith)
