-- ===== src/KString/Slices.antt =====
-- A stretch of bytes behind others.
use lxtos.Prelude.{
  ℕ, zero, suc, ◌+◌, ◌≤◌, ◌≡◌, ap, ◌∙◌, true, some, List, [], ◌∷◌, ◌++◌, arith, length, take, drop,
  leb, length-append, drop-nil, length-drop, take-append_left,
}
use lxtos.KString.{slice}

pub drop-append_right : (pre buf : List ℕ) (k : ℕ) → drop (length pre + k) (pre ++ buf) ≡ drop k buf
drop-append_right [] buf k = let e : zero + k ≡ k = omega arith in ap (λ n. drop n buf) e
drop-append_right (x ∷ pre) buf k =
    let e : suc (length pre) + k ≡ suc (length pre + k) = omega arith in
    ap (λ n. drop n (x ∷ (pre ++ buf))) e ∙ drop-append_right pre buf k

pub drop-drop : (n m : ℕ) (xs : List ℕ) → drop n (drop m xs) ≡ drop (m + n) xs
drop-drop n zero xs = let e : n ≡ zero + n = omega arith in ap (λ k. drop k xs) e
drop-drop n (suc m) [] = rw (drop-nil ℕ n, drop-nil ℕ (suc m + n))
drop-drop n (suc m) (x ∷ xs) =
    let e : suc (m + n) ≡ suc m + n = omega arith in drop-drop n m xs ∙ ap (λ k. drop k (x ∷ xs)) e

-- What stands behind `pre` is read as if it stood alone.
pub slice-append_right :
    (pre buf : List ℕ) (off n : ℕ) → slice (pre ++ buf) (length pre + off) n ≡ slice buf off n
unfolding slice
slice-append_right pre buf off n =
    let same : leb (length pre + off + n) (length (pre ++ buf)) ≡ leb (off + n) (length buf) =
      ground (arith, length-append {0} pre buf) in
    rw (same, drop-append_right pre buf off)

pub slice_at :
    (buf : List ℕ) (off n : ℕ)
    → off + n ≤ length buf
    → slice buf off n ≡ some (take n (drop off buf))
unfolding slice
slice_at buf off n h = let fits : leb (off + n) (length buf) ≡ true = ground arith in rw fits

-- The end of a buffer, read as if it stood alone.
pub slice-drop :
    (buf : List ℕ) (off k n : ℕ)
    → off ≤ length buf
    → slice buf (off + k) n ≡ slice (drop off buf) k n
unfolding slice
slice-drop buf off k n h =
    let same : leb (off + k + n) (length buf) ≡ leb (k + n) (length (drop off buf)) =
      ground (arith, length-drop off buf) in
    rw (same, drop-drop k off buf)

pub slice_skip :
    (xs ys : List ℕ) (off n k : ℕ) → off ≡ length xs + k → slice (xs ++ ys) off n ≡ slice ys k n
slice_skip xs ys off n k e = ap (λ o. slice (xs ++ ys) o n) e ∙ slice-append_right xs ys k n

pub slice_head : (xs ys : List ℕ) (n : ℕ) → n ≡ length xs → slice (xs ++ ys) 0 n ≡ some xs
slice_head xs ys n e =
    slice_at (xs ++ ys) 0 n (omega (arith, length-append {0} xs ys))
    ∙ ap some (take-append_left n xs ys e)

pub drop_skip : (xs ys : List ℕ) (off k : ℕ) → off ≡ length xs + k → drop off (xs ++ ys) ≡ drop k ys
drop_skip xs ys off k e = ap (λ o. drop o (xs ++ ys)) e ∙ drop-append_right xs ys k
