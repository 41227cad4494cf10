-- ===== src/Tmpfs/Contents.antt =====
-- What a file of the memory file system holds, and the read and write that it promises.
use lxtos.Prelude.{
  ℕ, zero, suc, ◌+◌, ◌-◌, ◌≤◌, ◌≡◌, refl, ap, ◌∙◌, List, [], ◌∷◌, ◌++◌, arith, length, take, drop,
  replicate, length-append, length-replicate, drop_all, append-nil, take-append_left,
}
use lxtos.KString.Memory.{splice}
use lxtos.Fs.{TmpfsData}
use lxtos.Tmpfs.{bytes_of}

abbrev pub contents : TmpfsData → List ℕ
contents d = bytes_of d.buf

-- `buf_size` is the length of the buffer, and 0 without one.
abbrev pub IsWellSized : TmpfsData → Type 0
IsWellSized d = d.buf_size ≡ length (contents d)

-- A file extended by zeros to `n` bytes.
abbrev pub pad : List ℕ → ℕ → List ℕ
pad old n = old ++ replicate (n - length old) 0

-- At most `size` bytes from `offset` on.
abbrev pub read_at : List ℕ → ℕ → ℕ → List ℕ
read_at old offset size = take size (drop offset old)

-- `new` laid over the file from `offset` on, which grows as far as needed.
abbrev pub write_at : List ℕ → ℕ → List ℕ → List ℕ
write_at old offset new = splice (pad old (offset + length new)) offset new

pub length-pad : (old : List ℕ) (n : ℕ) → length old ≤ n → length (pad old n) ≡ n
length-pad old n h = omega (
  arith,
  length-append {0} old (replicate (n - length old) 0),
  length-replicate {A = ℕ} (n - length old) 0,
)

pub pad_covers : (old : List ℕ) (n : ℕ) → n ≤ length (pad old n)
pad_covers old n = omega (
  arith,
  length-append {0} old (replicate (n - length old) 0),
  length-replicate {A = ℕ} (n - length old) 0,
)

pub pad_short : (old : List ℕ) (n : ℕ) → n ≤ length old → pad old n ≡ old
pad_short old n h = let e : n - length old ≡ 0 = omega arith in rw (e, append-nil)

pub splice_whole {ℓ} :
    {A : Type ℓ} (old new : List A) → length new ≡ length old → splice old 0 new ≡ new
splice_whole old new h = rw (drop_all (length new) old (omega arith), append-nil)

drop-replicate : (k n v : ℕ) → drop k (replicate n v) ≡ replicate (n - k) v
drop-replicate zero n v = let e : n ≡ n - 0 = omega arith in ap (λ m. replicate m v) e
drop-replicate (suc k) zero v = let e : 0 ≡ 0 - suc k = omega arith in ap (λ m. replicate m v) e
drop-replicate (suc k) (suc n) v =
    let e : n - k ≡ suc n - suc k = omega arith in drop-replicate k n v ∙ ap (λ m. replicate m v) e

-- The old bytes copied to the front of a cleared buffer.
pub splice_zeros : (old : List ℕ) (n : ℕ) → splice (replicate n 0) 0 old ≡ pad old n
splice_zeros old n = ap (λ t. old ++ t) (drop-replicate (length old) n 0)

drop-splice {ℓ} :
    {A : Type ℓ} (old : List A) (d : ℕ) (new : List A)
    → d ≤ length old
    → drop d (splice old d new) ≡ new ++ drop (length new) (drop d old)
drop-splice old zero new h = refl
drop-splice [] (suc d) new h = absurd (omega arith)
drop-splice (x ∷ old) (suc d) new h = drop-splice old d new (omega arith)

-- Reading where one has just written gives back what was written.
pub read_at-write_at :
    (old : List ℕ) (offset : ℕ) (new : List ℕ)
    → read_at (write_at old offset new) offset (length new) ≡ new
read_at-write_at old offset new =
    rw
      (drop-splice (pad old (offset + length new)) offset new
        (omega (arith, pad_covers old (offset + length new))))
      (take-append_left (length new) new _ refl)
