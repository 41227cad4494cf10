-- ===== src/Tmpfs/Read.antt =====
-- `tmpfs_read` returns the bytes of the file that the range holds.
use lxtos.Prelude.{
  ℕ, ◌+◌, ◌-◌, ◌≤◌, ◌<◌, ◌≡◌, ◌^◌, refl, ap, ap₂, sym, ◌∙◌, some, none, List, arith, length, take,
  drop, replicate, length-replicate, length-take, length-drop, take_all, ltb, leb, if◌then◌else◌,
  Option, drop_all, drop-nil, take-nil, Bool-cases, inl, inr, leb→le, false,
}
use lxtos.Prelude.Int.{pos}
use lxtos.KString.{kmemcpy}
use lxtos.KString.Memory.{kmemcpy-splice}
use lxtos.Fs.{TmpfsData, Ptr, Node, State, Buffer, tmpfs, signed64, ◌>>=◌}
use lxtos.Fs.Store.{NodeAt, load_lem}
use lxtos.Tmpfs.{bytes_of, read_buf, tmpfs_of, tmpfs_read}
use lxtos.Tmpfs.Contents.{contents, IsWellSized, read_at, splice_whole}

-- The loop's copy of `n` bytes within the buffer.
copy_out :
    (src : List ℕ) (offset n : ℕ)
    → offset + n ≤ length src
    → kmemcpy (replicate n 0) 0 src offset n ≡ some (take n (drop offset src))
copy_out src offset n h =
    kmemcpy-splice (replicate n 0) 0 src offset n (omega (arith, length-replicate {A = ℕ} n 0)) h
    ∙ ap some (
        splice_whole (replicate n 0) (take n (drop offset src)) (
          omega (
            arith,
            length-take {0} n (drop offset src),
            length-drop {0} offset src,
            length-replicate {A = ℕ} n 0,
          )))

take_min {ℓ} : {A : Type ℓ} (n m : ℕ) (xs : List A) → length xs ≡ m → m ≤ n → take m xs ≡ take n xs
take_min n m xs e h = take_all m xs (omega arith) ∙ sym (take_all n xs (omega arith))

read_buf-copy :
    (b : Buffer) (offset size n : ℕ)
    → n ≡ (if ltb size (length b.bytes - offset) then size else length b.bytes - offset)
    → offset < length b.bytes
    → length b.bytes < 2 ^ 63
    → read_buf (some b) (length b.bytes) offset size ≡ some (pos n, take n (drop offset b.bytes))
unfolding read_buf
read_buf-copy b offset size n e inside small =
    let past : leb (length b.bytes) offset ≡ false = ground arith in
    let fits : offset + n ≤ length b.bytes = ground arith in
    let signed : signed64 n ≡ pos n = ground arith in
    rw (past, ← e, copy_out b.bytes offset n fits)
      (ap (λ k. some (k, take n (drop offset b.bytes))) (ap signed64 (sym e) ∙ signed))

-- The count of the loop is that of the bytes there are.
read_count :
    (xs : List ℕ) (size n : ℕ)
    → n ≡ (if ltb size (length xs) then size else length xs)
    → (n ≡ length (take size xs)) × (take n xs ≡ take size xs)
read_count xs size n e = elim (Bool-cases (ltb size (length xs))) [
  | inl q ↦ let same : n ≡ size = ground arith in (ground (arith, length-take {0} size xs), rw same)
  | inr q ↦
      let all : n ≡ length xs = ground arith in
      (ground (arith, length-take {0} size xs), take_min size n xs (omega arith) (ground arith))
]

read_buf_lem :
    (buf : Option Buffer) (offset size : ℕ)
    → length (bytes_of buf) < 2 ^ 63
    → read_buf buf (length (bytes_of buf)) offset size
      ≡ some (pos (length (read_at (bytes_of buf) offset size)), read_at (bytes_of buf) offset size)
unfolding read_buf
read_buf_lem none offset size small = rw (drop-nil ℕ offset, take-nil ℕ size)
read_buf_lem (some b) offset size small = elim (Bool-cases (leb (length b.bytes) offset)) [
  | inl q ↦ rw (q, drop_all offset b.bytes (leb→le _ _ q), take-nil ℕ size)
  | inr q ↦
      let n : ℕ = if ltb size (length b.bytes - offset) then size else length b.bytes - offset in
      let c = read_count (drop offset b.bytes) size n (rw (length-drop offset b.bytes)) in
      read_buf-copy b offset size n refl (ground arith) small ∙ ap₂ (λ k l. some (pos k, l)) c.0 c.1
]

pub tmpfs_of_lem : (n : Node) {d : TmpfsData} → n.fs_data ≡ tmpfs d → tmpfs_of n ≡ some d
unfolding tmpfs_of
tmpfs_of_lem n e = rw (e, tmpfs_of)

-- `tmpfs_read` of a file, wherever it starts and however much it asks for, does not fault, changes
-- nothing, and returns the bytes of the file in that range with their number.
pub tmpfs_read_lem :
    (s : State) (p : Ptr) (n : Node) (d : TmpfsData) (offset size : ℕ)
    → NodeAt s p n
    → n.fs_data ≡ tmpfs d
    → IsWellSized d
    → d.buf_size < 2 ^ 63
    → tmpfs_read p offset size s
      ≡ some
          ((pos (length (read_at (contents d) offset size)), read_at (contents d) offset size), s)
unfolding tmpfs_read
tmpfs_read_lem s p n d offset size at_p is_tmpfs w small =
    let runs : read_buf d.buf d.buf_size offset size
        ≡ some (pos (length (read_at (contents d) offset size)), read_at (contents d) offset size) =
      rw w (read_buf_lem d.buf offset size (omega (arith, w))) in
    rw (load_lem s p at_p, ◌>>=◌, tmpfs_of_lem n is_tmpfs, ◌>>=◌, runs)
