-- ===== src/Tmpfs/ReadBack.antt =====
-- What `tmpfs_write` has written, `tmpfs_read` returns.
use lxtos.Prelude.{
  ℕ, ◌+◌, ◌-◌, ◌<◌, ◌≡◌, ◌^◌, ap, subst, sym, ◌∙◌, some, List, arith, length, replicate,
  length-append, length-replicate, Option, inl, inr,
}
use lxtos.Prelude.Int.{ℤ, pos}
use lxtos.KString.Memory.{length-splice}
use lxtos.Fs.{TmpfsData, Ptr, Node, State, minus_one}
use lxtos.Tmpfs.{tmpfs_write, tmpfs_read}
use lxtos.Tmpfs.Contents.{contents, read_at, write_at, pad, pad_covers, read_at-write_at}
use lxtos.Tmpfs.Grow.{IsFile}
use lxtos.Tmpfs.Copy.{Wrote, resized, resized_node}
use lxtos.Tmpfs.Write.{tmpfs_write_lem}
use lxtos.Tmpfs.Read.{tmpfs_read_lem}

length-write_at :
    (old src : List ℕ) (offset : ℕ)
    → length old < 2 ^ 63
    → offset + length src < 2 ^ 63
    → length (write_at old offset src) < 2 ^ 63
length-write_at old src offset h k = omega (
  arith,
  length-splice (pad old (offset + length src)) offset src (pad_covers old (offset + length src)),
  length-append {0} old (replicate (offset + length src - length old) 0),
  length-replicate {A = ℕ} (offset + length src - length old) 0,
)

same_state :
    {a b : ℤ} {s s' : State} → ◌≡◌ {A = Option (ℤ × State)} (some (a, s)) (some (b, s')) → s ≡ s'
same_state e = cc

not_failed :
    {k : ℕ} {s s' : State}
    → ◌≡◌ {A = Option (ℤ × State)} (some (minus_one, s)) (some (pos k, s'))
    → ⊥
not_failed e = cc

read_back :
    (s s' : State) (p : Ptr) (n : Node) (d : TmpfsData) (src : List ℕ) (offset : ℕ)
    → Wrote s p n d offset src s'
    → length (contents d) < 2 ^ 63
    → offset + length src < 2 ^ 63
    → tmpfs_read p offset (length src) s' ≡ some ((pos (length src), src), s')
read_back s s' p n d src offset w h k =
    let new = resized d w.buf w.buf_size in
    let node = resized_node n d w.buf w.buf_size w.size in
    let back : read_at (contents new) offset (length src) ≡ src =
      rw w.result (read_at-write_at (contents d) offset src) in
    let small : w.buf_size < 2 ^ 63 =
      omega
        (arith, w.file.sized, ap length w.result, length-write_at (contents d) src offset h k) in
    tmpfs_read_lem s' p node new offset (length src) w.file.at_p w.file.is_tmpfs w.file.sized small
    ∙ ap (λ l. some ((pos (length l), l), s')) back

-- What a successful write of `src` has written, a read of as many bytes at the same offset returns,
-- and the read changes nothing.
pub tmpfs_read-write :
    (s s' : State) (p : Ptr) (n : Node) (d : TmpfsData) (src : List ℕ) (offset : ℕ)
    → IsFile s p n d
    → offset + length src < 2 ^ 63
    → d.buf_size < 2 ^ 63
    → tmpfs_write p src offset (length src) s ≡ some (pos (length src), s')
    → tmpfs_read p offset (length src) s' ≡ some ((pos (length src), src), s')
tmpfs_read-write s s' p n d src offset f small below runs =
    elim (tmpfs_write_lem s p n d src offset f small) [
      | inl (more, full, e) ↦ absurd (not_failed (sym e ∙ runs))
      | inr (t, e, w) ↦
          subst (λ u. tmpfs_read p offset (length src) u ≡ some ((pos (length src), src), u))
            (same_state (sym e ∙ runs))
            (read_back s t p n d src offset w (omega (arith, f.sized)) small)
    ]
