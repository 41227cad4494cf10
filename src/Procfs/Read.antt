-- ===== src/Procfs/Read.antt =====
-- Reading a file of src/fs/procfs.c.
use lxtos.Prelude.{
  ℕ, ◌-◌, ◌≤◌, ◌≡◌, ap, ap₂, sym, ◌∙◌, some, arith, length, take, drop, length-take, length-drop,
  take_all, drop_all, take-nil, ltb, leb, Option, Bool-cases, inl, inr, leb→le, false,
}
use lxtos.Prelude.Int.{pos}
use lxtos.KString.{CString}
use lxtos.Fs.{Ptr, Node, State, ProcFn, proc_file, ◌>>=◌}
use lxtos.Fs.Store.{NodeAt, load_lem}
use lxtos.Tmpfs.Contents.{read_at}
use lxtos.Procfs.{Registers, proc_text, read_text, proc_fn_of, procfs_read}
use lxtos.Procfs.Texts.{proc_text-bound}

read_text_lem :
    (text : CString) (offset size : ℕ)
    → length text ≤ 4096
    → read_text text offset size
      ≡ some (pos (length (read_at text offset size)), read_at text offset size)
unfolding read_text
read_text_lem text offset size h =
    let fits : ltb 4096 (length text) ≡ false = ground arith in
    elim (Bool-cases (leb (length text) offset)) [
      | inl q ↦ rw (fits, q, drop_all offset text (leb→le _ _ q), take-nil ℕ size)
      | inr q ↦ elim (Bool-cases (ltb size (length text - offset))) [
        | inl r ↦
            let n : size ≡ length (take size (drop offset text)) =
              ground
                (arith, length-take {0} size (drop offset text), length-drop {0} offset text) in
            rw (fits, q, r) (ap (λ k. some (pos k, take size (drop offset text))) n)
        | inr r ↦
            let n : length text - offset ≡ length (take size (drop offset text)) =
              ground
                (arith, length-take {0} size (drop offset text), length-drop {0} offset text) in
            let all : take (length text - offset) (drop offset text)
                ≡ take size (drop offset text) =
              take_all (length text - offset) (drop offset text)
                (omega (arith, length-drop {0} offset text))
              ∙ sym (
                  take_all size (drop offset text) (ground (arith, length-drop {0} offset text))) in
            rw (fits, q, r) (ap₂ (λ k l. some (pos k, l)) n all)
      ]
    ]

proc_fn_of_lem : (n : Node) {f : Option ProcFn} → n.fs_data ≡ proc_file f → proc_fn_of n ≡ some f
unfolding proc_fn_of
proc_fn_of_lem n e = rw (e, proc_fn_of)

-- A read of a file with a function, wherever it starts and however much it asks for, does not fault,
-- changes nothing, and returns the bytes that the function's text has in that range, with their number;
-- the text fits the array that it is written to.
pub procfs_read_lem :
    (cpuid : ℕ → Registers) (s : State) (p : Ptr) (n : Node) (f : ProcFn) (offset size : ℕ)
    → NodeAt s p n
    → n.fs_data ≡ proc_file (some f)
    → procfs_read cpuid p offset size s
      ≡ some (
        (
          pos (length (read_at (proc_text cpuid f s) offset size)),
          read_at (proc_text cpuid f s) offset size,
        ),
        s,
      )
unfolding procfs_read
procfs_read_lem cpuid s p n f offset size at_p is_proc =
    let runs =
      read_text_lem (proc_text cpuid f s) offset size (omega (arith, proc_text-bound cpuid f s)) in
    rw (load_lem s p at_p, ◌>>=◌, proc_fn_of_lem n is_proc, ◌>>=◌, runs)
