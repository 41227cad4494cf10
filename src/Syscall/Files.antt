-- ===== src/Syscall/Files.antt =====
-- Reading through a descriptor: a file is read on from where the last read has stopped.
use lxtos.Prelude.{
  ℕ, zero, suc, ◌+◌, ◌%◌, ◌^◌, ◌<◌, ◌≡◌, refl, ap, sym, ◌∙◌, true, false, some, List, [], ◌∷◌, ◌++◌,
  arith, length, take, drop, take-nil, ltb, set, get_elem?, get_elem?-set_self, get_elem?-lt,
  length-take, length-drop, Bool-cases, inl, inr, leb, Option-cases, none-some, some-inj,
}
use lxtos.Prelude.Int.{ℤ, pos, negsuc}
use lxtos.KString.Slices.{drop-drop}
use lxtos.Fs.{◌>>=◌ as fs_bind, Ptr, OpsId, Node, TmpfsData, tmpfs}
use lxtos.Fs.Store.{NodeAt, load_lem}
use lxtos.Fd.{FdEntry, FdTable, fd_max, get_fd}
use lxtos.Fd.Table.{get_fd-used}
use lxtos.Tmpfs.{tmpfs_read}
use lxtos.Tmpfs.Contents.{contents, IsWellSized, read_at}
use lxtos.Tmpfs.Read.{tmpfs_read_lem}
use lxtos.Vfs.{VfsOps, op_of, call, vnode_read}
use lxtos.Syscall.{Kernel, ◌>>=◌}
use lxtos.Syscall.Descriptors.{advance, sys_fread}

take_twice :
    (a b : ℕ) (xs : List ℕ) → take a xs ++ take b (drop (length (take a xs)) xs) ≡ take (a + b) xs
take_twice zero b xs = let e : b ≡ zero + b = omega arith in ap (λ n. take n xs) e
take_twice (suc a) b [] = rw (take-nil ℕ b, take-nil ℕ (suc a + b))
take_twice (suc a) b (x ∷ xs) =
    let e : suc (a + b) ≡ suc a + b = omega arith in
    ap (λ t. x ∷ t) (take_twice a b xs) ∙ ap (λ n. take n (x ∷ xs)) e

-- The bytes of two reads in a row are those of one read.
read_at-append :
    (xs : List ℕ) (o a b : ℕ)
    → read_at xs o a ++ read_at xs (o + length (read_at xs o a)) b ≡ read_at xs o (a + b)
read_at-append xs o a b =
    ap (λ t. read_at xs o a ++ take b t) (sym (drop-drop (length (read_at xs o a)) o xs))
    ∙ take_twice a b (drop o xs)

set_same {ℓ} :
    {A : Type ℓ} (xs : List A) (i : ℕ) {x : A} → get_elem? xs i ≡ some x → set xs i x ≡ xs
set_same [] i e = refl
set_same (y ∷ xs) zero e = ground arith
set_same (y ∷ xs) (suc i) e = ap (λ t. y ∷ t) (set_same xs i e)

-- The descriptor's entry, its node, and the file behind it.
pub record IsOpen (ops : OpsId → VfsOps) (k : Kernel) (fd : ℤ) (i : ℕ) (e : FdEntry) (p : Ptr)
    (n : Node) (d : TmpfsData) : Type 0 where
  pub leads : get_fd k.fds fd ≡ some i
  pub entry : get_elem? k.fds i ≡ some e
  pub node : e.node ≡ some p
  pub at_p : NodeAt k.fs p n
  pub reads : op_of ops (λ t. t.read) n ≡ some tmpfs_read
  pub is_tmpfs : n.fs_data ≡ tmpfs d
  pub sized : IsWellSized d
  pub small : d.buf_size < 2 ^ 63

-- The entry and the state after a read of so many bytes.
abbrev pub past : FdEntry → ℕ → FdEntry
past e n = record e { offset = e.offset + n }

abbrev pub moved : Kernel → ℕ → FdEntry → ℕ → Kernel
moved k i e n = record k { fds = set k.fds i (past e n) }

advance_lem :
    (k : Kernel) (i : ℕ) (e : FdEntry) (n : ℕ)
    → get_elem? k.fds i ≡ some e
    → (0 < n → e.offset + n < 2 ^ 64)
    → advance i e (pos n) k ≡ some (tt, moved k i e n)
unfolding advance
advance_lem k i e zero at h =
    let e0 : past e 0 ≡ e = ap (λ o. record e { offset = o }) (omega arith) in
    let same : k.fds ≡ set k.fds i (past e 0) = sym (ap (set k.fds i) e0 ∙ set_same k.fds i at) in
    ap (λ t. some (tt, record k { fds = t })) same
advance_lem k i e (suc n) at h =
    let m : (e.offset + suc n) % 2 ^ 64 ≡ e.offset + suc n = omega arith in
    let pos_n : ltb 0 (suc n) ≡ true = ground arith in rw (pos_n, m)

-- A number that leads to an entry is the entry's, and below 64.
get_fd_self :
    (t : FdTable) (fd : ℤ) (i : ℕ) → get_fd t fd ≡ some i → (fd ≡ pos i) × (leb fd_max i ≡ false)
unfolding get_fd
get_fd_self t (negsuc n) i r = absurd (none-some r)
get_fd_self t (pos j) i r = elim (Bool-cases (leb fd_max j)) [
  | inl q ↦ absurd (none-some (rw (q, get_fd) at r))
  | inr q ↦ elim (Option-cases (get_elem? t j)) [
    | inl z ↦ absurd (none-some (rw (q, z, get_fd) at r))
    | inr (x, z) ↦ elim (Bool-cases x.used) [
      | inr u ↦ absurd (none-some (rw (q, z, u, get_fd) at r))
      | inl u ↦
          let same : j ≡ i = some-inj (rw (q, z, u, get_fd) at r) in
          (ap pos same, ap (leb fd_max) (sym same) ∙ q)
    ]
  ]
]

get_fd-set :
    (t : FdTable) (i : ℕ) (e : FdEntry)
    → leb fd_max i ≡ false
    → i < length t
    → e.used ≡ true
    → get_fd (set t i e) (pos i) ≡ some i
unfolding get_fd
get_fd-set t i e inside below u = rw (inside, get_elem?-set_self t i e below, u)

module _ (ops : OpsId → VfsOps) (k : Kernel) (fd : ℤ) (i : ℕ) (e : FdEntry) (p : Ptr) (n : Node)
    (d : TmpfsData) (size : ℕ) (o : IsOpen ops k fd i e p n d) where
  abbrev count : ℕ
  count = length (read_at (contents d) e.offset size)

  count_small : 0 < count → e.offset + count < 2 ^ 64
  count_small h = omega (
    arith,
    length-take {0} size (drop e.offset (contents d)),
    length-drop {0} e.offset (contents d),
    o.sized,
    o.small,
  )

  vnode_read_lem :
      vnode_read ops e.node e.offset size k.fs
      ≡ some ((pos count, read_at (contents d) e.offset size), k.fs)
  unfolding vnode_read call
  vnode_read_lem =
      rw (o.node, call, load_lem k.fs p o.at_p, fs_bind, o.reads)
        (tmpfs_read_lem k.fs p n d e.offset size o.at_p o.is_tmpfs o.sized o.small)

  -- A read through the descriptor returns the bytes of the file from the entry's offset on.
  pub sys_fread_lem :
      sys_fread ops fd size k
      ≡ some ((pos count, read_at (contents d) e.offset size), moved k i e count)
  unfolding sys_fread
  sys_fread_lem = rw (
    o.leads,
    sys_fread,
    o.entry,
    vnode_read_lem,
    ◌>>=◌,
    advance_lem k i e count o.entry count_small,
  )

  pub moved-IsOpen : IsOpen ops (moved k i e count) fd i (past e count) p n d
  moved-IsOpen =
      let below = get_elem?-lt k.fds i o.entry in
      let (is_i, inside) = get_fd_self k.fds fd i o.leads in
      let u = get_fd-used k.fds fd i o.leads o.entry in
      record {
        leads = rw is_i (get_fd-set k.fds i (past e count) inside below u);
        entry = get_elem?-set_self k.fds i (past e count) below;
        node = o.node;
        at_p = o.at_p;
        reads = o.reads;
        is_tmpfs = o.is_tmpfs;
        sized = o.sized;
        small = o.small;
      }

-- Two reads through a descriptor of a file of the memory file system, however much each asks for and
-- wherever the first one starts, do not fault and return together the bytes that one read of the sum would:
-- the second goes on where the first has stopped. The nodes and the heap stay as they are.
pub sys_fread_twice :
    (ops : OpsId → VfsOps) (k : Kernel) (fd : ℤ) (i : ℕ) (e : FdEntry) (p : Ptr) (n : Node)
    (d : TmpfsData) (a b : ℕ)
    → IsOpen ops k fd i e p n d
    → (xs : List ℕ) × (ys : List ℕ) × (k1 : Kernel) × (k2 : Kernel) × (sys_fread ops fd a k
        ≡ some ((pos (length xs), xs), k1))
      × (sys_fread ops fd b k1 ≡ some ((pos (length ys), ys), k2))
      × (xs ++ ys ≡ read_at (contents d) e.offset (a + b))
      × (k2.fs ≡ k.fs)
sys_fread_twice ops k fd i e p n d a b o =
    let xs = read_at (contents d) e.offset a in
    let o1 = moved-IsOpen ops k fd i e p n d a o in
    let k1 = moved k i e (length xs) in
    let e1 = past e (length xs) in
    let ys = read_at (contents d) e1.offset b in
    (
      xs,
      ys,
      k1,
      moved k1 i e1 (length ys),
      sys_fread_lem ops k fd i e p n d a o,
      sys_fread_lem ops k1 fd i e1 p n d b o1,
      read_at-append (contents d) e.offset a b,
      refl,
    )
