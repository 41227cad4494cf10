-- ===== src/Tmpfs/Copy.antt =====
-- The copy of the new bytes into a file's buffer.
use lxtos.Prelude.{
  ℕ, ◌+◌, ◌≤◌, ◌<◌, ◌≡◌, ◌≢◌, refl, ap, sym, ◌∙◌, some, none, List, [], ◌∷◌, arith, length, take,
  take_all, Option, get_elem?,
}
use lxtos.KString.Memory.{splice, kmemcpy-splice, length-splice}
use lxtos.KMalloc.{Heap}
use lxtos.KMalloc.Tiling.{live}
use lxtos.KMalloc.Owned.{Holds}
use lxtos.Fs.{TmpfsData, Ptr, Node, State, Buffer, tmpfs, ◌>>=◌}
use lxtos.Fs.Store.{NodeAt, with_node, load_lem, store_lem, NodeAt-with_node}
use lxtos.Tmpfs.{bytes_of, with_bytes, copy_in}
use lxtos.Tmpfs.Contents.{contents, write_at, length-pad}
use lxtos.Tmpfs.Grow.{OwnsBuffer, IsOther, with_heap, IsFile, Grown, grown_data, grown_node}
use lxtos.Tmpfs.Read.{tmpfs_of_lem}

copy_in_lem :
    (s : State) (p : Ptr) (n : Node) (d : TmpfsData) (src : List ℕ) (offset size : ℕ)
    → NodeAt s p n
    → n.fs_data ≡ tmpfs d
    → offset + size ≤ length (contents d)
    → size ≤ length src
    → copy_in p src offset size s
      ≡ some (
        tt,
        with_node s p (record n {
          fs_data =
              tmpfs
                (record d { buf = with_bytes d.buf (splice (contents d) offset (take size src)) });
        }),
      )
unfolding copy_in
copy_in_lem s p n d src offset size at_p is_tmpfs room enough =
    rw
      (
        load_lem s p at_p,
        ◌>>=◌,
        tmpfs_of_lem n is_tmpfs,
        ◌>>=◌,
        kmemcpy-splice (contents d) offset src 0 size room (omega arith),
        ◌>>=◌,
      )
      (store_lem s p _ at_p)

-- A file with another buffer, and its node.
abbrev pub resized : TmpfsData → Option Buffer → ℕ → TmpfsData
resized d buf buf_size = record d { buf = buf; buf_size = buf_size }

abbrev pub resized_node : Node → TmpfsData → Option Buffer → ℕ → ℕ → Node
resized_node n d buf buf_size size = record n {
  fs_data = tmpfs (resized d buf buf_size);
  size = size;
}

-- What a successful write leaves: the file with the new bytes laid over it, a valid heap that holds
-- its buffer and all that other addresses own, and nothing else changed: the node but for its size and
-- its data, the data but for the buffer and its size, every other node, and the state but for the nodes
-- and the heap.
pub record Wrote (s : State) (p : Ptr) (n : Node) (d : TmpfsData) (offset : ℕ) (src : List ℕ)
    (s' : State) : Type 0 where
  pub buf : Option Buffer
  pub buf_size : ℕ
  pub size : ℕ
  pub file : IsFile s' p (resized_node n d buf buf_size size) (resized d buf buf_size)
  pub result : contents (resized d buf buf_size) ≡ write_at (contents d) offset src
  pub others : (q : Ptr) → p ≢ q → get_elem? s'.nodes q ≡ get_elem? s.nodes q
  pub kept :
      (q : ℕ) → IsOther q d.buf → Holds q (live s.heap.blocks) → Holds q (live s'.heap.blocks)
  pub same : s' ≡ record s { nodes = s'.nodes; heap = s'.heap }

contents-with_bytes :
    (buf : Option Buffer) (bytes : List ℕ)
    → length bytes ≡ length (bytes_of buf)
    → bytes_of (with_bytes buf bytes) ≡ bytes
contents-with_bytes none [] h = refl
contents-with_bytes none (x ∷ bytes) h = absurd (omega arith)
contents-with_bytes (some b) bytes h = refl

owns-with_bytes :
    (buf : Option Buffer) (bytes : List ℕ) (h : Heap)
    → OwnsBuffer buf h
    → OwnsBuffer (with_bytes buf bytes) h
owns-with_bytes none bytes h o = tt
owns-with_bytes (some b) bytes h o = o

-- The file after the bytes have been copied into a buffer that is large enough.
module _ (s : State) (p : Ptr) (n : Node) (d : TmpfsData) (src : List ℕ) (offset : ℕ) where
  abbrev pub new_data : TmpfsData
  new_data = record d { buf = with_bytes d.buf (splice (contents d) offset src) }

  abbrev pub new_node : Node
  new_node = record n { fs_data = tmpfs new_data }

  module _ (f : IsFile s p n d) (room : offset + length src ≤ length (contents d)) where
    same_length : length (splice (contents d) offset src) ≡ length (contents d)
    same_length = length-splice (contents d) offset src room

    pub copied-IsFile : IsFile (with_node s p new_node) p new_node new_data
    copied-IsFile = record {
      at_p = NodeAt-with_node s p new_node f.at_p;
      is_tmpfs = refl;
      sized =
          f.sized
          ∙ sym same_length
          ∙ ap length
              (sym (contents-with_bytes d.buf (splice (contents d) offset src) same_length));
      size_eq = f.size_eq;
      heap_valid = f.heap_valid;
      owns = owns-with_bytes d.buf (splice (contents d) offset src) s.heap f.owns;
    }

    pub copied-contents : contents new_data ≡ splice (contents d) offset src
    copied-contents = contents-with_bytes d.buf (splice (contents d) offset src) same_length

    pub copy_in_runs : copy_in p src offset (length src) s ≡ some (tt, with_node s p new_node)
    copy_in_runs =
        copy_in_lem s p n d src offset (length src) f.at_p f.is_tmpfs room (omega arith)
        ∙ ap
            (λ t. some (
              tt,
              with_node s p (record n {
                fs_data =
                    tmpfs (record d { buf = with_bytes d.buf (splice (contents d) offset t) });
              }),
            ))
            (take_all (length src) src (omega arith))

-- The file after growth, before the copy.
pub grown-IsFile :
    (s : State) (p : Ptr) (n : Node) (d : TmpfsData) (needed : ℕ)
    → IsFile s p n d
    → d.buf_size < needed
    → (g : Grown s p n d needed)
    → IsFile
        (with_node (with_heap s g.heap) p (grown_node n d g.addr needed))
        p
        (grown_node n d g.addr needed)
        (grown_data d g.addr needed)
grown-IsFile s p n d needed f more g = record {
  at_p = NodeAt-with_node (with_heap s g.heap) p (grown_node n d g.addr needed) f.at_p;
  is_tmpfs = refl;
  sized = sym (length-pad (contents d) needed (omega (arith, f.sized)));
  size_eq = refl;
  heap_valid = g.valid;
  owns = g.owned;
}
