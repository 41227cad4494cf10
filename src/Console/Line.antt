-- ===== src/Console/Line.antt =====
-- What a read of the console returns.
use lxtos.Prelude.{
  ℕ, zero, suc, ◌^◌, ◌≤◌, ◌<◌, ◌≡◌, ◌≢◌, refl, subst, ◌∙◌, Option, some, [], ◌∷◌, arith, length,
  ◌==◌, Bool-cases, Option-cases, none-some, inl, inr, ◌⊎◌,
}
use lxtos.Prelude.Int.{ℤ, pos}
use lxtos.KString.{CString}
use lxtos.Keyboard.{Console, kb_getchar}
use lxtos.Keyboard.Keys.{kb_getchar-Typed}
use lxtos.Fs.{Ptr, State, signed64}
use lxtos.Console.{read_keys, console_read}

-- A line read into a buffer of `size` bytes: no byte is 0, it ends at its first newline, and without a
-- newline it fills the buffer.
abbrev pub IsLine : ℕ → CString → Type 0
IsLine size [] = size ≡ 0
IsLine zero (c ∷ line) = ⊥
IsLine (suc size) (c ∷ line) =
    (c ≢ 0) × (((c ≡ b'\n') × (line ≡ [])) ⊎ ((c ≢ b'\n') × IsLine size line))

some-pair :
    {a b : CString} {k k' : Console}
    → ◌≡◌ {A = Option (CString × Console)} (some (a, k)) (some (b, k'))
    → a ≡ b
some-pair e = ground arith

read_keys-IsLine :
    (size : ℕ) (k k' : Console) (line : CString)
    → read_keys size k ≡ some (line, k')
    → IsLine size line
unfolding read_keys
read_keys-IsLine zero k k' line e = subst (IsLine 0) (some-pair e) refl
read_keys-IsLine (suc size) k k' line e = elim (Option-cases (kb_getchar k)) [
  | inl q ↦ absurd (none-some (rw (q, read_keys) at e))
  | inr ((c, k1), q) ↦
      let typed = kb_getchar-Typed k k1 c q in
      elim (Bool-cases (c == b'\n')) [
        | inl r ↦
            let is_end : c ≡ b'\n' = ground arith in
            subst (IsLine (suc size)) (some-pair (rw (q, read_keys, r) at e))
              (typed.nonzero, inl (is_end, refl))
        | inr r ↦
            let inside : c ≢ b'\n' = ground arith in
            elim (Option-cases (read_keys size k1)) [
              | inl z ↦ absurd (none-some (rw (q, read_keys, r, z) at e))
              | inr ((rest, k2), z) ↦
                  subst (IsLine (suc size)) (some-pair (rw (q, read_keys, r, z) at e))
                    (typed.nonzero, inr (inside, read_keys-IsLine size k1 k2 rest z))
            ]
      ]
]

read_result :
    {r : ℤ} {a b : CString} {s s' : State}
    → ◌≡◌ {A = Option ((ℤ × CString) × State)}
        (some ((signed64 (length a), a), s))
        (some ((r, b), s'))
    → (a ≡ b) × (r ≡ signed64 (length b))
read_result e = ground arith

length-IsLine : (size : ℕ) (line : CString) → IsLine size line → length line ≤ size
length-IsLine size [] l = omega arith
length-IsLine zero (c ∷ line) l = elim l [ ]
length-IsLine (suc size) (c ∷ line) (n, inl (e, z)) = rw z (omega arith)
length-IsLine (suc size) (c ∷ line) (n, inr (e, l)) = omega (arith, length-IsLine size line l)

-- What `console_read` into a buffer of fewer than 2^63 bytes returns is the number of the bytes that it
-- has written: a line up to its newline, or the bytes that fill the buffer; no byte is 0.
pub console_read-IsLine :
    (p : Ptr) (offset size : ℕ) (s s' : State) (r : ℤ) (line : CString)
    → size < 2 ^ 63
    → console_read p offset size s ≡ some ((r, line), s')
    → IsLine size line × (r ≡ pos (length line))
unfolding console_read
console_read-IsLine p offset size s s' r line h e = elim (Option-cases (read_keys size s.console)) [
  | inl q ↦ absurd (none-some (rw (q, console_read) at e))
  | inr ((text, k), q) ↦
      let (same, count) = read_result (rw (q, console_read) at e) in
      let l = subst (IsLine size) same (read_keys-IsLine size s.console k text q) in
      let fits : signed64 (length line) ≡ pos (length line) =
        ground (arith, length-IsLine size line l) in
      (l, count ∙ fits)
]
