-- ===== src/Syscall/Keeps.antt =====
-- What every call keeps of the kernel's own variables.
use lxtos.Prelude.{
  ◌+◌, ◌≤◌, ◌≡◌, subst, Bool, true, false, Option, none, some, length, if◌then◌else◌, Option-cases,
  none-some, inl, inr,
}
use lxtos.Fs.{M}
use lxtos.Fd.Table.{IsTable}
use lxtos.Syscall.{Kernel, K, pure, ◌>>=◌, on_fs}

-- The table of descriptors is one of 64 entries whose free entries are clear, and the working directory
-- fits its array with the NUL.
pub record IsKernel (k : Kernel) : Type 0 where
  pub table : IsTable k.fds
  pub cwd_fits : length k.cwd + 1 ≤ 256

-- Every run of `m` keeps it.
pub record Keeps {ℓ} {A : Type ℓ} (m : K A) : Type ℓ where
  pub keep : (k k' : Kernel) (a : A) → IsKernel k → m k ≡ some (a, k') → IsKernel k'

pub same_kernel {ℓ} :
    {A : Type ℓ} {a b : A} {k k' : Kernel}
    → ◌≡◌ {A = Option (A × Kernel)} (some (a, k)) (some (b, k'))
    → k ≡ k'
same_kernel e = cc

pub pure-Keeps {ℓ} : {A : Type ℓ} (a : A) → Keeps (pure a)
pure-Keeps a = record { keep = λ k k' b v e. subst IsKernel (same_kernel e) v }

pub on_fs-Keeps {ℓ} : {A : Type ℓ} (m : M A) → Keeps (on_fs m)
on_fs-Keeps m = record {
  keep = λ k k' a v e. elim (Option-cases (m k.fs)) [
    | inl q ↦ absurd (none-some (rw (q, on_fs) at e))
    | inr ((b, s), q) ↦
        subst IsKernel (same_kernel (rw (q, on_fs) at e))
          (record { table = v.table; cwd_fits = v.cwd_fits })
  ];
}

pub >>=-Keeps {ℓ κ} :
    {A : Type ℓ} {B : Type κ} (m : K A) (f : A → K B)
    → Keeps m
    → ((a : A) → Keeps (f a))
    → Keeps (m >>= f)
>>=-Keeps m f h g = record {
  keep = λ k k' b v e. elim (Option-cases (m k)) [
    | inl q ↦ absurd (none-some (rw (q, ◌>>=◌) at e))
    | inr ((a, k1), q) ↦ (g a).keep k1 k' b (h.keep k k1 a v q) (rw (q, ◌>>=◌) at e)
  ];
}

pub if-Keeps {ℓ} :
    {A : Type ℓ} (b : Bool) (m l : K A) → Keeps m → Keeps l → Keeps (if b then m else l)
if-Keeps true m l h g = h
if-Keeps false m l h g = g

pub option-Keeps {ℓ κ} :
    {A : Type ℓ} {B : Type κ} (o : Option A) (m : K B) (f : A → K B)
    → Keeps m
    → ((a : A) → Keeps (f a))
    → Keeps (elim o [ none ↦ m | some a ↦ f a ])
option-Keeps none m f h g = h
option-Keeps (some a) m f h g = g a

-- What follows a run of a file system.
pub after-Keeps {ℓ κ} :
    {A : Type ℓ} {B : Type κ} (m : M A) (f : A → K B)
    → ((a : A) → Keeps (f a))
    → Keeps (on_fs m >>= f)
after-Keeps m f g = >>=-Keeps (on_fs m) f (on_fs-Keeps m) g
