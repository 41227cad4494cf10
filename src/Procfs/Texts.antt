-- ===== src/Procfs/Texts.antt =====
-- The texts of src/fs/procfs.c fit the buffer that they are written to.
use lxtos.Prelude.{
  ℕ, ◌+◌, ◌*◌, ◌/◌, ◌%◌, ◌^◌, ◌≤◌, [], ◌∷◌, ◌++◌, arith, length, length-append, ◌==◌, Bool-cases,
  inl, inr,
}
use lxtos.KString.{CString}
use lxtos.Pmm.{page_size, pmm_free_pages, pmm_total_bytes}
use lxtos.KMalloc.{kmalloc_heap_size, kmalloc_free_size}
use lxtos.Digits.Kernel.{kitoa_lem}
use lxtos.Fs.{
  ProcFn, mem, cpu_vendor, cpu_model, mem_total, heap_total, heap_free_size, mem_free, State,
}
use lxtos.Procfs.{
  Registers, decimal, mb, end_line, mem_total_label, heap_total_label, heap_free_label,
  proc_mem_total_read, proc_heap_total_read, proc_heap_free_read, proc_mem_read, proc_mem_free_read,
  reg_bytes, brand, until_nul, proc_cpu_vendor_read, proc_cpu_model_read, proc_text,
}

length-decimal : (n : ℕ) → length (decimal n) ≤ 10
length-decimal n = (kitoa_lem (n % 2 ^ 32) (omega arith)).fits

length-until_nul : (s : CString) → length (until_nul s) ≤ length s
unfolding until_nul
length-until_nul [] = omega arith
length-until_nul (c ∷ s) = elim (Bool-cases (c == 0)) [
  | inl q ↦ rw (q, until_nul) (omega arith)
  | inr q ↦ rw (q, until_nul) (omega (arith, length-until_nul s))
]

-- A text of at most `m` bytes.
record Fits (xs : CString) (m : ℕ) : Type 0 where
  bound : length xs ≤ m

self : (xs : CString) → Fits xs (length xs)
self xs = record { bound = omega arith }

join : {xs ys : CString} {m n : ℕ} → Fits xs m → Fits ys n → Fits (xs ++ ys) (m + n)
join {xs = xs} {ys = ys} h k = record {
  bound = omega (arith, length-append {0} xs ys, h.bound, k.bound);
}

decimal-Fits : (n : ℕ) → Fits (decimal n) 10
decimal-Fits n = record { bound = length-decimal n }

module _ (cpuid : ℕ → Registers) where
  -- Every text is at most 82 bytes long.
  pub proc_text-bound : (f : ProcFn) (s : State) → length (proc_text cpuid f s) ≤ 82
  unfolding proc_text proc_mem_total_read proc_heap_total_read proc_heap_free_read proc_mem_read
      proc_mem_free_read proc_cpu_vendor_read proc_cpu_model_read
  proc_text-bound mem s =
      let a = decimal-Fits (pmm_total_bytes s.pmm / 1024 / 1024) in
      let b = decimal-Fits (kmalloc_heap_size s.heap) in
      let c = decimal-Fits (kmalloc_free_size s.heap) in
      let line1 = join (join (self mem_total_label) a) (self mb) in
      let line2 = join (join (join line1 (self heap_total_label)) b) (self end_line) in
      omega (arith, (join (join (join line2 (self heap_free_label)) c) (self end_line)).bound)
  proc_text-bound cpu_vendor s =
      let r = cpuid 0 in
      let text = reg_bytes r.ebx ++ reg_bytes r.edx ++ reg_bytes r.ecx in
      omega (arith, length-append {0} (until_nul text) end_line, length-until_nul text)
  proc_text-bound cpu_model s =
      let text = brand (cpuid 0x80000002) ++ brand (cpuid 0x80000003) ++ brand (cpuid 0x80000004) in
      omega (arith, length-append {0} (until_nul text) end_line, length-until_nul text)
  proc_text-bound mem_total s = omega (
    arith,
    length-append {0} (decimal (pmm_total_bytes s.pmm / 1024 / 1024)) mb,
    length-decimal (pmm_total_bytes s.pmm / 1024 / 1024),
  )
  proc_text-bound heap_total s = omega (
    arith,
    length-append {0} (decimal (kmalloc_heap_size s.heap)) end_line,
    length-decimal (kmalloc_heap_size s.heap),
  )
  proc_text-bound heap_free_size s = omega (
    arith,
    length-append {0} (decimal (kmalloc_free_size s.heap)) end_line,
    length-decimal (kmalloc_free_size s.heap),
  )
  proc_text-bound mem_free s =
      let n : ℕ = pmm_free_pages s.pmm * page_size % 2 ^ 64 / (1024 * 1024) in
      omega (arith, length-append {0} (decimal n) mb, length-decimal n)
