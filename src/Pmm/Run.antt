-- ===== src/Pmm/Run.antt =====
-- `pmm_alloc_n` takes the lowest run of free pages.
use lxtos.Prelude.{
  ℕ, zero, suc, ◌+◌, ◌*◌, ◌%◌, ◌^◌, ◌≤◌, ◌<◌, ◌≡◌, refl, arith, if◌then◌else◌, ◌==◌, Bool-cases,
  inl, inr, ◌⊎◌, leb, ltb, ◌&&◌, true, false, ap, leb→le,
}
use lxtos.Pmm.{Pmm, page_size, run_is_free, mark_run, alloc_n_from, pmm_alloc_n}
use lxtos.Pmm.Bits.{bitmap_test-lt}
use lxtos.Pmm.Valid.{IsValid, page_bit, page_bit-mark_used, used-mark_used, mark_used-IsValid}

abbrev pub FreeRun : Pmm → ℕ → ℕ → Type 0
FreeRun p i n = (j : ℕ) → i ≤ j → j < i + n → page_bit p j ≡ 0

-- Some page of the run is in use.
abbrev pub Blocked : Pmm → ℕ → ℕ → Type 0
Blocked p i n = (j : ℕ) × (i ≤ j) × (j < i + n) × (page_bit p j ≡ 1)

pub record FirstRun (p : Pmm) (k n : ℕ) : Type 0 where
  pub within : k + n ≤ p.total
  pub free : FreeRun p k n
  pub lowest : (i : ℕ) → i < k → Blocked p i n

module _ {p : Pmm} (v : IsValid p) where
  run_is_free_sound : (i n : ℕ) → run_is_free p.bitmap i n ≡ true → FreeRun p i n
  unfolding run_is_free
  run_is_free_sound i zero h j a b = absurd (omega arith)
  run_is_free_sound i (suc n) h j a b = elim (Bool-cases (j == i)) [
    | inl q ↦ let e : j ≡ i = ground arith in rw e (ground arith)
    | inr q ↦ run_is_free_sound (i + 1) n (ground arith) j (ground arith) (omega arith)
  ]

  run_is_free-Blocked : (i n : ℕ) → run_is_free p.bitmap i n ≡ false → Blocked p i n
  unfolding run_is_free
  run_is_free-Blocked i zero h = cc
  run_is_free-Blocked i (suc n) h = elim (Bool-cases (page_bit p i == 0)) [
    | inl q ↦
        let (j, a, b, c) = run_is_free-Blocked (i + 1) n (ground arith) in
        (j, omega arith, omega arith, c)
    | inr q ↦ (i, omega arith, omega arith, ground (arith, bitmap_test-lt p.bitmap i v.bytes))
  ]

-- What marking a run of free pages leaves.
pub record Marked (p : Pmm) (k n : ℕ) (q : Pmm) : Type 0 where
  pub valid : IsValid q
  pub used : q.used ≡ p.used + n
  pub bits : (j : ℕ) → page_bit q j ≡ (if leb k j && ltb j (k + n) then 1 else page_bit p j)

mark_run-Marked :
    (n : ℕ) {p : Pmm} (k : ℕ)
    → IsValid p
    → k + n ≤ p.total
    → FreeRun p k n
    → Marked p k n (mark_run p k n)
unfolding mark_run
mark_run-Marked zero k v h free = record { valid = v; used = omega arith; bits = λ j. ground arith }
mark_run-Marked (suc n) {p} k v h free =
    let now = free k (omega arith) (omega arith) in
    let below : k < p.total = omega arith in
    let rest =
      mark_run-Marked n (k + 1) (mark_used-IsValid v k below now) (omega arith)
        (λ j a b. ground (arith, page_bit-mark_used v k below j, free j)) in
    record {
      valid = rest.valid;
      used = omega (arith, rest.used, used-mark_used v k below now);
      bits = λ j. ground (arith, rest.bits j, page_bit-mark_used v k below j);
    }

abbrev pub NoRun : Pmm → ℕ → Type 0
NoRun p n = (i : ℕ) → i + n ≤ p.total → Blocked p i n

module _ {p : Pmm} (n : ℕ) (v : IsValid p) (small : n < 2 ^ 64) where
  -- The sum of the loop's test wraps in no round.
  no_wrap : (i : ℕ) → i ≤ p.total + 1 → (i ≡ 0) ⊎ (n ≤ p.total) → (i + n) % 2 ^ 64 ≡ i + n
  no_wrap i h start = omega (arith, v.small)

  extend :
      (i : ℕ)
      → ((m : ℕ) → m < i → Blocked p m n)
      → Blocked p i n
      → (m : ℕ) → m < i + 1
      → Blocked p m n
  extend i all b m h = elim (Bool-cases (m == i)) [
    | inl q ↦ let e : m ≡ i = ground arith in rw e b
    | inr q ↦ all m (ground arith)
  ]

  alloc_n_from-cases :
      (rounds i : ℕ)
      → i + rounds ≡ p.total + 1
      → (i ≡ 0) ⊎ (n ≤ p.total)
      → ((m : ℕ) → m < i → Blocked p m n)
      → (NoRun p n × (alloc_n_from rounds i p n ≡ (0, p)))
        ⊎ ((k : ℕ) × FirstRun p k n × (alloc_n_from rounds i p n ≡ (k * page_size, mark_run p k n)))
  unfolding alloc_n_from
  alloc_n_from-cases zero i e start all = inl (λ m h. all m (omega arith), refl)
  alloc_n_from-cases (suc rounds) i e start all =
      let w = no_wrap i (omega arith) start in
      elim (Bool-cases (leb (i + n) p.total)) [
        | inr stop ↦ inl (λ m h. all m (ground arith), rw (w, stop))
        | inl go ↦
            let room = leb→le (i + n) p.total go in
            elim (Bool-cases (run_is_free p.bitmap i n)) [
              | inl q ↦ inr (
                i,
                record { within = room; free = run_is_free_sound v i n q; lowest = all },
                rw (w, go, q) (ap (λ a. (a, mark_run p i n)) (omega (arith, v.small))),
              )
              | inr q ↦
                  rw (w, go, q)
                    (alloc_n_from-cases rounds (i + 1) (omega arith) (inr (omega arith))
                      (extend i all (run_is_free-Blocked v i n q)))
            ]
      ]

-- What a successful call for the run at `k` returns and leaves.
pub record TookRun (p : Pmm) (n k : ℕ) (out : ℕ × Pmm) : Type 0 where
  pub first : FirstRun p k n
  pub address : out.0 ≡ k * page_size
  pub marked : Marked p k n out.1

TookRun-of_cases :
    {p : Pmm} (n : ℕ) (v : IsValid p) (k : ℕ) {out : ℕ × Pmm}
    → FirstRun p k n
    → out ≡ (k * page_size, mark_run p k n)
    → TookRun p n k out
TookRun-of_cases n v k f e =
    rw e (record { first = f; address = refl; marked = mark_run-Marked n k v f.within f.free })

-- On a valid state `pmm_alloc_n` either finds that no run of `n` pages is free, and returns 0 and
-- changes nothing, or takes the lowest free run: it returns its address, sets exactly the bits of
-- its `n` pages, counts them as used, and keeps the invariant.
pub pmm_alloc_n_lem :
    {p : Pmm} (n : ℕ)
    → IsValid p
    → n < 2 ^ 64
    → (NoRun p n × (pmm_alloc_n p n ≡ (0, p))) ⊎ ((k : ℕ) × TookRun p n k (pmm_alloc_n p n))
unfolding pmm_alloc_n
pmm_alloc_n_lem {p} n v small =
    elim (alloc_n_from-cases n v small (p.total + 1) 0 (omega arith) (inl refl)
      (λ m h. absurd (omega arith))) [
        | inl none_free ↦ inl none_free
        | inr (k, f, e) ↦ inr (k, TookRun-of_cases n v k f e)
      ]
