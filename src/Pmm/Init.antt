-- ===== src/Pmm/Init.antt =====
-- `pmm_init`: the free pages are those of the usable memory that the boot loader reports.
use lxtos.Prelude.{
  ℕ, zero, suc, ◌+◌, ◌*◌, ◌/◌, ◌^◌, ◌<◌, ◌≡◌, ◌≤◌, ◌%◌, ◌↔◌, ◌⊎◌, true, refl, arith, if◌then◌else◌,
  ◌==◌, Bool-cases, inl, inr, leb, ltb, ◌&&◌, ◌||◌, false, ◌∙◌, List, [], ◌∷◌, Bool, some, length,
  length-replicate,
}
use lxtos.Pmm.{
  Pmm, Entry, page_size, usable, all_used, release_pages, count_ram, add_entry, add_entries,
  pmm_init, pmm_free_pages,
}
use lxtos.Pmm.Bits.{replicate-IsBytes, bitmap_test-full}
use lxtos.Pmm.Count.{count_used, count-full, count-le}
use lxtos.Pmm.Valid.{IsValid, page_bit, page_bit-release, release-IsValid, total-release}

-- The pages that the loop over an entry releases.
abbrev covers : List Entry → ℕ → Bool
covers [] j = false
covers (e ∷ es) j =
    (e.kind == usable
      && (leb (e.base / page_size) j && ltb j (e.base / page_size + e.len / page_size)))
    || covers es j

-- What an initialisation step keeps, and the bits that it clears.
record Cleared (p : Pmm) (c : ℕ → Bool) (q : Pmm) : Type 0 where
  valid : IsValid q
  total : q.total ≡ p.total
  bits : (j : ℕ) → j < p.total → page_bit q j ≡ (if c j then 0 else page_bit p j)

release_pages-Cleared :
    (pages idx : ℕ) {p : Pmm}
    → IsValid p
    → Cleared p (λ j. leb idx j && ltb j (idx + pages)) (release_pages pages idx p)
unfolding release_pages
release_pages-Cleared zero idx v = record { valid = v; total = refl; bits = λ j h. ground arith }
release_pages-Cleared (suc pages) idx {p} v = elim (Bool-cases (leb p.total idx)) [
  | inl e ↦ rw (e, release_pages) (record { valid = v; total = refl; bits = λ j h. ground arith })
  | inr e ↦
      let below : idx < p.total = ground arith in
      let rest = release_pages-Cleared pages (idx + 1) (release-IsValid v idx below) in
      rw (e, release_pages)
        (record {
          valid = rest.valid;
          total = rest.total ∙ total-release p idx;
          bits = λ j h.
              ground (arith, rest.bits j, total-release p idx, page_bit-release v idx below j);
        })
]

count_ram-IsValid : (e : Entry) {p : Pmm} → IsValid p → IsValid (count_ram e p)
unfolding count_ram
count_ram-IsValid e v = ground arith

total-count_ram : (e : Entry) (p : Pmm) → (count_ram e p).total ≡ p.total
unfolding count_ram
total-count_ram e p = ground arith

bit-count_ram : (e : Entry) (p : Pmm) (j : ℕ) → page_bit (count_ram e p) j ≡ page_bit p j
unfolding count_ram
bit-count_ram e p j = ground arith

add_entry-Cleared :
    (e : Entry) {p : Pmm} → IsValid p → Cleared p (λ j. covers (e ∷ []) j) (add_entry e p)
unfolding add_entry
add_entry-Cleared e {p} v =
    let v' = count_ram-IsValid e v in
    let r = release_pages-Cleared (e.len / page_size) (e.base / page_size) v' in
    record {
      valid = ground (arith, v', r.valid);
      total = ground (arith, r.total, total-count_ram e p);
      bits = λ j h. ground (arith, r.bits j, total-count_ram e p, bit-count_ram e p j);
    }

add_entries-Cleared :
    (es : List Entry) {p : Pmm} → IsValid p → Cleared p (covers es) (add_entries es p)
unfolding add_entries
add_entries-Cleared [] v = record { valid = v; total = refl; bits = λ j h. refl }
add_entries-Cleared (e ∷ es) {p} v =
    let a = add_entry-Cleared e v in
    let r = add_entries-Cleared es a.valid in
    record {
      valid = r.valid;
      total = r.total ∙ a.total;
      bits = λ j h. ground (arith, r.bits j, a.bits j, a.total);
    }

all_used-IsValid : (p : Pmm) → length p.bitmap * 8 < 2 ^ 52 → IsValid (all_used p)
all_used-IsValid p h = record {
  bytes = replicate-IsBytes (length p.bitmap);
  total_eq = omega (arith, length-replicate {A = ℕ} (length p.bitmap) 255);
  small = h;
  used_eq = omega (arith, count-full (length p.bitmap) (length p.bitmap * 8) (omega arith));
}

-- The boot loader's promise: a usable entry starts at a page.
abbrev pub AreAligned : List Entry → Type 0
AreAligned [] = Unit {0}
AreAligned (e ∷ es) = (e.kind ≡ usable → e.base % page_size ≡ 0) × AreAligned es

-- The bytes of page `j` all lie in one usable entry.
abbrev pub InUsable : List Entry → ℕ → Type 0
InUsable [] j = ⊥
InUsable (e ∷ es) j =
    ((e.kind ≡ usable) × (e.base ≤ j * page_size) × (j * page_size + page_size ≤ e.base + e.len))
    ⊎ InUsable es j

covers-InUsable : (es : List Entry) (j : ℕ) → AreAligned es → covers es j ≡ true → InUsable es j
covers-InUsable [] j a c = ground arith
covers-InUsable (e ∷ es) j a c =
    elim (Bool-cases (
      e.kind == usable
      && (leb (e.base / page_size) j && ltb j (e.base / page_size + e.len / page_size)))) [
        | inl q ↦
            let kind : e.kind ≡ usable = ground arith in
            let start : e.base % page_size ≡ 0 = a.0 kind in
            let low : e.base / page_size ≤ j = ground arith in
            let high : j < e.base / page_size + e.len / page_size = ground arith in
            inl (kind, omega arith, omega arith)
        | inr q ↦ inr (covers-InUsable es j a.1 (rw q at c))
      ]

InUsable-covers : (es : List Entry) (j : ℕ) → AreAligned es → InUsable es j → covers es j ≡ true
InUsable-covers [] j a u = elim u [ ]
InUsable-covers (e ∷ es) j a (inl (kind, low, high)) =
    let start : e.base % page_size ≡ 0 = a.0 kind in
    let here : (e.kind == usable
          && (leb (e.base / page_size) j && ltb j (e.base / page_size + e.len / page_size)))
        ≡ true =
      ground arith in
    rw here
InUsable-covers (e ∷ es) j a (inr u) = ground (arith, InUsable-covers es j a.1 u)

free_iff : (c : Bool) (b : ℕ) → b ≡ (if c then 0 else 1) → (b ≡ 0) ↔ (c ≡ true)
free_iff c b e = (λ z. ground arith, λ z. ground arith)

-- After `pmm_init` with a memory map whose usable entries start at a page, as the boot loader promises, the
-- state is valid, has eight pages to each byte of the bitmap, and a page is free exactly if all of it lies in
-- one usable entry.
pub pmm_init_lem :
    (p : Pmm) (es : List Entry)
    → length p.bitmap * 8 < 2 ^ 52
    → AreAligned es
    → IsValid (pmm_init p (some es))
      × ((pmm_init p (some es)).total ≡ length p.bitmap * 8)
      × ((j : ℕ)
          → j < length p.bitmap * 8
          → (page_bit (pmm_init p (some es)) j ≡ 0) ↔ InUsable es j)
unfolding pmm_init
pmm_init_lem p es h a =
    let r = add_entries-Cleared es (all_used-IsValid p h) in
    (
      r.valid,
      r.total,
      λ j k.
          let bit : page_bit (pmm_init p (some es)) j ≡ (if covers es j then 0 else 1) =
            ground (arith, r.bits j, bitmap_test-full (length p.bitmap) j k) in
          let free = free_iff (covers es j) (page_bit (pmm_init p (some es)) j) bit in
          (λ z. covers-InUsable es j a (free.0 z), λ u. free.1 (InUsable-covers es j a u)),
    )

-- `pmm_free_pages` does not wrap on a valid state: with the used pages it makes up the total.
pub pmm_free_pages-add-used :
    {p : Pmm} → IsValid p → pmm_free_pages p + count_used p.bitmap p.total ≡ p.total
unfolding pmm_free_pages
pmm_free_pages-add-used {p} v = omega (arith, v.used_eq, v.small, count-le p.bitmap p.total v.bytes)
