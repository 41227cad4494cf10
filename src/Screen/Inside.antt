-- ===== src/Screen/Inside.antt =====
-- Drawing and scrolling write only inside the frame buffer.
use native.Mathlib.Nat.{mul-le-mul_right}
use lxtos.Prelude.{
  ℕ, zero, suc, ◌+◌, ◌-◌, ◌*◌, ◌%◌, ◌^◌, ◌≤◌, ◌<◌, ◌≡◌, refl, false, ◌||◌, arith, leb, ◌==◌,
  Bool-cases, inl, inr,
}
use lxtos.Screen.{
  Screen, poke, color_byte, put_color, fb_putpixel, for_up, font_height, put_row, copy_bytes,
  fill_row, cell_height, fb_scroll, fb_putchar,
}

-- The size of the frame buffer, and the shape that a frame buffer has.
abbrev pub frame_size : Screen → ℕ
frame_size s = s.height * s.pitch

pub record IsFrame (s : Screen) : Type 0 where
  pub row_fits : s.width * s.pixel_bytes ≤ s.pitch
  pub three : 3 ≤ s.pixel_bytes
  pub four : s.pixel_bytes ≤ 4

-- A loop keeps what each of its rounds keeps.
pub for_up_inv {ℓ κ} :
    {S : Type ℓ} (P : S → Type κ) (rounds from : ℕ) (body : ℕ → S → S) (s : S)
    → ((i : ℕ) (t : S) → i < from + rounds → P t → P (body i t))
    → P s
    → P (for_up rounds from body s)
unfolding for_up
for_up_inv P zero from body s h p = p
for_up_inv P (suc rounds) from body s h p =
    for_up_inv P rounds (from + 1) body (body from s) (λ i t lt. h i t (omega arith))
      (h from s (omega arith) p)

-- The bytes from `limit` on are those of `m`.
abbrev pub SameFrom : ℕ → (ℕ → ℕ) → (ℕ → ℕ) → Type 0
SameFrom limit m m' = (i : ℕ) → limit ≤ i → m' i ≡ m i

poke-SameFrom :
    (limit at v : ℕ) (m m' : ℕ → ℕ)
    → at < limit
    → SameFrom limit m m'
    → SameFrom limit m (poke at v m')
poke-SameFrom limit at v m m' h same i le =
    let other : (i == at) ≡ false = ground arith in rw other (same i le)

put_color-SameFrom :
    (limit bytes at color : ℕ) (m m' : ℕ → ℕ)
    → 3 ≤ bytes
    → bytes ≤ 4
    → at + bytes ≤ limit
    → SameFrom limit m m'
    → SameFrom limit m (put_color bytes at color m')
put_color-SameFrom limit bytes at color m m' three four h same =
    let one = poke-SameFrom limit at (color_byte color 0) m m' (omega arith) same in
    let two = poke-SameFrom limit (at + 1) (color_byte color 1) m _ (omega arith) one in
    let third = poke-SameFrom limit (at + 2) (color_byte color 2) m _ (omega arith) two in
    elim (Bool-cases (bytes == 4)) [
      | inl q ↦ rw q (poke-SameFrom limit (at + 3) 255 m _ (ground arith) third)
      | inr q ↦ rw q third
    ]

-- The pixels of row `y` lie in the frame buffer.
row_inside : (height pitch y n : ℕ) → y < height → n ≤ pitch → y * pitch + n ≤ height * pitch
row_inside height pitch y n h k =
    let rows : (y + 1) * pitch ≤ height * pitch = mul-le-mul_right pitch (omega arith) in
    grind arith

pixel_inside : (width bytes x : ℕ) → x < width → x * bytes + bytes ≤ width * bytes
pixel_inside width bytes x h =
    let cells : (x + 1) * bytes ≤ width * bytes = mul-le-mul_right bytes (omega arith) in
    grind arith

mod-le : (n : ℕ) → n % 2 ^ 32 ≤ n
mod-le n = omega arith

-- `t` differs from `s` in bytes inside the frame buffer only.
abbrev pub Drawn : Screen → Screen → Type 0
Drawn s t = (m : ℕ → ℕ) × (t ≡ record s { memory = m }) × SameFrom (frame_size s) s.memory m

pub fb_putpixel-Drawn :
    (s t : Screen) (x y color : ℕ) → IsFrame s → Drawn s t → Drawn s (fb_putpixel x y color t)
unfolding fb_putpixel
fb_putpixel-Drawn s t x y color f (m, e, same) =
    elim (Bool-cases (leb s.width x || leb s.height y)) [
      | inl q ↦ rw (e, q) (m, refl, same)
      | inr q ↦
          let at = y * s.pitch + x * s.pixel_bytes % 2 ^ 32 in
          let wrapped = mod-le (x * s.pixel_bytes) in
          let cell = pixel_inside s.width s.pixel_bytes x (ground arith) in
          let row =
            row_inside s.height s.pitch y (x * s.pixel_bytes + s.pixel_bytes) (ground arith)
              (omega (arith, cell, f.row_fits)) in
          rw (e, q)
            (
              put_color s.pixel_bytes at color m,
              refl,
              put_color-SameFrom (frame_size s) s.pixel_bytes at color s.memory m f.three f.four
                  (omega (arith, row, wrapped)) same,
            )
    ]

put_row-Drawn :
    (s t : Screen) (x y row bits fg bg : ℕ)
    → IsFrame s
    → Drawn s t
    → Drawn s (put_row x y row bits fg bg t)
unfolding put_row
put_row-Drawn s t x y row bits fg bg f d =
    for_up_inv (Drawn s) 8 0 _ t
      (λ col u lt du.
        for_up_inv (Drawn s) t.scale 0 _ u
          (λ sy v lt' dv.
            for_up_inv (Drawn s) t.scale 0 _ v (λ sx w lt'' dw. fb_putpixel-Drawn s w _ _ _ f dw)
              dv)
          du)
      d

-- Drawing a glyph anywhere changes bytes inside the frame buffer only.
pub fb_putchar-Drawn :
    (font : ℕ → ℕ → ℕ) (s : Screen) (x y c fg bg : ℕ)
    → IsFrame s
    → Drawn s (fb_putchar font x y c fg bg s)
unfolding fb_putchar
fb_putchar-Drawn font s x y c fg bg f =
    for_up_inv (Drawn s) font_height 0 _ s (λ row t lt d. put_row-Drawn s t x y row _ fg bg f d)
      (s.memory, refl, λ i h. refl)

copy_bytes-SameFrom :
    (limit count to from : ℕ) (m m' : ℕ → ℕ)
    → to + count ≤ limit
    → SameFrom limit m m'
    → SameFrom limit m (copy_bytes count to from m')
unfolding copy_bytes
copy_bytes-SameFrom limit count to from m m' h same =
    for_up_inv (SameFrom limit m) count 0 _ m'
      (λ col u lt du. poke-SameFrom limit (to + col) (u (from + col)) m u (omega arith) du) same

fill_row-SameFrom :
    (limit count bytes at color : ℕ) (m m' : ℕ → ℕ)
    → 3 ≤ bytes
    → bytes ≤ 4
    → at + count * bytes ≤ limit
    → SameFrom limit m m'
    → SameFrom limit m (fill_row count bytes at color m')
unfolding fill_row
fill_row-SameFrom limit count bytes at color m m' three four h same =
    for_up_inv (SameFrom limit m) count 0 _ m'
      (λ col u lt du.
        put_color-SameFrom limit bytes (at + col * bytes) color m u three four
          (omega (arith, pixel_inside count bytes col (omega arith))) du)
      same

rows_moved :
    (height ch : ℕ) → height < 2 ^ 31 → ch ≤ height → (height + 2 ^ 64 - ch) % 2 ^ 64 ≡ height - ch
rows_moved height ch h k = omega arith

-- Scrolling changes bytes inside the frame buffer only.
pub fb_scroll-Drawn :
    (s : Screen) (bg : ℕ)
    → IsFrame s
    → s.height < 2 ^ 31
    → cell_height s ≤ s.height
    → Drawn s (fb_scroll bg s)
unfolding fb_scroll
fb_scroll-Drawn s bg f small tall =
    let limit = frame_size s in
    let rows = s.height - cell_height s in
    rw (rows_moved s.height (cell_height s) small tall) (
      _,
      refl,
      for_up_inv (SameFrom limit s.memory) (s.height - rows) rows _ _
          (λ row u lt du.
            fill_row-SameFrom limit s.width s.pixel_bytes (row * s.pitch) bg s.memory u f.three
              f.four
              (row_inside s.height s.pitch row (s.width * s.pixel_bytes) (omega arith) f.row_fits)
              du)
          (for_up_inv (SameFrom limit s.memory) rows 0 _ s.memory
            (λ row u lt du.
              copy_bytes-SameFrom limit (s.width * s.pixel_bytes) (row * s.pitch) _ s.memory u
                (row_inside s.height s.pitch row (s.width * s.pixel_bytes) (omega arith) f.row_fits)
                du)
            (λ i h. refl)),
    )
