-- ===== src/Keyboard/Zoom.antt =====
-- A key that changes the size of the font leaves a well-formed terminal.
use lxtos.Prelude.{
  ℕ, ◌+◌, ◌-◌, ◌≤◌, ◌<◌, ◌≡◌, refl, ◌&&◌, ◌||◌, some, List, [], ◌∷◌, arith, ltb, leb, ◌==◌,
  Bool-cases, inl, inr, Option, Option-cases, none-some, subst,
}
use lxtos.Screen.{Screen, fb_fill}
use lxtos.Screen.Inside.{IsFrame, Drawn, for_up_inv, fb_putpixel-Drawn}
use lxtos.Screen.Cursor.{IsTerm}
use lxtos.Keyboard.{
  Console, sc_lshift, sc_rshift, sc_lshift_r, sc_rshift_r, sc_lctrl, sc_lctrl_r, color_bg,
  clear_screen, zoom_in, zoom_out, key_char, char_step, key_step, getchar_loop, kb_getchar,
}

-- A well-formed terminal on a screen that has room for a character of the largest size.
pub record IsRoomy (s : Screen) : Type 0 where
  pub term : IsTerm s
  pub wide : 32 ≤ s.width
  pub tall : 64 ≤ s.height

fb_fill-Drawn : (s : Screen) (color : ℕ) → IsFrame s → Drawn s (fb_fill color s)
unfolding fb_fill
fb_fill-Drawn s color f =
    for_up_inv (Drawn s) s.height 0 _ s
      (λ y t lt d.
        for_up_inv (Drawn s) s.width 0 _ t (λ x u lt' d'. fb_putpixel-Drawn s u x y color f d') d)
      (s.memory, refl, λ i h. refl)

clear_screen-IsRoomy :
    (s : Screen) (n : ℕ)
    → IsRoomy s
    → 0 < n
    → n ≤ 4
    → IsRoomy (clear_screen (record s { scale = n }))
unfolding clear_screen
clear_screen-IsRoomy s n r lo hi =
    let t = r.term in
    let s' = record s { scale = n } in
    let frame : IsFrame s' = record {
      row_fits = t.frame.row_fits;
      three = t.frame.three;
      four = t.frame.four;
    } in
    let (m, e, same) = fb_fill-Drawn s' color_bg frame in
    rw e (record {
      term = record {
        frame = record { row_fits = t.frame.row_fits; three = t.frame.three; four = t.frame.four };
        narrow = t.narrow;
        low = t.low;
        scale_pos = lo;
        scale_max = hi;
        column = omega (arith, r.wide);
        line = omega (arith, r.tall);
        escape_fits = t.escape_fits;
        utf8_bound = t.utf8_bound;
      };
      wide = r.wide;
      tall = r.tall;
    })

zoom_in-IsRoomy : (s : Screen) → IsRoomy s → IsRoomy (zoom_in s)
unfolding zoom_in
zoom_in-IsRoomy s r = elim (Bool-cases (ltb s.scale 4)) [
  | inl q ↦ rw q (clear_screen-IsRoomy s (s.scale + 1) r (omega arith) (ground arith))
  | inr q ↦ rw q (clear_screen-IsRoomy s s.scale r r.term.scale_pos r.term.scale_max)
]

zoom_out-IsRoomy : (s : Screen) → IsRoomy s → IsRoomy (zoom_out s)
unfolding zoom_out
zoom_out-IsRoomy s r = elim (Bool-cases (ltb 1 s.scale)) [
  | inl q ↦
      rw q (clear_screen-IsRoomy s (s.scale - 1) r (ground arith) (omega (arith, r.term.scale_max)))
  | inr q ↦ rw q (clear_screen-IsRoomy s s.scale r r.term.scale_pos r.term.scale_max)
]

-- The character behind the scan code, and what it does.
char_step-IsRoomy : (c : ℕ) (k : Console) → IsRoomy k.screen → IsRoomy (char_step c k).1.screen
unfolding char_step
char_step-IsRoomy c k r = elim (Bool-cases (c == 0)) [
  | inl q ↦ rw q r
  | inr q ↦ elim (Bool-cases (k.ctrl_held && (c == b'=' || c == b'+'))) [
    | inl p ↦ rw (q, p) (zoom_in-IsRoomy k.screen r)
    | inr p ↦ elim (Bool-cases (k.ctrl_held && c == b'-')) [
      | inl t ↦ rw (q, p, t) (zoom_out-IsRoomy k.screen r)
      | inr t ↦ rw (q, p, t) r
    ]
  ]
]

key_step-IsRoomy : (sc : ℕ) (k : Console) → IsRoomy k.screen → IsRoomy (key_step sc k).1.screen
unfolding key_step
key_step-IsRoomy sc k r =
    let c = key_char k.shift_held sc in
    elim (Bool-cases (sc == sc_lshift || sc == sc_rshift)) [
      | inl q ↦ rw q r
      | inr q ↦ elim (Bool-cases (sc == sc_lshift_r || sc == sc_rshift_r)) [
        | inl p ↦ rw (q, p) r
        | inr p ↦ elim (Bool-cases (sc == sc_lctrl)) [
          | inl t ↦ rw (q, p, t) r
          | inr t ↦ elim (Bool-cases (sc == sc_lctrl_r)) [
            | inl u ↦ rw (q, p, t, u) r
            | inr u ↦ elim (Bool-cases (leb 128 sc)) [
              | inl v ↦ rw (q, p, t, u, v) r
              | inr v ↦ rw (q, p, t, u, v) (char_step-IsRoomy c k r)
            ]
          ]
        ]
      ]
    ]

some-pair :
    {c d : ℕ} {k k' : Console}
    → ◌≡◌ {A = Option (ℕ × Console)} (some (c, k)) (some (d, k'))
    → k ≡ k'
some-pair e = ground arith

getchar_loop-IsRoomy :
    (codes : List ℕ) (k k' : Console) (c : ℕ)
    → IsRoomy k.screen
    → getchar_loop codes k ≡ some (c, k')
    → IsRoomy k'.screen
unfolding getchar_loop
getchar_loop-IsRoomy [] k k' c r e = absurd (none-some e)
getchar_loop-IsRoomy (sc ∷ rest) k k' c r e =
    let step = key_step-IsRoomy sc k r in
    elim (Option-cases (key_step sc k).0) [
      | inl q ↦ getchar_loop-IsRoomy rest (key_step sc k).1 k' c step (rw (q, getchar_loop) at e)
      | inr (d, q) ↦ subst (λ x. IsRoomy x.screen) (some-pair (rw (q, getchar_loop) at e)) step
    ]

-- From a well-formed terminal on a screen with room for the largest font, whatever the scan codes, the
-- call of `kb_getchar` that returns leaves such a terminal, with a font between 1 and 4.
pub kb_getchar-IsRoomy :
    (k k' : Console) (c : ℕ) → IsRoomy k.screen → kb_getchar k ≡ some (c, k') → IsRoomy k'.screen
unfolding kb_getchar
kb_getchar-IsRoomy k k' c r e = getchar_loop-IsRoomy k.input k k' c r e
