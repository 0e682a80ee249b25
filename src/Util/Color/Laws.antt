-- ===== src/Util/Color/Laws.antt =====
-- `increaseBrightness` on colours written with six hexadecimal digits.
use shabdiz.Prelude.{
  ℕ, zero, suc, ◌+◌, ◌-◌, ◌*◌, ◌/◌, ◌%◌, ◌^◌, ◌≤◌, ◌<◌, ◌≡◌, ◌⊎◌, inl, inr, Bool-cases, ltb, sym,
  refl, ◌∙◌, Bool, true, false, ◌&&◌, [], ◌∷◌, ◌++◌, arith, ◌==◌, ==_iff, ap, All,
}
use native.Mathlib.Nat.{add_assoc}
use shabdiz.Prelude.Int.{pos, negsuc}
use shabdiz.Text.{Text, codes, eq_text, eq_text→eq, trim_end, is_space}
use shabdiz.Text.Number.{Number, int, nan}
use shabdiz.Util.HashCode.{to_int32}
use shabdiz.Util.Strings.{drop}
use shabdiz.Util.Color.{strip, parse_hex, hex_digit, show_hex, channel, increase_brightness}

-- A byte as two hexadecimal digits.
abbrev pub two_digits : ℕ → Text
two_digits r = hex_digit (r / 16) ∷ hex_digit (r % 16) ∷ []

abbrev pub color : ℕ → ℕ → ℕ → Text
color r g b = codes "#" ++ (two_digits r ++ (two_digits g ++ two_digits b))

holds_below : (ℕ → Bool) → ℕ → Bool
holds_below test zero = true
holds_below test (suc bound) = test bound && holds_below test bound

table_lem :
    (test : ℕ → Bool) (bound k : ℕ) → k < bound → holds_below test bound ≡ true → test k ≡ true
unfolding holds_below
table_lem test zero k lt all = absurd (omega arith)
table_lem test (suc bound) k lt all = ground (arith, table_lem test bound k)

abbrev is_read : ℕ → Number → Bool
is_read r (int (pos n)) = n == r
is_read r _ = false

read_table : holds_below (λ r. is_read r (parse_hex (two_digits r))) 256 ≡ true
unfolding holds_below parse_hex is_space
read_table = refl

show_table : holds_below (λ k. eq_text (show_hex (pos (256 + k))) (b'1' ∷ two_digits k)) 256 ≡ true
unfolding holds_below show_hex
show_table = refl

read_two_digits : (r : ℕ) → r < 256 → parse_hex (two_digits r) ≡ int (pos r)
read_two_digits r h = is_read_sound (parse_hex (two_digits r)) (table_lem _ 256 r h read_table)
  where
    is_read_sound : (n : Number) → is_read r n ≡ true → n ≡ int (pos r)
    is_read_sound (int (pos n)) e = ap (λ (k : ℕ). int (pos k)) ((==_iff n r).0 e)
    is_read_sound (int (negsuc n)) e = cc
    is_read_sound nan e = cc

show_two_digits : (k : ℕ) → k < 256 → show_hex (pos (256 + k)) ≡ b'1' ∷ two_digits k
show_two_digits k h = eq_text→eq _ _ (table_lem _ 256 k h show_table)

-- A channel brightened by a percentage below a hundred.
abbrev pub lifted : ℕ → ℕ → ℕ
lifted r percent = r + (256 - r) * percent / 100

lifted-lt : (r p : ℕ) → r < 256 → p < 100 → lifted r p < 256
lifted-lt r p hr hp = let bound : (256 - r) * p ≤ (256 - r) * 99 = grind arith in omega arith

to_int32_small : (n : ℕ) → n < 2 ^ 31 → to_int32 (pos n) ≡ pos n
unfolding to_int32
to_int32_small n h = ground arith

channel-two_digits :
    (r p : ℕ) → r < 256 → p < 100 → channel (two_digits r) p ≡ two_digits (lifted r p)
unfolding channel
channel-two_digits r p hr hp =
    let small = lifted-lt r p hr hp in
    rw (read_two_digits r hr) (
      ap (λ z. drop 1 (show_hex z)) (to_int32_small _ (omega arith) ∙ ap pos (add_assoc 256 r _))
      ∙ ap (drop 1) (show_two_digits (lifted r p) small))

channel_hundred : (r : ℕ) → r < 256 → channel (two_digits r) 100 ≡ codes "00"
unfolding channel
channel_hundred r hr = rw (read_two_digits r hr) (
    ap (λ z. drop 1 (show_hex z)) (ap (λ n. to_int32 (pos n)) full)
    ∙ (unfold to_int32 show_hex in refl))
  where
    full : 256 + r + (256 - r) * 100 / 100 ≡ 512
    full = omega arith

not_space : (d : ℕ) → d < 16 → is_space (hex_digit d) ≡ false
unfolding is_space
not_space d h = ground arith

trim_end_visible : (s : Text) → All (λ c. is_space c ≡ false) s → trim_end s ≡ s
unfolding trim_end
trim_end_visible [] h = refl
trim_end_visible (c ∷ s) (hc, hs) = rw (hc, trim_end) (ap (c ∷◌) (trim_end_visible s hs))

strip-color :
    (r g b : ℕ)
    → r < 256
    → g < 256
    → b < 256
    → strip (color r g b) ≡ two_digits r ++ (two_digits g ++ two_digits b)
unfolding strip is_space
strip-color r g b hr hg hb = trim_end_visible (two_digits r ++ (two_digits g ++ two_digits b)) (
  not_space (r / 16) (omega arith),
  (
    not_space (r % 16) (omega arith),
    (
      not_space (g / 16) (omega arith),
      (
        not_space (g % 16) (omega arith),
        (not_space (b / 16) (omega arith), (not_space (b % 16) (omega arith), tt)),
      ),
    ),
  ),
)

-- Below a hundred percent each channel of a colour of three bytes is lifted towards 256 by the
-- percentage of what it lacks, and is a byte that is not below the one that was given.
pub increase_brightness-color :
    (r g b p : ℕ)
    → r < 256
    → g < 256
    → b < 256
    → p < 100
    → (increase_brightness (color r g b) p ≡ color (lifted r p) (lifted g p) (lifted b p))
      × (r ≤ lifted r p)
      × (lifted r p < 256)
      × (g ≤ lifted g p)
      × (lifted g p < 256)
      × (b ≤ lifted b p)
      × (lifted b p < 256)
unfolding increase_brightness
increase_brightness-color r g b p hr hg hb hp = (
  rw (
    strip-color r g b hr hg hb,
    channel-two_digits r p hr hp,
    channel-two_digits g p hg hp,
    channel-two_digits b p hb hp,
  ),
  omega arith,
  lifted-lt r p hr hp,
  omega arith,
  lifted-lt g p hg hp,
  omega arith,
  lifted-lt b p hb hp,
)

-- At a hundred percent every colour of three bytes becomes black.
pub increase_brightness_hundred :
    (r g b : ℕ) → r < 256 → g < 256 → b < 256 → increase_brightness (color r g b) 100 ≡ color 0 0 0
unfolding increase_brightness
increase_brightness_hundred r g b hr hg hb =
    rw
      (strip-color r g b hr hg hb, channel_hundred r hr, channel_hundred g hg, channel_hundred b hb)

-- A channel is a byte that is not below the one that was given, or at a hundred percent one too many
-- for a byte.
abbrev pub IsRaised : ℕ → ℕ → Type 0
IsRaised r p =
    (r ≤ lifted r p) × (((p < 100) × (lifted r p < 256)) ⊎ ((p ≡ 100) × (lifted r p ≡ 256)))

lifted-full : (r : ℕ) → r < 256 → lifted r 100 ≡ 256
lifted-full r hr = omega arith

color-byte :
    {x y z : ℕ} → x < 256 → y < 256 → z < 256 → color (x % 256) (y % 256) (z % 256) ≡ color x y z
color-byte {x} {y} {z} hx hy hz =
    let same : (n : ℕ) → n < 256 → n % 256 ≡ n = λ n h. omega arith in
    rw (same x hx, same y hy, same z hz) refl

color-overflow :
    {x y z : ℕ} → x ≡ 256 → y ≡ 256 → z ≡ 256 → color (x % 256) (y % 256) (z % 256) ≡ color 0 0 0
color-overflow {x} {y} {z} hx hy hz = rw (hx, hy, hz) refl

lifted-IsRaised : (r p : ℕ) → r < 256 → p ≤ 100 → IsRaised r p
lifted-IsRaised r p hr hp = elim (Bool-cases (ltb p 100)) [
  | inl e ↦ let small : p < 100 = ground arith in (omega arith, inl (small, lifted-lt r p hr small))
  | inr e ↦
      let full : p ≡ 100 = ground arith in
      (rw full (omega arith), inr (full, rw full (omega arith)))
]

-- Up to a hundred percent each channel of a colour of three bytes is lifted towards 256 by the
-- percentage of what it lacks, and its last two hexadecimal digits are kept: a byte that is not
-- below the one that was given, but at a hundred percent the 256 of every channel becomes 0, and
-- the colour black.
pub increase_brightness-lifted :
    (r g b p : ℕ)
    → r < 256
    → g < 256
    → b < 256
    → p ≤ 100
    → (increase_brightness (color r g b) p
        ≡ color (lifted r p % 256) (lifted g p % 256) (lifted b p % 256))
      × IsRaised r p
      × IsRaised g p
      × IsRaised b p
increase_brightness-lifted r g b p hr hg hb hp = (
  elim (Bool-cases (ltb p 100)) [
    | inl e ↦
        let small : p < 100 = ground arith in
        (increase_brightness-color r g b p hr hg hb small).0
        ∙ sym
            (color-byte (lifted-lt r p hr small) (lifted-lt g p hg small) (lifted-lt b p hb small))
    | inr e ↦
        let full : p ≡ 100 = ground arith in
        rw full (
          increase_brightness_hundred r g b hr hg hb
          ∙ sym (color-overflow (lifted-full r hr) (lifted-full g hg) (lifted-full b hb)))
  ],
  lifted-IsRaised r p hr hp,
  lifted-IsRaised g p hg hp,
  lifted-IsRaised b p hb hp,
)
