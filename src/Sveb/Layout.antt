-- ===== src/Sveb/Layout.antt =====
-- The van Emde Boas layout, by the table that `init_height` fills: where the nodes of a level stand.
use green_hash_tree.Prelude.{
  ℕ, ◌+◌, ◌-◌, ◌*◌, ◌/◌, ◌%◌, ◌^◌, ◌≤◌, ◌<◌, ◌≡◌, refl, true, false, if◌then◌else◌, ltb, arith,
}
use green_hash_tree.Sveb.{LevelInfo}

-- The entry for the level `me`, at which a subtree with the levels from `bot + 1` to `top` is cut in two.
abbrev pub cut_entry : (top me bot : ℕ) → LevelInfo
cut_entry top me bot = record { p = top; ts = 2 ^ (top - me) - 1; bs = 2 ^ (me - bot) - 1 }

-- How a table cuts the levels from `bot + 1` to `top`.
pub data Laid (myli : ℕ → LevelInfo) : ℕ → ℕ → Type 0 where
  one_level : {top bot : ℕ} → top ≤ bot + 1 → Laid myli top bot
  split :
      {top bot : ℕ} (me : ℕ)
      → bot < me
      → me < top
      → myli me ≡ cut_entry top me bot
      → Laid myli top me
      → Laid myli me bot
      → Laid myli top bot

-- The place of the node `c` of the level `l`, counted from the left: in the upper part, or in one of
-- the lower parts, which stand one after the other behind it.
unfoldable pub place : {myli : ℕ → LevelInfo} {top bot : ℕ} → Laid myli top bot → (l c : ℕ) → ℕ
place (one_level h) l c = 0
place {top = top} {bot = bot} (split me h g e upper lower) l c =
    if ltb me l
    then place upper l c
    else 2 ^ (top - me)
      - 1
      + (2 ^ (me - bot) - 1) * (c / 2 ^ (me - l))
      + place lower l (c % 2 ^ (me - l))

module _ {myli : ℕ → LevelInfo} where
  pub place-root : {top bot : ℕ} (t : Laid myli top bot) → place t top 0 ≡ 0
  unfolding place
  place-root (one_level h) = refl
  place-root {top = top} (split me h g e upper lower) =
      let above : ltb me top ≡ true = ground arith in rw above (place-root upper)

  module _ {top bot : ℕ} (me : ℕ) (h : bot < me) (g : me < top) (e : myli me ≡ cut_entry top me bot)
      (upper : Laid myli top me) (lower : Laid myli me bot) where
    abbrev pub whole : Laid myli top bot
    whole = split me h g e upper lower

    pub place_upper : (l c : ℕ) → me < l → place whole l c ≡ place upper l c
    unfolding place
    place_upper l c a = let above : ltb me l ≡ true = ground arith in rw above refl

    pub place_lower :
        (l c : ℕ)
        → l ≤ me
        → place whole l c
          ≡ 2 ^ (top - me)
            - 1
            + (2 ^ (me - bot) - 1) * (c / 2 ^ (me - l))
            + place lower l (c % 2 ^ (me - l))
    unfolding place
    place_lower l c a = let above : ltb me l ≡ false = ground arith in rw above refl

  -- What the table says of a level.
  pub record Level {top bot : ℕ} (t : Laid myli top bot) (l : ℕ) : Type 0 where
    pub above : l < (myli l).p
    pub within : (myli l).p ≤ top
    pub mask : (myli l).ts ≡ 2 ^ ((myli l).p - l) - 1
    pub address :
        (c : ℕ)
        → c < 2 ^ (top - l)
        → place t l c
          ≡ (myli l).bs * (c % 2 ^ ((myli l).p - l))
            + (myli l).ts
            + place t (myli l).p (c / 2 ^ ((myli l).p - l))
