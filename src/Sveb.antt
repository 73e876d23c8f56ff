-- ===== src/Sveb.antt =====
-- The static van Emde Boas tree of SVEB/staticvebtree.c: its global variables, the way from a node to
-- a child and back, and the table from which the addresses are computed.
pub mod Layout
pub mod Table
pub mod Levels
pub mod Cursor
pub mod Contents
pub mod Places
pub mod Traversal
pub mod Search
pub mod Descent
pub mod Lookup
pub mod Answers
pub mod Start
pub mod Subtrees
pub mod Written
pub mod Helper
pub mod Parts
pub mod Rebuild
pub mod Sorted
pub mod Place
pub mod Growth
pub mod Insertion
pub mod Calls
pub mod Way
pub mod Insert
use Prim.Native.Nat.{bit_and}
use green_hash_tree.Prelude.{
  ℕ, zero, suc, ◌+◌, ◌-◌, ◌*◌, ◌/◌, ◌^◌, ◌==◌, Bool, true, false, ◌&&◌, List, [], ◌∷◌,
  if◌then◌else◌, ltb, leb, update,
}
use green_hash_tree.Prelude.Int.{ℤ, pos, negsuc}
use green_hash_tree.Prelude.Run.{Run, ok, blocked, fault, ◌>>=◌}
use green_hash_tree.Msgq.{Mutex}
use green_hash_tree.Shm.{Chars}

-- MAXINT, which marks a node without a key.
abbrev pub max_int : ℤ
max_int = pos (2 ^ 31 - 1)

-- `levelinfo`
pub record LevelInfo : Type 0 where
  pub p : ℕ
  pub ts : ℕ
  pub bs : ℕ

-- The global variables. `val` has `val_length` elements, `myli` and `anc` have 40. `rh_end` is `rh + 1`,
-- since `rh` may be -1. `simdataset` is its slots of 32 bytes, and `example` is EXAMPLEDATA. What an
-- array holds before the first write to it is arbitrary.
pub record Veb : Type 0 where
  pub val : ℕ → ℤ
  pub val_length : ℕ
  pub size : ℕ
  pub max_dep : ℕ
  pub myli : ℕ → LevelInfo
  pub anc : ℕ → ℕ
  pub h : ℕ
  pub bf : ℕ
  pub helper : ℕ → ℤ
  pub helper_length : ℕ
  pub lh : ℕ
  pub rh_end : ℕ
  pub key : ℤ
  pub level : ℕ
  pub was_in : Bool
  pub keys : ℕ
  pub res : ℤ
  pub next_value : ℕ
  pub depth : ℕ
  pub max_path : ℕ
  pub sum_path : ℕ
  pub n : ℕ
  pub global_lock : Mutex
  pub simdataset : ℕ → Chars
  pub simsize : ℕ
  pub example : Chars

-- The length of `myli` and of `anc`.
abbrev pub table_length : ℕ
table_length = 40

-- `a[i]` of an array with `n` elements, and `a[i] = x`
abbrev pub read {ℓ} : {A : Type ℓ} → (ℕ → A) → (n i : ℕ) → Run A
read a n i = if ltb i n then ok (a i) else fault

abbrev pub write {ℓ} : {A : Type ℓ} → (ℕ → A) → (n i : ℕ) → A → Run (ℕ → A)
write a n i x = if ltb i n then ok (update a i x) else fault

abbrev pub val_at : ℕ → Veb → Run ℤ
val_at ad s = read s.val s.val_length ad

abbrev pub put_val : ℕ → ℤ → Veb → Run Veb
put_val ad x s = do val ← write s.val s.val_length ad x; ok (record s { val = val })

abbrev pub helper_at : ℕ → Veb → Run ℤ
helper_at i s = read s.helper s.helper_length i

abbrev pub put_helper : ℕ → ℤ → Veb → Run Veb
put_helper i x s = do helper ← write s.helper s.helper_length i x; ok (record s { helper = helper })

-- `ad < size && h > 0`
abbrev pub in_tree : ℕ → Veb → Bool
in_tree ad s = ltb ad s.size && ltb 0 s.h

-- `h=max_dep;bf=1;anc[max_dep]=0;`
unfoldable pub to_root : Veb → Run Veb
to_root s = do
  anc ← write s.anc table_length s.max_dep 0
  ok (record s { h = s.max_dep; bf = 1; anc = anc })

-- To the left child (0) or the right one (1): `h--;` and the address that the next call gets.
unfoldable pub down : ℕ → Veb → Run (ℕ × Veb)
down bit s = do
  let h = s.h - 1
  let bf = s.bf * 2 + bit
  li ← read s.myli table_length h
  above ← read s.anc table_length li.p
  let ad = li.bs * bit_and bf li.ts + li.ts + above
  anc ← write s.anc table_length h ad
  ok (ad, record s { h = h; bf = bf; anc = anc })

-- `h++;bf=bf>>1;`
abbrev pub up : Veb → Veb
up s = record s { h = s.h + 1; bf = s.bf / 2 }

-- `init_height`
unfoldable pub init_height : (fuel : ℕ) → (top bot : ℕ) → (ℕ → LevelInfo) → Run (ℕ → LevelInfo)
init_height zero top bot myli = blocked
init_height (suc fuel) top bot myli =
    let me = (top + bot + 1) / 2 in
    let split : Run (ℕ → LevelInfo) = (do
      myli' ←
          write myli table_length me
            (record { p = top; ts = 2 ^ (top - me) - 1; bs = 2 ^ (me - bot) - 1 })
      myli'' ← init_height fuel top me myli'
      init_height fuel me bot myli'') in
    if leb top (bot + 1) then ok myli else split

-- `while((hnn=(hnn>>1)))max_dep++;`
unfoldable pub halvings : (fuel : ℕ) → ℕ → Run ℕ
halvings zero hnn = blocked
halvings (suc fuel) hnn =
    let further : Run ℕ = (do n ← halvings fuel (hnn / 2); ok (n + 1)) in
    if hnn / 2 == 0 then ok 0 else further

unfoldable pub initialize_depth : ℕ → Veb → Run Veb
unfolding halvings init_height
initialize_depth nn s = do
  n ← halvings (nn + 1) nn
  let max_dep = n + 1
  let myli = update s.myli 0 (record { p = 0; ts = 0; bs = 0 })
  myli' ← init_height (max_dep + 1) max_dep 0 myli
  ok (record s { max_dep = max_dep; myli = myli' })

-- `int++` of a value in the tree; beyond INT_MAX the behaviour is undefined.
unfoldable pub plus_one : ℤ → Run ℤ
plus_one (pos n) = if ltb n (2 ^ 31 - 1) then ok (pos (n + 1)) else fault
plus_one (negsuc zero) = ok (pos 0)
plus_one (negsuc (suc n)) = ok (negsuc n)
