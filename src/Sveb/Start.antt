-- ===== src/Sveb/Start.antt =====
-- `initialize_depth` and `init_tree`: the table for a number of levels, and the empty tree.
use green_hash_tree.Prelude.{
  ℕ, zero, suc, ◌+◌, ◌*◌, ◌/◌, ◌^◌, ◌<◌, ◌≡◌, refl, sym, ap, inl, false, [], ◌==◌, update, arith,
}
use mathlib.Core.Path.{subst}
use green_hash_tree.Prelude.Powers.{pow_pos}
use green_hash_tree.Prelude.Int.{ℤ}
use green_hash_tree.Prelude.Run.{ok, Gives, gives, Gives-bind}
use green_hash_tree.Msgq.{open_mutex}
use green_hash_tree.Shm.{indeterminate}
use native.Mathlib.Nat.{pow-suc}
use green_hash_tree.Sveb.{LevelInfo, Veb, max_int, table_length, halvings, initialize_depth}
use green_hash_tree.Sveb.Layout.{Laid}
use green_hash_tree.Sveb.Table.{init_height_lem}
use green_hash_tree.Sveb.Contents.{keys_below, IsOrdered, AllBelow, AllAbove}
use green_hash_tree.Sveb.Lookup.{IsPerfect, keys_of, IsSearchTree}
use green_hash_tree.Sveb.Calls.{init_memory, init_tree}

halvings_lem : (fuel l n : ℕ) → l < fuel → n + 1 ≡ 2 ^ suc l → halvings fuel n ≡ ok l
unfolding halvings
halvings_lem zero l n h e = elim h [ ]
halvings_lem (suc fuel) zero n h e = let one : n ≡ 1 = omega (arith, e, pow-suc 2 0) in rw one refl
halvings_lem (suc fuel) (suc l) n h e =
    let half : n / 2 + 1 ≡ 2 ^ suc l = omega (arith, e, pow-suc 2 (suc l)) in
    let more : (n / 2 == 0) ≡ false = ground (arith, half, pow-suc 2 l, pow_pos l) in
    let rest : halvings fuel (n / 2) ≡ ok l = halvings_lem fuel l (n / 2) (omega arith) half in
    let next : l + 1 ≡ suc l = omega arith in rw (more, rest) (ap ok next)

lt-pow : (l : ℕ) → l < 2 ^ l
lt-pow zero = omega arith
lt-pow (suc l) = omega (arith, pow-suc 2 l, lt-pow l)

-- What `initialize_depth` leaves for `l + 1` levels.
pub record LaidOut (l : ℕ) (s s' : Veb) : Type 0 where
  pub myli : ℕ → LevelInfo
  pub laid : Laid myli (suc l) 0
  pub low : (myli 0).p < table_length
  pub state : s' ≡ record s { max_dep = suc l; myli = myli }

pub initialize_depth_lem :
    (l n : ℕ) (s : Veb)
    → n + 1 ≡ 2 ^ suc l
    → suc l < table_length
    → Gives (LaidOut l s) (initialize_depth n s)
unfolding initialize_depth
initialize_depth_lem l n s e lt =
    let depth : halvings (n + 1) n ≡ ok l =
      halvings_lem (n + 1) l n (omega (arith, e, lt-pow (suc l))) e in
    let one : l + 1 ≡ suc l = omega arith in
    let first : ℕ → LevelInfo = update s.myli 0 (record { p = 0; ts = 0; bs = 0 }) in
    rw (depth, one)
      (Gives-bind (init_height_lem (suc l + 1) (suc l) 0 first (omega arith) (omega (arith, lt)))
        λ myli f.
          let zeroth : (myli 0).p ≡ 0 =
            ap (λ (x : LevelInfo). x.p) (f.others 0 (inl (omega arith))) in
          gives (record { myli = myli; laid = f.laid; low = omega (arith, zeroth); state = refl }))

-- A tree whose nodes have no key.
module _ {myli : ℕ → LevelInfo} {d : ℕ} (t : Laid myli d 0) where
  pub keys_below-vacant : (l b : ℕ) → keys_below t (λ _. max_int) l b ≡ []
  unfolding keys_below
  keys_below-vacant zero b = refl
  keys_below-vacant (suc l) b =
      rw (keys_below-vacant l (b * 2 + 0), keys_below-vacant l (b * 2 + 1)) refl

  pub IsOrdered-vacant : (l b : ℕ) → IsOrdered t (λ _. max_int) l b
  IsOrdered-vacant zero b = tt
  IsOrdered-vacant (suc l) b = (
    subst (AllBelow max_int) (sym (keys_below-vacant l (b * 2 + 0))) tt,
    subst (AllAbove max_int) (sym (keys_below-vacant l (b * 2 + 1))) tt,
    IsOrdered-vacant l (b * 2 + 0),
    IsOrdered-vacant l (b * 2 + 1),
  )

-- An empty tree, unlocked.
pub record IsEmpty (slots : ℕ) (s : Veb) : Type 0 where
  pub seven : s.size ≡ 7
  pub three_levels : s.max_dep ≡ 3
  pub perfect : IsPerfect s
  pub ordered : IsSearchTree s perfect
  pub no_keys : keys_of s perfect ≡ []
  pub free : s.global_lock ≡ open_mutex
  pub slots_eq : s.simsize ≡ slots

-- `init_tree` ends, whatever the global variables were, and leaves an unlocked search tree of seven
-- nodes, with its three levels laid out, that has no key, and as many slots in `simdataset` as it was
-- asked for.
pub init_tree_lem : (garbage : ℕ → ℤ) (n : ℕ) (s : Veb) → Gives (IsEmpty n) (init_tree garbage n s)
unfolding init_tree init_memory
init_tree_lem garbage n s =
    let blank : Veb = record s {
      n = n;
      simdataset = λ _. indeterminate;
      simsize = n;
      size = 7;
      val = λ _. max_int;
      val_length = 9;
      helper = garbage;
      helper_length = 14;
    } in
    Gives-bind (initialize_depth_lem 2 7 blank refl (omega arith)) λ s' x.
      let filled : Veb = record blank { max_dep = 3; myli = x.myli; global_lock = open_mutex } in
      let perfect : IsPerfect filled = record {
        levels = 2;
        deep = refl;
        laid = x.laid;
        few = omega arith;
        low = x.low;
        sized = refl;
        long = omega arith;
      } in
      subst (λ y. Gives (IsEmpty n) (ok (record y { global_lock = open_mutex }))) (sym x.state)
        (gives {x = filled} (record {
          seven = refl;
          three_levels = refl;
          perfect = perfect;
          ordered = IsOrdered-vacant x.laid 3 1;
          no_keys = keys_below-vacant x.laid 3 1;
          free = refl;
          slots_eq = refl;
        }))
