-- ===== src/Sveb/Insertion.antt =====
-- The insertion of staticvebtree.c: a key that finds no room goes to `helper`, with the keys of the
-- subtrees on the way back, up to one that is sparse enough to be built anew from them.
use green_hash_tree.Prelude.{ℕ, zero, suc, ◌+◌, ◌-◌, ◌*◌, ◌/◌, ◌==◌, Bool, true, if◌then◌else◌, leb}
use green_hash_tree.Prelude.Int.{ℤ, negsuc, int_lt, int_eq}
use green_hash_tree.Prelude.Run.{Run, ok, blocked, fault, ◌>>=◌}
use green_hash_tree.Msgq.{int_max}
use green_hash_tree.Sveb.{
  Veb, max_int, val_at, put_val, helper_at, put_helper, in_tree, to_root, down, up,
  initialize_depth,
}

-- `rebuild`: the keys `helper[lh]` to `helper[rh]` go to the subtree of a node, the middle one first.
unfoldable pub rebuild : (fuel : ℕ) → ℕ → Veb → Run Veb
unfolding down
rebuild zero node s = blocked
rebuild (suc fuel) node s =
    let m = (s.lh + s.rh_end - 1) / 2 in
    let vacant : Run Veb = (do
      (left, s1) ← down 0 s
      s2 ← rebuild fuel left s1
      s3 ← put_val node max_int (up s2)
      (right, s4) ← down 1 s3
      s5 ← rebuild fuel right s4
      ok (up s5)) in
    let filled : Run Veb = (do
      (left, s1) ← down 0 (record s { rh_end = m })
      s2 ← rebuild fuel left s1
      let s3 = record (up s2) { rh_end = s.rh_end }
      x ← helper_at m s3
      s4 ← put_val node x s3
      (right, s5) ← down 1 (record s4 { lh = m + 1 })
      s6 ← rebuild fuel right s5
      ok (up s6)) in
    if in_tree node s then (if leb s.rh_end s.lh then vacant else filled) else ok s

-- `lh--;helper[lh] = x;`
unfoldable pub push_left : ℤ → Veb → Run Veb
push_left x s = if s.lh == 0 then fault else put_helper (s.lh - 1) x (record s { lh = s.lh - 1 })

-- `rh++;helper[rh] = x;`
unfoldable pub push_right : ℤ → Veb → Run Veb
push_right x s = put_helper s.rh_end x (record s { rh_end = s.rh_end + 1 })

-- `l_count` moves the keys of a subtree to `helper`, the last one first, and counts them.
unfoldable pub l_count : (fuel : ℕ) → ℕ → Veb → Run (ℕ × Veb)
unfolding down push_left
l_count zero node s = blocked
l_count (suc fuel) node s =
    let inside : Run (ℕ × Veb) = (do
      (right, s1) ← down 1 s
      (c, s2) ← l_count fuel right s1
      let s3 = up s2
      x ← val_at node s3
      s4 ← push_left x s3
      s5 ← put_val node (negsuc 2) s4
      (left, s6) ← down 0 s5
      (c', s7) ← l_count fuel left s6
      ok (c + 1 + c', up s7)) in
    let counted : Run (ℕ × Veb) = (do
      v ← val_at node s
      if int_eq max_int v then ok (0, s) else inside) in
    if in_tree node s then counted else ok (0, s)

-- `r_count`, the first key first.
unfoldable pub r_count : (fuel : ℕ) → ℕ → Veb → Run (ℕ × Veb)
unfolding down push_right
r_count zero node s = blocked
r_count (suc fuel) node s =
    let inside : Run (ℕ × Veb) = (do
      (left, s1) ← down 0 s
      (c, s2) ← r_count fuel left s1
      let s3 = up s2
      x ← val_at node s3
      s4 ← push_right x s3
      s5 ← put_val node (negsuc 1) s4
      (right, s6) ← down 1 s5
      (c', s7) ← r_count fuel right s6
      ok (c + 1 + c', up s7)) in
    let counted : Run (ℕ × Veb) = (do
      v ← val_at node s
      if int_eq max_int v then ok (0, s) else inside) in
    if in_tree node s then counted else ok (0, s)

-- The part of `insert` for a key that has left `c` keys in `helper`: a tree with a level more,
-- built from them. `garbage` is what the new `helper` holds.
unfoldable pub resize : (garbage : ℕ → ℤ) → Veb → Run Veb
unfolding initialize_depth to_root rebuild
resize garbage s =
    let size = (s.size + 1) * 2 - 1 in
    let grown : Run Veb = (do
      s1 ← initialize_depth size (record s { size = size })
      s2 ← to_root (record s1 { val = λ _. max_int; val_length = size + 2 })
      s3 ← rebuild (s2.max_dep + 1) 0 s2
      ok (record s3 { helper = garbage; helper_length = 2 * size })) in
    if leb ((s.size + 1) * 2) int_max then grown else fault

-- `roomy c level max_dep` stands for the test in floating point,
-- `c <= ((float) (1<<level)-1)*(1.0-((((float)level)/max_dep)*0.6))`.
module _ (roomy : ℕ → ℕ → ℕ → Bool) where
  -- The end of both cases of `insert_rec`, with the count of the keys in `helper`.
  unfoldable pub settle : (fuel : ℕ) → ℕ → ℕ → Veb → Run (ℕ × Veb)
  unfolding rebuild
  settle fuel node c s =
      let anew : Run (ℕ × Veb) = (do s' ← rebuild fuel node s; ok (0, s')) in
      if roomy c s.level s.max_dep then anew else ok (c, s)

  -- After an insertion to the left that has left `c` keys in `helper`.
  unfoldable pub spill_right : (fuel : ℕ) → ℕ → ℕ → Veb → Run (ℕ × Veb)
  unfolding settle push_right r_count down
  spill_right fuel node c s = do
    x ← val_at node s
    s1 ← push_right x s
    s2 ← put_val node (negsuc 3) s1
    (right, s3) ← down 1 s2
    (c', s4) ← r_count fuel right s3
    settle (fuel + 1) node (c + c' + 1) (up s4)

  -- After an insertion to the right.
  unfoldable pub spill_left : (fuel : ℕ) → ℕ → ℕ → Veb → Run (ℕ × Veb)
  unfolding settle push_left l_count down
  spill_left fuel node c s = do
    x ← val_at node s
    s1 ← push_left x s
    s2 ← put_val node (negsuc 4) s1
    (left, s3) ← down 0 s2
    (c', s4) ← l_count fuel left s3
    settle (fuel + 1) node (c + c' + 1) (up s4)

  unfoldable pub insert_rec : (fuel : ℕ) → ℕ → Veb → Run (ℕ × Veb)
  unfolding down spill_left spill_right
  insert_rec zero node s = blocked
  insert_rec (suc fuel) node s =
      let full : Run (ℕ × Veb) = (do
        s' ← put_helper s.size s.key (record s { lh = s.size; rh_end = s.size + 1 })
        ok (1, s')) in
      let vacant : Run (ℕ × Veb) = (do s' ← put_val node s.key s; ok (0, s')) in
      let less : Run (ℕ × Veb) = (do
        (left, s1) ← down 0 s
        (c, s2) ← insert_rec fuel left (record s1 { level = s1.level - 1 })
        let s3 = up (record s2 { level = s2.level + 1 })
        if c == 0 then ok (0, s3) else spill_right fuel node c s3) in
      let greater : Run (ℕ × Veb) = (do
        (right, s1) ← down 1 s
        (c, s2) ← insert_rec fuel right (record s1 { level = s1.level - 1 })
        let s3 = up (record s2 { level = s2.level + 1 })
        if c == 0 then ok (0, s3) else spill_left fuel node c s3) in
      let present : Run (ℕ × Veb) = ok (0, record s { was_in = true; keys = s.keys - 1 }) in
      let compared : Run (ℕ × Veb) = (do
        v ← val_at node s
        if int_eq max_int v
            then vacant
            else if int_lt s.key v
            then less
            else if int_lt v s.key
            then greater
            else present) in
      if in_tree node s then compared else full
