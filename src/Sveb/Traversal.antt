-- ===== src/Sveb/Traversal.antt =====
-- The recursions of staticvebtree.c that visit each node in order: `impl_fill`, `impl_acc_all` and
-- `impl_report_depth`.
use green_hash_tree.Prelude.{ℕ, zero, suc, ◌+◌, ◌-◌, if◌then◌else◌, ltb}
use green_hash_tree.Prelude.Int.{pos}
use green_hash_tree.Prelude.Run.{Run, ok, blocked, ◌>>=◌}
use green_hash_tree.Msgq.{increment}
use green_hash_tree.Sveb.{Veb, val_at, put_val, in_tree, to_root, down, up, plus_one}

-- What such a recursion does around a call for a child, and at a node.
pub record Walk : Type 0 where
  pub before : Veb → Run Veb
  pub after : Veb → Veb
  pub visit : ℕ → Veb → Run Veb

-- The recursion: the left subtree, the node, the right subtree.
unfoldable pub walk : Walk → (fuel : ℕ) → ℕ → Veb → Run Veb
unfolding down
walk w zero ad s = blocked
walk w (suc fuel) ad s =
    let inside : Run Veb = (do
      (left, s1) ← down 0 s
      s2 ← w.before s1
      s3 ← walk w fuel left s2
      s4 ← w.visit ad (w.after (up s3))
      (right, s5) ← down 1 s4
      s6 ← w.before s5
      s7 ← walk w fuel right s6
      ok (w.after (up s7))) in
    if in_tree ad s then inside else ok s

-- `val[ad] = nextvalue++`
unfoldable pub number_node : ℕ → Veb → Run Veb
unfolding increment
number_node ad s = do
  s' ← put_val ad (pos s.next_value) s
  next ← increment s.next_value
  ok (record s' { next_value = next })

abbrev pub numbering : Walk
unfolding number_node
numbering = record { before = ok; after = λ s. s; visit = number_node }

unfoldable pub impl_fill_al_rec : (fuel : ℕ) → ℕ → Veb → Run Veb
unfolding walk number_node
impl_fill_al_rec fuel ad s = walk numbering fuel ad s

unfoldable pub impl_fill : Veb → Run Veb
unfolding impl_fill_al_rec to_root
impl_fill s = do
  s' ← to_root (record s { next_value = 0; size = s.n })
  impl_fill_al_rec (s'.max_dep + 1) 0 s'

-- `val[ad]++`
unfoldable pub increment_node : ℕ → Veb → Run Veb
unfolding plus_one
increment_node ad s = do x ← val_at ad s; x' ← plus_one x; put_val ad x' s

abbrev pub incrementing : Walk
unfolding increment_node
incrementing = record { before = ok; after = λ s. s; visit = increment_node }

unfoldable pub impl_acc_al_rec : (fuel : ℕ) → ℕ → Veb → Run Veb
unfolding walk increment_node
impl_acc_al_rec fuel ad s = walk incrementing fuel ad s

unfoldable pub impl_acc_all : Veb → Run Veb
unfolding impl_acc_al_rec to_root
impl_acc_all s = do s' ← to_root s; impl_acc_al_rec (s'.max_dep + 1) 0 s'

-- `sum_path=sum_path+depth;if(depth>maxd)maxd=depth;`
abbrev pub add_path : ℕ → Veb → Run Veb
add_path ad s = ok (record s {
  sum_path = s.sum_path + s.depth;
  max_path = if ltb s.max_path s.depth then s.depth else s.max_path;
})

-- `depth++` and `depth--` stand around each call.
abbrev pub measuring : Walk
measuring = record {
  before = λ s. ok (record s { depth = s.depth + 1 });
  after = λ s. record s { depth = s.depth - 1 };
  visit = add_path;
}

unfoldable pub impl_report_depth_rec : (fuel : ℕ) → ℕ → Veb → Run Veb
unfolding walk
impl_report_depth_rec fuel ad s = walk measuring fuel ad s

unfoldable pub impl_report_depth : Veb → Run Veb
unfolding impl_report_depth_rec to_root
impl_report_depth s = do s' ← to_root s; impl_report_depth_rec (s'.max_dep + 1) 0 s'
