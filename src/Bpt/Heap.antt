-- ===== src/Bpt/Heap.antt =====
-- The memory of the B+ tree: nodes and records at addresses, the locks, and programs that change it.
use green_hash_tree.Prelude.{
  ℕ, ◌+◌, ◌≤◌, ◌≡◌, refl, ap, if◌then◌else◌, ◌==◌, Bool, true, false, Option, none, some, List, [],
  ◌∷◌, ◌++◌, get_elem?, set, length,
}
use green_hash_tree.Prelude.Int.{ℤ}
use green_hash_tree.Prelude.Run.{Run, ok, blocked, fault}
use green_hash_tree.Msgq.{Mutex, open_mutex, lock_mutex, unlock_mutex}
use green_hash_tree.Shm.{Chars}
use green_hash_tree.Bpt.{Leaf}

-- A `void *` of a node: NULL, a node or a record, by address.
pub data Ptr : Type 0 where
  null : Ptr
  to_node : ℕ → Ptr
  to_record : ℕ → Ptr

-- `node`: its arrays with `num_keys`, and the rest. Its `next` serves the printing alone.
pub record Node : Type 0 where
  pub entries : Leaf Ptr
  pub is_leaf : Bool
  pub parent : Option ℕ
  pub lock : Mutex

-- `record`
pub record Record : Type 0 where
  pub value : ℤ
  pub simdata : Chars

-- Nodes are never freed by the operations that the stores use; a record is `none` once it is freed.
pub record Heap : Type 0 where
  pub nodes : List Node
  pub records : List (Option Record)
  pub global_lock : Mutex
  pub example : Chars

-- What a run depends on: `order`; what a read of the word behind the `order - 1` keys gives, which the
-- code tries; and what `malloc` leaves in the arrays of a node, by its address, and in the temporary
-- arrays, as long as a split of an inner node asks for (that of a leaf asks for one pointer fewer, and
-- writes no further).
pub record Memory : Type 0 where
  pub order : ℕ
  pub behind : Run ℤ
  pub fresh_keys : ℕ → List ℤ
  pub fresh_pointers : ℕ → List Ptr
  pub temp_keys : List ℤ
  pub temp_pointers : List Ptr

-- The arrays that `malloc` gives have the lengths that were asked for.
pub record MemoryLaws (mem : Memory) : Type 0 where
  pub order_least : 3 ≤ mem.order
  pub keys_length : (a : ℕ) → length (mem.fresh_keys a) + 1 ≡ mem.order
  pub pointers_length : (a : ℕ) → length (mem.fresh_pointers a) ≡ mem.order
  pub temp_keys_length : length mem.temp_keys ≡ mem.order
  pub temp_pointers_length : length mem.temp_pointers ≡ mem.order + 1

-- A program that may change the memory.
abbrev pub Prog : Type 0 → Type 0
Prog A = Heap → Run (A × Heap)

abbrev pub return : {A : Type 0} → A → Prog A
return a s = ok (a, s)

infixl 5 ◌>>=◌ ◌>>◌
abbrev pub ◌>>=◌ : {A B : Type 0} → Prog A → (A → Prog B) → Prog B
◌>>=◌ m f s = elim (m s) [ blocked ↦ blocked | fault ↦ fault | ok (a, s') ↦ f a s' ]

abbrev pub ◌>>◌ : {B : Type 0} → Prog (Unit {0}) → Prog B → Prog B
m >> k = m >>= λ _. k

-- A computation that leaves the memory as it is.
abbrev pub lift : {A : Type 0} → Run A → Prog A
lift blocked s = blocked
lift fault s = fault
lift (ok a) s = ok (a, s)

-- A loop that needs more rounds than it has fuel; `blocked` stands for a run that does not end too.
abbrev pub no_fuel : {A : Type 0} → Prog A
no_fuel s = blocked

-- `c->…`, and the assignment of the whole node.
abbrev pub found : {A : Type 0} → Option A → Run A
found none = fault
found (some a) = ok a

unfoldable pub get_node : ℕ → Prog Node
get_node a s = lift (found (get_elem? s.nodes a)) s

unfoldable pub put_node : ℕ → Node → Prog (Unit {0})
put_node a n s = ok (tt, record s { nodes = set s.nodes a n })

-- A pointer that is followed as a `node *`.
abbrev pub as_node : Ptr → Run ℕ
as_node null = fault
as_node (to_node a) = ok a
as_node (to_record a) = fault

-- A pointer that is kept as a `node *`, and may be NULL.
abbrev pub node_or_null : Ptr → Run (Option ℕ)
node_or_null null = ok none
node_or_null (to_node a) = ok (some a)
node_or_null (to_record a) = fault

abbrev pub ptr_eq : Ptr → Ptr → Bool
ptr_eq null null = true
ptr_eq (to_node a) (to_node b) = a == b
ptr_eq (to_record a) (to_record b) = a == b
ptr_eq _ _ = false

unfoldable pub lock_node : ℕ → Prog (Unit {0})
unfolding get_node put_node lock_mutex
lock_node a = do n ← get_node a; l ← lift (lock_mutex n.lock); put_node a (record n { lock = l })

unfoldable pub unlock_node : ℕ → Prog (Unit {0})
unfolding get_node put_node unlock_mutex
unlock_node a = do
  n ← get_node a
  l ← lift (unlock_mutex n.lock)
  put_node a (record n { lock = l })

unfoldable pub lock_global : Prog (Unit {0})
unfolding lock_mutex
lock_global s = (lift (lock_mutex s.global_lock) >>= λ l s. ok (tt, record s { global_lock = l })) s

unfoldable pub unlock_global : Prog (Unit {0})
unfolding unlock_mutex
unlock_global s =
    (lift (unlock_mutex s.global_lock) >>= λ l s. ok (tt, record s { global_lock = l })) s

-- `make_record`, and the 32 bytes that `insert` then copies into the record.
unfoldable pub make_record : ℤ → Prog ℕ
make_record value s = ok (
  length s.records,
  record s { records = s.records ++ (some (record { value = value; simdata = s.example }) ∷ []) },
)

-- `free` of a record.
unfoldable pub free_record : ℕ → Prog (Unit {0})
free_record r s = elim (get_elem? s.records r) [
  | none ↦ fault
  | some none ↦ fault
  | some (some x) ↦ ok (tt, record s { records = set s.records r none })
]

module _ (mem : Memory) where
  -- `malloc` of a node and of its arrays succeeds.
  unfoldable pub make_node : Prog ℕ
  make_node s =
      let a = length s.nodes in
      ok (
        a,
        record s {
          nodes =
              s.nodes
              ++ (record {
                entries = record {
                  keys = mem.fresh_keys a;
                  pointers = mem.fresh_pointers a;
                  num_keys = 0;
                };
                is_leaf = false;
                parent = none;
                lock = open_mutex;
              }
                  ∷ []);
        },
      )

  unfoldable pub make_leaf : Prog ℕ
  unfolding make_node get_node put_node
  make_leaf = do a ← make_node; n ← get_node a; put_node a (record n { is_leaf = true }); return a

-- How a program goes on after a first part that has ended.
pub bind-ok :
    {A B : Type 0} (m : Prog A) (f : A → Prog B) {s s' : Heap} {a : A}
    → m s ≡ ok (a, s')
    → (m >>= f) s ≡ f a s'
bind-ok m f e = rw (e, ◌>>=◌) refl

pub lift-ok :
    {A B : Type 0} {r : Run A} (f : A → Prog B) (s : Heap) {a : A}
    → r ≡ ok a
    → (lift r >>= f) s ≡ f a s
lift-ok f s e = rw e refl

pub get_node-ok :
    {B : Type 0} (s : Heap) (a : ℕ) {n : Node} (f : Node → Prog B)
    → get_elem? s.nodes a ≡ some n
    → (get_node a >>= f) s ≡ f n s
unfolding get_node
get_node-ok s a f e = bind-ok (get_node a) f (ap (λ r. lift (found r) s) e)

-- The branch that a program takes.
pub if-true :
    {A : Type 0} {b : Bool} (m n : Prog A) (s : Heap) → b ≡ true → (if b then m else n) s ≡ m s
if-true m n s e = rw e refl

pub if-false :
    {A : Type 0} {b : Bool} (m n : Prog A) (s : Heap) → b ≡ false → (if b then m else n) s ≡ n s
if-false m n s e = rw e refl
