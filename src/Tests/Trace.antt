-- ===== src/Tests/Trace.antt =====
-- A run of a store with one partition, whose hash map has two buckets, and two clients: client 0 gets
-- the key 5, client 1 puts it, and the partition carries out both calls in that order.
use Prim.Native.String.{String}
use green_hash_tree.Prelude.{ℕ, ◌<◌, ◌≡◌, refl, true, Option, none, some, arith}
use green_hash_tree.Prelude.Int.{pos}
use green_hash_tree.Prelude.Run.{Run, ok, blocked, fault}
use green_hash_tree.Msgq.{
  Operation, op_add, op_read, queue_add, queue_read, queue_init, queue_of, lock_mutex, unlock_mutex,
  store_slot, load_slot, increment,
}
use green_hash_tree.Hash.{hash, simplehash, fold_high, mul32}
use green_hash_tree.Shm.{
  HashMap, insert_into_struct, search_struct, shm_put, shm_get, shm_new, wrlock, rdlock, unlock,
  bucket_of, bucket_at, put_links, put_bucket, find_links, find_bucket, leave_get,
}
use green_hash_tree.Shm.Substruct.{sized_struct, sized_laws}
use green_hash_tree.Substruct.{SubStruct, SubStructLaws}
use green_hash_tree.Gps.{
  Db, Partition, db_new, db_get_send, db_put_send, send, partition_of, fetch, perform, db_get_poll,
  db_put_poll,
}
use green_hash_tree.Gps.System.{
  System, initial, start, finish, with_partition, poll, write_answer, Reach, here, next, get, put,
  read, work,
}

abbrev blank : HashMap → String
blank m = ""

abbrev pub store : SubStruct
store = sized_struct blank 2

abbrev pub store_laws : SubStructLaws store
store_laws = sized_laws blank 2 (omega arith)

abbrev pub S : Type 0
S = System HashMap

abbrev s0 : S
s0 = initial store store_laws 2

abbrev default : {A : Type 0} → A → Run A → A
default a (ok b) = b
default a blocked = a
default a fault = a

abbrev asked : Operation
asked = record { key = pos 5; value = pos 0; type = op_read; retval = 0 }

abbrev pub told : Operation
told = record { key = pos 5; value = pos 9; type = op_add; retval = 1 }

abbrev db1 : Db HashMap
db1 = (default (asked, s0.db) (db_get_send store s0.db (pos 5))).1

get_call : db_get_send store s0.db (pos 5) ≡ ok (asked, db1)
unfolding db_get_send send partition_of queue_add queue_init queue_of lock_mutex unlock_mutex
    store_slot increment hash db_new initial start
get_call = refl

-- Client 0 has called `db_get`.
abbrev pub s1 : S
s1 = start store store_laws s0 0 asked db1

pub reach1 : Reach store store_laws 2 2 s1
unfolding initial
reach1 = next here (get 0 (pos 5) (omega arith) refl get_call)

abbrev db2 : Db HashMap
db2 = (default (asked, s0.db) (db_put_send store s1.db (pos 5) (pos 9))).1

put_call : db_put_send store s1.db (pos 5) (pos 9) ≡ ok (told, db2)
unfolding db_get_send db_put_send send partition_of queue_add queue_init queue_of lock_mutex
    unlock_mutex store_slot increment hash db_new initial start
put_call = refl

-- Client 1 has called `db_put`.
abbrev pub s2 : S
s2 = start store store_laws s1 1 told db2

pub reach2 : Reach store store_laws 2 2 s2
unfolding start initial
reach2 = next reach1 (put 1 (pos 5) (pos 9) (omega arith) refl put_call)

abbrev fetched : S → Partition HashMap
fetched s = default (s.db.substructlist 0) (fetch store (s.db.substructlist 0))

abbrev with_fetched : S → S
with_fetched s = record s { db = with_partition store store_laws s.db 0 (fetched s) }

abbrev performed : S → Operation → HashMap × Option ℕ
performed s o =
    default ((s.db.substructlist 0).root, none) (perform store (s.db.substructlist 0).root o)

abbrev finished : S → Operation → S
finished s o = finish store store_laws s 0 o (performed s o).0 (performed s o).1

-- The thread of the partition has read both calls and carried them out.
abbrev s3 : S
s3 = with_fetched s2

abbrev s4 : S
s4 = finished s3 asked

abbrev s5 : S
s5 = with_fetched s4

abbrev pub s6 : S
s6 = finished s5 told

-- A read of the queue and the work on what was read, when both go through.
read_step :
    {s : S}
    → 0 < s.db.numthreads
    → (s.db.substructlist 0).busy ≡ none
    → fetch store (s.db.substructlist 0) ≡ ok (fetched s)
    → Reach store store_laws 2 2 s
    → Reach store store_laws 2 2 (with_fetched s)
read_step h idle e r = next r (read 0 h idle e)

work_step :
    {s : S} (o : Operation)
    → 0 < s.db.numthreads
    → (s.db.substructlist 0).busy ≡ some o
    → perform store (s.db.substructlist 0).root o ≡ ok (performed s o)
    → Reach store store_laws 2 2 s
    → Reach store store_laws 2 2 (finished s o)
work_step o h busy e r = next r (work 0 h busy e)

reach3 : Reach store store_laws 2 2 s3
unfolding db_get_send db_put_send send partition_of queue_add queue_init queue_of lock_mutex
    unlock_mutex store_slot increment hash db_new initial start fetch queue_read load_slot
reach3 = read_step (omega arith) refl refl reach2

reach4 : Reach store store_laws 2 2 s4
unfolding db_get_send db_put_send send partition_of queue_add queue_init queue_of lock_mutex
    unlock_mutex store_slot increment hash db_new initial start fetch queue_read load_slot perform
    insert_into_struct search_struct shm_put shm_get shm_new wrlock rdlock unlock bucket_of
    bucket_at put_links put_bucket find_links find_bucket leave_get simplehash fold_high mul32
    finish write_answer
reach4 = work_step asked (omega arith) refl refl reach3

reach5 : Reach store store_laws 2 2 s5
unfolding db_get_send db_put_send send partition_of queue_add queue_init queue_of lock_mutex
    unlock_mutex store_slot increment hash db_new initial start fetch queue_read load_slot perform
    insert_into_struct search_struct shm_put shm_get shm_new wrlock rdlock unlock bucket_of
    bucket_at put_links put_bucket find_links find_bucket leave_get simplehash fold_high mul32
    finish write_answer
reach5 = read_step (omega arith) refl refl reach4

pub reach6 : Reach store store_laws 2 2 s6
unfolding db_get_send db_put_send send partition_of queue_add queue_init queue_of lock_mutex
    unlock_mutex store_slot increment hash db_new initial start fetch queue_read load_slot perform
    insert_into_struct search_struct shm_put shm_get shm_new wrlock rdlock unlock bucket_of
    bucket_at put_links put_bucket find_links find_bucket leave_get simplehash fold_high mul32
    finish write_answer
reach6 = work_step told (omega arith) refl refl reach5

pub found_nothing : poll store store_laws s6.db (s6.clients 0).request ≡ some (ok none)
unfolding db_get_send db_put_send send partition_of queue_add queue_init queue_of lock_mutex
    unlock_mutex store_slot increment hash db_new initial start fetch queue_read load_slot perform
    insert_into_struct search_struct shm_put shm_get shm_new wrlock rdlock unlock bucket_of
    bucket_at put_links put_bucket find_links find_bucket leave_get simplehash fold_high mul32
    finish write_answer poll db_get_poll db_put_poll
found_nothing = refl

pub was_put : poll store store_laws s6.db (s6.clients 1).request ≡ some (ok (some s6.db.intval))
unfolding db_get_send db_put_send send partition_of queue_add queue_init queue_of lock_mutex
    unlock_mutex store_slot increment hash db_new initial start fetch queue_read load_slot perform
    insert_into_struct search_struct shm_put shm_get shm_new wrlock rdlock unlock bucket_of
    bucket_at put_links put_bucket find_links find_bucket leave_get simplehash fold_high mul32
    finish write_answer poll db_get_poll db_put_poll
was_put = refl

pub waits0 : (s6.clients 0).waiting ≡ true
unfolding db_get_send db_put_send send partition_of queue_add queue_init queue_of lock_mutex
    unlock_mutex store_slot increment hash db_new initial start fetch queue_read load_slot perform
    insert_into_struct search_struct shm_put shm_get shm_new wrlock rdlock unlock bucket_of
    bucket_at put_links put_bucket find_links find_bucket leave_get simplehash fold_high mul32
    finish write_answer
waits0 = refl

pub waits1 : (s6.clients 1).waiting ≡ true
unfolding db_get_send db_put_send send partition_of queue_add queue_init queue_of lock_mutex
    unlock_mutex store_slot increment hash db_new initial start fetch queue_read load_slot perform
    insert_into_struct search_struct shm_put shm_get shm_new wrlock rdlock unlock bucket_of
    bucket_at put_links put_bucket find_links find_bucket leave_get simplehash fold_high mul32
    finish write_answer
waits1 = refl
