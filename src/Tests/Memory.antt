-- ===== src/Tests/Memory.antt =====
-- A memory for trees of order 4.
use green_hash_tree.Prelude.{refl, arith, [], replicate}
use green_hash_tree.Prelude.Int.{pos}
use green_hash_tree.Prelude.Run.{ok}
use green_hash_tree.Msgq.{open_mutex}
use green_hash_tree.Shm.{example_text}
use green_hash_tree.Bpt.Heap.{null, Heap, Memory, MemoryLaws}

abbrev pub mem : Memory
mem = record {
  order = 4;
  behind = ok (pos 0);
  fresh_keys = λ a. replicate 3 (pos 0);
  fresh_pointers = λ a. replicate 4 null;
  temp_keys = replicate 4 (pos 0);
  temp_pointers = replicate 5 null;
}

pub mem_laws : MemoryLaws mem
mem_laws = record {
  order_least = omega arith;
  keys_length = λ a. refl;
  pointers_length = λ a. refl;
  temp_keys_length = refl;
  temp_pointers_length = refl;
}

abbrev pub empty : Heap
empty = record { nodes = []; records = []; global_lock = open_mutex; example = example_text }
