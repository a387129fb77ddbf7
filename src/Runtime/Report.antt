-- ===== src/Runtime/Report.antt =====
-- lib/runtime/AccessCountPrinter.h, and the getters of AccessCounter.h that it calls: the counters
-- as four tables. The texts of numbers, the characters of a literal, the names of types and the
-- estimate of the memory use, which computes with floating point numbers, come from outside.
pub mod Prints
use type_art.Prelude.{
  ℕ, zero, suc, Bool, true, false, if◌then◌else◌, List, [], ◌∷◌, ◌++◌, map, Option, none, some,
  String, length,
}
use type_art.Prelude.Int.{ℤ, pos, ltb_ℤ, ◌==ℤ◌}
use type_art.Runtime.Recorder.Thread.{ThreadRecorder, update_max}
use type_art.Runtime.Recorder.Access.{
  AccessRecorder, TypeCountMap, ThreadRecorderMap, count_of, sum_threads, get_stack_allocs,
  get_stack_allocs_free,
}
use type_art.Support.Table.{Text, Cell, Row, Table, right, left, titled, put_rows, print}

-- `THREAD_VALS_GETTER_FN`: the values of one counter, a thread each.
pub thread_data : (ThreadRecorder → ℤ) → ThreadRecorderMap → List ℤ
thread_data f [] = []
thread_data f ((tid, t) ∷ m) = f t ∷ thread_data f m

-- `maxVal` of the statistics, 0 without threads.
pub max_threads : (ThreadRecorder → ℤ) → ThreadRecorderMap → ℤ
max_threads f [] = pos 0
max_threads f ((tid, t) ∷ []) = f t
max_threads f ((tid, t) ∷ m) = update_max (f t) (max_threads f m)

abbrev pub get_stack_array : AccessRecorder → ℕ
get_stack_array r = sum_threads (λ t. t.stack_array) r.thread_recorders

abbrev pub get_stack_array_free : AccessRecorder → ℕ
get_stack_array_free r = sum_threads (λ t. t.stack_array_free) r.thread_recorders

abbrev pub get_max_stack_allocs : AccessRecorder → ℤ
get_max_stack_allocs r = max_threads (λ t. t.max_stack_allocs) r.thread_recorders

abbrev pub get_num_threads : AccessRecorder → ℕ
get_num_threads r = length r.thread_recorders

-- `std::set<int>::insert`
pub insert_type_id : ℤ → List ℤ → List ℤ
insert_type_id id [] = id ∷ []
insert_type_id id (k ∷ ks) =
    if id ==ℤ k then k ∷ ks else if ltb_ℤ id k then id ∷ k ∷ ks else k ∷ insert_type_id id ks

pub fill_set : TypeCountMap → List ℤ → List ℤ
fill_set [] ids = ids
fill_set ((id, n) ∷ m) ids = fill_set m (insert_type_id id ids)

pub type_id_set : AccessRecorder → List ℤ
type_id_set r = fill_set r.stack_free (
    fill_set r.heap_free
      (fill_set r.stack_alloc (fill_set r.global_alloc (fill_set r.heap_alloc []))))

abbrev pub alloc_counts : AccessRecorder → ℤ → List ℤ
alloc_counts r id =
    pos (count_of id r.heap_alloc)
    ∷ pos (count_of id r.stack_alloc)
    ∷ pos (count_of id r.global_alloc)
    ∷ []

abbrev pub free_counts : AccessRecorder → ℤ → List ℤ
free_counts r id = pos (count_of id r.heap_free) ∷ pos (count_of id r.stack_free) ∷ []

-- What comes from outside.
pub record ReportOps : Type 0 where
  pub num2str : ℤ → Text
  pub characters : String → Text
  pub type_name : ℤ → Text
  pub memory_use : ℤ → ℤ → ℕ → ℤ
  pub per_node_size_map : ℕ
  pub per_node_size_stack : ℕ

module _ (out : ReportOps) where
  abbrev pub number : ℤ → Cell
  number n = record { c = out.num2str n; align = right }

  -- `Row::make` of numbers.
  abbrev pub row : String → List ℤ → Row
  row label ns = record { label = out.characters label; cells = map number ns }

  abbrev pub alloc_rows : AccessRecorder → List Row
  alloc_rows r =
      row "Total heap" (pos r.heap_allocs ∷ pos r.heap_array ∷ [])
      ∷ row "Total stack" (pos (get_stack_allocs r) ∷ pos (get_stack_array r) ∷ [])
      ∷ row "Total global" (pos r.global_allocs ∷ pos r.global_array ∷ [])
      ∷ row "Max. Heap Allocs" (r.max_heap_allocs ∷ [])
      ∷ row "Max. Stack Allocs" (get_max_stack_allocs r ∷ [])
      ∷ row "Addresses checked" (pos r.addr_checked ∷ [])
      ∷ row "Distinct Addresses checked" (pos (length r.seen) ∷ [])
      ∷ row "Addresses re-used" (pos r.addr_reuses ∷ [])
      ∷ row "Addresses missed" (pos r.addr_missing ∷ [])
      ∷ row "Distinct Addresses missed" (pos (length r.missing) ∷ [])
      ∷ row "Total free heap" (pos r.heap_allocs_free ∷ pos r.heap_array_free ∷ [])
      ∷ row "Total free stack" (pos (get_stack_allocs_free r) ∷ pos (get_stack_array_free r) ∷ [])
      ∷ row "OMP Stack/Heap/Free" (pos r.omp_stack ∷ pos r.omp_heap ∷ pos r.omp_heap_free ∷ [])
      ∷ row "Null/Zero/NullZero Addr"
          (pos r.null_alloc ∷ pos r.zero_alloc ∷ pos r.null_and_zero_alloc ∷ [])
      ∷ row "User-def. types" (pos r.num_udef_types ∷ [])
      ∷ row "Estimated memory use (KiB)"
          (out.memory_use (get_max_stack_allocs r) r.max_heap_allocs r.global_allocs ∷ [])
      ∷ row "Bytes per node map/stack"
          (pos out.per_node_size_map ∷ pos out.per_node_size_stack ∷ [])
      ∷ []

  pub alloc_stats : AccessRecorder → Table
  alloc_stats r =
      let t = titled (out.characters "Alloc Stats from softcounters") in
      put_rows (record t { wrap_length = true }) (alloc_rows r)

  abbrev pub type_row : ℤ → List ℤ → Row
  type_row id ns = record {
    label = out.num2str id;
    cells = map number ns ++ (record { c = out.type_name id; align = left }) ∷ [];
  }

  abbrev pub type_rows : (ℤ → List ℤ) → List ℤ → List Row
  type_rows counts [] = []
  type_rows counts (id ∷ ids) = type_row id (counts id) ∷ type_rows counts ids

  pub type_table : AccessRecorder → Table
  type_table r =
      let t = titled (out.characters "Allocation type detail (heap, stack, global)") in
      put_rows (record t { table_header = 35 }) (type_rows (alloc_counts r) (type_id_set r))

  pub type_table_free : AccessRecorder → Table
  type_table_free r =
      let t = titled (out.characters "Free allocation type detail (heap, stack)") in
      put_rows (record t { table_header = 35 }) (type_rows (free_counts r) (type_id_set r))

  abbrev pub thread_row : ThreadRecorderMap → String → (ThreadRecorder → ℤ) → Row
  thread_row m name f = row name (thread_data f m)

  abbrev pub thread_rows : ThreadRecorderMap → List Row
  thread_rows m =
      thread_row m "Thread Heap Allocs" (λ t. pos t.heap_allocs)
      ∷ thread_row m "Thread Heap Arrays" (λ t. pos t.heap_array)
      ∷ thread_row m "Thread Heap Allocs Free" (λ t. pos t.heap_allocs_free)
      ∷ thread_row m "Thread Heap Arrays Free" (λ t. pos t.heap_array_free)
      ∷ thread_row m "Thread Stack Allocs" (λ t. pos t.stack_allocs)
      ∷ thread_row m "Thread Stack Arrays" (λ t. pos t.stack_array)
      ∷ thread_row m "Thread Max. Stack Allocs" (λ t. t.max_stack_allocs)
      ∷ thread_row m "Thread Stack Allocs Free" (λ t. pos t.stack_allocs_free)
      ∷ thread_row m "Thread Stack Array Free" (λ t. pos t.stack_array_free)
      ∷ []

  pub thread_table : AccessRecorder → Table
  thread_table r =
      let title =
        out.characters "Per-thread counter values ("
        ++ out.num2str (pos (get_num_threads r))
        ++ out.characters " threads)" in
      let t = titled title in
      put_rows (record t { table_header = 35 }) (thread_rows r.thread_recorders)

  pub print_all : List Table → Option Text
  print_all [] = some []
  print_all (t ∷ ts) = elim (print t) [
    | none ↦ none
    | some text ↦ elim (print_all ts) [ none ↦ none | some rest ↦ some (text ++ rest) ]
  ]

  -- `serialize`; `none` is an access out of range.
  pub serialize : AccessRecorder → Option Text
  serialize r = print_all (alloc_stats r ∷ type_table r ∷ type_table_free r ∷ thread_table r ∷ [])
