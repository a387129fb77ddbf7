-- ===== src/Lib.antt =====
-- TypeART: the types that the compiler registers, the tracker of typed allocations, the type database,
-- and the type queries.
--
-- The compiler pass gives an id and a layout to each type that a program allocates, and stores the
-- layouts in a file (lib/passes/typegen). An instrumented program calls the callbacks of
-- lib/runtime/CallbackInterface.h when it allocates and frees memory. The tracker keeps a map from
-- base addresses to type ids and counts, and a stack of the variables of each thread. A client
-- (lib/runtime/RuntimeInterface.h) asks for the type at an address: the base address search finds
-- the allocation, and the resolution walks the layouts of the type database, which lib/typelib
-- loads from that file, down to the type at the address. Soft counters record what happens. This
-- library models these parts of the repository, file by file:
--
-- - TypeLib/Types: the type ids and `StructTypeInfo` of lib/typelib/TypeInterface.h, TypeDatabase.h.
-- - TypeLib/TypeDb: lib/typelib/TypeDB.cpp, the vector of structs and the index `unordered_map`, as
--   a list and an association list. Invariant has the well-formedness and what `registerStruct`
--   keeps, Refinement the abstract view (a map from ids to layouts in which the first entry wins),
--   Kinds the sizes by kind of type, Reload the structs registered again.
-- - TypeLib/TypeIo: `load` and `store` of lib/typelib/TypeIO.cpp and `make_database` of
--   lib/typelib/TypeDB.cpp, over the operations `IoOps` of files; RoundTrip states what it needs of
--   them as `IsFaithful`.
-- - TypeLib/YamlTraits: the YAML traits of lib/typelib/TypeIO.cpp, which give the keys of a layout and
--   the conversion of its flag, over LLVM's documents and conversions, `YamlOps`; RoundTrip has what
--   it needs of those, `IsFaithfulYaml`, and that a document is read as it was written.
-- - Runtime/PointerMap: `MapOp` of lib/runtime/AllocMapWrapper.h on a `std::map`, as a list of
--   entries with ascending keys (Order); Contents has what a lookup finds after each operation,
--   Floor the base address search.
-- - Runtime/Recorder: lib/runtime/AccessCounter.h. `RecorderOps` is the interface that the tracker and
--   the queries call; Thread and Access are the recorder that counts. Sums and Counts have the sums
--   over the threads.
-- - Runtime/Tracker: lib/runtime/AllocationTracking.cpp, one function per handler. Alloc, Free, Leave
--   and Scope say what each does; Accounting, Levels and LevelSteps what the counters keep.
-- - Runtime/Callbacks: the `__typeart_` functions and `RTGuard` of lib/runtime/Runtime.h; a history
--   is a list of callbacks of several threads in the order in which they take the locks.
-- - Runtime/Resolution: lib/runtime/TypeResolution.cpp up to `getStructInfo`. Layout has the relation
--   `Holds` (what begins at an offset of a struct) and what a well-formed layout is; Member, Locate,
--   Lookup and Nesting are the search within a struct, Containing, Begins, Reply and Unique the one
--   within an allocation. Outcomes has the results: a value, a status, a fault or no fuel left.
-- - Runtime/Interface: the C functions at the end of TypeResolution.cpp, with Queries.
-- - Runtime/System: the constructor in lib/runtime/Runtime.cpp.
-- - Runtime/Report: lib/runtime/AccessCountPrinter.h, the counters as four tables, with Prints.
-- - Passes/IrTypes: what the pass asks LLVM about a type, as the operations `IrOps`.
-- - Passes/TypeUtil: the array types and sizes of lib/passes/support/TypeUtil.cpp.
-- - Passes/TypeHandlers: lib/passes/typegen, StructTypeHandler.cpp and VectorTypeHandler.cpp, with the
--   tables and ids of TypeManager.cpp. `StringMap` is an association list.
-- - Passes/TypeGen: the registrations of lib/passes/typegen/TypeManager.cpp. Registry has how the
--   tables agree, Rule an induction rule for the steps of a registration, and Runs, Vectors, Lookup,
--   Names and Ends use it. Laws and Target state what LLVM documents of types and data layouts;
--   Placement, Layouts, Laid, Describes and Resolvable relate the layouts to what the runtime's
--   resolution assumes, and Structs and Exact to the struct types themselves.
-- - Passes/Filter/CallGraph: lib/passes/filter/CGInterface.cpp, the call graph that a JSON file
--   describes; NameTables has its maps and sets. Ends and Worklist are about the search for the
--   functions reached, Bodies and Reachability about the answers, Construction, Functions and Document
--   about the graph made of a document. `llvm::json` is the interface `JsonOps`.
-- - Passes/MemOps: the names in lib/passes/analysis/MemOpData.h.
-- - Passes/Filter/IrPath: IRPath.h and IRSearch.h of lib/passes/filter, over what LLVM answers about
--   a value, `ValueOps`. BaseFilter is FilterBase.h, with the parameters of its template as arguments;
--   Walk has the walks along uses, Successors and Keeps the search from a value, Safe the whole filter.
-- - Passes/DefUseChain: lib/passes/support/DefUseChain.h, a traversal with any direction and callback;
--   Uses has the values that uses lead to, Steps a round, Finds the traversals that look for a value.
-- - Passes/Filter/Allocas: `isTempAlloc` and `allocaReachesTask`, two such traversals.
-- - Passes/Filter/CallSites: FilterUtil, Matcher.h and OmpUtil.h; ForwardFilters the answers of
--   StdForwardFilter.cpp and CGForwardFilter.cpp, and Standard that the first may be searched with.
-- - Support/Table: lib/support/Table.h, which lays out the report of the counters; Widths has the
--   widths of the columns, Lines the printed rows, Flat the tables without columns.
-- - Tests: two nested structs and small programs, to which the results are applied.
--
-- An address and a `size_t` are numbers below 2 ^ 64, and the sums and differences of the
-- resolution wrap around there; a type id is an integer. The casts of the stack's size to `int`
-- wrap at 2 ^ 31. Counters do not wrap, and the count of structs does not; the ids made of it are
-- cast to an `int`. The loop of `getTypeInfoInternal` runs on fuel, one round for each level of
-- nesting; a rank of the struct ids measures the nesting, and a fuel above the rank is enough. A
-- registration runs on fuel for types in types: 2 more than the nesting depth is enough. The search
-- in a call graph runs on fuel for its rounds: as many as the graph has calls are enough, and
-- `call_bound` counts them. The search along uses runs on fuel for the length of its path, which
-- the number of values bounds, and the search into definitions on fuel for the calls entered. A
-- traversal runs on fuel for its rounds, as many as there are values. The other loops are
-- structural recursion. A fault is a failed assertion or undefined behaviour: a division by 0, a
-- read out of range, a range that ends before it starts.
--
-- Not modelled: log output; the mean and the deviation over threads; the parts of the compiler pass
-- that find and instrument instructions (lib/passes/analysis, instrumentation), and
-- `isTaskRelatedStore` of lib/passes/filter/OmpUtil.h, whose answers are arguments of the filters;
-- the MPI interceptor; System.cpp, whose source locations are an argument of the query. The locks
-- of the map and the recorder are held within one operation, so an operation is one step.
pub mod Prelude
pub mod TypeLib
pub mod Runtime
pub mod Passes
pub mod Support
pub mod Tests
