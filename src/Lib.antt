-- ===== src/Lib.antt =====
-- hyperion (legms): a library that holds tables of radio astronomy data in distributed memory, on the
-- Legion runtime. The indexes of a column, and of the values that belong to a group of rows, are sets
-- of coordinate vectors; hyperion keeps such a set as an index tree, merges and prunes it, iterates
-- over it and passes it between tasks as bytes.
--
-- Prelude: tests on numbers as Booleans, lists over the native numbers, bytes of words, and the
-- results of code that can throw (Prelude/Outcome: `ok`, `throws`, `out_of_fuel`).
--
-- IndexTree: hyperion/IndexTree.h, `IndexTree<COORD_T>` and `IndexTreeIterator<COORD_T>`.
--   IndexTree/Tree       the data and operator==. The class has one member, the vector m_children, so
--                        that trees and vectors of (start, count, subtree) are one type.
--   IndexTree/Compact    compact() and the constructors from an extent, counts and blocks.
--   IndexTree/Pattern    the constructor that repeats a pattern.
--   IndexTree/Shape      is_array, is_leaf, size, index_range, height, rank, envelope.
--   IndexTree/Grow       grow_leaves, grow_leaves_at and pruned.
--   IndexTree/Merge      less_than and merged_with.
--   IndexTree/Serial     serialized_size, serialize, deserialize, and index_tree_serdez of
--                        hyperion/utility.cc.
--   IndexTree/Iterator   the iterator.
-- What a tree means is stated in two ways: `has_index` (IndexTree/Compact/Indexes), the coordinate
-- vectors that the iterator visits, and `has_path` (IndexTree/Compact/Paths), their prefixes.
-- `IsCompact` (IndexTree/Compact/Form) is the form that compact() gives to every tree.
--
-- Gridder: the arguments of the gridder, hyperion/gridder/args.h, hyperion/gridder/args.cc, and the
-- start of gridder_task in hyperion/gridder/gridder.cc.
--   Gridder/Args         ArgType and Args: one record for values and texts, complete or not.
--   Gridder/Fields       the members of Args with texts, by name (Gridder/Fields/Values: sequences of
--                        assignments, of which the last one for a name counts).
--   Gridder/Checked      the result of get_args: a failure with its message, or arguments.
--   Gridder/Tokens       the part of get_args that makes pairs of the command line, and has_help_flag.
--   Gridder/Config       read_config and load_config.
--   Gridder/Command      get_args: options by prefixes of their tags, files first.
--   Gridder/Nodes        as_node and as_args.
--   Gridder/Validate     validate_args.
--   Gridder/Startup      default_config, and what gridder_task does with the command line before it
--                        opens a table: help, get_args, the way through a node to values, validation.
-- Parameters, since their code is elsewhere: what yaml-cpp makes of a file (its entries, or the text of
-- an exception) and a node as a map from tags to scalars that read back, the classes and comparisons of
-- floats, the test for a regular file, which answers or throws, and what an output stream writes for a
-- value.
--
-- NullIo: hyperion/NullIO.cc, a casacore output that drops its bytes; a state of three integers, its
-- operations, and sequences of operations as a relation (NullIo/Range).
--
-- Partition: hyperion/ColumnSpacePartition.cc, from the description of a partition along axes to the
-- arguments of Legion's create_partition_by_restriction.
--   Partition/Restriction  create_partition_on_axes: numbers of colors, transform, extent, kind.
--   Partition/Create       the two create functions, on what they read of a column space: its axes,
--                          their uid, and the bounds of its index space.
--   Partition/Order        equality and order of AxisPartition (hyperion/utility.h).
-- Coordinates are integers there, and in NullIo: the code counts on their not overflowing.
--
-- TreeSpace: hyperion/tree_index_space.cc, the index space of an index tree, by rectangles.
--   TreeSpace/Task    TreeIndexSpaceTask: its assertions, dispatch and base_impl, and tree_index_space.
--                     Which rectangles Legion gives of an index space is a parameter.
--   TreeSpace/Rects   the points of rectangles.
--
-- MeasRef: hyperion/MeasRef.cc, measure references in two regions, of metadata and of values.
--   MeasRef/Measure      MClass, what the code reads of measures and references, the components.
--   MeasRef/Regions      points, regions, and checked reads and writes.
--   MeasRef/Extend       extend_index_ranks, which pads the indexes of a tree with zeros.
--   MeasRef/Trees        measure_index_trees, and the trees of create. Sets, Holding and Combined follow the
--                        sets of indexes through it; Children, Levels, Raw and Own those of the entries; Built,
--                        One, Whole and Created prove what the trees are; Mixed is about unequal references.
--   MeasRef/Entries      what regions hold for a measure, as a partial function of coordinates.
--   MeasRef/Points       points after a prefix, and contents that are changed there.
--   MeasRef/Initialize   initialize: visit and scan are the parts of a round of its loop; States,
--                        Components, Scan, Visit, Written and References prove what it writes.
--   MeasRef/Instantiate  instantiate: read_measure and attach are the parts of a round of its loop;
--                        States, Filled, Attach, Fresh and Restored prove what it builds.
--   MeasRef/RoundTrip    the two together.
--   MeasRef/Equiv        equiv and mclass; Decision and Initialized prove what equiv decides.
--   MeasRef/Create       create_regions, create, make and clone; Codes, Bounds, Made and Cloned prove what
--                        is kept.
-- What a value of casacore gives back of the vector it is made from is a parameter, make_value.
--
-- Bounds. Coordinates of index trees are natural numbers: the program's are not negative,
-- for a signed COORD_T too, and sums of coordinates stay in its range. size_t has 64 bits, and size()
-- wraps. Words in a buffer have 8 bytes, the least one first.
--
-- Fuel. merged_with and its loop take fuel for every block of the two trees and two more. deserialize
-- takes the length of its buffer and one more, since every call reads a word of its own. The loop over
-- an iterator takes any fuel above the number of indexes. The constructor that repeats a pattern takes
-- any fuel above a constant for the patterns that its theorems are about. get_args gives the loop over
-- the command line one more than the number of arguments, of which every round takes one or more.
--
-- std::sort is modelled by an insertion sort: compact() throws on blocks with one start, so that the
-- order in which it leaves them does not matter.
--
-- Utility: helpers of hyperion/utility.h and hyperion/utility.cc.
--   Utility/Serdez      vector_serdez and acc_field_serdez (Utility/Serdez/AccField), over the layout of
--                       their elements in memory: sizeof, and bytes that read back. vector_serdez<bool>
--                       is the layout of bool (Utility/Serdez/Layouts).
--   Utility/Redop       acc_field_redop::combine, which joins the rows of each value
--                       (Utility/Redop/Rows, Utility/Redop/Late) for all values
--                       (Utility/Redop/Sorted, Utility/Redop/Combine). The comparisons of values and of
--                       Legion's DomainPoints are a parameter. The loop over two vectors of rows
--                       takes fuel for three steps for each new row and one for each old one.
--   Utility/Strings     fstrcpy and hyperion::string, has_suffix, add_name_prefix.
--   Utility/Strings/Serdez  string_serdez, on a buffer with contents.
--   Utility/Axes        AxesRegistrar, a map as an association list, and column_is_axis.
--   Utility/Order       operator< of points and rectangles, on lists of natural coordinates.
--   Utility/Dimensions  has_unique_values and dimensions_map.
--   Utility/Divisor     min_divisor, on a size_t that wraps.
--
-- Not modelled: show and num_repeats of the tree, and everything that is a call of Legion, HDF5,
-- casacore, FFTW or Kokkos: tables, columns, the mapper, files, the launching of
-- tasks, the tasks of the gridder and the convolution functions.
pub mod Prelude
pub mod IndexTree
pub mod Utility
pub mod Gridder
pub mod NullIo
pub mod Partition
pub mod TreeSpace
pub mod MeasRef
