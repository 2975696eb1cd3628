-- ===== src/Lib.antt =====
-- libdwarfpp: call frame information, location expressions, and the tree of DIEs with its types.
--
-- libdwarfpp wraps the C library libdwarf and adds what libdwarf leaves to its client: a decoder
-- and an interpreter of call frame instructions and readers of the augmentations of CIEs and FDEs
-- (src/frame.cpp, include/dwarfpp/frame.hpp), and an evaluator of location expressions with its
-- location lists and pieces (src/expr.cpp, include/dwarfpp/expr.hpp, with the table of the
-- computed operations in include/dwarfpp/spec.hpp). The look-ups in range lists and in the tables
-- of classes and tags come with them (src/attr.cpp, src/spec.cpp). It also navigates the tree of
-- DIEs with caches of its own (src/root.cpp) and computes with the types in that tree
-- (src/dies.cpp): their concrete types, sizes, layout and equality. These are the parts that this
-- library models.
--
-- Base holds what they share: Boolean tests (Base/Tests), lists measured by native numbers
-- (Base/Lists), integers and the signed readings of words (Base/Int), bit operations on bytes
-- (Base/Bits), and the outcomes of a run (Base/Results): a value, a failed assertion, undefined
-- behaviour, a read past the buffer, or one of the exceptions No_entry and Not_supported.
--
-- Reader is the byte readers of src/frame.cpp, read_uleb128 to read_addr: a cursor with its limit
-- is the list of the bytes that are left. Reader/Leb, Reader/Fixed and Reader/Consume hold their
-- lemmas.
--
-- Frame is call frame information. Frame/Decode is the constructor of frame_instrlist, one
-- function per label of its switch; its loop runs on fuel, the number of bytes, which is enough
-- as every round takes a byte (Frame/Total). Frame/Assemble is the description, an assembler of
-- the instructions with the operands that they are to be decoded to (deltas of advances as they
-- stand, without a code alignment factor, which the decoder does not have);
-- Frame/Factored, Frame/Operands and Frame/RoundTrip hold the decoder against it, and
-- Frame/Swapped tells where it leaves the standard. What of `cie` the decoder uses (the data
-- alignment factor) is a field of Params, with the two arguments and the host's byte order.
--
-- Frame/Rows is register_def, the rows (std::map, a list by ascending key, see Frame/Rules) and
-- the interface IntervalMap to boost::icl::interval_map, with what its documentation says of an
-- address that the map does not hold yet. Frame/Interpret is
-- FrameSection::interpret_instructions, with the local variables of its loop as the record
-- Working, and Fde::decode; libdwarf's expansion of an expression block and its number for the
-- CFA column are parameters. Frame/InForce and Frame/Coverage describe the rows address by
-- address, Frame/Remember and Frame/States the stack of remembered rows, Frame/Restore the rules
-- of single registers, Frame/Saved the way from bytes to a rule, and Frame/Accepts and
-- Frame/Accepted which instructions are interpreted to the end. Frame/Equality is operator== of
-- register_def.
--
-- Cie is the augmentation of a CIE: Cie/Encoding is read_with_encoding and encoding_nbytes,
-- Cie/Augmentation is Cie::init_augmentation_bytes, find_augmentation_element and
-- get_fde_encoding, on the fields of the record Cie; what the ELF machine says of addresses is a
-- parameter. Cie/Pointers, Cie/Elements and Cie/Init hold them against descriptions of pointers,
-- elements and CIE heads. Cie/Fde is the same for an FDE, Fde::init_augmentation_bytes and
-- get_lsda_pointer, and Cie/HdrTable is hdr_tbl_iterator, which reads the search table of
-- .eh_frame_hdr.
--
-- Expr is location expressions. Expr/Eval is the class evaluator: the stack has its top first,
-- the iterator is the list of the operations that are left, and the register file is a function
-- if the client has given one. Expr/Arith compiles arithmetic terms to operations, Expr/Depth and
-- Expr/Machine tell the stack depth that each operation needs and leaves, Expr/Keeps what no
-- operation changes, Expr/Literals what literals do, and Expr/Resume follows an evaluation over a
-- DW_OP_piece. Expr/Locate is the choice of an entry of a location list by address, in the
-- constructor of evaluator and in loclist::loc_for_vaddr; Expr/Additive is
-- absolute_loclist_to_additive_loclist. Expr/Pieces is byte_pieces, piece_for_byte_offset,
-- all_pieces and the methods of piece; Expr/Split and Expr/Partition hold them against
-- expressions that are put together from pieces.
--
-- Spec is what src/spec.cpp computes from its tables: explicit_interp, which chooses how an
-- attribute's value is interpreted from the classes that the attribute and the form permit, and
-- the predicates on tags of dwarf4_t. Spec/Classes tells which class is chosen, Spec/Tags how the
-- predicates relate.
--
-- Ranges is rangelist::find_addr (src/attr.cpp), with Ranges/Offsets on the offset that it
-- counts, and Ranges/Normalize is compile_unit_die::normalize_rangelist (src/dies.cpp), on whose
-- results find_addr is run.
--
-- Tree is the navigation of the DIEs of a file: root_die (src/root.cpp, include/dwarfpp/root.hpp,
-- include/dwarfpp/root-inl.hpp) and the iterators (include/dwarfpp/iter.hpp). The record RootDie
-- is the caches of root_die, and the record Libdwarf is the parameter for what the C library
-- answers about the file. Member functions are actions on RootDie. Tree/Cu is the context of
-- compilation units, Tree/Moves first_child and next_sibling, Tree/Find pos, find, depth and
-- parent, and Tree/Siblings, Tree/BreadthFirst and Tree/DepthFirst are the increments of the
-- three iterators. Tree/Layout is the layout of units that the
-- context of compilation units depends on. Tree/Context, Tree/Caches, Tree/Edges, Tree/FirstChild, Tree/NextHandle,
-- Tree/NextSibling and Tree/Parents hold the moves against the tree and keep the caches
-- consistent with it; Tree/Forest, Tree/Climb, Tree/Preorder and Tree/Visits follow a whole
-- traversal. A depth is looked up each time that it is asked for: the source stores it in the
-- iterator. The loop over the units has the size of .debug_info for fuel, and each unit is at a
-- larger offset; the climb of find_upwards has the offset, as a parent is at a smaller one.
--
-- Types is types as DIEs (src/dies.cpp, include/dwarfpp/dies.hpp). TypeDie is what the methods
-- read from a DIE, and virtual calls are dispatched on the class of its tag. Types/Concrete is
-- get_concrete_type, get_unqualified_type and get_ultimate_reached_type, Types/Sizes
-- calculate_byte_size with the counts of arrays, Types/Layout the alignment and the generic
-- pointees of a compilation unit, and Types/Equality is may_equal, where the recursive call of
-- type_die::equal is an argument. Types/Members is byte_offset_in_enclosing_type, with the
-- evaluator of Expr, and Types/Offsets its offsets. The recursion from type to type runs on fuel,
-- which is enough from the depth of the type on. Types/Chains, Types/Products, Types/Measures,
-- Types/ByteSize and Types/Alignment hold the concrete types and the sizes against descriptions,
-- Types/Compared and Types/ArrayEquality tell what may_equal compares. A tag is that of a type if
-- dwarf4_t::local_tag_is_type says so (Spec).
--
-- The codes of operations, tags and pointer encodings are the numbers of the DWARF standard.
--
-- Not modelled: the caches of type equality and the types of structures in it, the types of
-- bit-fields, variables and subprograms, DIEs that are made in memory, the resolution of names,
-- the values of attributes, name tables, the handles of libdwarf, operator< of register_def, the
-- ELF parts of frame sections, the translation of frame tables to location lists, and all output.
pub mod Base
pub mod Cie
pub mod Expr
pub mod Frame
pub mod Ranges
pub mod Reader
pub mod Spec
pub mod Tree
pub mod Types
