-- ===== src/Lib.antt =====
-- A verification library for rustly-core, a Ruby extension in Rust that compiles schemas and validates
-- values against them (ext/rustly_core/src). A schema is a JSON document. The compiler parses it into
-- a type expression and stores that in an arena of nodes, in which equal nodes are shared. The
-- validator walks the arena and a value together, coerces the value, collects issues with their
-- paths, and returns either a coerced value or the issues.
--
-- The parts, and where they are modelled:
--   Base: the shared names, and what the code takes from the Rust standard library (integers of 64
--     bits in Base/Int, floats by their bits in Base/Float, functions on texts in Base/Text).
--   Json: the values of serde_json; Json/Size has their sizes, Json/Lookup what is found in a map.
--   Host: the conversions of floats, Unicode lower case, and the reading and printing of JSON, which
--     are parameters of the model. No law is assumed of them.
--   Schema/Ir (schema/ir.rs): nodes, `SchemaArena::alloc` and `get`, `InternTable::intern`.
--   Schema/Expr, Schema/Build (schema/compiler.rs): `TypeExpr`, `build_ir`, `build_type_expr`.
--     Build/Denotes reads an arena back, Build/Invariant has the invariant of arena and table.
--   Schema/Error, Options, Enums, Holders, Parse (schema/compiler.rs): `CompileError`, the options and
--     constraints of a type, and the `parse_` functions: those of enums, those of the types that hold
--     others, and those that dispatch. Parse/Post says what a result of the parser
--     satisfies, Parse/Leaf, Shape and Inside carry it through the functions, Parse/Total through the
--     recursion. Parse/Enums is about the variants of an enum, Options/Merge about merged options.
--   Schema/Document (schema/compiler.rs): `SchemaDocument`, and `SchemaCompiler::compile` from the
--     text to the arena.
--   Schema/Plan (schema/compiled.rs): `MaterializePlan` and `build_materialize_plan`; the ids that
--     Ruby gives to names are a parameter, `RubyIds`.
--   Validation/Options, Value, Path, State, Format, Leaf, Engine, Result (validation/options.rs,
--     value.rs and engine.rs): the options, `OwnedValue`, `format_path`, the state of `Validator`, the
--     tests of formats (Format/Uuid has the grammar of a UUID), the coercions and constraints, the
--     `validate_` methods by their names, and the entry `validate_prepared_input`.
--   Validation/Spec: what a validation gives, as a recursive function on the type expression without
--     state; Spec/Refines carries it over to the walk.
--   Validation/Accepts: which values a type expression accepts and what they become, as predicates.
--   Pipeline: a schema is compiled and values are validated against it.
--   Schema/Compiled, Schema/Summary (schema/compiled.rs and compiler.rs): `CompiledSchema` with its
--     counter, and `summary_from_value`; Summary/Cut says where a summary is cut.
--   Ruby (ruby_helpers.rs): what the extension reads of Ruby objects, as the record `Reads` of the
--     calls of the C API, and `truthy`, `hash_lookup`, `value_to_bool` and their like.
--   Input (validation/input.rs): `prepare_input`, `convert_ruby_value` and what they call. Input/Shape
--     has the tree that the reads of an object show, Input/Spec the value that is read off a tree,
--     Input/Follows and Types carry it over to the conversion, Input/Refines and Prepare to the whole.
--   Materialize (materialize.rs): `owned_value_to_ruby`, and in Materialize/Instance
--     `materialize_instance` and `deep_freeze_value`, on Ruby's heap, the record `RubyHeap` of the calls
--     that change it. Materialize/Bad, Runs and Fails say where a value has no Ruby object,
--     Instance/Frozen what is frozen, Instance/Fields which field a name has, Instance/Laws and
--     Variables what the variables of the object hold.
--   Native/Options (lib.rs): `parse_options` and the `map_` functions; Options/Given is about options
--     that a hash gives.
--   Native/Errors (errors.rs, lib.rs, ruby_helpers.rs): `ErrorSet`, the error sets, and the message of
--     an argument error.
--   Heap: what stands at each object of Ruby's heap, the record `HeapLaws` of what the calls of the C API
--     do to it, and the trees of objects that runs of such calls make. Heap/Values (materialize.rs) is
--     about `owned_value_to_ruby`, Heap/Messages (ruby_helpers.rs, lib.rs) about `json_value_to_ruby` and
--     `error_set_messages`.
--   Native/Messages, TypedData (ruby_helpers.rs, lib.rs): `ensure_symbol`, `json_value_to_ruby`,
--     `map_to_ruby` and `error_set_messages` on the heap; the Rust values that Ruby objects hold.
--   Native/Methods, Init (lib.rs): the methods and allocators of the objects, and `Init_rustly_core`.
--   Native/Gvl (ruby_helpers.rs): `call_without_gvl` and `execute_with_gvl`, on the flag `SKIP_GVL`.
--   Native/Flow, Compile, Build (lib.rs): the methods `validate`, `bench_prepare`, `bench_validate`;
--     `compile` with `SchemaCompiler::compile` and `RubyJson`; `build` and `build_synced`.
--     Flow/Answer and Build/Ends say what a method should answer and how `build` should end,
--     Flow/Expected, Compile/Sound and Decides, and Build/Conforms relate them to the type expression.
--   Tests: runs on a small schema, and on small heaps of Ruby; Tests/Heap has one with cells.
--
-- Methods with `&mut self` are functions from the state of the validator to an outcome: a result and
-- the new state, a panic, or no fuel left. The walk takes fuel, one unit for each node on the way
-- down, and gets the length of the arena, which is enough because children stand before their
-- parents. `parse_type_expr` takes fuel too, one unit for each type on the way down, and
-- `from_value` gives it the size of the document, which is enough because what is parsed inside a
-- document is smaller. The conversion of Ruby objects and `deep_freeze_value` take one unit for each
-- object on the way down: the number of objects of a tree is enough for the first, the number of its
-- levels for the second, and for an array that holds itself no fuel is enough.
-- Node numbers are cut to 32 bits, as in the code, and theorems on compiled schemas assume at most
-- 2^32 parts. Where Ruby is called, a method ends with a value and the flag of the thread, or is left
-- by an exception; a panic, which ends the process, and a run without end are one case, `stuck`.
-- `rb_thread_call_without_gvl` may raise an exception or run its function any number of times.
--
-- `HeapLaws` and `ClassLaws` say what Ruby's manual says of the C API: new objects are new, a push and
-- a new key add at the end, and nothing else changes. The calls that make ids and symbols, such as
-- `rb_intern2`, are taken to raise no exception.
--
-- Not modelled: what frees, marks and measures typed data for Ruby's collector (lib.rs and
-- ruby_helpers.rs), and the collector itself, so that by `HeapLaws` an object stays what it is while
-- others are made; the bump arena (validation/arena.rs) and the guards of materialize.rs, which hold
-- memory and change no value.
pub mod Base
pub mod Json
pub mod Host
pub mod Ruby
pub mod Input
pub mod Heap
pub mod Materialize
pub mod Native
pub mod Schema
pub mod Validation
pub mod Pipeline
pub mod Tests
