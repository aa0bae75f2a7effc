-- ===== src/Lib.antt =====
-- kmp-lsp, a language server for Kotlin, Java and Swift: the parts of the Rust server (src/) that
-- decide without a syntax tree, with their correctness. The server is one actor, which owns the
-- workspace: it starts scans that fill an index of symbols, and a background crawl of JARs. Requests
-- read the index; the resolver narrows the candidates of a name by package, module and import, and the
-- inference substitutes type arguments in the texts of declarations.
--
-- Workspace models the actor. Workspace/Root is src/indexer/workspace_root.rs, the root with its
-- generation; Workspace/Queue is src/workspace/scan_queue.rs; Workspace/Phase is
-- src/workspace/phase.rs and the sources of src/workspace/mod.rs; Workspace/Progress is
-- src/workspace/progress_tracker.rs and progress_coordinator.rs; Workspace/Jar is the crawl of
-- src/workspace/scan_handler.rs with src/indexer/jar_phase.rs and the parts of src/indexer/jar.rs and
-- src/indexer.rs that it calls. Workspace/Scan is src/workspace/scan_handler.rs: its record World
-- holds what the handlers and the spawned tasks share, and each handler is a function on it.
-- Workspace/Scan/Moves is the loop `Actor::run` and the scheduler: a move is an event, a message, or
-- one stretch of a spawned task between two points where another may run, so a list of moves is an
-- interleaving. Workspace/Scan/Ready is the quiescence check at the end of a round of the loop.
--
-- Index models the write path of the index: Index/FileTable is the table of interned
-- files of src/types.rs; Index/Symbols is what a parsed file holds (src/types.rs) with
-- the keys and classes that src/indexer/apply.rs and cache.rs derive from it; Index/Store is the maps
-- with apply.rs and `reset_index_state` of src/indexer.rs, a map as a function and a FileId as the text
-- of its URL; Index/Bulk is `apply_workspace_result`; Index/Declared and Index/Others are about these.
--
-- Resolver models src/resolver/: Resolver/TieBreak is tie_break.rs with `location_package` of
-- package.rs and `path_from_uri` of src/path_util.rs; Resolver/ImportEdit is import_edit.rs;
-- Resolver/Hierarchy is hierarchy.rs, its two walks over what they read and collect at a class;
-- Resolver/Names is the text side of fd.rs and imports.rs and the languages of src/types.rs;
-- Resolver/Gradle is src/gradle_cache.rs.
--
-- TypeText reads the texts of types: TypeText/Names is src/str_ext.rs, TypeText/Args the bracket scans
-- of src/detail_text.rs, src/indexer/infer/type_subst.rs and sig.rs, TypeText/Detail the rest of
-- src/detail_text.rs. Signature is the text side of src/indexer/infer/sig.rs and args.rs, with CallShape
-- of deps.rs, and Signature/Reach the imports that reach a declaration. Subst is
-- src/indexer/infer/type_subst.rs with `apply_type_subst` of src/indexer/lookup.rs, and Subst/Chain what
-- that file asks of the trait InferDeps. Keywords and TextUtils are src/text_utils.rs, Markup is
-- src/indexer/html_md.rs.
--
-- Tokens is src/semantic_tokens/mod.rs from the point where the walks have produced their tokens:
-- Tokens/Order and Tokens/First are about the sort and the removal of doubles, Tokens/Decode about a
-- client that reads the encoded answer.
--
-- Completion is the collection of bare names in src/resolver/complete.rs: Completion/Matching its
-- scoring, Completion/Bare the collector, Completion/Cross the names of other packages with their
-- promotions, Completion/Answer the cap and the removal of doubles. Features/OnType is
-- src/features/on_type_formatting.rs. Cli is src/cli/args.rs: Cli/Flags the loop over the arguments,
-- Cli/Build the subcommands; Cli/Outcome is a result that may also end the process or panic.
--
-- Text is a text as a list of code points, with the methods of Rust's `str` and `char` that the source
-- uses; a byte offset at a character boundary is the index of that character, and lengths in bytes or
-- UTF-16 units are computed where the source reads them. The Unicode tables are a record that every
-- definition takes; Text.ascii_table is one. Base has the lists, options and tests on native numbers.
--
-- Generations are `u64` and wrap (% 2 ^ 64), so what rests on them asks for fewer than 2 ^ 63 - 1 moves:
-- one move adds two at most. Counters of progress wrap likewise. Bracket depths are `i32` in the
-- source and integers here: they stay within the length of the text. A loop that is not structural
-- takes fuel, one more than the length of its text, of which each round takes a character at least.
--
-- The loop over the command line takes fuel, which a hypothesis on the argument library bounds. The
-- walks over supertypes recurse on the levels that are left. In Workspace/Documents what stands
-- between two awaits is one move, and so are the guard and the write of a blocking job, each; a
-- generation is a counter of its own, as in the source, and wraps.
--
-- Parameters are the `url` crate (what the code reads of a parsed URL, and Url::parse), the `lexopt`
-- crate (what is next on a command line), the discovery of source paths on the disk, what a crawl
-- finds, the look-ups of InferDeps, what the walks over supertypes and the collection of completions
-- ask of the index and the rest of the resolver, and, of a document's text, its hash and whether the
-- parser has a tree for it. Not modelled are the parsers (tree-sitter), the library batch and the
-- caches of the index, the subprocesses, the saving of documents, the other requests, a lock
-- of a setting that is poisoned, and a panic inside a spawned task.
pub mod Base
pub mod Text
pub mod Keywords
pub mod TextUtils
pub mod TypeText
pub mod Subst
pub mod Markup
pub mod Resolver
pub mod Index
pub mod Workspace
pub mod Tokens
pub mod Cli
pub mod Features
pub mod Completion
pub mod Signature
